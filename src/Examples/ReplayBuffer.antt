-- ===== src/Examples/ReplayBuffer.antt =====
-- examples/03_replay_buffer/src/main.cpp: its command line, the off-load of the ring buffer to the
-- card, the profiles of the device and the comparison of the output. std::stoul and
-- coyote::MAX_TRANSFER_SIZE are parameters. Memory is a byte for each address.
pub mod Offload
pub mod Output
pub mod Runs
pub mod Main
use libstf.Base.{
  ℕ, zero, suc, ◌+◌, ◌-◌, ◌*◌, ◌/◌, ◌%◌, Bool, true, false, not, ◌&&◌, ◌||◌, List, [], ◌∷◌, ◌++◌,
  ltb, ◌==◌, if◌then◌else◌, min,
}
use libstf.Base.Word.{u32_mod, u64_mod, wrap_add, wrap_sub}
use libstf.Base.Action.{Action, Result, ok, err, out_of_fuel, ◌>>=◌, pure}
use libstf.Common.{memory_alignment_bytes}
use libstf.MemoryPool.Bounds.{Region}
use libstf.TlbManager.{TlbManager}
use libstf.Transfers
use libstf.Coyote.{CThread, local_offload, invoke, record_call}
use libstf.Configuration.{Config, read_register}
use libstf.Logging.{Text}
use libstf.Examples.CommandLine.{Opt, Outcome, parsed, exited, set_from, and_then, parse_options}

pub record Args : Type 0 where
  pub stream_bytes : ℕ
  pub num_streams : ℕ
  pub num_reads : ℕ
  pub ring_bytes : ℕ
  pub num_runs : ℕ
  pub seed : ℕ

abbrev pub default_args : Args
default_args = record {
  stream_bytes = 16777216;
  num_streams = 4;
  num_reads = 3;
  ring_bytes = 1073741824;
  num_runs = 3;
  seed = 42;
}

-- The switch of parse_args.
abbrev pub set_option : (Text → Result ℕ) → Opt → Args → Outcome Args
set_option stoul o args =
    let value = stoul o.optarg in
    if o.opt == b'b'
    then set_from value (λ n. record args { stream_bytes = n })
    else if o.opt == b'n'
    then set_from value (λ n. record args { num_streams = n })
    else if o.opt == b'k'
    then set_from value (λ n. record args { num_reads = n })
    else if o.opt == b'm'
    then set_from value (λ n. record args { ring_bytes = n })
    else if o.opt == b'r'
    then set_from value (λ n. record args { num_runs = n })
    else if o.opt == b's'
    then set_from value (λ n. record args { seed = n })
    else if o.opt == b'h'
    then exited 0
    else exited 1

-- The checks after the loop.
unfoldable pub check_args : Args → Outcome Args
check_args args =
    if args.stream_bytes == 0 || not (args.stream_bytes % 8 == 0)
    then exited 1
    else if args.num_streams == 0
    then exited 1
    else if args.num_reads == 0
    then exited 1
    else if not (args.ring_bytes % memory_alignment_bytes == 0)
    then exited 1
    else parsed args

unfoldable pub parse_args : (Text → Result ℕ) → List Opt → Outcome Args
unfolding check_args
parse_args stoul options =
    and_then (parse_options (set_option stoul) options default_args) check_args

-- main rounds the ring buffer up to whole pages.
abbrev pub ring_alloc_bytes : ℕ → ℕ → ℕ
ring_alloc_bytes ring_bytes ring_alignment =
    wrap_sub u64_mod (wrap_add u64_mod ring_bytes ring_alignment) 1
    / ring_alignment
    * ring_alignment
    % u64_mod

-- The transfers of a stream, and the check that a stream that is read more than once fits.
abbrev pub stream_transfers : ℕ → ℕ → ℕ
stream_transfers stream_bytes transfer_size =
    wrap_sub u64_mod (wrap_add u64_mod stream_bytes transfer_size) 1 / transfer_size

abbrev pub is_too_large : Args → ℕ → Bool
is_too_large args transfer_size =
    ltb 1 args.num_reads
    && ltb args.ring_bytes
        ((stream_transfers args.stream_bytes transfer_size + 1) * transfer_size % u64_mod)

-- The same text as in examples/02_typed_dictionary/src/main.cpp.
abbrev pub enqueue_stream_output : ℕ → (ℕ → Result Region) → ℕ → ℕ → ℕ → Action TlbManager ℕ
enqueue_stream_output max_transfer_size get_page_boundaries =
    Transfers.enqueue_stream_output max_transfer_size get_page_boundaries

-- A synchronous off-load has neither a stream nor a mark; they are 0 and false here.
abbrev pub post_offload : ℕ → ℕ → CThread → CThread
post_offload addr len = record_call (invoke local_offload addr len 0 false)

module _ (max_transfer_size : ℕ) (get_page_boundaries : ℕ → Result Region) (end : ℕ) where
  -- One round at `byte_ptr`, in the page that was looked up, and then the loop at its end.
  abbrev pub offload_page :
      ℕ → (ℕ → Action CThread (Unit {0})) → Result Region → Action CThread (Unit {0})
  offload_page byte_ptr go (err e) t = (err e, t)
  offload_page byte_ptr go (ok (page, page_size)) t =
      go (page + page_size)
        (post_offload byte_ptr (min (min (page + page_size) end - byte_ptr) max_transfer_size) t)

  -- The loop, on fuel.
  unfoldable pub offload_on : ℕ → ℕ → Action CThread (Unit {0})
  offload_on zero byte_ptr t = if ltb byte_ptr end then (err out_of_fuel, t) else (ok tt, t)
  offload_on (suc fuel) byte_ptr t = elim (ltb byte_ptr end) [
    | false ↦ (ok tt, t)
    | true ↦ offload_page byte_ptr (offload_on fuel) (get_page_boundaries byte_ptr) t
  ]

-- Each round is at least one byte further, so the size is enough fuel.
unfoldable pub offload_to_card : ℕ → (ℕ → Result Region) → ℕ → ℕ → Action CThread (Unit {0})
unfolding offload_on
offload_to_card max_transfer_size get_page_boundaries ptr size =
    offload_on max_transfer_size get_page_boundaries (ptr + size) size ptr

pub record StreamProfile : Type 0 where
  pub handshake_cycles : ℕ
  pub starved_cycles : ℕ
  pub stalled_cycles : ℕ
  pub idle_cycles : ℕ
  pub num_streams : ℕ

abbrev pub total_cycles : StreamProfile → ℕ
total_cycles p =
    (p.handshake_cycles + p.starved_cycles + p.stalled_cycles + p.idle_cycles) % u64_mod

-- `profile += other`
abbrev pub add_profile : StreamProfile → StreamProfile → StreamProfile
add_profile p other = record {
  handshake_cycles = wrap_add u64_mod p.handshake_cycles other.handshake_cycles;
  starved_cycles = wrap_add u64_mod p.starved_cycles other.starved_cycles;
  stalled_cycles = wrap_add u64_mod p.stalled_cycles other.stalled_cycles;
  idle_cycles = wrap_add u64_mod p.idle_cycles other.idle_cycles;
  num_streams = wrap_add u64_mod p.num_streams other.num_streams;
}

-- `read(counter)`, whose argument becomes a uint32_t.
abbrev pub read_counter : Config → ℕ → ℕ → Action CThread ℕ
read_counter profile_config index counter =
    read_register profile_config ((1 + 5 * index + counter) % u32_mod) >>= λ r. pure r.value

unfoldable pub read_profile : Config → ℕ → Action CThread StreamProfile
unfolding read_register
read_profile profile_config index = do
  handshake ← read_counter profile_config index 0
  starved ← read_counter profile_config index 1
  stalled ← read_counter profile_config index 2
  idle ← read_counter profile_config index 3
  streams ← read_counter profile_config index 4
  pure (record {
    handshake_cycles = handshake;
    starved_cycles = starved;
    stalled_cycles = stalled;
    idle_cycles = idle;
    num_streams = streams;
  })

-- The byte at each address.
abbrev pub Memory : Type 0
Memory = ℕ → ℕ

-- `std::memcmp(p, q, n) == 0`
abbrev pub same_bytes : Memory → ℕ → ℕ → ℕ → Bool
same_bytes m p q zero = true
same_bytes m p q (suc n) = (m p == m q) && same_bytes m (p + 1) (q + 1) n

-- The little-endian number of `n` bytes, and `((const uint64_t *)p)[i]`.
abbrev pub bytes_at : Memory → ℕ → ℕ → ℕ
bytes_at m p zero = 0
bytes_at m p (suc n) = m p + 256 * bytes_at m (p + 1) n

unfoldable pub value_at : Memory → ℕ → ℕ → ℕ
value_at m p i = bytes_at m (p + 8 * i) 8

-- A line that is printed for a wrong value: its index, the actual and the expected value.
abbrev pub WrongValue : Type 0
WrongValue = ℕ × ℕ × ℕ

-- The loop over `count` values from `i` on: the number of wrong values and the lines so far.
unfoldable pub compare_values : Memory → ℕ → ℕ → ℕ → ℕ → ℕ → List WrongValue → ℕ × List WrongValue
compare_values m input output zero i num_wrong_values lines = (num_wrong_values, lines)
compare_values m input output (suc count) i num_wrong_values lines =
    elim (value_at m output i == value_at m input i) [
      | true ↦ compare_values m input output count (i + 1) num_wrong_values lines
      | false ↦ compare_values m input output count (i + 1) (num_wrong_values + 1) (
          if ltb num_wrong_values 5
          then lines ++ ((i, value_at m output i, value_at m input i) ∷ [])
          else lines)
    ]

-- The number of wrong values and the lines that are printed.
unfoldable pub verify_output : Memory → ℕ → ℕ → ℕ → ℕ × List WrongValue
unfolding compare_values value_at
verify_output m input output size =
    if same_bytes m input output size
    then (0, [])
    else compare_values m input output (size / 8) 0 0 []
