-- ===== src/Examples/OutputBuffers.antt =====
-- examples/01_output_buffer_manager/src/main.cpp: its command line, the thread that fetches the
-- results, their verification and the sums of the cycle counters. std::stoi is a parameter; memory is
-- a byte for each address.
pub mod Setup
use libstf.Base.{
  ℕ, zero, suc, ◌+◌, ◌-◌, ◌*◌, ◌/◌, ◌%◌, Option, none, some, List, [], ◌∷◌, ◌++◌, ◌==◌,
  if◌then◌else◌, get_or,
}
use libstf.Base.Word.{u32_mod, u64_mod, wrap_add}
use libstf.Base.Action.{Action, Result, ok, err, assertion_failed, ◌>>=◌, pure}
use libstf.Common.{maximum_output_writer_buffer_size}
use libstf.Buffer.{Buffer, MemoryPool}
use libstf.Coyote.{CThread}
use libstf.Configuration.{Config, read_register}
use libstf.OutputHandle.{OutputHandle, any_stream_has_more_output, get_next_stream_output}
use libstf.OutputBufferManager.Interrupt.{ℤ, pos, negsuc}
use libstf.Logging.{Text}
use libstf.Examples.CommandLine.{Opt, Outcome, exited, set_from, parse_options}
use libstf.Examples.Session.{and_also}
use libstf.Examples.ReplayBuffer.{Memory, value_at}

pub record Args : Type 0 where
  pub num_enqueued_buffers : ℕ
  pub buffer_size : ℕ
  pub num_streams : ℕ
  pub size : ℕ
  pub num_runs : ℕ

abbrev pub default_args : Args
default_args = record {
  num_enqueued_buffers = 2;
  buffer_size = maximum_output_writer_buffer_size;
  num_streams = 1;
  size = 536870912;
  num_runs = 8;
}

-- The conversion of an int to size_t.
abbrev pub to_size : ℤ → ℕ
to_size (pos n) = n % u64_mod
to_size (negsuc n) = u64_mod - 1 - n % u64_mod

-- The switch of parse_args.
abbrev pub set_option : (Text → Result ℤ) → Opt → Args → Outcome Args
set_option stoi o args =
    let value = stoi o.optarg in
    if o.opt == b'e'
    then set_from value (λ n. record args { num_enqueued_buffers = to_size n })
    else if o.opt == b'b'
    then set_from value (λ n. record args { buffer_size = to_size n })
    else if o.opt == b'S'
    then set_from value (λ n. record args { num_streams = to_size n })
    else if o.opt == b's'
    then set_from value (λ n. record args { size = to_size n })
    else if o.opt == b'r'
    then set_from value (λ n. record args { num_runs = to_size n })
    else if o.opt == b'h'
    then exited 0
    else exited 1

unfoldable pub parse_args : (Text → Result ℤ) → List Opt → Outcome Args
parse_args stoi options = parse_options (set_option stoi) options default_args

-- What the fetcher was returned: shared buffers, and `none` for the nullptr.
abbrev pub Output : Type 0
Output = List (Option Buffer)

module _ (pool : MemoryPool) where
  -- The loop over `count` streams from `j` on. Where a call of the handle waits, so does the thread:
  -- then the result is `none`.
  unfoldable pub fetch_streams : ℕ → ℕ → Output → Action OutputHandle (Option Output)
  unfolding get_next_stream_output
  fetch_streams zero j output = pure (some output)
  fetch_streams (suc count) j output =
      and_also (get_next_stream_output pool j)
        (λ b. fetch_streams count (suc j) (output ++ (b ∷ [])))

  -- The loop of one run, on fuel; the thread goes on waiting where the fuel is used up.
  unfoldable pub fetch : ℕ → ℕ → Output → Action OutputHandle (Option Output)
  unfolding fetch_streams any_stream_has_more_output
  fetch zero num_streams output = pure none
  fetch (suc fuel) num_streams output =
      let round = and_also (fetch_streams num_streams 0 output) (fetch fuel num_streams) in
      and_also any_stream_has_more_output (λ more. if more then round else pure (some output))

-- The values of a buffer against the numbers from `i` on: the number of wrong ones so far, and the
-- next number.
unfoldable pub verify_values : Memory → ℕ → ℕ → ℕ → ℕ × ℕ → ℕ × ℕ
verify_values m ptr zero j (num_wrong_values, i) = (num_wrong_values, i)
verify_values m ptr (suc count) j (num_wrong_values, i) =
    verify_values m ptr count (suc j)
      (if value_at m ptr j == i then num_wrong_values else num_wrong_values + 1, i + 1)

-- The loop over the buffers of an output. Reading through the nullptr is undefined; here it is a
-- failed assertion.
unfoldable pub verify_buffers : Memory → Output → ℕ × ℕ → Result (ℕ × ℕ)
unfolding verify_values
verify_buffers m [] state = ok state
verify_buffers m (none ∷ buffers) state = err assertion_failed
verify_buffers m (some b ∷ buffers) state =
    verify_buffers m buffers (verify_values m b.ptr (b.size / 8) 0 state)

-- After the buffers of an output, `assert(i == args.size / sizeof(uint64_t))`.
abbrev pub check_count : ℕ → Result (ℕ × ℕ) → (ℕ → Result ℕ) → Result ℕ
check_count size (err e) k = err e
check_count size (ok (num_wrong_values, i)) k =
    if i == size / 8 then k num_wrong_values else err assertion_failed

-- The loop over `count` streams from `s` on, each with `output[s]`, which is empty out of range.
unfoldable pub verify_outputs : Memory → ℕ → List Output → ℕ → ℕ → ℕ → Result ℕ
unfolding verify_buffers
verify_outputs m size outputs zero s num_wrong_values = ok num_wrong_values
verify_outputs m size outputs (suc count) s num_wrong_values =
    check_count size (verify_buffers m (get_or outputs s []) (num_wrong_values, 0))
      (verify_outputs m size outputs count (suc s))

-- The handshake, starved, stalled and idle cycles of `count` streams from `i` on.
abbrev pub Cycles : Type 0
Cycles = ℕ × ℕ × ℕ × ℕ

abbrev pub read_cycles : Config → ℕ → Action CThread ℕ
read_cycles perf_config addr = read_register perf_config (addr % u32_mod) >>= λ r. pure r.value

unfoldable pub sum_cycles : Config → ℕ → ℕ → Cycles → Action CThread Cycles
unfolding read_register
sum_cycles perf_config zero i cycles = pure cycles
sum_cycles perf_config (suc count) i (handshake, starved, stalled, idle) = do
  a ← read_cycles perf_config (4 * i + 1)
  b ← read_cycles perf_config (4 * i + 2)
  c ← read_cycles perf_config (4 * i + 3)
  d ← read_cycles perf_config (4 * i + 4)
  sum_cycles perf_config count (suc i) (
    wrap_add u64_mod handshake a,
    wrap_add u64_mod starved b,
    wrap_add u64_mod stalled c,
    wrap_add u64_mod idle d,
  )
