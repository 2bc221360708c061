-- ===== src/Examples/ReplayBuffer/Runs.antt =====
-- The runs of main of examples/03_replay_buffer/src/main.cpp (lines 330-427), from buffers that are
-- allocated to the exit code. The device is given; what is printed and timed is left out.
pub mod Success
use libstf.Base.{
  ℕ, zero, suc, true, ◌+◌, ◌-◌, ◌*◌, ◌/◌, ◌%◌, Bool, not, ◌||◌, List, [], ◌∷◌, Option, none, some,
  ltb, ◌==◌, if◌then◌else◌, get_or,
}
use libstf.Base.Word.{u64_mod, wrap_add}
use libstf.Base.Action.{Action, ◌>>=◌, ◌>>◌, pure, ensure}
use libstf.ErrorHandling.{Status, is_ok}
use libstf.MemoryPool.Bounds.{Region}
use libstf.Buffer.{MemoryPool}
use libstf.Coyote.{CThread}
use libstf.TlbManager.{ensure_tlb_mapping}
use libstf.Transfers.{enqueue_stream_input}
use libstf.Configuration.{
  Config, ReplayBufferConfig, write_register, replay_buffer_config, configure_ring_buffer,
  enqueue_num_reads,
}
use libstf.Configuration.Global.{GlobalConfig, global_config, look_up}
use libstf.Examples.ReplayBuffer.{
  Args, Memory, StreamProfile, ring_alloc_bytes, stream_transfers, is_too_large,
  enqueue_stream_output, offload_to_card, add_profile, read_profile, verify_output,
}
use libstf.Examples.Session.{
  Device, Session, clear, write_number, for_each, on_pool, on_tlb, on_thread, on_memory,
  allocate_buffers, premap, clear_counts, wait_for_writes, repeat, exit_if, or_exit,
}

abbrev pub zero_profile : StreamProfile
zero_profile = record {
  handshake_cycles = 0;
  starved_cycles = 0;
  stalled_cycles = 0;
  idle_cycles = 0;
  num_streams = 0;
}

-- The wrong values of each read of each stream, `outputs[stream * args.num_reads + read]`.
abbrev pub output_of : Args → List ℕ → ℕ → ℕ → ℕ
output_of args outputs stream read = get_or outputs ((stream * args.num_reads + read) % u64_mod) 0

abbrev pub verify_read : Args → List ℕ → List ℕ → Memory → ℕ → ℕ → ℕ → ℕ
verify_read args inputs outputs m stream read num_wrong_values =
    wrap_add u64_mod num_wrong_values
      (verify_output m (get_or inputs stream 0) (output_of args outputs stream read)
        args.stream_bytes).0

unfoldable pub verify_run : Args → List ℕ → List ℕ → Memory → ℕ → ℕ
unfolding for_each
verify_run args inputs outputs m =
    for_each (λ stream. for_each (verify_read args inputs outputs m stream) args.num_reads 0)
      args.num_streams 0

-- The profiles of the input and of the output, and what the runs add up: these and the wrong values.
abbrev pub Profiles : Type 0
Profiles = StreamProfile × StreamProfile

abbrev pub Totals : Type 0
Totals = ℕ × Profiles

abbrev pub add_profiles : Profiles → Profiles → Profiles
add_profiles read profiles = (add_profile profiles.0 read.0, add_profile profiles.1 read.1)

-- The check of the profiles after the runs, and the exit code.
abbrev pub profiles_differ : Args → Profiles → Bool
profiles_differ args (input_profile, output_profile) =
    not (input_profile.num_streams == args.num_streams * args.num_runs % u64_mod)
    || not (
        output_profile.num_streams
        == args.num_streams * args.num_reads % u64_mod * args.num_runs % u64_mod)

unfoldable pub exit_code : Args → Totals → ℕ
exit_code args (num_wrong_values, profiles) =
    let wrong =
      if profiles_differ args profiles
      then wrap_add u64_mod num_wrong_values 1
      else num_wrong_values in
    if wrong == 0 then 0 else 1

-- `((uint64_t *)buffer)[i] = rng()` for each value of each buffer; `draws` is how many numbers were
-- drawn before.
abbrev pub fill_input : (ℕ → ℕ) → ℕ → ℕ → ℕ × Memory → ℕ × Memory
fill_input random buffer i (draws, m) =
    (draws + 1, write_number 8 (buffer + 8 * i) (random draws) m)

unfoldable pub fill_inputs : (ℕ → ℕ) → ℕ → List ℕ → ℕ × Memory → ℕ × Memory
unfolding for_each
fill_inputs random size [] s = s
fill_inputs random size (buffer ∷ buffers) s =
    fill_inputs random size buffers (for_each (fill_input random buffer) (size / 8) 0 s)

abbrev pub clear_all : ℕ → List ℕ → Memory → Memory
clear_all size [] m = m
clear_all size (buffer ∷ buffers) m = clear_all size buffers (clear buffer size m)

-- `for (stream < num_streams) enqueue_num_reads(0, num_reads);`
unfoldable pub enqueue_reads : ReplayBufferConfig → ℕ → ℕ → Action CThread (Unit {0})
enqueue_reads config num_reads zero = pure tt
enqueue_reads config num_reads (suc streams) =
    enqueue_num_reads config 0 num_reads >> enqueue_reads config num_reads streams

-- The wait of a run for this number of writes, and the profiles that are read after it.
unfoldable pub finish_run :
    {pool : MemoryPool} → Device → Config → ℕ → Action (Session pool) Profiles
unfolding wait_for_writes read_profile
finish_run device profile_config num_writes = do
  wait_for_writes device num_writes
  input_profile ← on_thread (read_profile profile_config 0)
  output_profile ← on_thread (read_profile profile_config 1)
  pure (input_profile, output_profile)

module _ {pool : MemoryPool} (max_transfer_size : ℕ) where
  -- enqueue_stream_output for each buffer: the transfers so far and those of the rest.
  unfoldable pub post_outputs : ℕ → ℕ → List ℕ → ℕ → Action (Session pool) ℕ
  post_outputs size stream [] num_transfers = pure num_transfers
  post_outputs size stream (buffer ∷ buffers) num_transfers =
      on_tlb (λ pages. enqueue_stream_output max_transfer_size pages buffer size stream) >>= λ n.
      post_outputs size stream buffers (wrap_add u64_mod num_transfers n)

  -- enqueue_stream_input for each buffer, as a stream that ends.
  unfoldable pub post_inputs : ℕ → ℕ → List ℕ → Action (Session pool) (Unit {0})
  post_inputs size stream [] = pure tt
  post_inputs size stream (buffer ∷ buffers) =
      on_tlb (λ pages. enqueue_stream_input max_transfer_size pages buffer size stream true)
      >> post_inputs size stream buffers

module _ {pool : MemoryPool} (max_transfer_size : ℕ) (args : Args) (config : ReplayBufferConfig)
    (inputs outputs : List ℕ) where
  -- A run up to the wait: the number of writes that the device has to do.
  unfoldable pub start_run : Action (Session pool) ℕ
  unfolding post_outputs post_inputs enqueue_reads
  start_run = do
    on_memory (clear_all args.stream_bytes outputs)
    clear_counts
    on_thread (enqueue_reads config args.num_reads args.num_streams)
    num_output_transfers ← post_outputs max_transfer_size args.stream_bytes 0 outputs 0
    post_inputs max_transfer_size args.stream_bytes 0 inputs
    let num_card_writes =
        args.num_streams * stream_transfers args.stream_bytes config.transfer_size % u64_mod
    pure (wrap_add u64_mod num_output_transfers num_card_writes)

-- What a run adds to the totals; the memory is that after the run.
abbrev pub add_run :
    {pool : MemoryPool} → Args → List ℕ → List ℕ → Profiles → Session pool → Totals → Totals
add_run args inputs outputs read s (num_wrong_values, profiles) =
    (verify_run args inputs outputs s.memory num_wrong_values, add_profiles read profiles)

module _ {pool : MemoryPool} (device : Device) (max_transfer_size : ℕ) (args : Args)
    (config : ReplayBufferConfig) (profile_config : Config) (inputs outputs : List ℕ) where
  -- A run up to the verification.
  unfoldable pub run : Action (Session pool) Profiles
  unfolding start_run finish_run
  run = start_run max_transfer_size args config inputs outputs >>= finish_run device profile_config

  -- The runs and what follows them.
  unfoldable pub execute : Action (Session pool) ℕ
  unfolding repeat run exit_code
  execute =
      repeat run (add_run args inputs outputs) args.num_runs (0, (zero_profile, zero_profile))
      >>= λ totals. pure (exit_code args totals)
