-- ===== src/Examples/ReplayBuffer/Main/Setup.antt =====
-- What main of examples/03_replay_buffer/src/main.cpp checks and sets up before its runs (lines
-- 240-329).
use libstf.Base.{
  ℕ, ◌+◌, ◌-◌, ◌*◌, ◌/◌, ◌%◌, ◌<◌, ◌≤◌, ◌≡◌, sym, ap, ◌∙◌, false, not, List, arith, length, ltb,
  ◌==◌, lt→ltb, ◌⊎◌, inl, inr, dec_lt,
}
use native.Mathlib.Nat.{mod-eq_of_lt, mod-lt, div-add-mod}
use libstf.Base.Word.{u64_mod}
use libstf.Base.Action.{ok, >>=-ok}
use libstf.Buffer.{MemoryPool}
use libstf.Coyote.{Call}
use libstf.Configuration.{Config, ReplayBufferConfig}
use libstf.Configuration.Global.{GlobalConfig}
use libstf.Examples.ReplayBuffer.{
  Args, Memory, check_args, ring_alloc_bytes, stream_transfers, is_too_large,
}
use libstf.Examples.CommandLine.{parsed}
use libstf.Examples.Session.{Session, or_exit, allocate_buffers, on_thread}
use libstf.Examples.Session.Returns.{
  bind_inversion, exit_if_inversion, or_exit_inversion, length-allocate_buffers,
}
use libstf.Examples.ReplayBuffer.Runs.{Profiles, execute}
use libstf.Examples.ReplayBuffer.Main.{
  Host, prepare, start, allocate_ring, allocate_inputs, allocate_outputs, allocate_all,
  profile_block, check_device, with_profiles, connect, main,
}
use libstf.Examples.ReplayBuffer.Runs.Success.{
  CopyingRuns, AllProfiled, values_per_run, execute-success,
}

whole_values : (args : Args) → check_args args ≡ parsed args → args.stream_bytes % 8 ≡ 0
unfolding check_args
whole_values args e = ground arith

-- Rounded up to whole transfers.
transfers_cover : (n t : ℕ) → 0 < t → n ≤ (n + t - 1) / t * t
transfers_cover n t h = omega (arith, div-add-mod (n + t - 1) t, mod-lt (n + t - 1) h)

not_ltb : (a b : ℕ) → ltb a b ≡ false → b ≤ a
not_ltb a b h = ground arith

-- A stream fits the ring buffer with a transfer that is skipped.
fits :
    (args : Args) (t : ℕ)
    → 0 < t
    → args.stream_bytes + 2 * t < u64_mod
    → is_too_large args t ≡ false
    → (args.num_reads ≤ 1) ⊎ (args.stream_bytes + t ≤ args.ring_bytes)
fits args t pos small e = elim (dec_lt 1 args.num_reads) [
  | no once ↦ inl (omega arith)
  | yes reads ↦
      let n = args.stream_bytes in
      let q : ℕ = (n + t - 1) / t in
      let exact : stream_transfers n t ≡ q = ap (λ (x : ℕ). x / t) (omega arith) in
      let below : q * t ≤ n + t - 1 = omega (arith, div-add-mod (n + t - 1) t) in
      let room : (stream_transfers n t + 1) * t % u64_mod ≡ q * t + t =
        ap (λ (x : ℕ). (x + 1) * t % u64_mod) exact
        ∙ ap (λ (x : ℕ). x % u64_mod) (omega arith)
        ∙ mod-eq_of_lt (omega (arith, below)) in
      let enough : ltb args.ring_bytes ((stream_transfers n t + 1) * t % u64_mod) ≡ false =
        rw (lt→ltb 1 args.num_reads reads) at e in
      inr (omega (arith, not_ltb _ _ enough, room, transfers_cover n t pos))
]

is_zero : (n : ℕ) → not (n == 0) ≡ false → n ≡ 0
is_zero n h = ground arith

module _ {pool : MemoryPool} where
  module _ (host : Host pool) (args : Args) where
    -- The runs of main after these preparations, with buffers for each stream and each read.
    pub record Started (config : ReplayBufferConfig) (profile_config : Config) (s' : Session pool)
        : Type 0 where
      pub inputs : List ℕ
      pub outputs : List ℕ
      pub ready : Session pool
      pub runs :
          execute host.device host.max_transfer_size args config profile_config inputs outputs ready
          ≡ (ok 0, s')
      pub length-inputs : length inputs ≡ args.num_streams
      pub length-outputs : length outputs ≡ args.num_streams * args.num_reads % u64_mod

    allocate_outputs-Started :
        (config : ReplayBufferConfig) (profile_config : Config) (ring_buffer ring_bytes : ℕ)
        (inputs : List ℕ) (s s' : Session pool)
        → length inputs ≡ args.num_streams
        → allocate_outputs host args config profile_config ring_buffer ring_bytes inputs s
          ≡ (ok 0, s')
        → Started config profile_config s'
    unfolding allocate_outputs start
    allocate_outputs-Started config profile_config ring_buffer ring_bytes inputs s s' all e =
        let rest = start host args config profile_config ring_buffer ring_bytes inputs in
        let count = args.num_streams * args.num_reads % u64_mod in
        let (outs, s1, allocated, e1) =
          bind_inversion (allocate_buffers args.stream_bytes count) (λ outs. or_exit outs rest) s
            e in
        let (outputs, found, e2) = or_exit_inversion outs rest s1 s' e1 in
        let (_, ready, prepared, e3) =
          bind_inversion (prepare host args config ring_buffer ring_bytes inputs)
            (λ _.
              execute host.device host.max_transfer_size args config profile_config inputs outputs)
            s1 e2 in
        record {
          inputs = inputs;
          outputs = outputs;
          ready = ready;
          runs = e3;
          length-inputs = all;
          length-outputs =
              length-allocate_buffers args.stream_bytes count s s1 outputs
                (allocated ∙ ap (λ o. (ok o, s1)) found);
        }

    allocate_all-Started :
        (config : ReplayBufferConfig) (profile_config : Config) (s s' : Session pool)
        → allocate_all host args config profile_config s ≡ (ok 0, s')
        → Started config profile_config s'
    unfolding allocate_all allocate_inputs
    allocate_all-Started config profile_config s s' e =
        let ring_bytes = ring_alloc_bytes args.ring_bytes host.ring_alignment in
        let inputs_next = λ (r : ℕ). allocate_inputs host args config profile_config r ring_bytes in
        let (ring, s1, _, e1) =
          bind_inversion (allocate_ring host args ring_bytes) (λ ring. or_exit ring inputs_next) s
            e in
        let (ring_buffer, _, e2) = or_exit_inversion ring inputs_next s1 s' e1 in
        let outputs_next =
          allocate_outputs host args config profile_config ring_buffer ring_bytes in
        let (ins, s2, allocated, e3) =
          bind_inversion (allocate_buffers args.stream_bytes args.num_streams)
            (λ ins. or_exit ins outputs_next) s1 e2 in
        let (inputs, found, e4) = or_exit_inversion ins outputs_next s2 s' e3 in
        allocate_outputs-Started config profile_config ring_buffer ring_bytes inputs s2 s'
          (length-allocate_buffers args.stream_bytes args.num_streams s1 s2 inputs
            (allocated ∙ ap (λ o. (ok o, s2)) found))
          e4

    -- The checks against the device passed, and runs follow that all succeed.
    pub record Checked (config : ReplayBufferConfig) (s' : Session pool) : Type 0 where
      pub streams : ltb config.maximum_num_enqueued_streams args.num_streams ≡ false
      pub ring : is_too_large args config.transfer_size ≡ false
      pub profile_config : Config
      pub started : Started config profile_config s'

    check_device-Checked :
        (connected : ReplayBufferConfig × GlobalConfig) (s s' : Session pool)
        → check_device host args connected s ≡ (ok 0, s')
        → Checked connected.0 s'
    unfolding check_device with_profiles
    check_device-Checked (config, global) s s' e =
        let (streams, e1) = exit_if_inversion _ _ s s' e in
        let (large, e2) = exit_if_inversion _ _ s s' e1 in
        let (profile_config, s1, _, e3) =
          bind_inversion (on_thread (profile_block args global)) (allocate_all host args config) s
            e2 in
        record {
          streams = streams;
          ring = large;
          profile_config = profile_config;
          started = allocate_all-Started config profile_config s1 s' e3;
        }

    main-Checked :
        (s s' after : Session pool) (connected : ReplayBufferConfig × GlobalConfig)
        → main host args s ≡ (ok 0, s')
        → on_thread connect s ≡ (ok connected, after)
        → (host.ctid ≡ 0) × Checked connected.0 s'
    unfolding main
    main-Checked s s' after connected e connects =
        let (zero_id, e1) = exit_if_inversion _ _ s s' e in
        (
          is_zero host.ctid zero_id,
          check_device-Checked connected after s'
              (sym (>>=-ok (on_thread connect) (check_device host args) s connects) ∙ e1),
        )

    -- What an exit code of zero says of a device with this configuration.
    pub record Replayed (config : ReplayBufferConfig) (s' : Session pool) : Type 0 where
      pub alone : host.ctid ≡ 0
      pub enough_streams : args.num_streams ≤ config.maximum_num_enqueued_streams
      pub fits_ring :
          (args.num_reads ≤ 1) ⊎ (args.stream_bytes + config.transfer_size ≤ args.ring_bytes)
      pub profile_config : Config
      pub started : Started config profile_config s'
      pub profiles : Profiles
      pub copying :
          CopyingRuns host.device host.max_transfer_size args config profile_config started.inputs
            started.outputs started.ready s' profiles
      pub profiled : AllProfiled args profiles

    -- For arguments that passed parse_args, a device that leaves bytes in the memory and whose
    -- transfers are not empty, and fewer values and bytes than a size_t counts: main returns
    -- EXIT_SUCCESS only if its thread is the only one, the device can enqueue the streams, a stream
    -- that is read more than once fits the ring buffer with a transfer to spare, there is a buffer
    -- for each stream and for each read of one, every run returns and leaves each read of each stream
    -- a copy of its input, and the profiles count every stream that was written and read.
    pub main-Replayed :
        (s s' after : Session pool) (config : ReplayBufferConfig) (global : GlobalConfig)
        → ((calls : List Call) (m : Memory) (a : ℕ) → host.device.memory_after calls m a < 256)
        → check_args args ≡ parsed args
        → args.num_runs * values_per_run args + 1 < u64_mod
        → on_thread connect s ≡ (ok (config, global), after)
        → 0 < config.transfer_size
        → args.stream_bytes + 2 * config.transfer_size < u64_mod
        → main host args s ≡ (ok 0, s')
        → Replayed config s'
    main-Replayed s s' after config global bytes passed small connects pos room e =
        let (alone, checked) = main-Checked s s' after (config, global) e connects in
        let started = checked.started in
        let exact =
          execute-success host.device host.max_transfer_size args config checked.profile_config
            started.inputs started.outputs bytes (whole_values args passed) started.ready s'
            small in
        let (profiles, copying, profiled) = exact.0 started.runs in
        record {
          alone = alone;
          enough_streams = not_ltb _ _ checked.streams;
          fits_ring = fits args config.transfer_size pos room checked.ring;
          profile_config = checked.profile_config;
          started = started;
          profiles = profiles;
          copying = copying;
          profiled = profiled;
        }
