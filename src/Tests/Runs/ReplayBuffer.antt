-- ===== src/Tests/Runs/ReplayBuffer.antt =====
-- examples/03_replay_buffer/src/main.cpp on a device that returns what it stored.
use libstf.Base.{
  ℕ, ◌+◌, ◌-◌, ◌*◌, ◌%◌, ◌≡◌, ◌↔◌, refl, ap, ◌&&◌, none, List, [], ◌∷◌, arith, leb, ltb,
  if◌then◌else◌, get_or,
}
use libstf.Base.Action.{ok}
use libstf.ErrorHandling.{status_ok}
use libstf.Examples.Session.{Device, Session, on_thread}
use libstf.TlbManager.{ensure_tlb_mapping}
use libstf.Transfers.{enqueue_stream_output, enqueue_stream_input, post_transfers}
use libstf.Configuration.{
  ReplayBufferConfig, write_register, replay_buffer_config, configure_ring_buffer,
  enqueue_num_reads,
}
use libstf.Configuration.Global.{
  GlobalConfig, global_config, add_configs, add_config, has_config, get_config, get_config_bounds,
}
use libstf.Examples.ReplayBuffer
use libstf.Tests.Runs.{bump, fresh}
use libstf.Examples.ReplayBuffer.{Memory, offload_to_card, verify_output, check_args}
use libstf.Examples.ReplayBuffer.Main
use libstf.Examples.ReplayBuffer.Main.{main, connect}
use libstf.Examples.ReplayBuffer.Runs.{Profiles, verify_run, execute}
use libstf.Examples.ReplayBuffer.Runs.Success.{CopyingRuns, AllProfiled, execute-success}
use libstf.Examples.ReplayBuffer.Main.Setup.{Replayed, main-Replayed}

-- The registers of a device with a replay buffer, whose block is 2, and of its profiles.
abbrev replay_registers : List ℕ
replay_registers =
    0 ∷ 2 ∷ 10 ∷ 30 ∷ 2 ∷ 1 ∷ 4 ∷ 64 ∷ 0 ∷ 0 ∷ 18446744073709551615 ∷ 0 ∷ 0 ∷ 0 ∷ 0 ∷ 1 ∷ 0 ∷ 0 ∷ 0
    ∷ 0 ∷ 1 ∷ []

-- What is at 192 comes back at 200.
abbrev copy_back : Memory → Memory
copy_back m a = (if leb 200 a && ltb a 208 then m (a - 8) else m a) % 256

abbrev replay_device : Device
replay_device = record {
  completed = λ calls. 0 ∷ 2 ∷ [];
  memory_after = λ calls m. copy_back m;
  get_csr_after = λ calls r. get_or replay_registers r 0;
}

abbrev replay_host : ReplayBuffer.Main.Host bump
replay_host = record {
  allocate_aligned = λ size alignment out s. (ok (status_ok, s), s + size);
  device = replay_device;
  max_transfer_size = 64;
  ctid = 0;
  ring_alignment = 64;
  uninitialised = 0;
  rng = λ seed k. seed + 1000 * k;
  huge_pool = none;
}

abbrev replay_args : ReplayBuffer.Args
replay_args = record {
  stream_bytes = 8;
  num_streams = 1;
  num_reads = 1;
  ring_bytes = 128;
  num_runs = 1;
  seed = 4200;
}

abbrev start : Session bump
start = fresh replay_registers 64

abbrev end : Session bump
end = (main replay_host replay_args start).1

abbrev replay_config : ReplayBufferConfig
replay_config = record {
  config = record { addr_offset = 4; num_regs = 6 };
  num_buffers = 1;
  maximum_num_enqueued_streams = 4;
  transfer_size = 64;
}

abbrev replay_global : GlobalConfig
replay_global = record {
  system_id = 0;
  num_configs = 2;
  config_ids = 2 ∷ 18446744073709551615 ∷ [];
  config_bounds = 4 ∷ 10 ∷ 30 ∷ [];
  configs = (2, record { addr_offset = 4; num_regs = 6 }) ∷ [];
}

-- The run copies the input, and main returns EXIT_SUCCESS.
replays : main replay_host replay_args start ≡ (ok 0, end)
unfolding main verify_run verify_output global_config add_configs add_config has_config get_config
    get_config_bounds replay_buffer_config write_register ensure_tlb_mapping offload_to_card
    configure_ring_buffer enqueue_num_reads enqueue_stream_output enqueue_stream_input
    post_transfers
replays = let done : (main replay_host replay_args start).0 ≡ ok 0 = refl in ap (λ r. (r, end)) done

connects_replay : on_thread connect start ≡ (ok (replay_config, replay_global), start)
unfolding global_config add_configs add_config has_config get_config get_config_bounds
    replay_buffer_config
connects_replay = refl

main-Replayed_example : Replayed replay_host replay_args replay_config end
unfolding check_args
main-Replayed_example =
    main-Replayed replay_host replay_args start end start replay_config replay_global
      (λ calls m a. omega arith) refl (omega arith) connects_replay (omega arith) (omega arith)
      replays

-- A run from the start with the block of the profiles, and buffers at 192 and 200.
execute-success_example :
    (execute replay_device 64 replay_args replay_config
        (record { addr_offset = 10; num_regs = 20 })
        (192 ∷ [])
        (200 ∷ [])
        start
      ≡ (ok 0, start))
    ↔ ((profiles : Profiles) × CopyingRuns replay_device 64 replay_args replay_config
          (record { addr_offset = 10; num_regs = 20 })
          (192 ∷ [])
          (200 ∷ [])
          start
          start
          profiles
        × AllProfiled replay_args profiles)
execute-success_example =
    execute-success replay_device 64 replay_args replay_config
      (record { addr_offset = 10; num_regs = 20 }) (192 ∷ []) (200 ∷ []) (λ calls m a. omega arith)
      refl start start (omega arith)
