-- ===== src/Examples/ReplayBuffer/Main.antt =====
-- main of examples/03_replay_buffer/src/main.cpp (lines 240-427), from the arguments to the runs. The
-- pool, its allocation with an alignment, the thread id that coyote gives, the numbers that
-- std::mt19937_64 draws and the device are given.
pub mod Setup
use libstf.Base.{
  ℕ, zero, suc, true, ◌+◌, ◌-◌, ◌*◌, ◌/◌, ◌%◌, Bool, not, ◌||◌, List, [], ◌∷◌, Option, none, some,
  ltb, ◌==◌, if◌then◌else◌, get_or,
}
use libstf.Base.Word.{u64_mod, wrap_add}
use libstf.Base.Action.{Action, ◌>>=◌, ◌>>◌, pure, ensure}
use libstf.ErrorHandling.{Status, is_ok}
use libstf.MemoryPool.Bounds.{Region}
use libstf.Buffer.{MemoryPool}
use libstf.Coyote.{CThread}
use libstf.TlbManager.{ensure_tlb_mapping}
use libstf.Transfers.{enqueue_stream_input}
use libstf.Configuration.{
  Config, ReplayBufferConfig, write_register, replay_buffer_config, configure_ring_buffer,
  enqueue_num_reads,
}
use libstf.Configuration.Global.{GlobalConfig, global_config, look_up}
use libstf.Examples.ReplayBuffer.{
  Args, Memory, StreamProfile, ring_alloc_bytes, stream_transfers, is_too_large,
  enqueue_stream_output, offload_to_card, add_profile, read_profile, verify_output,
}
use libstf.Examples.Session.{
  Device, Session, clear, write_number, for_each, on_pool, on_tlb, on_thread, on_memory,
  allocate_buffers, premap, clear_counts, wait_for_writes, repeat, exit_if, or_exit,
}
use libstf.Examples.ReplayBuffer.Runs.{fill_inputs, execute}

-- Register 0 of the profiles is the number of input streams of the runs, register 1 that of the
-- output streams.
abbrev pub profile_block : Args → GlobalConfig → Action CThread Config
profile_block args global = do
  (profile_config, _) ← look_up (u64_mod - 1) global
  write_register profile_config (record { addr = 0; value = args.num_streams })
  write_register profile_config
      (record { addr = 1; value = args.num_streams * args.num_reads % u64_mod })
  pure profile_config

-- The configurations of the device, as main gets them: those of the replay buffer and the list to look
-- up more.
abbrev pub connect : Action CThread (ReplayBufferConfig × GlobalConfig)
connect = do
  global ← global_config
  ensure (global.system_id == 0)
  (block, global') ← look_up 2 global
  config ← replay_buffer_config block.addr_offset block.num_regs
  ensure (config.num_buffers == 1)
  pure (config, global')

-- What main is given.
pub record Host (pool : MemoryPool) : Type 0 where
  -- `allocate` with an alignment: size, alignment, and the value of `*out`
  pub allocate_aligned : ℕ → ℕ → ℕ → Action pool.State (Status × ℕ)
  pub device : Device
  pub max_transfer_size : ℕ
  pub ctid : ℕ
  pub ring_alignment : ℕ
  -- The value of `ring_buffer` before it is set.
  pub uninitialised : ℕ
  -- The numbers that the generator draws from the seed.
  pub rng : ℕ → ℕ → ℕ
  pub huge_pool : Option Region

module _ {pool : MemoryPool} (host : Host pool) (args : Args) where
  -- `mem_pool->allocate(ring_alloc_bytes, ring_alignment, &ring_buffer)`
  unfoldable pub allocate_ring : ℕ → Action (Session pool) (Option ℕ)
  allocate_ring ring_bytes =
      on_pool (host.allocate_aligned ring_bytes host.ring_alignment host.uninitialised) >>= λ r.
      pure (if is_ok r.0 then some r.1 else none)

  -- The ring buffer is moved to the card and the replay buffer told of it.
  unfoldable pub set_up_ring : ReplayBufferConfig → ℕ → ℕ → Action (Session pool) (Unit {0})
  set_up_ring config ring_buffer ring_bytes = do
    on_tlb (λ pages. ensure_tlb_mapping pages ring_buffer ring_bytes)
    on_tlb (λ pages t.
        let (r, c) =
          offload_to_card host.max_transfer_size pages ring_buffer ring_bytes t.cthread in
        (r, record t { cthread = c }))
    on_thread (configure_ring_buffer config 0 ring_buffer args.ring_bytes)

  -- The preparations before the runs, with the buffers allocated.
  unfoldable pub prepare : ReplayBufferConfig → ℕ → ℕ → List ℕ → Action (Session pool) (Unit {0})
  unfolding premap fill_inputs set_up_ring
  prepare config ring_buffer ring_bytes inputs = do
    premap host.huge_pool
    set_up_ring config ring_buffer ring_bytes
    on_memory (λ m. (fill_inputs (host.rng args.seed) args.stream_bytes inputs (0, m)).1)

  unfoldable pub start :
      ReplayBufferConfig → Config → ℕ → ℕ → List ℕ → List ℕ → Action (Session pool) ℕ
  unfolding prepare execute
  start config profile_config ring_buffer ring_bytes inputs outputs =
      prepare config ring_buffer ring_bytes inputs
      >> execute host.device host.max_transfer_size args config profile_config inputs outputs

  unfoldable pub allocate_outputs :
      ReplayBufferConfig → Config → ℕ → ℕ → List ℕ → Action (Session pool) ℕ
  unfolding allocate_buffers start
  allocate_outputs config profile_config ring_buffer ring_bytes inputs =
      allocate_buffers args.stream_bytes (args.num_streams * args.num_reads % u64_mod)
      >>= λ outputs. or_exit outputs (start config profile_config ring_buffer ring_bytes inputs)

  unfoldable pub allocate_inputs : ReplayBufferConfig → Config → ℕ → ℕ → Action (Session pool) ℕ
  unfolding allocate_buffers allocate_outputs
  allocate_inputs config profile_config ring_buffer ring_bytes =
      allocate_buffers args.stream_bytes args.num_streams >>= λ inputs.
      or_exit inputs (allocate_outputs config profile_config ring_buffer ring_bytes)

  unfoldable pub allocate_all : ReplayBufferConfig → Config → Action (Session pool) ℕ
  unfolding allocate_ring allocate_inputs
  allocate_all config profile_config =
      let ring_bytes = ring_alloc_bytes args.ring_bytes host.ring_alignment in
      allocate_ring ring_bytes >>= λ ring.
      or_exit ring (λ ring_buffer. allocate_inputs config profile_config ring_buffer ring_bytes)

  -- The profiles are told how many streams to expect.
  unfoldable pub with_profiles : ReplayBufferConfig → GlobalConfig → Action (Session pool) ℕ
  unfolding allocate_all
  with_profiles config global = on_thread (profile_block args global) >>= allocate_all config

  -- The checks of the arguments against the device.
  unfoldable pub check_device : ReplayBufferConfig × GlobalConfig → Action (Session pool) ℕ
  unfolding with_profiles
  check_device (config, global) =
      exit_if (ltb config.maximum_num_enqueued_streams args.num_streams)
        (exit_if (is_too_large args config.transfer_size) (with_profiles config global))

  -- main after parse_args.
  unfoldable pub main : Action (Session pool) ℕ
  unfolding check_device
  main = exit_if (not (host.ctid == 0)) (on_thread connect >>= check_device)
