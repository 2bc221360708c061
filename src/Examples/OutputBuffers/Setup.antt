-- ===== src/Examples/OutputBuffers/Setup.antt =====
-- main of examples/01_output_buffer_manager/src/main.cpp up to the wait for the results (lines 99-162):
-- the objects, the input, a handle for each run, and the transfers. The thread that fetches the results
-- is `fetch`. What the main function prints and times is left out.
pub mod Handles
use libstf.Base.{
  ℕ, zero, suc, ◌+◌, ◌-◌, ◌*◌, ◌/◌, ◌%◌, true, false, not, Option, none, some, List, [], ◌∷◌, ◌++◌,
  ◌&&◌, ltb, leb, ◌==◌, if◌then◌else◌, replicate,
}
use libstf.Base.Word.{u64_mod}
use libstf.Base.Action.{Action, Result, ok, err, ◌>>=◌, ◌>>◌, pure, gets, modify, ensure}
use libstf.ErrorHandling.{Status, is_ok}
use libstf.MemoryPool.Bounds.{Region}
use libstf.Buffer.{MemoryPool}
use libstf.Coyote.{CThread}
use libstf.TlbManager.{TlbManager, ensure_tlb_mapping}
use libstf.Configuration.{Config, MemConfig, write_register, mem_config}
use libstf.Configuration.Global.{GlobalConfig, global_config, look_up}
use libstf.Transfers.{enqueue_stream_input}
use libstf.OutputHandle.{StreamMask, maximum_fpga_num_streams}
use libstf.OutputBufferManager.{
  OutputBufferManager, construct, acquire_output_handle, on_pool, on_tlb, on_thread, flush_buffers,
}
use libstf.Examples.ReplayBuffer.{Memory}
use libstf.Examples.Session.{Session, write_number, for_each}
use libstf.Examples.OutputBuffers.{Args}

-- The system's number, and the two configurations.
abbrev pub connect : Action CThread (ℕ × MemConfig × Config)
connect = do
  global ← global_config
  (block, global') ← look_up 0 global
  m ← mem_config block.addr_offset block.num_regs
  (perf_config, _) ← look_up (u64_mod - 1) global'
  pure (global'.system_id, m, perf_config)

-- `(1 << num_streams) - 1`, for up to 30 streams, for which the int does not overflow.
abbrev pub mask_all : ℕ → StreamMask
mask_all num_streams =
    replicate num_streams true ++ replicate (maximum_fpga_num_streams - num_streams) false

-- `((uint64_t *)input)[i] = i`
abbrev pub fill_input : ℕ → ℕ → Memory → Memory
fill_input input size m = for_each (λ i. write_number 8 (input + 8 * i) i) (size / 8) 0 m

-- The transfers of a run, for `count` streams from `j` on, and those of all runs.
module _ (max_transfer_size : ℕ) (get_page_boundaries : ℕ → Result Region) (input size : ℕ) where
  unfoldable pub enqueue_run : ℕ → ℕ → Action TlbManager (Unit {0})
  unfolding enqueue_stream_input
  enqueue_run zero j = pure tt
  enqueue_run (suc count) j =
      enqueue_stream_input max_transfer_size get_page_boundaries input size j true
      >> enqueue_run count (suc j)

  unfoldable pub enqueue_runs : ℕ → ℕ → Action TlbManager (Unit {0})
  unfolding enqueue_run
  enqueue_runs num_streams zero = pure tt
  enqueue_runs num_streams (suc runs) = enqueue_run num_streams 0 >> enqueue_runs num_streams runs

module _ (pool : MemoryPool) where
  -- The manager, and the memory of the process.
  pub record Program : Type 0 where
    pub manager : OutputBufferManager pool
    pub memory : Memory

  abbrev pub on_manager : {A : Type 0} → Action (OutputBufferManager pool) A → Action Program A
  on_manager call s = let (r, o) = call s.manager in (r, record s { manager = o })

  -- The manager of all streams, from the pool and the TLBManager of the session.
  unfoldable pub with_manager : Args → MemConfig → Session pool → Result Program
  unfolding construct
  with_manager args m s =
      elim (construct pool m s.mem_pool s.tlb_manager (replicate maximum_fpga_num_streams true)
        args.num_enqueued_buffers args.buffer_size) [
          | ok o ↦ ok (record { manager = o; memory = s.memory })
          | err e ↦ err e
        ]

  -- `if (huge_pool) ensure_tlb_mapping(initial_address, total_capacity)`
  abbrev pub premap : Option Region → Action Program (Unit {0})
  premap none = pure tt
  premap (some (initial_address, total_capacity)) = on_manager (λ o.
      on_tlb pool
        (ensure_tlb_mapping (λ a. pool.get_page_boundaries a o.memory_pool) initial_address
          total_capacity)
        o)

  -- `if (!status.ok())`, and the input.
  abbrev pub filled : Status → ℕ → ℕ → Action Program (Option ℕ)
  filled status input size =
      if is_ok status
      then (modify (λ s. record s { memory = fill_input input size s.memory }) >> pure (some input))
      else pure none

  -- Up to the input, which is `none` where it cannot be allocated.
  unfoldable pub prepare : Args → ℕ → Config → Option Region → ℕ → Action Program (Option ℕ)
  unfolding ensure_tlb_mapping
  prepare args system_id perf_config huge_pool uninitialised = do
    on_manager
        (on_thread pool (write_register perf_config (record { addr = 0; value = args.num_runs })))
    ensure (system_id == 0)
    m ← gets (λ s. s.manager.mem_config)
    ensure (ltb 0 args.num_streams && leb args.num_streams m.num_streams)
    premap huge_pool
    on_manager (flush_buffers pool)
    (status, input) ← on_manager (on_pool pool (pool.allocate args.size uninitialised))
    filled status input args.size

  -- A handle for each run.
  unfoldable pub acquire_handles : StreamMask → ℕ → Action (OutputBufferManager pool) (List ℕ)
  acquire_handles mask zero = pure []
  acquire_handles mask (suc runs) = acquire_output_handle pool mask >>= λ handle.
      acquire_handles mask runs >>= λ handles. pure (handle ∷ handles)

  -- The handles, and the transfers of all runs.
  unfoldable pub execute : ℕ → Args → ℕ → Action Program (List ℕ)
  unfolding acquire_handles enqueue_runs
  execute max_transfer_size args input = do
    handles ← on_manager (acquire_handles (mask_all args.num_streams) args.num_runs)
    on_manager (λ o.
        on_tlb pool
          (enqueue_runs max_transfer_size (λ a. pool.get_page_boundaries a o.memory_pool) input
            args.size args.num_streams args.num_runs)
          o)
    pure handles
