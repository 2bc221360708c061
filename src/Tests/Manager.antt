-- ===== src/Tests/Manager.antt =====
-- An OutputBufferManager over a SimpleMemoryPool, from its construction on: four streams, of which the
-- first two are managed.
use libstf.Base.{
  ℕ, ◌+◌, ◌*◌, ◌<◌, ◌≡◌, refl, true, false, [], ◌++◌, map, arith, get_or, set, replicate,
}
use libstf.Base.Action.{ok}
use libstf.MemoryPool.Simple
use libstf.MemoryPool.Simple.{SimpleMemoryPool}
use libstf.TlbManager.{TlbManager}
use libstf.Configuration.{MemConfig, buffer_word}
use libstf.OutputHandle.{StreamMask, no_streams}
use libstf.OutputBufferManager.{
  OutputBufferManager, construct, destroy, acquire_output_handle, buffers_of,
}
use libstf.OutputBufferManager.Supply.{told}
use libstf.OutputBufferManager.WellFormed.{WellFormed}
use libstf.OutputBufferManager.SimplePool.{simple_pool, Holds, simple_pool-Serves, init-Holds}
use libstf.OutputBufferManager.Service.{blocks}
use libstf.Examples.OutputBuffers.Setup.{acquire_handles, mask_all, fill_input}
use libstf.Examples.ReplayBuffer.{value_at}
use libstf.Examples.Session.{for_each}
use libstf.Examples.OutputBuffers.Setup.Handles.{numbers_from, Queued, acquire_handles-Queued}
use libstf.OutputBufferManager.Destruction.{Freed, destroy_frees}
use libstf.OutputBufferManager.Activation.{Activated}
use libstf.OutputBufferManager.Acquisition.{with_active, acquire_output_handle-Activated}
use libstf.OutputBufferManager.Histories.{
  Calls, done, acquired, Fresh, Fresh-WellFormed, Calls-fifo,
}
use libstf.OutputBufferManager.Leading.{gone}

abbrev mem_config : MemConfig
mem_config = record {
  config = record { addr_offset = 16; num_regs = 8 };
  num_streams = 4;
  maximum_num_enqueued_buffers = 8;
  empty_stream_consumes_buffer = true;
}

abbrev fresh_pool : SimpleMemoryPool
fresh_pool = Simple.init 4096 (λ a. 0)

abbrev fresh_tlb : TlbManager
fresh_tlb = record { existing_tlb_mappings = []; cthread = record { calls = []; get_csr = λ r. 0 } }

abbrev managed : StreamMask
managed = set (set no_streams 0 true) 1 true

abbrev constructed : OutputBufferManager simple_pool
constructed = record {
  mem_config = mem_config;
  memory_pool = fresh_pool;
  tlb_manager = fresh_tlb;
  num_streams = 4;
  managed_streams = managed;
  num_buffers_to_enqueue = 2;
  buffer_capacity = 65536;
  enqueued_handles = replicate 4 [];
  enqueued_buffers = replicate 4 [];
  handles = [];
}

constructed-Fresh : Fresh simple_pool mem_config fresh_pool fresh_tlb managed 2 65536 constructed
unfolding construct
constructed-Fresh = record {
  constructed = refl;
  registers = omega arith;
  bits = omega arith;
  mask = refl;
  once = record { mapped = λ a. refl; distinct = tt; ordered = tt };
  quiet = λ j. refl;
}

constructed-WellFormed : WellFormed simple_pool constructed
constructed-WellFormed =
    (Fresh-WellFormed simple_pool mem_config fresh_pool fresh_tlb managed 2 65536 constructed
      constructed-Fresh).0

abbrev both : StreamMask
both = managed

-- 524288 bytes for the streams, and the others.
fresh_pool-Holds : Holds [] (4 * (2 * 65536) + 1073217536) fresh_pool
fresh_pool-Holds = init-Holds 4096 (λ a. 0) (omega arith) refl (omega arith)

acquire_output_handle-Activated_example :
    (o' : OutputBufferManager simple_pool) × (acquire_output_handle simple_pool both constructed
      ≡ (ok 0, o'))
    × Activated simple_pool Holds
        (with_active simple_pool both constructed)
        o'
        0
        1073217536
        (λ j. get_or both j false)
acquire_output_handle-Activated_example =
    acquire_output_handle-Activated simple_pool Holds simple_pool-Serves both 1073217536 constructed
      constructed-WellFormed refl refl refl refl fresh_pool-Holds

first_acquired :
    (o' : OutputBufferManager simple_pool) × (acquire_output_handle simple_pool both constructed
      ≡ (ok 0, o'))
    × Activated simple_pool Holds
        (with_active simple_pool both constructed)
        o'
        0
        1073217536
        (λ j. get_or both j false)
first_acquired =
    acquire_output_handle-Activated simple_pool Holds simple_pool-Serves both 1073217536 constructed
      constructed-WellFormed refl refl refl refl fresh_pool-Holds

one_call : Calls simple_pool Holds constructed [] first_acquired.0
one_call =
    acquired constructed first_acquired.0 first_acquired.0 [] both 1073217536 0 refl refl refl refl
      fresh_pool-Holds first_acquired.1 (done first_acquired.0)

Calls-fifo_example :
    WellFormed simple_pool first_acquired.0
    × ((j : ℕ)
        → j < 4
        → told simple_pool j first_acquired.0
          ≡ map buffer_word (gone j [] ++ buffers_of simple_pool first_acquired.0 j))
Calls-fifo_example =
    Calls-fifo simple_pool Holds simple_pool-Serves mem_config fresh_pool fresh_tlb managed 2 65536
      constructed first_acquired.0 [] constructed-Fresh one_call

-- Of the manager that has two buffers for each of its managed streams.
destroy_frees_example :
    (p : SimpleMemoryPool) × (destroy simple_pool first_acquired.0 ≡ (
      ok tt,
      record first_acquired.0 {
        memory_pool = p;
        enqueued_buffers = map (λ _. []) first_acquired.0.enqueued_buffers;
      },
    ))
    × Freed simple_pool (blocks first_acquired.0.enqueued_buffers) first_acquired.0.memory_pool p
destroy_frees_example =
    destroy_frees simple_pool Holds simple_pool-Serves first_acquired.0 1073217536
      first_acquired.2.left

mask_of_two : mask_all 2 ≡ both
mask_of_two = refl

third_value : value_at (fill_input 4096 32 (λ a. 255)) 4096 2 ≡ 2
unfolding for_each value_at
third_value = refl

acquire_handles-Queued_example :
    (o' : OutputBufferManager simple_pool) × (acquire_handles simple_pool both 2 constructed
      ≡ (ok (numbers_from 0 2), o'))
    × Queued simple_pool Holds both 2 1072693248 constructed o'
acquire_handles-Queued_example =
    acquire_handles-Queued simple_pool Holds simple_pool-Serves both 1072693248 2 constructed
      constructed-WellFormed refl refl refl refl fresh_pool-Holds
