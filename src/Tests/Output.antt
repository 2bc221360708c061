-- ===== src/Tests/Output.antt =====
-- The output path at concrete inputs: a pool that hands out one block behind another, a manager of four
-- streams, of which the first two are managed, and a handle for the streams 0 and 1.
use libstf.Base.{
  ℕ, suc, ◌+◌, ◌-◌, ◌≤◌, ◌≡◌, refl, true, false, none, some, List, [], ◌∷◌, arith, length, ◌++◌,
  set, replicate, get_elem?, ◌<◌,
}
use libstf.Base.Action.{ok}
use libstf.ErrorHandling.{status_ok}
use libstf.Buffer.{Buffer, MemoryPool}
use libstf.TlbManager.OnePage.{Once}
use libstf.OutputHandle
use libstf.OutputHandle.{
  OutputHandle, StreamMask, no_streams, output_of, push_buffer, mark_done, get_next_stream_output,
  any_stream_has_more_output,
}
use libstf.OutputHandle.AnyStream.{IsIn, any_stream_has_more_output_lem}
use libstf.OutputHandle.Reading.{IsReadable, Reads, readers_agree, drain, drain-finished}
use libstf.OutputHandle.Callbacks.{started, add_callbacks, mark_done-add_callback}
use libstf.OutputHandle.Histories.{
  Event, pushed, marked, took, push, mark, take, Steps, done, next, pushes, takes, all_of,
  Steps-fifo,
}
use libstf.OutputBufferManager.{
  OutputBufferManager, ensure_stream_has_buffers, acquire_sized_output_handle,
  move_current_buffer_to_handle,
}
use libstf.OutputBufferManager.Interrupt.{
  to_int32, parse_interrupt_value, parse_interrupt_value-interrupt_word,
}
use libstf.OutputBufferManager.WellFormed.{WellFormed}
use libstf.OutputBufferManager.Service.{Holding, Serves}
use libstf.OutputBufferManager.TopUp.{ToppedUp, ensure_stream_has_buffers-ToppedUp}
use libstf.OutputBufferManager.Chunks.{Acquired, with_handle, acquire_sized_output_handle-Acquired}
use libstf.OutputBufferManager.Delivery.{
  IsPending, Delivered, move_current_buffer_to_handle-Delivered,
}
use libstf.OutputHandle.{test}

abbrev lo : ℕ
lo = 2097152

abbrev hi : ℕ
hi = 1099511627776

-- Its state is the next free address; its memory is one page.
abbrev bump_pool : MemoryPool
bump_pool = record {
  State = ℕ;
  allocate = λ size out s. (ok (status_ok, s), s + size);
  reallocate = λ old_size size ptr s. (ok (status_ok, ptr), s);
  free = λ ptr size s. (ok tt, s);
  get_page_boundaries = λ a s. ok (lo, hi - lo);
}

abbrev Holds : Holding bump_pool
Holds bs n s = (lo ≤ s) × (s + n ≤ hi)

bump_pool-Serves : Serves bump_pool Holds
bump_pool-Serves = record {
  allocates = λ c n bs s pos whole good. (
    s,
    s + c,
    refl,
    (omega (arith, good.0), omega (arith, good.1)),
    omega (arith, good.1),
    record {
      page = λ a l h. ((lo, hi - lo), refl, omega (arith, good.0), omega (arith, good.1));
      same = λ a b r e l h. e;
    },
  );
  shrinks = λ ptr c bytes n bs s pos less good. (ptr, s, refl, (good.0, omega (arith, good.1)));
  frees = λ ptr c n bs s good. (s, refl, good);
  forgets = λ r bs n s good. good;
  weakens = λ bs m n s good. (good.0, omega (arith, good.1));
  puts = λ r bs cs n s i good. good;
  brings = λ r bs cs n s i good. good;
}

abbrev manager : OutputBufferManager bump_pool
manager = record {
  mem_config = record {
    config = record { addr_offset = 16; num_regs = 8 };
    num_streams = 4;
    maximum_num_enqueued_buffers = 8;
    empty_stream_consumes_buffer = true;
  };
  memory_pool = lo;
  tlb_manager = record {
    existing_tlb_mappings = [];
    cthread = record { calls = []; get_csr = λ r. 0 };
  };
  num_streams = 4;
  managed_streams = set (set no_streams 0 true) 1 true;
  num_buffers_to_enqueue = 2;
  buffer_capacity = 65536;
  enqueued_handles = replicate 4 [];
  enqueued_buffers = replicate 4 [];
  handles = [];
}

fresh-Once :
    Once (record { existing_tlb_mappings = []; cthread = record { calls = []; get_csr = λ r. 0 } })
fresh-Once = record { mapped = λ a. refl; distinct = tt; ordered = tt }

ensure_stream_has_buffers-ToppedUp_example :
    (new : List Buffer) × (o' : OutputBufferManager bump_pool) × (ensure_stream_has_buffers
        bump_pool 1 manager
      ≡ (ok tt, o'))
    × ToppedUp bump_pool Holds 1 2 100 manager new o'
ensure_stream_has_buffers-ToppedUp_example =
    ensure_stream_has_buffers-ToppedUp bump_pool Holds bump_pool-Serves 1 100 manager
      (record {
        stream = omega arith;
        register = omega arith;
        queue = omega arith;
        non_empty = omega arith;
        small = omega arith;
        whole = refl;
      })
      (omega arith, omega arith) fresh-Once

-- More than one buffer of the maximum.
acquire_sized_output_handle-Acquired_example :
    (new : List Buffer) × (o' : OutputBufferManager bump_pool) × (acquire_sized_output_handle
        bump_pool 2 300000000 manager
      ≡ (ok 0, o'))
    × Acquired bump_pool Holds 2 100 0 300000000 new (with_handle bump_pool 2 manager) o'
acquire_sized_output_handle-Acquired_example =
    acquire_sized_output_handle-Acquired bump_pool Holds bump_pool-Serves 2 300000000 100 manager
      (omega arith) (omega arith) refl (omega arith)
      (record {
        stream = omega arith;
        register = omega arith;
        queue = omega arith;
        non_empty = omega arith;
        small = omega arith;
        whole = refl;
      })
      (omega arith) (omega arith, omega arith) fresh-Once

abbrev handle : OutputHandle
handle = OutputHandle.init (set (set no_streams 0 true) 1 true) 4

abbrev waiting : Buffer
waiting = record { ptr = 2097152; size = 0; capacity = 65536 }

abbrev behind : Buffer
behind = record { ptr = 2162688; size = 0; capacity = 65536 }

-- The manager with a handle and two buffers for stream 1.
abbrev running : OutputBufferManager bump_pool
running = record manager {
  enqueued_handles = set (replicate 4 []) 1 (0 ∷ []);
  enqueued_buffers = set (replicate 4 []) 1 (waiting ∷ behind ∷ []);
  handles = handle ∷ [];
}

running-IsPending : IsPending bump_pool running 1 100 0 [] waiting (behind ∷ []) handle
running-IsPending = record {
  front_handle = refl;
  front_buffer = refl;
  handle = refl;
  handles = omega arith;
  buffers = omega arith;
  outputs = omega arith;
  mask = omega arith;
  output = omega arith;
  within = omega arith;
  shrinks = λ less. (2097152, lo, refl);
}

-- The last output is a short one.
move_current_buffer_to_handle-Delivered_test :
    (ptr : ℕ) × (o' : OutputBufferManager bump_pool) × (move_current_buffer_to_handle bump_pool 1
        100 true running
      ≡ (ok tt, o'))
    × Delivered bump_pool running 1 100 0 [] waiting
        (behind ∷ [])
        handle
        running-IsPending
        true
        ptr
        o'
move_current_buffer_to_handle-Delivered_test =
    move_current_buffer_to_handle-Delivered bump_pool running 1 100 0 [] waiting (behind ∷ [])
      handle running-IsPending true

parse_interrupt_value-interrupt_word_example :
    parse_interrupt_value (to_int32 3355443205)
    ≡ ok (record { last = true; bytes_written = 150994944; stream_id = 5 })
parse_interrupt_value-interrupt_word_example =
    parse_interrupt_value-interrupt_word
      (record { last = true; bytes_written = 150994944; stream_id = 5 }) (omega arith) (omega arith)

abbrev first : Buffer
first = record { ptr = 2097152; size = 65536; capacity = 65536 }

abbrev second : Buffer
second = record { ptr = 2162688; size = 100; capacity = 65536 }

-- A handle with two outputs of stream 1.
abbrev filled : OutputHandle
filled = push_buffer 1 second (push_buffer 1 first handle)

reads_first : (get_next_stream_output bump_pool 1 filled).0 ≡ ok (some (some first))
unfolding get_next_stream_output test push_buffer
reads_first = refl

abbrev events : List Event
events = pushed 1 first ∷ pushed 1 second ∷ took 1 first ∷ marked 1 ∷ []

abbrev after_events : OutputHandle
after_events = (mark_done 1 (get_next_stream_output bump_pool 1 filled).1).1

filled-IsReadable : IsReadable filled 1 false
unfolding push_buffer
filled-IsReadable = record { known = omega arith; active = refl; state = refl }

run : Steps bump_pool handle events after_events
unfolding push_buffer get_next_stream_output test
run =
    next handle (push_buffer 1 first handle) after_events (pushed 1 first) _
      (push handle 1 first (omega arith))
      (next (push_buffer 1 first handle) filled after_events (pushed 1 second) _
        (push (push_buffer 1 first handle) 1 second (omega arith))
        (next filled (get_next_stream_output bump_pool 1 filled).1 after_events (took 1 first) _
          (take filled 1 first false filled-IsReadable (omega arith) reads_first)
          (next (get_next_stream_output bump_pool 1 filled).1 after_events after_events (marked 1) _
            (mark (get_next_stream_output bump_pool 1 filled).1 1 (omega arith))
            (done after_events))))

Steps-fifo_example :
    output_of handle 1 ++ all_of (pushes 1) events
    ≡ all_of (takes 1) events ++ output_of after_events 1
Steps-fifo_example = Steps-fifo bump_pool handle after_events events 1 run

readers_agree_example : Reads bump_pool 1 filled false
readers_agree_example = readers_agree bump_pool 1 filled false filled-IsReadable

abbrev finished : OutputHandle
finished = record filled { finished_streams = set no_streams 1 true }

finished-IsReadable : IsReadable finished 1 true
unfolding push_buffer
finished-IsReadable = record { known = omega arith; active = refl; state = refl }

finished_outputs : 1 < length finished.output_buffers
unfolding push_buffer
finished_outputs = omega arith

drain-finished_example :
    ((drain bump_pool 1 (suc (length (output_of finished 1))) finished).0
      ≡ some (output_of finished 1))
    × (output_of (drain bump_pool 1 (suc (length (output_of finished 1))) finished).1 1 ≡ [])
drain-finished_example = drain-finished bump_pool 1 finished finished-IsReadable finished_outputs

-- What is drained are the two outputs.
drained : output_of finished 1 ≡ first ∷ second ∷ []
unfolding push_buffer
drained = refl

mark_done-add_callback_example :
    ((mark_done 1 (add_callbacks (7 ∷ 8 ∷ []) handle)).0 ≡ ok tt)
    × (started (mark_done 1 (add_callbacks (7 ∷ 8 ∷ []) handle)).1 ≡ (7, 1) ∷ (8, 1) ∷ [])
    × (get_elem? (mark_done 1 (add_callbacks (7 ∷ 8 ∷ []) handle)).1.finished_streams 1 ≡ some true)
mark_done-add_callback_example = mark_done-add_callback 7 (8 ∷ []) handle 1 refl (omega arith)

-- A new handle for two streams.
any_stream_has_more_output_lem_example :
    ((j : ℕ) (b : Buffer) (rest : List Buffer)
      → output_of handle j ≡ b ∷ rest
      → any_stream_has_more_output handle ≡ (ok (some true), handle))
    × (((j : ℕ) → output_of handle j ≡ [])
        → ((j : ℕ)
            → j < length handle.output_buffers
            → IsIn handle.active_streams j true
            → IsIn handle.finished_streams j true)
        → any_stream_has_more_output handle ≡ (ok (some false), handle))
    × (((j : ℕ) → output_of handle j ≡ [])
        → (j : ℕ) → j < length handle.output_buffers
        → IsIn handle.active_streams j true
        → IsIn handle.finished_streams j false
        → any_stream_has_more_output handle ≡ (ok none, handle))
any_stream_has_more_output_lem_example =
    any_stream_has_more_output_lem handle refl refl (omega arith)
