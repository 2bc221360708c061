-- ===== src/OutputBufferManager.antt =====
-- class OutputBufferManager: software/libstf/output_buffer_manager.hpp and output_buffer_manager.cpp.
-- Its mutex makes each call one step on the state. The shared handles live in a store, by number.
pub mod Interrupt
pub mod Chunks
pub mod Service
pub mod Supply
pub mod WellFormed
pub mod Moving
pub mod Finishing
pub mod Handling
pub mod LiveBlocks
pub mod SimplePool
pub mod Outcomes
pub mod Others
pub mod Interrupts
pub mod Activation
pub mod Rounds
pub mod Acquisition
pub mod Leading
pub mod SizedAcquisition
pub mod Destruction
pub mod Histories
pub mod TopUp
pub mod Delivery
use libstf.Base.{
  ℕ, zero, suc, ◌+◌, ◌-◌, ◌*◌, ◌/◌, ◌%◌, ◌≡◌, refl, Bool, true, false, not, ◌&&◌, ◌||◌, Option,
  none, some, List, [], ◌∷◌, ◌++◌, map, ltb, leb, ◌==◌, if◌then◌else◌, length, get_elem?, get_or,
  set, replicate, min,
}
use libstf.Base.Action.{
  Action, Result, ok, err, runtime_error, out_of_range, out_of_fuel, ◌>>=◌, ◌>>◌, pure, gets, lift,
  modify, ensure, throw_if,
}
use libstf.ErrorHandling.{Status, is_ok}
use libstf.Common.{
  bytes_per_fpga_transfer, maximum_fpga_buffer_size, maximum_output_writer_buffer_size,
}
use libstf.Buffer.{Buffer, MemoryPool}
use libstf.Coyote.{CThread}
use libstf.TlbManager.{TlbManager, ensure_tlb_mapping}
use libstf.Configuration.{MemConfig, enqueue_buffer}
use libstf.Configuration
use libstf.OutputHandle
use libstf.OutputHandle.{
  OutputHandle, StreamMask, no_streams, test, set_bit, is_empty, push_buffer, mark_done, free_queue,
  free_queues,
}
use libstf.OutputBufferManager.Interrupt.{ℤ, InterruptValue, parse_interrupt_value}

abbrev pub rest_of : {A : Type 0} → List A → List A
rest_of [] = []
rest_of (x ∷ xs) = xs

abbrev pub any : StreamMask → Bool
any [] = false
any (b ∷ bs) = b || any bs

-- `(mask >> n).none()` and `(mask & ~managed).none()`
abbrev pub none_from : ℕ → StreamMask → Bool
none_from n [] = true
none_from zero (b ∷ bs) = not b && none_from zero bs
none_from (suc n) (b ∷ bs) = none_from n bs

abbrev pub is_within : StreamMask → StreamMask → Bool
is_within [] managed = true
is_within (b ∷ bs) [] = not b && is_within bs []
is_within (b ∷ bs) (m ∷ ms) = (not b || m) && is_within bs ms

abbrev pub chunk_of : ℕ → ℕ
chunk_of remaining = min remaining maximum_output_writer_buffer_size

-- A chunk, rounded up to whole transfers.
abbrev pub capacity_of : ℕ → ℕ
capacity_of chunk =
    (chunk + bytes_per_fpga_transfer - 1) / bytes_per_fpga_transfer * bytes_per_fpga_transfer

module _ (pool : MemoryPool) where
  pub record OutputBufferManager : Type 0 where
    pub mem_config : MemConfig
    pub memory_pool : pool.State
    -- With the thread, to which mem_config writes too.
    pub tlb_manager : TlbManager
    pub num_streams : ℕ
    pub managed_streams : StreamMask
    pub num_buffers_to_enqueue : ℕ
    pub buffer_capacity : ℕ
    -- Of each stream a queue, its front first.
    pub enqueued_handles : List (List ℕ)
    pub enqueued_buffers : List (List Buffer)
    -- Every handle that was given out, by its number.
    pub handles : List OutputHandle

  -- The constructor.
  unfoldable pub construct :
      MemConfig → pool.State → TlbManager → StreamMask → ℕ → ℕ → Result OutputBufferManager
  construct m p t managed_streams num_buffers_to_enqueue buffer_capacity =
      if num_buffers_to_enqueue == 0
      then err runtime_error
      else if ltb m.maximum_num_enqueued_buffers num_buffers_to_enqueue
      then err runtime_error
      else if ltb buffer_capacity bytes_per_fpga_transfer
      then err runtime_error
      else if leb maximum_fpga_buffer_size buffer_capacity
      then err runtime_error
      else if not (buffer_capacity % bytes_per_fpga_transfer == 0)
      then err runtime_error
      else ok (record {
        mem_config = m;
        memory_pool = p;
        tlb_manager = t;
        num_streams = m.num_streams;
        managed_streams = managed_streams;
        num_buffers_to_enqueue = num_buffers_to_enqueue;
        buffer_capacity = buffer_capacity;
        enqueued_handles = replicate m.num_streams [];
        enqueued_buffers = replicate m.num_streams [];
        handles = [];
      })

  -- Calls of the parts.
  abbrev pub on_pool : {A : Type 0} → Action pool.State A → Action OutputBufferManager A
  on_pool call o = let (r, p) = call o.memory_pool in (r, record o { memory_pool = p })

  abbrev pub on_tlb : {A : Type 0} → Action TlbManager A → Action OutputBufferManager A
  on_tlb call o = let (r, t) = call o.tlb_manager in (r, record o { tlb_manager = t })

  abbrev pub on_thread : {A : Type 0} → Action CThread A → Action OutputBufferManager A
  on_thread call = on_tlb (λ t. let (r, c) = call t.cthread in (r, record t { cthread = c }))

  -- A call of a handle of the store.
  abbrev pub on_handle : ℕ → Action OutputHandle (Unit {0}) → Action OutputBufferManager (Unit {0})
  on_handle id call o = elim (get_elem? o.handles id) [
    | none ↦ (ok tt, o)
    | some h ↦ let (r, h') = call h in (r, record o { handles = set o.handles id h' })
  ]

  abbrev pub buffers_of : OutputBufferManager → ℕ → List Buffer
  buffers_of o i = get_or o.enqueued_buffers i []

  abbrev pub handles_of : OutputBufferManager → ℕ → List ℕ
  handles_of o i = get_or o.enqueued_handles i []

  -- `enqueued_buffers[stream].push(buffer)` and `enqueued_handles[stream].emplace(handle)`
  abbrev pub push_enqueued : ℕ → Buffer → OutputBufferManager → OutputBufferManager
  push_enqueued i b o = record o {
    enqueued_buffers = set o.enqueued_buffers i (buffers_of o i ++ (b ∷ []));
  }

  abbrev pub push_handle : ℕ → ℕ → OutputBufferManager → OutputBufferManager
  push_handle i id o = record o {
    enqueued_handles = set o.enqueued_handles i (handles_of o i ++ (id ∷ []));
  }

  abbrev pub pop_enqueued : ℕ → OutputBufferManager → OutputBufferManager
  pop_enqueued i o = record o {
    enqueued_buffers = set o.enqueued_buffers i (rest_of (buffers_of o i));
  }

  abbrev pub pop_handle : ℕ → OutputBufferManager → OutputBufferManager
  pop_handle i o = record o {
    enqueued_handles = set o.enqueued_handles i (rest_of (handles_of o i));
  }

  -- After the allocation: the check of its status, and the mapping of the pages.
  abbrev pub map_allocated : ℕ → Status × ℕ → Action OutputBufferManager Buffer
  map_allocated capacity (status, ptr) = do
    throw_if (not (is_ok status)) runtime_error
    p ← gets (λ o. o.memory_pool)
    on_tlb (ensure_tlb_mapping (λ a. pool.get_page_boundaries a p) ptr capacity)
    pure (record { ptr = ptr; size = 0; capacity = capacity })

  -- `Buffer buffer = {}; buffer.capacity = capacity;`, the allocation and the mapping.
  unfoldable pub provide : ℕ → Action OutputBufferManager Buffer
  provide capacity = on_pool (pool.allocate capacity 0) >>= map_allocated capacity

  -- Stores the buffer, and writes it to the FPGA.
  abbrev pub store_and_write : ℕ → Buffer → Action OutputBufferManager (Unit {0})
  store_and_write stream_id buffer = do
    modify (push_enqueued stream_id buffer)
    m ← gets (λ o. o.mem_config)
    on_thread (enqueue_buffer m stream_id buffer)

  unfoldable pub enqueue_buffer_for_stream : ℕ → Action OutputBufferManager (Unit {0})
  unfolding provide
  enqueue_buffer_for_stream stream_id =
      gets (λ o. o.buffer_capacity) >>= provide >>= store_and_write stream_id

  -- The loop, on fuel.
  unfoldable pub top_up : ℕ → ℕ → Action OutputBufferManager (Unit {0})
  unfolding enqueue_buffer_for_stream
  top_up zero stream_id o =
      if ltb (length (buffers_of o stream_id)) o.num_buffers_to_enqueue
      then (err out_of_fuel, o)
      else (ok tt, o)
  top_up (suc fuel) stream_id o =
      let round = enqueue_buffer_for_stream stream_id >> top_up fuel stream_id in
      elim (ltb (length (buffers_of o stream_id)) o.num_buffers_to_enqueue) [
        | false ↦ (ok tt, o)
        | true ↦ round o
      ]

  -- Each round adds a buffer.
  unfoldable pub ensure_stream_has_buffers : ℕ → Action OutputBufferManager (Unit {0})
  unfolding top_up
  ensure_stream_has_buffers stream_id o = top_up o.num_buffers_to_enqueue stream_id o

  -- The check of the status, and the buffer with the pointer after the call.
  abbrev pub after_shrink : Buffer → Status × ℕ → Action OutputBufferManager Buffer
  after_shrink active_buffer (status, ptr) =
      throw_if (not (is_ok status)) runtime_error >> pure (record active_buffer { ptr = ptr })

  -- Shrinks the block where the FPGA wrote less than it holds.
  unfoldable pub shrink : Buffer → ℕ → Action OutputBufferManager Buffer
  shrink active_buffer bytes_written =
      if ltb bytes_written active_buffer.capacity
      then (on_pool (pool.reallocate active_buffer.capacity bytes_written active_buffer.ptr)
          >>= after_shrink active_buffer)
      else pure active_buffer

  -- Sets the size, and passes the buffer to the handle.
  abbrev pub pass_on : ℕ → ℕ → ℕ → Buffer → Action OutputBufferManager (Unit {0})
  pass_on stream_id bytes_written active_handle buffer =
      on_handle active_handle
        (modify (push_buffer stream_id (record buffer { size = bytes_written })))
      >> modify (pop_enqueued stream_id)

  -- The buffer of an interrupt: moved to the handle, freed, or left.
  unfoldable pub move_buffer : ℕ → ℕ → ℕ → Buffer → Action OutputBufferManager (Unit {0})
  unfolding shrink
  move_buffer stream_id bytes_written active_handle active_buffer =
      if ltb 0 bytes_written
      then (shrink active_buffer bytes_written >>= pass_on stream_id bytes_written active_handle)
      else (gets (λ o. o.mem_config) >>= λ m.
          if m.empty_stream_consumes_buffer
          then (on_pool (pool.free active_buffer.ptr active_buffer.capacity)
              >> modify (pop_enqueued stream_id))
          else pure tt)

  unfoldable pub finish_stream : ℕ → Bool → ℕ → Action OutputBufferManager (Unit {0})
  finish_stream stream_id last active_handle =
      if last
      then (on_handle active_handle (mark_done stream_id) >> modify (pop_handle stream_id))
      else pure tt

  -- With the fronts of the two queues.
  abbrev pub move_and_finish : ℕ → ℕ → Bool → ℕ → Buffer → Action OutputBufferManager (Unit {0})
  move_and_finish stream_id bytes_written last active_handle active_buffer = do
    ensure (leb bytes_written active_buffer.capacity)
    move_buffer stream_id bytes_written active_handle active_buffer
    finish_stream stream_id last active_handle

  -- The front of an empty queue of buffers is undefined; here it is a buffer of no capacity.
  unfoldable pub move_current_buffer_to_handle :
      ℕ → ℕ → Bool → Action OutputBufferManager (Unit {0})
  unfolding move_buffer finish_stream
  move_current_buffer_to_handle stream_id bytes_written last o =
      let active_handle = get_or (handles_of o stream_id) 0 0 in
      let active_buffer =
        get_or (buffers_of o stream_id) 0 (record { ptr = 0; size = 0; capacity = 0 }) in
      (ensure (not (is_empty (handles_of o stream_id)))
          >> move_and_finish stream_id bytes_written last active_handle active_buffer)
        o

  -- Managed streams get new buffers; with whether the stream is managed.
  abbrev pub refill_if : ℕ → Result Bool → Action OutputBufferManager (Unit {0})
  refill_if stream_id (err e) o = (err e, o)
  refill_if stream_id (ok true) o = ensure_stream_has_buffers stream_id o
  refill_if stream_id (ok false) o = (ok tt, o)

  abbrev pub refill : ℕ → Action OutputBufferManager (Unit {0})
  refill stream_id o = refill_if stream_id (test o.managed_streams stream_id) o

  -- After the interrupt was parsed.
  abbrev pub handle_value : InterruptValue → Action OutputBufferManager (Unit {0})
  handle_value parsed o =
      (ensure (ltb parsed.stream_id o.num_streams)
          >> (move_current_buffer_to_handle parsed.stream_id parsed.bytes_written parsed.last
              >> refill parsed.stream_id))
        o

  unfoldable pub handle_fpga_interrupt : ℤ → Action OutputBufferManager (Unit {0})
  unfolding parse_interrupt_value move_current_buffer_to_handle ensure_stream_has_buffers test
  handle_fpga_interrupt coyote_value = lift (parse_interrupt_value coyote_value) >>= handle_value

  -- `new OutputHandle(memory_pool, active_mask, NUM_STREAMS)`, and its number.
  abbrev pub new_handle : StreamMask → Action OutputBufferManager ℕ
  new_handle active_mask o = (
    ok (length o.handles),
    record o { handles = o.handles ++ (OutputHandle.init active_mask o.num_streams ∷ []) },
  )

  -- The loop over `count` streams from `i` on.
  unfoldable pub activate : StreamMask → ℕ → ℕ → ℕ → Action OutputBufferManager (Unit {0})
  unfolding ensure_stream_has_buffers test
  activate active_mask handle zero i = pure tt
  activate active_mask handle (suc count) i = do
    active ← lift (test active_mask i)
    (if active then (ensure_stream_has_buffers i >> modify (push_handle i handle)) else pure tt)
    activate active_mask handle count (suc i)

  -- `acquire_output_handle(active_streams)`
  unfoldable pub acquire_output_handle : StreamMask → Action OutputBufferManager ℕ
  unfolding activate
  acquire_output_handle active_mask = do
    n ← gets (λ o. o.num_streams)
    ensure (any active_mask && none_from n active_mask)
    managed ← gets (λ o. o.managed_streams)
    ensure (is_within active_mask managed)
    handle ← new_handle active_mask
    activate active_mask handle n 0
    pure handle

  -- Stores the buffer and the handle, and writes the buffer to the FPGA.
  abbrev pub store_chunk : ℕ → ℕ → Buffer → Action OutputBufferManager (Unit {0})
  store_chunk stream handle buffer = do
    modify (push_enqueued stream buffer)
    modify (push_handle stream handle)
    m ← gets (λ o. o.mem_config)
    on_thread (enqueue_buffer m stream buffer)

  -- One round of the loop of the overload with a size.
  unfoldable pub enqueue_chunk : ℕ → ℕ → ℕ → Action OutputBufferManager (Unit {0})
  unfolding provide
  enqueue_chunk stream handle chunk = provide (capacity_of chunk) >>= store_chunk stream handle

  -- The loop, on fuel.
  unfoldable pub enqueue_chunks : ℕ → ℕ → ℕ → ℕ → Action OutputBufferManager (Unit {0})
  unfolding enqueue_chunk
  enqueue_chunks zero stream handle remaining =
      if ltb 0 remaining then lift (err out_of_fuel) else pure tt
  enqueue_chunks (suc fuel) stream handle remaining =
      let rest = enqueue_chunks fuel stream handle (remaining - chunk_of remaining) in
      elim (ltb 0 remaining) [
        | true ↦ enqueue_chunk stream handle (chunk_of remaining) >> rest
        | false ↦ pure tt
      ]

  -- The assertions of the overload with a size.
  abbrev pub check_unmanaged : ℕ → ℕ → Action OutputBufferManager (Unit {0})
  check_unmanaged stream size = do
    n ← gets (λ o. o.num_streams)
    ensure (ltb stream n)
    managed ← (λ o. lift (test o.managed_streams stream) o)
    ensure (not managed)
    ensure (ltb 0 size)

  -- After them; each round takes a byte at least.
  abbrev pub acquire_chunks : ℕ → ℕ → StreamMask → Action OutputBufferManager ℕ
  acquire_chunks stream size active_mask =
      new_handle active_mask >>= λ handle. enqueue_chunks size stream handle size >> pure handle

  -- `acquire_output_handle(stream, size)`
  unfoldable pub acquire_sized_output_handle : ℕ → ℕ → Action OutputBufferManager ℕ
  unfolding enqueue_chunks
  acquire_sized_output_handle stream size =
      check_unmanaged stream size
      >> (lift (set_bit no_streams stream) >>= acquire_chunks stream size)

  abbrev pub flush_buffers : Action OutputBufferManager (Unit {0})
  flush_buffers = gets (λ o. o.mem_config) >>= λ m. on_thread (Configuration.flush_buffers m)

  -- `free_buffers_in_queue` is the loop of `free_queue`; the destructor runs it on each queue.
  unfoldable pub destroy : Action OutputBufferManager (Unit {0})
  destroy = do
    queues ← gets (λ o. o.enqueued_buffers)
    on_pool (free_queues pool queues)
    modify (λ o. record o { enqueued_buffers = map (λ _. []) o.enqueued_buffers })
