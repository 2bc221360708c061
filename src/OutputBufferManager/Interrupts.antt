-- ===== src/OutputBufferManager/Interrupts.antt =====
-- handle_fpga_interrupt as a whole (software/libstf/output_buffer_manager.cpp lines 99-119), for a
-- manager that is well formed and an interrupt that the FPGA can send.
use libstf.Base.{
  ℕ, ◌+◌, ◌<◌, ◌≡◌, ap, sym, ◌∙◌, Bool, some, List, [], ◌++◌, arith, length, get_elem?, get_or, All,
  lt→ltb, le→leb, append_assoc,
}
use mathlib.Core.Path.{subst}
use libstf.Base.Action.{Result, ok, lift, >>=-ok}
use libstf.Buffer.{Buffer, MemoryPool}
use libstf.OutputHandle.{OutputHandle}
use libstf.OutputHandle.Marking.{Marked-after}
use libstf.OutputBufferManager.{
  OutputBufferManager, buffers_of, handles_of, move_buffer, finish_stream,
  move_current_buffer_to_handle, refill, handle_value, handle_fpga_interrupt,
}
use libstf.OutputBufferManager.Interrupt.{ℤ, InterruptValue, parse_interrupt_value}
use libstf.OutputBufferManager.Service.{Holding, Serves, Kept}
use libstf.OutputBufferManager.WellFormed.{
  WellFormed, IsStored, AreKnown, get_elem?-in, All-at, All-get_or,
}
use libstf.OutputBufferManager.Outcomes.{IsSent, Handled}
use libstf.OutputBufferManager.Delivery.{fronts}
use libstf.OutputBufferManager.Moving.{Moved, used, move_buffer-Moved}
use libstf.OutputBufferManager.Finishing.{Finished, finish_stream-Finished}
use libstf.OutputBufferManager.Handling.{Refilled, refill_bytes, refill-Refilled, WellFormed-Same}
use libstf.OutputBufferManager.Others.{refill_others}

module _ (pool : MemoryPool) (Holds : Holding pool) (serves : Serves pool Holds)
    (o : OutputBufferManager pool) (value : ℤ) (i bytes n : ℕ) (last : Bool) (id : ℕ) (ids : List ℕ)
    (b : Buffer) (bs : List Buffer) (w : WellFormed pool o)
    (is_sent : IsSent pool o value i bytes last id ids b bs) where
  -- The front handle is one of the store.
  front_known : id < length o.handles
  front_known =
      let q =
        All-get_or (λ (ids : List ℕ). All (λ (k : ℕ). k < length o.handles) ids) o.enqueued_handles
          i [] w.known tt in
      (subst (λ (ids : List ℕ). All (λ (k : ℕ). k < length o.handles) ids) is_sent.front_handle q).0

  -- The state after the buffer moved and the stream finished.
  abbrev pub shifted :
      pool.State → List OutputHandle → List (List Buffer) → List (List ℕ) → OutputBufferManager pool
  shifted p hs qs hq = record o {
    memory_pool = p;
    handles = hs;
    enqueued_buffers = qs;
    enqueued_handles = hq;
  }

  abbrev pub halfway :
      pool.State → List OutputHandle → List (List Buffer) → OutputBufferManager pool
  halfway p hs qs = record o { memory_pool = p; handles = hs; enqueued_buffers = qs }

  move_current-runs :
      (h h1 h2 : OutputHandle) (m ptr : ℕ) (p : pool.State) (hs hs2 : List OutputHandle)
      (qs : List (List Buffer)) (hq : List (List ℕ))
      → Moved pool Holds o i m bytes id b h ptr p hs qs h1
      → Finished pool (halfway p hs qs) i last id ids h1 hs2 hq h2
      → move_current_buffer_to_handle pool i bytes last o ≡ (ok tt, shifted p hs2 qs hq)
  unfolding move_current_buffer_to_handle
  move_current-runs h h1 h2 m ptr p hs hs2 qs hq moved finished =
      fronts pool o i bytes id ids b bs (handles_of pool o i) (buffers_of pool o i) last
        (ok tt, shifted p hs2 qs hq) is_sent.front_handle is_sent.front_buffer
        (rw (le→leb bytes b.capacity is_sent.within) (
          >>=-ok (move_buffer pool i bytes id b) (λ _. finish_stream pool i last id) o moved.runs
          ∙ finished.runs))

  shifted-WellFormed :
      (h h1 h2 : OutputHandle) (m ptr : ℕ) (p : pool.State) (hs hs2 : List OutputHandle)
      (qs : List (List Buffer)) (hq : List (List ℕ))
      → Moved pool Holds o i m bytes id b h ptr p hs qs h1
      → Finished pool (halfway p hs qs) i last id ids h1 hs2 hq h2
      → WellFormed pool (shifted p hs2 qs hq)
  shifted-WellFormed h h1 h2 m ptr p hs hs2 qs hq moved finished = record {
    streams = w.streams;
    registers = w.registers;
    bits = w.bits;
    mask = w.mask;
    buffers = moved.queues ∙ w.buffers;
    queues = finished.queues ∙ w.queues;
    non_empty = w.non_empty;
    small = w.small;
    whole = w.whole;
    stored = finished.all;
    known = subst (λ (k : ℕ). AreKnown k hq) (sym finished.count) finished.known;
    once = w.once;
  }

  -- The parts, put together.
  together :
      (h h1 h2 : OutputHandle) (ptr : ℕ) (p : pool.State) (hs hs2 : List OutputHandle)
      (qs : List (List Buffer)) (hq : List (List ℕ)) (new : List Buffer)
      (o' : OutputBufferManager pool)
      → get_elem? o.handles id ≡ some h
      → Moved pool Holds o i (refill_bytes pool o + n) bytes id b h ptr p hs qs h1
      → Finished pool (halfway p hs qs) i last id ids h1 hs2 hq h2
      → Refilled pool Holds i n new (shifted p hs2 qs hq) o'
      → Handled pool Holds o o' i bytes n last id ids b ptr new h h2
  together h h1 h2 ptr p hs hs2 qs hq new o' found moved finished refilled =
      let supplied = refilled.supplied in
      let same = supplied.same in
      let o1 = shifted p hs2 qs hq in
      let w1 =
        shifted-WellFormed h h1 h2 (refill_bytes pool o + n) ptr p hs hs2 qs hq moved finished in
      record {
        handle = record {
          before = found;
          after = ap (λ (xs : List OutputHandle). get_elem? xs id) same.handles ∙ finished.stored;
          output = ap (λ (xs : List (List Buffer)). get_or xs i []) finished.output ∙ moved.output;
          elsewhere = λ j d.
              ap (λ (xs : List (List Buffer)). get_or xs j []) finished.output
              ∙ moved.elsewhere j d;
          marked = Marked-after i last h h1 h2 moved.marked finished.marked;
          rest = λ k d.
              ap (λ (xs : List OutputHandle). get_elem? xs k) same.handles
              ∙ finished.rest k d
              ∙ moved.rest k d;
          front = ap (λ (xs : List (List ℕ)). get_or xs i []) refilled.handles ∙ finished.front;
          others = λ j d.
              ap (λ (xs : List (List ℕ)). get_or xs j []) refilled.handles ∙ finished.others j d;
        };
        flow = record {
          queue =
              ap (λ (q : List Buffer). used pool o bytes b ++ q) supplied.queue
              ∙ sym (append_assoc (used pool o bytes b) (get_or qs i []) new)
              ∙ ap (λ (q : List Buffer). q ++ new) moved.queue;
          writes = supplied.writes;
        };
        others = λ j d known.
            let flow =
              refill_others pool Holds i j n new o1 o' w1 supplied d is_sent.stream known in
            record {
              queue = flow.queue ∙ ap (λ (q : List Buffer). q ++ []) (moved.others j d);
              writes = flow.writes;
            };
        silent = supplied.silent;
        enough = refilled.enough;
        unmanaged = refilled.unmanaged;
        config = record {
          mem_config = same.mem_config;
          num_streams = same.num_streams;
          managed_streams = same.managed_streams;
          num_buffers_to_enqueue = same.num_buffers_to_enqueue;
          buffer_capacity = same.buffer_capacity;
        };
        well = WellFormed-Same pool o1 o' w1 same refilled.handles supplied.once;
        left = supplied.left;
      }

  runs :
      (p : pool.State) (hs : List OutputHandle) (qs : List (List Buffer)) (hq : List (List ℕ))
      (o' : OutputBufferManager pool)
      → move_current_buffer_to_handle pool i bytes last o ≡ (ok tt, shifted p hs qs hq)
      → refill pool i (shifted p hs qs hq) ≡ (ok tt, o')
      → handle_fpga_interrupt pool value o ≡ (ok tt, o')
  unfolding handle_fpga_interrupt
  runs p hs qs hq o' moves refills =
      >>=-ok (lift (parse_interrupt_value value)) (handle_value pool) o
        (ap (λ (r : Result InterruptValue). (r, o)) is_sent.parsed)
      ∙ rw (lt→ltb i o.num_streams is_sent.stream) (
          >>=-ok (move_current_buffer_to_handle pool i bytes last) (λ _. refill pool i) o moves
          ∙ refills)

  -- Topping up after the buffer moved.
  Outcome : Type 0
  Outcome =
      (o' : OutputBufferManager pool) × (ptr : ℕ) × (new : List Buffer) × (h : OutputHandle)
      × (h' : OutputHandle) × (handle_fpga_interrupt pool value o ≡ (ok tt, o'))
      × Handled pool Holds o o' i bytes n last id ids b ptr new h h'

  refilled_after :
      (h h1 h2 : OutputHandle) (ptr : ℕ) (p : pool.State) (hs hs2 : List OutputHandle)
      (qs : List (List Buffer)) (hq : List (List ℕ))
      → get_elem? o.handles id ≡ some h
      → Moved pool Holds o i (refill_bytes pool o + n) bytes id b h ptr p hs qs h1
      → Finished pool (halfway p hs qs) i last id ids h1 hs2 hq h2
      → Outcome
  unfolding Outcome
  refilled_after h h1 h2 ptr p hs hs2 qs hq found moved finished =
      let (managed, e) =
        get_elem?-in o.managed_streams i (omega (arith, w.mask, w.bits, is_sent.stream)) in
      let (new, o', run, refilled) =
        refill-Refilled pool Holds serves i n (shifted p hs2 qs hq) managed
          (shifted-WellFormed h h1 h2 (refill_bytes pool o + n) ptr p hs hs2 qs hq moved finished)
          is_sent.stream e moved.left in
      (
        o',
        ptr,
        new,
        h,
        h2,
        runs p hs2 qs hq o'
            (move_current-runs h h1 h2 (refill_bytes pool o + n) ptr p hs hs2 qs hq moved finished)
            run,
        together h h1 h2 ptr p hs hs2 qs hq new o' found moved finished refilled,
      )

  pub handle_fpga_interrupt-Handled :
      Kept pool Holds (b.capacity + (refill_bytes pool o + n)) o
      → (o' : OutputBufferManager pool) × (ptr : ℕ) × (new : List Buffer) × (h : OutputHandle)
        × (h' : OutputHandle) × (handle_fpga_interrupt pool value o ≡ (ok tt, o'))
        × Handled pool Holds o o' i bytes n last id ids b ptr new h h'
  unfolding Outcome
  handle_fpga_interrupt-Handled kept =
      let (h, found) = get_elem?-in o.handles id front_known in
      let sizes = All-at (IsStored o.num_streams) o.handles id h w.stored found in
      let (ptr, p, hs, qs, h1, moved) =
        move_buffer-Moved pool Holds serves o i (refill_bytes pool o + n) bytes id b bs h
          (omega (arith, w.buffers, is_sent.stream)) is_sent.front_buffer found w.stored
          (omega (arith, sizes.0, is_sent.stream)) is_sent.within kept in
      let (hs2, hq, h2, finished) =
        finish_stream-Finished pool (halfway p hs qs) i last id ids h1 is_sent.front_handle
          (omega (arith, w.queues, is_sent.stream)) moved.stored
          (omega (arith, ap length moved.finished, sizes.1, w.bits, is_sent.stream)) moved.all
          (subst (λ (k : ℕ). AreKnown k o.enqueued_handles) (sym moved.count) w.known) in
      refilled_after h h1 h2 ptr p hs hs2 qs hq found moved finished
