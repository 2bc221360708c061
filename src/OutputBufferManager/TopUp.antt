-- ===== src/OutputBufferManager/TopUp.antt =====
-- ensure_stream_has_buffers (software/libstf/output_buffer_manager.cpp lines 282-286): the loop that
-- tops a stream up.
use libstf.Base.{
  ℕ, zero, suc, ◌+◌, ◌-◌, ◌*◌, ◌≤◌, ◌≡◌, refl, ap, sym, ◌∙◌, List, [], ◌∷◌, ◌++◌, map, arith,
  length, lt→ltb, le→ltb, length-append, append_assoc, append-nil, All,
}
use mathlib.Core.Path.{subst}
use native.Mathlib.Nat.{suc-mul}
use libstf.Base.Action.{ok, >>=-ok}
use libstf.Buffer.{Buffer, MemoryPool}
use libstf.TlbManager.OnePage.{Once}
use libstf.Configuration.{MemConfig, buffer_word}
use libstf.Configuration.Encoding.{at}
use libstf.OutputBufferManager.{
  OutputBufferManager, buffers_of, enqueue_buffer_for_stream, top_up, ensure_stream_has_buffers,
}
use libstf.OutputBufferManager.Service.{Holding, Serves, Kept}
use libstf.OutputBufferManager.Supply.{
  Same, Supplied, IsServable, told, enqueue_buffer_for_stream_lem,
}

-- Nothing new.
pub Supplied-none :
    (pool : MemoryPool) (Holds : Holding pool) (i n : ℕ) (o : OutputBufferManager pool)
    → Kept pool Holds n o
    → Once o.tlb_manager
    → Supplied pool Holds i n [] o o
Supplied-none pool Holds i n o good once = record {
  queue = sym (append-nil (buffers_of pool o i));
  others = λ j d. refl;
  writes = sym (append-nil (told pool i o));
  silent = λ reg d. refl;
  left = good;
  once = once;
  same = record {
    mem_config = refl;
    num_streams = refl;
    managed_streams = refl;
    num_buffers_to_enqueue = refl;
    buffer_capacity = refl;
    handles = refl;
    queues = refl;
  };
}

pub Same-trans :
    (pool : MemoryPool) (o o1 o2 : OutputBufferManager pool)
    → Same pool o o1
    → Same pool o1 o2
    → Same pool o o2
Same-trans pool o o1 o2 s r = record {
  mem_config = r.mem_config ∙ s.mem_config;
  num_streams = r.num_streams ∙ s.num_streams;
  managed_streams = r.managed_streams ∙ s.managed_streams;
  num_buffers_to_enqueue = r.num_buffers_to_enqueue ∙ s.num_buffers_to_enqueue;
  buffer_capacity = r.buffer_capacity ∙ s.buffer_capacity;
  handles = r.handles ∙ s.handles;
  queues = r.queues ∙ s.queues;
}

-- One buffer and then others.
pub Supplied-cons :
    (pool : MemoryPool) (Holds : Holding pool) (i m n : ℕ) (b : Buffer) (new : List Buffer)
    (o o1 o2 : OutputBufferManager pool)
    → Supplied pool Holds i m (b ∷ []) o o1
    → Supplied pool Holds i n new o1 o2
    → Supplied pool Holds i n (b ∷ new) o o2
Supplied-cons pool Holds i m n b new o o1 o2 s r = record {
  queue =
      r.queue
      ∙ ap (λ (q : List Buffer). q ++ new) s.queue
      ∙ append_assoc (buffers_of pool o i) (b ∷ []) new;
  others = λ j d. r.others j d ∙ s.others j d;
  writes =
      r.writes
      ∙ ap (λ (q : List ℕ). q ++ map buffer_word new) s.writes
      ∙ append_assoc (told pool i o) (buffer_word b ∷ []) (map buffer_word new);
  silent = λ reg d.
      r.silent reg (λ e. d (ap (λ (m : MemConfig). at m.config i) (sym s.same.mem_config) ∙ e))
      ∙ s.silent reg d;
  left = r.left;
  once = r.once;
  same = Same-trans pool o o1 o2 s.same r.same;
}

-- A stream stays servable.
pub IsServable-Same :
    (pool : MemoryPool) (o o' : OutputBufferManager pool) (i c : ℕ)
    → Same pool o o'
    → IsServable pool o i c
    → IsServable pool o' i c
IsServable-Same pool o o' i c same s = record {
  stream = rw same.mem_config s.stream;
  register = rw same.mem_config s.register;
  queue = rw same.queues s.queue;
  non_empty = s.non_empty;
  small = s.small;
  whole = s.whole;
}

-- The outcome of topping up by `k` buffers.
pub record ToppedUp (pool : MemoryPool) (Holds : Holding pool) (i k n : ℕ)
    (o : OutputBufferManager pool) (new : List Buffer) (o' : OutputBufferManager pool)
    : Type 0 where
  pub count : length new ≡ k
  pub capacities : All (λ (b : Buffer). b.capacity ≡ o.buffer_capacity) new
  pub handles : o'.enqueued_handles ≡ o.enqueued_handles
  pub supplied : Supplied pool Holds i n new o o'

module _ (pool : MemoryPool) (Holds : Holding pool) (serves : Serves pool Holds) where
  -- The loop stops where the queue is long enough.
  stops :
      (i n : ℕ) (o : OutputBufferManager pool)
      → Kept pool Holds (0 * o.buffer_capacity + n) o
      → Once o.tlb_manager
      → ToppedUp pool Holds i 0 n o [] o
  stops i n o good once = record {
    count = refl;
    capacities = tt;
    handles = refl;
    supplied =
        Supplied-none pool Holds i n o (subst (λ m. Kept pool Holds m o) (omega arith) good) once;
  }

  top_up_lem :
      (fuel k i n : ℕ) (o : OutputBufferManager pool)
      → IsServable pool o i o.buffer_capacity
      → k ≡ o.num_buffers_to_enqueue - length (buffers_of pool o i)
      → k ≤ fuel
      → Kept pool Holds (k * o.buffer_capacity + n) o
      → Once o.tlb_manager
      → (new : List Buffer) × (o' : OutputBufferManager pool) × (top_up pool fuel i o ≡ (ok tt, o'))
        × ToppedUp pool Holds i k n o new o'
  unfolding top_up
  top_up_lem zero zero i n o s e f good once = (
    [],
    o,
    rw (le→ltb (length (buffers_of pool o i)) o.num_buffers_to_enqueue (omega arith), top_up) refl,
    stops i n o good once,
  )
  top_up_lem (suc fuel) zero i n o s e f good once = (
    [],
    o,
    rw (le→ltb (length (buffers_of pool o i)) o.num_buffers_to_enqueue (omega arith), top_up) refl,
    stops i n o good once,
  )
  top_up_lem zero (suc k) i n o s e f good once = absurd (omega arith)
  top_up_lem (suc fuel) (suc k) i n o s e f good once =
      let (b, o1, run, size, kept, one) =
        enqueue_buffer_for_stream_lem pool Holds serves i (k * o.buffer_capacity + n) o s
          (subst (λ m. Kept pool Holds m o) (omega (arith, suc-mul k o.buffer_capacity)) good)
          once in
      let same = one.same in
      let longer : length (buffers_of pool o1 i) ≡ length (buffers_of pool o i) + 1 =
        ap length one.queue ∙ length-append (buffers_of pool o i) (b ∷ []) in
      let (new, o2, run', more) =
        top_up_lem fuel k i n o1
          (subst (λ c. IsServable pool o1 i c) (sym same.buffer_capacity)
            (IsServable-Same pool o o1 i o.buffer_capacity same s))
          (omega (arith, e, longer, same.num_buffers_to_enqueue)) (omega arith)
          (subst (λ c. Kept pool Holds (k * c + n) o1) (sym same.buffer_capacity) one.left)
          one.once in
      (
        b ∷ new,
        o2,
        rw (lt→ltb (length (buffers_of pool o i)) o.num_buffers_to_enqueue (omega arith), top_up)
            (>>=-ok (enqueue_buffer_for_stream pool i) (λ _. top_up pool fuel i) o run ∙ run'),
        record {
          count = ap suc more.count;
          capacities = (
            size,
            subst (λ c. All (λ (x : Buffer). x.capacity ≡ c) new) same.buffer_capacity
                more.capacities,
          );
          handles = more.handles ∙ kept;
          supplied =
              Supplied-cons pool Holds i (k * o.buffer_capacity + n) n b new o o1 o2 one
                more.supplied;
        },
      )

  -- Where the pool can still grant what is missing, the loop returns. The queue then has its buffers
  -- and behind them as many new ones as were missing to the number to enqueue, each of the manager's
  -- capacity; the FPGA was told of exactly the new ones, in the order of the queue; no other queue and
  -- no handle changed.
  pub ensure_stream_has_buffers-ToppedUp :
      (i n : ℕ) (o : OutputBufferManager pool)
      → IsServable pool o i o.buffer_capacity
      → Kept pool Holds
          ((o.num_buffers_to_enqueue - length (buffers_of pool o i)) * o.buffer_capacity + n)
          o
      → Once o.tlb_manager
      → (new : List Buffer) × (o' : OutputBufferManager pool) × (ensure_stream_has_buffers pool i o
          ≡ (ok tt, o'))
        × ToppedUp pool Holds i (o.num_buffers_to_enqueue - length (buffers_of pool o i)) n o new o'
  unfolding ensure_stream_has_buffers
  ensure_stream_has_buffers-ToppedUp i n o s good once =
      top_up_lem o.num_buffers_to_enqueue (o.num_buffers_to_enqueue - length (buffers_of pool o i))
        i n o s refl (omega arith) good once
