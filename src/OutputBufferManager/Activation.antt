-- ===== src/OutputBufferManager/Activation.antt =====
-- acquire_output_handle(mask): software/libstf/output_buffer_manager.cpp lines 121-144.
use libstf.Base.{
  ℕ, ◌≤◌, ◌<◌, ◌≡◌, refl, ap, sym, ◌∙◌, Bool, true, false, ◌&&◌, ◌||◌, List, [], ◌∷◌, ◌++◌, map,
  arith, length, if◌then◌else◌, All-append, length-append, length-set, append_assoc, append-nil,
}
use mathlib.Core.Path.{subst}
use libstf.Buffer.{Buffer, MemoryPool}
use libstf.Configuration.{buffer_word}
use libstf.OutputBufferManager.{OutputBufferManager, buffers_of, handles_of, push_handle}
use libstf.OutputBufferManager.Service.{Holding, Kept}
use libstf.OutputBufferManager.Supply.{told}
use libstf.OutputBufferManager.WellFormed.{WellFormed, All-set, All-get_or}
use libstf.OutputBufferManager.Outcomes.{SameConfig, Flowed}

-- What happens to stream `j`: where it becomes active, it is topped up and the handle stands behind
-- its others.
pub record StreamActive (pool : MemoryPool) (o o' : OutputBufferManager pool) (j id : ℕ)
    (active : Bool) (new : List Buffer) : Type 0 where
  pub flow : Flowed pool o o' j [] new
  pub handles : handles_of pool o' j ≡ handles_of pool o j ++ (if active then id ∷ [] else [])
  pub enough : active ≡ true → o.num_buffers_to_enqueue ≤ length (buffers_of pool o' j)
  pub none : active ≡ false → new ≡ []

pub record Activated (pool : MemoryPool) (Holds : Holding pool) (o o' : OutputBufferManager pool)
    (id n : ℕ) (active : ℕ → Bool) : Type 0 where
  pub streams :
      (j : ℕ) → j < o.num_streams → (new : List Buffer) × StreamActive pool o o' j id (active j) new
  pub handles : o'.handles ≡ o.handles
  pub config : SameConfig pool o o'
  pub well : WellFormed pool o'
  pub left : Kept pool Holds n o'

pub SameConfig-refl : (pool : MemoryPool) (o : OutputBufferManager pool) → SameConfig pool o o
SameConfig-refl pool o = record {
  mem_config = refl;
  num_streams = refl;
  managed_streams = refl;
  num_buffers_to_enqueue = refl;
  buffer_capacity = refl;
}

pub SameConfig-trans :
    (pool : MemoryPool) (o o1 o2 : OutputBufferManager pool)
    → SameConfig pool o o1
    → SameConfig pool o1 o2
    → SameConfig pool o o2
SameConfig-trans pool o o1 o2 s r = record {
  mem_config = r.mem_config ∙ s.mem_config;
  num_streams = r.num_streams ∙ s.num_streams;
  managed_streams = r.managed_streams ∙ s.managed_streams;
  num_buffers_to_enqueue = r.num_buffers_to_enqueue ∙ s.num_buffers_to_enqueue;
  buffer_capacity = r.buffer_capacity ∙ s.buffer_capacity;
}

-- Nothing happens.
pub unchanged :
    (pool : MemoryPool) (Holds : Holding pool) (o : OutputBufferManager pool) (id n : ℕ)
    → WellFormed pool o
    → Kept pool Holds n o
    → Activated pool Holds o o id n (λ j. false)
unchanged pool Holds o id n w kept = record {
  streams = λ j known. (
    [],
    record {
      flow = record {
        queue = sym (append-nil (buffers_of pool o j));
        writes = sym (append-nil (told pool j o));
      };
      handles = sym (append-nil (handles_of pool o j));
      enough = λ e. absurd cc;
      none = λ e. refl;
    },
  );
  handles = refl;
  config = SameConfig-refl pool o;
  well = w;
  left = kept;
}

pub Flowed-trans :
    (pool : MemoryPool) (o o1 o2 : OutputBufferManager pool) (j : ℕ)
    (gone new gone' new' : List Buffer)
    → Flowed pool o o1 j gone new
    → Flowed pool o1 o2 j gone' new'
    → Flowed pool o o2 j (gone ++ gone') (new ++ new')
Flowed-trans pool o o1 o2 j gone new gone' new' f g = record {
  queue =
      append_assoc gone gone' (buffers_of pool o2 j)
      ∙ ap (λ (q : List Buffer). gone ++ q) g.queue
      ∙ sym (append_assoc gone (buffers_of pool o1 j) new')
      ∙ ap (λ (q : List Buffer). q ++ new') f.queue
      ∙ append_assoc (buffers_of pool o j) new new';
  writes =
      g.writes
      ∙ ap (λ (q : List ℕ). q ++ map buffer_word new') f.writes
      ∙ append_assoc (told pool j o) (map buffer_word new) (map buffer_word new')
      ∙ ap (λ (q : List ℕ). told pool j o ++ q) (map_lem new new');
}
  where
    map_lem :
        (xs ys : List Buffer)
        → map buffer_word xs ++ map buffer_word ys ≡ map buffer_word (xs ++ ys)
    map_lem [] ys = refl
    map_lem (x ∷ xs) ys = ap (λ (q : List ℕ). buffer_word x ∷ q) (map_lem xs ys)

-- Two steps of which one at most activates the stream.
StreamActive-trans :
    (pool : MemoryPool) (o o1 o2 : OutputBufferManager pool) (j id : ℕ) (a b : Bool)
    (new new' : List Buffer)
    → SameConfig pool o o1
    → (a && b) ≡ false
    → StreamActive pool o o1 j id a new
    → StreamActive pool o1 o2 j id b new'
    → StreamActive pool o o2 j id (a || b) (new ++ new')
StreamActive-trans pool o o1 o2 j id true true new new' c e s r = absurd cc
StreamActive-trans pool o o1 o2 j id true false new new' c e s r = record {
  flow = Flowed-trans pool o o1 o2 j [] new [] new' s.flow r.flow;
  handles = r.handles ∙ append-nil (handles_of pool o1 j) ∙ s.handles;
  enough = λ _.
      omega
        (arith, s.enough refl, ap length r.flow.queue ∙ length-append (buffers_of pool o1 j) new');
  none = λ x. absurd cc;
}
StreamActive-trans pool o o1 o2 j id false b new new' c e s r = record {
  flow = Flowed-trans pool o o1 o2 j [] new [] new' s.flow r.flow;
  handles =
      r.handles
      ∙ ap (λ (q : List ℕ). q ++ (if b then id ∷ [] else []))
          (s.handles ∙ append-nil (handles_of pool o j));
  enough = λ x. omega (arith, r.enough x, c.num_buffers_to_enqueue);
  none = λ x. ap (λ (q : List Buffer). q ++ new') (s.none refl) ∙ r.none x;
}

pub Activated-trans :
    (pool : MemoryPool) (Holds : Holding pool) (o o1 o2 : OutputBufferManager pool) (id m n : ℕ)
    (a b c : ℕ → Bool)
    → ((j : ℕ) → (a j && b j) ≡ false)
    → ((j : ℕ) → j < o.num_streams → (a j || b j) ≡ c j)
    → Activated pool Holds o o1 id m a
    → Activated pool Holds o1 o2 id n b
    → Activated pool Holds o o2 id n c
Activated-trans pool Holds o o1 o2 id m n a b c apart joined s r = record {
  streams = λ j known.
      let (new, first) = s.streams j known in
      let (new', second) = r.streams j (omega (arith, s.config.num_streams)) in
      (
        new ++ new',
        subst (λ (x : Bool). StreamActive pool o o2 j id x (new ++ new')) (joined j known)
            (StreamActive-trans pool o o1 o2 j id (a j) (b j) new new' s.config (apart j) first
              second),
      );
  handles = r.handles ∙ s.handles;
  config = SameConfig-trans pool o o1 o2 s.config r.config;
  well = r.well;
  left = r.left;
}

pub Activated-ext :
    (pool : MemoryPool) (Holds : Holding pool) (o o' : OutputBufferManager pool) (id n : ℕ)
    (a b : ℕ → Bool)
    → ((j : ℕ) → j < o.num_streams → a j ≡ b j)
    → Activated pool Holds o o' id n a
    → Activated pool Holds o o' id n b
Activated-ext pool Holds o o' id n a b same s = record {
  streams = λ j known.
      let (new, stream) = s.streams j known in
      (new, subst (λ (x : Bool). StreamActive pool o o' j id x new) (same j known) stream);
  handles = s.handles;
  config = s.config;
  well = s.well;
  left = s.left;
}

-- The handle is pushed for a stream.
pub push_handle-WellFormed :
    (pool : MemoryPool) (o : OutputBufferManager pool) (i id : ℕ)
    → WellFormed pool o
    → id < length o.handles
    → WellFormed pool (push_handle pool i id o)
push_handle-WellFormed pool o i id w known = record {
  streams = w.streams;
  registers = w.registers;
  bits = w.bits;
  mask = w.mask;
  buffers = w.buffers;
  queues = length-set o.enqueued_handles i _ ∙ w.queues;
  non_empty = w.non_empty;
  small = w.small;
  whole = w.whole;
  stored = w.stored;
  known = All-set _ o.enqueued_handles i (handles_of pool o i ++ (id ∷ [])) w.known (
      All-append _ (handles_of pool o i) (id ∷ []) (All-get_or _ o.enqueued_handles i [] w.known tt)
        (known, tt));
  once = w.once;
}
