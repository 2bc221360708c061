-- ===== src/Examples/OutputBuffers/Setup/Handles.antt =====
-- The handles of the runs of examples/01_output_buffer_manager/src/main.cpp (lines 141-145).
use libstf.Base.{
  ℕ, zero, suc, ◌+◌, ◌*◌, ◌<◌, ◌≡◌, refl, ap, sym, ◌∙◌, Bool, true, false, List, [], ◌∷◌, ◌++◌,
  arith, length, get_or, replicate, append-nil, append_assoc, length-append, if◌then◌else◌,
}
use mathlib.Core.Path.{subst}
use libstf.Base.Action.{ok, ◌>>=◌, pure, >>=-ok}
use libstf.Buffer.{MemoryPool}
use libstf.OutputHandle
use libstf.OutputHandle.{OutputHandle, StreamMask, maximum_fpga_num_streams}
use libstf.OutputBufferManager.{
  OutputBufferManager, any, none_from, is_within, handles_of, acquire_output_handle,
}
use libstf.OutputBufferManager.Service.{Holding, Serves, Kept, blocks}
use libstf.OutputBufferManager.WellFormed.{WellFormed}
use libstf.OutputBufferManager.Handling.{refill_bytes}
use libstf.OutputBufferManager.Outcomes.{SameConfig}
use libstf.OutputBufferManager.Activation.{Activated, SameConfig-refl, SameConfig-trans}
use libstf.OutputBufferManager.Acquisition.{with_active, acquire_output_handle-Activated}
use libstf.Examples.OutputBuffers.Setup.{acquire_handles}

-- `n` numbers from `i` on.
abbrev pub numbers_from : ℕ → ℕ → List ℕ
numbers_from i zero = []
numbers_from i (suc n) = i ∷ numbers_from (suc i) n

-- The handles that were acquired for the mask: they are fresh, and those of each stream of the mask
-- stand behind its others, in order.
pub record Queued (pool : MemoryPool) (Holds : Holding pool) (mask : StreamMask) (runs n : ℕ)
    (o o' : OutputBufferManager pool) : Type 0 where
  pub handles : o'.handles ≡ o.handles ++ replicate runs (OutputHandle.init mask o.num_streams)
  pub queues :
      (j : ℕ)
      → j < o.num_streams
      → handles_of pool o' j
        ≡ handles_of pool o j
          ++ (if get_or mask j false then numbers_from (length o.handles) runs else [])
  pub config : SameConfig pool o o'
  pub well : WellFormed pool o'
  pub left : Kept pool Holds n o'

-- Both are there where the stream is active.
queued-both :
    (active : Bool) (q q1 q2 : List ℕ) (id : ℕ) (ids : List ℕ)
    → q1 ≡ q ++ (if active then id ∷ [] else [])
    → q2 ≡ q1 ++ (if active then ids else [])
    → q2 ≡ q ++ (if active then id ∷ ids else [])
queued-both true q q1 q2 id ids e1 e2 = e2 ∙ ap (λ x. x ++ ids) e1 ∙ append_assoc q (id ∷ []) ids
queued-both false q q1 q2 id ids e1 e2 = e2 ∙ ap (λ x. x ++ []) e1 ∙ append-nil (q ++ [])

no_more : (x n : ℕ) → 0 * x + n ≡ n
no_more x n = omega arith

one_more : (r x n : ℕ) → suc r * x + n ≡ x + (r * x + n)
one_more r x n = omega arith

module _ (pool : MemoryPool) (Holds : Holding pool) (serves : Serves pool Holds) (mask : StreamMask)
    (n : ℕ) where
  -- What topping every stream up takes, for so many handles.
  abbrev Granted : ℕ → OutputBufferManager pool → Type 0
  Granted runs o = Kept pool Holds (runs * (o.num_streams * refill_bytes pool o) + n) o

  Queued-none :
      (o : OutputBufferManager pool)
      → WellFormed pool o
      → Granted 0 o
      → Queued pool Holds mask 0 n o o
  Queued-none o w kept = record {
    handles = sym (append-nil o.handles);
    queues = λ j known. nothing (get_or mask j false) (handles_of pool o j);
    config = SameConfig-refl pool o;
    well = w;
    left =
        subst (λ k. Holds (blocks o.enqueued_buffers) k o.memory_pool)
          (no_more (o.num_streams * refill_bytes pool o) n) kept;
  }
    where
      nothing : (b : Bool) (q : List ℕ) → q ≡ q ++ (if b then [] else [])
      nothing true q = sym (append-nil q)
      nothing false q = sym (append-nil q)

  Queued-more :
      (runs m : ℕ) (o o1 o2 : OutputBufferManager pool)
      → Activated pool Holds
          (with_active pool mask o)
          o1
          (length o.handles)
          m
          (λ j. get_or mask j false)
      → Queued pool Holds mask runs n o1 o2
      → Queued pool Holds mask (suc runs) n o o2
  Queued-more runs m o o1 o2 act rest =
      let fresh = OutputHandle.init mask o.num_streams in
      let config : SameConfig pool o o1 = record {
        mem_config = act.config.mem_config;
        num_streams = act.config.num_streams;
        managed_streams = act.config.managed_streams;
        num_buffers_to_enqueue = act.config.num_buffers_to_enqueue;
        buffer_capacity = act.config.buffer_capacity;
      } in
      let count : length o1.handles ≡ suc (length o.handles) =
        ap length act.handles ∙ length-append o.handles (fresh ∷ []) ∙ omega arith in
      record {
        handles =
            rest.handles
            ∙ ap
                (λ (hs : List OutputHandle).
                  hs ++ replicate runs (OutputHandle.init mask o1.num_streams))
                act.handles
            ∙ ap (λ k. (o.handles ++ (fresh ∷ [])) ++ replicate runs (OutputHandle.init mask k))
                config.num_streams
            ∙ append_assoc o.handles (fresh ∷ []) (replicate runs fresh);
        queues = λ j known.
            queued-both (get_or mask j false) (handles_of pool o j) (handles_of pool o1 j)
              (handles_of pool o2 j) (length o.handles) (numbers_from (suc (length o.handles)) runs)
              ((act.streams j known).1.handles)
              (subst
                (λ k.
                  handles_of pool o2 j
                  ≡ handles_of pool o1 j
                    ++ (if get_or mask j false then numbers_from k runs else []))
                count (rest.queues j (omega (arith, config.num_streams, known))));
        config = SameConfig-trans pool o o1 o2 config rest.config;
        well = rest.well;
        left = rest.left;
      }

  -- For a well-formed manager and a mask that has a stream, only streams of the manager and only
  -- managed ones, where the pool can grant what topping every stream up takes for each handle, the
  -- loop returns: the handles are fresh, numbered one after another, in each stream of the mask they
  -- stand in this order behind its others, no other stream gets one, the manager stays well formed
  -- and keeps its settings, and the pool can still grant the rest.
  pub acquire_handles-Queued :
      (runs : ℕ) (o : OutputBufferManager pool)
      → WellFormed pool o
      → length mask ≡ maximum_fpga_num_streams
      → any mask ≡ true
      → none_from o.num_streams mask ≡ true
      → is_within mask o.managed_streams ≡ true
      → Kept pool Holds (runs * (o.num_streams * refill_bytes pool o) + n) o
      → (o' : OutputBufferManager pool) × (acquire_handles pool mask runs o
          ≡ (ok (numbers_from (length o.handles) runs), o'))
        × Queued pool Holds mask runs n o o'
  unfolding acquire_handles
  acquire_handles-Queued zero o w size some_stream streams managed kept =
      (o, refl, Queued-none o w kept)
  acquire_handles-Queued (suc runs) o w size some_stream streams managed kept =
      let bytes = o.num_streams * refill_bytes pool o in
      let (o1, run1, act) =
        acquire_output_handle-Activated pool Holds serves mask (runs * bytes + n) o w size
          some_stream streams managed
          (subst (λ k. Holds (blocks o.enqueued_buffers) k o.memory_pool) (one_more runs bytes n)
            kept) in
      let same_bytes : o1.num_streams * refill_bytes pool o1 ≡ bytes =
        rw (act.config.num_streams, act.config.num_buffers_to_enqueue, act.config.buffer_capacity)
          refl in
      let (o2, run2, rest) =
        acquire_handles-Queued runs o1 act.well size some_stream (rw act.config.num_streams streams)
          (rw act.config.managed_streams managed) (rw same_bytes act.left) in
      let count : length o1.handles ≡ suc (length o.handles) =
        ap length act.handles
        ∙ length-append o.handles (OutputHandle.init mask o.num_streams ∷ [])
        ∙ omega arith in
      (
        o2,
        >>=-ok (acquire_output_handle pool mask)
              (λ handle. acquire_handles pool mask runs >>= λ handles. pure (handle ∷ handles)) o
              run1
            ∙ >>=-ok (acquire_handles pool mask runs) (λ handles. pure (length o.handles ∷ handles))
                o1 run2
            ∙ ap (λ k. (ok (length o.handles ∷ numbers_from k runs), o2)) count,
        Queued-more runs (runs * bytes + n) o o1 o2 act rest,
      )
