-- ===== src/OutputBufferManager/Rounds.antt =====
-- The rounds of the loop in acquire_output_handle(mask): software/libstf/output_buffer_manager.cpp lines
-- 133-140.
use libstf.Base.{
  ℕ, zero, suc, ◌+◌, ◌*◌, ◌≤◌, ◌<◌, ◌≡◌, refl, ap, sym, ◌∙◌, ◌≢◌, Bool, true, false, ◌&&◌, ◌||◌,
  some, List, [], ◌∷◌, ◌++◌, arith, length, get_elem?, get_or, leb, ◌==◌, if◌then◌else◌, append-nil,
  get_or-set_self, get_or-set_ne, ℕ_discrete, eq→==, ne→==,
}
use mathlib.Core.Path.{subst}
use native.Mathlib.Nat.{suc-mul}
use libstf.Base.Action.{Result, Action, ok, modify, lift, pure, ◌>>◌, >>=-ok}
use libstf.Buffer.{Buffer, MemoryPool}
use libstf.OutputHandle
use libstf.OutputHandle.{OutputHandle, StreamMask, test}
use libstf.OutputBufferManager.{
  OutputBufferManager, buffers_of, handles_of, push_handle, ensure_stream_has_buffers, activate,
}
use libstf.OutputBufferManager.Service.{Holding, Serves, Kept, blocks}
use libstf.OutputBufferManager.Supply.{Supplied}
use libstf.OutputBufferManager.WellFormed.{WellFormed, get_elem?-in}
use libstf.OutputBufferManager.Handling.{refill_bytes, ensure_lem, test_lem, WellFormed-Same}
use libstf.OutputBufferManager.Activation.{
  StreamActive, Activated, Activated-trans, Activated-ext, unchanged, push_handle-WellFormed,
}
use libstf.OutputBufferManager.Others.{refill_others}

and_true : (a : Bool) → (a && true) ≡ a
and_true true = refl
and_true false = refl

and_false : (a : Bool) → (a && false) ≡ false
and_false true = refl
and_false false = refl

behind : (i j : ℕ) (b : Bool) → j < i → false ≡ (leb i j && b)
behind i j b h = ground arith

apart : (i j : ℕ) (a b : Bool) → ((i == j && a) && (leb (suc i) j && b)) ≡ false
apart i j a b = ground arith

joined :
    (i j : ℕ) (a b : Bool)
    → (i ≡ j → a ≡ b)
    → (i == j && a || (leb (suc i) j && b)) ≡ (leb i j && b)
joined i j a b h = elim (ℕ_discrete i j) [ yes e ↦ ground (arith, h e) | no d ↦ ground arith ]

get_or-of :
    {A : Type 0} (xs : List A) (i : ℕ) (d x : A) → get_elem? xs i ≡ some x → get_or xs i d ≡ x
get_or-of [] i d x e = absurd cc
get_or-of (y ∷ xs) zero d x e = cc e
get_or-of (y ∷ xs) (suc i) d x e = get_or-of xs i d x e

module _ (pool : MemoryPool) (Holds : Holding pool) (serves : Serves pool Holds) (id : ℕ) where
  self_active :
      (i n : ℕ) (new : List Buffer) (o o1 : OutputBufferManager pool)
      → Supplied pool Holds i n new o o1
      → o1.enqueued_handles ≡ o.enqueued_handles
      → i < length o.enqueued_handles
      → o.num_buffers_to_enqueue ≤ length (buffers_of pool o1 i)
      → StreamActive pool o (push_handle pool i id o1) i id true new
  self_active i n new o o1 supplied queues known enough = record {
    flow = record { queue = supplied.queue; writes = supplied.writes };
    handles =
        get_or-set_self o1.enqueued_handles i (handles_of pool o1 i ++ (id ∷ [])) []
          (omega (arith, ap length queues, known))
        ∙ ap (λ (q : List (List ℕ)). get_or q i [] ++ (id ∷ [])) queues;
    enough = λ e. enough;
    none = λ e. absurd cc;
  }

  other_active :
      (i j n : ℕ) (new : List Buffer) (o o1 : OutputBufferManager pool)
      → WellFormed pool o
      → Supplied pool Holds i n new o o1
      → o1.enqueued_handles ≡ o.enqueued_handles
      → i ≢ j
      → i < o.num_streams
      → j < o.num_streams
      → StreamActive pool o (push_handle pool i id o1) j id false []
  other_active i j n new o o1 w supplied queues d known stream =
      let flow = refill_others pool Holds i j n new o o1 w supplied d known stream in
      record {
        flow = record { queue = flow.queue; writes = flow.writes };
        handles =
            get_or-set_ne o1.enqueued_handles i j (handles_of pool o1 i ++ (id ∷ [])) [] d
            ∙ ap (λ (q : List (List ℕ)). get_or q j []) queues
            ∙ sym (append-nil (handles_of pool o j));
        enough = λ e. absurd cc;
        none = λ e. refl;
      }

  -- Topping one stream up and pushing the handle.
  one_stream :
      (i n : ℕ) (o : OutputBufferManager pool)
      → WellFormed pool o
      → i < o.num_streams
      → id < length o.handles
      → Kept pool Holds (refill_bytes pool o + n) o
      → (o' : OutputBufferManager pool) × ((ensure_stream_has_buffers pool i
              >> modify (push_handle pool i id))
            o
          ≡ (ok tt, o'))
        × Activated pool Holds o o' id n (λ j. i == j)
  one_stream i n o w known given kept =
      let (new, o1, run, supplied, queues, enough) =
        ensure_lem pool Holds serves i n o w known kept in
      let same = supplied.same in
      let w1 = WellFormed-Same pool o o1 w same queues supplied.once in
      let o' = push_handle pool i id o1 in
      (
        o',
        >>=-ok (ensure_stream_has_buffers pool i) (λ _. modify (push_handle pool i id)) o run,
        record {
          streams = λ j stream. elim (ℕ_discrete i j) [
            | yes e ↦ (
              new,
              subst (λ (k : ℕ). StreamActive pool o o' k id (i == k) new) e
                  (subst (λ (x : Bool). StreamActive pool o o' i id x new) (sym (eq→== i i refl))
                    (self_active i n new o o1 supplied queues (omega (arith, w.queues, known))
                      enough)),
            )
            | no d ↦ (
              [],
              subst (λ (x : Bool). StreamActive pool o o' j id x []) (sym (ne→== i j d))
                  (other_active i j n new o o1 w supplied queues d known stream),
            )
          ];
          handles = same.handles;
          config = record {
            mem_config = same.mem_config;
            num_streams = same.num_streams;
            managed_streams = same.managed_streams;
            num_buffers_to_enqueue = same.num_buffers_to_enqueue;
            buffer_capacity = same.buffer_capacity;
          };
          well =
              push_handle-WellFormed pool o1 i id w1 (omega (arith, ap length same.handles, given));
          left = supplied.left;
        },
      )

  -- One round, for a stream that is in the mask or not.
  round :
      (i n : ℕ) (b : Bool) (o : OutputBufferManager pool)
      → WellFormed pool o
      → i < o.num_streams
      → id < length o.handles
      → Kept pool Holds (refill_bytes pool o + n) o
      → (o' : OutputBufferManager pool) × ((if b
              then (ensure_stream_has_buffers pool i >> modify (push_handle pool i id))
              else pure tt)
            o
          ≡ (ok tt, o'))
        × Activated pool Holds o o' id n (λ j. i == j && b)
  round i n true o w known given kept =
      let (o', run, activated) = one_stream i n o w known given kept in
      (
        o',
        run,
        Activated-ext pool Holds o o' id n (λ j. i == j) (λ j. i == j && true)
            (λ j _. sym (and_true (i == j))) activated,
      )
  round i n false o w known given kept = (
    o,
    refl,
    Activated-ext pool Holds o o id n (λ j. false) (λ j. i == j && false)
        (λ j _. sym (and_false (i == j)))
        (unchanged pool Holds o id n w
          (serves.weakens (blocks o.enqueued_buffers) (refill_bytes pool o) n o.memory_pool kept)),
  )

  -- The rounds from stream `i` on.
  pub activate-Activated :
      (mask : StreamMask) (count i n : ℕ) (o : OutputBufferManager pool)
      → WellFormed pool o
      → count + i ≡ o.num_streams
      → length mask ≡ OutputHandle.maximum_fpga_num_streams
      → id < length o.handles
      → Kept pool Holds (count * refill_bytes pool o + n) o
      → (o' : OutputBufferManager pool) × (activate pool mask id count i o ≡ (ok tt, o'))
        × Activated pool Holds o o' id n (λ j. leb i j && get_or mask j false)
  unfolding activate
  activate-Activated mask zero i n o w e size given kept = (
    o,
    refl,
    Activated-ext pool Holds o o id n (λ j. false) (λ j. leb i j && get_or mask j false)
        (λ j known. behind i j (get_or mask j false) (omega (arith, e, known)))
        (unchanged pool Holds o id n w (subst (λ m. Kept pool Holds m o) (omega arith) kept)),
  )
  activate-Activated mask (suc count) i n o w e size given kept =
      let (b, found) = get_elem?-in mask i (omega (arith, e, size, w.bits)) in
      let bytes = refill_bytes pool o in
      let (o1, run, first) =
        round i (count * bytes + n) b o w (omega arith) given
          (subst (λ m. Kept pool Holds m o) (omega (arith, suc-mul count bytes)) kept) in
      let config = first.config in
      let (o2, run', second) =
        activate-Activated mask count (suc i) n o1 first.well (omega (arith, e, config.num_streams))
          size (omega (arith, ap length first.handles, given))
          (subst (λ (m : ℕ). Kept pool Holds (count * m + n) o1)
            (sym (cc (config.num_buffers_to_enqueue, config.buffer_capacity))) first.left) in
      (
        o2,
        >>=-ok (lift (test mask i))
              (λ active. stream_round active >> activate pool mask id count (suc i)) o
              (ap (λ (r : Result Bool). (r, o)) (test_lem mask i b found))
            ∙ >>=-ok (stream_round b) (λ _. activate pool mask id count (suc i)) o run
            ∙ run',
        Activated-trans pool Holds o o1 o2 id (count * bytes + n) n (λ j. i == j && b)
            (λ j. leb (suc i) j && get_or mask j false) (λ j. leb i j && get_or mask j false)
            (λ j. apart i j b (get_or mask j false))
            (λ j known. joined i j b (get_or mask j false) (λ same.
              sym
                (subst (λ (k : ℕ). get_or mask k false ≡ b) same (get_or-of mask i false b found))))
            first second,
      )
    where
      stream_round : Bool → Action (OutputBufferManager pool) (Unit {0})
      stream_round active =
          if active
          then (ensure_stream_has_buffers pool i >> modify (push_handle pool i id))
          else pure tt
