-- ===== src/Examples/Session/Returns.antt =====
-- What the steps of main went through where it returns: the sequences, the early exits and the
-- allocations of Examples/Session.
use libstf.Base.{
  ℕ, zero, suc, ◌≡◌, refl, sym, ap, ◌∙◌, Bool, true, false, Option, none, some, List, [], ◌∷◌,
  length,
}
use libstf.Base.Action.{Action, Result, ok, err, ◌>>=◌, pure}
use libstf.Buffer.{MemoryPool}
use libstf.Examples.Session.{Session, exit_if, or_exit, and_also, allocate_buffer, allocate_buffers}

-- What a sequence that returns went through.
pub bind_inversion :
    {S A B : Type 0} (m : Action S A) (f : A → Action S B) (s : S) {b : B} {s' : S}
    → (m >>= f) s ≡ (ok b, s')
    → (a : A) × (s1 : S) × (m s ≡ (ok a, s1)) × (f a s1 ≡ (ok b, s'))
bind_inversion {S} {A} {B} m f s {b} {s'} = by_result (m s) refl
  where
    by_result :
        (r : Result A × S)
        → m s ≡ r
        → (elim r.0 [ ok a ↦ f a r.1 | err e ↦ (err e, r.1) ]) ≡ (ok b, s')
        → (a : A) × (s1 : S) × (m s ≡ (ok a, s1)) × (f a s1 ≡ (ok b, s'))
    by_result (ok a, s1) e h = (a, s1, e, h)
    by_result (err x, s1) e h = absurd cc

-- Only the rest of main returns 0.
pub exit_if_inversion :
    {S : Type 0} (c : Bool) (rest : Action S ℕ) (s s' : S)
    → exit_if c rest s ≡ (ok 0, s')
    → (c ≡ false) × (rest s ≡ (ok 0, s'))
exit_if_inversion true rest s s' e = absurd cc
exit_if_inversion false rest s s' e = (refl, e)

pub or_exit_inversion :
    {S A : Type 0} (o : Option A) (rest : A → Action S ℕ) (s s' : S)
    → or_exit o rest s ≡ (ok 0, s')
    → (a : A) × (o ≡ some a) × (rest a s ≡ (ok 0, s'))
or_exit_inversion none rest s s' e = absurd cc
or_exit_inversion (some a) rest s s' e = (a, refl, e)

pub and_also_inversion :
    {S A B : Type 0} (m : Action S (Option A)) (k : A → Action S (Option B)) (s s' : S) (b : B)
    → and_also m k s ≡ (ok (some b), s')
    → (a : A) × (s1 : S) × (m s ≡ (ok (some a), s1)) × (k a s1 ≡ (ok (some b), s'))
and_also_inversion {S} {A} {B} m k s s' b e =
    let (r, s1, first, rest) =
      bind_inversion m (λ (r : Option A). elim r [ none ↦ pure none | some a ↦ k a ]) s e in
    by_result r s1 first rest
  where
    by_result :
        (r : Option A) (s1 : S)
        → m s ≡ (ok r, s1)
        → (let next : Action S (Option B) = elim r [ none ↦ pure none | some a ↦ k a ] in next) s1
          ≡ (ok (some b), s')
        → (a : A) × (s1 : S) × (m s ≡ (ok (some a), s1)) × (k a s1 ≡ (ok (some b), s'))
    by_result none s1 first rest = absurd cc
    by_result (some a) s1 first rest = (a, s1, first, rest)

module _ {pool : MemoryPool} where
  -- A vector of buffers that was allocated is whole.
  pub length-allocate_buffers :
      (size count : ℕ) (s s' : Session pool) (buffers : List ℕ)
      → allocate_buffers size count s ≡ (ok (some buffers), s')
      → length buffers ≡ count
  unfolding allocate_buffers
  length-allocate_buffers size zero s s' buffers e =
      let same : [] ≡ buffers = cc e in ap length (sym same)
  length-allocate_buffers size (suc count) s s' buffers e =
      let (b, s1, first, e1) =
        and_also_inversion (allocate_buffer size 0)
          (λ b. and_also (allocate_buffers size count) (λ bs. pure (some (b ∷ bs)))) s s' buffers
          e in
      let (bs, s2, second, e2) =
        and_also_inversion (allocate_buffers size count) (λ bs. pure (some (b ∷ bs))) s1 s' buffers
          e1 in
      let same : b ∷ bs ≡ buffers = cc e2 in
      ap length (sym same) ∙ ap suc (length-allocate_buffers size count s1 s2 bs second)
