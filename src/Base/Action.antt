-- ===== src/Base/Action.antt =====
-- Calls that read and change an object and can throw. The object comes back after a throw too,
-- since what was written stays written. A failed `assert` ends the call like a throw: the model is
-- that of a build with assertions.
use mathlib.Core.Path.{◌≡◌, refl, ap}
use mathlib.Core.Bool.{Bool, true, false}

-- The exceptions of the source, and the failed assertion.
pub data Failure : Type 0 where
  assertion_failed runtime_error invalid_argument bad_alloc out_of_range : Failure
  -- No outcome of the source: a loop that the model runs on fuel was given too little.
  out_of_fuel : Failure

pub data Result {ℓ} (A : Type ℓ) : Type ℓ where
  ok : A → Result A
  err : Failure → Result A

abbrev pub Action : Type 0 → Type 0 → Type 0
Action S A = S → Result A × S

module _ {S A : Type 0} where
  abbrev pub pure : A → Action S A
  pure a s = (ok a, s)

  abbrev pub throw : Failure → Action S A
  throw e s = (err e, s)

  abbrev pub gets : (S → A) → Action S A
  gets f s = (ok (f s), s)

  abbrev pub lift : Result A → Action S A
  lift r s = (r, s)

infixl 5 ◌>>=◌ ◌>>◌
abbrev pub ◌>>=◌ : {S A B : Type 0} → Action S A → (A → Action S B) → Action S B
◌>>=◌ m f s = let (r, s') = m s in elim r [ ok a ↦ f a s' | err e ↦ (err e, s') ]

abbrev pub ◌>>◌ : {S A B : Type 0} → Action S A → Action S B → Action S B
m >> k = m >>= λ _. k

abbrev pub modify : {S : Type 0} → (S → S) → Action S (Unit {0})
modify f s = (ok tt, f s)

-- `assert(c)`
abbrev pub ensure : {S : Type 0} → Bool → Action S (Unit {0})
ensure true s = (ok tt, s)
ensure false s = (err assertion_failed, s)

-- `if (c) throw e;`
abbrev pub throw_if : {S : Type 0} → Bool → Failure → Action S (Unit {0})
throw_if true e s = (err e, s)
throw_if false e s = (ok tt, s)

module _ {S A B : Type 0} where
  bind_cases :
      (P : Result B × S → Type 0) (f : A → Action S B) (r : Result A) (s : S)
      → ((a : A) → r ≡ ok a → P (f a s))
      → ((e : Failure) → r ≡ err e → P (err e, s))
      → P (elim r [ ok a ↦ f a s | err e ↦ (err e, s) ])
  bind_cases P f (ok a) s returned thrown = returned a refl
  bind_cases P f (err e) s returned thrown = thrown e refl

  -- What holds of a sequence, by how its first call ends.
  pub >>=-post :
      (P : Result B × S → Type 0) (m : Action S A) (f : A → Action S B) (s : S)
      → ((a : A) → (m s).0 ≡ ok a → P (f a (m s).1))
      → ((e : Failure) → (m s).0 ≡ err e → P (err e, (m s).1))
      → P ((m >>= f) s)
  >>=-post P m f s = bind_cases P f (m s).0 (m s).1

  -- A sequence whose first call returns goes on with the rest.
  pub >>=-ok :
      (m : Action S A) (f : A → Action S B) (s : S) {a : A} {s' : S}
      → m s ≡ (ok a, s')
      → (m >>= f) s ≡ f a s'
  >>=-ok m f s e = ap (λ (r : Result A × S). elim r.0 [ ok a ↦ f a r.1 | err x ↦ (err x, r.1) ]) e
