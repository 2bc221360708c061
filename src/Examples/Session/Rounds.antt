-- ===== src/Examples/Session/Rounds.antt =====
-- The loops that add up wrong values, and the loop over the runs of a program around them.
use libstf.Base.{ℕ, zero, suc, ◌+◌, ◌*◌, ◌≤◌, ◌<◌, ◌≡◌, refl, ◌∙◌, arith, dec_lt}
use libstf.Base.Action.{Action, ok, >>=-ok}
use libstf.Examples.Session.{for_each, repeat}
use libstf.Examples.Session.Returns.{bind_inversion}

-- A count that goes from n to n' by at most `most`, and by nothing just where P holds.
pub record Counts (P : Type 0) (most n n' : ℕ) : Type 0 where
  pub grows : n ≤ n'
  pub bounded : n' ≤ n + most
  pub good : n' ≡ n → P
  pub bad : P → n' ≡ n

suc_mul : (r b : ℕ) → suc r * b ≡ b + r * b
suc_mul r b = omega arith

-- A loop whose rounds each count counts.
module _ (P : ℕ → Type 0) (most limit : ℕ) (body : ℕ → ℕ → ℕ)
    (each : (i n : ℕ) → n + most < limit → Counts (P i) most n (body i n)) where
  from-Counts :
      (rounds i n : ℕ)
      → n + rounds * most < limit
      → Counts ((j : ℕ) → i ≤ j → j < i + rounds → P j) (rounds * most) n (for_each body rounds i n)
  unfolding for_each
  from-Counts zero i n h = record {
    grows = omega arith;
    bounded = omega arith;
    good = λ _ j l u. absurd (omega arith);
    bad = λ _. refl;
  }
  from-Counts (suc rounds) i n h =
      let one = each i n (omega (arith, suc_mul rounds most)) in
      let rest =
        from-Counts rounds (suc i) (body i n) (omega (arith, suc_mul rounds most, one.bounded)) in
      record {
        grows = omega (arith, one.grows, rest.grows);
        bounded = omega (arith, one.bounded, rest.bounded, suc_mul rounds most);
        good = λ same j l u. elim (dec_lt i j) [
          | yes later ↦
              rest.good (omega (arith, same, one.grows, rest.grows)) j (omega arith) (omega arith)
          | no first ↦
              let e : j ≡ i = omega arith in
              rw e (one.good (omega (arith, same, one.grows, rest.grows)))
        ];
        bad = λ all.
            rest.bad (λ j l u. all j (omega arith) (omega arith))
            ∙ one.bad (all i (omega arith) (omega arith));
      }

  pub for_each-Counts :
      (rounds n : ℕ)
      → n + rounds * most < limit
      → Counts ((j : ℕ) → j < rounds → P j) (rounds * most) n (for_each body rounds 0 n)
  for_each-Counts rounds n h =
      let all = from-Counts rounds 0 n h in
      record {
        grows = all.grows;
        bounded = all.bounded;
        good = λ same j l. all.good same j (omega arith) (omega arith);
        bad = λ each. all.bad (λ j _ l. each j (omega arith));
      }

module _ {S A P : Type 0} (run : Action S A) (add : A → P → P) (Good : S → Type 0) where
  -- Runs that all return, each of which leaves a good state, and what they add up.
  abbrev pub GoodRuns : ℕ → S → P → S → P → Type 0
  GoodRuns zero s p s' p' = (s ≡ s') × (p ≡ p')
  GoodRuns (suc rounds) s p s' p' =
      (a : A) × (s1 : S) × (run s ≡ (ok a, s1)) × Good s1 × GoodRuns rounds s1 (add a p) s' p'

module _ {S A P : Type 0} (run : Action S A) (verify : S → ℕ → ℕ) (add : A → P → P)
    (Good : S → Type 0) where
  abbrev add_round : A → S → ℕ × P → ℕ × P
  add_round a s (n, p) = (verify s n, add a p)

  module _ (most limit : ℕ)
      (counts : (s s1 : S) (a : A)
        → run s ≡ (ok a, s1)
        → (n : ℕ) → n + most < limit
        → Counts (Good s1) most n (verify s1 n)) where
    record Ran (rounds n : ℕ) (s : S) (p : P) (n' : ℕ) (s' : S) (p' : P) : Type 0 where
      grows : n ≤ n'
      bounded : n' ≤ n + rounds * most
      good : n' ≡ n → GoodRuns run add Good rounds s p s' p'

    repeat-Ran :
        (rounds n : ℕ) (s : S) (p : P) (n' : ℕ) (s' : S) (p' : P)
        → n + rounds * most < limit
        → repeat run add_round rounds (n, p) s ≡ (ok (n', p'), s')
        → Ran rounds n s p n' s' p'
    unfolding repeat
    repeat-Ran zero n s p n' s' p' h e = record {
      grows = ground arith;
      bounded = ground arith;
      good = λ _. (cc, cc);
    }
    repeat-Ran (suc rounds) n s p n' s' p' h e =
        let (a, s1, ran, rest) =
          bind_inversion run (λ a s1. repeat run add_round rounds (add_round a s1 (n, p)) s1) s e in
        let one = counts s s1 a ran n (omega (arith, suc_mul rounds most)) in
        let more =
          repeat-Ran rounds (verify s1 n) s1 (add a p) n' s' p'
            (omega (arith, suc_mul rounds most, one.bounded)) rest in
        record {
          grows = omega (arith, one.grows, more.grows);
          bounded = omega (arith, one.bounded, more.bounded, suc_mul rounds most);
          good = λ same. (
            a,
            s1,
            ran,
            one.good (omega (arith, same, one.grows, more.grows)),
            more.good (omega (arith, same, one.grows, more.grows)),
          );
        }

    pub GoodRuns-repeat :
        (rounds n : ℕ) (s : S) (p : P) (s' : S) (p' : P)
        → n + rounds * most < limit
        → GoodRuns run add Good rounds s p s' p'
        → repeat run add_round rounds (n, p) s ≡ (ok (n, p'), s')
    unfolding repeat
    GoodRuns-repeat zero n s p s' p' h (e, f) = cc
    GoodRuns-repeat (suc rounds) n s p s' p' h (a, s1, ran, good, rest) =
        let one = counts s s1 a ran n (omega (arith, suc_mul rounds most)) in
        >>=-ok run (λ a s1. repeat run add_round rounds (add_round a s1 (n, p)) s1) s ran
        ∙ rw (one.bad good)
            (GoodRuns-repeat rounds n s1 (add a p) s' p' (omega (arith, suc_mul rounds most)) rest)

    -- A loop over runs that counts nothing is one over good runs.
    pub repeat-GoodRuns :
        (rounds : ℕ) (s : S) (p : P) (n' : ℕ) (s' : S) (p' : P)
        → rounds * most < limit
        → repeat run add_round rounds (0, p) s ≡ (ok (n', p'), s')
        → (n' ≤ rounds * most) × (n' ≡ 0 → GoodRuns run add Good rounds s p s' p')
    repeat-GoodRuns rounds s p n' s' p' h e =
        let ran = repeat-Ran rounds 0 s p n' s' p' (omega arith) e in
        (omega (arith, ran.bounded), ran.good)
