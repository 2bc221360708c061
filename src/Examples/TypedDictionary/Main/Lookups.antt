-- ===== src/Examples/TypedDictionary/Main/Lookups.antt =====
-- When main of examples/02_typed_dictionary/src/main.cpp (lines 243-351) ends with EXIT_SUCCESS.
use libstf.Base.{
  ℕ, zero, suc, ◌+◌, ◌*◌, ◌<◌, ◌≤◌, ◌≡◌, refl, sym, ap, ◌∙◌, false, some, List, [], ◌∷◌, ◌++◌,
  arith, length, get_or, get_elem?, All, ◌==◌, ==→eq, Bool-cases, inl, inr,
}
use native.Mathlib.Nat.{mod-eq_of_lt, add-zero, zero-add}
use libstf.Base.Word.{u64_mod, wrap_add}
use libstf.Examples.ReplayBuffer.{Memory, bytes_at}
use libstf.Examples.Session.Rounds.{Counts}
use libstf.Examples.TypedDictionary.{
  Args, Line, lines_for, wrong, expected_at, verify_from, verify_output,
}
use libstf.Examples.TypedDictionary.Main.{numbers_at, value_bytes, verify_run}

-- What stands at each index of the output is the value of the id there.
abbrev pub Materialized : List ℕ → List ℕ → ℕ → List ℕ → Type 0
Materialized values [] i output = Unit {0}
Materialized values (id ∷ ids) i output =
    (get_or output i 0 ≡ expected_at values id) × Materialized values ids (i + 1) output

verify_from-Counts :
    (values ids : List ℕ) (i : ℕ) (output : List ℕ) (n : ℕ) (lines : List Line)
    → Counts
        (Materialized values ids i output)
        (length ids)
        n
        (verify_from values ids i output n lines).0
unfolding verify_from
verify_from-Counts values [] i output n lines = record {
  grows = omega arith;
  bounded = omega arith;
  good = λ _. tt;
  bad = λ _. refl;
}
verify_from-Counts values (id ∷ ids) i output n lines =
    let out = get_or output i 0 in
    elim (Bool-cases (out == expected_at values id)) [
      | inl same ↦
          let rest = verify_from-Counts values ids (i + 1) output n lines in
          rw (same, verify_from)
            (record {
              grows = rest.grows;
              bounded = omega (arith, rest.bounded);
              good = λ e. (==→eq _ _ same, rest.good e);
              bad = λ all. rest.bad all.1;
            })
      | inr other ↦
          let rest =
            verify_from-Counts values ids (i + 1) output (n + 1)
              (lines ++ lines_for n (wrong i out (expected_at values id))) in
          rw (other, verify_from)
            (record {
              grows = omega (arith, rest.grows);
              bounded = omega (arith, rest.bounded);
              good = λ e. absurd (omega (arith, e, rest.grows));
              bad = λ all. absurd (differ out (expected_at values id) other all.0);
            })
    ]
  where
    differ : (a b : ℕ) → (a == b) ≡ false → a ≡ b → ⊥
    differ a b h e = ground arith

-- Index by index.
abbrev AtEach : List ℕ → List ℕ → ℕ → List ℕ → Type 0
AtEach values ids i output =
    (j id : ℕ) → get_elem? ids j ≡ some id → get_or output (i + j) 0 ≡ expected_at values id

Materialized-AtEach :
    (values ids : List ℕ) (i : ℕ) (output : List ℕ)
    → Materialized values ids i output
    → AtEach values ids i output
Materialized-AtEach values [] i output all j id e = absurd cc
Materialized-AtEach values (x ∷ ids) i output all zero id e =
    let same : x ≡ id = cc e in rw (add-zero i) (all.0 ∙ ap (expected_at values) same)
Materialized-AtEach values (x ∷ ids) i output all (suc j) id e =
    let shift : i + suc j ≡ i + 1 + j = omega arith in
    rw shift (Materialized-AtEach values ids (i + 1) output all.1 j id e)

AtEach-Materialized :
    (values ids : List ℕ) (i : ℕ) (output : List ℕ)
    → AtEach values ids i output
    → Materialized values ids i output
AtEach-Materialized values [] i output all = tt
AtEach-Materialized values (x ∷ ids) i output all = (
  rw (add-zero i) at (all 0 x refl),
  AtEach-Materialized values ids (i + 1) output
      (λ j id e. let shift : i + 1 + j ≡ i + suc j = omega arith in rw shift (all (suc j) id e)),
)

get_or-numbers_at :
    (m : Memory) (bytes ptr count i : ℕ)
    → i < count
    → get_or (numbers_at m bytes ptr count) i 0 ≡ bytes_at m (ptr + i * bytes) bytes
unfolding numbers_at
get_or-numbers_at m bytes ptr zero i h = absurd (omega arith)
get_or-numbers_at m bytes ptr (suc count) zero h = ap (λ a. bytes_at m a bytes) (omega arith)
get_or-numbers_at m bytes ptr (suc count) (suc i) h =
    get_or-numbers_at m bytes (ptr + bytes) count i (omega arith)
    ∙ ap (λ a. bytes_at m a bytes) (omega arith)

elem_bound :
    (bound : ℕ) (xs : List ℕ) (i x : ℕ)
    → All (λ y. y < bound) xs
    → get_elem? xs i ≡ some x
    → (x < bound) × (i < length xs)
elem_bound bound [] i x all e = absurd cc
elem_bound bound (y ∷ xs) zero x all e = ground arith
elem_bound bound (y ∷ xs) (suc i) x all e =
    let found = elem_bound bound xs i x all.1 e in (found.0, omega (arith, found.1))

-- Each value of the output is the one of the values that the id at its place names.
abbrev pub LookedUp : {Double : Type 0} → Args Double → List ℕ → ℕ → ℕ → Memory → Type 0
LookedUp args ids values output m =
    (i id : ℕ)
    → get_elem? ids i ≡ some id
    → bytes_at m (output + i * value_bytes args) (value_bytes args)
      ≡ bytes_at m (values + id * value_bytes args) (value_bytes args)

module _ {Double : Type 0} (args : Args Double) (ids : List ℕ)
    (inside : All (λ id. id < args.num_values) ids) (room : length ids ≤ args.num_ids)
    (values output : ℕ) (m : Memory) where
  abbrev table : List ℕ
  table = numbers_at m (value_bytes args) values args.num_values

  abbrev results : List ℕ
  results = numbers_at m (value_bytes args) output args.num_ids

  value_lem :
      (i id : ℕ)
      → get_elem? ids i ≡ some id
      → (get_or results i 0 ≡ bytes_at m (output + i * value_bytes args) (value_bytes args))
        × (expected_at table id ≡ bytes_at m (values + id * value_bytes args) (value_bytes args))
  value_lem i id e =
      let (known, placed) = elem_bound args.num_values ids i id inside e in
      (
        get_or-numbers_at m (value_bytes args) output args.num_ids i (omega arith),
        get_or-numbers_at m (value_bytes args) values args.num_values id known,
      )

  LookedUp-Materialized : LookedUp args ids values output m → Materialized table ids 0 results
  LookedUp-Materialized all = AtEach-Materialized table ids 0 results (λ i id e.
      let (found, expected) = value_lem i id e in
      rw (zero-add i) (found ∙ all i id e ∙ sym expected))

  Materialized-LookedUp : Materialized table ids 0 results → LookedUp args ids values output m
  Materialized-LookedUp all i id e =
      let (found, expected) = value_lem i id e in
      sym found
      ∙ (rw (zero-add i) at (Materialized-AtEach table ids 0 results all i id e))
      ∙ expected

  pub verify_run-LookedUp :
      (n : ℕ)
      → n + length ids < u64_mod
      → Counts
          (LookedUp args ids values output m)
          (length ids)
          n
          (verify_run args ids values output m n)
  unfolding verify_run verify_output
  verify_run-LookedUp n h =
      let counts = verify_from-Counts table ids 0 results 0 [] in
      let wrong : ℕ = (verify_from table ids 0 results 0 []).0 in
      let sum : wrap_add u64_mod n wrong ≡ n + wrong =
        mod-eq_of_lt (omega (arith, counts.bounded)) in
      record {
        grows = omega (arith, sum);
        bounded = omega (arith, sum, counts.bounded);
        good = λ same. Materialized-LookedUp (counts.good (omega (arith, sum, same)));
        bad = λ all. omega (arith, sum, counts.bad (LookedUp-Materialized all));
      }
