-- ===== src/Examples/ReplayBuffer/Output.antt =====
-- verify_output of examples/03_replay_buffer/src/main.cpp (lines 219-238).
use libstf.Base.{
  ℕ, zero, suc, ◌+◌, ◌-◌, ◌*◌, ◌/◌, ◌%◌, ◌<◌, ◌≤◌, ◌≡◌, refl, ap, sym, ◌∙◌, ◌↔◌, Bool, true, false,
  List, [], ◌∷◌, ◌++◌, ◌&&◌, arith, length, take, ltb, ◌==◌, if◌then◌else◌, eq→==, ==→eq,
  append_assoc, append-nil, dec_lt, lt→ltb, le→ltb, Bool-cases, inl, inr,
}
use native.Mathlib.Nat.{add-zero}
use libstf.Examples.ReplayBuffer.{
  Memory, same_bytes, bytes_at, value_at, WrongValue, compare_values, verify_output,
}

and_true : (a b : Bool) → (a && b) ≡ true → (a ≡ true) × (b ≡ true)
and_true true b h = (refl, h)
and_true false b h = absurd cc

-- The values from `i` on at which output and input differ.
abbrev pub wrong_values : Memory → ℕ → ℕ → ℕ → ℕ → List WrongValue
wrong_values m input output zero i = []
wrong_values m input output (suc count) i =
    let rest = wrong_values m input output count (i + 1) in
    if value_at m output i == value_at m input i
    then rest
    else (i, value_at m output i, value_at m input i) ∷ rest

-- Two regions hold the same bytes.
abbrev pub IsCopy : Memory → ℕ → ℕ → ℕ → Type 0
IsCopy m p q n = (k : ℕ) → k < n → m (p + k) ≡ m (q + k)

-- One byte and those behind it.
IsCopy-cons :
    (m : Memory) (p q n : ℕ) → m p ≡ m q → IsCopy m (p + 1) (q + 1) n → IsCopy m p q (suc n)
IsCopy-cons m p q n first rest zero l = rw (add-zero p, add-zero q) first
IsCopy-cons m p q n first rest (suc k) l =
    let e : p + suc k ≡ p + 1 + k = omega arith in
    let f : q + suc k ≡ q + 1 + k = omega arith in rw (e, f) (rest k (omega arith))

IsCopy-first : (m : Memory) (p q n : ℕ) → IsCopy m p q (suc n) → m p ≡ m q
IsCopy-first m p q n h = rw (add-zero p, add-zero q) at (h 0 (omega arith))

IsCopy-rest : (m : Memory) (p q n : ℕ) → IsCopy m p q (suc n) → IsCopy m (p + 1) (q + 1) n
IsCopy-rest m p q n h k l =
    let e : p + 1 + k ≡ p + suc k = omega arith in
    let f : q + 1 + k ≡ q + suc k = omega arith in rw (e, f) (h (suc k) (omega arith))

same_bytes-IsCopy : (m : Memory) (p q n : ℕ) → same_bytes m p q n ≡ true → IsCopy m p q n
same_bytes-IsCopy m p q zero h = λ k l. absurd (omega arith)
same_bytes-IsCopy m p q (suc n) h =
    let (first, rest) = and_true (m p == m q) (same_bytes m (p + 1) (q + 1) n) h in
    IsCopy-cons m p q n (==→eq (m p) (m q) first) (same_bytes-IsCopy m (p + 1) (q + 1) n rest)

IsCopy-same_bytes : (m : Memory) (p q n : ℕ) → IsCopy m p q n → same_bytes m p q n ≡ true
IsCopy-same_bytes m p q zero h = refl
IsCopy-same_bytes m p q (suc n) h =
    rw (eq→== (m p) (m q) (IsCopy-first m p q n h))
      (IsCopy-same_bytes m (p + 1) (q + 1) n (IsCopy-rest m p q n h))

bytes_at-IsCopy :
    (m : Memory) (p q n : ℕ)
    → ((a : ℕ) → m a < 256)
    → bytes_at m p n ≡ bytes_at m q n
    → IsCopy m p q n
bytes_at-IsCopy m p q zero small h = λ k l. absurd (omega arith)
bytes_at-IsCopy m p q (suc n) small h =
    IsCopy-cons m p q n (omega (arith, h, small p, small q))
      (bytes_at-IsCopy m (p + 1) (q + 1) n small (omega (arith, h, small p, small q)))

IsCopy-bytes_at : (m : Memory) (p q n : ℕ) → IsCopy m p q n → bytes_at m p n ≡ bytes_at m q n
IsCopy-bytes_at m p q zero h = refl
IsCopy-bytes_at m p q (suc n) h =
    rw (IsCopy-first m p q n h, IsCopy-bytes_at m (p + 1) (q + 1) n (IsCopy-rest m p q n h)) refl

take-nil : (n : ℕ) → take {A = WrongValue} n [] ≡ []
take-nil zero = refl
take-nil (suc n) = refl

-- The first five wrong values are printed.
lines_more :
    (n : ℕ) (w : WrongValue) (ws lines : List WrongValue)
    → (if ltb n 5 then lines ++ (w ∷ []) else lines) ++ take (5 - (n + 1)) ws
      ≡ lines ++ take (5 - n) (w ∷ ws)
lines_more n w ws lines = elim (dec_lt n 5) [
  | yes few ↦
      let e : 5 - n ≡ suc (5 - (n + 1)) = omega arith in
      rw (lt→ltb n 5 few, e) (append_assoc lines (w ∷ []) (take (5 - (n + 1)) ws))
  | no many ↦
      let e : 5 - n ≡ 0 = omega arith in
      let f : 5 - (n + 1) ≡ 0 = omega arith in rw (le→ltb n 5 (omega arith), e, f) refl
]

compare_values_lem :
    (m : Memory) (input output count i n : ℕ) (lines : List WrongValue)
    → compare_values m input output count i n lines ≡ (
      n + length (wrong_values m input output count i),
      lines ++ take (5 - n) (wrong_values m input output count i),
    )
unfolding compare_values
compare_values_lem m input output zero i n lines =
    let e : n ≡ n + 0 = omega arith in rw (← e, take-nil (5 - n), append-nil lines) refl
compare_values_lem m input output (suc count) i n lines =
    let ws = wrong_values m input output count (i + 1) in
    let w : ℕ → WrongValue = λ j. (j, value_at m output j, value_at m input j) in
    elim (Bool-cases (value_at m output i == value_at m input i)) [
      | inl same ↦
          rw (same, compare_values) (compare_values_lem m input output count (i + 1) n lines)
      | inr other ↦
          rw (other, compare_values)
            (compare_values_lem m input output count (i + 1) (n + 1) _
              ∙ ap
                  (λ (k : ℕ).
                    (k, (if ltb n 5 then lines ++ (w i ∷ []) else lines) ++ take (5 - (n + 1)) ws))
                  (let e : n + 1 + length ws ≡ n + suc (length ws) = omega arith in e)
              ∙ ap (λ (l : List WrongValue). (n + suc (length ws), l))
                  (lines_more n (w i) ws lines))
    ]

pub length-wrong_values :
    (m : Memory) (input output count i : ℕ) → length (wrong_values m input output count i) ≤ count
length-wrong_values m input output zero i = omega arith
length-wrong_values m input output (suc count) i =
    ground (arith, length-wrong_values m input output count (i + 1))

-- The values agree at an index.
abbrev Agree : Memory → ℕ → ℕ → ℕ → Type 0
Agree m input output j = value_at m output j ≡ value_at m input j

wrong_values-Agree :
    (m : Memory) (input output count i : ℕ)
    → length (wrong_values m input output count i) ≡ 0
    → (j : ℕ) → i ≤ j
    → j < i + count
    → Agree m input output j
wrong_values-Agree m input output zero i h j l u = absurd (omega arith)
wrong_values-Agree m input output (suc count) i h j l u =
    elim (Bool-cases (value_at m output i == value_at m input i)) [
      | inr other ↦
          let bad : suc (length (wrong_values m input output count (i + 1))) ≡ 0 = rw other at h in
          absurd (omega (arith, bad))
      | inl same ↦ elim (dec_lt i j) [
        | yes later ↦
            let e : length (wrong_values m input output count (i + 1)) ≡ 0 = rw same at h in
            wrong_values-Agree m input output count (i + 1) e j (omega arith) (omega arith)
        | no first ↦
            let e : j ≡ i = omega arith in
            rw e (==→eq (value_at m output i) (value_at m input i) same)
      ]
    ]

Agree-wrong_values :
    (m : Memory) (input output count i : ℕ)
    → ((j : ℕ) → i ≤ j → j < i + count → Agree m input output j)
    → wrong_values m input output count i ≡ []
Agree-wrong_values m input output zero i h = refl
Agree-wrong_values m input output (suc count) i h =
    rw (eq→== (value_at m output i) (value_at m input i) (h i (omega arith) (omega arith)))
      (Agree-wrong_values m input output count (i + 1) (λ j l u. h j (omega arith) (omega arith)))

-- Regions of whole values are copies where the values agree.
Agree-IsCopy :
    (m : Memory) (input output size : ℕ)
    → ((a : ℕ) → m a < 256)
    → size % 8 ≡ 0
    → ((j : ℕ) → 0 ≤ j → j < 0 + size / 8 → Agree m input output j)
    → IsCopy m output input size
unfolding value_at
Agree-IsCopy m input output size small whole h k l =
    let e : output + k ≡ output + 8 * (k / 8) + k % 8 = omega arith in
    let f : input + k ≡ input + 8 * (k / 8) + k % 8 = omega arith in
    rw (e, f)
      (bytes_at-IsCopy m (output + 8 * (k / 8)) (input + 8 * (k / 8)) 8 small
        (h (k / 8) (omega arith) (omega arith)) (k % 8) (omega arith))

IsCopy-Agree :
    (m : Memory) (input output size : ℕ)
    → IsCopy m output input size
    → (j : ℕ) → 0 ≤ j
    → j < 0 + size / 8
    → Agree m input output j
unfolding value_at
IsCopy-Agree m input output size h j z l =
    IsCopy-bytes_at m (output + 8 * j) (input + 8 * j) 8 (λ k u.
      let e : output + 8 * j + k ≡ output + (8 * j + k) = omega arith in
      let f : input + 8 * j + k ≡ input + (8 * j + k) = omega arith in
      rw (e, f) (h (8 * j + k) (omega arith)))

-- The shortcut by memcmp changes nothing.
shortcut :
    (m : Memory) (input output size : ℕ)
    → verify_output m input output size ≡ (
      length (wrong_values m input output (size / 8) 0),
      take 5 (wrong_values m input output (size / 8) 0),
    )
unfolding verify_output
shortcut m input output size = elim (Bool-cases (same_bytes m input output size)) [
  | inr other ↦
      let ws = wrong_values m input output (size / 8) 0 in
      rw other (
        compare_values_lem m input output (size / 8) 0 0 []
        ∙ ap (λ (n : ℕ). (n, take 5 ws)) (let e : 0 + length ws ≡ length ws = omega arith in e))
  | inl same ↦
      let none : wrong_values m input output (size / 8) 0 ≡ [] =
        Agree-wrong_values m input output (size / 8) 0 (
          IsCopy-Agree m input output size
            (λ k l. sym (same_bytes-IsCopy m input output size same k l))) in
      rw (same, none) refl
]

-- For a memory of bytes and a size of whole values, the number of wrong values that is returned is
-- the number of values that differ, whether or not memcmp is what finds them equal, and the lines that
-- are printed are the first five of these. The number is zero just where the output is a copy of the
-- input, byte for byte.
pub verify_output_lem :
    (m : Memory) (input output size : ℕ)
    → ((a : ℕ) → m a < 256)
    → size % 8 ≡ 0
    → (verify_output m input output size ≡ (
      length (wrong_values m input output (size / 8) 0),
      take 5 (wrong_values m input output (size / 8) 0),
    ))
      × (((verify_output m input output size).0 ≡ 0) ↔ IsCopy m output input size)
verify_output_lem m input output size small whole =
    let e = shortcut m input output size in
    (
      e,
      (
        λ z.
            Agree-IsCopy m input output size small whole
              (wrong_values-Agree m input output (size / 8) 0 (sym (ap (λ r. r.0) e) ∙ z)),
        λ copy.
            ap (λ r. r.0) e
            ∙ ap length (
                Agree-wrong_values m input output (size / 8) 0
                  (IsCopy-Agree m input output size copy)),
      ),
    )
