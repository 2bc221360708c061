-- ===== src/Examples/TypedDictionary/Ids.antt =====
-- generate_ids of examples/02_typed_dictionary/src/main.cpp (lines 188-196), for the arguments that
-- parse_args lets pass.
use mathlib.Core.Path.{subst}
use native.Mathlib.Nat.{zero-mod, mod-add-mod, mod-lt, mod-eq_of_lt}
use libstf.Base.{
  ℕ, zero, suc, ◌+◌, ◌*◌, ◌/◌, ◌%◌, ◌^◌, ◌≤◌, ◌<◌, ◌≡◌, refl, ap, sym, ◌∙◌, ◌≢◌, ◌⊎◌, inl, inr,
  Bool, true, false, not, ◌&&◌, ◌||◌, ltb, List, [], ◌∷◌, some, arith, length, ◌==◌, if◌then◌else◌,
  get_or, get_elem?, set, replicate, take, All, All-mono, length-set, get_or-set_self,
  get_or-set_ne, get_or-replicate, ℕ_discrete, eq→==, ne→==,
}
use libstf.Base.Word.{u32_mod, wrap_add}
use libstf.Base.Action.{Result}
use libstf.Logging.{Text}
use libstf.Examples.CommandLine.{Opt, Outcome, parsed, exited, threw, and_then, parse_options}
use libstf.Examples.TypedDictionary.{
  num_banks, dict_id_bits, capacity_for, Args, whole_beats, check_args, default_args, set_option,
  parse_args, spread, generate_ids,
}

-- How many of the ids are of a bank.
abbrev pub count_of : ℕ → List ℕ → ℕ
count_of bank [] = 0
count_of bank (id ∷ ids) = (if id % num_banks == bank then 1 else 0) + count_of bank ids

-- The id that takes the next slot of a bank after `n` others of it.
abbrev pub placed : ℕ → ℕ → ℕ → ℕ
placed slots n bank = n % slots * num_banks + bank

-- `next_slot` after `counts bank` ids of each bank.
record Rotates (slots : ℕ) (next_slot : List ℕ) (counts : ℕ → ℕ) : Type 0 where
  size : length next_slot ≡ num_banks
  slot : (bank : ℕ) → bank < num_banks → get_or next_slot bank 0 ≡ counts bank % slots

-- One id of bank `b` more.
abbrev counted : ℕ → (ℕ → ℕ) → ℕ → ℕ
counted b counts bank = (if b == bank then 1 else 0) + counts bank

next :
    (slots n : ℕ)
    → 0 < slots
    → slots < u32_mod
    → wrap_add u32_mod (n % slots) 1 % slots % u32_mod ≡ (1 + n) % slots
next slots n pos small =
    let low : n % slots < slots = mod-lt n pos in
    let e : (n % slots + 1) % u32_mod ≡ n % slots + 1 = mod-eq_of_lt (omega (arith, low)) in
    let f : 1 + n ≡ n + 1 = omega arith in
    rw (e, mod-add-mod n slots 1, f) (mod-eq_of_lt (omega (arith, mod-lt (n + 1) pos)))

counted_self : (b : ℕ) (counts : ℕ → ℕ) → counted b counts b ≡ 1 + counts b
counted_self b counts = rw (eq→== b b refl) refl

counted_ne : (b bank : ℕ) (counts : ℕ → ℕ) → b ≢ bank → counted b counts bank ≡ counts bank
counted_ne b bank counts other = rw (ne→== b bank other) (omega arith)

module _ (slots : ℕ) (pos : 0 < slots) (small : slots * num_banks ≤ 2 ^ dict_id_bits) where
  Rotates-next :
      (b : ℕ) (next_slot : List ℕ) (counts : ℕ → ℕ)
      → b < num_banks
      → Rotates slots next_slot counts
      → Rotates slots
          (set next_slot b (wrap_add u32_mod (get_or next_slot b 0) 1 % slots % u32_mod))
          (counted b counts)
  Rotates-next b next_slot counts known r = record {
    size = length-set next_slot b _ ∙ r.size;
    slot = λ bank l. elim (ℕ_discrete b bank) [
      | yes same ↦
          rw (← same, counted_self b counts)
            (get_or-set_self next_slot b _ 0 (omega (arith, r.size))
              ∙ ap (λ (x : ℕ). wrap_add u32_mod x 1 % slots % u32_mod) (r.slot b known)
              ∙ next slots (counts b) pos (omega arith))
      | no other ↦
          rw (counted_ne b bank counts other)
            (get_or-set_ne next_slot b bank _ 0 other ∙ r.slot bank l)
    ];
  }

  placed_small : (n bank : ℕ) → bank < num_banks → placed slots n bank < slots * num_banks
  placed_small n bank known = omega (arith, mod-lt n pos)

  head_lem :
      (b : ℕ) (next_slot : List ℕ) (counts : ℕ → ℕ)
      → b < num_banks
      → Rotates slots next_slot counts
      → (get_or next_slot b 0 * num_banks + b) % u32_mod ≡ placed slots (counts b) b
  head_lem b next_slot counts known r =
      rw (r.slot b known) (mod-eq_of_lt (omega (arith, placed_small (counts b) b known)))

  add_swap : (a b c : ℕ) → a + (b + c) ≡ b + a + c
  add_swap a b c = omega arith

  spread_lem :
      (drawn next_slot : List ℕ) (counts : ℕ → ℕ) (i id : ℕ)
      → Rotates slots next_slot counts
      → get_elem? drawn i ≡ some id
      → get_elem? (spread slots next_slot drawn) i
        ≡ some (
            placed slots
              (count_of (id % num_banks) (take i drawn) + counts (id % num_banks))
              (id % num_banks))
  unfolding spread
  spread_lem [] next_slot counts i id r e = absurd cc
  spread_lem (d ∷ ds) next_slot counts zero id r e =
      let same : d ≡ id = cc e in
      let none : 0 + counts (id % num_banks) ≡ counts (id % num_banks) = omega arith in
      rw (none, ← same) (ap some (head_lem (d % num_banks) next_slot counts (omega arith) r))
  spread_lem (d ∷ ds) next_slot counts (suc i) id r e =
      let b = d % num_banks in
      rw
        (← add_swap (count_of (id % num_banks) (take i ds)) (if b == id % num_banks then 1 else 0)
          (counts (id % num_banks)))
        (spread_lem ds _ (counted b counts) i id (Rotates-next b next_slot counts (omega arith) r)
          e)

  spread_bound :
      (drawn next_slot : List ℕ) (counts : ℕ → ℕ)
      → Rotates slots next_slot counts
      → All (λ id. id < slots * num_banks) (spread slots next_slot drawn)
  unfolding spread
  spread_bound [] next_slot counts r = tt
  spread_bound (d ∷ ds) next_slot counts r =
      let b = d % num_banks in
      (
        rw (head_lem b next_slot counts (omega arith) r) (placed_small (counts b) b (omega arith)),
        spread_bound ds _ (counted b counts) (Rotates-next b next_slot counts (omega arith) r),
      )

-- The arguments that parse_args lets pass.
pub record IsValid {Double : Type 0} (args : Args Double) : Type 0 where
  pub some_values : 0 < args.num_values
  pub fits : args.num_values ≤ capacity_for args.value_bits
  pub width : (args.value_bits ≡ 32) ⊎ (args.value_bits ≡ 64)
  pub banks : args.distinct ≡ true → num_banks ≤ args.num_values
  pub beats : args.num_ids % num_banks ≡ 0

and_then-parsed :
    {A B : Type 0} (o : Outcome A) (f : A → Outcome B) (b : B)
    → and_then o f ≡ parsed b
    → (a : A) × (f a ≡ parsed b)
and_then-parsed (parsed a) f b e = (a, e)
and_then-parsed (exited n) f b e = absurd cc
and_then-parsed (threw x) f b e = absurd cc

-- A check that did not end the program.
passed :
    {A : Type 0} (c : Bool) (o : Outcome A) (b : A)
    → (if c then exited 1 else o) ≡ parsed b
    → (c ≡ false) × (o ≡ parsed b)
passed true o b e = absurd cc
passed false o b e = (refl, e)

-- What the three checks leave.
width_of : (n : ℕ) → (not (n == 32) && not (n == 64)) ≡ false → (n ≡ 32) ⊎ (n ≡ 64)
width_of n h = elim (ℕ_discrete n 32) [
  | yes e ↦ inl e
  | no d ↦ elim (ℕ_discrete n 64) [
    | yes e ↦ inr e
    | no f ↦ absurd (cc (h, ne→== n 32 d, ne→== n 64 f))
  ]
]

values_of : (n cap : ℕ) → (n == 0 || ltb cap n) ≡ false → (0 < n) × (n ≤ cap)
values_of n cap h = ground arith

banks_of :
    (distinct : Bool) (n : ℕ)
    → (distinct && ltb n num_banks) ≡ false
    → distinct ≡ true
    → num_banks ≤ n
banks_of true n h d = ground arith
banks_of false n h d = absurd cc

module _ {Double : Type 0} where
  check_args-IsValid : (a b : Args Double) → check_args a ≡ parsed b → IsValid b
  unfolding check_args
  check_args-IsValid a b e =
      let (width, e1) = passed (not (a.value_bits == 32) && not (a.value_bits == 64)) _ b e in
      let (values, e2) =
        passed (a.num_values == 0 || ltb (capacity_for a.value_bits) a.num_values) _ b e1 in
      let (banks, e3) = passed (a.distinct && ltb a.num_values num_banks) _ b e2 in
      let same : record a { num_ids = whole_beats a.num_ids } ≡ b = cc e3 in
      subst IsValid same (record {
        some_values = (values_of a.num_values (capacity_for a.value_bits) values).0;
        fits = (values_of a.num_values (capacity_for a.value_bits) values).1;
        width = width_of a.value_bits width;
        banks = banks_of a.distinct a.num_values banks;
        beats = omega arith;
      })

  parse_args-IsValid :
      (stoul : Text → Result ℕ) (stod : Text → Result Double) (zero_double : Double)
      (options : List Opt) (args : Args Double)
      → parse_args stoul stod zero_double options ≡ parsed args
      → IsValid args
  unfolding parse_args
  parse_args-IsValid stoul stod zero_double options args e =
      let (a, checked) =
        and_then-parsed (parse_options (set_option stoul stod) options (default_args zero_double))
          check_args args e in
      check_args-IsValid a args checked

  -- A dictionary has at most 2^18 slots.
  slots_lem :
      (args : Args Double)
      → IsValid args
      → args.distinct ≡ true
      → (0 < args.num_values / num_banks)
        × (args.num_values / num_banks * num_banks ≤ args.num_values)
        × (args.num_values ≤ 2 ^ dict_id_bits)
  slots_lem args valid d =
      (omega (arith, valid.banks d), omega arith, bits (valid.width) valid.fits)
    where
      bits :
          (args.value_bits ≡ 32) ⊎ (args.value_bits ≡ 64)
          → args.num_values ≤ capacity_for args.value_bits
          → args.num_values ≤ 2 ^ dict_id_bits
      bits (inl e) h = rw e at h
      bits (inr e) h = let k : args.num_values ≤ 131072 = rw e at h in omega (arith, k)

  -- For arguments that parse_args returns, with --distinct, every id that is generated is one of the
  -- dictionary. The id that was drawn keeps its bank, and takes in it the slot of the number of ids of
  -- this bank before it, modulo the slots of a bank.
  pub generate_ids-distinct :
      (stoul : Text → Result ℕ) (stod : Text → Result Double) (zero_double : Double)
      (options : List Opt) (args : Args Double) (drawn : List ℕ)
      → parse_args stoul stod zero_double options ≡ parsed args
      → args.distinct ≡ true
      → All (λ id. id < args.num_values) (generate_ids args drawn)
        × ((i id : ℕ)
            → get_elem? drawn i ≡ some id
            → get_elem? (generate_ids args drawn) i
              ≡ some (
                  placed
                    (args.num_values / num_banks)
                    (count_of (id % num_banks) (take i drawn))
                    (id % num_banks)))
  unfolding generate_ids
  generate_ids-distinct stoul stod zero_double options args drawn e d =
      let (pos, low, high) =
        slots_lem args (parse_args-IsValid stoul stod zero_double options args e) d in
      let slots = args.num_values / num_banks in
      let fresh : Rotates slots (replicate num_banks 0) (λ _. 0) = record {
        size = refl;
        slot = λ bank l. get_or-replicate num_banks bank 0 ∙ sym (zero-mod slots);
      } in
      rw d (
        All-mono _ _ _ (λ id l. omega (arith, l, low))
            (spread_bound slots pos (omega (arith, low, high)) drawn _ (λ _. 0) fresh),
        λ i id here.
            let z = count_of (id % num_banks) (take i drawn) in
            let nothing : z + 0 ≡ z = omega arith in
            rw (nothing) at
              (spread_lem slots pos (omega (arith, low, high)) drawn _ (λ _. 0) i id fresh here),
      )
