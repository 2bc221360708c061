-- ===== src/Examples/TypedDictionary.antt =====
-- examples/02_typed_dictionary/src/main.cpp: its command line, the ids that it looks up, the values of
-- the dictionary and the comparison of the output. The conversions of the C++ library and the
-- numbers that it draws at random are given; a double is of any type.
pub mod Ids
pub mod Main
use libstf.Base.{
  ℕ, zero, suc, ◌+◌, ◌-◌, ◌*◌, ◌/◌, ◌%◌, ◌^◌, Bool, true, false, not, ◌&&◌, ◌||◌, List, [], ◌∷◌,
  ◌++◌, ltb, ◌==◌, if◌then◌else◌, get_or, set, replicate,
}
use libstf.Base.Word.{u32_mod, u64_mod, wrap_add, wrap_sub}
use libstf.Base.Action.{Result}
use libstf.Logging.{Text}
use libstf.Examples.CommandLine.{Opt, Outcome, parsed, exited, set_from, and_then, parse_options}

abbrev pub dict_id_bits : ℕ
dict_id_bits = 18

abbrev pub num_banks : ℕ
num_banks = 16

abbrev pub ids_per_beat : ℕ
ids_per_beat = 16

pub record Args (Double : Type 0) : Type 0 where
  pub value_bits : ℕ
  pub num_values : ℕ
  pub num_ids : ℕ
  pub zipf : Double
  pub num_runs : ℕ
  pub seed : ℕ
  pub distinct : Bool

-- What the options start with; `0.0` is given.
abbrev pub default_args : {Double : Type 0} → Double → Args Double
default_args zero_double = record {
  value_bits = 32;
  num_values = 131072;
  num_ids = 16777216;
  zipf = zero_double;
  num_runs = 5;
  seed = 42;
  distinct = false;
}

-- `1UL << (args.value_bits == 32 ? DICT_ID_BITS : DICT_ID_BITS - 1)`
abbrev pub capacity_for : ℕ → ℕ
capacity_for value_bits = 2 ^ (if value_bits == 32 then dict_id_bits else dict_id_bits - 1)

-- Rounded up to whole beats, in size_t.
abbrev pub whole_beats : ℕ → ℕ
whole_beats num_ids =
    wrap_sub u64_mod (wrap_add u64_mod num_ids ids_per_beat) 1 / ids_per_beat * ids_per_beat

-- The loop over the ids that were drawn, with `next_slot`.
unfoldable pub spread : ℕ → List ℕ → List ℕ → List ℕ
spread slots_per_bank next_slot [] = []
spread slots_per_bank next_slot (id ∷ ids) =
    let bank = id % num_banks in
    let slot = get_or next_slot bank 0 in
    (slot * num_banks + bank) % u32_mod
    ∷ spread slots_per_bank
        (set next_slot bank (wrap_add u32_mod slot 1 % slots_per_bank % u32_mod)) ids

module _ {Double : Type 0} where
  -- The switch of parse_args.
  abbrev pub set_option :
      (Text → Result ℕ) → (Text → Result Double) → Opt → Args Double → Outcome (Args Double)
  set_option stoul stod o args =
      let value = stoul o.optarg in
      if o.opt == b't'
      then set_from value (λ n. record args { value_bits = n })
      else if o.opt == b'v'
      then set_from value (λ n. record args { num_values = n })
      else if o.opt == b'i'
      then set_from value (λ n. record args { num_ids = n })
      else if o.opt == b'z'
      then set_from (stod o.optarg) (λ x. record args { zipf = x })
      else if o.opt == b'd'
      then parsed (record args { distinct = true })
      else if o.opt == b'r'
      then set_from value (λ n. record args { num_runs = n })
      else if o.opt == b's'
      then set_from value (λ n. record args { seed = n })
      else if o.opt == b'h'
      then exited 0
      else exited 1

  -- The checks after the loop, and the rounding.
  unfoldable pub check_args : Args Double → Outcome (Args Double)
  check_args args =
      if not (args.value_bits == 32) && not (args.value_bits == 64)
      then exited 1
      else if args.num_values == 0 || ltb (capacity_for args.value_bits) args.num_values
      then exited 1
      else if args.distinct && ltb args.num_values num_banks
      then exited 1
      else parsed (record args { num_ids = whole_beats args.num_ids })

  unfoldable pub parse_args :
      (Text → Result ℕ) → (Text → Result Double) → Double → List Opt → Outcome (Args Double)
  unfolding check_args
  parse_args stoul stod zero_double options =
      and_then (parse_options (set_option stoul stod) options (default_args zero_double)) check_args

  -- After the ids were drawn.
  unfoldable pub generate_ids : Args Double → List ℕ → List ℕ
  unfolding spread
  generate_ids args drawn =
      if args.distinct
      then spread (args.num_values / num_banks) (replicate num_banks 0) drawn
      else drawn

-- The loop that counts the ids of each bank.
unfoldable pub bank_counts : List ℕ → List ℕ → List ℕ
bank_counts counts [] = counts
bank_counts counts (id ∷ ids) =
    let bank = id % num_banks in
    bank_counts (set counts bank (wrap_add u64_mod (get_or counts bank 0) 1)) ids

-- `(value_t)(i * 0x9E3779B97F4A7C15ULL + 1)`, for a value_t of `bits` bits.
unfoldable pub value_of : ℕ → ℕ → ℕ
value_of bits i = (i * 11400714819323198485 % u64_mod + 1) % u64_mod % 2 ^ bits

-- The values from `i` on.
unfoldable pub fill_values : ℕ → ℕ → ℕ → List ℕ
unfolding value_of
fill_values bits zero i = []
fill_values bits (suc num_values) i = value_of bits i ∷ fill_values bits num_values (i + 1)

-- `((const value_t *)values)[id]` past the values is undefined; here it is 0.
abbrev pub expected_at : List ℕ → ℕ → ℕ
expected_at values id = get_or values id 0

-- What is printed: the heading, a wrong value by its index, the actual and the expected value, or
-- that there are more.
pub data Line : Type 0 where
  heading : Line
  wrong : ℕ → ℕ → ℕ → Line
  more : Line

abbrev pub lines_for : ℕ → Line → List Line
lines_for num_wrong_values line =
    (if num_wrong_values == 0 then heading ∷ [] else [])
    ++ (if ltb num_wrong_values 5 then line ∷ [] else [])
    ++ (if num_wrong_values == 5 then more ∷ [] else [])

-- The loop over the ids from index `i` on: the number of wrong values and the lines so far.
unfoldable pub verify_from : List ℕ → List ℕ → ℕ → List ℕ → ℕ → List Line → ℕ × List Line
verify_from values [] i output num_wrong_values lines = (num_wrong_values, lines)
verify_from values (id ∷ ids) i output num_wrong_values lines =
    elim (get_or output i 0 == expected_at values id) [
      | true ↦ verify_from values ids (i + 1) output num_wrong_values lines
      | false ↦ verify_from values ids (i + 1) output (num_wrong_values + 1) (
          lines ++ lines_for num_wrong_values (wrong i (get_or output i 0) (expected_at values id)))
    ]

unfoldable pub verify_output : List ℕ → List ℕ → List ℕ → ℕ × List Line
unfolding verify_from
verify_output values ids output = verify_from values ids 0 output 0 []
