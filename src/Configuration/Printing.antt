-- ===== src/Configuration/Printing.antt =====
-- The two operator<< of software/libstf/configuration.cpp (lines 23-46): a register and a list of
-- registers as text. A text is the list of its bytes.
use libstf.Base.{
  ℕ, zero, suc, ◌+◌, ◌-◌, ◌*◌, ◌/◌, ◌%◌, ◌<◌, ◌≡◌, ap, ◌∙◌, List, [], ◌∷◌, ◌++◌, arith, ltb, lt→ltb,
  le→ltb, dec_lt, if◌then◌else◌,
}
use native.Mathlib.Nat.{div-lt_self, div-add-mod'}
use libstf.Logging.{Text, text}
use libstf.Configuration.{ConfigRegister}

-- The byte of a digit, 0 to 9 and then a to f.
abbrev pub digit : ℕ → ℕ
digit d = if ltb d 10 then b'0' + d else b'a' + d - 10

-- The digits of a number, on fuel, with those behind them.
unfoldable pub digits_of : ℕ → ℕ → ℕ → List ℕ → List ℕ
digits_of base zero n behind = behind
digits_of base (suc fuel) n behind =
    let rest = digits_of base fuel (n / base) (n % base ∷ behind) in
    if ltb n base then n ∷ behind else rest

abbrev as_bytes : List ℕ → Text
as_bytes [] = []
as_bytes (d ∷ ds) = digit d ∷ as_bytes ds

-- `out << n`, and `out << std::hex << n`; each digit makes the number smaller.
abbrev pub decimal : ℕ → Text
decimal n = as_bytes (digits_of 10 (suc n) n [])

abbrev pub hexadecimal : ℕ → Text
hexadecimal n = as_bytes (digits_of 16 (suc n) n [])

-- `out << conf`
unfoldable pub print_register : ConfigRegister → Text
unfolding digits_of
print_register conf =
    text "FPGAConfiguration { .addr = "
    ++ decimal conf.addr
    ++ text " .value = 0x"
    ++ hexadecimal conf.value
    ++ text " }"

-- The loop over the registers.
abbrev pub print_rest : List ConfigRegister → Text
print_rest [] = []
print_rest (conf ∷ []) = print_register conf
print_rest (conf ∷ next ∷ confs) = print_register conf ++ text ",\n" ++ print_rest (next ∷ confs)

unfoldable pub print_registers : List ConfigRegister → Text
unfolding print_register
print_registers confs = text "[\n" ++ print_rest confs ++ text "\n]\n"

-- The number that digits stand for, behind others.
abbrev pub value_of : ℕ → ℕ → List ℕ → ℕ
value_of base n [] = n
value_of base n (d ∷ ds) = value_of base (n * base + d) ds

-- The digits of a number, read again, are the number.
pub value_of-digits_of :
    (base fuel n : ℕ) (behind : List ℕ)
    → 1 < base
    → n < fuel
    → value_of base 0 (digits_of base fuel n behind) ≡ value_of base n behind
unfolding digits_of
value_of-digits_of base zero n behind b h = absurd (omega arith)
value_of-digits_of base (suc fuel) n behind b h = elim (dec_lt n base) [
  | yes one ↦
      let e : 0 * base + n ≡ n = omega arith in
      rw (lt→ltb n base one) (ap (λ (k : ℕ). value_of base k behind) e)
  | no more ↦
      rw (le→ltb n base (omega arith), digits_of)
        (value_of-digits_of base fuel (n / base) (n % base ∷ behind) b
            (omega (arith, h, div-lt_self {n = n} {k = base} (omega arith) b))
          ∙ ap (λ (k : ℕ). value_of base k behind) (div-add-mod' n base))
]
