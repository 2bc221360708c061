-- ===== src/Base/Word.antt =====
-- Machine words as native numbers: the moduli, and what the masks of the source do to a word.
use Prim.Native.Nat.{
  ℕ, zero, suc, ◌+◌, ◌-◌, ◌*◌, ◌/◌, ◌%◌, ◌^◌, ◌≤◌, ◌<◌, min, max, bit_and, bit_or, digits,
  bit_and-bitwise, bit_or-bitwise,
}
use mathlib.Core.Path.{◌≡◌, refl, sym, ap, ◌∙◌}
use mathlib.Core.WellFounded.{Acc}
use native.Mathlib.Omega.{arith}
use native.Mathlib.Decide.{dec_le}
use native.Mathlib.Nat.{div-div-eq-div-mul, div-add-mod, mod-eq_of_lt}

-- uint32_t and size_t, uint64_t.
abbrev pub u32_mod : ℕ
u32_mod = 2 ^ 32

abbrev pub u64_mod : ℕ
u64_mod = 2 ^ 64

-- `a + b`, `a - b` and `a * b` of the unsigned type with this modulus. `-` on ℕ stops at 0, so the
-- modulus is added first.
abbrev pub wrap_add : ℕ → ℕ → ℕ → ℕ
wrap_add m a b = (a + b) % m

abbrev pub wrap_sub : ℕ → ℕ → ℕ → ℕ
wrap_sub m a b = (a + m - b) % m

-- `<` is well founded, for the recursions that no constructor bounds.
Acc-below : (k n : ℕ) → n < k → Acc ◌<◌ n
Acc-below zero n h = absurd (omega arith)
Acc-below (suc k) n h = Acc.intro n (λ m below. Acc-below k m (omega arith))

unfoldable pub lt_acc : (n : ℕ) → Acc ◌<◌ n
unfolding Acc-below
lt_acc n = Acc-below (suc n) n (omega arith)

-- The bit operations go through the binary digits on fuel. One step of fuel beyond the number of
-- digits changes nothing, and so does any number of steps.
module _ (z : ℕ → ℕ) (f : ℕ → ℕ → ℕ) where
  one_more : (n a b : ℕ) → a ≤ n → digits z f (suc n) a b ≡ digits z f n a b
  one_more zero zero b h = refl
  one_more (suc n) zero b h = refl
  one_more zero (suc a) b h = absurd (omega arith)
  one_more (suc n) (suc a) b h = rw (one_more n (suc a / 2) (b / 2) (omega arith))

  enough : (n a b : ℕ) → a ≤ n → digits z f n a b ≡ digits z f a a b
  enough zero a b h = let e : a ≡ 0 = omega arith in rw e
  enough (suc n) a b h = elim (dec_le a n) [
    | yes le ↦ one_more n a b le ∙ enough n a b le
    | no gt ↦ let e : a ≡ suc n = omega arith in rw e
  ]

  by_digit :
      (a b : ℕ)
      → digits z f (suc a) (suc a) b
        ≡ digits z f (suc a / 2) (suc a / 2) (b / 2) * 2 + f (suc a % 2) (b % 2)
  by_digit a b = rw (enough a (suc a / 2) (b / 2) (omega arith))

-- The lowest digit of a conjunction and of a disjunction.
pub bit_and_step : (a b : ℕ) → bit_and a b ≡ bit_and (a / 2) (b / 2) * 2 + min (a % 2) (b % 2)
bit_and_step zero b = rw (bit_and-bitwise 0 b, bit_and-bitwise 0 (b / 2)) (omega arith)
bit_and_step (suc a) b =
    rw (bit_and-bitwise (suc a) b, bit_and-bitwise (suc a / 2) (b / 2)) (by_digit _ min a b)

pub bit_or_step : (a b : ℕ) → bit_or a b ≡ bit_or (a / 2) (b / 2) * 2 + max (a % 2) (b % 2)
bit_or_step zero b = rw (bit_or-bitwise 0 b, bit_or-bitwise 0 (b / 2)) (omega arith)
bit_or_step (suc a) b =
    rw (bit_or-bitwise (suc a) b, bit_or-bitwise (suc a / 2) (b / 2)) (by_digit _ max a b)

pub bit_and-zero : (a : ℕ) → bit_and a 0 ≡ 0
bit_and-zero a = below a a (omega arith)
  where
    below : (n m : ℕ) → m ≤ n → bit_and m 0 ≡ 0
    below n zero h = refl
    below zero (suc m) h = absurd (omega arith)
    below (suc n) (suc m) h =
        omega (arith, bit_and_step (suc m) 0, below n (suc m / 2) (omega arith))

pub bit_or-zero : (a : ℕ) → bit_or a 0 ≡ a
bit_or-zero a = below a a (omega arith)
  where
    below : (n m : ℕ) → m ≤ n → bit_or m 0 ≡ m
    below n zero h = refl
    below zero (suc m) h = absurd (omega arith)
    below (suc n) (suc m) h =
        omega (arith, bit_or_step (suc m) 0, below n (suc m / 2) (omega arith))

pub pow_suc : (n : ℕ) → 2 ^ suc n ≡ 2 * 2 ^ n
pow_suc n = omega arith

pub pow_pos : (n : ℕ) → 1 ≤ 2 ^ n
pow_pos zero = omega arith
pow_pos (suc n) = omega (arith, pow_suc n, pow_pos n)

pub pow_mono : (k n : ℕ) → k ≤ n → 2 ^ k ≤ 2 ^ n
pow_mono zero n h = pow_pos n
pow_mono (suc k) zero h = absurd (omega arith)
pow_mono (suc k) (suc n) h = omega (arith, pow_suc k, pow_suc n, pow_mono k n (omega arith))

-- The digits of a word above the lowest.
div_double : (x p : ℕ) → 0 < p → x / (2 * p) ≡ x / 2 / p
div_double x p h = sym (div-div-eq-div-mul x 2 p)

mod_double : (x p : ℕ) → 0 < p → x % (2 * p) ≡ x / 2 % p * 2 + x % 2
mod_double x p h =
    omega (
      arith,
      div-add-mod x (2 * p),
      div-add-mod (x / 2) p,
      ap (λ (t : ℕ). p * t) (div_double x p h),
    )

-- `x & ((1 << n) - 1)` keeps the low n bits.
pub bit_and_low : (n x : ℕ) → bit_and x (2 ^ n - 1) ≡ x % 2 ^ n
bit_and_low zero x = omega (arith, bit_and-zero x)
bit_and_low (suc n) x = rw (pow_suc n) (
    omega (
      arith,
      bit_and_step x (2 * 2 ^ n - 1),
      pow_pos n,
      mod_double x (2 ^ n) (pow_pos n),
      let e : (2 * 2 ^ n - 1) / 2 ≡ 2 ^ n - 1 = omega (arith, pow_pos n) in
          rw (← e) at (bit_and_low n (x / 2)),
    ))

-- `x & ~(2^k - 1)` in a word of n bits clears the low k bits.
pub bit_and_high : (n k x : ℕ) → x < 2 ^ n → k ≤ n → bit_and x (2 ^ n - 2 ^ k) ≡ x / 2 ^ k * 2 ^ k
bit_and_high zero zero x h le = omega (arith, bit_and-zero x)
bit_and_high zero (suc k) x h le = absurd (omega arith)
bit_and_high (suc n) zero x h le = omega (arith, bit_and_low (suc n) x, mod-eq_of_lt h)
bit_and_high (suc n) (suc k) x h le =
    rw (pow_suc n, pow_suc k)
      (omega (
        arith,
        pow_suc n,
        bit_and_step x (2 * 2 ^ n - 2 * 2 ^ k),
        ap (λ (t : ℕ). 2 ^ k * t) (div_double x (2 ^ k) (pow_pos k)),
        let e : (2 * 2 ^ n - 2 * 2 ^ k) / 2 ≡ 2 ^ n - 2 ^ k = omega arith in
            rw (← e) at (bit_and_high n k (x / 2) (omega (arith, pow_suc n)) (omega arith)),
      ))

-- `(hi << k) | lo` puts two fields side by side, where the low one fits k bits.
pub bit_or_join : (k hi lo : ℕ) → lo < 2 ^ k → bit_or (hi * 2 ^ k) lo ≡ hi * 2 ^ k + lo
bit_or_join zero hi lo h =
    let e : lo ≡ 0 = omega arith in rw (e, bit_or-zero (hi * 2 ^ 0)) (omega arith)
bit_or_join (suc k) hi lo h =
    let double : hi * 2 ^ suc k ≡ hi * 2 ^ k * 2 =
      omega (arith, ap (λ (t : ℕ). hi * t) (pow_suc k)) in
    rw (double, bit_or_step (hi * 2 ^ k * 2) lo)
      (omega (
        arith,
        let e : hi * 2 ^ k * 2 / 2 ≡ hi * 2 ^ k = omega arith in
            rw (← e) at (bit_or_join k hi (lo / 2) (omega (arith, pow_suc k))),
      ))
