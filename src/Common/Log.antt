-- ===== src/Common/Log.antt =====
-- floor_log2 and the sizes of stream types (software/libstf/common.hpp lines 18 and 61-107).
use libstf.Base.{
  ℕ, zero, suc, ◌*◌, ◌/◌, ◌^◌, ◌≤◌, ◌<◌, ◌≡◌, refl, arith, dec_lt, ◌-◌, ◌⊎◌, inl, inr,
}
use libstf.Base.Word.{u32_mod, wrap_add, pow_suc, lt_acc}
use libstf.Base.Action.{err, invalid_argument}
use libstf.Common.{
  half_lt, floor_log2, floor_log2_acc, StreamType, byte_t, int32_t, int64_t, float_t, double_t,
  int16_t, int128_t, num_types, size_of, value_size, dispatch_type,
}
use mathlib.Core.Logic.{dif_pos, dif_neg}
use native.Mathlib.Bridge.{le_prop}
use mathlib.Core.WellFounded.{Acc}

floor_log2_acc_zero : (val : ℕ) (w : Acc ◌<◌ val) → val ≡ 0 → floor_log2_acc val w ≡ u32_mod - 1
unfolding floor_log2_acc
floor_log2_acc_zero val (Acc.intro _ smaller) e =
    let none : ¬ (0 < val) = λ h. omega arith in rw (dif_neg _ none)

-- A positive word of n bits has its floored logarithm below n.
floor_log2_acc_lem :
    (n val : ℕ) (w : Acc ◌<◌ val)
    → 0 < val
    → val < 2 ^ n
    → n ≤ 32
    → (floor_log2_acc val w < n)
      × (2 ^ floor_log2_acc val w ≤ val)
      × (val < 2 * 2 ^ floor_log2_acc val w)
unfolding floor_log2_acc
floor_log2_acc_lem zero val (Acc.intro _ smaller) pos h le = absurd (omega arith)
floor_log2_acc_lem (suc n) val (Acc.intro _ smaller) pos h le =
    let r = floor_log2_acc (val / 2) (smaller (val / 2) (half_lt val pos)) in
    rw (dif_pos _ le_prop pos) (elim (dec_lt 1 val) [
      | no one ↦
          let base : r ≡ u32_mod - 1 =
            floor_log2_acc_zero (val / 2) (smaller (val / 2) (half_lt val pos)) (omega arith) in
          let e : wrap_add u32_mod 1 r ≡ 0 = omega arith in
          rw e (omega arith, omega arith, omega arith)
      | yes more ↦
          let ih =
            floor_log2_acc_lem n (val / 2) (smaller (val / 2) (half_lt val pos)) (omega arith)
              (omega (arith, pow_suc n)) (omega arith) in
          let e : wrap_add u32_mod 1 r ≡ suc r = omega (arith, ih) in
          rw e (omega (arith, ih), omega (arith, ih, pow_suc r), omega (arith, ih, pow_suc r))
    ])

-- The logarithm of a positive word is the exponent of the largest power of two that it reaches, and
-- that of 0 is the all-ones word.
pub floor_log2_lem :
    (val : ℕ)
    → val < u32_mod
    → ((val ≡ 0) × (floor_log2 val ≡ u32_mod - 1))
      ⊎ ((floor_log2 val < 32) × (2 ^ floor_log2 val ≤ val) × (val < 2 * 2 ^ floor_log2 val))
unfolding floor_log2
floor_log2_lem val h = elim (dec_lt 0 val) [
  | yes pos ↦ inr (floor_log2_acc_lem 32 val (lt_acc val) pos h (omega arith))
  | no zero_val ↦ inl (omega arith, floor_log2_acc_zero val (lt_acc val) (omega arith))
]

-- A type is dispatched to a value type of its own size, but for the one that has no value type, and
-- the invalid type has no size either.
pub dispatch-size :
    (t : StreamType)
    → (dispatch_type t value_size ≡ size_of t)
      ⊎ ((t ≡ int128_t) × (dispatch_type t value_size ≡ err invalid_argument))
unfolding dispatch_type size_of
dispatch-size byte_t = inl refl
dispatch-size int32_t = inl refl
dispatch-size int64_t = inl refl
dispatch-size float_t = inl refl
dispatch-size double_t = inl refl
dispatch-size int16_t = inl refl
dispatch-size int128_t = inr (refl, refl)
dispatch-size num_types = inl refl
