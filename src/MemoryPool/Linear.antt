-- ===== src/MemoryPool/Linear.antt =====
-- class LinearAllocator: software/libstf/memory_pool.hpp lines 244-256 and memory_pool.cpp lines
-- 364-387. `size_t` wraps at 2 ^ 64, and the masks are those of the source.
pub mod Grants
use Prim.Native.Nat.{bit_and}
use libstf.Base.{
  ℕ, ◌+◌, ◌-◌, ◌*◌, ◌/◌, ◌%◌, ◌^◌, ◌≤◌, ◌<◌, ◌≡◌, Bool, true, false, arith, ltb, if◌then◌else◌,
}
use libstf.Base.Word.{u64_mod, wrap_add, wrap_sub, bit_and_high, pow_pos, pow_mono}
use native.Mathlib.Nat.{div-mul-le_self, lt-div-mul-add, mul-mod_left}

pub record LinearAllocator : Type 0 where
  pub buffer : ℕ
  pub size : ℕ
  pub offset : ℕ

-- The constructor, with the block that `std::aligned_alloc` returned.
abbrev pub init : ℕ → ℕ → LinearAllocator
init buffer size = record { buffer = buffer; size = size; offset = 0 }

-- `(offset_ + alignment - 1) & ~(alignment - 1)`
unfoldable pub aligned_offset : ℕ → ℕ → ℕ
aligned_offset offset alignment =
    bit_and (wrap_sub u64_mod (wrap_add u64_mod offset alignment) 1)
      (u64_mod - 1 - wrap_sub u64_mod alignment 1)

-- The result, the value of `*out` after the call, and the allocator.
unfoldable pub allocate : ℕ → ℕ → ℕ → LinearAllocator → Bool × ℕ × LinearAllocator
allocate size alignment out a =
    let aligned = aligned_offset a.offset alignment in
    let end_offset = wrap_add u64_mod aligned size in
    if ltb a.size end_offset
    then (false, out, a)
    else (true, a.buffer + aligned, record a { offset = end_offset })

-- `free` does nothing.
abbrev pub free : ℕ → LinearAllocator → LinearAllocator
free ptr a = a

-- The smallest multiple of a power of two that is not below the offset.
pub aligned_offset_lem :
    (k offset : ℕ)
    → k ≤ 63
    → offset + 2 ^ k ≤ u64_mod
    → aligned_offset offset (2 ^ k) ≡ (offset + 2 ^ k - 1) / 2 ^ k * 2 ^ k
unfolding aligned_offset
aligned_offset_lem k offset hk h =
    let sum_lem : wrap_sub u64_mod (wrap_add u64_mod offset (2 ^ k)) 1 ≡ offset + 2 ^ k - 1 =
      omega (arith, pow_pos k) in
    let mask_lem : u64_mod - 1 - wrap_sub u64_mod (2 ^ k) 1 ≡ 2 ^ 64 - 2 ^ k =
      omega (arith, pow_pos k, pow_mono k 63 hk) in
    rw (sum_lem, mask_lem)
      (bit_and_high 64 k (offset + 2 ^ k - 1) (omega (arith, pow_pos k)) (omega arith))

-- What the aligned offset is worth: it lies at or above the offset, by less than the alignment, and
-- is a multiple of it.
pub aligned_offset_bounds :
    (k offset : ℕ)
    → k ≤ 63
    → offset + 2 ^ k ≤ u64_mod
    → (offset ≤ aligned_offset offset (2 ^ k))
      × (aligned_offset offset (2 ^ k) < offset + 2 ^ k)
      × (aligned_offset offset (2 ^ k) % 2 ^ k ≡ 0)
aligned_offset_bounds k offset hk h = rw (aligned_offset_lem k offset hk h) (
  omega (
    arith,
    pow_pos k,
    div-mul-le_self (offset + 2 ^ k - 1) (2 ^ k),
    lt-div-mul-add {a = offset + 2 ^ k - 1} (pow_pos k),
  ),
  omega (arith, pow_pos k, div-mul-le_self (offset + 2 ^ k - 1) (2 ^ k)),
  mul-mod_left ((offset + 2 ^ k - 1) / 2 ^ k) (2 ^ k),
)
