-- ===== src/MemoryPool/Linear/Grants.antt =====
-- LinearAllocator::allocate (software/libstf/memory_pool.cpp lines 377-385): which requests it
-- grants, and what block it hands out.
use libstf.Base.{
  ℕ, ◌+◌, ◌-◌, ◌*◌, ◌/◌, ◌%◌, ◌^◌, ◌≤◌, ◌<◌, ◌≡◌, ◌⊎◌, inl, inr, refl, true, false, arith, suc,
  dec_le, dec_lt, lt→ltb, le→ltb,
}
use libstf.Base.Word.{u64_mod, wrap_add}
use libstf.MemoryPool.Linear.{LinearAllocator, allocate, aligned_offset, aligned_offset_bounds}
use native.Mathlib.Nat.{div-add-mod, mul-le-mul_left, add-sub_cancel_left}

-- Two multiples of p that are less than p apart are in order.
multiple_le : (p a b : ℕ) → a % p ≡ 0 → b % p ≡ 0 → a < b + p → a ≤ b
multiple_le p a b ha hb h =
    let qa : p * (a / p) ≡ a = omega (arith, div-add-mod a p) in
    let qb : p * (b / p) ≡ b = omega (arith, div-add-mod b p) in
    elim (dec_le (a / p) (b / p)) [
      | yes q ↦ omega (arith, mul-le-mul_left p q)
      | no q ↦
          let q' : suc (b / p) ≤ a / p = omega arith in absurd (omega (arith, mul-le-mul_left p q'))
    ]

-- No multiple of the alignment at or above the offset lies below the aligned offset.
pub aligned_offset_least :
    (k offset o : ℕ)
    → k ≤ 63
    → offset + 2 ^ k ≤ u64_mod
    → offset ≤ o
    → o % 2 ^ k ≡ 0
    → aligned_offset offset (2 ^ k) ≤ o
aligned_offset_least k offset o hk h le m =
    let b = aligned_offset_bounds k offset hk h in
    multiple_le (2 ^ k) (aligned_offset offset (2 ^ k)) o b.2 m (omega arith)

-- A block at `ptr` of `size` bytes, in the free part of `a` at a multiple of the alignment, which
-- `a'` no longer counts as free.
pub record Granted (size alignment ptr : ℕ) (a a' : LinearAllocator) : Type 0 where
  pub above : a.buffer + a.offset ≤ ptr
  pub near : ptr < a.buffer + a.offset + alignment
  pub ends : ptr + size ≡ a.buffer + a'.offset
  pub within : a'.offset ≤ a.size
  pub is_aligned : (ptr - a.buffer) % alignment ≡ 0
  pub same_buffer : a'.buffer ≡ a.buffer
  pub same_size : a'.size ≡ a.size

-- No multiple of the alignment leaves room for the block.
abbrev pub IsFull : ℕ → ℕ → LinearAllocator → Type 0
IsFull size alignment a = (o : ℕ) → a.offset ≤ o → o % alignment ≡ 0 → a.size < o + size

module _ (k size out : ℕ) (a : LinearAllocator) (hk : k ≤ 63)
    (h : a.offset + 2 ^ k + size ≤ u64_mod) where
  -- For an alignment that is a power of two, and where offset, alignment and size do not pass 2 ^ 64
  -- together: `allocate` returns false with everything as it was, and no aligned place in the rest of
  -- the block has room, or it grants a block in the free part.
  pub allocate-Granted :
      ((allocate size (2 ^ k) out a ≡ (false, out, a)) × IsFull size (2 ^ k) a)
      ⊎ ((ptr : ℕ) × (a' : LinearAllocator) × (allocate size (2 ^ k) out a ≡ (true, ptr, a'))
          × Granted size (2 ^ k) ptr a a')
  unfolding allocate
  allocate-Granted =
      let b = aligned_offset_bounds k a.offset hk (omega arith) in
      let o = aligned_offset a.offset (2 ^ k) in
      let no_wrap : wrap_add u64_mod o size ≡ o + size = omega arith in
      elim (dec_lt a.size (o + size)) [
        | yes full ↦ inl (
          rw (no_wrap, lt→ltb _ _ full),
          λ p le m. omega (arith, aligned_offset_least k a.offset p hk (omega arith) le m),
        )
        | no room ↦ inr (
          a.buffer + o,
          record a { offset = o + size },
          rw (no_wrap, le→ltb a.size (o + size) (omega arith)),
          record {
            near = omega arith;
            above = omega arith;
            ends = omega arith;
            within = omega arith;
            is_aligned = (rw add-sub_cancel_left b.2);
            same_buffer = refl;
            same_size = refl;
          },
        )
      ]

-- A size for which the end offset passes 2 ^ 64 is granted whenever the wrapped end is within the
-- block, and the allocator then counts memory before the block as free again.
pub allocate_overflow :
    (k size out : ℕ) (a : LinearAllocator)
    → k ≤ 63
    → a.offset + 2 ^ k ≤ u64_mod
    → size < u64_mod
    → u64_mod ≤ aligned_offset a.offset (2 ^ k) + size
    → aligned_offset a.offset (2 ^ k) + size - u64_mod ≤ a.size
    → let r = allocate size (2 ^ k) out a in
      (r.0 ≡ true) × (r.2.offset + u64_mod ≡ aligned_offset a.offset (2 ^ k) + size)
unfolding allocate
allocate_overflow k size out a hk h small over le =
    let o = aligned_offset a.offset (2 ^ k) in
    let b = aligned_offset_bounds k a.offset hk h in
    let wrapped : wrap_add u64_mod o size ≡ o + size - u64_mod = omega arith in
    rw (wrapped, le→ltb a.size (o + size - u64_mod) le) (refl, omega arith)
