-- ===== src/MemoryPool/Simple/Invariant.antt =====
-- The state that the calls of SimpleMemoryPool keep (software/libstf/memory_pool.cpp lines 397-474).
use libstf.Base.{
  ℕ, ◌+◌, ◌-◌, ◌%◌, ◌^◌, ◌≤◌, ◌<◌, ◌≡◌, ◌∙◌, ◌≢◌, ◌⊎◌, inl, inr, true, some, arith, length, eq→==,
  ne→==,
}
use libstf.Base.Word.{u64_mod, bit_and_low, pow_pos, pow_mono, wrap_sub}
use libstf.MemoryPool.Bounds.{is_power_of_two}
use libstf.MemoryPool.Blocks.{
  lookup, emplace, erase, total_size, Within, Disjoint, total_size-erase, length-erase, Within-mono,
  Within-erase, Disjoint-erase, IsApart-above, lookup_above, lookup-Within,
}
use libstf.MemoryPool.Linear.{LinearAllocator}
use libstf.MemoryPool.Linear.Grants.{Granted, allocate-Granted}
use libstf.MemoryPool.Simple.{
  SimpleMemoryPool, simple_allocator_size, allocate, free, reallocate, track, move_block,
}
use libstf.Base.{ℕ_discrete}
use native.Mathlib.Nat.{mod_self}

pub record Inv (p : SimpleMemoryPool) : Type 0 where
  -- The live blocks lie in the handed-out part of the linear allocator, none over another.
  pub within :
      Within p.linear_allocator.buffer
        (p.linear_allocator.buffer + p.linear_allocator.offset)
        p.allocated_buffers
  pub disjoint : Disjoint p.allocated_buffers
  -- The counters are those of the live blocks.
  pub bytes : p.bytes_allocated ≡ total_size p.allocated_buffers % u64_mod
  pub count : p.num_allocs ≡ length p.allocated_buffers % u64_mod
  pub fits : p.linear_allocator.offset ≤ p.linear_allocator.size
  pub capacity : p.linear_allocator.size ≡ simple_allocator_size
  pub non_null : 0 < p.linear_allocator.buffer
  pub base_aligned : p.linear_allocator.buffer % 64 ≡ 0

-- A power of two passes the assertion.
pub is_power_of_two_pow : (k : ℕ) → k ≤ 63 → is_power_of_two (2 ^ k) ≡ true
unfolding is_power_of_two
is_power_of_two_pow k h =
    let pred_lem : wrap_sub u64_mod (2 ^ k) 1 ≡ 2 ^ k - 1 =
      omega (arith, pow_pos k, pow_mono k 63 h) in
    rw (pred_lem, bit_and_low k (2 ^ k)) (eq→== (2 ^ k % 2 ^ k) 0 (mod_self (2 ^ k)))

-- A new block on top keeps the state.
pub track-Inv :
    (size alignment ptr : ℕ) (p : SimpleMemoryPool) (linear : LinearAllocator)
    → 0 < size
    → Granted size alignment ptr p.linear_allocator linear
    → Inv p
    → Inv (track ptr size (record p { linear_allocator = linear }))
track-Inv size alignment ptr p linear pos g v =
    let lo = p.linear_allocator.buffer in
    let hi = p.linear_allocator.buffer + p.linear_allocator.offset in
    rw (lookup_above lo hi ptr p.allocated_buffers v.within g.above, emplace)
      (record {
        within = (
          omega arith,
          pos,
          omega arith,
          Within-mono lo hi linear.buffer (linear.buffer + linear.offset) p.allocated_buffers
              (omega arith) (omega arith) v.within,
        );
        disjoint = (IsApart-above lo hi ptr size p.allocated_buffers v.within g.above, v.disjoint);
        bytes = omega arith;
        count = omega arith;
        fits = omega arith;
        capacity = g.same_size ∙ v.capacity;
        non_null = omega arith;
        base_aligned = rw g.same_buffer v.base_aligned;
      })

pub free-Inv :
    (ptr size alignment : ℕ) (p : SimpleMemoryPool)
    → lookup ptr p.allocated_buffers ≡ some size
    → Inv p
    → Inv (free ptr size alignment p)
unfolding free
free-Inv ptr size alignment p e v =
    let lo = p.linear_allocator.buffer in
    let hi = p.linear_allocator.buffer + p.linear_allocator.offset in
    let live = lookup-Within lo hi ptr size p.allocated_buffers v.within e in
    let bytes_lem = total_size-erase ptr size p.allocated_buffers e in
    let count_lem = length-erase ptr size p.allocated_buffers e in
    rw (ne→== ptr 0 (omega arith)) (record {
      within = Within-erase lo hi ptr p.allocated_buffers v.within;
      disjoint = Disjoint-erase ptr p.allocated_buffers v.disjoint;
      bytes = omega arith;
      count = omega arith;
      fits = v.fits;
      capacity = v.capacity;
      non_null = v.non_null;
      base_aligned = v.base_aligned;
    })

-- A block that moves to the top keeps the state.
pub move_block-Inv :
    (old_size new_size alignment ptr new_ptr : ℕ) (p : SimpleMemoryPool) (linear : LinearAllocator)
    → 0 < new_size
    → new_size < u64_mod
    → lookup ptr p.allocated_buffers ≡ some old_size
    → Granted new_size alignment new_ptr p.linear_allocator linear
    → Inv p
    → Inv (move_block old_size new_size ptr new_ptr (record p { linear_allocator = linear }))
move_block-Inv old_size new_size alignment ptr new_ptr p linear pos small e g v =
    let lo = p.linear_allocator.buffer in
    let hi = p.linear_allocator.buffer + p.linear_allocator.offset in
    let rest = erase ptr p.allocated_buffers in
    let live = lookup-Within lo hi ptr old_size p.allocated_buffers v.within e in
    let kept = Within-erase lo hi ptr p.allocated_buffers v.within in
    let bytes_lem = total_size-erase ptr old_size p.allocated_buffers e in
    let count_lem = length-erase ptr old_size p.allocated_buffers e in
    rw (lookup_above lo hi new_ptr rest kept g.above, emplace)
      (record {
        within = (
          omega arith,
          pos,
          omega arith,
          Within-mono lo hi linear.buffer (linear.buffer + linear.offset) rest (omega arith)
              (omega arith) kept,
        );
        disjoint = (
          IsApart-above lo hi new_ptr new_size rest kept g.above,
          Disjoint-erase ptr p.allocated_buffers v.disjoint,
        );
        bytes = ground arith;
        count = omega arith;
        fits = omega arith;
        capacity = g.same_size ∙ v.capacity;
        non_null = omega arith;
        base_aligned = rw g.same_buffer v.base_aligned;
      })

-- A live block is not at nullptr, and freeing nullptr changes nothing.
pub live_non_null :
    (ptr size : ℕ) (p : SimpleMemoryPool)
    → lookup ptr p.allocated_buffers ≡ some size
    → Inv p
    → ptr ≢ 0
live_non_null ptr size p e v =
    let lo = p.linear_allocator.buffer in
    let hi = p.linear_allocator.buffer + p.linear_allocator.offset in
    let live = lookup-Within lo hi ptr size p.allocated_buffers v.within e in omega arith

free_null :
    (size alignment ptr : ℕ) (p : SimpleMemoryPool)
    → ptr ≡ 0
    → Inv p
    → Inv (free ptr size alignment p)
unfolding free
free_null size alignment ptr p e v = rw (eq→== ptr 0 e) v

-- What the environment asks of a size and an alignment: a power of two that a page fits.
abbrev pub IsRequest : ℕ → ℕ → Type 0
IsRequest size k = (size ≤ 2 ^ 62) × (k ≤ 62)

module _ (size k : ℕ) (request : IsRequest size k) where
  pub no_overflow :
      (p : SimpleMemoryPool) → Inv p → p.linear_allocator.offset + 2 ^ k + size ≤ u64_mod
  no_overflow p v = omega (arith, pow_mono k 62 request.1)

  pub allocate-Inv : (out : ℕ) (p : SimpleMemoryPool) → Inv p → Inv (allocate size (2 ^ k) out p).1
  unfolding allocate
  allocate-Inv out p v = elim (ℕ_discrete size 0) [
    | yes none_asked ↦ rw (eq→== size 0 none_asked) v
    | no some_asked ↦
        rw (ne→== size 0 some_asked, is_power_of_two_pow k (omega arith))
          (elim (allocate-Granted k size out p.linear_allocator (omega arith) (no_overflow p v)) [
            | inl (e, _) ↦ rw e v
            | inr (ptr, linear, e, g) ↦ rw e (track-Inv size (2 ^ k) ptr p linear (omega arith) g v)
          ])
  ]

  -- `ptr` is nullptr, with an old size of 0, or a live block of the old size.
  pub reallocate-Inv :
      (old_size ptr : ℕ) (p : SimpleMemoryPool)
      → ((ptr ≡ 0) × (old_size ≡ 0)) ⊎ (lookup ptr p.allocated_buffers ≡ some old_size)
      → Inv p
      → Inv (reallocate old_size size (2 ^ k) ptr p).1
  unfolding reallocate
  reallocate-Inv old_size ptr p (inl (null, empty)) v = elim (ℕ_discrete size 0) [
    | yes none_asked ↦ rw (eq→== size 0 none_asked) (free_null old_size (2 ^ k) ptr p null v)
    | no some_asked ↦
        rw (ne→== size 0 some_asked, eq→== ptr 0 null, eq→== old_size 0 empty)
          (allocate-Inv ptr p v)
  ]
  reallocate-Inv old_size ptr p (inr live) v = elim (ℕ_discrete size 0) [
    | yes none_asked ↦ rw (eq→== size 0 none_asked) (free-Inv ptr old_size (2 ^ k) p live v)
    | no some_asked ↦
        rw
          (
            ne→== size 0 some_asked,
            ne→== ptr 0 (live_non_null ptr old_size p live v),
            is_power_of_two_pow k (omega arith),
          )
          (elim (allocate-Granted k size 0 p.linear_allocator (omega arith) (no_overflow p v)) [
            | inl (e, _) ↦ rw e v
            | inr (new_ptr, linear, e, g) ↦ rw e (
                move_block-Inv old_size size (2 ^ k) ptr new_ptr p linear (omega arith)
                  (omega arith) live g v)
          ])
  ]
