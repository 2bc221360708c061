-- ===== src/MemoryPool/Simple/Outcomes.antt =====
-- What SimpleMemoryPool::allocate and reallocate return and hand out (software/libstf/memory_pool.cpp
-- lines 405-464).
use libstf.Base.{
  ℕ, ◌+◌, ◌-◌, ◌%◌, ◌^◌, ◌<◌, ◌≡◌, ◌⊎◌, inl, inr, some, min, arith, ne→==, ap, ◌∙◌, sym,
}
use libstf.Base.Action.{ok}
use libstf.ErrorHandling.{StatusCode, status, status_ok}
use libstf.MemoryPool.Blocks.{lookup, emplace, IsApart, IsApart-above, lookup_above}
use libstf.MemoryPool.Linear.{LinearAllocator}
use libstf.MemoryPool.Linear.Grants.{Granted, IsFull, allocate-Granted}
use libstf.MemoryPool.Simple.{SimpleMemoryPool, allocate, reallocate, track, move_block}
use libstf.MemoryPool.Simple.Invariant.{
  Inv, IsRequest, is_power_of_two_pow, no_overflow, live_non_null,
}
use native.Mathlib.Nat.{mod-add-mod}

module _ (size k : ℕ) (request : IsRequest size k) (pos : 0 < size) where
  pub allocate_cases :
      (out : ℕ) (p : SimpleMemoryPool)
      → Inv p
      → ((allocate size (2 ^ k) out p
            ≡ (ok (status StatusCode.out_of_memory "Unable to allocate memory!", out), p))
          × IsFull size (2 ^ k) p.linear_allocator)
        ⊎ ((ptr : ℕ) × (linear : LinearAllocator) × (allocate size (2 ^ k) out p
              ≡ (ok (status_ok, ptr), track ptr size (record p { linear_allocator = linear })))
            × Granted size (2 ^ k) ptr p.linear_allocator linear)
  unfolding allocate
  allocate_cases out p v =
      rw (ne→== size 0 (omega arith), is_power_of_two_pow k (omega arith))
        (elim (allocate-Granted k size out p.linear_allocator (omega arith)
          (no_overflow size k request p v)) [
            | inl (e, full) ↦ inl (rw e, full)
            | inr (ptr, linear, e, g) ↦ inr (ptr, linear, rw e, g)
          ])

  pub reallocate_cases :
      (old_size ptr : ℕ) (p : SimpleMemoryPool)
      → lookup ptr p.allocated_buffers ≡ some old_size
      → Inv p
      → ((reallocate old_size size (2 ^ k) ptr p
            ≡ (ok (status StatusCode.out_of_memory "Unable to reallocate memory!", ptr), p))
          × IsFull size (2 ^ k) p.linear_allocator)
        ⊎ ((new_ptr : ℕ) × (linear : LinearAllocator) × (reallocate old_size size (2 ^ k) ptr p ≡ (
          ok (status_ok, new_ptr),
          move_block old_size size ptr new_ptr (record p { linear_allocator = linear }),
        ))
            × Granted size (2 ^ k) new_ptr p.linear_allocator linear)
  unfolding reallocate
  reallocate_cases old_size ptr p live v =
      rw
        (
          ne→== size 0 (omega arith),
          ne→== ptr 0 (live_non_null ptr old_size p live v),
          is_power_of_two_pow k (omega arith),
        )
        (elim (allocate-Granted k size 0 p.linear_allocator (omega arith)
          (no_overflow size k request p v)) [
            | inl (e, full) ↦ inl (rw e, full)
            | inr (new_ptr, linear, e, g) ↦ inr (new_ptr, linear, rw e, g)
          ])

  pub lookup_new :
      (ptr : ℕ) (p : SimpleMemoryPool) (linear : LinearAllocator)
      → Inv p
      → Granted size (2 ^ k) ptr p.linear_allocator linear
      → lookup ptr (emplace ptr size p.allocated_buffers) ≡ some size
  lookup_new ptr p linear v g = ground (
    arith,
    lookup_above p.linear_allocator.buffer (p.linear_allocator.buffer + p.linear_allocator.offset)
        ptr p.allocated_buffers v.within g.above,
  )

  same_residue :
      (ptr : ℕ) (a a' : LinearAllocator)
      → Granted size (2 ^ k) ptr a a'
      → ptr % 2 ^ k ≡ a.buffer % 2 ^ k
  same_residue ptr a a' g =
      let d = ptr - a.buffer in
      let apart : ptr ≡ d + a.buffer = omega arith in
      let none_left : 0 + a.buffer ≡ a.buffer = omega arith in
      ap (λ (t : ℕ). t % 2 ^ k) apart
      ∙ sym (mod-add-mod d (2 ^ k) a.buffer)
      ∙ ap (λ (t : ℕ). (t + a.buffer) % 2 ^ k) g.is_aligned
      ∙ ap (λ (t : ℕ). t % 2 ^ k) none_left

  -- For a size from 1 to 2 ^ 62 and an alignment of a power of two up to 2 ^ 62: `allocate` reports that
  -- no aligned place in the rest of the block has room, with the pool and
  -- `*out` as they were, or hands out a block of the asked size over no live block, at an address
  -- that is aligned as far as the base of the pool is.
  pub allocate_blocks :
      (out : ℕ) (p : SimpleMemoryPool)
      → Inv p
      → ((allocate size (2 ^ k) out p
            ≡ (ok (status StatusCode.out_of_memory "Unable to allocate memory!", out), p))
          × IsFull size (2 ^ k) p.linear_allocator)
        ⊎ ((ptr : ℕ) × (q : SimpleMemoryPool) × (allocate size (2 ^ k) out p
              ≡ (ok (status_ok, ptr), q))
            × (lookup ptr q.allocated_buffers ≡ some size)
            × IsApart ptr size p.allocated_buffers
            × (ptr % 2 ^ k ≡ p.linear_allocator.buffer % 2 ^ k))
  allocate_blocks out p v = elim (allocate_cases out p v) [
    | inl r ↦ inl r
    | inr (ptr, linear, e, g) ↦ inr (
      ptr,
      track ptr size (record p { linear_allocator = linear }),
      e,
      lookup_new ptr p linear v g,
      IsApart-above p.linear_allocator.buffer
          (p.linear_allocator.buffer + p.linear_allocator.offset) ptr size p.allocated_buffers
          v.within g.above,
      same_residue ptr p.linear_allocator linear g,
    )
  ]

  -- For a size from 1 to 2 ^ 62 and an alignment of a power of two up to 2 ^ 62: `reallocate` of a live
  -- block reports that there is no room, with the pool and `*ptr` as they
  -- were, or moves it to a block over no live block: the bytes that both sizes have are copied, and
  -- none below the new block changes.
  pub reallocate_copies :
      (old_size ptr : ℕ) (p : SimpleMemoryPool)
      → lookup ptr p.allocated_buffers ≡ some old_size
      → Inv p
      → ((reallocate old_size size (2 ^ k) ptr p
            ≡ (ok (status StatusCode.out_of_memory "Unable to reallocate memory!", ptr), p))
          × IsFull size (2 ^ k) p.linear_allocator)
        ⊎ ((new_ptr : ℕ) × (q : SimpleMemoryPool) × (reallocate old_size size (2 ^ k) ptr p
              ≡ (ok (status_ok, new_ptr), q))
            × IsApart new_ptr size p.allocated_buffers
            × ((i : ℕ) → i < min old_size size → q.memory (new_ptr + i) ≡ p.memory (ptr + i))
            × ((a : ℕ) → a < new_ptr → q.memory a ≡ p.memory a))
  reallocate_copies old_size ptr p live v = elim (reallocate_cases old_size ptr p live v) [
    | inl r ↦ inl r
    | inr (new_ptr, linear, e, g) ↦ inr (
      new_ptr,
      move_block old_size size ptr new_ptr (record p { linear_allocator = linear }),
      e,
      IsApart-above p.linear_allocator.buffer
          (p.linear_allocator.buffer + p.linear_allocator.offset) new_ptr size p.allocated_buffers
          v.within g.above,
      λ i h. ground arith,
      λ a h. ground arith,
    )
  ]
