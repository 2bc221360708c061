-- ===== src/MemoryPool/HugePage/Counters.antt =====
-- The counters of HugePageMemoryPool against the live allocations of its arena
-- (software/libstf/memory_pool.cpp lines 168-192 and 227-297).
use libstf.Base.{
  ℕ, ◌%◌, ◌<◌, ◌≡◌, ap, ◌∙◌, ◌≢◌, inl, inr, some, List, arith, length, ◌==◌, eq→==, ne→==,
  ℕ_discrete, Bool-cases,
}
use libstf.Base.Word.{u64_mod}
use libstf.Base.Action.{Action, ok, ◌>>=◌, >>=-post, pure}
use libstf.ErrorHandling.{Status, status_ok}
use libstf.MemoryPool.Bounds.{Region, is_power_of_two}
use libstf.MemoryPool.Blocks.{lookup, erase, total_size, total_size-erase, length-erase}
use libstf.MemoryPool.Jemalloc.{Jemalloc, Documented}
use libstf.MemoryPool.HugePage.{
  Pool, get_tcache_id, allocate_with, reallocate_with, allocate, free, reallocate, count_gone,
}

module _ (j : Jemalloc) (live : j.State → List Region) (doc : Documented j live) where
  -- The counters are the number and the bytes of the live allocations.
  pub record Counted (p : Pool j) : Type 0 where
    pub bytes : p.bytes_allocated ≡ total_size (live p.jemalloc) % u64_mod
    pub count : p.num_allocs ≡ length (live p.jemalloc) % u64_mod

  -- What a call that looks up the thread cache changes of the pool.
  abbrev SameCounts : Pool j → Pool j → Type 0
  SameCounts p q =
      (q.bytes_allocated ≡ p.bytes_allocated)
      × (q.num_allocs ≡ p.num_allocs)
      × (live q.jemalloc ≡ live p.jemalloc)
      × (q.zero_size_pointer ≡ p.zero_size_pointer)

  get_tcache_id-SameCounts : (thread : ℕ) (p : Pool j) → SameCounts p (get_tcache_id j thread p).1
  unfolding get_tcache_id
  get_tcache_id-SameCounts thread p = ground (arith, doc.tcache_create_lem p.jemalloc)

  allocate_with-Counted :
      (size alignment tc : ℕ) (p : Pool j)
      → size < u64_mod
      → Counted p
      → Counted (allocate_with j size alignment tc p).1
  allocate_with-Counted size alignment tc p h v =
      ground (arith, doc.mallocx_lem size alignment tc p.jemalloc)

  reallocate_with-Counted :
      (old_size size alignment ptr tc : ℕ) (p : Pool j)
      → old_size < u64_mod
      → size < u64_mod
      → lookup ptr (live p.jemalloc) ≡ some old_size
      → Counted p
      → Counted (reallocate_with j old_size size alignment ptr tc p).1
  reallocate_with-Counted old_size size alignment ptr tc p ho h e v = ground (
    arith,
    doc.rallocx_lem ptr old_size size alignment tc p.jemalloc,
    total_size-erase ptr old_size (live p.jemalloc),
    length-erase ptr old_size (live p.jemalloc),
  )

  -- After the thread cache of the thread is looked up, a call that keeps the counters right does so.
  with_tcache-Counted :
      {A : Type 0} (thread : ℕ) (f : ℕ → Action (Pool j) A) (p : Pool j)
      → ((tc : ℕ) (q : Pool j) → SameCounts p q → Counted (f tc q).1)
      → Counted p
      → Counted ((get_tcache_id j thread >>= f) p).1
  with_tcache-Counted thread f p keep v =
      let same = get_tcache_id-SameCounts thread p in
      >>=-post (λ r. Counted r.1) (get_tcache_id j thread) f p
        (λ tc _. keep tc (get_tcache_id j thread p).1 same)
        (λ _ _. record { bytes = ground arith; count = ground arith })

  Counted-same : {p q : Pool j} → SameCounts p q → Counted p → Counted q
  Counted-same s v = record { bytes = ground arith; count = ground arith }

  -- With jemalloc as documented, `allocate` of a size below 2 ^ 64 keeps the counters equal to the
  -- number and the bytes of the live allocations, whether it returns a block or not, or throws.
  pub allocate-Counted :
      (thread size alignment : ℕ) (p : Pool j)
      → size < u64_mod
      → Counted p
      → Counted (allocate j thread size alignment p).1
  unfolding allocate
  allocate-Counted thread size alignment p h v = elim (Bool-cases (size == 0)) [
    | inl e ↦ rw e v
    | inr e ↦ rw e (elim (Bool-cases (is_power_of_two alignment)) [
      | inr bad ↦ rw bad v
      | inl good ↦ rw good (
          with_tcache-Counted thread (allocate_with j size alignment) p
            (λ tc q same. allocate_with-Counted size alignment tc q h (Counted-same same v)) v)
    ])
  ]

  -- A block of the pool that is not the one of no bytes is live, with its size.
  abbrev pub Owned : ℕ → ℕ → Pool j → Type 0
  Owned ptr size p = ptr ≢ p.zero_size_pointer → lookup ptr (live p.jemalloc) ≡ some size

  dallocx-Counted :
      (ptr size tc : ℕ) (p q : Pool j)
      → size < u64_mod
      → lookup ptr (live p.jemalloc) ≡ some size
      → Counted p
      → SameCounts (count_gone j size p) q
      → Counted (record q { jemalloc = j.dallocx ptr tc q.jemalloc })
  dallocx-Counted ptr size tc p q h e v same =
      let gone =
        doc.dallocx_lem ptr size tc q.jemalloc (ap (lookup ptr) same.2 ∙ e)
        ∙ ap (erase ptr) same.2 in
      let bytes_lem = total_size-erase ptr size (live p.jemalloc) e in
      let count_lem = length-erase ptr size (live p.jemalloc) e in
      record { bytes = rw gone (omega (arith, v.bytes)); count = rw gone (omega (arith, v.count)) }

  -- A call of `free` with a size below 2 ^ 64, for a live allocation with its size or the pointer of
  -- size zero, that returns keeps the counters right.
  pub free-Counted :
      (thread ptr size : ℕ) (p : Pool j)
      → size < u64_mod
      → Owned ptr size p
      → Counted p
      → (free j thread ptr size p).0 ≡ ok tt
      → Counted (free j thread ptr size p).1
  unfolding free
  free-Counted thread ptr size p h owned v = elim (ℕ_discrete ptr p.zero_size_pointer) [
    | yes e ↦
        rw (eq→== _ _ e) (λ _. elim (Bool-cases (size == 0)) [ inl z ↦ rw z v | inr z ↦ rw z v ])
    | no ne ↦ rw (ne→== _ _ ne) (
        >>=-post (λ r. r.0 ≡ ok tt → Counted r.1) (get_tcache_id j thread)
          (λ tc q. (ok tt, record q { jemalloc = j.dallocx ptr tc q.jemalloc }))
          (count_gone j size p)
          (λ tc _ _.
            dallocx-Counted ptr size tc p _ h (owned ne) v
              (get_tcache_id-SameCounts thread (count_gone j size p)))
          (λ _ _ thrown. cc))
  ]

  -- A call of `reallocate` with sizes below 2 ^ 64, for a live allocation with its size or the pointer
  -- of size zero, that returns keeps the counters right.
  pub reallocate-Counted :
      (thread old_size size alignment ptr : ℕ) (p : Pool j) {r : Status × ℕ}
      → old_size < u64_mod
      → size < u64_mod
      → Owned ptr old_size p
      → Counted p
      → (reallocate j thread old_size size alignment ptr p).0 ≡ ok r
      → Counted (reallocate j thread old_size size alignment ptr p).1
  unfolding reallocate
  reallocate-Counted thread old_size size alignment ptr p {r} ho h owned v =
      elim (ℕ_discrete ptr p.zero_size_pointer) [
        | yes e ↦ rw (eq→== _ _ e) (elim (Bool-cases (old_size == 0)) [
          | inl z ↦ rw z (λ _. allocate-Counted thread size alignment p h v)
          | inr z ↦ rw z (λ _. v)
        ])
        | no ne ↦ rw (ne→== _ _ ne) (elim (Bool-cases (size == 0)) [
          | inl z ↦ rw z (
              >>=-post (λ x. x.0 ≡ ok r → Counted x.1) (free j thread ptr old_size)
                (λ _. pure (status_ok, p.zero_size_pointer)) p
                (λ a e _. free-Counted thread ptr old_size p ho owned v e) (λ _ _ thrown. cc))
          | inr z ↦ rw z (elim (Bool-cases (is_power_of_two alignment)) [
            | inr bad ↦ rw bad (λ _. v)
            | inl good ↦ rw good (λ _.
                with_tcache-Counted thread (reallocate_with j old_size size alignment ptr) p
                  (λ tc q same.
                    reallocate_with-Counted old_size size alignment ptr tc q ho h
                      (ap (lookup ptr) same.2 ∙ owned ne) (Counted-same same v))
                  v)
          ])
        ])
      ]
