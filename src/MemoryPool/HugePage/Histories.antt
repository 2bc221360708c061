-- ===== src/MemoryPool/HugePage/Histories.antt =====
-- Histories of calls on a HugePageMemoryPool from its constructor on (software/libstf/memory_pool.cpp
-- lines 90-158 and 227-297).
use libstf.Base.{
  ℕ, ◌⊎◌, inl, inr, refl, ◌%◌, ◌<◌, ◌≡◌, ap, sym, ◌∙◌, Option, List, [], arith, length,
}
use mathlib.Core.Path.{subst}
use libstf.Base.Word.{u64_mod}
use libstf.Base.Action.{Result, Failure, ok, err}
use libstf.ErrorHandling.{Status}
use libstf.MemoryPool.Bounds.{Region}
use libstf.MemoryPool.Blocks.{total_size}
use libstf.MemoryPool.Jemalloc.{Jemalloc, Documented}
use libstf.MemoryPool.HugePage.{
  Pool, construct, get_number_of_available_huge_pages, allocate, free, reallocate,
}
use libstf.MemoryPool.HugePage.Counters.{
  Counted, Owned, allocate-Counted, free-Counted, reallocate-Counted,
}

Result-cases : {A : Type 0} (r : Result A) → ((a : A) × (r ≡ ok a)) ⊎ ((e : Failure) × (r ≡ err e))
Result-cases (ok a) = inl (a, refl)
Result-cases (err e) = inr (e, refl)

module _ (j : Jemalloc) (live : j.State → List Region) (doc : Documented j live) where
  -- A call of some thread by a client that gives back or resizes live blocks only, with their size.
  -- An allocation may fail; a call of free or reallocate returned.
  pub data Step (p q : Pool j) : Type 0 where
    allocates :
        (thread size alignment : ℕ)
        → size < u64_mod
        → q ≡ (allocate j thread size alignment p).1
        → Step p q
    frees :
        (thread ptr size : ℕ)
        → size < u64_mod
        → Owned j live doc ptr size p
        → free j thread ptr size p ≡ (ok tt, q)
        → Step p q
    reallocates :
        (thread old_size size alignment ptr : ℕ) (r : Status × ℕ)
        → old_size < u64_mod
        → size < u64_mod
        → Owned j live doc ptr old_size p
        → reallocate j thread old_size size alignment ptr p ≡ (ok r, q)
        → Step p q

  pub data Reach (p : Pool j) : Pool j → Type 0 where
    here : Reach p p
    next : {q r : Pool j} → Reach p q → Step q r → Reach p r

  Step-Counted : (p q : Pool j) → Step p q → Counted j live doc p → Counted j live doc q
  Step-Counted p q (allocates thread size alignment h e) v =
      subst (Counted j live doc) (sym e) (allocate-Counted j live doc thread size alignment p h v)
  Step-Counted p q (frees thread ptr size h owned e) v =
      subst (Counted j live doc) (ap (λ x. x.1) e)
        (free-Counted j live doc thread ptr size p h owned v (ap (λ x. x.0) e))
  Step-Counted p q (reallocates thread old_size size alignment ptr r ho h owned e) v =
      subst (Counted j live doc) (ap (λ x. x.1) e) (
        reallocate-Counted j live doc thread old_size size alignment ptr p ho h owned v
          (ap (λ x. x.0) e))

  -- A pool that was just made has the new arena and no allocation.
  fresh :
      (set_decay : j.State → Result (Unit {0}) × j.State)
      (create_arena : j.State → Result ℕ × j.State) (free_pages : Option ℕ) (mmap : ℕ → Option ℕ)
      (zero_size_pointer : ℕ) (s : j.State) (p : Pool j)
      → construct set_decay create_arena free_pages mmap zero_size_pointer s ≡ ok p
      → ((i : ℕ) × (create_arena (set_decay s).1 ≡ (ok i, p.jemalloc)))
        × (p.bytes_allocated ≡ 0)
        × (p.num_allocs ≡ 0)
  unfolding construct get_number_of_available_huge_pages
  fresh set_decay create_arena free_pages mmap zero_size_pointer s p e =
      elim (Result-cases (create_arena (set_decay s).1).0) [
        | inl (i, made) ↦ (
          (
            i,
            ap (λ r. (r, (create_arena (set_decay s).1).1)) made
                ∙ ap (λ x. (ok i, x)) (ground arith),
          ),
          ground arith,
          ground arith,
        )
        | inr (x, failed) ↦ ground arith
      ]

  -- From the constructor on, over an arena of jemalloc that is made without allocations and with
  -- jemalloc as documented: after any sequence of calls by any threads, of which those of free and
  -- reallocate returned and were for live blocks with their sizes, below 2 ^ 64, the counters of the
  -- pool are the number and the bytes of the live allocations.
  pub Reach-Counted :
      (set_decay : j.State → Result (Unit {0}) × j.State)
      (create_arena : j.State → Result ℕ × j.State) (free_pages : Option ℕ) (mmap : ℕ → Option ℕ)
      (zero_size_pointer : ℕ) (s : j.State) (p q : Pool j)
      → ((s1 s2 : j.State) (i : ℕ) → create_arena s1 ≡ (ok i, s2) → live s2 ≡ [])
      → construct set_decay create_arena free_pages mmap zero_size_pointer s ≡ ok p
      → Reach p q
      → Counted j live doc q
  Reach-Counted set_decay create_arena free_pages mmap zero_size_pointer s p q empty e here =
      let ((i, arena_made), bytes, count) =
        fresh set_decay create_arena free_pages mmap zero_size_pointer s p e in
      let none_live : live p.jemalloc ≡ [] = empty (set_decay s).1 p.jemalloc i arena_made in
      record {
        bytes = bytes ∙ sym (ap (λ (xs : List Region). total_size xs % u64_mod) none_live);
        count = count ∙ sym (ap (λ (xs : List Region). length xs % u64_mod) none_live);
      }
  Reach-Counted set_decay create_arena free_pages mmap zero_size_pointer s p q empty e
        (next {q = m} before st) =
      Step-Counted m q st (
        Reach-Counted set_decay create_arena free_pages mmap zero_size_pointer s p m empty e before)
