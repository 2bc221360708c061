-- ===== src/MemoryPool/Simple/Histories.antt =====
-- Histories of calls on a SimpleMemoryPool, and its destructor (software/libstf/memory_pool.cpp lines
-- 395-474).
use libstf.Base.{
  ℕ, zero, suc, ◌%◌, ◌^◌, ◌<◌, ◌≡◌, refl, ◌⊎◌, some, List, [], ◌∷◌, arith, length, ap, ◌∙◌, ne→==,
}
use libstf.Base.Word.{u64_mod}
use libstf.MemoryPool.Bounds.{Region}
use libstf.MemoryPool.Blocks.{lookup, total_size}
use libstf.MemoryPool.Simple.{
  SimpleMemoryPool, init, allocate, reallocate, free, free_all, destroy, default_alignment,
}
use libstf.MemoryPool.Simple.Invariant.{
  Inv, IsRequest, allocate-Inv, reallocate-Inv, free-Inv, live_non_null,
}

-- A call by a client that keeps to the interface: it asks for sizes and alignments that a page fits,
-- and gives back or resizes live blocks only, with their size.
pub data Step (p q : SimpleMemoryPool) : Type 0 where
  allocates : (size k out : ℕ) → IsRequest size k → q ≡ (allocate size (2 ^ k) out p).1 → Step p q
  reallocates :
      (old_size size k ptr : ℕ)
      → IsRequest size k
      → ((ptr ≡ 0) × (old_size ≡ 0)) ⊎ (lookup ptr p.allocated_buffers ≡ some old_size)
      → q ≡ (reallocate old_size size (2 ^ k) ptr p).1
      → Step p q
  frees :
      (ptr size alignment : ℕ)
      → lookup ptr p.allocated_buffers ≡ some size
      → q ≡ free ptr size alignment p
      → Step p q

pub data Reach (p : SimpleMemoryPool) : SimpleMemoryPool → Type 0 where
  here : Reach p p
  next : {q r : SimpleMemoryPool} → Reach p q → Step q r → Reach p r

Step-Inv : (p q : SimpleMemoryPool) → Step p q → Inv p → Inv q
Step-Inv p q (allocates size k out r e) v = rw e (allocate-Inv size k r out p v)
Step-Inv p q (reallocates old_size size k ptr r owned e) v =
    rw e (reallocate-Inv size k r old_size ptr p owned v)
Step-Inv p q (frees ptr size alignment live e) v = rw e (free-Inv ptr size alignment p live v)

init-Inv : (buffer : ℕ) (memory : ℕ → ℕ) → 0 < buffer → buffer % 64 ≡ 0 → Inv (init buffer memory)
init-Inv buffer memory pos al = record {
  within = tt;
  disjoint = tt;
  bytes = refl;
  count = refl;
  fits = omega arith;
  capacity = refl;
  non_null = pos;
  base_aligned = al;
}

-- In a pool on a block that `std::aligned_alloc` returned, after any history of such calls, the live
-- blocks lie in that block, none over another, and the counters are their number and their bytes.
pub Reach-Inv :
    (buffer : ℕ) (memory : ℕ → ℕ) {p : SimpleMemoryPool}
    → 0 < buffer
    → buffer % 64 ≡ 0
    → Reach (init buffer memory) p
    → Inv p
Reach-Inv buffer memory pos al here = init-Inv buffer memory pos al
Reach-Inv buffer memory pos al (next {q = q} {r = r} before s) =
    Step-Inv q r s (Reach-Inv buffer memory pos al before)

-- A round of the destructor frees the first block.
free_first :
    (b : Region) (blocks : List Region) (p : SimpleMemoryPool)
    → p.allocated_buffers ≡ b ∷ blocks
    → Inv p
    → ((free b.0 b.1 default_alignment p).allocated_buffers ≡ blocks)
      × Inv (free b.0 b.1 default_alignment p)
unfolding free
free_first b blocks p e v =
    let live : lookup b.0 p.allocated_buffers ≡ some b.1 = rw e (ground arith) in
    let non_null = live_non_null b.0 b.1 p live v in
    (rw (ne→== b.0 0 non_null) (rw e (ground arith)), free-Inv b.0 b.1 default_alignment p live v)

free_all-empties :
    (fuel : ℕ) (blocks : List Region) (p : SimpleMemoryPool)
    → p.allocated_buffers ≡ blocks
    → length blocks ≡ fuel
    → Inv p
    → ((free_all fuel p).allocated_buffers ≡ []) × Inv (free_all fuel p)
unfolding free_all
free_all-empties zero [] p e l v = (e, v)
free_all-empties zero (b ∷ blocks) p e l v = absurd (omega arith)
free_all-empties (suc fuel) [] p e l v = absurd (omega arith)
free_all-empties (suc fuel) (b ∷ blocks) p e l v =
    let once = free_first b blocks p e v in
    rw (e, free_all)
      (free_all-empties fuel blocks (free b.0 b.1 default_alignment p) once.0 (omega arith) once.1)

-- The destructor frees every block, within as many rounds as there are blocks, and brings the
-- counters of live blocks and bytes to 0.
pub destroy_empties :
    (p : SimpleMemoryPool)
    → Inv p
    → ((destroy p).allocated_buffers ≡ [])
      × ((destroy p).bytes_allocated ≡ 0)
      × ((destroy p).num_allocs ≡ 0)
unfolding destroy
destroy_empties p v =
    let done = free_all-empties (length p.allocated_buffers) p.allocated_buffers p refl refl v in
    (
      done.0,
      done.1.bytes ∙ ap (λ (xs : List Region). total_size xs % u64_mod) done.0,
      done.1.count ∙ ap (λ (xs : List Region). length xs % u64_mod) done.0,
    )
