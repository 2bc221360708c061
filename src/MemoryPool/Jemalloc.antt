-- ===== src/MemoryPool/Jemalloc.antt =====
-- What HugePageMemoryPool relies on of jemalloc, which is not part of the repository: the calls of
-- software/libstf/memory_pool.cpp lines 16-87 and 227-297, and their documented effect on the live
-- allocations of the arena. A pointer of 0 is nullptr; a thread cache that cannot be created or
-- destroyed makes check_mallctl_success throw.
use libstf.Base.{ℕ, ◌≡◌, ◌≢◌, ◌⊎◌, some, List, ◌∷◌}
use libstf.Base.Action.{Result}
use libstf.MemoryPool.Bounds.{Region}
use libstf.MemoryPool.Blocks.{lookup, erase}

pub record Jemalloc : Type 1 where
  pub State : Type 0
  -- size, alignment, thread cache
  pub mallocx : ℕ → ℕ → ℕ → State → ℕ × State
  -- pointer, size, alignment, thread cache
  pub rallocx : ℕ → ℕ → ℕ → ℕ → State → ℕ × State
  -- pointer, thread cache
  pub dallocx : ℕ → ℕ → State → State
  pub tcache_create : State → Result ℕ × State
  pub tcache_destroy : ℕ → State → Result (Unit {0}) × State
  pub arena_destroy : State → Result (Unit {0}) × State

-- The documented behaviour: `live` is the allocations of the arena with the sizes asked for.
pub record Documented (j : Jemalloc) (live : j.State → List Region) : Type 0 where
  pub mallocx_lem :
      (size alignment tc : ℕ) (s : j.State)
      → let r = j.mallocx size alignment tc s in
        ((r.0 ≡ 0) × (live r.1 ≡ live s)) ⊎ ((r.0 ≢ 0) × (live r.1 ≡ (r.0, size) ∷ live s))
  pub rallocx_lem :
      (ptr old_size size alignment tc : ℕ) (s : j.State)
      → lookup ptr (live s) ≡ some old_size
      → let r = j.rallocx ptr size alignment tc s in
        ((r.0 ≡ 0) × (live r.1 ≡ live s))
        ⊎ ((r.0 ≢ 0) × (live r.1 ≡ (r.0, size) ∷ erase ptr (live s)))
  pub dallocx_lem :
      (ptr size tc : ℕ) (s : j.State)
      → lookup ptr (live s) ≡ some size
      → live (j.dallocx ptr tc s) ≡ erase ptr (live s)
  pub tcache_create_lem : (s : j.State) → live (j.tcache_create s).1 ≡ live s
