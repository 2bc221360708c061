-- ===== src/OutputBufferManager/Service.antt =====
-- What the OutputBufferManager relies on of its memory pool (class MemoryPool in software/libstf/
-- memory_pool.hpp), as an interface: how the pool goes on while the manager holds blocks of it.
use libstf.Base.{
  ℕ, zero, suc, ◌+◌, ◌^◌, ◌≤◌, ◌<◌, ◌%◌, ◌≡◌, sym, List, [], ◌∷◌, ◌++◌, arith, length, get_or, set,
}
use mathlib.Core.Path.{subst}
use libstf.Base.Action.{ok}
use libstf.ErrorHandling.{status_ok}
use libstf.MemoryPool.Bounds.{Region}
use libstf.Common.{bytes_per_fpga_transfer, fpga_vaddr_bits}
use libstf.Buffer.{Buffer, MemoryPool}
use libstf.TlbManager.Mapping.{IsPaged}
use libstf.OutputBufferManager.{OutputBufferManager}

-- The second list is the first with the block at some place.
pub data Inserted (r : Region) : List Region → List Region → Type 0 where
  here : (bs : List Region) → Inserted r bs (r ∷ bs)
  there : (x : Region) (bs cs : List Region) → Inserted r bs cs → Inserted r (x ∷ bs) (x ∷ cs)

-- Of a pool: these blocks of it are held, and it can still grant so many bytes.
abbrev pub Holding : MemoryPool → Type 1
Holding pool = List Region → ℕ → pool.State → Type 0

pub record Serves (pool : MemoryPool) (Holds : Holding pool) : Type 0 where
  -- A new block, inside the addresses of the FPGA, whose pages can be looked up.
  pub allocates :
      (c n : ℕ) (bs : List Region) (s : pool.State)
      → 0 < c
      → c % bytes_per_fpga_transfer ≡ 0
      → Holds bs (c + n) s
      → (ptr : ℕ) × (s' : pool.State) × (pool.allocate c 0 s ≡ (ok (status_ok, ptr), s'))
        × Holds ((ptr, c) ∷ bs) n s'
        × (ptr + c ≤ 2 ^ fpga_vaddr_bits)
        × IsPaged (λ a. pool.get_page_boundaries a s') ptr (ptr + c)
  -- A block is made smaller, perhaps by a copy, and given away.
  pub shrinks :
      (ptr c bytes n : ℕ) (bs : List Region) (s : pool.State)
      → 0 < bytes
      → bytes < c
      → Holds ((ptr, c) ∷ bs) (c + n) s
      → (ptr' : ℕ) × (s' : pool.State) × (pool.reallocate c bytes ptr s
          ≡ (ok (status_ok, ptr'), s'))
        × Holds bs n s'
  pub frees :
      (ptr c n : ℕ) (bs : List Region) (s : pool.State)
      → Holds ((ptr, c) ∷ bs) n s
      → (s' : pool.State) × (pool.free ptr c s ≡ (ok tt, s')) × Holds bs n s'
  -- A block is given away.
  pub forgets :
      (r : Region) (bs : List Region) (n : ℕ) (s : pool.State) → Holds (r ∷ bs) n s → Holds bs n s
  pub weakens : (bs : List Region) (m n : ℕ) (s : pool.State) → Holds bs (m + n) s → Holds bs n s
  -- The order of the blocks does not matter.
  pub puts :
      (r : Region) (bs cs : List Region) (n : ℕ) (s : pool.State)
      → Inserted r bs cs
      → Holds (r ∷ bs) n s
      → Holds cs n s
  pub brings :
      (r : Region) (bs cs : List Region) (n : ℕ) (s : pool.State)
      → Inserted r bs cs
      → Holds cs n s
      → Holds (r ∷ bs) n s

abbrev pub region_of : Buffer → Region
region_of b = (b.ptr, b.capacity)

abbrev pub regions : List Buffer → List Region
regions [] = []
regions (b ∷ bs) = region_of b ∷ regions bs

-- The blocks of the enqueued buffers of all streams.
abbrev pub blocks : List (List Buffer) → List Region
blocks [] = []
blocks (q ∷ qs) = regions q ++ blocks qs

-- The manager holds its enqueued buffers, and its pool can still grant `n` bytes.
abbrev pub Kept : (pool : MemoryPool) → Holding pool → ℕ → OutputBufferManager pool → Type 0
Kept pool Holds n o = Holds (blocks o.enqueued_buffers) n o.memory_pool

module _ (r : Region) where
  Inserted-before : (xs bs cs : List Region) → Inserted r bs cs → Inserted r (xs ++ bs) (xs ++ cs)
  Inserted-before [] bs cs i = i
  Inserted-before (x ∷ xs) bs cs i = there x (xs ++ bs) (xs ++ cs) (Inserted-before xs bs cs i)

Inserted-last :
    (b : Buffer) (q : List Buffer) (ys : List Region)
    → Inserted (region_of b) (regions q ++ ys) (regions (q ++ (b ∷ [])) ++ ys)
Inserted-last b [] ys = here ys
Inserted-last b (x ∷ q) ys = there (region_of x) _ _ (Inserted-last b q ys)

-- A buffer that is pushed into a queue, and one that leaves it at the front.
pub Inserted-push :
    (b : Buffer) (qs : List (List Buffer)) (i : ℕ)
    → i < length qs
    → Inserted (region_of b) (blocks qs) (blocks (set qs i (get_or qs i [] ++ (b ∷ []))))
Inserted-push b [] i h = absurd (omega arith)
Inserted-push b (q ∷ qs) zero h = Inserted-last b q (blocks qs)
Inserted-push b (q ∷ qs) (suc i) h =
    Inserted-before (region_of b) (regions q) (blocks qs) _ (Inserted-push b qs i (omega arith))

pub Inserted-pop :
    (b : Buffer) (rest : List Buffer) (qs : List (List Buffer)) (i : ℕ)
    → i < length qs
    → get_or qs i [] ≡ b ∷ rest
    → Inserted (region_of b) (blocks (set qs i rest)) (blocks qs)
Inserted-pop b rest [] i h e = absurd (omega arith)
Inserted-pop b rest (q ∷ qs) zero h e =
    subst
      (λ (x : List Buffer).
        Inserted (region_of b) (regions rest ++ blocks qs) (regions x ++ blocks qs))
      (sym e) (here (regions rest ++ blocks qs))
Inserted-pop b rest (q ∷ qs) (suc i) h e =
    Inserted-before (region_of b) (regions q) _ (blocks qs)
      (Inserted-pop b rest qs i (omega arith) e)
