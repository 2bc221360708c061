-- ===== src/OutputBufferManager/LiveBlocks.antt =====
-- Blocks of a SimpleMemoryPool that its user holds (software/libstf/memory_pool.cpp lines 389-488).
use libstf.Base.{ℕ, ◌+◌, ◌*◌, ◌/◌, ◌%◌, ◌≡◌, sym, ◌≢◌, some, List, [], ◌∷◌, All}
use libstf.Common.{bytes_per_fpga_transfer}
use libstf.MemoryPool.Bounds.{Region}
use libstf.MemoryPool.Blocks.{lookup}
use libstf.MemoryPool.Simple.{SimpleMemoryPool}
use libstf.OutputBufferManager.Service.{Inserted, here, there}

-- A block of the pool, of whole transfers.
abbrev pub IsLive : SimpleMemoryPool → Region → Type 0
IsLive p r = (lookup r.0 p.allocated_buffers ≡ some r.1) × (r.1 % bytes_per_fpga_transfer ≡ 0)

abbrev pub IsOther : Region → Region → Type 0
IsOther r q = r.0 ≢ q.0

abbrev pub Distinct : List Region → Type 0
Distinct [] = Unit {0}
Distinct (r ∷ bs) = All (IsOther r) bs × Distinct bs

-- The offset of the next block.
abbrev pub next_offset : SimpleMemoryPool → ℕ
next_offset p = (p.linear_allocator.offset + 63) / 64 * 64

module _ (P : Region → Type 0) (r : Region) where
  pub Inserted-All : (bs cs : List Region) → Inserted r bs cs → All P (r ∷ bs) → All P cs
  Inserted-All bs _ (here _) h = h
  Inserted-All _ _ (there x bs cs i) h = (h.1.0, Inserted-All bs cs i (h.0, h.1.1))

  pub All-Inserted : (bs cs : List Region) → Inserted r bs cs → All P cs → All P (r ∷ bs)
  All-Inserted bs _ (here _) h = h
  All-Inserted _ _ (there x bs cs i) h =
      let rest = All-Inserted bs cs i h.1 in (rest.0, (h.0, rest.1))

pub Inserted-Distinct :
    (r : Region) (bs cs : List Region) → Inserted r bs cs → Distinct (r ∷ bs) → Distinct cs
Inserted-Distinct r bs _ (here _) h = h
Inserted-Distinct r _ _ (there x bs cs i) h = (
  Inserted-All (IsOther x) r bs cs i ((λ e. h.0.0 (sym e)), h.1.0),
  Inserted-Distinct r bs cs i (h.0.1, h.1.1),
)

pub Distinct-Inserted :
    (r : Region) (bs cs : List Region) → Inserted r bs cs → Distinct cs → Distinct (r ∷ bs)
Distinct-Inserted r bs _ (here _) h = h
Distinct-Inserted r _ _ (there x bs cs i) h =
    let rest = Distinct-Inserted r bs cs i h.1 in
    let at = All-Inserted (IsOther x) r bs cs i h.0 in
    (((λ e. at.0 (sym e)), rest.0), (at.1, rest.1))
