-- ===== src/TlbManager/Pools.antt =====
-- The memory pools as the pages that the TLBManager maps (software/libstf/tlb_manager.cpp line 26).
use libstf.Base.{ℕ, ◌+◌, ◌%◌, ◌≡◌, inl, inr, some, arith}
use libstf.MemoryPool.Blocks.{lookup}
use libstf.MemoryPool.Bounds.{is_buffer_within_bounds}
use libstf.MemoryPool.HugePage.Pages.{get_page_boundaries-IsPage}
use libstf.MemoryPool.Simple
use libstf.MemoryPool.Simple.{SimpleMemoryPool}
use libstf.MemoryPool.Simple.Invariant.{Inv}
use libstf.MemoryPool.Simple.Pages.{get_page_boundaries_complete, get_page_boundaries_sound}
use libstf.MemoryPool.HugePage
use libstf.MemoryPool.HugePage.{HugePageMemoryPool, page_size}
use libstf.TlbManager.Mapping.{IsPaged}

-- A pool of whole huge pages is paged from end to end.
pub HugePage-IsPaged :
    {S : Type 0} (p : HugePageMemoryPool S)
    → p.total_capacity % page_size ≡ 0
    → IsPaged
        (λ a. HugePage.get_page_boundaries a p)
        p.initial_address
        (p.initial_address + p.total_capacity)
unfolding HugePage.get_page_boundaries is_buffer_within_bounds
HugePage-IsPaged p whole = record {
  page = λ a lo hi. elim (get_page_boundaries-IsPage a p whole) [
    | inl (_, out) ↦ absurd (omega arith)
    | inr (page, e, _, below, above) ↦ ((page, page_size), e, below, above)
  ];
  same = λ a b r e p q. ground arith;
}

-- A live block of the simple pool is a page.
pub Simple-IsPaged :
    (p : SimpleMemoryPool) (ptr n : ℕ)
    → Inv p
    → lookup ptr p.allocated_buffers ≡ some n
    → IsPaged (λ a. Simple.get_page_boundaries a p) ptr (ptr + n)
Simple-IsPaged p ptr n v live = record {
  page = λ a lo hi. ((ptr, n), get_page_boundaries_complete a ptr n p v live (lo, hi), lo, hi);
  same = λ a b r e lo hi.
      get_page_boundaries_complete b r.0 r.1 p v (get_page_boundaries_sound a r p v e).0 (lo, hi);
}
