-- ===== src/MemoryPool/HugePage/Pages.antt =====
-- HugePageMemoryPool::get_page_boundaries and the constructor (software/libstf/memory_pool.cpp lines
-- 97-118, 145-166 and 212-225).
use libstf.Base.{
  ℕ, ◌+◌, ◌-◌, ◌*◌, ◌/◌, ◌%◌, ◌≤◌, ◌<◌, ◌≡◌, ◌⊎◌, inl, inr, some, none, Option, arith, dec_lt,
}
use libstf.Base.Action.{Result, ok, err, runtime_error}
use libstf.MemoryPool.Bounds.{is_buffer_within_bounds}
use libstf.MemoryPool.HugePage.{
  HugePageMemoryPool, page_size, get_page_boundaries, construct, get_number_of_available_huge_pages,
}

-- A page of the pool: it starts at a multiple of the page size from the start of the mapping, and
-- lies inside the mapping.
pub record IsPage {S : Type 0} (page : ℕ) (p : HugePageMemoryPool S) : Type 0 where
  pub starts : p.initial_address ≤ page
  pub is_multiple : (page - p.initial_address) % page_size ≡ 0
  pub inside : page + page_size ≤ p.initial_address + p.total_capacity

-- In a pool of whole pages, an address of the pool gives the page that holds it, and any other
-- address throws.
pub get_page_boundaries-IsPage :
    {S : Type 0} (a : ℕ) (p : HugePageMemoryPool S)
    → p.total_capacity % page_size ≡ 0
    → ((get_page_boundaries a p ≡ err runtime_error)
        × ((a < p.initial_address) ⊎ (p.initial_address + p.total_capacity ≤ a)))
      ⊎ ((page : ℕ) × (get_page_boundaries a p ≡ ok (page, page_size))
          × IsPage page p
          × (page ≤ a)
          × (a < page + page_size))
unfolding get_page_boundaries is_buffer_within_bounds
get_page_boundaries-IsPage a p whole = elim (dec_lt a p.initial_address) [
  | yes below ↦ inl (ground arith, inl below)
  | no above ↦ elim (dec_lt a (p.initial_address + p.total_capacity)) [
    | no beyond ↦ inl (ground arith, inr (omega arith))
    | yes inside ↦ inr (
      p.initial_address + (a - p.initial_address) / page_size * page_size,
      ground arith,
      record { starts = omega arith; is_multiple = omega arith; inside = omega arith },
      omega arith,
      omega arith,
    )
  ]
]

-- A pool that could be made has a positive number of whole pages, and the mapping is of that size.
pub construct-total :
    {S : Type 0} (set_decay : S → Result (Unit {0}) × S) (create_arena : S → Result ℕ × S)
    (free_pages : Option ℕ) (mmap : ℕ → Option ℕ) (z : ℕ) (s : S) {p : HugePageMemoryPool S}
    → construct set_decay create_arena free_pages mmap z s ≡ ok p
    → (p.total_capacity % page_size ≡ 0)
      × (page_size ≤ p.total_capacity)
      × (mmap p.total_capacity ≡ some p.initial_address)
unfolding construct get_number_of_available_huge_pages
construct-total set_decay create_arena none mmap z s e = ground arith
construct-total set_decay create_arena (some n) mmap z s e = ground arith
