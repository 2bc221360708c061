-- ===== src/MemoryPool/HugePage.antt =====
-- class HugePageMemoryPool: software/libstf/memory_pool.hpp lines 112-235 and memory_pool.cpp lines
-- 93-297, over jemalloc as a parameter. The calling thread is an argument; a lookup or an insertion
-- under tcache_lock is one step, and no other thread inserts the key of this one in between.
pub mod Counters
pub mod Histories
pub mod Pages
use libstf.Base.{
  ℕ, ◌+◌, ◌-◌, ◌*◌, ◌/◌, ◌^◌, Bool, true, false, not, Option, none, some, List, [], ◌∷◌, ltb, ◌==◌,
  if◌then◌else◌,
}
use libstf.Base.Word.{u64_mod, wrap_add, wrap_sub}
use libstf.Base.Action.{
  Action, Result, ok, err, assertion_failed, runtime_error, ◌>>=◌, ◌>>◌, pure, modify, ensure,
}
use libstf.ErrorHandling.{Status, StatusCode, status, status_ok}
use libstf.MemoryPool.Bounds.{Region, is_buffer_within_bounds, is_power_of_two}
use libstf.MemoryPool.Blocks.{lookup}
use libstf.MemoryPool.Jemalloc.{Jemalloc}

-- HUGE_PAGE_BITS, PAGE_SIZE and DEFAULT_ALIGNMENT.
abbrev pub huge_page_bits : ℕ
huge_page_bits = 30

abbrev pub page_size : ℕ
page_size = 2 ^ huge_page_bits

abbrev pub default_alignment : ℕ
default_alignment = 64

-- The members, and the state of jemalloc. `zero_size_pointer` is the address of zero_size_data,
-- which a block of no bytes has.
pub record HugePageMemoryPool (S : Type 0) : Type 0 where
  pub jemalloc : S
  pub tcache_ids : List (ℕ × ℕ)
  pub initial_address : ℕ
  pub total_capacity : ℕ
  pub total_bytes_allocated : ℕ
  pub bytes_allocated : ℕ
  pub num_allocs : ℕ
  pub zero_size_pointer : ℕ

-- `get_number_of_available_huge_pages`: what the file of free pages holds, if it can be opened.
unfoldable pub get_number_of_available_huge_pages : Option ℕ → Result ℕ
get_number_of_available_huge_pages none = err runtime_error
get_number_of_available_huge_pages (some free_pages) =
    if free_pages == 0 then err runtime_error else ok free_pages

-- The constructor, with what `mmap` returns for a size, none for MAP_FAILED. `set_decay` writes the
-- control arenas.dirty_decay_ms, and `create_arena` reads the number of a new arena from arenas.create;
-- both may throw. The free addresses that it also sets are those of an ExtentPool at the mapping.
unfoldable pub construct :
    {S : Type 0}
    → (S → Result (Unit {0}) × S)
    → (S → Result ℕ × S)
    → Option ℕ
    → (ℕ → Option ℕ)
    → ℕ
    → S
    → Result (HugePageMemoryPool S)
construct set_decay create_arena free_pages mmap zero_size_pointer s =
    let (decay, s1) = set_decay s in
    let (arena_index, s2) = create_arena s1 in
    elim decay [
      | err e ↦ err e
      | ok _ ↦ elim (get_number_of_available_huge_pages free_pages) [
        | err e ↦ err e
        | ok num_huge_pages ↦ elim (mmap (num_huge_pages * page_size)) [
          | none ↦ err runtime_error
          | some address ↦ elim arena_index [
            | err e ↦ err e
            | ok _ ↦ ok (record {
              jemalloc = s2;
              tcache_ids = [];
              initial_address = address;
              total_capacity = num_huge_pages * page_size;
              total_bytes_allocated = 0;
              bytes_allocated = 0;
              num_allocs = 0;
              zero_size_pointer = zero_size_pointer;
            })
          ]
        ]
      ]
    ]

unfoldable pub is_in_bounds : {S : Type 0} → ℕ → ℕ → HugePageMemoryPool S → Bool
is_in_bounds ptr size p = is_buffer_within_bounds (p.initial_address, p.total_capacity) (ptr, size)

unfoldable pub get_page_boundaries : {S : Type 0} → ℕ → HugePageMemoryPool S → Result Region
get_page_boundaries ptr p =
    if not (is_buffer_within_bounds (p.initial_address, p.total_capacity) (ptr, 1))
    then err runtime_error
    else ok (p.initial_address + (ptr - p.initial_address) / page_size * page_size, page_size)

module _ (j : Jemalloc) where
  abbrev pub Pool : Type 0
  Pool = HugePageMemoryPool j.State

  -- A call of jemalloc by the pool.
  abbrev pub call : {A : Type 0} → (j.State → A × j.State) → Action Pool A
  call f p = let (a, s) = f p.jemalloc in (ok a, record p { jemalloc = s })

  abbrev pub call_checked : {A : Type 0} → (j.State → Result A × j.State) → Action Pool A
  call_checked f p = let (r, s) = f p.jemalloc in (r, record p { jemalloc = s })

  -- `insert` on the map of thread caches.
  abbrev pub remember : ℕ → ℕ → Pool → Pool
  remember thread tc p = record p { tcache_ids = (thread, tc) ∷ p.tcache_ids }

  unfoldable pub get_tcache_id : ℕ → Action Pool ℕ
  get_tcache_id thread p = elim (lookup thread p.tcache_ids) [
    | some tc ↦ (ok tc, p)
    | none ↦
        let (r, s) = j.tcache_create p.jemalloc in
        elim r [
          | err e ↦ (err e, record p { jemalloc = s })
          | ok tc ↦ (ok tc, remember thread tc (record p { jemalloc = s }))
        ]
  ]

  abbrev pub count_new : ℕ → Pool → Pool
  count_new size p = record p {
    total_bytes_allocated = wrap_add u64_mod p.total_bytes_allocated size;
    bytes_allocated = wrap_add u64_mod p.bytes_allocated size;
    num_allocs = wrap_add u64_mod p.num_allocs 1;
  }

  abbrev pub count_gone : ℕ → Pool → Pool
  count_gone size p = record p {
    bytes_allocated = wrap_sub u64_mod p.bytes_allocated size;
    num_allocs = wrap_sub u64_mod p.num_allocs 1;
  }

  abbrev pub count_resized : ℕ → ℕ → Pool → Pool
  count_resized old_size new_size p =
      if ltb old_size new_size
      then record p {
        total_bytes_allocated = wrap_add u64_mod p.total_bytes_allocated (new_size - old_size);
        bytes_allocated = wrap_add u64_mod p.bytes_allocated (new_size - old_size);
      }
      else record p { bytes_allocated = wrap_sub u64_mod p.bytes_allocated (old_size - new_size) }

  -- The calls of jemalloc once the thread cache is there, and what the counters make of them.
  abbrev pub allocate_with : ℕ → ℕ → ℕ → Action Pool (Status × ℕ)
  allocate_with size alignment tc p =
      let (ptr, s) = j.mallocx size alignment tc p.jemalloc in
      if ptr == 0
      then (
        ok (
          status StatusCode.out_of_memory "HugePageMemoryPool is unable to allocate memory!",
          ptr,
        ),
        record p { jemalloc = s },
      )
      else (ok (status_ok, ptr), count_new size (record p { jemalloc = s }))

  abbrev pub reallocate_with : ℕ → ℕ → ℕ → ℕ → ℕ → Action Pool (Status × ℕ)
  reallocate_with old_size new_size alignment ptr tc p =
      let (new_ptr, s) = j.rallocx ptr new_size alignment tc p.jemalloc in
      if new_ptr == 0
      then (
        ok (
          status StatusCode.out_of_memory "HugePageMemoryPool could not Reallocate as requested!",
          ptr,
        ),
        record p { jemalloc = s },
      )
      else (ok (status_ok, new_ptr), count_resized old_size new_size (record p { jemalloc = s }))

  -- The status and the value of `*out` after the call.
  unfoldable pub allocate : ℕ → ℕ → ℕ → Action Pool (Status × ℕ)
  allocate thread size alignment p =
      if size == 0
      then (ok (status_ok, p.zero_size_pointer), p)
      else (do
        ensure (is_power_of_two alignment)
        tc ← get_tcache_id thread
        allocate_with size alignment tc)
          p

  unfoldable pub free : ℕ → ℕ → ℕ → Action Pool (Unit {0})
  free thread ptr size p =
      if ptr == p.zero_size_pointer
      then ensure (size == 0) p
      else (do
        modify (count_gone size)
        tc ← get_tcache_id thread
        modify (λ q. record q { jemalloc = j.dallocx ptr tc q.jemalloc }))
          p

  -- The status and the value of `*ptr` after the call.
  unfoldable pub reallocate : ℕ → ℕ → ℕ → ℕ → ℕ → Action Pool (Status × ℕ)
  reallocate thread old_size new_size alignment ptr p =
      if ptr == p.zero_size_pointer
      then (do ensure (old_size == 0); allocate thread new_size alignment) p
      else if new_size == 0
      then (do free thread ptr old_size; pure (status_ok, p.zero_size_pointer)) p
      else (do
        ensure (is_power_of_two alignment)
        tc ← get_tcache_id thread
        reallocate_with old_size new_size alignment ptr tc)
          p

  -- The loop of the destructor over the thread caches.
  abbrev pub destroy_tcaches : List (ℕ × ℕ) → Action Pool (Unit {0})
  destroy_tcaches [] = pure tt
  destroy_tcaches ((_, tc) ∷ rest) = do call_checked (j.tcache_destroy tc); destroy_tcaches rest

  unfoldable pub destroy : Action Pool (Unit {0})
  destroy p = (do destroy_tcaches p.tcache_ids; call_checked j.arena_destroy) p
