-- ===== src/Tests/Pools.antt =====
-- The memory pools at concrete inputs.
use libstf.Base.{
  ℕ, suc, ◌+◌, ◌%◌, ◌^◌, ◌≤◌, ◌<◌, ◌≡◌, refl, ap, sym, ◌⊎◌, inr, true, false, some, List, [], ◌∷◌,
  arith, min,
}
use libstf.Base.Action.{Result, ok, err, runtime_error}
use libstf.ErrorHandling.{StatusCode, status, status_ok}
use libstf.MemoryPool.Bounds.{Region, is_buffer_within_bounds, is_buffer_within_bounds_iff}
use libstf.MemoryPool.Blocks.{lookup, erase, Within, Disjoint, IsApart}
use libstf.MemoryPool.Linear
use libstf.MemoryPool.Linear.{LinearAllocator, aligned_offset}
use libstf.MemoryPool.Linear.Grants.{Granted, IsFull, allocate-Granted}
use libstf.MemoryPool.Simple.{SimpleMemoryPool, allocate, reallocate, init, get_page_boundaries}
use libstf.MemoryPool.Simple.Invariant.{Inv}
use libstf.MemoryPool.Simple.Outcomes.{allocate_blocks, reallocate_copies}
use libstf.MemoryPool.Simple.Pages.{Holds, get_page_boundaries_block, get_page_boundaries_complete}
use libstf.MemoryPool.Simple.Histories.{allocates, here, next, Reach-Inv}
use libstf.MemoryPool.Jemalloc.{Jemalloc, Documented}
use libstf.MemoryPool.Extents.{alloc_all}
use libstf.MemoryPool.Extents.Histories.{Answers, alloc_all_extents}
use libstf.MemoryPool.HugePage
use libstf.MemoryPool.HugePage.{HugePageMemoryPool, page_size, construct, Pool}
use libstf.MemoryPool.HugePage.Pages.{IsPage, get_page_boundaries-IsPage}
use libstf.MemoryPool.HugePage.Histories.{here, next, allocates, Reach-Counted}
use libstf.MemoryPool.HugePage.Counters.{
  Counted, allocate-Counted, free-Counted, reallocate-Counted,
}

-- A block of 100 bytes at the start of a buffer at 4096.
abbrev pool : SimpleMemoryPool
pool = record {
  allocated_buffers = (4096, 100) ∷ [];
  total_bytes_allocated = 100;
  bytes_allocated = 100;
  num_allocs = 1;
  linear_allocator = record { buffer = 4096; size = 1073741824; offset = 100 };
  memory = λ a. a;
}

pool-Inv : Inv pool
pool-Inv = record {
  within = (omega arith, omega arith, omega arith, tt);
  disjoint = (tt, tt);
  bytes = refl;
  count = refl;
  fits = omega arith;
  capacity = refl;
  non_null = omega arith;
  base_aligned = refl;
}

Reach-Inv_example : Inv (allocate 100 (2 ^ 6) 0 (init 4096 (λ a. a))).1
Reach-Inv_example =
    Reach-Inv 4096 (λ a. a) (omega arith) refl
      (next here (allocates 100 6 0 (omega arith, omega arith) refl))

allocate_blocks_example :
    ((allocate 200 (2 ^ 7) 5 pool
        ≡ (ok (status StatusCode.out_of_memory "Unable to allocate memory!", 5), pool))
      × IsFull 200 (2 ^ 7) pool.linear_allocator)
    ⊎ ((ptr : ℕ) × (q : SimpleMemoryPool) × (allocate 200 (2 ^ 7) 5 pool ≡ (ok (status_ok, ptr), q))
        × (lookup ptr q.allocated_buffers ≡ some 200)
        × IsApart ptr 200 pool.allocated_buffers
        × (ptr % 2 ^ 7 ≡ 4096 % 2 ^ 7))
allocate_blocks_example =
    allocate_blocks 200 7 (omega arith, omega arith) (omega arith) 5 pool pool-Inv

reallocate_copies_example :
    ((reallocate 100 50 (2 ^ 6) 4096 pool
        ≡ (ok (status StatusCode.out_of_memory "Unable to reallocate memory!", 4096), pool))
      × IsFull 50 (2 ^ 6) pool.linear_allocator)
    ⊎ ((new_ptr : ℕ) × (q : SimpleMemoryPool) × (reallocate 100 50 (2 ^ 6) 4096 pool
          ≡ (ok (status_ok, new_ptr), q))
        × IsApart new_ptr 50 pool.allocated_buffers
        × ((i : ℕ) → i < min 100 50 → q.memory (new_ptr + i) ≡ pool.memory (4096 + i))
        × ((a : ℕ) → a < new_ptr → q.memory a ≡ pool.memory a))
reallocate_copies_example =
    reallocate_copies 50 6 (omega arith, omega arith) (omega arith) 100 4096 pool refl pool-Inv

get_page_boundaries_block_example :
    ((get_page_boundaries 4150 pool ≡ err runtime_error)
      × ((q n : ℕ) → lookup q pool.allocated_buffers ≡ some n → ¬ Holds 4150 q n))
    ⊎ ((q : ℕ) × (n : ℕ) × (get_page_boundaries 4150 pool ≡ ok (q, n))
        × (lookup q pool.allocated_buffers ≡ some n)
        × Holds 4150 q n)
get_page_boundaries_block_example = get_page_boundaries_block 4150 pool pool-Inv

get_page_boundaries_run : get_page_boundaries 4150 pool ≡ ok (4096, 100)
get_page_boundaries_run =
    get_page_boundaries_complete 4150 4096 100 pool pool-Inv refl (omega arith, omega arith)

abbrev linear : LinearAllocator
linear = record { buffer = 4096; size = 1024; offset = 100 }

allocate-Granted_example :
    ((Linear.allocate 1000 (2 ^ 6) 0 linear ≡ (false, 0, linear)) × IsFull 1000 (2 ^ 6) linear)
    ⊎ ((ptr : ℕ) × (a' : LinearAllocator) × (Linear.allocate 1000 (2 ^ 6) 0 linear
          ≡ (true, ptr, a'))
        × Granted 1000 (2 ^ 6) ptr linear a')
allocate-Granted_example = allocate-Granted 6 1000 0 linear (omega arith) (omega arith)

alloc_all_extents_example :
    let r =
      alloc_all
        ((4096, 2097152) ∷ (8192, 4096) ∷ [])
        []
        (record { next_free_addr = 4096; remaining_capacity = 8388608 }) in
    Within 4096 8392704 r.0
    × Disjoint r.0
    × (r.1.next_free_addr + r.1.remaining_capacity ≡ 8392704)
    × Answers 4096 8392704 (65536, 4096) r.0 r.1
alloc_all_extents_example =
    alloc_all_extents 4096 8388608 ((4096, 2097152) ∷ (8192, 4096) ∷ []) (65536, 4096) (omega arith)
      ((omega arith, omega arith), ((omega arith, omega arith), tt)) (omega arith, omega arith)

-- An arena that never uses an address again: its next address, and what is live.
abbrev arena : Jemalloc
arena = record {
  State = ℕ × List Region;
  mallocx = λ size alignment tc s. (suc s.0, (suc s.0 + size, (suc s.0, size) ∷ s.1));
  rallocx = λ ptr size alignment tc s. (suc s.0, (suc s.0 + size, (suc s.0, size) ∷ erase ptr s.1));
  dallocx = λ ptr tc s. (s.0, erase ptr s.1);
  tcache_create = λ s. (ok 0, s);
  tcache_destroy = λ tc s. (ok tt, s);
  arena_destroy = λ s. (ok tt, s);
}

abbrev live : ℕ × List Region → List Region
live s = s.1

arena-Documented : Documented arena live
arena-Documented = record {
  mallocx_lem = λ size alignment tc s. inr ((λ e. absurd (omega (arith, e))), refl);
  rallocx_lem = λ ptr old_size size alignment tc s l. inr ((λ e. absurd (omega (arith, e))), refl);
  dallocx_lem = λ ptr size tc s l. refl;
  tcache_create_lem = λ s. refl;
}

-- A pool of two huge pages with 100 bytes at 4096.
abbrev huge : Pool arena
huge = record {
  jemalloc = (8192, (4096, 100) ∷ []);
  tcache_ids = [];
  initial_address = 1073741824;
  total_capacity = 2147483648;
  total_bytes_allocated = 100;
  bytes_allocated = 100;
  num_allocs = 1;
  zero_size_pointer = 1;
}

huge-Counted : Counted arena live arena-Documented huge
huge-Counted = record { bytes = refl; count = refl }

allocate-Counted_test :
    Counted arena live arena-Documented (HugePage.allocate arena 3 500 64 huge).1
allocate-Counted_test =
    allocate-Counted arena live arena-Documented 3 500 64 huge (omega arith) huge-Counted

get_page_boundaries-IsPage_example :
    ((HugePage.get_page_boundaries 2147483700 huge ≡ err runtime_error)
      × ((2147483700 < 1073741824) ⊎ (1073741824 + 2147483648 ≤ 2147483700)))
    ⊎ ((page : ℕ) × (HugePage.get_page_boundaries 2147483700 huge ≡ ok (page, page_size))
        × IsPage page huge
        × (page ≤ 2147483700)
        × (2147483700 < page + page_size))
get_page_boundaries-IsPage_example = get_page_boundaries-IsPage 2147483700 huge refl

reallocate_runs : (HugePage.reallocate arena 3 100 500 64 4096 huge).0 ≡ ok (status_ok, 8193)
unfolding HugePage.reallocate libstf.MemoryPool.Bounds.is_power_of_two HugePage.get_tcache_id
reallocate_runs = refl

reallocate-Counted_test :
    Counted arena live arena-Documented (HugePage.reallocate arena 3 100 500 64 4096 huge).1
reallocate-Counted_test =
    reallocate-Counted arena live arena-Documented 3 100 500 64 4096 huge (omega arith)
      (omega arith) (λ n. refl) huge-Counted reallocate_runs

free_runs : (HugePage.free arena 3 4096 100 huge).0 ≡ ok tt
unfolding HugePage.free HugePage.get_tcache_id
free_runs = refl

free-Counted_test : Counted arena live arena-Documented (HugePage.free arena 3 4096 100 huge).1
free-Counted_test =
    free-Counted arena live arena-Documented 3 4096 100 huge (omega arith) (λ n. refl) huge-Counted
      free_runs

-- A pool of two huge pages, as the constructor leaves it, with one block of 500 bytes after that.
abbrev new_huge : Pool arena
new_huge = record {
  jemalloc = (8192, []);
  tcache_ids = [];
  initial_address = 1073741824;
  total_capacity = 2147483648;
  total_bytes_allocated = 0;
  bytes_allocated = 0;
  num_allocs = 0;
  zero_size_pointer = 1;
}

-- A new arena starts at 8192.
abbrev make_arena : ℕ × List Region → Result ℕ × (ℕ × List Region)
make_arena s = (ok 7, (8192, []))

make_arena-empty : (s1 s2 : ℕ × List Region) (i : ℕ) → make_arena s1 ≡ (ok i, s2) → s2.1 ≡ []
make_arena-empty s1 s2 i e = sym (ap (λ r. r.1.1) e)

Reach-Counted_example :
    Counted arena live arena-Documented (HugePage.allocate arena 3 500 64 new_huge).1
unfolding construct HugePage.get_number_of_available_huge_pages
Reach-Counted_example =
    Reach-Counted arena live arena-Documented (λ s. (ok tt, s)) make_arena (some 2)
      (λ size. some 1073741824) 1 (4096, []) new_huge (HugePage.allocate arena 3 500 64 new_huge).1
      make_arena-empty refl (next here (allocates 3 500 64 (omega arith) refl))
