-- ===== src/Tests/Mapping.antt =====
-- The TLB and the transfers at concrete inputs: a memory of huge pages from 1 GiB to 3 GiB.
use libstf.Base.{ℕ, ◌≡◌, refl, true, List, [], ◌∷◌, arith, length}
use mathlib.Core.List.{reverse}
use libstf.Base.Action.{Result, ok}
use libstf.MemoryPool.Bounds.{Region}
use libstf.MemoryPool.HugePage
use libstf.MemoryPool.HugePage.{HugePageMemoryPool}
use libstf.Coyote.{local_read, local_write, user_map}
use libstf.TlbManager.{TlbManager, contains, ensure_tlb_mapping, destroy}
use libstf.TlbManager.Pages.{Ascending, maps, unmaps}
use libstf.TlbManager.OnePage.{Once}
use libstf.TlbManager.Mapping.{IsPaged, Ensured, ensure_tlb_mapping-Ensured, destroy-unmaps}
use libstf.TlbManager.Pools.{HugePage-IsPaged}
use libstf.Transfers.{enqueue_stream_input, enqueue_stream_output}
use libstf.Transfers.Tiling.{
  Transfer, Tiles, after_posting, enqueue_stream_input-Tiles, enqueue_stream_output-Tiles,
}

abbrev pool : HugePageMemoryPool ℕ
pool = record {
  jemalloc = 0;
  tcache_ids = [];
  initial_address = 1073741824;
  total_capacity = 2147483648;
  total_bytes_allocated = 0;
  bytes_allocated = 0;
  num_allocs = 0;
  zero_size_pointer = 1;
}

abbrev pages : ℕ → Result Region
pages a = HugePage.get_page_boundaries a pool

abbrev manager : TlbManager
manager = record { existing_tlb_mappings = []; cthread = record { calls = []; get_csr = λ r. 0 } }

manager-Once : Once manager
manager-Once = record { mapped = λ a. refl; distinct = tt; ordered = tt }

pool-IsPaged : IsPaged pages 1073741824 3221225472
pool-IsPaged = HugePage-IsPaged pool refl

HugePage-IsPaged_example : IsPaged pages 1073741824 3221225472
HugePage-IsPaged_example = HugePage-IsPaged pool refl

ensure_tlb_mapping-Ensured_example :
    Ensured pages 2147400000 500000 manager (ensure_tlb_mapping pages 2147400000 500000 manager)
ensure_tlb_mapping-Ensured_example =
    ensure_tlb_mapping-Ensured pages 1073741824 3221225472 pool-IsPaged 2147400000 500000 manager
      (omega arith) (omega arith) (omega arith) manager-Once

-- The upper page was mapped first.
abbrev two_pages : TlbManager
two_pages = record {
  existing_tlb_mappings = 1073741824 ∷ 2147483648 ∷ [];
  cthread = record {
    calls = user_map 1073741824 1073741824 ∷ user_map 2147483648 1073741824 ∷ [];
    get_csr = λ r. 0;
  };
}

two_pages-Once : Once two_pages
two_pages-Once = record {
  mapped = λ a. refl;
  distinct = (refl, (refl, tt));
  ordered = ((omega arith, tt), (tt, tt));
}

destroy-unmaps_example :
    (reverse (unmaps (destroy two_pages).calls) ≡ 1073741824 ∷ 2147483648 ∷ [])
    × Ascending (reverse (unmaps (destroy two_pages).calls))
    × ((a : ℕ)
        → contains a (reverse (unmaps (destroy two_pages).calls))
          ≡ contains a (1073741824 ∷ 2147483648 ∷ []))
    × (maps (destroy two_pages).calls ≡ 1073741824 ∷ 2147483648 ∷ [])
destroy-unmaps_example = destroy-unmaps two_pages two_pages-Once refl

enqueue_stream_input-Tiles_example :
    (xs : List Transfer) × (mapped : TlbManager) × (enqueue_stream_input 100000 pages 2147400000
        500000 3 true manager
      ≡ (ok tt, after_posting local_read 3 xs mapped))
    × Ensured pages 2147400000 500000 manager (ok tt, mapped)
    × Tiles 100000 true 2147400000 2147900000 xs
enqueue_stream_input-Tiles_example =
    enqueue_stream_input-Tiles pages 1073741824 3221225472 pool-IsPaged 100000 2147400000 500000 3
      (omega arith) (omega arith) manager (omega arith) (omega arith) (omega arith) manager-Once
      true

enqueue_stream_output-Tiles_example :
    (xs : List Transfer) × (mapped : TlbManager) × (enqueue_stream_output 100000 pages 2147400000
        500000 3 manager
      ≡ (ok (length xs), after_posting local_write 3 xs mapped))
    × Ensured pages 2147400000 500000 manager (ok tt, mapped)
    × Tiles 100000 true 2147400000 2147900000 xs
enqueue_stream_output-Tiles_example =
    enqueue_stream_output-Tiles pages 1073741824 3221225472 pool-IsPaged 100000 2147400000 500000 3
      (omega arith) (omega arith) manager (omega arith) (omega arith) (omega arith) manager-Once
