-- ===== src/Tests/Runs.antt =====
-- The main functions of the examples on small devices: a pool and a state that they start from.
mod ReplayBuffer
mod TypedDictionary
use libstf.Base.{ℕ, ◌+◌, List, [], get_or}
use libstf.Base.Action.{ok}
use libstf.ErrorHandling.{status_ok}
use libstf.Buffer.{MemoryPool}
use libstf.Examples.Session.{Session}

-- Blocks one behind another; all addresses are of one page.
abbrev pub bump : MemoryPool
bump = record {
  State = ℕ;
  allocate = λ size out s. (ok (status_ok, s), s + size);
  reallocate = λ old_size size ptr s. (ok (status_ok, s), s + size);
  free = λ ptr size s. (ok tt, s);
  get_page_boundaries = λ a s. ok (0, 1099511627776);
}

-- Nothing is mapped, and the memory is empty.
abbrev pub fresh : List ℕ → ℕ → Session bump
fresh registers first = record {
  mem_pool = first;
  tlb_manager = record {
    existing_tlb_mappings = [];
    cthread = record { calls = []; get_csr = λ r. get_or registers r 0 };
  };
  memory = λ a. 0;
}
