-- ===== src/MemoryPool/Extents.antt =====
-- The memory that HugePageMemoryPool hands to jemalloc in extents: the static members
-- remaining_capacity and next_free_addr (software/libstf/memory_pool.hpp lines 230-234) and the hooks
-- of memory_pool.cpp lines 299-362. A mutex is held for the whole of huge_page_alloc, so a call is
-- one step.
pub mod Histories
use libstf.Base.{
  ℕ, ◌+◌, ◌-◌, ◌*◌, ◌/◌, Bool, true, false, Option, none, some, ltb, ◌==◌, if◌then◌else◌, List, [],
  ◌∷◌,
}
use libstf.Base.Action.{Action, Result, ok, err, assertion_failed}
use libstf.MemoryPool.Bounds.{Region}

pub record ExtentPool : Type 0 where
  pub next_free_addr : ℕ
  pub remaining_capacity : ℕ

-- The smallest multiple of an alignment at or above an address.
abbrev pub round_up : ℕ → ℕ → ℕ
round_up ptr alignment = (ptr + alignment - 1) / alignment * alignment

-- `std::align(alignment, size, ptr, space)`: the aligned address and the space that is left from it,
-- unless the object does not fit.
abbrev pub std_align : ℕ → ℕ → ℕ → ℕ → Option (ℕ × ℕ)
std_align alignment size ptr space =
    let padding = round_up ptr alignment - ptr in
    if ltb space (padding + size) then none else some (round_up ptr alignment, space - padding)

-- What the hook returns: the address, which is 0 if there was not enough space, and the values
-- that it stores through `zero` and `commit`, if it does.
pub record Extent : Type 0 where
  pub address : ℕ
  pub zero_commit : Option (Bool × Bool)

unfoldable pub huge_page_alloc : ℕ → ℕ → ℕ → Action ExtentPool Extent
huge_page_alloc new_addr size alignment p =
    if new_addr == 0
    then (elim (std_align alignment size p.next_free_addr p.remaining_capacity) [
      | none ↦ (ok (record { address = 0; zero_commit = none }), p)
      | some (aligned_address, space) ↦ (
        ok (record { address = aligned_address; zero_commit = some (true, true) }),
        record { next_free_addr = aligned_address + size; remaining_capacity = space - size },
      )
    ])
    else (err assertion_failed, p)

-- The other hooks: jemalloc keeps the memory (true, opted out), and may split and merge (false).
abbrev pub huge_page_dealloc : Bool
huge_page_dealloc = true

abbrev pub huge_page_decommit : Bool
huge_page_decommit = true

abbrev pub huge_page_split_extend : Bool
huge_page_split_extend = false

abbrev pub huge_page_merge_extend : Bool
huge_page_merge_extend = false

-- The extents that a sequence of requests (size, alignment) got, newest first.
abbrev pub received : Result Extent → ℕ → List Region → List Region
received (ok e) size got = if e.address == 0 then got else (e.address, size) ∷ got
received (err _) size got = got

pub alloc_all : List (ℕ × ℕ) → List Region → ExtentPool → List Region × ExtentPool
alloc_all [] got p = (got, p)
alloc_all ((size, alignment) ∷ requests) got p =
    let (r, p') = huge_page_alloc 0 size alignment p in alloc_all requests (received r size got) p'
