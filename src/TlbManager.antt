-- ===== src/TlbManager.antt =====
-- class TLBManager: software/libstf/tlb_manager.hpp and tlb_manager.cpp. The recursive mutex is held
-- for the whole of a call, so a call is one step. The memory pool is its get_page_boundaries.
pub mod Pages
pub mod OnePage
pub mod Mapping
pub mod Pools
use libstf.Base.{
  ℕ, zero, suc, ◌+◌, ◌-◌, Bool, true, false, ◌||◌, List, [], ◌∷◌, ltb, ◌==◌, if◌then◌else◌,
}
use libstf.Base.Action.{Action, Result, ok, err, out_of_fuel, ◌>>=◌, ◌>>◌, lift, modify}
use libstf.Coyote.{CThread, user_map, user_unmap, record_call}
use libstf.MemoryPool.Bounds.{Region}

-- The set of mapped pages, which std::set keeps by their addresses, and the thread that the calls go to.
pub record TlbManager : Type 0 where
  pub existing_tlb_mappings : List ℕ
  pub cthread : CThread

abbrev pub contains : ℕ → List ℕ → Bool
contains a [] = false
contains a (x ∷ xs) = (x == a) || contains a xs

-- `existing_tlb_mappings.insert(page_address)`
abbrev pub insert : ℕ → List ℕ → List ℕ
insert a [] = a ∷ []
insert a (x ∷ xs) =
    let rest = insert a xs in if ltb a x then a ∷ x ∷ xs else if x == a then x ∷ xs else x ∷ rest

-- The body of the branch for a page that is not mapped yet.
abbrev pub map_page : Region → TlbManager → TlbManager
map_page (page, size) t = if contains page t.existing_tlb_mappings then t else record {
  existing_tlb_mappings = insert page t.existing_tlb_mappings;
  cthread = record_call (user_map page size) t.cthread;
}

module _ (get_page_boundaries : ℕ → Result Region) where
  -- One call on fuel; the recursive call goes to the start of the next page.
  pub ensure_on : ℕ → ℕ → ℕ → Action TlbManager (Unit {0})
  ensure_on zero data_address size t = (err out_of_fuel, t)
  ensure_on (suc fuel) data_address size t = elim (get_page_boundaries data_address) [
    | err e ↦ (err e, t)
    | ok page ↦
        let end_mapped = data_address + size in
        let page_end = page.0 + page.1 in
        let rest = ensure_on fuel page_end (end_mapped - page_end) (map_page page t) in
        if ltb page_end end_mapped then rest else (ok tt, map_page page t)
  ]

  -- A page that holds an address ends beyond it, so the sizes fall.
  unfoldable pub ensure_tlb_mapping : ℕ → ℕ → Action TlbManager (Unit {0})
  unfolding ensure_on
  ensure_tlb_mapping data_address size = ensure_on (suc size) data_address size

-- The destructor unmaps each page of the set, in its order.
abbrev pub unmap_all : List ℕ → CThread → CThread
unmap_all [] thread = thread
unmap_all (page ∷ pages) thread = unmap_all pages (record_call (user_unmap page) thread)

unfoldable pub destroy : TlbManager → CThread
destroy t = unmap_all t.existing_tlb_mappings t.cthread
