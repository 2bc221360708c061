-- ===== src/TlbManager/Mapping.antt =====
-- What TLBManager::ensure_tlb_mapping leaves mapped, and its destructor (software/libstf/
-- tlb_manager.cpp lines 13-41).
use libstf.Base.{
  ℕ, zero, suc, ◌+◌, ◌-◌, ◌≤◌, ◌<◌, ◌≡◌, refl, ◌⊎◌, inl, inr, true, false, List, [], ◌∷◌, ◌++◌,
  arith, dec_lt, lt→ltb, le→ltb, ap, sym, ◌∙◌, append_assoc, append-nil, All, All-append, All-mono,
  Bool-cases,
}
use mathlib.Core.List.{reverse, reverse-cons, reverse-reverse}
use mathlib.Core.Path.{subst}
use libstf.Base.Action.{Result, ok}
use libstf.Coyote.{CThread, user_unmap, record_call}
use libstf.MemoryPool.Bounds.{Region}
use libstf.TlbManager.{
  TlbManager, contains, map_page, ensure_on, ensure_tlb_mapping, unmap_all, destroy,
}
use libstf.TlbManager.Pages.{
  Ascending, maps, unmaps, with_maps, with_maps-append, Listed, Listed-behind, Listed-before,
}
use libstf.TlbManager.OnePage.{Once, sent, made, Page, map_page-Page}

-- The pages of [lo, hi): each address has one, which holds it and is the page of all that it holds.
pub record IsPaged (pages : ℕ → Result Region) (lo hi : ℕ) : Type 0 where
  pub page :
      (a : ℕ) → lo ≤ a → a < hi → (r : Region) × (pages a ≡ ok r) × (r.0 ≤ a) × (a < r.0 + r.1)
  pub same : (a b : ℕ) (r : Region) → pages a ≡ ok r → r.0 ≤ b → b < r.0 + r.1 → pages b ≡ ok r

-- The page of an address is one that was in the set before, or one of those that are mapped with their
-- sizes.
abbrev pub HasPage : (ℕ → Result Region) → TlbManager → List Region → ℕ → Type 0
HasPage pages t new a =
    (q : Region) × (pages a ≡ ok q)
    × (q.0 ≤ a)
    × (a < q.0 + q.1)
    × ((contains q.0 t.existing_tlb_mappings ≡ true) ⊎ Listed q new)

-- What a call for [addr, addr + size) does: the calls that it makes of the thread are those that map
-- `new`, oldest first, each the page of an address of the region that was not mapped before, with its
-- size.
pub record Ensured (pages : ℕ → Result Region) (addr size : ℕ) (t : TlbManager)
    (r : Result (Unit {0}) × TlbManager) : Type 0 where
  pub returns : r.0 ≡ ok tt
  pub new : List Region
  pub calls : r.1.cthread.calls ≡ with_maps new t.cthread.calls
  pub device : r.1.cthread.get_csr ≡ t.cthread.get_csr
  pub sources :
      All
        (λ (q : Region). (a : ℕ) × (addr ≤ a) × ((a ≡ addr) ⊎ (a < addr + size)) × (pages a ≡ ok q))
        new
  pub fresh : All (λ (q : Region). contains q.0 t.existing_tlb_mappings ≡ false) new
  pub once : Once r.1
  pub keeps :
      (a : ℕ)
      → contains a t.existing_tlb_mappings ≡ true
      → contains a r.1.existing_tlb_mappings ≡ true
  pub quiet : (reg : ℕ) → sent reg r.1.cthread.calls ≡ sent reg t.cthread.calls
  pub first : HasPage pages t new addr
  pub covers : (a : ℕ) → addr ≤ a → a < addr + size → HasPage pages t new a

module _ (pages : ℕ → Result Region) (lo hi : ℕ) (paged : IsPaged pages lo hi) where
  -- Two pages with one start are the same.
  same_start :
      (a : ℕ) (r q : Region)
      → pages r.0 ≡ ok r
      → pages a ≡ ok q
      → q.0 ≤ a
      → a < q.0 + q.1
      → r.0 ≡ q.0
      → r ≡ q
  same_start a r q er eq below above e =
      let start : pages q.0 ≡ ok q = paged.same a q.0 q eq (omega arith) (omega arith) in
      let again : pages q.0 ≡ ok r = subst (λ x. pages x ≡ ok r) e er in
      ok_injective (sym again ∙ start)
    where
      ok_injective : {x y : Region} → Result.ok x ≡ Result.ok y → x ≡ y
      ok_injective h = cc h

  -- The page of an address, after one page more was mapped.
  HasPage-more :
      (a : ℕ) (r : Region) (t t1 : TlbManager) (one new : List Region)
      → pages r.0 ≡ ok r
      → Page r t t1 one
      → HasPage pages t1 new a
      → HasPage pages t (one ++ new) a
  HasPage-more a r t t1 one new er page (q, eq, below, above, inr listed) =
      (q, eq, below, above, inr (Listed-behind q one new listed))
  HasPage-more a r t t1 one new er page (q, eq, below, above, inl c) = (
    q,
    eq,
    below,
    above,
    elim (page.adds q.0 c) [
      | inl before ↦ inl before
      | inr (e, listed) ↦ inr (
          Listed-before q one new
            (subst (λ (x : Region). Listed x one) (same_start a r q er eq below above e) listed))
    ],
  )

  last-Ensured :
      (addr size : ℕ) (r : Region) (t t1 : TlbManager) (one : List Region)
      → pages addr ≡ ok r
      → r.0 ≤ addr
      → addr < r.0 + r.1
      → addr + size ≤ r.0 + r.1
      → Page r t t1 one
      → All (λ (q : Region). q ≡ r) one
      → Ensured pages addr size t (ok tt, t1)
  last-Ensured addr size r t t1 one found below above fits page only = record {
    returns = refl;
    new = one;
    calls = page.calls;
    device = page.device;
    sources =
        All-mono (λ (q : Region). q ≡ r) _ one
          (λ q e. (addr, omega arith, inl refl, found ∙ ap (λ x. ok x) (sym e))) only;
    fresh = page.fresh;
    once = page.once;
    keeps = page.keeps;
    quiet = page.quiet;
    first = (r, found, below, above, page.listed);
    covers = λ a p q. (
      r,
      paged.same addr a r found (omega arith) (omega arith),
      omega arith,
      omega arith,
      page.listed,
    );
  }

  further-Ensured :
      (addr size : ℕ) (r : Region) (t t1 : TlbManager) (one : List Region)
      (res : Result (Unit {0}) × TlbManager)
      → pages addr ≡ ok r
      → r.0 ≤ addr
      → addr < r.0 + r.1
      → r.0 + r.1 < addr + size
      → Page r t t1 one
      → All (λ (q : Region). q ≡ r) one
      → Ensured pages (r.0 + r.1) (addr + size - (r.0 + r.1)) t1 res
      → Ensured pages addr size t res
  further-Ensured addr size r t t1 one res found below above over page only rest =
      let start : pages r.0 ≡ ok r = paged.same addr r.0 r found (omega arith) (omega arith) in
      let listed : (contains r.0 t.existing_tlb_mappings ≡ true) ⊎ Listed r (one ++ rest.new) =
        elim page.listed [ inl c ↦ inl c | inr l ↦ inr (Listed-before r one rest.new l) ] in
      record {
        returns = rest.returns;
        new = one ++ rest.new;
        calls =
            rest.calls
            ∙ ap (with_maps rest.new) page.calls
            ∙ sym (with_maps-append one rest.new t.cthread.calls);
        device = rest.device ∙ page.device;
        sources =
            All-append _ one rest.new
              (All-mono (λ (q : Region). q ≡ r) _ one
                (λ q e. (addr, omega arith, inl refl, found ∙ ap (λ x. ok x) (sym e))) only)
              (All-mono _ _ rest.new
                (λ q (a, from, within, e). (
                  a,
                  omega arith,
                  inr (elim within [ inl k ↦ omega arith | inr k ↦ omega arith ]),
                  e,
                ))
                rest.sources);
        fresh = All-append _ one rest.new page.fresh (
            All-mono _ _ rest.new
              (λ q absent. elim (Bool-cases (contains q.0 t.existing_tlb_mappings)) [
                | inl c ↦ absurd (cc (page.keeps q.0 c, absent))
                | inr c ↦ c
              ])
              rest.fresh);
        once = rest.once;
        keeps = λ a c. rest.keeps a (page.keeps a c);
        quiet = λ reg. rest.quiet reg ∙ page.quiet reg;
        first = (r, found, below, above, listed);
        covers = λ a p q. elim (dec_lt a (r.0 + r.1)) [
          | yes here ↦ (r, paged.same addr a r found (omega arith) here, omega arith, here, listed)
          | no there ↦
              HasPage-more a r t t1 one rest.new start page
                (rest.covers a (omega arith) (omega arith))
        ];
      }

  made-only : (r : Region) (t : TlbManager) → All (λ (q : Region). q ≡ r) (made r t)
  made-only r t = elim (Bool-cases (contains r.0 t.existing_tlb_mappings)) [
    | inl there ↦ rw there tt
    | inr absent ↦ rw absent (refl, tt)
  ]

  ensure_on-Ensured :
      (fuel addr size : ℕ) (t : TlbManager)
      → size < fuel
      → lo ≤ addr
      → addr < hi
      → addr + size ≤ hi
      → Once t
      → Ensured pages addr size t (ensure_on pages fuel addr size t)
  unfolding ensure_on
  ensure_on-Ensured zero addr size t f l h e o = elim f [ ]
  ensure_on-Ensured (suc fuel) addr size t f l h e o =
      let (r, found, below, above) = paged.page addr l h in
      let page = map_page-Page r t o in
      rw (found, ensure_on)
        (elim (dec_lt (r.0 + r.1) (addr + size)) [
          | no inside ↦ rw (le→ltb (r.0 + r.1) (addr + size) (omega arith)) (
              last-Ensured addr size r t (map_page r t) (made r t) found below above (omega arith)
                page (made-only r t))
          | yes over ↦ rw (lt→ltb (r.0 + r.1) (addr + size) over) (
              further-Ensured addr size r t (map_page r t) (made r t) _ found below above over page
                (made-only r t)
                (ensure_on-Ensured fuel (r.0 + r.1) (addr + size - (r.0 + r.1)) (map_page r t)
                  (omega arith) (omega arith) (omega arith) (omega arith) page.once))
        ])

  -- For a region inside the paged memory and a manager whose set is what was mapped, the call returns.
  -- It maps the pages of the region, or of its start where it is empty, that were not in the set, each
  -- with its start and its size and none twice, and makes no other call; the page of every byte is one
  -- of these or was in the set, which keeps what it had.
  pub ensure_tlb_mapping-Ensured :
      (addr size : ℕ) (t : TlbManager)
      → lo ≤ addr
      → addr < hi
      → addr + size ≤ hi
      → Once t
      → Ensured pages addr size t (ensure_tlb_mapping pages addr size t)
  unfolding ensure_tlb_mapping
  ensure_tlb_mapping-Ensured addr size t l h e o =
      ensure_on-Ensured (suc size) addr size t (omega arith) l h e o

unmap_all_lem :
    (pages : List ℕ) (thread : CThread)
    → (unmaps (unmap_all pages thread).calls ≡ reverse pages ++ unmaps thread.calls)
      × (maps (unmap_all pages thread).calls ≡ maps thread.calls)
unmap_all_lem [] thread = (refl, refl)
unmap_all_lem (p ∷ pages) thread =
    let later = unmap_all_lem pages (record_call (user_unmap p) thread) in
    (
      later.0
          ∙ sym (
              ap (λ (xs : List ℕ). xs ++ unmaps thread.calls) (reverse-cons p pages)
              ∙ append_assoc (reverse pages) (p ∷ []) (unmaps thread.calls)),
      later.1,
    )

-- Where the set is what was mapped and nothing was unmapped yet, the destructor unmaps the pages of the
-- set, which are those that were mapped, each once, in the order of their addresses, and maps none.
pub destroy-unmaps :
    (t : TlbManager)
    → Once t
    → unmaps t.cthread.calls ≡ []
    → (reverse (unmaps (destroy t).calls) ≡ t.existing_tlb_mappings)
      × Ascending (reverse (unmaps (destroy t).calls))
      × ((a : ℕ)
          → contains a (reverse (unmaps (destroy t).calls)) ≡ contains a (maps t.cthread.calls))
      × (maps (destroy t).calls ≡ maps t.cthread.calls)
unfolding destroy
destroy-unmaps t o none_yet =
    let done = unmap_all_lem t.existing_tlb_mappings t.cthread in
    let order : reverse (unmaps (destroy t).calls) ≡ t.existing_tlb_mappings =
      ap reverse (
        done.0
        ∙ ap (λ (xs : List ℕ). reverse t.existing_tlb_mappings ++ xs) none_yet
        ∙ append-nil (reverse t.existing_tlb_mappings))
      ∙ reverse-reverse t.existing_tlb_mappings in
    (order, rw order o.ordered, (λ a. rw order (o.mapped a)), done.1)
