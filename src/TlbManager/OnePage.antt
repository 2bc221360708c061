-- ===== src/TlbManager/OnePage.antt =====
-- What mapping one page does of a TLBManager (software/libstf/tlb_manager.cpp lines 26-32).
use libstf.Base.{
  ℕ, ◌≡◌, refl, ◌⊎◌, inl, inr, Bool, true, false, ◌||◌, List, [], ◌∷◌, ◌++◌, arith, ap, sym, ◌∙◌,
  ◌==◌, if◌then◌else◌, All, Bool-cases,
}
use libstf.Coyote.{Call, user_map, user_unmap, set_csr, invoke, clear_completed}
use libstf.MemoryPool.Bounds.{Region}
use libstf.TlbManager.{TlbManager, contains, map_page}
use libstf.TlbManager.Pages.{
  Nodup, Ascending, maps, with_maps, Listed, contains-insert, Ascending-insert,
}

-- The values that were written to a register, oldest first.
abbrev pub sent : ℕ → List Call → List ℕ
sent reg [] = []
sent reg (user_map p n ∷ calls) = sent reg calls
sent reg (user_unmap p ∷ calls) = sent reg calls
sent reg (set_csr v r ∷ calls) = if r == reg then sent reg calls ++ (v ∷ []) else sent reg calls
sent reg (invoke o a n d l ∷ calls) = sent reg calls
sent reg (clear_completed ∷ calls) = sent reg calls

-- The set holds what the calls mapped, by address, and no page was mapped twice.
pub record Once (t : TlbManager) : Type 0 where
  pub mapped : (a : ℕ) → contains a t.existing_tlb_mappings ≡ contains a (maps t.cthread.calls)
  pub distinct : Nodup (maps t.cthread.calls)
  pub ordered : Ascending t.existing_tlb_mappings

-- What map_page maps.
abbrev pub made : Region → TlbManager → List Region
made r t = if contains r.0 t.existing_tlb_mappings then [] else r ∷ []

-- What one page does of the manager.
pub record Page (r : Region) (t t1 : TlbManager) (new : List Region) : Type 0 where
  pub calls : t1.cthread.calls ≡ with_maps new t.cthread.calls
  pub device : t1.cthread.get_csr ≡ t.cthread.get_csr
  pub fresh : All (λ (q : Region). contains q.0 t.existing_tlb_mappings ≡ false) new
  pub listed : (contains r.0 t.existing_tlb_mappings ≡ true) ⊎ Listed r new
  pub once : Once t1
  pub keeps :
      (a : ℕ)
      → contains a t.existing_tlb_mappings ≡ true
      → contains a t1.existing_tlb_mappings ≡ true
  pub adds :
      (a : ℕ)
      → contains a t1.existing_tlb_mappings ≡ true
      → (contains a t.existing_tlb_mappings ≡ true) ⊎ ((r.0 ≡ a) × Listed r new)
  pub quiet : (reg : ℕ) → sent reg t1.cthread.calls ≡ sent reg t.cthread.calls

was_or : (a b : ℕ) (c : Bool) → ((a == b) || c) ≡ true → (c ≡ true) ⊎ (a ≡ b)
was_or a b c h = ground arith

or_true : (p c : Bool) → c ≡ true → (p || c) ≡ true
or_true true c h = refl
or_true false c h = h

pub map_page-Page : (r : Region) (t : TlbManager) → Once t → Page r t (map_page r t) (made r t)
map_page-Page r t o = elim (Bool-cases (contains r.0 t.existing_tlb_mappings)) [
  | inl there ↦ rw there (record {
    calls = refl;
    device = refl;
    fresh = tt;
    listed = inl there;
    once = o;
    keeps = λ a c. c;
    adds = λ a c. inl c;
    quiet = λ reg. refl;
  })
  | inr absent ↦ rw absent (record {
    calls = refl;
    device = refl;
    fresh = (absent, tt);
    listed = inr (inl refl);
    once = record {
      mapped = λ a.
          contains-insert r.0 a t.existing_tlb_mappings
          ∙ ap (λ (c : Bool). (r.0 == a) || c) (o.mapped a);
      distinct = (sym (o.mapped r.0) ∙ absent, o.distinct);
      ordered = Ascending-insert r.0 t.existing_tlb_mappings o.ordered;
    };
    keeps = λ a c. contains-insert r.0 a t.existing_tlb_mappings ∙ or_true (r.0 == a) _ c;
    adds = λ a c.
        elim (was_or r.0 a (contains a t.existing_tlb_mappings)
          (sym (contains-insert r.0 a t.existing_tlb_mappings) ∙ c)) [
            | inl before ↦ inl before
            | inr e ↦ inr (e, inl refl)
          ];
    quiet = λ reg. refl;
  })
]
