-- ===== src/TlbManager/Pages.antt =====
-- The set of mapped pages of the TLBManager, and the pages that its calls map and unmap (software/libstf/
-- tlb_manager.cpp lines 13-32).
use libstf.Base.{
  ℕ, ◌<◌, ◌≡◌, refl, ◌⊎◌, inl, inr, Bool, true, false, ◌||◌, List, [], ◌∷◌, ◌++◌, arith, ◌==◌, All,
  All-mono, dec_lt, ℕ_discrete, lt→ltb, le→ltb, eq→==, ne→==,
}
use libstf.Coyote.{Call, user_map, user_unmap, set_csr, invoke, clear_completed}
use libstf.MemoryPool.Bounds.{Region}
use libstf.TlbManager.{contains, insert}

abbrev pub Nodup : List ℕ → Type 0
Nodup [] = Unit {0}
Nodup (x ∷ xs) = (contains x xs ≡ false) × Nodup xs

-- Each is below all that follow it.
abbrev pub Ascending : List ℕ → Type 0
Ascending [] = Unit {0}
Ascending (x ∷ xs) = All (λ (y : ℕ). x < y) xs × Ascending xs

-- The pages that the calls so far mapped, and those that they unmapped, newest first.
abbrev pub maps : List Call → List ℕ
maps [] = []
maps (user_map p n ∷ calls) = p ∷ maps calls
maps (user_unmap p ∷ calls) = maps calls
maps (set_csr v r ∷ calls) = maps calls
maps (invoke o a n d l ∷ calls) = maps calls
maps (clear_completed ∷ calls) = maps calls

abbrev pub unmaps : List Call → List ℕ
unmaps [] = []
unmaps (user_map p n ∷ calls) = unmaps calls
unmaps (user_unmap p ∷ calls) = p ∷ unmaps calls
unmaps (set_csr v r ∷ calls) = unmaps calls
unmaps (invoke o a n d l ∷ calls) = unmaps calls
unmaps (clear_completed ∷ calls) = unmaps calls

-- The calls that map these pages with their sizes, oldest first, put on top of the earlier calls.
abbrev pub with_maps : List Region → List Call → List Call
with_maps [] calls = calls
with_maps ((page, size) ∷ new) calls = with_maps new (user_map page size ∷ calls)

pub with_maps-append :
    (xs ys : List Region) (calls : List Call)
    → with_maps (xs ++ ys) calls ≡ with_maps ys (with_maps xs calls)
with_maps-append [] ys calls = refl
with_maps-append ((page, size) ∷ xs) ys calls = with_maps-append xs ys (user_map page size ∷ calls)

-- The page is one of these.
abbrev pub Listed : Region → List Region → Type 0
Listed q [] = ⊥
Listed q (x ∷ xs) = (x ≡ q) ⊎ Listed q xs

pub Listed-behind : (q : Region) (xs ys : List Region) → Listed q ys → Listed q (xs ++ ys)
Listed-behind q [] ys l = l
Listed-behind q (x ∷ xs) ys l = inr (Listed-behind q xs ys l)

pub Listed-before : (q : Region) (xs ys : List Region) → Listed q xs → Listed q (xs ++ ys)
Listed-before q [] ys l = absurd l
Listed-before q (x ∷ xs) ys (inl e) = inl e
Listed-before q (x ∷ xs) ys (inr l) = inr (Listed-before q xs ys l)

-- A set with a new page holds that one and those it held.
pub contains-insert :
    (a b : ℕ) (xs : List ℕ) → contains b (insert a xs) ≡ ((a == b) || contains b xs)
contains-insert a b [] = refl
contains-insert a b (x ∷ xs) = elim (dec_lt a x) [
  | yes below ↦ rw (lt→ltb a x below) refl
  | no above ↦ elim (ℕ_discrete x a) [
    | yes e ↦ rw (le→ltb a x (omega arith), eq→== x a e, e) (twice (a == b) (contains b xs))
    | no d ↦
        rw (le→ltb a x (omega arith), ne→== x a d, contains-insert a b xs)
          (swap (x == b) (a == b) (contains b xs))
  ]
]
  where
    twice : (p q : Bool) → (p || q) ≡ (p || (p || q))
    twice true q = refl
    twice false q = refl

    swap : (p q r : Bool) → (p || (q || r)) ≡ (q || (p || r))
    swap true true r = refl
    swap true false r = refl
    swap false q r = refl

All-insert : (P : ℕ → Type 0) (a : ℕ) (xs : List ℕ) → P a → All P xs → All P (insert a xs)
All-insert P a [] p h = (p, tt)
All-insert P a (x ∷ xs) p h = elim (dec_lt a x) [
  | yes below ↦ rw (lt→ltb a x below) (p, h)
  | no above ↦ elim (ℕ_discrete x a) [
    | yes e ↦ rw (le→ltb a x (omega arith), eq→== x a e) h
    | no d ↦ rw (le→ltb a x (omega arith), ne→== x a d) (h.0, All-insert P a xs p h.1)
  ]
]

pub Ascending-insert : (a : ℕ) (xs : List ℕ) → Ascending xs → Ascending (insert a xs)
Ascending-insert a [] h = (tt, tt)
Ascending-insert a (x ∷ xs) h = elim (dec_lt a x) [
  | yes below ↦
      rw (lt→ltb a x below)
        ((below, All-mono (λ (y : ℕ). x < y) (λ (y : ℕ). a < y) xs (λ y l. omega arith) h.0), h)
  | no above ↦ elim (ℕ_discrete x a) [
    | yes e ↦ rw (le→ltb a x (omega arith), eq→== x a e) h
    | no d ↦
        rw (le→ltb a x (omega arith), ne→== x a d)
          (All-insert (λ (y : ℕ). x < y) a xs (omega arith) h.0, Ascending-insert a xs h.1)
  ]
]
