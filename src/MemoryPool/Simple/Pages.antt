-- ===== src/MemoryPool/Simple/Pages.antt =====
-- SimpleMemoryPool::get_page_boundaries (software/libstf/memory_pool.cpp lines 476-488).
use libstf.Base.{
  ℕ, ◌+◌, ◌≤◌, ◌<◌, ◌≡◌, refl, ◌⊎◌, inl, inr, some, List, [], ◌∷◌, arith, Bool-cases, sym, ◌∙◌,
}
use libstf.Base.Action.{ok, err, runtime_error}
use libstf.MemoryPool.Bounds.{Region, is_buffer_within_bounds}
use libstf.MemoryPool.Blocks.{lookup, Within, IsApart, Disjoint, lookup-Within}
use libstf.MemoryPool.Simple.{SimpleMemoryPool, find_page, get_page_boundaries}
use libstf.MemoryPool.Simple.Invariant.{Inv}

-- The block (p, n) holds the byte at an address.
abbrev pub Holds : ℕ → ℕ → ℕ → Type 0
Holds a p n = (p ≤ a) × (a < p + n)

-- A block apart from all others shares no byte with a live one.
IsApart-lookup :
    (p n q m : ℕ) (blocks : List Region)
    → IsApart p n blocks
    → lookup q blocks ≡ some m
    → (p + n ≤ q) ⊎ (q + m ≤ p)
IsApart-lookup p n q m [] d e = cc
IsApart-lookup p n q m (b ∷ blocks) d e = ground (arith, IsApart-lookup p n q m blocks d.1)

-- A block that is found is live and holds the address.
find_page_sound :
    (a p n lo hi : ℕ) (blocks : List Region)
    → Within lo hi blocks
    → Disjoint blocks
    → find_page a blocks ≡ ok (p, n)
    → (lookup p blocks ≡ some n) × Holds a p n
unfolding find_page is_buffer_within_bounds
find_page_sound a p n lo hi [] w d e = cc
find_page_sound a p n lo hi (b ∷ blocks) w d e = ground (
  arith,
  find_page_sound a p n lo hi blocks w.3 d.1,
  IsApart-lookup b.0 b.1 p n blocks d.0,
  lookup-Within lo hi p n blocks w.3,
)

-- The live block that holds an address is found.
find_page_complete :
    (a p n : ℕ) (blocks : List Region)
    → Disjoint blocks
    → lookup p blocks ≡ some n
    → Holds a p n
    → find_page a blocks ≡ ok (p, n)
unfolding find_page is_buffer_within_bounds
find_page_complete a p n [] d e h = cc
find_page_complete a p n (b ∷ blocks) d e h =
    ground (arith, find_page_complete a p n blocks d.1, IsApart-lookup b.0 b.1 p n blocks d.0)

find_page_cases :
    (a : ℕ) (blocks : List Region)
    → (find_page a blocks ≡ err runtime_error) ⊎ ((b : Region) × (find_page a blocks ≡ ok b))
unfolding find_page
find_page_cases a [] = inl refl
find_page_cases a (b ∷ blocks) = elim (Bool-cases (is_buffer_within_bounds b (a, 1))) [
  | inl e ↦ inr (b, rw e)
  | inr e ↦ rw e (find_page_cases a blocks)
]

-- The page of an address is the live block that holds it, and the call throws exactly if none does.
pub get_page_boundaries_block :
    (a : ℕ) (p : SimpleMemoryPool)
    → Inv p
    → ((get_page_boundaries a p ≡ err runtime_error)
        × ((q n : ℕ) → lookup q p.allocated_buffers ≡ some n → ¬ Holds a q n))
      ⊎ ((q : ℕ) × (n : ℕ) × (get_page_boundaries a p ≡ ok (q, n))
          × (lookup q p.allocated_buffers ≡ some n)
          × Holds a q n)
unfolding get_page_boundaries
get_page_boundaries_block a p v = elim (find_page_cases a p.allocated_buffers) [
  | inl e ↦ inl (e, λ q n live h. ok≢err (sym (find_page_complete a q n _ v.disjoint live h) ∙ e))
  | inr (b, e) ↦
      let found = find_page_sound a b.0 b.1 _ _ p.allocated_buffers v.within v.disjoint e in
      inr (b.0, b.1, e, found.0, found.1)
]
  where
    ok≢err : {b : Region} → ok b ≡ err runtime_error → ⊥
    ok≢err e = cc

-- Where the invariant holds, get_page_boundaries of an address in a live block returns this block.
pub get_page_boundaries_complete :
    (a q n : ℕ) (p : SimpleMemoryPool)
    → Inv p
    → lookup q p.allocated_buffers ≡ some n
    → Holds a q n
    → get_page_boundaries a p ≡ ok (q, n)
unfolding get_page_boundaries
get_page_boundaries_complete a q n p v live h =
    find_page_complete a q n p.allocated_buffers v.disjoint live h

-- Where the invariant holds, what get_page_boundaries returns is a live block, and it holds the address.
pub get_page_boundaries_sound :
    (a : ℕ) (r : Region) (p : SimpleMemoryPool)
    → Inv p
    → get_page_boundaries a p ≡ ok r
    → (lookup r.0 p.allocated_buffers ≡ some r.1) × Holds a r.0 r.1
unfolding get_page_boundaries
get_page_boundaries_sound a r p v e =
    find_page_sound a r.0 r.1 _ _ p.allocated_buffers v.within v.disjoint e
