-- ===== src/MemoryPool/Blocks.antt =====
-- The map allocated_buffers of SimpleMemoryPool (software/libstf/memory_pool.hpp line 292): from the
-- address of each live block to its size. It stands for a std::unordered_map, whose order the code
-- does not fix; here a new entry comes first.
use libstf.Base.{
  ℕ, suc, ◌+◌, ◌≤◌, ◌<◌, ◌≡◌, refl, ◌≢◌, ◌⊎◌, inr, Option, none, some, List, [], ◌∷◌, arith, ◌==◌,
  if◌then◌else◌, length,
}
use libstf.MemoryPool.Bounds.{Region}

abbrev pub lookup : ℕ → List Region → Option ℕ
lookup ptr [] = none
lookup ptr ((p, n) ∷ blocks) = if p == ptr then some n else lookup ptr blocks

-- `emplace` leaves an existing entry as it is.
abbrev pub emplace : ℕ → ℕ → List Region → List Region
emplace ptr size blocks = elim (lookup ptr blocks) [ none ↦ (ptr, size) ∷ blocks | some _ ↦ blocks ]

abbrev pub erase : ℕ → List Region → List Region
erase ptr [] = []
erase ptr ((p, n) ∷ blocks) = if p == ptr then blocks else (p, n) ∷ erase ptr blocks

-- The bytes of all blocks.
abbrev pub total_size : List Region → ℕ
total_size [] = 0
total_size ((p, n) ∷ blocks) = n + total_size blocks

pub total_size-erase :
    (ptr n : ℕ) (blocks : List Region)
    → lookup ptr blocks ≡ some n
    → total_size (erase ptr blocks) + n ≡ total_size blocks
total_size-erase ptr n [] e = cc
total_size-erase ptr n (b ∷ blocks) e = ground (arith, total_size-erase ptr n blocks)

pub length-erase :
    (ptr n : ℕ) (blocks : List Region)
    → lookup ptr blocks ≡ some n
    → suc (length (erase ptr blocks)) ≡ length blocks
length-erase ptr n [] e = cc
length-erase ptr n (b ∷ blocks) e = ground (arith, length-erase ptr n blocks)

-- Every block is a non-empty part of [lo, hi).
abbrev pub Within : ℕ → ℕ → List Region → Type 0
Within lo hi [] = Unit {0}
Within lo hi ((p, n) ∷ blocks) = (lo ≤ p) × (0 < n) × (p + n ≤ hi) × Within lo hi blocks

-- The block (p, n) has no byte in common with the others.
abbrev pub IsApart : ℕ → ℕ → List Region → Type 0
IsApart p n [] = Unit {0}
IsApart p n ((q, m) ∷ blocks) = ((p + n ≤ q) ⊎ (q + m ≤ p)) × IsApart p n blocks

abbrev pub Disjoint : List Region → Type 0
Disjoint [] = Unit {0}
Disjoint ((p, n) ∷ blocks) = IsApart p n blocks × Disjoint blocks

pub Within-mono :
    (lo hi lo' hi' : ℕ) (blocks : List Region)
    → lo' ≤ lo
    → hi ≤ hi'
    → Within lo hi blocks
    → Within lo' hi' blocks
Within-mono lo hi lo' hi' [] l h w = tt
Within-mono lo hi lo' hi' (b ∷ blocks) l h w =
    (omega arith, w.1, omega arith, Within-mono lo hi lo' hi' blocks l h w.3)

pub Within-erase :
    (lo hi ptr : ℕ) (blocks : List Region) → Within lo hi blocks → Within lo hi (erase ptr blocks)
Within-erase lo hi ptr [] w = tt
Within-erase lo hi ptr (b ∷ blocks) w = ground (arith, Within-erase lo hi ptr blocks w.3)

IsApart-erase :
    (p n ptr : ℕ) (blocks : List Region) → IsApart p n blocks → IsApart p n (erase ptr blocks)
IsApart-erase p n ptr [] w = tt
IsApart-erase p n ptr (b ∷ blocks) w = ground (arith, IsApart-erase p n ptr blocks w.1)

pub Disjoint-erase :
    (ptr : ℕ) (blocks : List Region) → Disjoint blocks → Disjoint (erase ptr blocks)
Disjoint-erase ptr [] w = tt
Disjoint-erase ptr (b ∷ blocks) w =
    ground (arith, Disjoint-erase ptr blocks w.1, IsApart-erase b.0 b.1 ptr blocks w.0)

-- A block above all the others is apart from them, and its address is new.
pub IsApart-above :
    (lo hi p n : ℕ) (blocks : List Region) → Within lo hi blocks → hi ≤ p → IsApart p n blocks
IsApart-above lo hi p n [] w h = tt
IsApart-above lo hi p n (b ∷ blocks) w h = (inr (omega arith), IsApart-above lo hi p n blocks w.3 h)

pub lookup_above :
    (lo hi p : ℕ) (blocks : List Region) → Within lo hi blocks → hi ≤ p → lookup p blocks ≡ none
lookup_above lo hi p [] w h = refl
lookup_above lo hi p (b ∷ blocks) w h = ground (arith, lookup_above lo hi p blocks w.3 h)

pub lookup-erase_ne :
    (p q : ℕ) (blocks : List Region) → p ≢ q → lookup q (erase p blocks) ≡ lookup q blocks
lookup-erase_ne p q [] h = refl
lookup-erase_ne p q (b ∷ blocks) h = ground (arith, lookup-erase_ne p q blocks h)

pub lookup-Within :
    (lo hi p n : ℕ) (blocks : List Region)
    → Within lo hi blocks
    → lookup p blocks ≡ some n
    → (lo ≤ p) × (0 < n) × (p + n ≤ hi)
lookup-Within lo hi p n [] w e = cc
lookup-Within lo hi p n (b ∷ blocks) w e = ground (arith, lookup-Within lo hi p n blocks w.3)
