-- ===== src/MemoryPool/Extents/Histories.antt =====
-- The extents that HugePageMemoryPool::huge_page_alloc hands out (software/libstf/memory_pool.cpp
-- lines 299-334).
use libstf.Base.{
  ℕ, ◌+◌, ◌-◌, ◌/◌, ◌%◌, ◌≤◌, ◌<◌, ◌≡◌, refl, ap, ◌∙◌, ◌⊎◌, inl, inr, none, some, true, List, [],
  ◌∷◌, arith, All, ne→==, dec_lt, lt→ltb, le→ltb,
}
use mathlib.Core.Path.{subst}
use libstf.Base.Action.{ok}
use libstf.MemoryPool.Bounds.{Region}
use libstf.MemoryPool.Blocks.{Within, Disjoint, IsApart-above, Within-mono}
use libstf.MemoryPool.Extents.{ExtentPool, round_up, huge_page_alloc, alloc_all}
use native.Mathlib.Nat.{div-mul-le_self, lt-div-mul-add, mul-mod_left}

round_up_bounds :
    (ptr alignment : ℕ)
    → 0 < alignment
    → (ptr ≤ round_up ptr alignment)
      × (round_up ptr alignment < ptr + alignment)
      × (round_up ptr alignment % alignment ≡ 0)
round_up_bounds ptr alignment pos = (
  omega (arith, lt-div-mul-add {a = ptr + alignment - 1} pos),
  omega (arith, div-mul-le_self (ptr + alignment - 1) alignment),
  mul-mod_left ((ptr + alignment - 1) / alignment) alignment,
)

-- The hook fails only where the padding and the size exceed what is left, and changes nothing then;
-- otherwise it takes them from the front of what is left.
pub huge_page_alloc_lem :
    (size alignment : ℕ) (p : ExtentPool)
    → 0 < alignment
    → let at = round_up p.next_free_addr alignment in
      ((huge_page_alloc 0 size alignment p ≡ (ok (record { address = 0; zero_commit = none }), p))
        × (p.next_free_addr + p.remaining_capacity < at + size))
      ⊎ ((q : ExtentPool) × (huge_page_alloc 0 size alignment p
            ≡ (ok (record { address = at; zero_commit = some (true, true) }), q))
          × (q.next_free_addr ≡ at + size)
          × (q.next_free_addr + q.remaining_capacity ≡ p.next_free_addr + p.remaining_capacity)
          × (at % alignment ≡ 0)
          × (p.next_free_addr ≤ at))
unfolding huge_page_alloc
huge_page_alloc_lem size alignment p pos =
    let b = round_up_bounds p.next_free_addr alignment pos in
    let at = round_up p.next_free_addr alignment in
    elim (dec_lt p.remaining_capacity (at - p.next_free_addr + size)) [
      | yes full ↦ inl (rw (lt→ltb _ _ full), omega arith)
      | no room ↦ inr (
        record {
          next_free_addr = at + size;
          remaining_capacity = p.remaining_capacity - (at - p.next_free_addr) - size;
        },
        rw (le→ltb p.remaining_capacity (at - p.next_free_addr + size) (omega arith)),
        refl,
        omega arith,
        b.2,
        b.0,
      )
    ]

-- Every request has a size and an alignment.
abbrev pub IsRequest : ℕ × ℕ → Type 0
IsRequest (size, alignment) = (0 < size) × (0 < alignment)

-- The end of the newest extent, or the start where there is none.
abbrev pub end_of : ℕ → List Region → ℕ
end_of lo [] = lo
end_of lo ((at, size) ∷ got) = at + size

-- The extents so far lie apart between `lo` and the next free address, where the newest one ends.
pub record Handed (lo : ℕ) (got : List Region) (p : ExtentPool) : Type 0 where
  pub positive : 0 < lo
  pub above : lo ≤ p.next_free_addr
  pub within : Within lo p.next_free_addr got
  pub disjoint : Disjoint got
  pub newest : p.next_free_addr ≡ end_of lo got

alloc_all-Handed :
    (requests : List (ℕ × ℕ)) (got : List Region) (lo : ℕ) (p : ExtentPool)
    → All IsRequest requests
    → Handed lo got p
    → let r = alloc_all requests got p in
      Handed lo r.0 r.1
      × (r.1.next_free_addr + r.1.remaining_capacity ≡ p.next_free_addr + p.remaining_capacity)
unfolding alloc_all
alloc_all-Handed [] got lo p rs h = (h, refl)
alloc_all-Handed ((size, alignment) ∷ requests) got lo p rs h =
    elim (huge_page_alloc_lem size alignment p rs.0.1) [
      | inl (e, _) ↦ rw (e, alloc_all) (alloc_all-Handed requests got lo p rs.1 h)
      | inr (q, e, next, sum, _, above) ↦
          let at = round_up p.next_free_addr alignment in
          let later = alloc_all-Handed requests ((at, size) ∷ got) lo q rs.1 (record {
            positive = h.positive;
            above = omega arith;
            within = (
              omega arith,
              rs.0.0,
              omega arith,
              Within-mono lo p.next_free_addr lo q.next_free_addr got (omega arith) (omega arith)
                  h.within,
            );
            disjoint = (IsApart-above lo p.next_free_addr at size got h.within above, h.disjoint);
            newest = next;
          }) in
          rw (e, alloc_all, ne→== at 0 (omega arith)) (later.0, later.1 ∙ sum)
    ]

-- What the hook answers to a request, after it gave out `got` of the bytes of [lo, hi): it fails, and
-- changes nothing, only where the request does not fit behind the newest extent, and else it gives out
-- the first aligned place there.
abbrev pub Answers : ℕ → ℕ → ℕ × ℕ → List Region → ExtentPool → Type 0
Answers lo hi (size, alignment) got p =
    let at = round_up (end_of lo got) alignment in
    ((huge_page_alloc 0 size alignment p ≡ (ok (record { address = 0; zero_commit = none }), p))
      × (hi < at + size))
    ⊎ ((q : ExtentPool) × (huge_page_alloc 0 size alignment p
          ≡ (ok (record { address = at; zero_commit = some (true, true) }), q))
        × (at % alignment ≡ 0)
        × (end_of lo got ≤ at)
        × (at < end_of lo got + alignment)
        × (at + size ≤ hi))

answers :
    (lo hi size alignment : ℕ) (got : List Region) (p : ExtentPool)
    → 0 < alignment
    → p.next_free_addr ≡ end_of lo got
    → p.next_free_addr + p.remaining_capacity ≡ hi
    → Answers lo hi (size, alignment) got p
answers lo hi size alignment got p pos newest sum =
    let b = round_up_bounds (end_of lo got) alignment pos in
    let same : round_up p.next_free_addr alignment ≡ round_up (end_of lo got) alignment =
      ap (λ a. round_up a alignment) newest in
    elim (huge_page_alloc_lem size alignment p pos) [
      | inl (e, full) ↦ inl (e, omega (arith, same))
      | inr (q, e, next, left, aligned, above) ↦ inr (
        q,
        subst
            (λ a.
              huge_page_alloc 0 size alignment p
              ≡ (ok (record { address = a; zero_commit = some (true, true) }), q))
            same e,
        b.2,
        b.0,
        b.1,
        omega (arith, same),
      )
    ]

-- From the `total` bytes mapped at `initial`, any sequence of requests gets extents that lie in those
-- bytes, none over another, the free address and the counter of what is left reach up to the end of those
-- bytes, and whatever is asked next, the hook fails only where the request does not
-- fit behind the newest extent, and else gives out the first aligned place behind that.
pub alloc_all_extents :
    (initial total : ℕ) (requests : List (ℕ × ℕ)) (next : ℕ × ℕ)
    → 0 < initial
    → All IsRequest requests
    → IsRequest next
    → let r =
        alloc_all requests [] (record { next_free_addr = initial; remaining_capacity = total }) in
      Within initial (initial + total) r.0
      × Disjoint r.0
      × (r.1.next_free_addr + r.1.remaining_capacity ≡ initial + total)
      × Answers initial (initial + total) next r.0 r.1
alloc_all_extents initial total requests next pos rs is_request =
    let start : ExtentPool = record { next_free_addr = initial; remaining_capacity = total } in
    let done =
      alloc_all-Handed requests [] initial start rs (record {
        positive = pos;
        above = omega arith;
        within = tt;
        disjoint = tt;
        newest = refl;
      }) in
    let r = alloc_all requests [] start in
    (
      Within-mono initial r.1.next_free_addr initial (initial + total) r.0 (omega arith)
          (omega (arith, done.1)) done.0.within,
      done.0.disjoint,
      done.1,
      answers initial (initial + total) next.0 next.1 r.0 r.1 is_request.1 done.0.newest done.1,
    )
