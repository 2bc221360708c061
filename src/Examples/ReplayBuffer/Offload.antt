-- ===== src/Examples/ReplayBuffer/Offload.antt =====
-- offload_to_card of examples/03_replay_buffer/src/main.cpp (lines 141-162): every page is off-loaded
-- once, from its start.
use libstf.Base.{
  ℕ, zero, suc, ◌+◌, ◌-◌, ◌≤◌, ◌<◌, ◌≡◌, refl, ap, sym, ◌∙◌, false, ◌&&◌, List, [], ◌∷◌, arith, ltb,
  leb, min, dec_lt, dec_le, lt→ltb, le→ltb, All, All-mono, if◌then◌else◌,
}
use mathlib.Core.Path.{subst}
use libstf.Base.Action.{Result, ok}
use libstf.MemoryPool.Bounds.{Region}
use libstf.Coyote.{CThread, Call, local_offload, invoke}
use libstf.TlbManager.Mapping.{IsPaged}
use libstf.Examples.ReplayBuffer.{offload_on, offload_to_card}

-- An off-load: its address and its length.
abbrev pub Offload : Type 0
Offload = ℕ × ℕ

-- The off-loads, oldest first, put on top of the earlier calls.
abbrev pub offloads : List Offload → List Call → List Call
offloads [] calls = calls
offloads ((addr, len) ∷ xs) calls = offloads xs (invoke local_offload addr len 0 false ∷ calls)

-- How many of the off-loads have their address in a page.
abbrev pub hits : Region → List Offload → ℕ
hits r [] = 0
hits r ((addr, len) ∷ xs) = (if leb r.0 addr && ltb addr (r.0 + r.1) then 1 else 0) + hits r xs

-- An off-load from the start of a page, of at most `max` bytes, that stays in the page.
abbrev pub IsWhole : ℕ → (ℕ → Result Region) → Offload → Type 0
IsWhole max pages (addr, len) =
    (n : ℕ) × (pages addr ≡ ok (addr, n)) × (0 < len) × (len ≤ max) × (len ≤ n)

-- The off-loads of [ptr, end): each from the start of a page, and one for the page of every byte.
pub record Offloaded (max : ℕ) (pages : ℕ → Result Region) (ptr end : ℕ) (t : CThread)
    (xs : List Offload) (r : Result (Unit {0}) × CThread) : Type 0 where
  pub result : r ≡ (ok tt, record t { calls = offloads xs t.calls })
  pub whole : All (IsWhole max pages) xs
  pub within : All (λ (x : Offload). ptr ≤ x.0) xs
  pub once :
      (a : ℕ) → ptr ≤ a → a < end → (page : Region) × (pages a ≡ ok page) × (hits page xs ≡ 1)

ok_injective : {A : Type 0} (a b : A) → Result.ok a ≡ ok b → a ≡ b
ok_injective a b e = cc e

hits_none :
    (s n : ℕ) (xs : List Offload) → All (λ (x : Offload). s + n ≤ x.0) xs → hits (s, n) xs ≡ 0
hits_none s n [] h = refl
hits_none s n ((addr, len) ∷ xs) h = ground (arith, hits_none s n xs h.1, h.0)

module _ (pages : ℕ → Result Region) (lo hi : ℕ) (paged : IsPaged pages lo hi) where
  -- A page of an address behind a page starts behind it.
  behind :
      (b s a : ℕ) (r : Region)
      → pages b ≡ ok (b, s)
      → 0 < s
      → b + s ≤ a
      → pages a ≡ ok r
      → a < r.0 + r.1
      → b + s ≤ r.0
  behind b s a r found pos above e high = elim (dec_le (b + s) r.0) [
    | yes h ↦ h
    | no h ↦
        let same : r ≡ (b, s) =
          ok_injective r (b, s)
            (sym (paged.same a (b + s - 1) r e (omega arith) (omega arith))
              ∙ paged.same b (b + s - 1) (b, s) found (omega arith) (omega arith)) in
        absurd (omega (arith, ap (λ (x : Region). x.0 + x.1) same))
  ]

  -- A page that was looked up at its start has a byte.
  pub page_pos : (b s : ℕ) → lo ≤ b → b < hi → pages b ≡ ok (b, s) → 0 < s
  page_pos b s low high found =
      let (page, e, below, above) = paged.page b low high in
      omega (arith, ap (λ (x : Region). x.0 + x.1) (ok_injective page (b, s) (sym e ∙ found)))

  at_start : (a : ℕ) (r : Region) → pages a ≡ ok r → a ≡ r.0 → (n : ℕ) × (pages a ≡ ok (a, n))
  at_start a (x, n) e h = (n, subst (λ y. pages a ≡ ok (y, n)) (sym h) e)

  -- Behind a page the next one starts.
  pub next_start :
      (b s : ℕ)
      → pages b ≡ ok (b, s)
      → 0 < s
      → lo ≤ b
      → b + s < hi
      → (n : ℕ) × (pages (b + s) ≡ ok (b + s, n))
  next_start b s found pos low high =
      let (next, e, below, above) = paged.page (b + s) (omega arith) high in
      at_start (b + s) next e
        (omega (arith, behind b s (b + s) next found pos (omega arith) e above))

module _ (max : ℕ) (pages : ℕ → Result Region) (lo hi : ℕ) (paged : IsPaged pages lo hi)
    (some_bytes : 0 < max) where
  -- One off-load, of the page (b, s), before those from its end on.
  offload_more :
      (b s end : ℕ) (t : CThread) (xs : List Offload) (r : Result (Unit {0}) × CThread)
      → pages b ≡ ok (b, s)
      → 0 < s
      → lo ≤ b
      → b < end
      → end ≤ hi
      → Offloaded max pages
          (b + s)
          end
          (record t {
            calls = invoke local_offload b (min (min (b + s) end - b) max) 0 false ∷ t.calls;
          })
          xs
          r
      → Offloaded max pages b end t ((b, min (min (b + s) end - b) max) ∷ xs) r
  offload_more b s end t xs r found pos low less high rest = record {
    result = rest.result;
    whole = ((s, found, omega arith, omega arith, omega arith), rest.whole);
    within = (omega arith, All-mono _ _ xs (λ x h. omega (arith, h)) rest.within);
    once = λ a l h. elim (dec_lt a (b + s)) [
      | yes here ↦
          ((b, s), paged.same b a (b, s) found l here, ground (arith, hits_none b s xs rest.within))
      | no there ↦
          let (page, e, one) = rest.once a (omega arith) h in
          let (page', e', below, above) = paged.page a (omega arith) (omega arith) in
          let same : page' ≡ page = ok_injective page' page (sym e' ∙ e) in
          let after : b + s ≤ page.0 = omega (
            arith,
            behind pages lo hi paged b s a page' found pos (omega arith) e' above,
            ap (λ (x : Region). x.0) same,
          ) in
          (page, e, ground (arith, one, after))
    ];
  }

  -- At the end of the region nothing is left to do.
  offload_done :
      (b end : ℕ) (t : CThread) (r : Result (Unit {0}) × CThread)
      → end ≤ b
      → r ≡ (ok tt, t)
      → Offloaded max pages b end t [] r
  offload_done b end t r done e = record {
    result = e;
    whole = tt;
    within = tt;
    once = λ a l h. absurd (omega arith);
  }

  offload_on-Offloaded :
      (fuel b end : ℕ) (t : CThread)
      → end ≤ fuel + b
      → lo ≤ b
      → end ≤ hi
      → (b < end → (n : ℕ) × (pages b ≡ ok (b, n)))
      → (xs : List Offload) × Offloaded max pages b end t xs (offload_on max pages end fuel b t)
  unfolding offload_on
  offload_on-Offloaded zero b end t f low high start =
      ([], offload_done b end t _ (omega arith) (rw (le→ltb b end (omega arith)) refl))
  offload_on-Offloaded (suc fuel) b end t f low high start = elim (dec_lt b end) [
    | no done ↦ (
      [],
      offload_done b end t _ (omega arith) (rw (le→ltb b end (omega arith), offload_on) refl),
    )
    | yes less ↦
        let (s, found) = start less in
        let pos = page_pos pages lo hi paged b s low (omega arith) found in
        let len = min (min (b + s) end - b) max in
        let t1 : CThread = record t { calls = invoke local_offload b len 0 false ∷ t.calls } in
        let (xs, rest) =
          offload_on-Offloaded fuel (b + s) end t1 (omega arith) (omega arith) high
            (λ more. next_start pages lo hi paged b s found pos low (omega arith)) in
        (
          (b, len) ∷ xs,
          rw (lt→ltb b end less, found, offload_on)
              (offload_more b s end t xs _ found pos low less high rest),
        )
  ]

  -- For a region of paged memory that starts at the start of a page the loop ends, and the call
  -- returns. Each off-load starts at the start of a page, stays in it and takes at most
  -- MAX_TRANSFER_SIZE bytes; for the page of each byte of the region there is exactly one.
  pub offload_to_card-Offloaded :
      (ptr size n : ℕ) (t : CThread)
      → lo ≤ ptr
      → ptr + size ≤ hi
      → pages ptr ≡ ok (ptr, n)
      → (xs : List Offload) × Offloaded max pages ptr
          (ptr + size)
          t
          xs
          (offload_to_card max pages ptr size t)
  unfolding offload_to_card
  offload_to_card-Offloaded ptr size n t low high start =
      offload_on-Offloaded size ptr (ptr + size) t (omega arith) low high (λ less. (n, start))
