-- ===== src/Transfers/Tiling.antt =====
-- The transfers that enqueue_stream_input and enqueue_stream_output post (software/libstf/util.cpp
-- lines 15-29 and examples/02_typed_dictionary/src/main.cpp lines 130-145).
use libstf.Base.{
  ℕ, zero, suc, ◌+◌, ◌-◌, ◌≤◌, ◌<◌, ◌≡◌, refl, Bool, true, false, ◌&&◌, List, [], ◌∷◌, arith,
  length, leb, min, dec_lt, lt→ltb, le→ltb, le→leb, ap, ◌∙◌,
}
use mathlib.Core.Path.{subst}
use libstf.Base.Word.{u64_mod, wrap_add}
use libstf.Base.Action.{Result, ok, ◌>>◌, pure, >>=-ok}
use libstf.Coyote.{Call, Oper, local_read, local_write, invoke}
use libstf.MemoryPool.Bounds.{Region}
use libstf.TlbManager.{TlbManager, ensure_tlb_mapping}
use libstf.TlbManager.OnePage.{Once}
use libstf.TlbManager.Mapping.{IsPaged, Ensured, ensure_tlb_mapping-Ensured}
use libstf.Transfers.{post_transfer, post_transfers, enqueue_stream_input, enqueue_stream_output}

-- A transfer: its address, its length and whether it is marked as the last.
pub record Transfer : Type 0 where
  pub addr : ℕ
  pub len : ℕ
  pub last : Bool

-- The transfers, oldest first, put on top of the earlier calls.
abbrev pub posted : Oper → ℕ → List Transfer → List Call → List Call
posted oper stream [] calls = calls
posted oper stream (x ∷ xs) calls =
    posted oper stream xs (invoke oper x.addr x.len stream x.last ∷ calls)

abbrev is_nil : List Transfer → Bool
is_nil [] = true
is_nil (x ∷ xs) = false

-- The transfers follow one another from `a` to `e`, in non-empty pieces of at most `max` bytes, and
-- the final one alone carries the mark.
abbrev pub Tiles : ℕ → Bool → ℕ → ℕ → List Transfer → Type 0
Tiles max mark a e [] = a ≡ e
Tiles max mark a e (x ∷ xs) =
    (x.addr ≡ a)
    × (0 < x.len)
    × (x.len ≤ max)
    × (x.last ≡ (is_nil xs && mark))
    × Tiles max mark (a + x.len) e xs

-- The state with the transfers posted.
abbrev pub after_posting : Oper → ℕ → List Transfer → TlbManager → TlbManager
after_posting oper stream xs t = record t {
  cthread = record t.cthread { calls = posted oper stream xs t.cthread.calls };
}

beyond : (a b : ℕ) → b < a → leb a b ≡ false
beyond a b h = ground arith

Tiles-nonempty :
    (max : ℕ) (mark : Bool) (a e : ℕ) (xs : List Transfer)
    → Tiles max mark a e xs
    → a < e
    → is_nil xs ≡ false
Tiles-nonempty max mark a e [] t h = absurd (omega arith)
Tiles-nonempty max mark a e (x ∷ xs) t h = refl

module _ (max : ℕ) (oper : Oper) (ptr size stream : ℕ) (mark : Bool) (pos : 0 < max)
    (small : size + max < u64_mod) where
  -- Past the end no transfer is posted.
  post_transfers_end :
      (fuel off n : ℕ) (t : TlbManager)
      → size ≤ off
      → post_transfers max oper ptr size stream mark fuel off n t ≡ (ok n, t)
  unfolding post_transfers
  post_transfers_end zero off n t h = rw (le→ltb off size h, post_transfers) refl
  post_transfers_end (suc fuel) off n t h = rw (le→ltb off size h, post_transfers) refl

  -- From an offset on, what is left is posted.
  abbrev Posts : ℕ → ℕ → ℕ → TlbManager → Type 0
  Posts fuel off n t =
      (xs : List Transfer) × (post_transfers max oper ptr size stream mark fuel off n t
        ≡ (ok (n + length xs), after_posting oper stream xs t))
      × Tiles max mark (ptr + off) (ptr + size) xs

  no_more : (fuel off n : ℕ) (t : TlbManager) → off ≡ size → Posts fuel off n t
  no_more fuel off n t e = (
    [],
    post_transfers_end fuel off n t (omega arith) ∙ ap (λ k. (ok k, t)) (omega arith),
    ap (λ x. ptr + x) e,
  )

  chunk : ℕ → Transfer
  chunk off = record {
    addr = ptr + off;
    len = min (size - off) max;
    last = leb size (wrap_add u64_mod off max) && mark;
  }

  final_chunk :
      (fuel off n : ℕ) (t : TlbManager) → off < size → size ≤ off + max → Posts (suc fuel) off n t
  unfolding post_transfers chunk
  final_chunk fuel off n t go fits =
      let next : wrap_add u64_mod off max ≡ off + max = omega arith in
      (
        chunk off ∷ [],
        rw (lt→ltb off size go, post_transfers)
            (post_transfers_end fuel (wrap_add u64_mod off max) (n + 1)
              (post_transfer max oper ptr size stream mark off t) (omega arith)),
        (refl, omega arith, omega arith, rw (next, le→leb size (off + max) fits) refl, omega arith),
      )

  further_chunk :
      (fuel off n : ℕ) (t : TlbManager)
      → off + max < size
      → Posts fuel
          (wrap_add u64_mod off max)
          (n + 1)
          (post_transfer max oper ptr size stream mark off t)
      → Posts (suc fuel) off n t
  unfolding post_transfers chunk
  further_chunk fuel off n t further (xs, run, tiles) =
      let next : wrap_add u64_mod off max ≡ off + max = omega arith in
      let more : is_nil xs ≡ false =
        Tiles-nonempty max mark (ptr + wrap_add u64_mod off max) (ptr + size) xs tiles
          (omega arith) in
      let go : off < size = omega arith in
      (
        chunk off ∷ xs,
        rw (lt→ltb off size go, post_transfers)
            (run ∙ ap (λ k. (ok k, after_posting oper stream (chunk off ∷ xs) t)) (omega arith)),
        (
          refl,
          omega arith,
          omega arith,
          rw (next, beyond size (off + max) further, more) refl,
          subst (λ a. Tiles max mark a (ptr + size) xs) (omega arith) tiles,
        ),
      )

  post_transfers-Tiles :
      (fuel off n : ℕ) (t : TlbManager) → off ≤ size → size ≤ off + fuel → Posts fuel off n t
  post_transfers-Tiles zero off n t h f = no_more zero off n t (omega arith)
  post_transfers-Tiles (suc fuel) off n t h f = elim (dec_lt off size) [
    | no stop ↦ no_more (suc fuel) off n t (omega arith)
    | yes go ↦ elim (dec_lt (off + max) size) [
      | no final ↦ final_chunk fuel off n t go (omega arith)
      | yes further ↦ further_chunk fuel off n t further (
          post_transfers-Tiles fuel (wrap_add u64_mod off max) (n + 1)
            (post_transfer max oper ptr size stream mark off t) (omega arith) (omega arith))
    ]
  ]

  all_posted :
      (mapped : TlbManager)
      → Posts size 0 0 mapped
      → (xs : List Transfer) × (post_transfers max oper ptr size stream mark size 0 0 mapped
          ≡ (ok (length xs), after_posting oper stream xs mapped))
        × Tiles max mark ptr (ptr + size) xs
  all_posted mapped (xs, run, tiles) = (
    xs,
    run ∙ ap (λ k. (ok k, after_posting oper stream xs mapped)) (omega arith),
    subst (λ a. Tiles max mark a (ptr + size) xs) (omega arith) tiles,
  )

module _ (pages : ℕ → Result Region) (lo hi : ℕ) (paged : IsPaged pages lo hi)
    (max ptr size stream : ℕ) (pos : 0 < max) (small : size + max < u64_mod) (t : TlbManager)
    (l : lo ≤ ptr) (h : ptr < hi) (e : ptr + size ≤ hi) (once : Once t) where
  run_posts :
      (oper : Oper) (mark : Bool) (mapped : TlbManager)
      → (xs : List Transfer) × (post_transfers max oper ptr size stream mark size 0 0 mapped
          ≡ (ok (length xs), after_posting oper stream xs mapped))
        × Tiles max mark ptr (ptr + size) xs
  run_posts oper mark mapped = all_posted max oper ptr size stream mark pos small mapped (
      post_transfers-Tiles max oper ptr size stream mark pos small size 0 0 mapped (omega arith)
        (omega arith))

  -- For a region of the paged memory, a positive transfer limit and a size that does not pass 2 ^ 64
  -- with it, where the set of the manager is what was mapped, enqueue_stream_input returns. It first
  -- maps the pages of the region, or of its start where it is empty, that were not mapped, and makes no
  -- other call up to `mapped`. The only calls after that are reads that cover the region from its start
  -- to its end without gap or overlap, each non-empty and within the limit; the final one alone is
  -- marked as the last, and only where the caller asks for that.
  pub enqueue_stream_input-Tiles :
      (last : Bool)
      → (xs : List Transfer) × (mapped : TlbManager) × (enqueue_stream_input max pages ptr size
            stream last t
          ≡ (ok tt, after_posting local_read stream xs mapped))
        × Ensured pages ptr size t (ok tt, mapped)
        × Tiles max last ptr (ptr + size) xs
  unfolding enqueue_stream_input
  enqueue_stream_input-Tiles last =
      let done = ensure_tlb_mapping-Ensured pages lo hi paged ptr size t l h e once in
      let mapped = (ensure_tlb_mapping pages ptr size t).1 in
      let (xs, run, tiles) = run_posts local_read last mapped in
      (
        xs,
        mapped,
        >>=-ok (ensure_tlb_mapping pages ptr size)
              (λ _. post_transfers max local_read ptr size stream last size 0 0 >> pure tt) t
              (ap (λ r. (r, mapped)) done.returns)
            ∙ >>=-ok (post_transfers max local_read ptr size stream last size 0 0) (λ _. pure tt)
                mapped run,
        subst (λ (r : Result (Unit {0})). Ensured pages ptr size t (r, mapped)) done.returns done,
        tiles,
      )

  -- The same for the writes of enqueue_stream_output, whose final one is always marked, and which
  -- returns how many there are.
  pub enqueue_stream_output-Tiles :
      (xs : List Transfer) × (mapped : TlbManager) × (enqueue_stream_output max pages ptr size
          stream t
        ≡ (ok (length xs), after_posting local_write stream xs mapped))
      × Ensured pages ptr size t (ok tt, mapped)
      × Tiles max true ptr (ptr + size) xs
  unfolding enqueue_stream_output
  enqueue_stream_output-Tiles =
      let done = ensure_tlb_mapping-Ensured pages lo hi paged ptr size t l h e once in
      let mapped = (ensure_tlb_mapping pages ptr size t).1 in
      let (xs, run, tiles) = run_posts local_write true mapped in
      (
        xs,
        mapped,
        >>=-ok (ensure_tlb_mapping pages ptr size)
              (λ _. post_transfers max local_write ptr size stream true size 0 0) t
              (ap (λ r. (r, mapped)) done.returns)
            ∙ run,
        subst (λ (r : Result (Unit {0})). Ensured pages ptr size t (r, mapped)) done.returns done,
        tiles,
      )
