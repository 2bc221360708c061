-- ===== src/OutputHandle/Reading.antt =====
-- What a reader of an OutputHandle sees (software/libstf/output_handle.cpp lines 57-181).
use libstf.Base.{
  ℕ, zero, suc, ◌<◌, ◌≡◌, refl, ◌∙◌, ◌⊎◌, inl, inr, Bool, true, false, Option, none, some, List, [],
  ◌∷◌, arith, length, get_elem?, set, leb, get_or-set_self, length-set,
}
use libstf.Base.Action.{Action, Result, ok, err, ◌>>◌, >>=-ok}
use libstf.Buffer.{Buffer, MemoryPool}
use libstf.OutputHandle.{
  OutputHandle, test, output_of, check_stream, more_output, next_output, stream_has_more_output,
  get_next_stream_output,
}

-- A stream that the two guards let pass, and whether it is finished.
pub record IsReadable (h : OutputHandle) (i : ℕ) (finished : Bool) : Type 0 where
  pub known : i < h.num_streams
  pub active : get_elem? h.active_streams i ≡ some true
  pub state : get_elem? h.finished_streams i ≡ some finished

-- What the two readers do of a stream, side by side.
abbrev pub Reads : MemoryPool → ℕ → OutputHandle → Bool → Type 0
Reads pool i h finished =
    ((b : Buffer) × (rest : List Buffer) × (output_of h i ≡ b ∷ rest)
      × (stream_has_more_output i h ≡ (ok (some true), h))
      × (get_next_stream_output pool i h
          ≡ (ok (some (some b)), record h { output_buffers = set h.output_buffers i rest })))
    ⊎ ((output_of h i ≡ [])
        × (finished ≡ true)
        × (stream_has_more_output i h ≡ (ok (some false), h))
        × (get_next_stream_output pool i h ≡ (ok (some none), h)))
    ⊎ ((output_of h i ≡ [])
        × (finished ≡ false)
        × (stream_has_more_output i h ≡ (ok none, h))
        × (get_next_stream_output pool i h ≡ (ok none, h)))

not_at : (n i : ℕ) → i < n → leb n i ≡ false
not_at n i h = ground arith

checked :
    (i : ℕ) (h : OutputHandle) (finished : Bool)
    → IsReadable h i finished
    → check_stream i h ≡ (ok tt, h)
unfolding test
checked i h finished r = rw (not_at h.num_streams i r.known, r.active) refl

after_checks :
    {A : Type 0} (i : ℕ) (h : OutputHandle) (finished : Bool) (k : Action OutputHandle A)
    (x : Result A × OutputHandle)
    → IsReadable h i finished
    → k h ≡ x
    → (check_stream i >> k) h ≡ x
after_checks i h finished k x r e = >>=-ok (check_stream i) (λ _. k) h (checked i h finished r) ∙ e

Reads-of :
    (pool : MemoryPool) (i : ℕ) (h : OutputHandle) (finished : Bool) (queue : List Buffer)
    → IsReadable h i finished
    → output_of h i ≡ queue
    → Reads pool i h finished
unfolding stream_has_more_output get_next_stream_output test
Reads-of pool i h finished (b ∷ rest) r e = inl (
  b,
  rest,
  e,
  after_checks i h finished (more_output i) _ r (rw e refl),
  after_checks i h finished (next_output pool i) _ r (rw (e, e) refl),
)
Reads-of pool i h true [] r e = inr (
    inl (
      e,
      refl,
      after_checks i h true (more_output i) _ r (rw (e, e, r.state, e) refl),
      after_checks i h true (next_output pool i) _ r (rw (e, e, r.state, e) refl),
    ))
Reads-of pool i h false [] r e = inr (
    inr (
      e,
      refl,
      after_checks i h false (more_output i) _ r (rw (e, e, r.state) refl),
      after_checks i h false (next_output pool i) _ r (rw (e, e, r.state) refl),
    ))

-- For an active stream the two readers agree, on each of three cases, and hold what the handle holds.
-- Where the queue has a front, stream_has_more_output answers true and get_next_stream_output takes
-- that front. Where it is empty and the stream is finished, they return false and the nullptr. Where
-- it is empty and the stream is not finished, both wait.
pub readers_agree :
    (pool : MemoryPool) (i : ℕ) (h : OutputHandle) (finished : Bool)
    → IsReadable h i finished
    → Reads pool i h finished
readers_agree pool i h finished r = Reads-of pool i h finished (output_of h i) r refl

-- Reads until the nullptr, on fuel: the buffers that were returned, and the handle.
abbrev pub after_read :
    (OutputHandle → Option (List Buffer) × OutputHandle)
    → Result (Option (Option Buffer)) × OutputHandle
    → Option (List Buffer) × OutputHandle
after_read go (ok (some (some b)), h) =
    let (rest, h') = go h in elim rest [ none ↦ (none, h') | some bs ↦ (some (b ∷ bs), h') ]
after_read go (ok (some none), h) = (some [], h)
after_read go (ok none, h) = (none, h)
after_read go (err e, h) = (none, h)

abbrev pub drain : MemoryPool → ℕ → ℕ → OutputHandle → Option (List Buffer) × OutputHandle
drain pool i zero h = (none, h)
drain pool i (suc fuel) h = after_read (drain pool i fuel) (get_next_stream_output pool i h)

drain_on :
    (pool : MemoryPool) (i fuel : ℕ) (h : OutputHandle) (queue : List Buffer)
    → IsReadable h i true
    → i < length h.output_buffers
    → output_of h i ≡ queue
    → length queue < fuel
    → ((drain pool i fuel h).0 ≡ some queue) × (output_of (drain pool i fuel h).1 i ≡ [])
unfolding get_next_stream_output test
drain_on pool i zero h queue r l e f = absurd (omega arith)
drain_on pool i (suc fuel) h [] r l e f =
    let taken : get_next_stream_output pool i h ≡ (ok (some none), h) =
      after_checks i h true (next_output pool i) _ r (rw (e, e, r.state, e) refl) in
    rw (taken, drain) (refl, e)
drain_on pool i (suc fuel) h (b ∷ rest) r l e f =
    let h' : OutputHandle = record h { output_buffers = set h.output_buffers i rest } in
    let taken : get_next_stream_output pool i h ≡ (ok (some (some b)), h') =
      after_checks i h true (next_output pool i) _ r (rw (e, e) refl) in
    let (all, none_left) =
      drain_on pool i fuel h' rest (record { known = r.known; active = r.active; state = r.state })
        (omega (arith, length-set h.output_buffers i rest))
        (get_or-set_self h.output_buffers i rest [] l) (omega arith) in
    rw (taken, drain) (rw (all, after_read) (refl, none_left))

-- Once an active stream is finished, no read of it waits: reading on until the nullptr ends, after
-- one call more than the queue has buffers, and returns them all in the order of the queue.
pub drain-finished :
    (pool : MemoryPool) (i : ℕ) (h : OutputHandle)
    → IsReadable h i true
    → i < length h.output_buffers
    → ((drain pool i (suc (length (output_of h i))) h).0 ≡ some (output_of h i))
      × (output_of (drain pool i (suc (length (output_of h i))) h).1 i ≡ [])
drain-finished pool i h r l =
    drain_on pool i (suc (length (output_of h i))) h (output_of h i) r l refl (omega arith)
