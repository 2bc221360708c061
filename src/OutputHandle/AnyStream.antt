-- ===== src/OutputHandle/AnyStream.antt =====
-- any_stream_has_more_output of an OutputHandle (software/libstf/output_handle.cpp), over all of its
-- streams.
use libstf.Base.{
  ℕ, zero, suc, ◌+◌, ◌≤◌, ◌<◌, ◌≡◌, refl, sym, ◌∙◌, Bool, true, false, none, some, List, [], ◌∷◌,
  arith, length, get_elem?, get_or, ℕ_discrete,
}
use mathlib.Core.Path.{subst}
use libstf.Base.Action.{Result, ok}
use libstf.Buffer.{Buffer}
use libstf.OutputHandle.{
  OutputHandle, StreamMask, maximum_fpga_num_streams, test, output_of, any_available,
  in_flight_from, any_stream_has_more_output,
}

any_available_at :
    (qs : List (List Buffer)) (j : ℕ) (b : Buffer) (rest : List Buffer)
    → get_or qs j [] ≡ b ∷ rest
    → any_available qs ≡ true
unfolding any_available
any_available_at [] j b rest e = absurd cc
any_available_at ((x ∷ q) ∷ qs) j b rest e = refl
any_available_at ([] ∷ qs) zero b rest e = absurd cc
any_available_at ([] ∷ qs) (suc j) b rest e = any_available_at qs j b rest e

none_available :
    (qs : List (List Buffer)) → ((j : ℕ) → get_or qs j [] ≡ []) → any_available qs ≡ false
unfolding any_available
none_available [] e = refl
none_available ((x ∷ q) ∷ qs) e = absurd (cc (e 0))
none_available ([] ∷ qs) e = none_available qs (λ j. e (suc j))

-- Whether a stream is in a mask.
abbrev pub IsIn : StreamMask → ℕ → Bool → Type 0
IsIn mask j b = get_elem? mask j ≡ some b

in_range : {A : Type 0} (xs : List A) (i : ℕ) → i < length xs → (x : A) × (get_elem? xs i ≡ some x)
in_range [] i h = absurd (omega arith)
in_range (x ∷ xs) zero h = (x, refl)
in_range (x ∷ xs) (suc i) h = in_range xs i (omega arith)

test_of : (mask : StreamMask) (i : ℕ) (b : Bool) → IsIn mask i b → test mask i ≡ ok b
unfolding test
test_of mask i b e = rw (e, test) refl

-- How the loop goes on after a stream that is active or not, and finished or not.
abbrev after : Bool → Bool → Result Bool → Result Bool
after false finished rest = rest
after true true rest = rest
after true false rest = ok true

module _ (active finished : StreamMask) where
  -- A stream passes where it is not active or finished.
  passes :
      (count i : ℕ) (a f : Bool)
      → IsIn active i a
      → IsIn finished i f
      → in_flight_from active finished (suc count) i
        ≡ after a f (in_flight_from active finished count (suc i))
  unfolding in_flight_from
  passes count i false f ea ef = rw (test_of active i false ea, in_flight_from) refl
  passes count i true false ea ef =
      rw (test_of active i true ea, test_of finished i false ef, in_flight_from) refl
  passes count i true true ea ef =
      rw (test_of active i true ea, test_of finished i true ef, in_flight_from) refl

  all_landed :
      (count i : ℕ)
      → count + i ≤ length active
      → count + i ≤ length finished
      → ((j : ℕ) → j < count + i → IsIn active j true → IsIn finished j true)
      → in_flight_from active finished count i ≡ ok false
  unfolding in_flight_from
  all_landed zero i la lf h = refl
  all_landed (suc count) i la lf h =
      let (a, ea) = in_range active i (omega arith) in
      let (f, ef) = in_range finished i (omega arith) in
      let rest = all_landed count (suc i) (omega arith) (omega arith) (λ j l. h j (omega arith)) in
      passes count i a f ea ef ∙ landed a f ea ef rest
    where
      landed :
          (a f : Bool)
          → IsIn active i a
          → IsIn finished i f
          → in_flight_from active finished count (suc i) ≡ ok false
          → after a f (in_flight_from active finished count (suc i)) ≡ ok false
      landed false f ea ef rest = rest
      landed true true ea ef rest = rest
      landed true false ea ef rest = absurd (cc (ef, h i (omega arith) ea))

  one_flies :
      (count i j : ℕ)
      → count + i ≤ length active
      → count + i ≤ length finished
      → i ≤ j
      → j < count + i
      → IsIn active j true
      → IsIn finished j false
      → in_flight_from active finished count i ≡ ok true
  one_flies zero i j la lf low high ea ef = absurd (omega arith)
  one_flies (suc count) i j la lf low high ea ef =
      let (a, ha) = in_range active i (omega arith) in
      let (f, hf) = in_range finished i (omega arith) in
      passes count i a f ha hf ∙ (elim (ℕ_discrete i j) [
        | yes e ↦
            here a f (subst (λ k. IsIn active k true) (sym e) ea)
              (subst (λ k. IsIn finished k false) (sym e) ef) ha hf
        | no d ↦ later a f (
            one_flies count (suc i) j (omega arith) (omega arith) (omega arith) (omega arith) ea ef)
      ])
    where
      here :
          (a f : Bool)
          → IsIn active i true
          → IsIn finished i false
          → IsIn active i a
          → IsIn finished i f
          → after a f (in_flight_from active finished count (suc i)) ≡ ok true
      here true false ea ef ha hf = refl
      here true true ea ef ha hf = absurd (cc (ef, hf))
      here false f ea ef ha hf = absurd (cc (ea, ha))

      later :
          (a f : Bool)
          → in_flight_from active finished count (suc i) ≡ ok true
          → after a f (in_flight_from active finished count (suc i)) ≡ ok true
      later false f e = e
      later true true e = e
      later true false e = refl

-- For a handle with masks of full size, on each of three cases: with a buffer in any queue the call
-- answers true at once; with all queues empty it answers false where every active stream is finished,
-- and waits where an active stream is not. It changes nothing.
pub any_stream_has_more_output_lem :
    (h : OutputHandle)
    → length h.active_streams ≡ maximum_fpga_num_streams
    → length h.finished_streams ≡ maximum_fpga_num_streams
    → length h.output_buffers ≤ maximum_fpga_num_streams
    → ((j : ℕ) (b : Buffer) (rest : List Buffer)
        → output_of h j ≡ b ∷ rest
        → any_stream_has_more_output h ≡ (ok (some true), h))
      × (((j : ℕ) → output_of h j ≡ [])
          → ((j : ℕ)
              → j < length h.output_buffers
              → IsIn h.active_streams j true
              → IsIn h.finished_streams j true)
          → any_stream_has_more_output h ≡ (ok (some false), h))
      × (((j : ℕ) → output_of h j ≡ [])
          → (j : ℕ) → j < length h.output_buffers
          → IsIn h.active_streams j true
          → IsIn h.finished_streams j false
          → any_stream_has_more_output h ≡ (ok none, h))
unfolding any_stream_has_more_output any_available
any_stream_has_more_output_lem h la lf lo =
    let a = h.active_streams in
    let f = h.finished_streams in
    let n = length h.output_buffers in
    let zero_end : n + 0 ≡ n = omega arith in
    (
      λ j b rest e. rw (any_available_at h.output_buffers j b rest e) refl,
      λ empty landed.
          let nothing = none_available h.output_buffers empty in
          let down =
            all_landed a f n 0 (omega (arith, la, lo)) (omega (arith, lf, lo))
              (λ j l. landed j (omega arith)) in
          rw (nothing, nothing, down, nothing) refl,
      λ empty j known ea ef.
          let nothing = none_available h.output_buffers empty in
          let up =
            one_flies a f n 0 j (omega (arith, la, lo)) (omega (arith, lf, lo)) (omega arith)
              (omega (arith, known)) ea ef in
          rw (nothing, nothing, up) refl,
    )
