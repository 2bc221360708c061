-- ===== src/OutputHandle/Callbacks.antt =====
-- The callbacks of an OutputHandle (software/libstf/output_handle.cpp lines 17-34 and 137-146).
use libstf.Base.{
  ℕ, zero, suc, ◌<◌, ◌≡◌, refl, ap, sym, ◌∙◌, Bool, true, Option, none, some, List, [], ◌∷◌, ◌++◌,
  map, length, length-set, get_elem?, set, lt→ltb, append_assoc, append-nil, arith,
}
use mathlib.Core.Path.{subst}
use libstf.Base.Action.{Result, ok, err, modify, ◌>>◌, >>=-ok}
use libstf.OutputHandle.{
  OutputHandle, mark_done, join, set_bit, set_finished, StreamMask, start_callback, add_callback,
  CallbackCall,
}

-- The calls of callbacks that were started so far, those of the running thread last.
abbrev pub started : OutputHandle → List CallbackCall
started h = elim h.callback_thread [ none ↦ h.joined | some calls ↦ h.joined ++ calls ]

get_elem?-set : (xs : List Bool) (i : ℕ) → i < length xs → get_elem? (set xs i true) i ≡ some true
get_elem?-set [] i l = elim l [ ]
get_elem?-set (x ∷ xs) zero l = refl
get_elem?-set (x ∷ xs) (suc i) l = get_elem?-set xs i (omega arith)

-- What marking a stream of a handle with a callback does.
abbrev pub Starts : ℕ → (ℕ → List CallbackCall) → OutputHandle → Type 0
Starts i f h =
    ((mark_done i h).0 ≡ ok tt)
    × (started (mark_done i h).1 ≡ started h ++ f i)
    × (get_elem? (mark_done i h).1.finished_streams i ≡ some true)
    × ((mark_done i h).1.output_buffers ≡ h.output_buffers)

set_bit_ok : (mask : List Bool) (i : ℕ) → i < length mask → set_bit mask i ≡ ok (set mask i true)
unfolding set_bit
set_bit_ok mask i l = rw (lt→ltb i (length mask) l) refl

pub mark_done_ok :
    (i : ℕ) (h : OutputHandle)
    → i < length (join h).finished_streams
    → mark_done i h ≡ (
      ok tt,
      start_callback i
          (record (join h) { finished_streams = set (join h).finished_streams i true }),
    )
unfolding mark_done
mark_done_ok i h l =
    >>=-ok (modify join >> set_finished i) (λ _. modify (start_callback i)) h
      (ap
        (λ (r : Result StreamMask). elim r [
          | ok mask ↦ (ok tt, record (join h) { finished_streams = mask })
          | err e ↦ (err e, join h)
        ])
        (set_bit_ok (join h).finished_streams i l))

Starts-with :
    (i : ℕ) (f : ℕ → List CallbackCall) (h : OutputHandle) (thread : Option (List CallbackCall))
    → i < length h.finished_streams
    → Starts i f (record h { callback = some f; callback_thread = thread })
Starts-with i f h none l =
    rw (mark_done_ok i (record h { callback = some f; callback_thread = none }) l)
      (refl, refl, get_elem?-set h.finished_streams i l, refl)
Starts-with i f h (some calls) l =
    rw (mark_done_ok i (record h { callback = some f; callback_thread = some calls }) l)
      (refl, refl, get_elem?-set h.finished_streams i l, refl)

starts :
    (i : ℕ) (f : ℕ → List CallbackCall) (h : OutputHandle)
    → h.callback ≡ some f
    → i < length h.finished_streams
    → Starts i f h
starts i f h e l =
    subst (λ c. Starts i f (record h { callback = c })) (sym e)
      (Starts-with i f h h.callback_thread l)

abbrev pub add_callbacks : List ℕ → OutputHandle → OutputHandle
add_callbacks [] h = h
add_callbacks (c ∷ cs) h = add_callbacks cs (add_callback c h)

added :
    (cs : List ℕ) (h : OutputHandle) (f : ℕ → List CallbackCall)
    → h.callback ≡ some f
    → (g : ℕ → List CallbackCall) × ((add_callbacks cs h).callback ≡ some g)
      × ((i : ℕ) → g i ≡ f i ++ map (λ c. (c, i)) cs)
      × (started (add_callbacks cs h) ≡ started h)
      × ((add_callbacks cs h).finished_streams ≡ h.finished_streams)
unfolding add_callback
added [] h f e = (f, e, (λ i. sym (append-nil (f i))), refl, refl)
added (c ∷ cs) h f e =
    let (g, now, each, same, bits) =
      added cs (add_callback c h) (λ i. f i ++ ((c, i) ∷ [])) (rw e refl) in
    (g, now, (λ i. each i ∙ append_assoc (f i) ((c, i) ∷ []) (map (λ c'. (c', i)) cs)), same, bits)

-- The callbacks of a handle that had none run in the order in which they were added: marking a stream
-- of the mask as done returns, starts the thread that calls each of them once for that stream, keeps
-- every call that was started before, and sets the stream's bit.
pub mark_done-add_callback :
    (c : ℕ) (cs : List ℕ) (h : OutputHandle) (i : ℕ)
    → h.callback ≡ none
    → i < length h.finished_streams
    → ((mark_done i (add_callbacks (c ∷ cs) h)).0 ≡ ok tt)
      × (started (mark_done i (add_callbacks (c ∷ cs) h)).1
          ≡ started h ++ map (λ k. (k, i)) (c ∷ cs))
      × (get_elem? (mark_done i (add_callbacks (c ∷ cs) h)).1.finished_streams i ≡ some true)
unfolding add_callback
mark_done-add_callback c cs h i e l =
    let (g, now, each, same, bits) = added cs (add_callback c h) (λ k. (c, k) ∷ []) (rw e refl) in
    let (fine, log, bit, kept) = starts i g (add_callbacks (c ∷ cs) h) now (rw bits l) in
    (
      fine,
      log ∙ ap (λ (xs : List CallbackCall). xs ++ g i) same ∙ ap (λ xs. started h ++ xs) (each i),
      bit,
    )

join_buffers :
    (h : OutputHandle) (thread : Option (List CallbackCall))
    → (join (record h { callback_thread = thread })).output_buffers ≡ h.output_buffers
join_buffers h none = refl
join_buffers h (some calls) = refl

join_finished :
    (h : OutputHandle) (thread : Option (List CallbackCall))
    → (join (record h { callback_thread = thread })).finished_streams ≡ h.finished_streams
join_finished h none = refl
join_finished h (some calls) = refl

-- Marking a stream leaves the queues alone.
pub mark_done-output_buffers :
    (i : ℕ) (h : OutputHandle)
    → i < length h.finished_streams
    → (mark_done i h).1.output_buffers ≡ h.output_buffers
mark_done-output_buffers i h l =
    let same = join_finished h h.callback_thread in
    rw (mark_done_ok i h (rw same l)) (join_buffers h h.callback_thread)

-- Marking a stream of the mask returns.
pub mark_done_returns :
    (i : ℕ) (h : OutputHandle) → i < length h.finished_streams → (mark_done i h).0 ≡ ok tt
mark_done_returns i h l =
    let same = join_finished h h.callback_thread in rw (mark_done_ok i h (rw same l)) refl

-- Afterwards the stream's bit is set.
pub mark_done_finishes :
    (i : ℕ) (h : OutputHandle)
    → i < length h.finished_streams
    → get_elem? (mark_done i h).1.finished_streams i ≡ some true
mark_done_finishes i h l =
    let same = join_finished h h.callback_thread in
    rw (mark_done_ok i h (rw same l)) (get_elem?-set (join h).finished_streams i (rw same l))

-- The mask keeps its size.
pub mark_done_size :
    (i : ℕ) (h : OutputHandle)
    → i < length h.finished_streams
    → length (mark_done i h).1.finished_streams ≡ length h.finished_streams
mark_done_size i h l =
    let same = join_finished h h.callback_thread in
    rw (mark_done_ok i h (rw same l)) (length-set (join h).finished_streams i true ∙ ap length same)
