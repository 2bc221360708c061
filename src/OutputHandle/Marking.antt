-- ===== src/OutputHandle/Marking.antt =====
-- What mark_done does of every member of an OutputHandle but the queues (software/libstf/
-- output_handle.cpp lines 17-34).
use libstf.Base.{
  ℕ, zero, suc, ◌<◌, ◌≡◌, refl, ap, sym, ◌∙◌, ◌≢◌, Bool, true, false, Option, none, some, List, [],
  ◌∷◌, ◌++◌, length, get_elem?, set, append-nil, if◌then◌else◌,
}
use libstf.OutputHandle.{OutputHandle, StreamMask, mark_done, CallbackCall}
use libstf.OutputHandle.Callbacks.{mark_done_ok, mark_done_finishes}

-- The calls of a thread, if there is one, and the thread that a callback is started in for a stream.
abbrev pub calls_of : Option (List CallbackCall) → List CallbackCall
calls_of none = []
calls_of (some calls) = calls

abbrev pub thread_for : ℕ → Option (ℕ → List CallbackCall) → Option (List CallbackCall)
thread_for i none = none
thread_for i (some f) = some (f i)

-- From `h` to `h'` stream `i` alone was marked as finished, where `last` says so: the running thread
-- was joined and the callback started for the stream. Where it does not, nothing happened.
pub record Marked (i : ℕ) (last : Bool) (h h' : OutputHandle) : Type 0 where
  pub finished :
      get_elem? h'.finished_streams i ≡ (if last then some true else get_elem? h.finished_streams i)
  pub unfinished :
      (j : ℕ) → i ≢ j → get_elem? h'.finished_streams j ≡ get_elem? h.finished_streams j
  pub num_streams : h'.num_streams ≡ h.num_streams
  pub active_streams : h'.active_streams ≡ h.active_streams
  pub callback : h'.callback ≡ h.callback
  pub thread : h'.callback_thread ≡ (if last then thread_for i h.callback else h.callback_thread)
  pub joined : h'.joined ≡ (if last then h.joined ++ calls_of h.callback_thread else h.joined)

pub Marked-none :
    (i : ℕ) (h h' : OutputHandle)
    → h' ≡ record h { output_buffers = h'.output_buffers }
    → Marked i false h h'
Marked-none i h h' e = record {
  finished = ap (λ (x : OutputHandle). get_elem? x.finished_streams i) e;
  unfinished = λ j d. ap (λ (x : OutputHandle). get_elem? x.finished_streams j) e;
  num_streams = ap (λ (x : OutputHandle). x.num_streams) e;
  active_streams = ap (λ (x : OutputHandle). x.active_streams) e;
  callback = ap (λ (x : OutputHandle). x.callback) e;
  thread = ap (λ (x : OutputHandle). x.callback_thread) e;
  joined = ap (λ (x : OutputHandle). x.joined) e;
}

get_elem?-set_other :
    (xs : StreamMask) (i j : ℕ) → i ≢ j → get_elem? (set xs i true) j ≡ get_elem? xs j
get_elem?-set_other [] i j d = refl
get_elem?-set_other (x ∷ xs) zero zero d = absurd (d refl)
get_elem?-set_other (x ∷ xs) zero (suc j) d = refl
get_elem?-set_other (x ∷ xs) (suc i) zero d = refl
get_elem?-set_other (x ∷ xs) (suc i) (suc j) d = get_elem?-set_other xs i j (λ e. d (ap suc e))

-- From what the call is known to return.
parts-Marked :
    (i : ℕ) (g g' : OutputHandle)
    → i < length g.finished_streams
    → (mark_done i g).1 ≡ g'
    → g'.finished_streams ≡ set g.finished_streams i true
    → (g'.num_streams ≡ g.num_streams) × (g'.active_streams ≡ g.active_streams)
    → g'.callback ≡ g.callback
    → g'.callback_thread ≡ thread_for i g.callback
    → g'.joined ≡ g.joined ++ calls_of g.callback_thread
    → Marked i true g (mark_done i g).1
parts-Marked i g g' l ran bits (num, active) callback thread joined = record {
  finished = mark_done_finishes i g l;
  unfinished = λ j d.
      ap (λ (x : OutputHandle). get_elem? x.finished_streams j) ran
      ∙ ap (λ (xs : StreamMask). get_elem? xs j) bits
      ∙ get_elem?-set_other g.finished_streams i j d;
  num_streams = ap (λ (x : OutputHandle). x.num_streams) ran ∙ num;
  active_streams = ap (λ (x : OutputHandle). x.active_streams) ran ∙ active;
  callback = ap (λ (x : OutputHandle). x.callback) ran ∙ callback;
  thread = ap (λ (x : OutputHandle). x.callback_thread) ran ∙ thread;
  joined = ap (λ (x : OutputHandle). x.joined) ran ∙ joined;
}

-- By whether there is a callback, and whether a thread runs.
marks :
    (i : ℕ) (h : OutputHandle) (f : Option (ℕ → List CallbackCall))
    (thread : Option (List CallbackCall))
    → i < length h.finished_streams
    → let g : OutputHandle = record h { callback = f; callback_thread = thread } in
      Marked i true g (mark_done i g).1
marks i h none none l =
    let g : OutputHandle = record h { callback = none; callback_thread = none } in
    parts-Marked i g _ l (ap (λ r. r.1) (mark_done_ok i g l)) refl (refl, refl) refl refl
      (sym (append-nil h.joined))
marks i h none (some calls) l =
    let g : OutputHandle = record h { callback = none; callback_thread = some calls } in
    parts-Marked i g _ l (ap (λ r. r.1) (mark_done_ok i g l)) refl (refl, refl) refl refl refl
marks i h (some f) none l =
    let g : OutputHandle = record h { callback = some f; callback_thread = none } in
    parts-Marked i g _ l (ap (λ r. r.1) (mark_done_ok i g l)) refl (refl, refl) refl refl
      (sym (append-nil h.joined))
marks i h (some f) (some calls) l =
    let g : OutputHandle = record h { callback = some f; callback_thread = some calls } in
    parts-Marked i g _ l (ap (λ r. r.1) (mark_done_ok i g l)) refl (refl, refl) refl refl refl

pub mark_done-Marked :
    (i : ℕ) (h : OutputHandle) → i < length h.finished_streams → Marked i true h (mark_done i h).1
mark_done-Marked i h l = marks i h h.callback h.callback_thread l

-- After a part that marked nothing.
pub Marked-after :
    (i : ℕ) (last : Bool) (h h1 h2 : OutputHandle)
    → Marked i false h h1
    → Marked i last h1 h2
    → Marked i last h h2
Marked-after i last h h1 h2 a b = record {
  finished = b.finished ∙ ap (λ (x : Option Bool). if last then some true else x) a.finished;
  unfinished = λ j d. b.unfinished j d ∙ a.unfinished j d;
  num_streams = b.num_streams ∙ a.num_streams;
  active_streams = b.active_streams ∙ a.active_streams;
  callback = b.callback ∙ a.callback;
  thread =
      b.thread
      ∙ ap
          (λ (x : Option (ℕ → List CallbackCall)).
            if last then thread_for i x else h1.callback_thread)
          a.callback
      ∙ ap (λ (x : Option (List CallbackCall)). if last then thread_for i h.callback else x)
          a.thread;
  joined =
      b.joined
      ∙ ap (λ (x : List CallbackCall). if last then x ++ calls_of h1.callback_thread else x)
          a.joined
      ∙ ap (λ (x : Option (List CallbackCall)). if last then h.joined ++ calls_of x else h.joined)
          a.thread;
}
