-- ===== src/OutputHandle/Histories.antt =====
-- The calls of an OutputHandle as steps, one after another, and the order of each stream's buffers
-- (software/libstf/output_handle.cpp lines 8-34 and 108-181).
use libstf.Base.{
  ℕ, ◌<◌, ◌≡◌, ap, sym, ◌∙◌, inl, inr, Bool, some, List, [], ◌∷◌, ◌++◌, length, get_or, set,
  ℕ_discrete, ◌==◌, if◌then◌else◌, eq→==, ne→==, get_or-set_self, get_or-set_ne, append_assoc,
  append-nil,
}
use mathlib.Core.Path.{subst}
use libstf.Base.Action.{ok}
use libstf.Buffer.{Buffer, MemoryPool}
use libstf.OutputHandle.{OutputHandle, output_of, push_buffer, mark_done, get_next_stream_output}
use libstf.OutputHandle.Reading.{IsReadable, readers_agree}
use libstf.OutputHandle.Callbacks.{mark_done-output_buffers}

pub data Event : Type 0 where
  pushed : ℕ → Buffer → Event
  marked : ℕ → Event
  took : ℕ → Buffer → Event

module _ (pool : MemoryPool) where
  -- The calls of the manager and of a reader, which may come in any order.
  pub data Step : OutputHandle → Event → OutputHandle → Type 0 where
    push :
        (h : OutputHandle) (i : ℕ) (b : Buffer)
        → i < length h.output_buffers
        → Step h (pushed i b) (push_buffer i b h)
    mark :
        (h : OutputHandle) (i : ℕ)
        → i < length h.finished_streams
        → Step h (marked i) (mark_done i h).1
    take :
        (h : OutputHandle) (i : ℕ) (b : Buffer) (finished : Bool)
        → IsReadable h i finished
        → i < length h.output_buffers
        → (get_next_stream_output pool i h).0 ≡ ok (some (some b))
        → Step h (took i b) (get_next_stream_output pool i h).1

  pub data Steps : OutputHandle → List Event → OutputHandle → Type 0 where
    done : (h : OutputHandle) → Steps h [] h
    next :
        (h h' h'' : OutputHandle) (e : Event) (es : List Event)
        → Step h e h'
        → Steps h' es h''
        → Steps h (e ∷ es) h''

-- The buffers that were pushed to a stream, and those that were taken, in order.
abbrev pub pushes : ℕ → Event → List Buffer
pushes i (pushed j b) = if j == i then b ∷ [] else []
pushes i (marked j) = []
pushes i (took j b) = []

abbrev pub takes : ℕ → Event → List Buffer
takes i (pushed j b) = []
takes i (marked j) = []
takes i (took j b) = if j == i then b ∷ [] else []

abbrev pub all_of : (Event → List Buffer) → List Event → List Buffer
all_of f [] = []
all_of f (e ∷ es) = f e ++ all_of f es

front_taken :
    (pool : MemoryPool) (h : OutputHandle) (i : ℕ) (b : Buffer) (finished : Bool)
    → IsReadable h i finished
    → (get_next_stream_output pool i h).0 ≡ ok (some (some b))
    → (rest : List Buffer) × (output_of h i ≡ b ∷ rest)
      × ((get_next_stream_output pool i h).1
          ≡ record h { output_buffers = set h.output_buffers i rest })
front_taken pool h i b finished r e = elim (readers_agree pool i h finished r) [
  | inl (c, rest, q, m, n) ↦
      let same : c ≡ b = cc in (rest, q ∙ ap (λ x. x ∷ rest) same, ap (λ x. x.1) n)
  | inr (inl (q, f, m, n)) ↦ absurd cc
  | inr (inr (q, f, m, n)) ↦ absurd cc
]

Step-fifo :
    (pool : MemoryPool) (h h' : OutputHandle) (e : Event) (i : ℕ)
    → Step pool h e h'
    → output_of h i ++ pushes i e ≡ takes i e ++ output_of h' i
unfolding push_buffer
Step-fifo pool h h' e i (push _ j b l) = elim (ℕ_discrete j i) [
  | yes same ↦ rw (eq→== j i same) (
      subst
        (λ k.
          output_of h k ++ (b ∷ [])
          ≡ get_or (set h.output_buffers j (output_of h j ++ (b ∷ []))) k [])
        same (sym (get_or-set_self h.output_buffers j (output_of h j ++ (b ∷ [])) [] l)))
  | no other ↦
      rw (ne→== j i other, append-nil)
        (sym (get_or-set_ne h.output_buffers j i (output_of h j ++ (b ∷ [])) [] other))
]
Step-fifo pool h h' e i (mark _ j l) =
    append-nil (output_of h i)
    ∙ ap (λ (qs : List (List Buffer)). get_or qs i []) (sym (mark_done-output_buffers j h l))
Step-fifo pool h h' e i (take _ j b f r l t) =
    let (rest, front, after) = front_taken pool h j b f r t in
    elim (ℕ_discrete j i) [
      | yes same ↦
          rw (eq→== j i same, after, append-nil)
            (subst (λ k. output_of h k ≡ b ∷ get_or (set h.output_buffers j rest) k []) same
              (front ∙ ap (λ q. b ∷ q) (sym (get_or-set_self h.output_buffers j rest [] l))))
      | no other ↦
          rw (ne→== j i other, after, append-nil)
            (sym (get_or-set_ne h.output_buffers j i rest [] other))
    ]

-- First in, first out, whatever the order of the calls: for each stream, the buffers that it held at
-- the start and then those that were pushed to it are the buffers that readers took from it, in this
-- order, and then those that it holds at the end. So none is lost, doubled or overtaken, and none
-- changes its stream.
pub Steps-fifo :
    (pool : MemoryPool) (h h' : OutputHandle) (es : List Event) (i : ℕ)
    → Steps pool h es h'
    → output_of h i ++ all_of (pushes i) es ≡ all_of (takes i) es ++ output_of h' i
Steps-fifo pool h h' es i (done _) = append-nil (output_of h i)
Steps-fifo pool h h' es i (next _ h1 _ e rest s run) =
    sym (append_assoc (output_of h i) (pushes i e) (all_of (pushes i) rest))
    ∙ ap (λ (xs : List Buffer). xs ++ all_of (pushes i) rest) (Step-fifo pool h h1 e i s)
    ∙ append_assoc (takes i e) (output_of h1 i) (all_of (pushes i) rest)
    ∙ ap (λ (xs : List Buffer). takes i e ++ xs) (Steps-fifo pool h1 h' rest i run)
    ∙ sym (append_assoc (takes i e) (all_of (takes i) rest) (output_of h' i))
