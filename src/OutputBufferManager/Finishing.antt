-- ===== src/OutputBufferManager/Finishing.antt =====
-- What the last output of a stream does (software/libstf/output_buffer_manager.cpp lines 247-254).
use libstf.Base.{
  ℕ, ◌<◌, ◌≡◌, refl, ap, ◌∙◌, ◌≢◌, Bool, true, false, some, List, [], ◌∷◌, length, get_elem?,
  get_or, set, All, if◌then◌else◌, length-set, get_or-set_self, get_or-set_ne,
}
use libstf.Base.Action.{ok, modify, >>=-ok}
use libstf.Buffer.{MemoryPool}
use libstf.OutputHandle.{OutputHandle, mark_done}
use libstf.OutputHandle.Callbacks.{mark_done-output_buffers, mark_done_returns, mark_done_size}
use libstf.OutputHandle.Marking.{Marked, Marked-none, mark_done-Marked}
use libstf.OutputBufferManager.{
  OutputBufferManager, on_handle, handles_of, pop_handle, rest_of, finish_stream,
}
use libstf.OutputBufferManager.WellFormed.{
  IsStored, AreKnown, get_elem?-set_ne, All-at, All-set, All-get_or,
}
use libstf.OutputBufferManager.Delivery.{get_elem?-set, on_handle_lem}

-- What finish_stream does for a front handle `h` with the number `id`; `h1` is the handle after it.
pub record Finished (pool : MemoryPool) (o : OutputBufferManager pool) (i : ℕ) (last : Bool)
    (id : ℕ) (ids : List ℕ) (h : OutputHandle) (hs : List OutputHandle) (hq : List (List ℕ))
    (h1 : OutputHandle) : Type 0 where
  pub runs :
      finish_stream pool i last id o ≡ (ok tt, record o { handles = hs; enqueued_handles = hq })
  pub front : get_or hq i [] ≡ (if last then ids else id ∷ ids)
  pub others : (j : ℕ) → i ≢ j → get_or hq j [] ≡ handles_of pool o j
  pub queues : length hq ≡ length o.enqueued_handles
  pub known : AreKnown (length o.handles) hq
  pub stored : get_elem? hs id ≡ some h1
  pub rest : (k : ℕ) → id ≢ k → get_elem? hs k ≡ get_elem? o.handles k
  pub all : All (IsStored o.num_streams) hs
  pub count : length hs ≡ length o.handles
  pub output : h1.output_buffers ≡ h.output_buffers
  pub marked : Marked i last h h1

rest-All : {A : Type 0} (P : A → Type 0) (xs : List A) → All P xs → All P (rest_of xs)
rest-All P [] h = tt
rest-All P (x ∷ xs) h = h.1

pub finish_stream-Finished :
    (pool : MemoryPool) (o : OutputBufferManager pool) (i : ℕ) (last : Bool) (id : ℕ) (ids : List ℕ)
    (h : OutputHandle)
    → handles_of pool o i ≡ id ∷ ids
    → i < length o.enqueued_handles
    → get_elem? o.handles id ≡ some h
    → i < length h.finished_streams
    → All (IsStored o.num_streams) o.handles
    → AreKnown (length o.handles) o.enqueued_handles
    → (hs : List OutputHandle) × (hq : List (List ℕ)) × (h1 : OutputHandle) × Finished pool o i last
        id ids h hs hq h1
unfolding finish_stream
finish_stream-Finished pool o i false id ids h front l found mask all known = (
  o.handles,
  o.enqueued_handles,
  h,
  record {
    runs = refl;
    front = front;
    others = λ j d. refl;
    queues = refl;
    known = known;
    stored = found;
    rest = λ k d. refl;
    all = all;
    count = refl;
    output = refl;
    marked = Marked-none i h h refl;
  },
)
finish_stream-Finished pool o i true id ids h front l found mask all known =
    let h1 = (mark_done i h).1 in
    let o1 : OutputBufferManager pool = record o { handles = set o.handles id h1 } in
    let q = rest_of (handles_of pool o i) in
    let sizes = All-at (IsStored o.num_streams) o.handles id h all found in
    (
      set o.handles id h1,
      set o.enqueued_handles i q,
      h1,
      record {
        runs =
            >>=-ok (on_handle pool id (mark_done i)) (λ _. modify (pop_handle pool i)) o
              (on_handle_lem pool id (mark_done i) o h found
                ∙ ap (λ r. (r, o1)) (mark_done_returns i h mask));
        front = get_or-set_self o.enqueued_handles i q [] l ∙ ap rest_of front;
        others = λ j d. get_or-set_ne o.enqueued_handles i j q [] d;
        queues = length-set o.enqueued_handles i q;
        known =
            All-set _ o.enqueued_handles i q known
              (rest-All _ (handles_of pool o i) (All-get_or _ o.enqueued_handles i [] known tt));
        stored = get_elem?-set o.handles id h1 h found;
        rest = λ k d. get_elem?-set_ne o.handles id k h1 d;
        all = All-set (IsStored o.num_streams) o.handles id h1 all (
          ap length (mark_done-output_buffers i h mask) ∙ sizes.0,
          mark_done_size i h mask ∙ sizes.1,
        );
        count = length-set o.handles id h1;
        output = mark_done-output_buffers i h mask;
        marked = mark_done-Marked i h mask;
      },
    )
