-- ===== src/OutputBufferManager/Delivery.antt =====
-- move_current_buffer_to_handle (software/libstf/output_buffer_manager.cpp lines 208-255), for an
-- interrupt that reports output.
use libstf.Base.{
  ℕ, zero, suc, ◌≤◌, ◌<◌, ◌≡◌, refl, ap, ◌∙◌, Bool, true, false, not, Option, none, some, List, [],
  ◌∷◌, ◌++◌, arith, length, get_elem?, get_or, set, lt→ltb, le→ltb, le→leb, dec_lt, get_or-set_self,
  if◌then◌else◌,
}
use libstf.Base.Action.{Action, Result, ok, modify, ensure, ◌>>◌, >>=-ok}
use libstf.ErrorHandling.{status_ok}
use libstf.Buffer.{Buffer, MemoryPool}
use libstf.OutputHandle.{is_empty, OutputHandle, output_of, push_buffer, mark_done}
use libstf.OutputHandle.Callbacks.{mark_done-output_buffers, mark_done_returns, mark_done_finishes}
use libstf.OutputBufferManager.{
  OutputBufferManager, on_handle, on_pool, after_shrink, pass_on, move_and_finish, handles_of,
  buffers_of, pop_enqueued, pop_handle, rest_of, shrink, move_buffer, finish_stream,
  move_current_buffer_to_handle,
}

pub get_elem?-set :
    {A : Type 0} (xs : List A) (i : ℕ) (v w : A)
    → get_elem? xs i ≡ some w
    → get_elem? (set xs i v) i ≡ some v
get_elem?-set [] i v w e = absurd cc
get_elem?-set (x ∷ xs) zero v w e = refl
get_elem?-set (x ∷ xs) (suc i) v w e = get_elem?-set xs i v w e

-- The front of a stream's queues, and an output of `bytes` that the front buffer can hold and that the
-- pool can shrink it to.
pub record IsPending (pool : MemoryPool) (o : OutputBufferManager pool) (i bytes : ℕ) (id : ℕ)
    (ids : List ℕ) (b : Buffer) (bs : List Buffer) (h : OutputHandle) : Type 0 where
  pub front_handle : handles_of pool o i ≡ id ∷ ids
  pub front_buffer : buffers_of pool o i ≡ b ∷ bs
  pub handle : get_elem? o.handles id ≡ some h
  pub handles : i < length o.enqueued_handles
  pub buffers : i < length o.enqueued_buffers
  pub outputs : i < length h.output_buffers
  pub mask : i < length h.finished_streams
  pub output : 0 < bytes
  pub within : bytes ≤ b.capacity
  pub shrinks :
      bytes < b.capacity
      → (ptr : ℕ) × (p : pool.State) × (pool.reallocate b.capacity bytes b.ptr o.memory_pool
          ≡ (ok (status_ok, ptr), p))

-- A call of a handle that is in the store.
pub on_handle_lem :
    (pool : MemoryPool) (id : ℕ) (call : Action OutputHandle (Unit {0}))
    (o : OutputBufferManager pool) (h : OutputHandle)
    → get_elem? o.handles id ≡ some h
    → on_handle pool id call o ≡ ((call h).0, record o { handles = set o.handles id (call h).1 })
on_handle_lem pool id call o h e =
    ap
      (λ (x : Option OutputHandle). elim x [
        | none ↦ (ok tt, o)
        | some g ↦ ((call g).0, record o { handles = set o.handles id (call g).1 })
      ])
      e

-- Setting the size of the front buffer, and passing it to its handle.
pub pass_on_lem :
    (pool : MemoryPool) (o : OutputBufferManager pool) (i bytes id : ℕ) (b : Buffer)
    (bs : List Buffer) (h : OutputHandle) (ptr : ℕ) (p : pool.State)
    → get_elem? o.handles id ≡ some h
    → buffers_of pool o i ≡ b ∷ bs
    → pass_on pool i bytes id (record b { ptr = ptr }) (record o { memory_pool = p }) ≡ (
      ok tt,
      record o {
        memory_pool = p;
        handles =
            set o.handles id
              (push_buffer i (record { ptr = ptr; size = bytes; capacity = b.capacity }) h);
        enqueued_buffers = set o.enqueued_buffers i bs;
      },
    )
pass_on_lem pool o i bytes id b bs h ptr p stored front =
    let o1 : OutputBufferManager pool = record o { memory_pool = p } in
    let x : Buffer = record { ptr = ptr; size = bytes; capacity = b.capacity } in
    >>=-ok (on_handle pool id (modify (push_buffer i x))) (λ _. modify (pop_enqueued pool i)) o1
      (on_handle_lem pool id (modify (push_buffer i x)) o1 h stored)
    ∙ ap
        (λ (q : List Buffer). (
          ok tt,
          record o1 {
            handles = set o.handles id (push_buffer i x h);
            enqueued_buffers = set o.enqueued_buffers i (rest_of q);
          },
        ))
        front

-- The call goes on with the fronts of the two queues.
pub fronts :
    (pool : MemoryPool) (o : OutputBufferManager pool) (i bytes id : ℕ) (ids : List ℕ) (b : Buffer)
    (bs : List Buffer) (queue : List ℕ) (buffers : List Buffer) (last : Bool)
    (r : Result (Unit {0}) × OutputBufferManager pool)
    → queue ≡ id ∷ ids
    → buffers ≡ b ∷ bs
    → move_and_finish pool i bytes last id b o ≡ r
    → (ensure (not (is_empty queue))
          >> move_and_finish pool i bytes last
              (get_or queue 0 0)
              (get_or buffers 0 (record { ptr = 0; size = 0; capacity = 0 })))
        o
      ≡ r
fronts pool o i bytes id ids b bs queue buffers last r q c e = rw (q, c) e

module _ (pool : MemoryPool) (o : OutputBufferManager pool) (i bytes id : ℕ) (ids : List ℕ)
    (b : Buffer) (bs : List Buffer) (h : OutputHandle)
    (pending : IsPending pool o i bytes id ids b bs h) where
  shrink_lem :
      (ptr : ℕ) × (p : pool.State) × (shrink pool b bytes o
        ≡ (ok (record b { ptr = ptr }), record o { memory_pool = p }))
  unfolding shrink
  shrink_lem = elim (dec_lt bytes b.capacity) [
    | no whole ↦ (b.ptr, o.memory_pool, rw (le→ltb bytes b.capacity (omega arith)) refl)
    | yes less ↦
        let (ptr, p, e) = pending.shrinks less in
        (
          ptr,
          p,
          rw (lt→ltb bytes b.capacity less) (
              >>=-ok (on_pool pool (pool.reallocate b.capacity bytes b.ptr)) (after_shrink pool b) o
                (ap (λ r. (r.0, record o { memory_pool = r.1 })) e)),
        )
  ]

  -- The buffer as it reaches the handle, which keeps the capacity it had before it was shrunk.
  abbrev pub output_buffer : ℕ → Buffer
  output_buffer ptr = record { ptr = ptr; size = bytes; capacity = b.capacity }

  -- The state after the buffer was passed on.
  abbrev passed : ℕ → pool.State → OutputBufferManager pool
  passed ptr p = record o {
    memory_pool = p;
    handles = set o.handles id (push_buffer i (output_buffer ptr) h);
    enqueued_buffers = set o.enqueued_buffers i bs;
  }

  move_buffer_lem :
      (ptr : ℕ) × (p : pool.State) × (move_buffer pool i bytes id b o ≡ (ok tt, passed ptr p))
  unfolding move_buffer
  move_buffer_lem =
      let (ptr, p, e) = shrink_lem in
      (
        ptr,
        p,
        rw (lt→ltb 0 bytes pending.output) (
            >>=-ok (shrink pool b bytes) (pass_on pool i bytes id) o e
            ∙ pass_on_lem pool o i bytes id b bs h ptr p pending.handle pending.front_buffer),
      )

  -- The handle after the call.
  abbrev pub delivered_to : ℕ → Bool → OutputHandle
  delivered_to ptr false = push_buffer i (output_buffer ptr) h
  delivered_to ptr true = (mark_done i (push_buffer i (output_buffer ptr) h)).1

  -- The outcome of the call.
  abbrev pub Delivered : Bool → ℕ → OutputBufferManager pool → Type 0
  Delivered last ptr o' =
      (buffers_of pool o' i ≡ bs)
      × (handles_of pool o' i ≡ (if last then ids else id ∷ ids))
      × (get_elem? o'.handles id ≡ some (delivered_to ptr last))
      × (output_of (delivered_to ptr last) i ≡ output_of h i ++ (output_buffer ptr ∷ []))
      × (get_elem? (delivered_to ptr last).finished_streams i
          ≡ (if last then some true else get_elem? h.finished_streams i))

  finish_lem :
      (last : Bool) (ptr : ℕ) (p : pool.State)
      → (o' : OutputBufferManager pool) × (finish_stream pool i last id (passed ptr p)
          ≡ (ok tt, o'))
        × Delivered last ptr o'
  unfolding finish_stream push_buffer
  finish_lem false ptr p = (
    passed ptr p,
    refl,
    (
      get_or-set_self o.enqueued_buffers i bs [] pending.buffers,
      pending.front_handle,
      get_elem?-set o.handles id (push_buffer i (output_buffer ptr) h) h pending.handle,
      get_or-set_self h.output_buffers i (output_of h i ++ (output_buffer ptr ∷ [])) []
          pending.outputs,
      refl,
    ),
  )
  finish_lem true ptr p =
      let h1 = push_buffer i (output_buffer ptr) h in
      let h2 = (mark_done i h1).1 in
      let o1 = passed ptr p in
      let stored = get_elem?-set o.handles id h1 h pending.handle in
      let o2 : OutputBufferManager pool = record o1 { handles = set o1.handles id h2 } in
      (
        pop_handle pool i o2,
        >>=-ok (on_handle pool id (mark_done i)) (λ _. modify (pop_handle pool i)) o1
            (on_handle_lem pool id (mark_done i) o1 h1 stored
              ∙ ap (λ r. (r, o2)) (mark_done_returns i h1 pending.mask)),
        (
          get_or-set_self o.enqueued_buffers i bs [] pending.buffers,
          get_or-set_self o.enqueued_handles i (rest_of (handles_of pool o i)) [] pending.handles
              ∙ ap rest_of pending.front_handle,
          get_elem?-set o1.handles id h2 h1 stored,
          ap (λ (qs : List (List Buffer)). get_or qs i [])
                (mark_done-output_buffers i h1 pending.mask)
              ∙ get_or-set_self h.output_buffers i (output_of h i ++ (output_buffer ptr ∷ [])) []
                  pending.outputs,
          mark_done_finishes i h1 pending.mask,
        ),
      )

  -- For an output that is pending the call returns. The front buffer leaves the stream's queue and
  -- stands at the end of the stream's queue in the front handle, with the length that was written;
  -- with the last output, and only then, the handle leaves the stream's queue of handles and the
  -- stream is marked as finished in it.
  pub move_current_buffer_to_handle-Delivered :
      (last : Bool)
      → (ptr : ℕ) × (o' : OutputBufferManager pool) × (move_current_buffer_to_handle pool i bytes
            last o
          ≡ (ok tt, o'))
        × Delivered last ptr o'
  unfolding move_current_buffer_to_handle
  move_current_buffer_to_handle-Delivered last =
      let (ptr, p, moved) = move_buffer_lem in
      let (o', finished, done) = finish_lem last ptr p in
      (
        ptr,
        o',
        fronts pool o i bytes id ids b bs (handles_of pool o i) (buffers_of pool o i) last
            (ok tt, o') pending.front_handle pending.front_buffer
            (rw (le→leb bytes b.capacity pending.within) (
              >>=-ok (move_buffer pool i bytes id b) (λ _. finish_stream pool i last id) o moved
              ∙ finished)),
        done,
      )
