-- ===== src/OutputBufferManager/Moving.antt =====
-- What becomes of the front buffer at an interrupt (software/libstf/output_buffer_manager.cpp lines
-- 221-245), over a pool that serves: it moves to the handle, or it is freed, or it is left.
use libstf.Base.{
  ℕ, ◌+◌, ◌≤◌, ◌<◌, ◌≡◌, refl, ap, sym, ◌∙◌, ◌≢◌, Bool, true, false, ◌||◌, some, List, [], ◌∷◌,
  ◌++◌, arith, length, get_elem?, get_or, set, All, lt→ltb, le→ltb, ltb, dec_lt, if◌then◌else◌,
  length-set, get_or-set_self, get_or-set_ne, append-nil, Bool-cases, inl, inr,
}
use libstf.Base.Action.{Action, ok, pure, modify, ◌>>◌, >>=-ok}
use libstf.Buffer.{Buffer, MemoryPool}
use libstf.OutputHandle.{OutputHandle, output_of, push_buffer}
use libstf.OutputHandle.Marking.{Marked, Marked-none}
use libstf.OutputBufferManager.{
  OutputBufferManager, on_pool, after_shrink, pass_on, buffers_of, pop_enqueued, rest_of, shrink,
  move_buffer,
}
use libstf.OutputBufferManager.Service.{Holding, Serves, Kept, region_of, blocks, Inserted-pop}
use libstf.OutputBufferManager.WellFormed.{IsStored, get_elem?-set_ne, All-at, All-set}
use libstf.OutputBufferManager.Delivery.{get_elem?-set, pass_on_lem}

-- The buffers that leave the queue: the front one, unless it was left.
abbrev pub used : (pool : MemoryPool) → OutputBufferManager pool → ℕ → Buffer → List Buffer
used pool o bytes b =
    if ltb 0 bytes || o.mem_config.empty_stream_consumes_buffer then b ∷ [] else []

-- The buffers that the handle is given: the front one with its new pointer and size, unless it is
-- empty.
abbrev pub outputs : ℕ → ℕ → Buffer → List Buffer
outputs bytes ptr b =
    if ltb 0 bytes then (record { ptr = ptr; size = bytes; capacity = b.capacity }) ∷ [] else []

-- What move_buffer does, for a front buffer `b` and a handle `h` with the number `id`; `h1` is the
-- handle after it.
pub record Moved (pool : MemoryPool) (Holds : Holding pool) (o : OutputBufferManager pool)
    (i n bytes id : ℕ) (b : Buffer) (h : OutputHandle) (ptr : ℕ) (p : pool.State)
    (hs : List OutputHandle) (qs : List (List Buffer)) (h1 : OutputHandle) : Type 0 where
  pub runs :
      move_buffer pool i bytes id b o
      ≡ (ok tt, record o { memory_pool = p; handles = hs; enqueued_buffers = qs })
  pub left : Holds (blocks qs) n p
  pub queue : used pool o bytes b ++ get_or qs i [] ≡ buffers_of pool o i
  pub others : (j : ℕ) → i ≢ j → get_or qs j [] ≡ buffers_of pool o j
  pub queues : length qs ≡ length o.enqueued_buffers
  pub stored : get_elem? hs id ≡ some h1
  pub rest : (k : ℕ) → id ≢ k → get_elem? hs k ≡ get_elem? o.handles k
  pub all : All (IsStored o.num_streams) hs
  pub count : length hs ≡ length o.handles
  pub output : output_of h1 i ≡ output_of h i ++ outputs bytes ptr b
  pub elsewhere : (j : ℕ) → i ≢ j → output_of h1 j ≡ output_of h j
  pub finished : h1.finished_streams ≡ h.finished_streams
  pub marked : Marked i false h h1

module _ (pool : MemoryPool) (Holds : Holding pool) (serves : Serves pool Holds)
    (o : OutputBufferManager pool) (i n bytes id : ℕ) (b : Buffer) (bs : List Buffer)
    (h : OutputHandle) (known : i < length o.enqueued_buffers)
    (front : buffers_of pool o i ≡ b ∷ bs) (found : get_elem? o.handles id ≡ some h)
    (all : All (IsStored o.num_streams) o.handles) where
  -- The front block comes to the front of the blocks.
  front_block :
      (m : ℕ)
      → Kept pool Holds m o
      → Holds (region_of b ∷ blocks (set o.enqueued_buffers i bs)) m o.memory_pool
  front_block m kept =
      serves.brings (region_of b) _ (blocks o.enqueued_buffers) m o.memory_pool
        (Inserted-pop b bs o.enqueued_buffers i known front) kept

  popped_queue : (b ∷ []) ++ get_or (set o.enqueued_buffers i bs) i [] ≡ buffers_of pool o i
  popped_queue =
      ap (λ (q : List Buffer). b ∷ q) (get_or-set_self o.enqueued_buffers i bs [] known) ∙ sym front

  shrink-serves :
      0 < bytes
      → bytes ≤ b.capacity
      → Kept pool Holds (b.capacity + n) o
      → (ptr : ℕ) × (p : pool.State) × (shrink pool b bytes o
          ≡ (ok (record b { ptr = ptr }), record o { memory_pool = p }))
        × Holds (blocks (set o.enqueued_buffers i bs)) n p
  unfolding shrink
  shrink-serves pos within kept = elim (dec_lt bytes b.capacity) [
    | no whole ↦ (
      b.ptr,
      o.memory_pool,
      rw (le→ltb bytes b.capacity (omega arith)) refl,
      serves.weakens _ b.capacity n o.memory_pool (
          serves.forgets (region_of b) _ (b.capacity + n) o.memory_pool
            (front_block (b.capacity + n) kept)),
    )
    | yes less ↦
        let (ptr, p, e, held) =
          serves.shrinks b.ptr b.capacity bytes n _ o.memory_pool pos less
            (front_block (b.capacity + n) kept) in
        (
          ptr,
          p,
          rw (lt→ltb bytes b.capacity less) (
              >>=-ok (on_pool pool (pool.reallocate b.capacity bytes b.ptr)) (after_shrink pool b) o
                (ap (λ r. (r.0, record o { memory_pool = r.1 })) e)),
          held,
        )
  ]

  -- With output, the buffer moves to the handle.
  moves :
      i < length h.output_buffers
      → 0 < bytes
      → bytes ≤ b.capacity
      → Kept pool Holds (b.capacity + n) o
      → (ptr : ℕ) × (p : pool.State) × (hs : List OutputHandle) × (qs : List (List Buffer))
        × (h1 : OutputHandle) × Moved pool Holds o i n bytes id b h ptr p hs qs h1
  unfolding move_buffer push_buffer
  moves l pos within kept =
      let (ptr, p, e, held) = shrink-serves pos within kept in
      let x : Buffer = record { ptr = ptr; size = bytes; capacity = b.capacity } in
      let q = output_of h i ++ (x ∷ []) in
      let h1 = push_buffer i x h in
      let sizes = All-at (IsStored o.num_streams) o.handles id h all found in
      (
        ptr,
        p,
        set o.handles id h1,
        set o.enqueued_buffers i bs,
        h1,
        record {
          runs = rw (lt→ltb 0 bytes pos) (
              >>=-ok (shrink pool b bytes) (pass_on pool i bytes id) o e
              ∙ pass_on_lem pool o i bytes id b bs h ptr p found front);
          left = held;
          queue = rw (lt→ltb 0 bytes pos) popped_queue;
          others = λ j d. get_or-set_ne o.enqueued_buffers i j bs [] d;
          queues = length-set o.enqueued_buffers i bs;
          stored = get_elem?-set o.handles id h1 h found;
          rest = λ k d. get_elem?-set_ne o.handles id k h1 d;
          all =
              All-set (IsStored o.num_streams) o.handles id h1 all
                (length-set h.output_buffers i q ∙ sizes.0, sizes.1);
          count = length-set o.handles id h1;
          output = rw (lt→ltb 0 bytes pos) (get_or-set_self h.output_buffers i q [] l);
          elsewhere = λ j d. get_or-set_ne h.output_buffers i j q [] d;
          finished = refl;
          marked = Marked-none i h h1 refl;
        },
      )

  -- The handle gets nothing.
  empty_outputs : (ptr : ℕ) → bytes ≡ 0 → output_of h i ≡ output_of h i ++ outputs bytes ptr b
  empty_outputs ptr none = rw (le→ltb 0 bytes (omega arith)) (sym (append-nil (output_of h i)))

  -- Without output, the buffer is freed where the FPGA consumed it.
  is_freed :
      bytes ≡ 0
      → o.mem_config.empty_stream_consumes_buffer ≡ true
      → Kept pool Holds (b.capacity + n) o
      → (p : pool.State) × Moved pool Holds o i n bytes id b h b.ptr p o.handles
          (set o.enqueued_buffers i bs)
          h
  unfolding move_buffer
  is_freed none consumed kept =
      let (p, e, held) =
        serves.frees b.ptr b.capacity n _ o.memory_pool
          (front_block n (serves.weakens _ b.capacity n o.memory_pool kept)) in
      let o1 : OutputBufferManager pool = record o { memory_pool = p } in
      let unwritten = le→ltb 0 bytes (omega arith) in
      let gone : Action (OutputBufferManager pool) (Unit {0}) =
        on_pool pool (pool.free b.ptr b.capacity) >> modify (pop_enqueued pool i) in
      (
        p,
        record {
          runs = rw unwritten (
              ap (λ (c : Bool). (if c then gone else pure tt) o) consumed
              ∙ >>=-ok (on_pool pool (pool.free b.ptr b.capacity))
                  (λ _. modify (pop_enqueued pool i)) o
                  (ap (λ r. (r.0, record o { memory_pool = r.1 })) e)
              ∙ ap
                  (λ (q : List Buffer).
                    (ok tt, record o1 { enqueued_buffers = set o.enqueued_buffers i (rest_of q) }))
                  front);
          left = held;
          queue = rw (unwritten, consumed) popped_queue;
          others = λ j d. get_or-set_ne o.enqueued_buffers i j bs [] d;
          queues = length-set o.enqueued_buffers i bs;
          stored = found;
          rest = λ k d. refl;
          all = all;
          count = refl;
          output = empty_outputs b.ptr none;
          elsewhere = λ j d. refl;
          finished = refl;
          marked = Marked-none i h h refl;
        },
      )

  -- And it is left in the queue where the FPGA still has it.
  stays :
      bytes ≡ 0
      → o.mem_config.empty_stream_consumes_buffer ≡ false
      → Kept pool Holds (b.capacity + n) o
      → Moved pool Holds o i n bytes id b h b.ptr o.memory_pool o.handles o.enqueued_buffers h
  unfolding move_buffer
  stays none left kept =
      let unwritten = le→ltb 0 bytes (omega arith) in
      record {
        runs = rw (unwritten, left) refl;
        left = serves.weakens _ b.capacity n o.memory_pool kept;
        queue = rw (unwritten, left) refl;
        others = λ j d. refl;
        queues = refl;
        stored = found;
        rest = λ k d. refl;
        all = all;
        count = refl;
        output = empty_outputs b.ptr none;
        elsewhere = λ j d. refl;
        finished = refl;
        marked = Marked-none i h h refl;
      }

  pub move_buffer-Moved :
      i < length h.output_buffers
      → bytes ≤ b.capacity
      → Kept pool Holds (b.capacity + n) o
      → (ptr : ℕ) × (p : pool.State) × (hs : List OutputHandle) × (qs : List (List Buffer))
        × (h1 : OutputHandle) × Moved pool Holds o i n bytes id b h ptr p hs qs h1
  move_buffer-Moved l within kept = elim (dec_lt 0 bytes) [
    | yes pos ↦ moves l pos within kept
    | no none ↦ elim (Bool-cases o.mem_config.empty_stream_consumes_buffer) [
      | inl consumed ↦
          let (p, moved) = is_freed (omega arith) consumed kept in
          (b.ptr, p, o.handles, set o.enqueued_buffers i bs, h, moved)
      | inr left ↦
          (b.ptr, o.memory_pool, o.handles, o.enqueued_buffers, h, stays (omega arith) left kept)
    ]
  ]
