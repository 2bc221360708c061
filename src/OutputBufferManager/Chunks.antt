-- ===== src/OutputBufferManager/Chunks.antt =====
-- acquire_output_handle(stream, size): software/libstf/output_buffer_manager.cpp lines 146-193.
use mathlib.Core.Path.{subst}
use libstf.Base.{
  ℕ, zero, suc, ◌+◌, ◌-◌, ◌≤◌, ◌<◌, ◌≡◌, refl, ap, sym, ◌∙◌, true, false, some, List, [], ◌∷◌, ◌++◌,
  arith, length, get_elem?, set, replicate, lt→ltb, append_assoc, append-nil, get_or,
  get_or-set_self, get_or-set_ne, length-set, ◌≢◌,
}
use libstf.Base.Action.{ok, lift, pure, ◌>>=◌, >>=-ok}
use libstf.Common.{bytes_per_fpga_transfer}
use libstf.Buffer.{Buffer, MemoryPool}
use libstf.Configuration.{buffer_word}
use libstf.Configuration.Encoding.{at}
use libstf.TlbManager.OnePage.{Once}
use libstf.OutputHandle
use libstf.OutputHandle.{no_streams, test, set_bit}
use libstf.OutputBufferManager.{
  OutputBufferManager, handles_of, push_handle, chunk_of, capacity_of, provide, store_chunk,
  enqueue_chunk, enqueue_chunks, check_unmanaged, acquire_chunks, acquire_sized_output_handle,
}
use libstf.OutputBufferManager.Service.{Holding, Serves, Kept}
use libstf.OutputBufferManager.Supply.{
  Supplied, IsServable, moved, provide_lem, store_and_write_lem,
}
use libstf.OutputBufferManager.TopUp.{Supplied-none, Supplied-cons, IsServable-Same}

-- Buffers that split a size: each holds a chunk of it rounded up to whole transfers, and each chunk
-- but the final one is of the maximum.
abbrev pub Splits : ℕ → List Buffer → Type 0
Splits size [] = size ≡ 0
Splits size (b ∷ bs) =
    (0 < size) × (b.capacity ≡ capacity_of (chunk_of size)) × Splits (size - chunk_of size) bs

capacity_of-chunk :
    (size : ℕ)
    → 0 < size
    → capacity_of size ≡ capacity_of (chunk_of size) + capacity_of (size - chunk_of size)
capacity_of-chunk size h = omega arith

-- What a call makes of the state.
pub record Acquired (pool : MemoryPool) (Holds : Holding pool) (stream n id : ℕ) (size : ℕ)
    (new : List Buffer) (o o' : OutputBufferManager pool) : Type 0 where
  pub supplied : Supplied pool Holds stream n new o o'
  pub splits : Splits size new
  pub handles : handles_of pool o' stream ≡ handles_of pool o stream ++ replicate (length new) id
  pub elsewhere : (j : ℕ) → stream ≢ j → handles_of pool o' j ≡ handles_of pool o j
  pub queues : length o'.enqueued_handles ≡ length o.enqueued_handles

module _ (pool : MemoryPool) (Holds : Holding pool) (serves : Serves pool Holds)
    (stream id : ℕ) where
  enqueue_chunk_lem :
      (n size : ℕ) (o : OutputBufferManager pool)
      → 0 < size
      → IsServable pool o stream bytes_per_fpga_transfer
      → stream < length o.enqueued_handles
      → Kept pool Holds (capacity_of (chunk_of size) + n) o
      → Once o.tlb_manager
      → (b : Buffer) × (o' : OutputBufferManager pool) × (enqueue_chunk pool stream id
            (chunk_of size)
            o
          ≡ (ok tt, o'))
        × (b.capacity ≡ capacity_of (chunk_of size))
        × (o'.enqueued_handles ≡ (push_handle pool stream id o).enqueued_handles)
        × Supplied pool Holds stream n (b ∷ []) o o'
  unfolding enqueue_chunk
  enqueue_chunk_lem n size o pos s l good once =
      let c = capacity_of (chunk_of size) in
      let (b, p, t, run, same, high, left, once', quiet) =
        provide_lem pool Holds serves c n o (omega arith) (omega arith) good once in
      let (o', run', kept, supplied) =
        store_and_write_lem pool Holds serves stream n b
          (push_handle pool stream id (moved pool p t o))
          (record {
            stream = s.stream;
            register = s.register;
            queue = s.queue;
            non_empty = rw same (omega arith);
            small = rw same (omega arith);
            whole = rw same (omega arith);
          })
          (rw same high) left once' in
      (
        b,
        o',
        >>=-ok (provide pool c) (store_chunk pool stream id) o run ∙ run',
        same,
        kept,
        record {
          queue = supplied.queue;
          others = supplied.others;
          writes =
              supplied.writes
              ∙ ap (λ (xs : List ℕ). xs ++ (buffer_word b ∷ []))
                  (quiet (at o.mem_config.config stream));
          silent = λ reg d. supplied.silent reg d ∙ quiet reg;
          left = supplied.left;
          once = supplied.once;
          same = record {
            mem_config = supplied.same.mem_config;
            num_streams = supplied.same.num_streams;
            managed_streams = supplied.same.managed_streams;
            num_buffers_to_enqueue = supplied.same.num_buffers_to_enqueue;
            buffer_capacity = supplied.same.buffer_capacity;
            handles = supplied.same.handles;
            queues = supplied.same.queues;
          };
        },
      )

  chunks_done :
      (n : ℕ) (o : OutputBufferManager pool)
      → Kept pool Holds (capacity_of 0 + n) o
      → Once o.tlb_manager
      → Acquired pool Holds stream n id 0 [] o o
  chunks_done n o good once = record {
    supplied =
        Supplied-none pool Holds stream n o (subst (λ m. Kept pool Holds m o) (omega arith) good)
          once;
    splits = refl;
    handles = sym (append-nil (handles_of pool o stream));
    elsewhere = λ j d. refl;
    queues = refl;
  }

  -- A chunk and those after it.
  chunks_more :
      (n size : ℕ) (b : Buffer) (new : List Buffer) (o o1 o2 : OutputBufferManager pool)
      → 0 < size
      → stream < length o.enqueued_handles
      → b.capacity ≡ capacity_of (chunk_of size)
      → o1.enqueued_handles ≡ (push_handle pool stream id o).enqueued_handles
      → Supplied pool Holds stream (capacity_of (size - chunk_of size) + n) (b ∷ []) o o1
      → Acquired pool Holds stream n id (size - chunk_of size) new o1 o2
      → Acquired pool Holds stream n id size (b ∷ new) o o2
  chunks_more n size b new o o1 o2 pos l same kept one rest = record {
    supplied =
        Supplied-cons pool Holds stream (capacity_of (size - chunk_of size) + n) n b new o o1 o2 one
          rest.supplied;
    splits = (pos, same, rest.splits);
    handles =
        rest.handles
        ∙ ap (λ (q : List (List ℕ)). get_or q stream [] ++ replicate (length new) id) kept
        ∙ ap (λ (q : List ℕ). q ++ replicate (length new) id)
            (get_or-set_self o.enqueued_handles stream (handles_of pool o stream ++ (id ∷ [])) [] l)
        ∙ append_assoc (handles_of pool o stream) (id ∷ []) (replicate (length new) id);
    elsewhere = λ j d.
        rest.elsewhere j d
        ∙ ap (λ (q : List (List ℕ)). get_or q j []) kept
        ∙ get_or-set_ne o.enqueued_handles stream j (handles_of pool o stream ++ (id ∷ [])) [] d;
    queues =
        rest.queues
        ∙ ap length kept
        ∙ length-set o.enqueued_handles stream (handles_of pool o stream ++ (id ∷ []));
  }

  enqueue_chunks_lem :
      (fuel n size : ℕ) (o : OutputBufferManager pool)
      → size ≤ fuel
      → IsServable pool o stream bytes_per_fpga_transfer
      → stream < length o.enqueued_handles
      → Kept pool Holds (capacity_of size + n) o
      → Once o.tlb_manager
      → (new : List Buffer) × (o' : OutputBufferManager pool) × (enqueue_chunks pool fuel stream id
            size o
          ≡ (ok tt, o'))
        × Acquired pool Holds stream n id size new o o'
  unfolding enqueue_chunks
  enqueue_chunks_lem zero n zero o f s l good once = ([], o, refl, chunks_done n o good once)
  enqueue_chunks_lem zero n (suc size) o f s l good once = absurd (omega arith)
  enqueue_chunks_lem (suc fuel) n zero o f s l good once = ([], o, refl, chunks_done n o good once)
  enqueue_chunks_lem (suc fuel) n (suc size) o f s l good once =
      let rest = suc size - chunk_of (suc size) in
      let (b, o1, run, same, kept, one) =
        enqueue_chunk_lem (capacity_of rest + n) (suc size) o (omega arith) s l
          (subst (λ m. Kept pool Holds m o) (omega arith) good) once in
      let (new, o2, run', more) =
        enqueue_chunks_lem fuel n rest o1 (omega arith)
          (IsServable-Same pool o o1 stream bytes_per_fpga_transfer one.same s)
          (rw (kept, length-set) l) one.left one.once in
      (
        b ∷ new,
        o2,
        rw (lt→ltb 0 (suc size) (omega arith), enqueue_chunks)
            (>>=-ok (enqueue_chunk pool stream id (chunk_of (suc size)))
                (λ _. enqueue_chunks pool fuel stream id rest) o run
              ∙ run'),
        chunks_more n (suc size) b new o o1 o2 (omega arith) l same kept one more,
      )

-- The state with one handle more, for the one stream.
abbrev pub with_handle :
    (pool : MemoryPool) → ℕ → OutputBufferManager pool → OutputBufferManager pool
with_handle pool stream o = record o {
  handles = o.handles ++ (OutputHandle.init (set no_streams stream true) o.num_streams ∷ []);
}

module _ (pool : MemoryPool) (Holds : Holding pool) (serves : Serves pool Holds) where
  guards :
      (stream size : ℕ) (o : OutputBufferManager pool)
      → stream < o.num_streams
      → get_elem? o.managed_streams stream ≡ some false
      → 0 < size
      → check_unmanaged pool stream size o ≡ (ok tt, o)
  unfolding test
  guards stream size o known unmanaged pos =
      rw (lt→ltb stream o.num_streams known, unmanaged, lt→ltb 0 size pos) refl

  -- For an unmanaged stream and a positive size, where the pool can still grant the size rounded up to
  -- whole transfers, the call returns a fresh handle that is active for this stream alone. Behind the
  -- stream's buffers stand new ones that split the size into chunks of at most the maximum, each
  -- rounded up to whole transfers; the FPGA was told of exactly these in their order. The handle
  -- stands behind the stream's handles once for each of the chunks, and behind those of no other.
  pub acquire_sized_output_handle-Acquired :
      (stream size n : ℕ) (o : OutputBufferManager pool)
      → stream < o.num_streams
      → stream < 64
      → get_elem? o.managed_streams stream ≡ some false
      → 0 < size
      → IsServable pool o stream bytes_per_fpga_transfer
      → stream < length o.enqueued_handles
      → Kept pool Holds (capacity_of size + n) o
      → Once o.tlb_manager
      → (new : List Buffer) × (o' : OutputBufferManager pool) × (acquire_sized_output_handle pool
            stream size o
          ≡ (ok (length o.handles), o'))
        × Acquired pool Holds stream n (length o.handles) size new (with_handle pool stream o) o'
  unfolding acquire_sized_output_handle set_bit
  acquire_sized_output_handle-Acquired stream size n o known bit unmanaged pos s l good once =
      let id = length o.handles in
      let o1 = with_handle pool stream o in
      let (new, o2, run, acquired) =
        enqueue_chunks_lem pool Holds serves stream id size n size o1 (omega arith)
          (record {
            stream = s.stream;
            register = s.register;
            queue = s.queue;
            non_empty = s.non_empty;
            small = s.small;
            whole = s.whole;
          })
          l good once in
      (
        new,
        o2,
        >>=-ok (check_unmanaged pool stream size)
              (λ _. lift (set_bit no_streams stream) >>= acquire_chunks pool stream size) o
              (guards stream size o known unmanaged pos)
            ∙ rw (lt→ltb stream 64 bit)
                (>>=-ok (enqueue_chunks pool size stream id size) (λ _. pure id) o1 run),
        acquired,
      )
