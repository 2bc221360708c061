-- ===== src/OutputBufferManager/Supply.antt =====
-- How the manager supplies the FPGA with buffers (software/libstf/output_buffer_manager.cpp lines
-- 257-286), over any memory pool that can still grant what is asked of it.

use libstf.Base.{
  ℕ, ◌+◌, ◌^◌, ◌≤◌, ◌<◌, ◌≡◌, refl, ap, ◌∙◌, ◌≢◌, List, [], ◌∷◌, ◌++◌, map, arith, length,
  length-set, get_or-set_self, get_or-set_ne, ◌%◌, inl, inr, eq→==, ne→==,
}
use libstf.Base.Action.{Result, ok, pure, >>=-ok}
use libstf.MemoryPool.Bounds.{Region}
use libstf.Common.{bytes_per_fpga_transfer, maximum_fpga_buffer_size, fpga_vaddr_bits}
use libstf.Buffer.{Buffer, MemoryPool}
use libstf.Coyote.{CThread, set_csr, record_call}
use libstf.TlbManager.{TlbManager, ensure_tlb_mapping}
use libstf.TlbManager.OnePage.{Once, sent}
use libstf.TlbManager.Mapping.{ensure_tlb_mapping-Ensured}
use libstf.Configuration.{buffer_word}
use libstf.Configuration.Encoding.{enqueue_buffer_word, at}
use libstf.OutputBufferManager.Service.{Holding, Serves, Kept, region_of, blocks, Inserted-push}
use libstf.OutputBufferManager.{
  OutputBufferManager, on_pool, on_tlb, buffers_of, push_enqueued, map_allocated, store_and_write,
  provide, enqueue_buffer_for_stream,
}

-- The state after the pool and the TLB moved on.
abbrev pub moved :
    (pool : MemoryPool)
    → pool.State
    → TlbManager
    → OutputBufferManager pool
    → OutputBufferManager pool
moved pool p t o = record o { memory_pool = p; tlb_manager = t }

module _ (pool : MemoryPool) (Holds : Holding pool) (serves : Serves pool Holds) where
  pub provide_lem :
      (c n : ℕ) (o : OutputBufferManager pool)
      → 0 < c
      → c % bytes_per_fpga_transfer ≡ 0
      → Kept pool Holds (c + n) o
      → Once o.tlb_manager
      → (b : Buffer) × (p : pool.State) × (t : TlbManager) × (provide pool c o
          ≡ (ok b, moved pool p t o))
        × (b.capacity ≡ c)
        × (b.ptr + c ≤ 2 ^ fpga_vaddr_bits)
        × Holds (region_of b ∷ blocks o.enqueued_buffers) n p
        × Once t
        × ((reg : ℕ) → sent reg t.cthread.calls ≡ sent reg o.tlb_manager.cthread.calls)
  unfolding provide
  provide_lem c n o pos whole good once =
      let (ptr, p, allocated, left, high, paged) =
        serves.allocates c n (blocks o.enqueued_buffers) o.memory_pool pos whole good in
      let pages : ℕ → Result Region = λ a. pool.get_page_boundaries a p in
      let mapped =
        ensure_tlb_mapping-Ensured pages ptr (ptr + c) paged ptr c o.tlb_manager (omega arith)
          (omega arith) (omega arith) once in
      let t = (ensure_tlb_mapping pages ptr c o.tlb_manager).1 in
      let b : Buffer = record { ptr = ptr; size = 0; capacity = c } in
      let o1 : OutputBufferManager pool = record o { memory_pool = p } in
      (
        b,
        p,
        t,
        >>=-ok (on_pool pool (pool.allocate c 0)) (map_allocated pool c) o
              (ap (λ r. (r.0, record o { memory_pool = r.1 })) allocated)
            ∙ >>=-ok (on_tlb pool (ensure_tlb_mapping pages ptr c)) (λ _. pure b) o1
                (ap (λ r. (r, moved pool p t o)) mapped.returns),
        refl,
        high,
        left,
        mapped.once,
        mapped.quiet,
      )

-- The members that supplying buffers leaves as they are.
pub record Same (pool : MemoryPool) (o o' : OutputBufferManager pool) : Type 0 where
  pub mem_config : o'.mem_config ≡ o.mem_config
  pub num_streams : o'.num_streams ≡ o.num_streams
  pub managed_streams : o'.managed_streams ≡ o.managed_streams
  pub num_buffers_to_enqueue : o'.num_buffers_to_enqueue ≡ o.num_buffers_to_enqueue
  pub buffer_capacity : o'.buffer_capacity ≡ o.buffer_capacity
  pub handles : o'.handles ≡ o.handles
  pub queues : length o'.enqueued_buffers ≡ length o.enqueued_buffers

-- The register of a stream, and what was written to it.
abbrev pub told : (pool : MemoryPool) → ℕ → OutputBufferManager pool → List ℕ
told pool i o = sent (at o.mem_config.config i) o.tlb_manager.cthread.calls

-- What supplying stream `i` with new buffers does: they stand behind the others of its queue, the
-- FPGA is told each of them in this order and nothing else, the other queues stay, and `n` bytes can
-- still be granted.
pub record Supplied (pool : MemoryPool) (Holds : Holding pool) (i n : ℕ) (new : List Buffer)
    (o o' : OutputBufferManager pool) : Type 0 where
  pub queue : buffers_of pool o' i ≡ buffers_of pool o i ++ new
  pub others : (j : ℕ) → i ≢ j → buffers_of pool o' j ≡ buffers_of pool o j
  pub writes : told pool i o' ≡ told pool i o ++ map buffer_word new
  pub silent :
      (reg : ℕ)
      → at o.mem_config.config i ≢ reg
      → sent reg o'.tlb_manager.cthread.calls ≡ sent reg o.tlb_manager.cthread.calls
  pub left : Kept pool Holds n o'
  pub once : Once o'.tlb_manager
  pub same : Same pool o o'

-- A stream and a capacity that the FPGA takes.
pub record IsServable (pool : MemoryPool) (o : OutputBufferManager pool) (i c : ℕ) : Type 0 where
  pub stream : i < o.mem_config.num_streams
  pub register : i < o.mem_config.config.num_regs
  pub queue : i < length o.enqueued_buffers
  pub non_empty : 0 < c
  pub small : c < maximum_fpga_buffer_size
  pub whole : c % bytes_per_fpga_transfer ≡ 0

module _ (pool : MemoryPool) (Holds : Holding pool) (serves : Serves pool Holds) where
  -- Storing a buffer and writing it to the FPGA.
  pub store_and_write_lem :
      (i n : ℕ) (b : Buffer) (o : OutputBufferManager pool)
      → IsServable pool o i b.capacity
      → b.ptr + b.capacity ≤ 2 ^ fpga_vaddr_bits
      → Holds (region_of b ∷ blocks o.enqueued_buffers) n o.memory_pool
      → Once o.tlb_manager
      → (o' : OutputBufferManager pool) × (store_and_write pool i b o ≡ (ok tt, o'))
        × (o'.enqueued_handles ≡ o.enqueued_handles)
        × Supplied pool Holds i n (b ∷ []) o o'
  store_and_write_lem i n b o s high good once =
      elim (enqueue_buffer_word o.mem_config i b o.tlb_manager.cthread) [
        | inr (refused, e) ↦ absurd (
            refused (record {
              known = s.stream;
              register = s.register;
              address = omega (arith, s.non_empty);
              non_empty = s.non_empty;
              small = s.small;
              whole = s.whole;
            }))
        | inl (_, e, _, _) ↦
            let t : TlbManager = record o.tlb_manager {
              cthread =
                  record_call (set_csr (buffer_word b) (at o.mem_config.config i))
                    o.tlb_manager.cthread;
            } in
            let o1 = push_enqueued pool i b o in
            let o' : OutputBufferManager pool = record o1 { tlb_manager = t } in
            (
              o',
              ap
                  (λ (r : Result (Unit {0}) × CThread).
                    (r.0, record o1 { tlb_manager = record o.tlb_manager { cthread = r.1 } }))
                  e,
              refl,
              record {
                queue =
                    get_or-set_self o.enqueued_buffers i (buffers_of pool o i ++ (b ∷ [])) []
                      s.queue;
                others = λ j d.
                    get_or-set_ne o.enqueued_buffers i j (buffers_of pool o i ++ (b ∷ [])) [] d;
                writes = rw (eq→== (at o.mem_config.config i) (at o.mem_config.config i) refl) refl;
                silent = λ reg d. rw (ne→== (at o.mem_config.config i) reg d) refl;
                left =
                    serves.puts (region_of b) (blocks o.enqueued_buffers) _ n o.memory_pool
                      (Inserted-push b o.enqueued_buffers i s.queue) good;
                once = record {
                  mapped = once.mapped;
                  distinct = once.distinct;
                  ordered = once.ordered;
                };
                same = record {
                  mem_config = refl;
                  num_streams = refl;
                  managed_streams = refl;
                  num_buffers_to_enqueue = refl;
                  buffer_capacity = refl;
                  handles = refl;
                  queues = length-set o.enqueued_buffers i (buffers_of pool o i ++ (b ∷ []));
                };
              },
            )
      ]

  -- A buffer more for a stream.
  pub enqueue_buffer_for_stream_lem :
      (i n : ℕ) (o : OutputBufferManager pool)
      → IsServable pool o i o.buffer_capacity
      → Kept pool Holds (o.buffer_capacity + n) o
      → Once o.tlb_manager
      → (b : Buffer) × (o' : OutputBufferManager pool) × (enqueue_buffer_for_stream pool i o
          ≡ (ok tt, o'))
        × (b.capacity ≡ o.buffer_capacity)
        × (o'.enqueued_handles ≡ o.enqueued_handles)
        × Supplied pool Holds i n (b ∷ []) o o'
  unfolding enqueue_buffer_for_stream
  enqueue_buffer_for_stream_lem i n o s good once =
      let (b, p, t, run, size, high, left, once', quiet) =
        provide_lem pool Holds serves o.buffer_capacity n o s.non_empty s.whole good once in
      let (o', run', kept, supplied) =
        store_and_write_lem i n b (moved pool p t o)
          (record {
            stream = s.stream;
            register = s.register;
            queue = s.queue;
            non_empty = rw size s.non_empty;
            small = rw size s.small;
            whole = rw size s.whole;
          })
          (rw size high) left once' in
      (
        b,
        o',
        >>=-ok (provide pool o.buffer_capacity) (store_and_write pool i) o run ∙ run',
        size,
        kept,
        record {
          queue = supplied.queue;
          others = supplied.others;
          writes =
              supplied.writes
              ∙ ap (λ (xs : List ℕ). xs ++ (buffer_word b ∷ [])) (quiet (at o.mem_config.config i));
          silent = λ reg d. supplied.silent reg d ∙ quiet reg;
          left = supplied.left;
          once = supplied.once;
          same = record {
            mem_config = supplied.same.mem_config;
            num_streams = supplied.same.num_streams;
            managed_streams = supplied.same.managed_streams;
            num_buffers_to_enqueue = supplied.same.num_buffers_to_enqueue;
            buffer_capacity = supplied.same.buffer_capacity;
            handles = supplied.same.handles;
            queues = supplied.same.queues;
          };
        },
      )
