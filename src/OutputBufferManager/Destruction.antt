-- ===== src/OutputBufferManager/Destruction.antt =====
-- The destructor: software/libstf/output_buffer_manager.cpp lines 90-97 and 199-206.
use libstf.Base.{ℕ, ◌≡◌, refl, ap, ◌∙◌, ◌++◌, List, [], ◌∷◌, map}
use libstf.Base.Action.{Result, ok, modify, >>=-ok}
use libstf.MemoryPool.Bounds.{Region}
use libstf.Buffer.{Buffer, MemoryPool}
use libstf.OutputHandle.{free_queue, free_queues}
use libstf.OutputBufferManager.{OutputBufferManager, on_pool, destroy}
use libstf.OutputBufferManager.Service.{Holding, Serves, Kept, regions, blocks}

-- From the first state to the second, these blocks were freed, each by one call that returned.
pub data Freed (pool : MemoryPool) : List Region → pool.State → pool.State → Type 0 where
  none_left : (s : pool.State) → Freed pool [] s s
  freed :
      (ptr c : ℕ) (rs : List Region) (s s1 s2 : pool.State)
      → pool.free ptr c s ≡ (ok tt, s1)
      → Freed pool rs s1 s2
      → Freed pool ((ptr, c) ∷ rs) s s2

Freed-append :
    (pool : MemoryPool) (rs ts : List Region) (s s1 s2 : pool.State)
    → Freed pool rs s s1
    → Freed pool ts s1 s2
    → Freed pool (rs ++ ts) s s2
Freed-append pool _ ts _ s1 s2 (none_left _) rest = rest
Freed-append pool _ ts s s1 s2 (freed ptr c rs _ s' _ call calls) rest =
    freed ptr c (rs ++ ts) s s' s2 call (Freed-append pool rs ts s' s1 s2 calls rest)

module _ (pool : MemoryPool) (Holds : Holding pool) (serves : Serves pool Holds) where
  -- The loop over a queue gives its blocks back.
  free_queue-Holds :
      (q : List Buffer) (bs : List Region) (n : ℕ) (s : pool.State)
      → Holds (regions q ++ bs) n s
      → (s' : pool.State) × (free_queue pool q s ≡ (ok tt, s'))
        × Freed pool (regions q) s s'
        × Holds bs n s'
  free_queue-Holds [] bs n s held = (s, refl, none_left s, held)
  free_queue-Holds (b ∷ q) bs n s held =
      let (s1, run1, held1) = serves.frees b.ptr b.capacity n (regions q ++ bs) s held in
      let (s2, run2, calls, held2) = free_queue-Holds q bs n s1 held1 in
      (
        s2,
        >>=-ok (pool.free b.ptr b.capacity) (λ _. free_queue pool q) s run1 ∙ run2,
        freed b.ptr b.capacity (regions q) s s1 s2 run1 calls,
        held2,
      )

  free_queues-Holds :
      (qs : List (List Buffer)) (n : ℕ) (s : pool.State)
      → Holds (blocks qs) n s
      → (s' : pool.State) × (free_queues pool qs s ≡ (ok tt, s')) × Freed pool (blocks qs) s s'
  free_queues-Holds [] n s held = (s, refl, none_left s)
  free_queues-Holds (q ∷ qs) n s held =
      let (s1, run1, calls1, held1) = free_queue-Holds q (blocks qs) n s held in
      let (s2, run2, calls2) = free_queues-Holds qs n s1 held1 in
      (
        s2,
        >>=-ok (free_queue pool q) (λ _. free_queues pool qs) s run1 ∙ run2,
        Freed-append pool (regions q) (blocks qs) s s1 s2 calls1 calls2,
      )

  -- Where the pool serves the manager, which holds the blocks of its enqueued buffers, the destructor
  -- returns: each of these blocks was freed by one call that returned, with the capacity it was
  -- allocated with and stream by stream, the queues of buffers are empty, and all else but the pool is
  -- as it was.
  pub destroy_frees :
      (o : OutputBufferManager pool) (n : ℕ)
      → Kept pool Holds n o
      → (p : pool.State) × (destroy pool o ≡ (
        ok tt,
        record o { memory_pool = p; enqueued_buffers = map (λ _. []) o.enqueued_buffers },
      ))
        × Freed pool (blocks o.enqueued_buffers) o.memory_pool p
  unfolding destroy
  destroy_frees o n kept =
      let (p, run, calls) = free_queues-Holds o.enqueued_buffers n o.memory_pool kept in
      let frees : on_pool pool (free_queues pool o.enqueued_buffers) o
          ≡ (ok tt, record o { memory_pool = p }) =
        ap (λ (r : Result (Unit {0}) × pool.State). (r.0, record o { memory_pool = r.1 })) run in
      (
        p,
        >>=-ok (on_pool pool (free_queues pool o.enqueued_buffers))
            (λ _. modify (λ x. record x { enqueued_buffers = map (λ _. []) x.enqueued_buffers })) o
            frees,
        calls,
      )
