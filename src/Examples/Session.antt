-- ===== src/Examples/Session.antt =====
-- What the main functions of examples/02_typed_dictionary and examples/03_replay_buffer share: the
-- objects that they create, the buffers, the transfers of a run and the wait for its end. What the
-- device does is given: the numbers that the polls of checkCompleted return, and the memory and the
-- registers as they are once the wait ends.
pub mod Returns
pub mod Rounds
use libstf.Base.{
  ℕ, zero, suc, ◌+◌, ◌-◌, ◌/◌, ◌%◌, ◌^◌, Bool, ◌&&◌, List, [], ◌∷◌, Option, none, some, ltb, leb,
  ◌==◌, if◌then◌else◌, true, false,
}
use libstf.Base.Word.{u64_mod, wrap_add}
use libstf.Base.Action.{Action, Result, ok, err, out_of_fuel, ◌>>=◌, ◌>>◌, pure, modify}
use libstf.ErrorHandling.{is_ok}
use libstf.MemoryPool.Bounds.{Region}
use libstf.Buffer.{MemoryPool}
use libstf.Coyote.{CThread, Call, clear_completed, record_call}
use libstf.TlbManager.{TlbManager, ensure_tlb_mapping}
use libstf.Examples.ReplayBuffer.{Memory}

-- The device behind the thread, by the calls that were made so far.
pub record Device : Type 0 where
  -- What checkCompleted returns, poll by poll.
  pub completed : List Call → List ℕ
  pub memory_after : List Call → Memory → Memory
  pub get_csr_after : List Call → ℕ → ℕ

-- The objects of main; the thread is held by the TLBManager.
pub record Session (pool : MemoryPool) : Type 0 where
  pub mem_pool : pool.State
  pub tlb_manager : TlbManager
  pub memory : Memory

-- `std::memset(ptr, 0, size)`
abbrev pub clear : ℕ → ℕ → Memory → Memory
clear ptr size m a = if leb ptr a && ltb a (ptr + size) then 0 else m a

-- A little-endian number of `bytes` bytes is written.
abbrev pub write_number : ℕ → ℕ → ℕ → Memory → Memory
write_number bytes ptr v m a =
    if leb ptr a && ltb a (ptr + bytes) then v / 256 ^ (a - ptr) % 256 else m a

-- The polls of `while (checkCompleted(LOCAL_WRITE) != n) {}`. Where they are used up without an `n`
-- among them, the loop goes on.
unfoldable pub wait_for : ℕ → List ℕ → Result (Unit {0})
wait_for n [] = err out_of_fuel
wait_for n (c ∷ cs) = if c == n then ok tt else wait_for n cs

-- `for (size_t i = 0; i < rounds; i++) s = body(i, s);` from `i` on.
unfoldable pub for_each : {S : Type 0} → (ℕ → S → S) → ℕ → ℕ → S → S
for_each body zero i s = s
for_each body (suc rounds) i s = for_each body rounds (suc i) (body i s)

-- `for (size_t run = 0; run < rounds; run++) { a = run(); t = add(a, t); }`, where what is added may
-- look at the state after the run.
unfoldable pub repeat : {S A T : Type 0} → Action S A → (A → S → T → T) → ℕ → T → Action S T
repeat run add zero t = pure t
repeat run add (suc rounds) t = run >>= λ a s. repeat run add rounds (add a s t) s

-- `if (c) return EXIT_FAILURE;` in main, and a value without which it returns so.
abbrev pub exit_if : {S : Type 0} → Bool → Action S ℕ → Action S ℕ
exit_if true rest = pure 1
exit_if false rest = rest

abbrev pub or_exit : {S A : Type 0} → Option A → (A → Action S ℕ) → Action S ℕ
or_exit none rest = pure 1
or_exit (some a) rest = rest a

-- Both calls, where the first has a result.
abbrev pub and_also :
    {S A B : Type 0} → Action S (Option A) → (A → Action S (Option B)) → Action S (Option B)
and_also m k = m >>= λ r. elim r [ none ↦ pure none | some a ↦ k a ]

module _ {pool : MemoryPool} where
  abbrev pub on_pool : {A : Type 0} → Action pool.State A → Action (Session pool) A
  on_pool call s = let (r, p) = call s.mem_pool in (r, record s { mem_pool = p })

  -- A call of the TLBManager, which asks the pool for its pages.
  abbrev pub on_tlb :
      {A : Type 0} → ((ℕ → Result Region) → Action TlbManager A) → Action (Session pool) A
  on_tlb call s =
      let (r, t) = call (λ a. pool.get_page_boundaries a s.mem_pool) s.tlb_manager in
      (r, record s { tlb_manager = t })

  abbrev pub on_thread : {A : Type 0} → Action CThread A → Action (Session pool) A
  on_thread call = on_tlb (λ _ t. let (r, c) = call t.cthread in (r, record t { cthread = c }))

  abbrev pub on_memory : (Memory → Memory) → Action (Session pool) (Unit {0})
  on_memory f = modify (λ s. record s { memory = f s.memory })

  -- `mem_pool->allocate(size, &buffer)`: the pointer, or `none` where the status is not OK.
  unfoldable pub allocate_buffer : ℕ → ℕ → Action (Session pool) (Option ℕ)
  allocate_buffer size out =
      on_pool (pool.allocate size out) >>= λ r. pure (if is_ok r.0 then some r.1 else none)

  -- The loop that allocates the buffers of a vector, which are nullptr before; `none` where it
  -- returns from main.
  unfoldable pub allocate_buffers : ℕ → ℕ → Action (Session pool) (Option (List ℕ))
  unfolding allocate_buffer
  allocate_buffers size zero = pure (some [])
  allocate_buffers size (suc count) =
      and_also (allocate_buffer size 0) (λ buffer.
        and_also (allocate_buffers size count) (λ buffers. pure (some (buffer ∷ buffers))))

  -- `if (huge_pool) ensure_tlb_mapping(initial_address, total_capacity)`; `none` is the pool that is
  -- not a HugePageMemoryPool.
  unfoldable pub premap : Option Region → Action (Session pool) (Unit {0})
  premap none = pure tt
  premap (some (initial_address, total_capacity)) =
      on_tlb (λ pages. ensure_tlb_mapping pages initial_address total_capacity)

  -- `cthread->clearCompleted()`
  abbrev pub clear_counts : Action (Session pool) (Unit {0})
  clear_counts = on_thread (modify (record_call clear_completed))

  -- The wait until the device has done `n` writes, and what it did meanwhile.
  unfoldable pub wait_for_writes : Device → ℕ → Action (Session pool) (Unit {0})
  unfolding wait_for
  wait_for_writes device n s =
      let calls = s.tlb_manager.cthread.calls in
      (
        wait_for n (device.completed calls),
        record s {
          tlb_manager = record s.tlb_manager {
            cthread = record s.tlb_manager.cthread { get_csr = device.get_csr_after calls };
          };
          memory = device.memory_after calls s.memory;
        },
      )
