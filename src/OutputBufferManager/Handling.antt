-- ===== src/OutputBufferManager/Handling.antt =====
-- handle_fpga_interrupt as a whole (software/libstf/output_buffer_manager.cpp lines 99-119), for a
-- manager that is well formed and an interrupt that the FPGA can send.
use libstf.Base.{
  ℕ, ◌+◌, ◌-◌, ◌*◌, ◌≤◌, ◌<◌, ◌≡◌, refl, ap, ◌∙◌, Bool, true, false, some, List, [], arith, length,
  get_elem?, if◌then◌else◌, length-append,
}
use mathlib.Core.Path.{subst}
use native.Mathlib.Nat.{add-mul}
use libstf.Base.Action.{Result, ok}
use libstf.Buffer.{Buffer, MemoryPool}
use libstf.TlbManager.OnePage.{Once}
use libstf.OutputHandle.{StreamMask, test}
use libstf.OutputBufferManager.{
  OutputBufferManager, buffers_of, ensure_stream_has_buffers, refill_if, refill,
}
use libstf.OutputBufferManager.Service.{Holding, Serves, Kept, blocks}
use libstf.OutputBufferManager.Supply.{Same, Supplied}
use libstf.OutputBufferManager.TopUp.{Supplied-none, ensure_stream_has_buffers-ToppedUp}
use libstf.OutputBufferManager.WellFormed.{WellFormed, WellFormed-IsServable}

-- The members that supplying buffers leaves, with the handles in use.
pub WellFormed-Same :
    (pool : MemoryPool) (o o' : OutputBufferManager pool)
    → WellFormed pool o
    → Same pool o o'
    → o'.enqueued_handles ≡ o.enqueued_handles
    → Once o'.tlb_manager
    → WellFormed pool o'
WellFormed-Same pool o o' w same kept once = record {
  streams = rw (same.num_streams, same.mem_config) w.streams;
  registers = rw (same.num_streams, same.mem_config) w.registers;
  bits = rw same.num_streams w.bits;
  mask = rw same.managed_streams w.mask;
  buffers = rw (same.num_streams, same.queues) w.buffers;
  queues = rw (same.num_streams, kept) w.queues;
  non_empty = rw same.buffer_capacity w.non_empty;
  small = rw same.buffer_capacity w.small;
  whole = rw same.buffer_capacity w.whole;
  stored = rw (same.num_streams, same.handles) w.stored;
  known = rw (kept, same.handles) w.known;
  once = once;
}

-- What topping up a stream, where it is managed, does: `new` are the buffers that were added.
pub record Refilled (pool : MemoryPool) (Holds : Holding pool) (i n : ℕ) (new : List Buffer)
    (o o' : OutputBufferManager pool) : Type 0 where
  pub supplied : Supplied pool Holds i n new o o'
  pub handles : o'.enqueued_handles ≡ o.enqueued_handles
  pub enough :
      get_elem? o.managed_streams i ≡ some true
      → o.num_buffers_to_enqueue ≤ length (buffers_of pool o' i)
  pub unmanaged : get_elem? o.managed_streams i ≡ some false → new ≡ []

pub test_lem :
    (mask : StreamMask) (i : ℕ) (b : Bool) → get_elem? mask i ≡ some b → test mask i ≡ ok b
unfolding test
test_lem mask i b e = rw (e, test) refl

on_test :
    {pool : MemoryPool} (o : OutputBufferManager pool) (i : ℕ) (managed : Bool)
    → get_elem? o.managed_streams i ≡ some managed
    → refill pool i o ≡ (if managed then ensure_stream_has_buffers pool i o else (ok tt, o))
on_test {pool} o i managed e =
    ap (λ (m : Result Bool). refill_if pool i m o) (test_lem o.managed_streams i managed e)
    ∙ either managed
  where
    either :
        (m : Bool)
        → refill_if pool i (ok m) o ≡ (if m then ensure_stream_has_buffers pool i o else (ok tt, o))
    either true = refl
    either false = refl

-- The bytes that topping a stream up takes at most.
abbrev pub refill_bytes : (pool : MemoryPool) → OutputBufferManager pool → ℕ
refill_bytes pool o = o.num_buffers_to_enqueue * o.buffer_capacity

refill_split : (a b c n : ℕ) → a * c + n ≡ (a - (a - b)) * c + ((a - b) * c + n)
refill_split a b c n =
    let e : a - (a - b) + (a - b) ≡ a = omega arith in
    omega (arith, add-mul (a - (a - b)) (a - b) c, ap (λ (t : ℕ). t * c) e)

module _ (pool : MemoryPool) (Holds : Holding pool) (serves : Serves pool Holds) where
  -- Topping up a stream of a well-formed manager.
  pub ensure_lem :
      (i n : ℕ) (o : OutputBufferManager pool)
      → WellFormed pool o
      → i < o.num_streams
      → Kept pool Holds (refill_bytes pool o + n) o
      → (new : List Buffer) × (o' : OutputBufferManager pool) × (ensure_stream_has_buffers pool i o
          ≡ (ok tt, o'))
        × Supplied pool Holds i n new o o'
        × (o'.enqueued_handles ≡ o.enqueued_handles)
        × (o.num_buffers_to_enqueue ≤ length (buffers_of pool o' i))
  ensure_lem i n o w known kept =
      let have = length (buffers_of pool o i) in
      let all = o.num_buffers_to_enqueue in
      let c = o.buffer_capacity in
      let (new, o', run, topped) =
        ensure_stream_has_buffers-ToppedUp pool Holds serves i n o
          (WellFormed-IsServable pool o i w known)
          (serves.weakens (blocks o.enqueued_buffers) ((all - (all - have)) * c)
            ((all - have) * c + n) o.memory_pool
            (subst (λ m. Kept pool Holds m o) (refill_split all have c n) kept))
          w.once in
      (
        new,
        o',
        run,
        topped.supplied,
        topped.handles,
        omega (
          arith,
          topped.count,
          ap length topped.supplied.queue ∙ length-append (buffers_of pool o i) new,
        ),
      )

  pub refill-Refilled :
      (i n : ℕ) (o : OutputBufferManager pool) (managed : Bool)
      → WellFormed pool o
      → i < o.num_streams
      → get_elem? o.managed_streams i ≡ some managed
      → Kept pool Holds (refill_bytes pool o + n) o
      → (new : List Buffer) × (o' : OutputBufferManager pool) × (refill pool i o ≡ (ok tt, o'))
        × Refilled pool Holds i n new o o'
  unfolding test
  refill-Refilled i n o false w known e kept = (
    [],
    o,
    on_test o i false e,
    record {
      supplied =
          Supplied-none pool Holds i n o
            (serves.weakens (blocks o.enqueued_buffers) (refill_bytes pool o) n o.memory_pool kept)
            w.once;
      handles = refl;
      enough = λ m. absurd (cc (e, m));
      unmanaged = λ m. refl;
    },
  )
  refill-Refilled i n o true w known e kept =
      let (new, o', run, supplied, handles, enough) = ensure_lem i n o w known kept in
      (
        new,
        o',
        on_test o i true e ∙ run,
        record {
          supplied = supplied;
          handles = handles;
          enough = λ m. enough;
          unmanaged = λ m. absurd (cc (e, m));
        },
      )
