-- ===== src/OutputBufferManager/SizedAcquisition.antt =====
-- acquire_output_handle(stream, size) in the life of a manager: software/libstf/
-- output_buffer_manager.cpp lines 146-193.
use libstf.Base.{
  ℕ, ◌+◌, ◌<◌, ◌≡◌, refl, ap, sym, ◌∙◌, true, false, some, List, [], ◌∷◌, arith, length, get_elem?,
  set, replicate, All, All-append, length-append, ℕ_discrete,
}
use mathlib.Core.Path.{subst}
use libstf.Base.Action.{Result, ok}
use libstf.Buffer.{Buffer, MemoryPool}
use libstf.OutputHandle
use libstf.OutputHandle.{no_streams, maximum_fpga_num_streams}
use libstf.OutputBufferManager.{
  OutputBufferManager, handles_of, capacity_of, acquire_sized_output_handle,
}
use libstf.OutputBufferManager.Service.{Holding, Serves, Kept}
use libstf.OutputBufferManager.WellFormed.{
  replicate-All, All-of-get_or, WellFormed, AreKnown, All-get_or,
}
use libstf.OutputBufferManager.Outcomes.{Flowed}
use libstf.OutputBufferManager.Others.{refill_others}
use libstf.OutputBufferManager.Acquisition.{with_active-WellFormed}
use libstf.OutputBufferManager.Chunks.{Acquired, with_handle, acquire_sized_output_handle-Acquired}
use libstf.OutputBufferManager.Leading.{Leads}

module _ (pool : MemoryPool) (Holds : Holding pool) where
  -- The handle that was pushed was given out.
  Acquired-known :
      (stream n id size : ℕ) (new : List Buffer) (o o' : OutputBufferManager pool)
      → id < length o.handles
      → AreKnown (length o.handles) o.enqueued_handles
      → Acquired pool Holds stream n id size new o o'
      → AreKnown (length o'.handles) o'.enqueued_handles
  Acquired-known stream n id size new o o' given known acquired =
      let IsGiven : List ℕ → Type 0 = λ q. All (λ (i : ℕ). i < length o.handles) q in
      let given_of : (j : ℕ) → IsGiven (handles_of pool o j) =
        λ j. All-get_or IsGiven o.enqueued_handles j [] known tt in
      subst (λ (k : ℕ). AreKnown k o'.enqueued_handles)
        (sym (ap length acquired.supplied.same.handles))
        (All-of-get_or IsGiven o'.enqueued_handles [] (λ j l. elim (ℕ_discrete stream j) [
          | yes e ↦
              subst (λ k. IsGiven (handles_of pool o' k)) e
                (subst IsGiven (sym acquired.handles) (
                  All-append _ (handles_of pool o stream) (replicate (length new) id)
                    (given_of stream) (replicate-All _ (length new) id given)))
          | no d ↦ subst IsGiven (sym (acquired.elsewhere j d)) (given_of j)
        ]))

  Acquired-WellFormed :
      (stream n id size : ℕ) (new : List Buffer) (o o' : OutputBufferManager pool)
      → id < length o.handles
      → WellFormed pool o
      → Acquired pool Holds stream n id size new o o'
      → WellFormed pool o'
  Acquired-WellFormed stream n id size new o o' given w acquired =
      let same = acquired.supplied.same in
      record {
        streams = rw (same.num_streams, same.mem_config) w.streams;
        registers = rw (same.num_streams, same.mem_config) w.registers;
        bits = rw same.num_streams w.bits;
        mask = rw same.managed_streams w.mask;
        buffers = rw (same.num_streams, same.queues) w.buffers;
        queues = rw (same.num_streams, acquired.queues) w.queues;
        non_empty = rw same.buffer_capacity w.non_empty;
        small = rw same.buffer_capacity w.small;
        whole = rw same.buffer_capacity w.whole;
        stored = rw (same.num_streams, same.handles) w.stored;
        known = Acquired-known stream n id size new o o' given w.known acquired;
        once = acquired.supplied.once;
      }

  module _ (serves : Serves pool Holds) where
    -- The call leaves the manager well formed, adds new buffers to the stream, of which it tells the
    -- FPGA, and does nothing of any other.
    pub sized-Leads :
        (o o1 : OutputBufferManager pool) (stream size n id : ℕ)
        → WellFormed pool o
        → stream < o.num_streams
        → get_elem? o.managed_streams stream ≡ some false
        → 0 < size
        → Kept pool Holds (capacity_of size + n) o
        → acquire_sized_output_handle pool stream size o ≡ (ok id, o1)
        → Leads pool o o1 []
    sized-Leads o o1 stream size n id w known unmanaged pos kept run =
        let start = with_handle pool stream o in
        let fresh = with_active-WellFormed pool (set no_streams stream true) o w in
        let (new, o', run', acquired) =
          acquire_sized_output_handle-Acquired pool Holds serves stream size n o known
            (omega (arith, w.bits)) unmanaged pos
            (record {
              stream = omega (arith, w.streams);
              register = omega (arith, w.registers);
              queue = omega (arith, w.buffers);
              non_empty = omega arith;
              small = omega arith;
              whole = refl;
            })
            (omega (arith, w.queues)) kept w.once in
        let same = acquired.supplied.same in
        subst (λ (x : OutputBufferManager pool). Leads pool o x [])
          (ap (λ (r : Result ℕ × OutputBufferManager pool). r.1) (sym run' ∙ run))
          (
            Acquired-WellFormed stream n (length o.handles) size new start o'
                (omega (
                  arith,
                  length-append o.handles
                      (OutputHandle.init (set no_streams stream true) o.num_streams ∷ []),
                ))
                fresh acquired,
            record {
              mem_config = same.mem_config;
              num_streams = same.num_streams;
              managed_streams = same.managed_streams;
              num_buffers_to_enqueue = same.num_buffers_to_enqueue;
              buffer_capacity = same.buffer_capacity;
            },
            λ j there. elim (ℕ_discrete stream j) [
              | yes e ↦ (
                new,
                subst (λ (k : ℕ). Flowed pool o o' k [] new) e
                    (record { queue = acquired.supplied.queue; writes = acquired.supplied.writes }),
              )
              | no d ↦
                  let flow =
                    refill_others pool Holds stream j n new start o' fresh acquired.supplied d known
                      there in
                  ([], record { queue = flow.queue; writes = flow.writes })
            ],
          )
