-- ===== src/OutputBufferManager/Acquisition.antt =====
-- acquire_output_handle(mask): software/libstf/output_buffer_manager.cpp lines 121-144.
use libstf.Base.{
  ℕ, ◌+◌, ◌*◌, ◌≡◌, refl, Bool, true, false, ◌&&◌, [], ◌∷◌, ◌++◌, arith, length, get_or, leb,
  All-append, All-mono, length-append, length-replicate,
}
use libstf.Base.Action.{ok, pure, >>=-ok}
use libstf.Buffer.{MemoryPool}
use libstf.OutputHandle
use libstf.OutputHandle.{OutputHandle, StreamMask, test}
use libstf.OutputBufferManager.{
  OutputBufferManager, activate, any, none_from, is_within, acquire_output_handle,
}
use libstf.OutputBufferManager.Service.{Holding, Serves, Kept}
use libstf.OutputBufferManager.WellFormed.{WellFormed, IsStored}
use libstf.OutputBufferManager.Handling.{refill_bytes}
use libstf.OutputBufferManager.Activation.{Activated, Activated-ext}
use libstf.OutputBufferManager.Rounds.{activate-Activated}

-- The store with the new handle.
abbrev pub with_active :
    (pool : MemoryPool) → StreamMask → OutputBufferManager pool → OutputBufferManager pool
with_active pool mask o = record o {
  handles = o.handles ++ (OutputHandle.init mask o.num_streams ∷ []);
}

pub with_active-WellFormed :
    (pool : MemoryPool) (mask : StreamMask) (o : OutputBufferManager pool)
    → WellFormed pool o
    → WellFormed pool (with_active pool mask o)
with_active-WellFormed pool mask o w =
    let fresh = OutputHandle.init mask o.num_streams in
    record {
      streams = w.streams;
      registers = w.registers;
      bits = w.bits;
      mask = w.mask;
      buffers = w.buffers;
      queues = w.queues;
      non_empty = w.non_empty;
      small = w.small;
      whole = w.whole;
      stored =
          All-append (IsStored o.num_streams) o.handles (fresh ∷ []) w.stored
            ((length-replicate o.num_streams [], refl), tt);
      known =
          All-mono _ _ o.enqueued_handles
            (λ q h.
              All-mono _ _ q (λ id l. omega (arith, l, length-append o.handles (fresh ∷ []))) h)
            w.known;
      once = w.once;
    }

module _ (pool : MemoryPool) (Holds : Holding pool) (serves : Serves pool Holds) where
  -- For a well-formed manager and a mask that has a stream, only streams of the manager, and only
  -- managed ones, where the pool can grant as much as topping every stream up takes, the call returns
  -- the number of a fresh handle for the mask. Each stream of the mask has the number of buffers to
  -- enqueue, of which the FPGA was told the new ones in their order, and the handle stands behind
  -- the stream's others; no other stream changed, and the manager is well formed.
  pub acquire_output_handle-Activated :
      (mask : StreamMask) (n : ℕ) (o : OutputBufferManager pool)
      → WellFormed pool o
      → length mask ≡ OutputHandle.maximum_fpga_num_streams
      → any mask ≡ true
      → none_from o.num_streams mask ≡ true
      → is_within mask o.managed_streams ≡ true
      → Kept pool Holds (o.num_streams * refill_bytes pool o + n) o
      → (o' : OutputBufferManager pool) × (acquire_output_handle pool mask o
          ≡ (ok (length o.handles), o'))
        × Activated pool Holds
            (with_active pool mask o)
            o'
            (length o.handles)
            n
            (λ j. get_or mask j false)
  unfolding acquire_output_handle
  acquire_output_handle-Activated mask n o w size some_stream streams managed kept =
      let id = length o.handles in
      let o1 = with_active pool mask o in
      let (o', run, activated) =
        activate-Activated pool Holds serves id mask o.num_streams 0 n o1
          (with_active-WellFormed pool mask o w) (omega arith) size
          (omega (arith, length-append o.handles (OutputHandle.init mask o.num_streams ∷ [])))
          kept in
      (
        o',
        rw (some_stream, streams, managed)
            (>>=-ok (activate pool mask id o.num_streams 0) (λ _. pure id) o1 run),
        Activated-ext pool Holds o1 o' id n _ _ (λ j known. from_zero j (get_or mask j false))
            activated,
      )
    where
      from_zero : (j : ℕ) (b : Bool) → (leb 0 j && b) ≡ b
      from_zero j b = ground arith
