-- ===== src/Transfers.antt =====
-- enqueue_stream_input (software/libstf/util.cpp lines 5-30) and its counterpart
-- enqueue_stream_output (examples/02_typed_dictionary/src/main.cpp lines 125-146, and the same text
-- in examples/03_replay_buffer/src/main.cpp lines 118-139). The state is the TLBManager, which holds
-- the thread; coyote::MAX_TRANSFER_SIZE is a parameter.
pub mod Tiling
use libstf.Base.{ℕ, zero, suc, ◌+◌, ◌-◌, Bool, true, false, ◌&&◌, ltb, leb, min}
use libstf.Base.Word.{u64_mod, wrap_add}
use libstf.Base.Action.{Action, Result, ok, err, out_of_fuel, ◌>>=◌, ◌>>◌, pure}
use libstf.Coyote.{Oper, local_read, local_write, invoke, record_call}
use libstf.MemoryPool.Bounds.{Region}
use libstf.TlbManager.{TlbManager, ensure_tlb_mapping}

abbrev pub call_thread : Oper → ℕ → ℕ → ℕ → Bool → TlbManager → TlbManager
call_thread oper addr len dest last t = record t {
  cthread = record_call (invoke oper addr len dest last) t.cthread;
}

module _ (max_transfer_size : ℕ) (oper : Oper) (ptr size stream : ℕ) (last : Bool) where
  -- One round, at an offset.
  abbrev pub post_transfer : ℕ → TlbManager → TlbManager
  post_transfer off =
      call_thread oper (ptr + off) (min (size - off) max_transfer_size) stream
        (leb size (wrap_add u64_mod off max_transfer_size) && last)

  -- The loop over the offsets, on fuel, with the number of transfers so far.
  unfoldable pub post_transfers : ℕ → ℕ → ℕ → Action TlbManager ℕ
  post_transfers zero off num_transfers t = elim (ltb off size) [
    | false ↦ (ok num_transfers, t)
    | true ↦ (err out_of_fuel, t)
  ]
  post_transfers (suc fuel) off num_transfers t = elim (ltb off size) [
    | false ↦ (ok num_transfers, t)
    | true ↦
        post_transfers fuel (wrap_add u64_mod off max_transfer_size) (num_transfers + 1)
          (post_transfer off t)
  ]

module _ (max_transfer_size : ℕ) (get_page_boundaries : ℕ → Result Region) where
  -- Each round is at least one byte further, so the size is enough fuel.
  unfoldable pub enqueue_stream_input : ℕ → ℕ → ℕ → Bool → Action TlbManager (Unit {0})
  enqueue_stream_input ptr size stream last = do
    ensure_tlb_mapping get_page_boundaries ptr size
    post_transfers max_transfer_size local_read ptr size stream last size 0 0
    pure tt

  -- The number of transfers posted.
  unfoldable pub enqueue_stream_output : ℕ → ℕ → ℕ → Action TlbManager ℕ
  enqueue_stream_output ptr size stream = do
    ensure_tlb_mapping get_page_boundaries ptr size
    post_transfers max_transfer_size local_write ptr size stream true size 0 0
