-- ===== src/OutputBufferManager/Histories.antt =====
-- An OutputBufferManager over its life (software/libstf/output_buffer_manager.cpp): the constructor and
-- any sequence of acquisitions and interrupts, with the calls of other threads between them.
use libstf.Base.{
  ℕ, ◌+◌, ◌*◌, ◌%◌, ◌≤◌, ◌<◌, ◌≡◌, refl, ap, sym, ◌∙◌, Bool, true, false, not, List, get_elem?,
  some, [], ◌∷◌, ◌++◌, map, arith, length, set, ltb, leb, ◌==◌, if◌then◌else◌, length-set,
  length-replicate, append-nil, get_or-replicate,
}
use mathlib.Core.Path.{subst}
use libstf.Base.Action.{Result, Failure, ok, err}
use libstf.Common.{bytes_per_fpga_transfer, maximum_fpga_buffer_size}
use libstf.Buffer.{Buffer, MemoryPool}
use libstf.TlbManager.{TlbManager}
use libstf.TlbManager.OnePage.{Once, sent}
use libstf.Configuration.{MemConfig, buffer_word}
use libstf.Configuration.Encoding.{at}
use libstf.OutputHandle.{OutputHandle, StreamMask, maximum_fpga_num_streams}
use libstf.OutputBufferManager.{
  OutputBufferManager, construct, buffers_of, any, none_from, is_within, handle_fpga_interrupt,
  acquire_output_handle, acquire_sized_output_handle, capacity_of,
}
use libstf.OutputBufferManager.Interrupt.{ℤ}
use libstf.OutputBufferManager.Service.{Holding, Serves, Kept, blocks}
use libstf.OutputBufferManager.Supply.{told}
use libstf.OutputBufferManager.WellFormed.{replicate-All, WellFormed, IsStored, All-set}
use libstf.OutputBufferManager.Moving.{used}
use libstf.OutputBufferManager.Outcomes.{Flowed, IsSent}
use libstf.OutputBufferManager.Handling.{refill_bytes}
use libstf.OutputBufferManager.Activation.{SameConfig-refl}
use libstf.OutputBufferManager.Leading.{
  Takes, gone, Leads, gone-cons, Leads-trans, interrupt-Leads, acquire-Leads, outside,
}
use libstf.OutputBufferManager.SizedAcquisition.{sized-Leads}

-- Calls of the manager, each with the bytes it may need of the pool, that lead from a state to
-- another; between them other threads use the pool and the handles.
pub data Calls (pool : MemoryPool) (Holds : Holding pool)
    : OutputBufferManager pool → Takes → OutputBufferManager pool → Type 0 where
  done : (o : OutputBufferManager pool) → Calls pool Holds o [] o
  interrupted :
      (o o1 o2 : OutputBufferManager pool) (takes : Takes) (value : ℤ) (i bytes n : ℕ) (last : Bool)
      (id : ℕ) (ids : List ℕ) (b : Buffer) (bs : List Buffer)
      → IsSent pool o value i bytes last id ids b bs
      → Kept pool Holds (b.capacity + (refill_bytes pool o + n)) o
      → handle_fpga_interrupt pool value o ≡ (ok tt, o1)
      → Calls pool Holds o1 takes o2
      → Calls pool Holds o ((i, used pool o bytes b) ∷ takes) o2
  acquired :
      (o o1 o2 : OutputBufferManager pool) (takes : Takes) (mask : StreamMask) (n id : ℕ)
      → length mask ≡ maximum_fpga_num_streams
      → any mask ≡ true
      → none_from o.num_streams mask ≡ true
      → is_within mask o.managed_streams ≡ true
      → Kept pool Holds (o.num_streams * refill_bytes pool o + n) o
      → acquire_output_handle pool mask o ≡ (ok id, o1)
      → Calls pool Holds o1 takes o2
      → Calls pool Holds o takes o2
  sized_acquired :
      (o o1 o2 : OutputBufferManager pool) (takes : Takes) (stream size n id : ℕ)
      → stream < o.num_streams
      → get_elem? o.managed_streams stream ≡ some false
      → 0 < size
      → Kept pool Holds (capacity_of size + n) o
      → acquire_sized_output_handle pool stream size o ≡ (ok id, o1)
      → Calls pool Holds o1 takes o2
      → Calls pool Holds o takes o2
  -- Another user of the pool, who leaves the blocks of the manager.
  pool_used :
      (o o2 : OutputBufferManager pool) (takes : Takes) (p : pool.State) (n : ℕ)
      → Holds (blocks o.enqueued_buffers) n p
      → Calls pool Holds (record o { memory_pool = p }) takes o2
      → Calls pool Holds o takes o2
  -- The user of a handle, whose calls keep the sizes of its members.
  handle_used :
      (o o2 : OutputBufferManager pool) (takes : Takes) (id : ℕ) (h : OutputHandle)
      → IsStored o.num_streams h
      → Calls pool Holds (record o { handles = set o.handles id h }) takes o2
      → Calls pool Holds o takes o2

-- The constructor checks its arguments before anything else.
passed :
    {A : Type 0} (c : Bool) (e : Failure) (r : Result A) (a : A)
    → (if c then err e else r) ≡ ok a
    → (c ≡ false) × (r ≡ ok a)
passed true e r a h = absurd cc
passed false e r a h = (refl, h)

-- A manager that was constructed over registers that have room, and has told the FPGA nothing.
pub record Fresh (pool : MemoryPool) (m : MemConfig) (p : pool.State) (t : TlbManager)
    (managed : StreamMask) (num capacity : ℕ) (o : OutputBufferManager pool) : Type 0 where
  pub constructed : construct pool m p t managed num capacity ≡ ok o
  pub registers : m.num_streams ≤ m.config.num_regs
  pub bits : m.num_streams ≤ maximum_fpga_num_streams
  pub mask : length managed ≡ maximum_fpga_num_streams
  pub once : Once t
  pub quiet : (j : ℕ) → sent (at m.config j) t.cthread.calls ≡ []

ok_injective : {A : Type 0} {a b : A} → Result.ok a ≡ Result.ok b → a ≡ b
ok_injective e = cc e

pub Fresh-WellFormed :
    (pool : MemoryPool) (m : MemConfig) (p : pool.State) (t : TlbManager) (managed : StreamMask)
    (num capacity : ℕ) (o : OutputBufferManager pool)
    → Fresh pool m p t managed num capacity o
    → WellFormed pool o × ((j : ℕ) → (buffers_of pool o j ≡ []) × (told pool j o ≡ []))
unfolding construct
Fresh-WellFormed pool m p t managed num capacity o f =
    let (some_buffers, e1) = passed (num == 0) _ _ o f.constructed in
    let (few, e2) = passed (ltb m.maximum_num_enqueued_buffers num) _ _ o e1 in
    let (large, e3) = passed (ltb capacity bytes_per_fpga_transfer) _ _ o e2 in
    let (small, e4) = passed (leb maximum_fpga_buffer_size capacity) _ _ o e3 in
    let (whole, e5) = passed (not (capacity % bytes_per_fpga_transfer == 0)) _ _ o e4 in
    subst
      (λ (x : OutputBufferManager pool).
        WellFormed pool x × ((j : ℕ) → (buffers_of pool x j ≡ []) × (told pool j x ≡ [])))
      (ok_injective e5)
      (
        record {
          streams = refl;
          registers = f.registers;
          bits = f.bits;
          mask = f.mask;
          buffers = length-replicate m.num_streams [];
          queues = length-replicate m.num_streams [];
          non_empty = at_least capacity large;
          small = below capacity small;
          whole = transfers capacity whole;
          stored = tt;
          known = replicate-All _ m.num_streams [] tt;
          once = f.once;
        },
        λ j. (get_or-replicate m.num_streams j [], f.quiet j),
      )
  where
    at_least : (c : ℕ) → ltb c bytes_per_fpga_transfer ≡ false → 0 < c
    at_least c h = ground arith

    below : (c : ℕ) → leb maximum_fpga_buffer_size c ≡ false → c < maximum_fpga_buffer_size
    below c h = ground arith

    transfers :
        (c : ℕ) → not (c % bytes_per_fpga_transfer == 0) ≡ false → c % bytes_per_fpga_transfer ≡ 0
    transfers c h = ground arith

module _ (pool : MemoryPool) (Holds : Holding pool) (serves : Serves pool Holds) where
  Calls-Leads :
      (o o' : OutputBufferManager pool) (takes : Takes)
      → WellFormed pool o
      → Calls pool Holds o takes o'
      → Leads pool o o' takes
  Calls-Leads o _ _ w (done _) = (w, SameConfig-refl pool o, λ j known. ([], nothing o j))
    where
      nothing : (o : OutputBufferManager pool) (j : ℕ) → Flowed pool o o j [] []
      nothing o j = record {
        queue = sym (append-nil (buffers_of pool o j));
        writes = sym (append-nil (told pool j o));
      }
  Calls-Leads o o2 _ w
        (interrupted _ o1 _ takes v i bytes n last id ids b bs is_sent kept run rest) =
      let first =
        interrupt-Leads pool Holds serves o o1 v i bytes n last id ids b bs w is_sent kept run in
      Leads-trans pool o o1 o2 ((i, used pool o bytes b) ∷ []) takes
        ((i, used pool o bytes b) ∷ takes) (λ j. gone-cons j i (used pool o bytes b) takes) first
        (Calls-Leads o1 o2 takes first.0 rest)
  Calls-Leads o o2 _ w (acquired _ o1 _ takes mask n id size any_bit known managed kept run rest) =
      let first =
        acquire-Leads pool Holds serves o o1 mask n id w size any_bit known managed kept run in
      Leads-trans pool o o1 o2 [] takes takes (λ j. refl) first
        (Calls-Leads o1 o2 takes first.0 rest)
  Calls-Leads o o2 _ w
        (sized_acquired _ o1 _ takes stream size n id known unmanaged pos kept run rest) =
      let first =
        sized-Leads pool Holds serves o o1 stream size n id w known unmanaged pos kept run in
      Leads-trans pool o o1 o2 [] takes takes (λ j. refl) first
        (Calls-Leads o1 o2 takes first.0 rest)
  Calls-Leads o o2 _ w (pool_used _ _ takes p n held rest) =
      let first = outside pool Holds serves o p o.handles w w.stored refl in
      Leads-trans pool o (record o { memory_pool = p }) o2 [] takes takes (λ j. refl) first
        (Calls-Leads (record o { memory_pool = p }) o2 takes first.0 rest)
  Calls-Leads o o2 _ w (handle_used _ _ takes id h stored rest) =
      let hs = set o.handles id h in
      let first =
        outside pool Holds serves o o.memory_pool hs w
          (All-set (IsStored o.num_streams) o.handles id h w.stored stored)
          (length-set o.handles id h) in
      Leads-trans pool o (record o { handles = hs }) o2 [] takes takes (λ j. refl) first
        (Calls-Leads (record o { handles = hs }) o2 takes first.0 rest)

  -- From its construction on, whatever acquisitions and interrupts there were and whatever other
  -- threads did of the pool and the handles between them, the manager is well formed; and for each
  -- stream the words that the FPGA was told are, in order, those of the buffers that the interrupts
  -- took from it and then those of the buffers that are enqueued. So the FPGA fills the buffers in
  -- the order in which the manager expects them back, and no buffer is lost or told twice.
  pub Calls-fifo :
      (m : MemConfig) (p : pool.State) (t : TlbManager) (managed : StreamMask) (num capacity : ℕ)
      (o o' : OutputBufferManager pool) (takes : Takes)
      → Fresh pool m p t managed num capacity o
      → Calls pool Holds o takes o'
      → WellFormed pool o'
        × ((j : ℕ)
            → j < o.num_streams
            → told pool j o' ≡ map buffer_word (gone j takes ++ buffers_of pool o' j))
  Calls-fifo m p t managed num capacity o o' takes fresh calls =
      let (w, empty) = Fresh-WellFormed pool m p t managed num capacity o fresh in
      let (w', config, flows) = Calls-Leads o o' takes w calls in
      (
        w',
        λ j known.
            let (new, flow) = flows j known in
            let (no_buffers, nothing_told) = empty j in
            flow.writes
            ∙ ap (λ (q : List ℕ). q ++ map buffer_word new) nothing_told
            ∙ ap (map buffer_word)
                (sym (flow.queue ∙ ap (λ (q : List Buffer). q ++ new) no_buffers)),
      )
