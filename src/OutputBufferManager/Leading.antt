-- ===== src/OutputBufferManager/Leading.antt =====
-- What one call of an OutputBufferManager, or of another user of its pool and its handles, does of the
-- streams (software/libstf/output_buffer_manager.cpp), and two parts of a history after one another.
use libstf.Base.{
  ℕ, ◌+◌, ◌*◌, ◌<◌, ◌≡◌, refl, ap, sym, ◌∙◌, ◌≢◌, Bool, true, List, [], ◌∷◌, ◌++◌, arith, length,
  ◌==◌, if◌then◌else◌, All, append-nil, ℕ_discrete, eq→==, ne→==,
}
use mathlib.Core.Path.{subst}
use libstf.Base.Action.{Result, ok}
use libstf.Buffer.{Buffer, MemoryPool}
use libstf.OutputHandle.{OutputHandle, StreamMask, maximum_fpga_num_streams}
use libstf.OutputBufferManager.{
  OutputBufferManager, buffers_of, any, none_from, is_within, handle_fpga_interrupt,
  acquire_output_handle,
}
use libstf.OutputBufferManager.Interrupt.{ℤ}
use libstf.OutputBufferManager.Service.{Holding, Serves, Kept}
use libstf.OutputBufferManager.Supply.{told}
use libstf.OutputBufferManager.WellFormed.{WellFormed, IsStored, AreKnown}
use libstf.OutputBufferManager.Moving.{used}
use libstf.OutputBufferManager.Outcomes.{SameConfig, Flowed, IsSent}
use libstf.OutputBufferManager.Handling.{refill_bytes}
use libstf.OutputBufferManager.Interrupts.{handle_fpga_interrupt-Handled}
use libstf.OutputBufferManager.Activation.{SameConfig-trans, Flowed-trans}
use libstf.OutputBufferManager.Acquisition.{acquire_output_handle-Activated}

-- What the interrupts took from the queues: the stream and the buffers of each.
abbrev pub Takes : Type 0
Takes = List (ℕ × List Buffer)

-- The buffers that were taken from a stream.
abbrev pub gone : ℕ → Takes → List Buffer
gone j [] = []
gone j ((i, bs) ∷ takes) = if i == j then bs ++ gone j takes else gone j takes

-- What a part of a history does of the manager and its streams.
abbrev pub Leads :
    (pool : MemoryPool) → OutputBufferManager pool → OutputBufferManager pool → Takes → Type 0
Leads pool o o' takes =
    WellFormed pool o'
    × SameConfig pool o o'
    × ((j : ℕ) → j < o.num_streams → (new : List Buffer) × Flowed pool o o' j (gone j takes) new)

pub gone-cons :
    (j i : ℕ) (u : List Buffer) (takes : Takes)
    → gone j ((i, u) ∷ []) ++ gone j takes ≡ gone j ((i, u) ∷ takes)
gone-cons j i u takes = elim (ℕ_discrete i j) [
  | yes e ↦ rw (eq→== i j e, append-nil u) refl
  | no d ↦ rw (ne→== i j d) refl
]

pub gone_self : (i : ℕ) (u : List Buffer) → gone i ((i, u) ∷ []) ≡ u
gone_self i u = rw (eq→== i i refl) (append-nil u)

pub gone_ne : (j i : ℕ) (u : List Buffer) → i ≢ j → gone j ((i, u) ∷ []) ≡ []
gone_ne j i u d = rw (ne→== i j d) refl

pub Leads-trans :
    (pool : MemoryPool) (o o1 o2 : OutputBufferManager pool) (first takes all : Takes)
    → ((j : ℕ) → gone j first ++ gone j takes ≡ gone j all)
    → Leads pool o o1 first
    → Leads pool o1 o2 takes
    → Leads pool o o2 all
Leads-trans pool o o1 o2 first takes all joined (w, c, f) (w', c', f') = (
  w',
  SameConfig-trans pool o o1 o2 c c',
  λ j known.
      let (new, a) = f j known in
      let (new', b) = f' j (omega (arith, c.num_streams, known)) in
      (
        new ++ new',
        subst (λ (g : List Buffer). Flowed pool o o2 j g (new ++ new')) (joined j)
            (Flowed-trans pool o o1 o2 j (gone j first) new (gone j takes) new' a b),
      ),
)

module _ (pool : MemoryPool) (Holds : Holding pool) (serves : Serves pool Holds) where
  pub interrupt-Leads :
      (o o1 : OutputBufferManager pool) (value : ℤ) (i bytes n : ℕ) (last : Bool) (id : ℕ)
      (ids : List ℕ) (b : Buffer) (bs : List Buffer)
      → WellFormed pool o
      → IsSent pool o value i bytes last id ids b bs
      → Kept pool Holds (b.capacity + (refill_bytes pool o + n)) o
      → handle_fpga_interrupt pool value o ≡ (ok tt, o1)
      → Leads pool o o1 ((i, used pool o bytes b) ∷ [])
  interrupt-Leads o o1 value i bytes n last id ids b bs w is_sent kept run =
      let (o', ptr, new, h, h', run', handled) =
        handle_fpga_interrupt-Handled pool Holds serves o value i bytes n last id ids b bs w is_sent
          kept in
      subst (λ (x : OutputBufferManager pool). Leads pool o x ((i, used pool o bytes b) ∷ []))
        (ap (λ (r : Result (Unit {0}) × OutputBufferManager pool). r.1) (sym run' ∙ run))
        (
          handled.well,
          handled.config,
          λ j known. elim (ℕ_discrete i j) [
            | yes e ↦ (
              new,
              subst (λ (k : ℕ). Flowed pool o o' k (gone k ((i, used pool o bytes b) ∷ [])) new) e
                  (subst (λ (g : List Buffer). Flowed pool o o' i g new)
                    (sym (gone_self i (used pool o bytes b))) handled.flow),
            )
            | no d ↦ (
              [],
              subst (λ (g : List Buffer). Flowed pool o o' j g []) (sym (gone_ne j i _ d))
                  (handled.others j d known),
            )
          ],
        )

  pub acquire-Leads :
      (o o1 : OutputBufferManager pool) (mask : StreamMask) (n id : ℕ)
      → WellFormed pool o
      → length mask ≡ maximum_fpga_num_streams
      → any mask ≡ true
      → none_from o.num_streams mask ≡ true
      → is_within mask o.managed_streams ≡ true
      → Kept pool Holds (o.num_streams * refill_bytes pool o + n) o
      → acquire_output_handle pool mask o ≡ (ok id, o1)
      → Leads pool o o1 []
  acquire-Leads o o1 mask n id w size some_stream streams managed kept run =
      let (o', run', activated) =
        acquire_output_handle-Activated pool Holds serves mask n o w size some_stream streams
          managed kept in
      let config = activated.config in
      subst (λ (x : OutputBufferManager pool). Leads pool o x [])
        (ap (λ (r : Result ℕ × OutputBufferManager pool). r.1) (sym run' ∙ run))
        (
          activated.well,
          record {
            mem_config = config.mem_config;
            num_streams = config.num_streams;
            managed_streams = config.managed_streams;
            num_buffers_to_enqueue = config.num_buffers_to_enqueue;
            buffer_capacity = config.buffer_capacity;
          },
          λ j known.
              let (new, stream) = activated.streams j known in
              (new, record { queue = stream.flow.queue; writes = stream.flow.writes }),
        )

  -- Another user of the pool or of a handle.
  pub outside :
      (o : OutputBufferManager pool) (p : pool.State) (hs : List OutputHandle)
      → WellFormed pool o
      → All (IsStored o.num_streams) hs
      → length hs ≡ length o.handles
      → Leads pool o (record o { memory_pool = p; handles = hs }) []
  outside o p hs w stored count = (
    record {
      streams = w.streams;
      registers = w.registers;
      bits = w.bits;
      mask = w.mask;
      buffers = w.buffers;
      queues = w.queues;
      non_empty = w.non_empty;
      small = w.small;
      whole = w.whole;
      stored = stored;
      known = subst (λ (k : ℕ). AreKnown k o.enqueued_handles) (sym count) w.known;
      once = w.once;
    },
    record {
      mem_config = refl;
      num_streams = refl;
      managed_streams = refl;
      num_buffers_to_enqueue = refl;
      buffer_capacity = refl;
    },
    λ j known. (
      [],
      record {
        queue = sym (append-nil (buffers_of pool o j));
        writes = sym (append-nil (told pool j o));
      },
    ),
  )
