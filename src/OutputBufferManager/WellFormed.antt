-- ===== src/OutputBufferManager/WellFormed.antt =====
-- The invariant of an OutputBufferManager (software/libstf/output_buffer_manager.hpp lines 93-116):
-- its queues, its masks and the handles that it gave out.
use libstf.Base.{
  ℕ, zero, suc, ◌≤◌, ◌<◌, ◌%◌, ◌≡◌, refl, ap, ◌≢◌, some, List, [], ◌∷◌, arith, length, get_elem?,
  get_or, set, All, replicate,
}
use libstf.Common.{bytes_per_fpga_transfer, maximum_fpga_buffer_size}
use libstf.Buffer.{MemoryPool}
use libstf.TlbManager.OnePage.{Once}
use libstf.OutputHandle.{OutputHandle, maximum_fpga_num_streams}
use libstf.OutputBufferManager.{OutputBufferManager}
use libstf.OutputBufferManager.Supply.{IsServable}

-- A handle of a manager with `n` streams.
abbrev pub IsStored : ℕ → OutputHandle → Type 0
IsStored n h =
    (length h.output_buffers ≡ n) × (length h.finished_streams ≡ maximum_fpga_num_streams)

-- Queues of handles that were given out.
abbrev pub AreKnown : ℕ → List (List ℕ) → Type 0
AreKnown count queues = All (λ (q : List ℕ). All (λ (id : ℕ). id < count) q) queues

pub record WellFormed (pool : MemoryPool) (o : OutputBufferManager pool) : Type 0 where
  pub streams : o.num_streams ≡ o.mem_config.num_streams
  pub registers : o.num_streams ≤ o.mem_config.config.num_regs
  pub bits : o.num_streams ≤ maximum_fpga_num_streams
  pub mask : length o.managed_streams ≡ maximum_fpga_num_streams
  pub buffers : length o.enqueued_buffers ≡ o.num_streams
  pub queues : length o.enqueued_handles ≡ o.num_streams
  pub non_empty : 0 < o.buffer_capacity
  pub small : o.buffer_capacity < maximum_fpga_buffer_size
  pub whole : o.buffer_capacity % bytes_per_fpga_transfer ≡ 0
  pub stored : All (IsStored o.num_streams) o.handles
  pub known : AreKnown (length o.handles) o.enqueued_handles
  pub once : Once o.tlb_manager

-- The streams of the manager take buffers of its capacity.
pub WellFormed-IsServable :
    (pool : MemoryPool) (o : OutputBufferManager pool) (i : ℕ)
    → WellFormed pool o
    → i < o.num_streams
    → IsServable pool o i o.buffer_capacity
WellFormed-IsServable pool o i w known = record {
  stream = omega (arith, w.streams);
  register = omega (arith, w.registers);
  queue = omega (arith, w.buffers);
  non_empty = w.non_empty;
  small = w.small;
  whole = w.whole;
}

pub All-of-get_or :
    {A : Type 0} (P : A → Type 0) (xs : List A) (d : A)
    → ((j : ℕ) → j < length xs → P (get_or xs j d))
    → All P xs
All-of-get_or P [] d h = tt
All-of-get_or P (x ∷ xs) d h =
    (h 0 (omega arith), All-of-get_or P xs d (λ j l. h (suc j) (omega arith)))

pub replicate-All : {A : Type 0} (P : A → Type 0) (n : ℕ) (a : A) → P a → All P (replicate n a)
replicate-All P zero a h = tt
replicate-All P (suc n) a h = (h, replicate-All P n a h)

module _ {A : Type 0} where
  pub get_elem?-in : (xs : List A) (i : ℕ) → i < length xs → (x : A) × (get_elem? xs i ≡ some x)
  get_elem?-in [] i h = absurd (omega arith)
  get_elem?-in (x ∷ xs) zero h = (x, refl)
  get_elem?-in (x ∷ xs) (suc i) h = get_elem?-in xs i (omega arith)

  pub get_elem?-set_ne :
      (xs : List A) (i j : ℕ) (v : A) → i ≢ j → get_elem? (set xs i v) j ≡ get_elem? xs j
  get_elem?-set_ne [] i j v d = refl
  get_elem?-set_ne (x ∷ xs) zero zero v d = absurd (d refl)
  get_elem?-set_ne (x ∷ xs) zero (suc j) v d = refl
  get_elem?-set_ne (x ∷ xs) (suc i) zero v d = refl
  get_elem?-set_ne (x ∷ xs) (suc i) (suc j) v d = get_elem?-set_ne xs i j v (λ e. d (ap suc e))

  pub All-at :
      (P : A → Type 0) (xs : List A) (i : ℕ) (x : A) → All P xs → get_elem? xs i ≡ some x → P x
  All-at P [] i x h e = absurd cc
  All-at P (y ∷ xs) zero x h e = let same : y ≡ x = cc e in rw (← same) h.0
  All-at P (y ∷ xs) (suc i) x h e = All-at P xs i x h.1 e

  pub All-set : (P : A → Type 0) (xs : List A) (i : ℕ) (v : A) → All P xs → P v → All P (set xs i v)
  All-set P [] i v h p = tt
  All-set P (y ∷ xs) zero v h p = (p, h.1)
  All-set P (y ∷ xs) (suc i) v h p = (h.0, All-set P xs i v h.1 p)

  pub All-get_or :
      (P : A → Type 0) (xs : List A) (i : ℕ) (d : A) → All P xs → P d → P (get_or xs i d)
  All-get_or P [] i d h p = p
  All-get_or P (y ∷ xs) zero d h p = h.0
  All-get_or P (y ∷ xs) (suc i) d h p = All-get_or P xs i d h.1 p
