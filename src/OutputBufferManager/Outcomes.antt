-- ===== src/OutputBufferManager/Outcomes.antt =====
-- What the calls of an OutputBufferManager do of its streams and handles (software/libstf/
-- output_buffer_manager.cpp): the statements about an interrupt.
use libstf.Base.{
  ℕ, ◌≤◌, ◌<◌, ◌≡◌, ◌≢◌, Bool, true, false, some, List, [], ◌∷◌, ◌++◌, map, length, get_elem?,
  if◌then◌else◌,
}
use libstf.Base.Action.{ok}
use libstf.Buffer.{Buffer, MemoryPool}
use libstf.Configuration.{buffer_word}
use libstf.OutputHandle.{OutputHandle, output_of}
use libstf.OutputHandle.Marking.{Marked}
use libstf.Configuration.Encoding.{at}
use libstf.TlbManager.OnePage.{sent}
use libstf.OutputBufferManager.{OutputBufferManager, buffers_of, handles_of}
use libstf.OutputBufferManager.Interrupt.{ℤ, parse_interrupt_value}
use libstf.OutputBufferManager.Service.{Holding, Kept}
use libstf.OutputBufferManager.Supply.{told}
use libstf.OutputBufferManager.WellFormed.{WellFormed}
use libstf.OutputBufferManager.Moving.{used, outputs}

-- An interrupt that the FPGA sends: it is about the front buffer of a stream, with no more bytes than
-- that holds, where a handle waits for it.
pub record IsSent (pool : MemoryPool) (o : OutputBufferManager pool) (value : ℤ) (i bytes : ℕ)
    (last : Bool) (id : ℕ) (ids : List ℕ) (b : Buffer) (bs : List Buffer) : Type 0 where
  pub parsed :
      parse_interrupt_value value
      ≡ ok (record { last = last; bytes_written = bytes; stream_id = i })
  pub stream : i < o.num_streams
  pub front_handle : handles_of pool o i ≡ id ∷ ids
  pub front_buffer : buffers_of pool o i ≡ b ∷ bs
  pub within : bytes ≤ b.capacity

-- The configuration, which no call changes.
pub record SameConfig (pool : MemoryPool) (o o' : OutputBufferManager pool) : Type 0 where
  pub mem_config : o'.mem_config ≡ o.mem_config
  pub num_streams : o'.num_streams ≡ o.num_streams
  pub managed_streams : o'.managed_streams ≡ o.managed_streams
  pub num_buffers_to_enqueue : o'.num_buffers_to_enqueue ≡ o.num_buffers_to_enqueue
  pub buffer_capacity : o'.buffer_capacity ≡ o.buffer_capacity

-- The handles after an interrupt: `h` is the front handle, with the number `id`, and `h'` what became of
-- it.
pub record HandleMoved (pool : MemoryPool) (o o' : OutputBufferManager pool) (i bytes : ℕ)
    (last : Bool) (id : ℕ) (ids : List ℕ) (b : Buffer) (ptr : ℕ) (h h' : OutputHandle)
    : Type 0 where
  pub before : get_elem? o.handles id ≡ some h
  pub after : get_elem? o'.handles id ≡ some h'
  pub output : output_of h' i ≡ output_of h i ++ outputs bytes ptr b
  pub elsewhere : (j : ℕ) → i ≢ j → output_of h' j ≡ output_of h j
  pub marked : Marked i last h h'
  pub rest : (k : ℕ) → id ≢ k → get_elem? o'.handles k ≡ get_elem? o.handles k
  pub front : handles_of pool o' i ≡ (if last then ids else id ∷ ids)
  pub others : (j : ℕ) → i ≢ j → handles_of pool o' j ≡ handles_of pool o j

-- The buffers after an interrupt: those of `gone` left the stream's queue at the front, and `new` ones
-- came to its end, of which the FPGA was told.
pub record Flowed (pool : MemoryPool) (o o' : OutputBufferManager pool) (i : ℕ)
    (gone new : List Buffer) : Type 0 where
  pub queue : gone ++ buffers_of pool o' i ≡ buffers_of pool o i ++ new
  pub writes : told pool i o' ≡ told pool i o ++ map buffer_word new

pub record Handled (pool : MemoryPool) (Holds : Holding pool) (o o' : OutputBufferManager pool)
    (i bytes n : ℕ) (last : Bool) (id : ℕ) (ids : List ℕ) (b : Buffer) (ptr : ℕ) (new : List Buffer)
    (h h' : OutputHandle) : Type 0 where
  pub handle : HandleMoved pool o o' i bytes last id ids b ptr h h'
  pub flow : Flowed pool o o' i (used pool o bytes b) new
  pub others : (j : ℕ) → i ≢ j → j < o.num_streams → Flowed pool o o' j [] []
  pub silent :
      (reg : ℕ)
      → at o.mem_config.config i ≢ reg
      → sent reg o'.tlb_manager.cthread.calls ≡ sent reg o.tlb_manager.cthread.calls
  pub enough :
      get_elem? o.managed_streams i ≡ some true
      → o.num_buffers_to_enqueue ≤ length (buffers_of pool o' i)
  pub unmanaged : get_elem? o.managed_streams i ≡ some false → new ≡ []
  pub config : SameConfig pool o o'
  pub well : WellFormed pool o'
  pub left : Kept pool Holds n o'
