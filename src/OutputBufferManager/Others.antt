-- ===== src/OutputBufferManager/Others.antt =====
-- What topping a stream up does of the other streams (software/libstf/output_buffer_manager.cpp lines
-- 282-286).
use libstf.Base.{ℕ, ◌<◌, ap, sym, ◌∙◌, ◌≢◌, List, [], arith, append-nil}
use libstf.Buffer.{Buffer, MemoryPool}
use libstf.TlbManager.OnePage.{sent}
use libstf.Configuration.{MemConfig, Config}
use libstf.Configuration.Encoding.{at}
use libstf.OutputHandle.{maximum_fpga_num_streams}
use libstf.OutputBufferManager.{OutputBufferManager, buffers_of}
use libstf.OutputBufferManager.Service.{Holding}
use libstf.OutputBufferManager.Supply.{Supplied, told}
use libstf.OutputBufferManager.WellFormed.{WellFormed}
use libstf.OutputBufferManager.Outcomes.{Flowed}

-- The streams have registers of their own.
at_ne :
    (c : Config) (i j : ℕ)
    → i ≢ j
    → i < maximum_fpga_num_streams
    → j < maximum_fpga_num_streams
    → at c i ≢ at c j
at_ne c i j d li lj e = d (omega (arith, e))

-- The other streams at a refill.
pub refill_others :
    (pool : MemoryPool) (Holds : Holding pool) (i j n : ℕ) (new : List Buffer)
    (o o' : OutputBufferManager pool)
    → WellFormed pool o
    → Supplied pool Holds i n new o o'
    → i ≢ j
    → i < o.num_streams
    → j < o.num_streams
    → Flowed pool o o' j [] []
refill_others pool Holds i j n new o o' w supplied d li lj = record {
  queue = supplied.others j d ∙ sym (append-nil (buffers_of pool o j));
  writes =
      ap (λ (m : MemConfig). sent (at m.config j) o'.tlb_manager.cthread.calls)
        supplied.same.mem_config
      ∙ supplied.silent (at o.mem_config.config j)
          (at_ne o.mem_config.config i j d (omega (arith, w.bits)) (omega (arith, w.bits)))
      ∙ sym (append-nil (told pool j o));
}
