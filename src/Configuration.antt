-- ===== src/Configuration.antt =====
-- software/libstf/configuration.hpp and configuration.cpp: the registers of the device, by blocks.
-- The state is the coyote::cThread; a 32-bit address and an 8-bit stream number wrap.
pub mod Global
pub mod Encoding
pub mod Printing
use Prim.Native.Nat.{bit_or}
use libstf.Base.{
  ℕ, ◌+◌, ◌*◌, ◌/◌, ◌%◌, ◌^◌, Bool, List, [], ◌∷◌, ltb, leb, ◌==◌, if◌then◌else◌, not,
}
use libstf.Base.Word.{u32_mod, u64_mod, wrap_add}
use libstf.Base.Action.{Action, invalid_argument, ◌>>=◌, ◌>>◌, pure, gets, modify, ensure, throw_if}
use libstf.Buffer.{Buffer}
use libstf.Coyote.{CThread, set_csr, record_call}
use libstf.Common.{
  fpga_vaddr_bits, memory_alignment_bytes, buffer_size_bits, bytes_per_fpga_transfer,
  maximum_fpga_buffer_size, StreamType, to_byte,
}

pub record ConfigRegister : Type 0 where
  pub addr : ℕ
  pub value : ℕ

-- The members of Config but the thread.
pub record Config : Type 0 where
  pub addr_offset : ℕ
  pub num_regs : ℕ

unfoldable pub read_register : Config → ℕ → Action CThread ConfigRegister
read_register c addr = do
  ensure (ltb addr c.num_regs)
  let at = wrap_add u32_mod c.addr_offset addr
  gets (λ t. record { addr = at; value = t.get_csr at })

unfoldable pub write_register : Config → ConfigRegister → Action CThread (Unit {0})
write_register c reg = do
  ensure (ltb reg.addr c.num_regs)
  modify (record_call (set_csr reg.value (wrap_add u32_mod c.addr_offset reg.addr)))

pub record MemConfig : Type 0 where
  pub config : Config
  pub num_streams : ℕ
  pub maximum_num_enqueued_buffers : ℕ
  pub empty_stream_consumes_buffer : Bool

unfoldable pub mem_config : ℕ → ℕ → Action CThread MemConfig
unfolding read_register
mem_config addr_offset num_regs =
    let c : Config = record { addr_offset = addr_offset; num_regs = num_regs } in
    do
      streams ← read_register c 1
      enqueued ← read_register c 2
      consumes ← read_register c 3
      pure (record {
        config = c;
        num_streams = streams.value % 2 ^ 8;
        maximum_num_enqueued_buffers = enqueued.value;
        empty_stream_consumes_buffer = consumes.value == 1;
      })

-- `vaddr << BUFFER_SIZE_BITS | capacity_as_num_transfers`
unfoldable pub buffer_word : Buffer → ℕ
buffer_word b =
    bit_or (b.ptr * 2 ^ buffer_size_bits % u64_mod) (b.capacity / bytes_per_fpga_transfer)

-- `MemConfig::enqueue_buffer`
unfoldable pub enqueue_buffer : MemConfig → ℕ → Buffer → Action CThread (Unit {0})
enqueue_buffer m stream_id buffer = do
  ensure (ltb stream_id m.num_streams)
  ensure (ltb buffer.ptr (2 ^ fpga_vaddr_bits))
  ensure (ltb 0 buffer.capacity)
  ensure (ltb buffer.capacity maximum_fpga_buffer_size)
  ensure (buffer.capacity % bytes_per_fpga_transfer == 0)
  write_register m.config (record { addr = stream_id; value = buffer_word buffer })

-- `MemConfig::flush_buffers`
unfoldable pub flush_buffers : MemConfig → Action CThread (Unit {0})
flush_buffers m = write_register m.config (record { addr = m.num_streams; value = 0 })

pub record StreamConfig : Type 0 where
  pub config : Config
  pub num_streams : ℕ

unfoldable pub stream_config : ℕ → ℕ → Action CThread StreamConfig
unfolding read_register
stream_config addr_offset num_regs =
    let c : Config = record { addr_offset = addr_offset; num_regs = num_regs } in
    do
      streams ← read_register c 1
      pure (record { config = c; num_streams = streams.value % 2 ^ 8 })

-- `(select << 3) | static_cast<uint8_t>(type)`, an int
unfoldable pub stream_word : StreamType → ℕ → ℕ
stream_word type select = bit_or (select * 2 ^ 3) (to_byte type)

unfoldable pub enqueue_stream_config : StreamConfig → ℕ → StreamType → ℕ → Action CThread (Unit {0})
enqueue_stream_config s stream_id type select = do
  ensure (ltb stream_id s.num_streams)
  write_register s.config (record { addr = stream_id; value = stream_word type select })

pub record ReplayBufferConfig : Type 0 where
  pub config : Config
  pub num_buffers : ℕ
  pub maximum_num_enqueued_streams : ℕ
  pub transfer_size : ℕ

unfoldable pub replay_buffer_config : ℕ → ℕ → Action CThread ReplayBufferConfig
unfolding read_register
replay_buffer_config addr_offset num_regs =
    let c : Config = record { addr_offset = addr_offset; num_regs = num_regs } in
    do
      buffers ← read_register c 1
      streams ← read_register c 2
      transfer ← read_register c 3
      pure (record {
        config = c;
        num_buffers = buffers.value % u32_mod;
        maximum_num_enqueued_streams = streams.value;
        transfer_size = transfer.value;
      })

-- The register of a replay buffer, `3 * buffer_id + i`.
abbrev pub replay_register : ℕ → ℕ → ℕ
replay_register buffer_id i = (3 * buffer_id + i) % u32_mod

unfoldable pub configure_ring_buffer : ReplayBufferConfig → ℕ → ℕ → ℕ → Action CThread (Unit {0})
configure_ring_buffer r buffer_id vaddr size = do
  ensure (ltb buffer_id r.num_buffers)
  throw_if (ltb (2 ^ fpga_vaddr_bits) (wrap_add u64_mod vaddr size)) invalid_argument
  throw_if (not (vaddr % memory_alignment_bytes == 0)) invalid_argument
  throw_if (ltb size (2 * r.transfer_size % u64_mod)) invalid_argument
  write_register r.config (record { addr = replay_register buffer_id 0; value = vaddr })
  write_register r.config (record { addr = replay_register buffer_id 1; value = size })

unfoldable pub enqueue_num_reads : ReplayBufferConfig → ℕ → ℕ → Action CThread (Unit {0})
enqueue_num_reads r buffer_id num_reads = do
  ensure (ltb buffer_id r.num_buffers)
  ensure (ltb 0 num_reads)
  write_register r.config (record { addr = replay_register buffer_id 2; value = num_reads })
