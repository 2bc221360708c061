-- ===== src/Tests/Registers.antt =====
-- The registers at concrete inputs.
use libstf.Base.{
  ℕ, ◌*◌, ◌/◌, ◌%◌, ◌^◌, ◌<◌, ◌≡◌, refl, ◌⊎◌, true, [], arith, zero, suc, if◌then◌else◌, ◌==◌, ◌-◌,
  ◌≢◌,
}
use libstf.Base.Action.{ok, err, assertion_failed, invalid_argument}
use libstf.Base.Word.{u32_mod}
use libstf.Buffer.{Buffer}
use libstf.Coyote.{CThread, set_csr, record_call}
use libstf.Common.{int64_t, int128_t, dispatch_type, value_size, size_of, bytes_per_fpga_transfer}
use libstf.Common.Log.{dispatch-size}
use libstf.Configuration.{
  MemConfig, ReplayBufferConfig, enqueue_buffer, buffer_word, configure_ring_buffer,
}
use libstf.Configuration.Encoding.{
  IsEnqueueable, IsRing, at, enqueue_buffer_word, configure_ring_buffer_checks,
  configure_ring_buffer_overflow,
}
use libstf.Configuration.Global.{GlobalConfig, global_config, has_config, get_config_bounds}
use libstf.Configuration.Global.Discovery.{start, IsDevice, global_config_blocks}

abbrev thread : CThread
thread = record { calls = []; get_csr = λ r. 0 }

abbrev mem : MemConfig
mem = record {
  config = record { addr_offset = 16; num_regs = 8 };
  num_streams = 4;
  maximum_num_enqueued_buffers = 8;
  empty_stream_consumes_buffer = true;
}

abbrev buffer : Buffer
buffer = record { ptr = 2097152; size = 0; capacity = 131072 }

enqueue_buffer_word_example :
    (IsEnqueueable mem 3 buffer
      × (enqueue_buffer mem 3 buffer thread
          ≡ (ok tt, record_call (set_csr (buffer_word buffer) (at mem.config 3)) thread))
      × (buffer_word buffer / 2 ^ 12 ≡ buffer.ptr)
      × (buffer_word buffer % 2 ^ 12 * bytes_per_fpga_transfer ≡ buffer.capacity))
    ⊎ ((¬ IsEnqueueable mem 3 buffer)
        × (enqueue_buffer mem 3 buffer thread ≡ (err assertion_failed, thread)))
enqueue_buffer_word_example = enqueue_buffer_word mem 3 buffer thread

abbrev replay : ReplayBufferConfig
replay = record {
  config = record { addr_offset = 32; num_regs = 16 };
  num_buffers = 2;
  maximum_num_enqueued_streams = 4;
  transfer_size = 4096;
}

configure_ring_buffer_checks_example :
    (IsRing replay 2097152 65536
      × (configure_ring_buffer replay 1 2097152 65536 thread ≡ (
        ok tt,
        record_call
            (set_csr 65536 (at replay.config 4))
            (record_call (set_csr 2097152 (at replay.config 3)) thread),
      )))
    ⊎ ((¬ IsRing replay 2097152 65536)
        × (configure_ring_buffer replay 1 2097152 65536 thread ≡ (err invalid_argument, thread)))
configure_ring_buffer_checks_example =
    configure_ring_buffer_checks replay 1 2097152 65536 thread (omega arith) (omega arith)
      (omega arith) (omega arith) (omega arith)

-- A ring that ends past 2 ^ 64.
configure_ring_buffer_overflow_example :
    (¬ IsRing replay 18446744073709551552 8192)
    × (configure_ring_buffer replay 1 18446744073709551552 8192 thread ≡ (
      ok tt,
      record_call
          (set_csr 8192 (at replay.config 4))
          (record_call (set_csr 18446744073709551552 (at replay.config 3)) thread),
    ))
configure_ring_buffer_overflow_example =
    configure_ring_buffer_overflow replay 1 18446744073709551552 8192 thread (omega arith)
      (omega arith) (omega arith) (omega arith) (omega arith) (omega arith) (omega arith)
      (omega arith) refl (omega arith)

dispatch-size_example :
    (dispatch_type int64_t value_size ≡ size_of int64_t)
    ⊎ ((int64_t ≡ int128_t) × (dispatch_type int64_t value_size ≡ err invalid_argument))
dispatch-size_example = dispatch-size int64_t

-- A board of two blocks: from 4 to 8 with the identifier 77, and from 8 to 12 with 78.
abbrev board_csr : ℕ → ℕ
board_csr r =
    if r == 1 then 2 else if r == 2 then 8 else if r == 3 then 12 else if r == 4 then 77 else 78

abbrev board : CThread
board = record { calls = []; get_csr = board_csr }

board-IsDevice : IsDevice board_csr 2
board-IsDevice = record { number = refl; table = omega arith; blocks = blocks; distinct = distinct }
  where
    blocks : (k : ℕ) → k < 2 → start board_csr 2 k < u32_mod - 1
    blocks zero h = omega arith
    blocks (suc zero) h = omega arith
    blocks (suc (suc k)) h = absurd (omega arith)

    distinct :
        (j k : ℕ)
        → j < k
        → k < 2
        → board_csr (start board_csr 2 j) ≢ board_csr (start board_csr 2 k)
    distinct zero zero l h e = absurd (omega arith)
    distinct zero (suc zero) l h e = omega (arith, e)
    distinct (suc j) zero l h e = elim l [ ]
    distinct (suc j) (suc zero) l h e = absurd (omega arith)
    distinct j (suc (suc k)) l h e = absurd (omega arith)

global_config_blocks_example :
    (g : GlobalConfig) × (global_config board ≡ (ok g, board))
    × ((k : ℕ)
        → k < 2
        → (has_config (board_csr (start board_csr 2 k)) g ≡ true)
          × (get_config_bounds (board_csr (start board_csr 2 k)) g
              ≡ ok (start board_csr 2 k, start board_csr 2 (suc k))))
global_config_blocks_example = global_config_blocks 2 board board-IsDevice
