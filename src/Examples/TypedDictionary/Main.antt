-- ===== src/Examples/TypedDictionary/Main.antt =====
-- main of examples/02_typed_dictionary/src/main.cpp (lines 243-351), from the arguments to the exit
-- code. The pool, the ids that are drawn at random and the device are given; what is printed and timed
-- is left out.
pub mod Lookups
pub mod Success
pub mod Setup
use libstf.Base.{
  ℕ, zero, suc, true, ◌+◌, ◌*◌, ◌/◌, ◌%◌, List, [], ◌∷◌, Option, none, some, ◌==◌, if◌then◌else◌,
}
use libstf.Base.Word.{u64_mod, wrap_add}
use libstf.Base.Action.{Action, ◌>>=◌, ◌>>◌, pure, ensure}
use libstf.MemoryPool.Bounds.{Region}
use libstf.Common.{StreamType, int32_t, int64_t}
use libstf.Buffer.{MemoryPool}
use libstf.Coyote.{CThread}
use libstf.Configuration.{StreamConfig, stream_config, enqueue_stream_config}
use libstf.Configuration.Global.{GlobalConfig, global_config, look_up}
use libstf.Transfers.{enqueue_stream_input, enqueue_stream_output}
use libstf.Examples.ReplayBuffer.{Memory, bytes_at}
use libstf.Examples.Session.{
  Device, Session, clear, write_number, on_tlb, on_thread, on_memory, or_exit, and_also,
  allocate_buffer, premap, clear_counts, wait_for_writes, repeat,
}
use libstf.Examples.TypedDictionary.{Args, fill_values, generate_ids, verify_output}

-- Numbers of `bytes` bytes side by side, written and read.
unfoldable pub write_numbers : ℕ → ℕ → List ℕ → Memory → Memory
write_numbers bytes ptr [] m = m
write_numbers bytes ptr (v ∷ vs) m =
    write_numbers bytes (ptr + bytes) vs (write_number bytes ptr v m)

unfoldable pub numbers_at : Memory → ℕ → ℕ → ℕ → List ℕ
numbers_at m bytes ptr zero = []
numbers_at m bytes ptr (suc count) = bytes_at m ptr bytes ∷ numbers_at m bytes (ptr + bytes) count

-- The pointers of the values, the ids and the output.
abbrev pub Buffers : Type 0
Buffers = ℕ × ℕ × ℕ

module _ {Double : Type 0} (args : Args Double) where
  abbrev pub value_bytes : ℕ
  value_bytes = args.value_bits / 8

  abbrev pub values_size : ℕ
  values_size = args.num_values * value_bytes % u64_mod

  abbrev pub ids_size : ℕ
  ids_size = args.num_ids * 4 % u64_mod

  abbrev pub output_size : ℕ
  output_size = args.num_ids * value_bytes % u64_mod

  abbrev pub value_type : StreamType
  value_type = if args.value_bits == 32 then int32_t else int64_t

  -- `num_wrong_values += verify_output(values, ids, output)`
  unfoldable pub verify_run : List ℕ → ℕ → ℕ → Memory → ℕ → ℕ
  unfolding numbers_at verify_output
  verify_run ids values output m num_wrong_values =
      wrap_add u64_mod num_wrong_values
        (verify_output (numbers_at m value_bytes values args.num_values) ids
          (numbers_at m value_bytes output args.num_ids)).0

  -- The values and the ids are written into their buffers.
  abbrev pub fill : List ℕ → Buffers → Memory → Memory
  fill ids (values, ids_buffer, output) m =
      write_numbers 4 ids_buffer ids
        (write_numbers value_bytes values (fill_values args.value_bits args.num_values 0) m)

-- The configuration of the stream, as main gets it.
abbrev pub connect : Action CThread StreamConfig
connect = do
  global ← global_config
  ensure (global.system_id == 0)
  (block, _) ← look_up 1 global
  config ← stream_config block.addr_offset block.num_regs
  ensure (config.num_streams == 1)
  pure config

-- `num_wrong_values == 0 ? EXIT_SUCCESS : EXIT_FAILURE`
unfoldable pub exit_code : ℕ → ℕ
exit_code num_wrong_values = if num_wrong_values == 0 then 0 else 1

-- What main is given; the pointers are those before they are set.
pub record Host : Type 0 where
  pub device : Device
  pub max_transfer_size : ℕ
  pub drawn : List ℕ
  pub huge_pool : Option Region
  pub uninitialised : ℕ × ℕ × ℕ

module _ {Double : Type 0} {pool : MemoryPool} (host : Host) (args : Args Double) where
  -- A run up to the verification.
  unfoldable pub run : StreamConfig → Buffers → Action (Session pool) (Unit {0})
  unfolding wait_for_writes
  run config (values, ids_buffer, output) = do
    on_memory (clear output (output_size args))
    clear_counts
    on_thread (enqueue_stream_config config 0 (value_type args) 0)
    n ←
        on_tlb
          (λ pages. enqueue_stream_output host.max_transfer_size pages output (output_size args) 0)
    on_tlb (λ pages.
        enqueue_stream_input host.max_transfer_size pages values (values_size args) 0 true)
    on_tlb (λ pages.
        enqueue_stream_input host.max_transfer_size pages ids_buffer (ids_size args) 1 true)
    wait_for_writes host.device n

  abbrev pub add_run : List ℕ → Buffers → Unit {0} → Session pool → ℕ × Unit {0} → ℕ × Unit {0}
  add_run ids (values, ids_buffer, output) _ s (num_wrong_values, _) =
      (verify_run args ids values output s.memory num_wrong_values, tt)

  -- The runs and what follows them.
  unfoldable pub execute : StreamConfig → List ℕ → Buffers → Action (Session pool) ℕ
  unfolding repeat run verify_run exit_code
  execute config ids buffers =
      repeat (run config buffers) (add_run ids buffers) args.num_runs (0, tt) >>= λ totals.
      pure (exit_code totals.0)

  -- `!allocate(values) || !allocate(ids) || !allocate(output)`
  unfoldable pub allocate_all : Action (Session pool) (Option Buffers)
  unfolding allocate_buffer
  allocate_all = and_also (allocate_buffer (values_size args) host.uninitialised.0) λ values.
      and_also (allocate_buffer (ids_size args) host.uninitialised.1) λ ids_buffer.
        and_also (allocate_buffer (output_size args) host.uninitialised.2)
          λ output. pure (some (values, ids_buffer, output))

  unfoldable pub start : StreamConfig → Buffers → Action (Session pool) ℕ
  unfolding execute write_numbers fill_values generate_ids
  start config buffers =
      let ids = generate_ids args host.drawn in
      on_memory (fill args ids buffers) >> execute config ids buffers

  unfoldable pub with_config : StreamConfig → Action (Session pool) ℕ
  unfolding premap allocate_all start
  with_config config =
      premap host.huge_pool >> (allocate_all >>= λ buffers. or_exit buffers (start config))

  -- main after parse_args.
  unfoldable pub main : Action (Session pool) ℕ
  unfolding with_config
  main = on_thread connect >>= with_config
