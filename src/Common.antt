-- ===== src/Common.antt =====
-- software/libstf/common.hpp and common.cpp: the constants of the FPGA's memory interface, and the
-- types of stream elements.
pub mod Log
use Prim.Native.String.{String}
use libstf.Base.{ℕ, ◌+◌, ◌-◌, ◌/◌, ◌%◌, ◌^◌, ◌<◌, ◌≡◌, refl, arith, dec_lt, dite}
use libstf.Base.Word.{u32_mod, wrap_add, wrap_sub, lt_acc}
use libstf.Base.Action.{Result, ok, err, invalid_argument}
use mathlib.Core.WellFounded.{Acc}

pub half_lt : (val : ℕ) → 0 < val → val / 2 < val
half_lt val h = omega arith

-- `val ? 1 + floor_log2(val >> 1) : -1`, in unsigned arithmetic.
unfoldable pub floor_log2_acc : (val : ℕ) → Acc ◌<◌ val → ℕ
floor_log2_acc val (Acc.intro _ smaller) =
    dite (dec_lt 0 val)
      (λ h. wrap_add u32_mod 1 (floor_log2_acc (val / 2) (smaller (val / 2) (half_lt val h))))
      (λ _. u32_mod - 1)

unfoldable pub floor_log2 : ℕ → ℕ
unfolding floor_log2_acc lt_acc dec_lt
floor_log2 val = floor_log2_acc val (lt_acc val)

abbrev pub bytes_per_fpga_transfer : ℕ
bytes_per_fpga_transfer = 65536

abbrev pub fpga_vaddr_bits : ℕ
fpga_vaddr_bits = 48

abbrev pub memory_alignment_bytes : ℕ
memory_alignment_bytes = 64

abbrev pub interrupt_transfer_size_bits : ℕ
interrupt_transfer_size_bits = 28

-- INTERRUPT_TRANSFER_SIZE_BITS - floor_log2(BYTES_PER_FPGA_TRANSFER)
unfoldable pub buffer_size_bits : ℕ
unfolding floor_log2
buffer_size_bits =
    wrap_sub u32_mod interrupt_transfer_size_bits (floor_log2 bytes_per_fpga_transfer)

abbrev pub maximum_fpga_buffer_size : ℕ
maximum_fpga_buffer_size = 2 ^ interrupt_transfer_size_bits - 1

abbrev pub maximum_output_writer_buffer_size : ℕ
maximum_output_writer_buffer_size =
    maximum_fpga_buffer_size - maximum_fpga_buffer_size % bytes_per_fpga_transfer

abbrev pub fpga_interrupt_stream_id_bits : ℕ
fpga_interrupt_stream_id_bits = 3

abbrev pub fpga_interrupt_transfer_size_bits : ℕ
fpga_interrupt_transfer_size_bits = 28

abbrev pub fpga_interrupt_last_bits : ℕ
fpga_interrupt_last_bits = 1

pub buffer_size_bits_lem : buffer_size_bits ≡ 12
unfolding buffer_size_bits
buffer_size_bits_lem = refl

-- type_t, with NUM_TYPES as its last enumerator.
pub data StreamType : Type 0 where
  byte_t int32_t int64_t float_t double_t int16_t int128_t num_types : StreamType

-- The underlying value of the enumerator.
abbrev pub to_byte : StreamType → ℕ
to_byte byte_t = 0
to_byte int32_t = 1
to_byte int64_t = 2
to_byte float_t = 3
to_byte double_t = 4
to_byte int16_t = 5
to_byte int128_t = 6
to_byte num_types = 7

unfoldable pub size_of : StreamType → Result ℕ
size_of byte_t = ok 1
size_of int32_t = ok 4
size_of int64_t = ok 8
size_of float_t = ok 4
size_of double_t = ok 8
size_of int16_t = ok 2
size_of int128_t = ok 16
size_of num_types = err invalid_argument

-- The C++ types that dispatch_type instantiates its functor with: the alternatives of Value.
pub data ValueType : Type 0 where
  std_byte std_int32 std_int64 cpp_float cpp_double std_int16 : ValueType

-- `sizeof` of an alternative.
abbrev pub value_size : ValueType → ℕ
value_size std_byte = 1
value_size std_int32 = 4
value_size std_int64 = 8
value_size cpp_float = 4
value_size cpp_double = 8
value_size std_int16 = 2

unfoldable pub dispatch_type : {A : Type 0} → StreamType → (ValueType → A) → Result A
dispatch_type byte_t func = ok (func std_byte)
dispatch_type int32_t func = ok (func std_int32)
dispatch_type int64_t func = ok (func std_int64)
dispatch_type float_t func = ok (func cpp_float)
dispatch_type double_t func = ok (func cpp_double)
dispatch_type int16_t func = ok (func std_int16)
dispatch_type int128_t func = err invalid_argument
dispatch_type num_types func = err invalid_argument

-- `operator<<`
abbrev pub to_string : StreamType → String
to_string byte_t = "type_t::BYTE_T"
to_string int32_t = "type_t::INT32_T"
to_string int64_t = "type_t::INT64_T"
to_string float_t = "type_t::FLOAT_T"
to_string double_t = "type_t::DOUBLE_T"
to_string int16_t = "type_t::INT16_T"
to_string int128_t = "type_t::INT128_T"
to_string num_types = "type_t::NUM_TYPES"
