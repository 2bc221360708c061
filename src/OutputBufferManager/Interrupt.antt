-- ===== src/OutputBufferManager/Interrupt.antt =====
-- The value of an FPGA interrupt: software/libstf/output_buffer_manager.cpp lines 14-57.
use Prim.Native.Nat.{bit_and}
use libstf.Base.{
  ℕ, ◌+◌, ◌-◌, ◌*◌, ◌/◌, ◌%◌, ◌^◌, ◌≤◌, ◌<◌, ◌≡◌, refl, Bool, true, false, arith, leb, ltb, ◌==◌,
  if◌then◌else◌,
}
use libstf.Base.Word.{u32_mod, wrap_sub, bit_and_low}
use libstf.Base.Action.{Result, ok, err, assertion_failed}
use libstf.Common.{
  fpga_interrupt_stream_id_bits, fpga_interrupt_transfer_size_bits, fpga_interrupt_last_bits,
}

-- An `int`, on native numbers: `negsuc n` is -(n + 1).
pub data ℤ : Type 0 where
  pos negsuc : ℕ → ℤ

pub record InterruptValue : Type 0 where
  pub last : Bool
  pub bytes_written : ℕ
  pub stream_id : ℕ

-- The conversion of an int to uint32_t.
unfoldable pub to_uint32 : ℤ → ℕ
to_uint32 (pos n) = n % u32_mod
to_uint32 (negsuc n) = u32_mod - 1 - n % u32_mod

unfoldable pub extract_bits_from_uint32 : ℕ → ℕ → ℕ → Result ℕ
extract_bits_from_uint32 value start_bit num_bits =
    if leb (start_bit + num_bits) 32
    then ok (bit_and (value / 2 ^ start_bit) (wrap_sub u32_mod (2 ^ num_bits % u32_mod) 1))
    else err assertion_failed

abbrev and_then : {A B : Type 0} → Result A → (A → Result B) → Result B
and_then (ok a) f = f a
and_then (err e) f = err e

unfoldable pub parse_interrupt_value : ℤ → Result InterruptValue
unfolding extract_bits_from_uint32 to_uint32
parse_interrupt_value value =
    let word = to_uint32 value in
    and_then (extract_bits_from_uint32 word 0 fpga_interrupt_stream_id_bits) (λ stream.
      and_then
        (extract_bits_from_uint32 word fpga_interrupt_stream_id_bits
          fpga_interrupt_transfer_size_bits)
        (λ bytes.
          and_then
            (extract_bits_from_uint32 word
              (fpga_interrupt_stream_id_bits + fpga_interrupt_transfer_size_bits)
              fpga_interrupt_last_bits)
            (λ last. ok (record { last = last == 1; bytes_written = bytes; stream_id = stream }))))

-- The word that the hardware sends, and the int with these 32 bits.
abbrev pub bit_of : Bool → ℕ
bit_of true = 1
bit_of false = 0

abbrev pub interrupt_word : InterruptValue → ℕ
interrupt_word v = v.stream_id + 8 * v.bytes_written + 2147483648 * bit_of v.last

abbrev pub to_int32 : ℕ → ℤ
to_int32 w = if ltb w 2147483648 then pos w else negsuc (u32_mod - 1 - w)

to_int32-to_uint32 : (w : ℕ) → w < u32_mod → to_uint32 (to_int32 w) ≡ w
unfolding to_uint32
to_int32-to_uint32 w h = ground arith

bit_of_bound : (b : Bool) → bit_of b ≤ 1
bit_of_bound true = omega arith
bit_of_bound false = omega arith

is_set : (b : Bool) (x : ℕ) → x ≡ bit_of b → (x == 1) ≡ b
is_set true x e = rw e refl
is_set false x e = rw e refl

-- Each of the three fields, whose bits lie side by side in the word.
fields :
    (v : InterruptValue) (w : ℕ)
    → v.stream_id < 8
    → v.bytes_written < 268435456
    → w ≡ interrupt_word v
    → (bit_and (w / 1) 7 ≡ v.stream_id)
      × (bit_and (w / 8) 268435455 ≡ v.bytes_written)
      × ((bit_and (w / 2147483648) 1 == 1) ≡ v.last)
fields v w s b e = (
  omega (arith, bit_and_low 3 (w / 1), e),
  omega (arith, bit_and_low 28 (w / 8), e),
  is_set v.last (bit_and (w / 2147483648) 1)
      (omega (arith, bit_and_low 1 (w / 2147483648), e, bit_of_bound v.last)),
)

-- An interrupt that the hardware composes of a stream number below 8, a length below 2^28 and the
-- last bit is parsed to these three, although the int is negative where the last bit is set.
pub parse_interrupt_value-interrupt_word :
    (v : InterruptValue)
    → v.stream_id < 8
    → v.bytes_written < 2 ^ 28
    → parse_interrupt_value (to_int32 (interrupt_word v)) ≡ ok v
unfolding parse_interrupt_value
parse_interrupt_value-interrupt_word v s b =
    let (stream, bytes, last) = fields v (interrupt_word v) s b refl in
    rw
      (
        to_int32-to_uint32 (interrupt_word v) (omega (arith, bit_of_bound v.last)),
        stream,
        bytes,
        last,
      )
      refl
