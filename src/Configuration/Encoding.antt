-- ===== src/Configuration/Encoding.antt =====
-- The registers that MemConfig, StreamConfig and ReplayBufferConfig write, as the hardware reads them
-- (software/libstf/configuration.cpp lines 60-63, 108-138 and 150-176).
use libstf.Base.{
  ℕ, ◌+◌, ◌-◌, ◌*◌, ◌/◌, ◌%◌, ◌^◌, ◌≤◌, ◌<◌, ◌≡◌, refl, ◌⊎◌, inl, inr, arith, dec_lt, ℕ_discrete,
  lt→ltb, le→ltb, eq→==, ne→==,
}
use libstf.Base.Word.{u32_mod, u64_mod, wrap_add, bit_or_join}
use libstf.Base.Action.{ok, err, assertion_failed, invalid_argument}
use libstf.Buffer.{Buffer}
use libstf.Coyote.{CThread, set_csr, record_call}
use libstf.Common.{
  fpga_vaddr_bits, memory_alignment_bytes, buffer_size_bits_lem, bytes_per_fpga_transfer,
  maximum_fpga_buffer_size, StreamType, byte_t, int32_t, int64_t, float_t, double_t, int16_t,
  int128_t, num_types, to_byte,
}
use libstf.Configuration.{
  Config, MemConfig, ReplayBufferConfig, write_register, buffer_word, enqueue_buffer, stream_word,
  replay_register, configure_ring_buffer,
}

-- The register of a block, as the thread numbers it.
abbrev pub at : Config → ℕ → ℕ
at c addr = wrap_add u32_mod c.addr_offset addr

-- What the FPGA can take for a stream: a stream of the block, and a buffer of whole transfers.
pub record IsEnqueueable (m : MemConfig) (stream_id : ℕ) (b : Buffer) : Type 0 where
  pub known : stream_id < m.num_streams
  pub register : stream_id < m.config.num_regs
  pub address : b.ptr < 2 ^ fpga_vaddr_bits
  pub non_empty : 0 < b.capacity
  pub small : b.capacity < maximum_fpga_buffer_size
  pub whole : b.capacity % bytes_per_fpga_transfer ≡ 0

-- The word is the address above the number of transfers, in 12 bits.
pub buffer_word_fields :
    (b : Buffer)
    → b.ptr < 2 ^ fpga_vaddr_bits
    → b.capacity < maximum_fpga_buffer_size
    → b.capacity % bytes_per_fpga_transfer ≡ 0
    → (buffer_word b / 2 ^ 12 ≡ b.ptr)
      × (buffer_word b % 2 ^ 12 * bytes_per_fpga_transfer ≡ b.capacity)
      × (buffer_word b < 2 ^ 60)
unfolding buffer_word
buffer_word_fields b address small whole =
    let shifted : b.ptr * 2 ^ 12 % u64_mod ≡ b.ptr * 2 ^ 12 = omega arith in
    rw
      (
        buffer_size_bits_lem,
        shifted,
        bit_or_join 12 b.ptr (b.capacity / bytes_per_fpga_transfer) (omega arith),
      )
      (omega arith, omega arith, omega arith)

-- A buffer that the FPGA can take is written to the register of its stream, in a word from which the
-- hardware recovers address and capacity; any other fails an assertion, and nothing is written.
pub enqueue_buffer_word :
    (m : MemConfig) (stream_id : ℕ) (b : Buffer) (t : CThread)
    → (IsEnqueueable m stream_id b
        × (enqueue_buffer m stream_id b t
            ≡ (ok tt, record_call (set_csr (buffer_word b) (at m.config stream_id)) t))
        × (buffer_word b / 2 ^ 12 ≡ b.ptr)
        × (buffer_word b % 2 ^ 12 * bytes_per_fpga_transfer ≡ b.capacity))
      ⊎ ((¬ IsEnqueueable m stream_id b)
          × (enqueue_buffer m stream_id b t ≡ (err assertion_failed, t)))
unfolding enqueue_buffer write_register
enqueue_buffer_word m stream_id b t = elim (dec_lt stream_id m.num_streams) [
  | no n ↦ inr (λ h. n h.known, rw (le→ltb stream_id m.num_streams (omega arith)))
  | yes known ↦ rw (lt→ltb _ _ known) (elim (dec_lt b.ptr (2 ^ fpga_vaddr_bits)) [
    | no n ↦ inr (λ h. n h.address, rw (le→ltb b.ptr (2 ^ fpga_vaddr_bits) (omega arith)))
    | yes address ↦ rw (lt→ltb _ _ address) (elim (dec_lt 0 b.capacity) [
      | no n ↦ inr (λ h. n h.non_empty, rw (le→ltb 0 b.capacity (omega arith)))
      | yes non_empty ↦
          rw (lt→ltb _ _ non_empty) (elim (dec_lt b.capacity maximum_fpga_buffer_size) [
            | no n ↦
                inr (λ h. n h.small, rw (le→ltb b.capacity maximum_fpga_buffer_size (omega arith)))
            | yes small ↦
                rw (lt→ltb _ _ small) (elim (ℕ_discrete (b.capacity % bytes_per_fpga_transfer) 0) [
                  | no n ↦ inr (λ h. n h.whole, rw (ne→== _ 0 n))
                  | yes whole ↦ rw (eq→== _ 0 whole) (elim (dec_lt stream_id m.config.num_regs) [
                    | no n ↦
                        inr
                          (λ h. n h.register, rw (le→ltb stream_id m.config.num_regs (omega arith)))
                    | yes register ↦
                        let fields = buffer_word_fields b address small whole in
                        inl (
                          record {
                            known = known;
                            register = register;
                            address = address;
                            non_empty = non_empty;
                            small = small;
                            whole = whole;
                          },
                          rw (lt→ltb _ _ register),
                          fields.0,
                          fields.1,
                        )
                  ])
                ])
          ])
    ])
  ])
]

to_byte-lt : (type : StreamType) → to_byte type < 2 ^ 3
to_byte-lt byte_t = omega arith
to_byte-lt int32_t = omega arith
to_byte-lt int64_t = omega arith
to_byte-lt float_t = omega arith
to_byte-lt double_t = omega arith
to_byte-lt int16_t = omega arith
to_byte-lt int128_t = omega arith
to_byte-lt num_types = omega arith

-- The register of a stream is the select above the type in three bits, so the hardware recovers both.
stream_word_fields :
    (type : StreamType) (select : ℕ)
    → (stream_word type select / 2 ^ 3 ≡ select) × (stream_word type select % 2 ^ 3 ≡ to_byte type)
unfolding stream_word
stream_word_fields type select =
    let small : to_byte type < 2 ^ 3 = to_byte-lt type in
    rw (bit_or_join 3 select (to_byte type) small) (omega arith, omega arith)

-- What a replay buffer needs of its ring buffer, as configuration.hpp says of configure_ring_buffer.
pub record IsRing (r : ReplayBufferConfig) (vaddr size : ℕ) : Type 0 where
  pub inside : vaddr + size ≤ 2 ^ fpga_vaddr_bits
  pub is_aligned : vaddr % memory_alignment_bytes ≡ 0
  pub two_transfers : 2 * r.transfer_size ≤ size

module _ (r : ReplayBufferConfig) (buffer_id vaddr size : ℕ) (t : CThread)
    (known : buffer_id < r.num_buffers) (register : 3 * buffer_id + 2 < r.config.num_regs)
    (regs : r.config.num_regs ≤ u32_mod) (transfer : 2 * r.transfer_size < u64_mod) where
  -- Where address and size do not pass 2 ^ 64 together, the call for a ring that fits writes the
  -- address and then the size, and any other throws invalid_argument and writes nothing.
  pub configure_ring_buffer_checks :
      vaddr + size < u64_mod
      → (IsRing r vaddr size
          × (configure_ring_buffer r buffer_id vaddr size t ≡ (
            ok tt,
            record_call
                (set_csr size (at r.config (3 * buffer_id + 1)))
                (record_call (set_csr vaddr (at r.config (3 * buffer_id))) t),
          )))
        ⊎ ((¬ IsRing r vaddr size)
            × (configure_ring_buffer r buffer_id vaddr size t ≡ (err invalid_argument, t)))
  unfolding configure_ring_buffer write_register
  configure_ring_buffer_checks small =
      rw (lt→ltb _ _ known, sum, twice)
        (elim (dec_lt (2 ^ fpga_vaddr_bits) (vaddr + size)) [
          | yes over ↦ inr (λ h. ring_absurd over h.inside, rw (lt→ltb _ _ over))
          | no fits ↦
              rw (le→ltb (2 ^ fpga_vaddr_bits) (vaddr + size) (omega arith))
                (elim (ℕ_discrete (vaddr % memory_alignment_bytes) 0) [
                  | no n ↦ inr (λ h. n h.is_aligned, rw (ne→== _ 0 n))
                  | yes aligned ↦ rw (eq→== _ 0 aligned) (elim (dec_lt size (2 * r.transfer_size)) [
                    | yes short ↦
                        inr (λ h. ring_absurd short h.two_transfers, rw (lt→ltb _ _ short))
                    | no enough ↦
                        rw
                          (
                            le→ltb size (2 * r.transfer_size) (omega arith),
                            first,
                            second,
                            lt→ltb (3 * buffer_id) r.config.num_regs (omega arith),
                            lt→ltb (3 * buffer_id + 1) r.config.num_regs (omega arith),
                          )
                          (inl (
                            record {
                              inside = omega arith;
                              is_aligned = aligned;
                              two_transfers = omega arith;
                            },
                            refl,
                          ))
                  ])
                ])
        ])
    where
      sum : wrap_add u64_mod vaddr size ≡ vaddr + size
      sum = omega arith

      twice : 2 * r.transfer_size % u64_mod ≡ 2 * r.transfer_size
      twice = omega arith

      first : replay_register buffer_id 0 ≡ 3 * buffer_id
      first = omega arith

      second : replay_register buffer_id 1 ≡ 3 * buffer_id + 1
      second = omega arith

      ring_absurd : {a b : ℕ} → a < b → b ≤ a → ⊥
      ring_absurd h k = omega arith

  -- Where address and size are words that pass 2 ^ 64 together, the check of the address space sees the
  -- wrapped sum: if that is at most 2 ^ 48, the address is aligned and the size is that of two transfers
  -- at least, the ring buffer, which does not fit the address space, is written to the device.
  pub configure_ring_buffer_overflow :
      vaddr < u64_mod
      → size < u64_mod
      → u64_mod ≤ vaddr + size
      → vaddr + size - u64_mod ≤ 2 ^ fpga_vaddr_bits
      → vaddr % memory_alignment_bytes ≡ 0
      → 2 * r.transfer_size ≤ size
      → (¬ IsRing r vaddr size)
        × (configure_ring_buffer r buffer_id vaddr size t ≡ (
          ok tt,
          record_call
              (set_csr size (at r.config (3 * buffer_id + 1)))
              (record_call (set_csr vaddr (at r.config (3 * buffer_id))) t),
        ))
  unfolding configure_ring_buffer write_register
  configure_ring_buffer_overflow v s over back aligned enough =
      let sum : wrap_add u64_mod vaddr size ≡ vaddr + size - u64_mod = omega arith in
      let twice : 2 * r.transfer_size % u64_mod ≡ 2 * r.transfer_size = omega arith in
      let first : replay_register buffer_id 0 ≡ 3 * buffer_id = omega arith in
      let second : replay_register buffer_id 1 ≡ 3 * buffer_id + 1 = omega arith in
      (
        λ h. absurd (omega (arith, h.inside)),
        rw (
          lt→ltb _ _ known,
          sum,
          twice,
          le→ltb (2 ^ fpga_vaddr_bits) (vaddr + size - u64_mod) back,
          eq→== _ 0 aligned,
          le→ltb size (2 * r.transfer_size) enough,
          first,
          second,
          lt→ltb (3 * buffer_id) r.config.num_regs (omega arith),
          lt→ltb (3 * buffer_id + 1) r.config.num_regs (omega arith),
        ),
      )
