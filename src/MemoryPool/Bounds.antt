-- ===== src/MemoryPool/Bounds.antt =====
-- is_buffer_within_bounds of software/libstf/memory_pool.cpp, and the test for a power of two that
-- the pools assert of an alignment.
use Prim.Native.Nat.{bit_and}
use libstf.Base.{ℕ, ◌+◌, ◌≤◌, ◌≡◌, ◌↔◌, Bool, true, ◌&&◌, arith, leb, ◌==◌}
use libstf.Base.Word.{u64_mod, wrap_sub}

-- A region of memory, as (base address, size).
abbrev pub Region : Type 0
Region = ℕ × ℕ

unfoldable pub is_buffer_within_bounds : Region → Region → Bool
is_buffer_within_bounds (bounds_start, bounds_size) (buf_start, buf_size) =
    leb bounds_start buf_start && leb (buf_start + buf_size) (bounds_start + bounds_size)

-- `(alignment & (alignment - 1)) == 0`
unfoldable pub is_power_of_two : ℕ → Bool
is_power_of_two a = bit_and a (wrap_sub u64_mod a 1) == 0

pub is_buffer_within_bounds_iff :
    (b x : Region) → (is_buffer_within_bounds b x ≡ true) ↔ ((b.0 ≤ x.0) × (x.0 + x.1 ≤ b.0 + b.1))
unfolding is_buffer_within_bounds
is_buffer_within_bounds_iff b x = ground arith
