-- ===== src/MemoryPool/Simple.antt =====
-- class SimpleMemoryPool: software/libstf/memory_pool.hpp lines 262-302 and memory_pool.cpp lines
-- 389-488. Its mutex is held for the whole of each call, so a call is one step on the state.
pub mod Invariant
pub mod Outcomes
pub mod Pages
pub mod Histories
use Prim.Native.String.{String}
use libstf.Base.{
  ℕ, zero, suc, ◌+◌, ◌-◌, ◌^◌, ◌≡◌, refl, Bool, true, false, not, ◌&&◌, Option, none, some, List,
  [], ◌∷◌, ltb, leb, ◌==◌, if◌then◌else◌, length, min,
}
use libstf.Base.Word.{u64_mod, wrap_add, wrap_sub}
use libstf.Base.Action.{Result, ok, err, assertion_failed, runtime_error, Action}
use libstf.ErrorHandling.{Status, StatusCode, status, status_ok}
use libstf.MemoryPool.Bounds.{Region, is_buffer_within_bounds, is_power_of_two}
use libstf.MemoryPool.Blocks.{emplace, erase}
use libstf.MemoryPool.Linear
use libstf.MemoryPool.Linear.{LinearAllocator}

abbrev pub default_alignment : ℕ
default_alignment = 64

abbrev pub simple_allocator_size : ℕ
simple_allocator_size = 2 ^ 30

pub record SimpleMemoryPool : Type 0 where
  pub allocated_buffers : List Region
  pub total_bytes_allocated : ℕ
  pub bytes_allocated : ℕ
  pub num_allocs : ℕ
  pub linear_allocator : LinearAllocator
  -- The bytes of the process, which `reallocate` copies.
  pub memory : ℕ → ℕ

-- The constructor, with the block that the LinearAllocator obtained.
abbrev pub init : ℕ → (ℕ → ℕ) → SimpleMemoryPool
init buffer memory = record {
  allocated_buffers = [];
  total_bytes_allocated = 0;
  bytes_allocated = 0;
  num_allocs = 0;
  linear_allocator = Linear.init buffer simple_allocator_size;
  memory = memory;
}

-- `std::memcpy(dst, src, n)` on regions that do not overlap.
abbrev pub memcpy : ℕ → ℕ → ℕ → (ℕ → ℕ) → ℕ → ℕ
memcpy dst src n memory a =
    if leb dst a && ltb a (dst + n) then memory (a - dst + src) else memory a

-- The counters and the map after a new block.
abbrev pub track : ℕ → ℕ → SimpleMemoryPool → SimpleMemoryPool
track ptr size p = record p {
  total_bytes_allocated = wrap_add u64_mod p.total_bytes_allocated size;
  bytes_allocated = wrap_add u64_mod p.bytes_allocated size;
  allocated_buffers = emplace ptr size p.allocated_buffers;
  num_allocs = wrap_add u64_mod p.num_allocs 1;
}

-- The status and the value of `*out` after the call.
unfoldable pub allocate : ℕ → ℕ → ℕ → Action SimpleMemoryPool (Status × ℕ)
allocate size alignment out p =
    if size == 0
    then (ok (status_ok, 0), p)
    else if not (is_power_of_two alignment)
    then (err assertion_failed, p)
    else let (granted, ptr, linear) = Linear.allocate size alignment out p.linear_allocator in
      if granted
      then (ok (status_ok, ptr), track ptr size (record p { linear_allocator = linear }))
      else (
        ok (status StatusCode.out_of_memory "Unable to allocate memory!", out),
        record p { linear_allocator = linear },
      )

unfoldable pub free : ℕ → ℕ → ℕ → SimpleMemoryPool → SimpleMemoryPool
free ptr size alignment p = if ptr == 0 then p else record p {
  bytes_allocated = wrap_sub u64_mod p.bytes_allocated size;
  num_allocs = wrap_sub u64_mod p.num_allocs 1;
  linear_allocator = Linear.free ptr p.linear_allocator;
  allocated_buffers = erase ptr p.allocated_buffers;
}

-- The counters, the map and the bytes after a block has moved.
abbrev pub move_block : ℕ → ℕ → ℕ → ℕ → SimpleMemoryPool → SimpleMemoryPool
move_block old_size new_size old_ptr new_ptr p = record p {
  memory = memcpy new_ptr old_ptr (min old_size new_size) p.memory;
  allocated_buffers = emplace new_ptr new_size (erase old_ptr p.allocated_buffers);
  total_bytes_allocated =
      if ltb old_size new_size
      then wrap_add u64_mod p.total_bytes_allocated (new_size - old_size)
      else p.total_bytes_allocated;
  bytes_allocated =
      if ltb old_size new_size
      then wrap_add u64_mod p.bytes_allocated (new_size - old_size)
      else wrap_sub u64_mod p.bytes_allocated (old_size - new_size);
}

-- The status and the value of `*ptr` after the call.
unfoldable pub reallocate : ℕ → ℕ → ℕ → ℕ → Action SimpleMemoryPool (Status × ℕ)
reallocate old_size new_size alignment ptr p =
    if new_size == 0
    then (ok (status_ok, 0), free ptr old_size alignment p)
    else if ptr == 0
    then (if old_size == 0 then allocate new_size alignment ptr p else (err assertion_failed, p))
    else if not (is_power_of_two alignment)
    then (err assertion_failed, p)
    else let (granted, new_ptr, linear) = Linear.allocate new_size alignment 0 p.linear_allocator in
      if granted
      then (
        ok (status_ok, new_ptr),
        move_block old_size new_size ptr new_ptr (record p { linear_allocator = linear }),
      )
      else (
        ok (status StatusCode.out_of_memory "Unable to reallocate memory!", ptr),
        record p { linear_allocator = linear },
      )

unfoldable pub find_page : ℕ → List Region → Result Region
find_page ptr [] = err runtime_error
find_page ptr (buffer ∷ buffers) =
    if is_buffer_within_bounds buffer (ptr, 1) then ok buffer else find_page ptr buffers

pub get_page_boundaries : ℕ → SimpleMemoryPool → Result Region
get_page_boundaries ptr p = find_page ptr p.allocated_buffers

-- The loop of the destructor, on fuel: a round frees the first block of the map.
free_all : ℕ → SimpleMemoryPool → SimpleMemoryPool
free_all zero p = p
free_all (suc fuel) p = elim p.allocated_buffers [
  | [] ↦ p
  | block ∷ _ ↦ free_all fuel (free block.0 block.1 default_alignment p)
]

-- The destructor; each round takes one block off the map, so their number is enough fuel.
pub destroy : SimpleMemoryPool → SimpleMemoryPool
unfolding free_all
destroy p = free_all (length p.allocated_buffers) p
