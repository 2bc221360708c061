-- ===== src/Buffer.antt =====
-- software/libstf/buffer.hpp and buffer.cpp: a buffer, the deleter of a shared buffer, and its two
-- constructors, over a memory pool as an interface (class MemoryPool of memory_pool.hpp). A shared
-- pointer is the buffer that it points to.
use libstf.Base.{ℕ}
use libstf.Base.Action.{Action, Result, ok, err}
use libstf.ErrorHandling.{Status}
use libstf.MemoryPool.Bounds.{Region}

pub record Buffer : Type 0 where
  pub ptr : ℕ
  pub size : ℕ
  pub capacity : ℕ

-- The virtual methods of MemoryPool that libstf calls, at the default alignment: what each returns
-- and makes of the state. `allocate` and `reallocate` return the pointer after the call too.
pub record MemoryPool : Type 1 where
  pub State : Type 0
  -- size, and the value of `*out`
  pub allocate : ℕ → ℕ → Action State (Status × ℕ)
  -- old size, new size, pointer
  pub reallocate : ℕ → ℕ → ℕ → Action State (Status × ℕ)
  -- pointer, size
  pub free : ℕ → ℕ → Action State (Unit {0})
  pub get_page_boundaries : ℕ → State → Result Region

module _ (pool : MemoryPool) where
  -- `BufferDeleter::operator()`
  abbrev pub delete_buffer : Buffer → Action pool.State (Unit {0})
  delete_buffer b = pool.free b.ptr b.capacity

  -- `make_buffer(memory_pool, ptr, size, capacity)`
  abbrev pub make_buffer : ℕ → ℕ → ℕ → Buffer
  make_buffer ptr size capacity = record { ptr = ptr; size = size; capacity = capacity }

  -- `make_buffer(memory_pool, size, status)`: the buffer and the status. `ptr` is uninitialised
  -- before the call, and keeps that value where the pool writes none.
  abbrev pub make_buffer_of : ℕ → ℕ → Action pool.State (Buffer × Status)
  make_buffer_of uninitialised size s =
      let (r, s') = pool.allocate size uninitialised s in
      elim r [
        | ok (status, ptr) ↦ (ok (record { ptr = ptr; size = size; capacity = size }, status), s')
        | err e ↦ (err e, s')
      ]
