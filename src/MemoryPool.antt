-- ===== src/MemoryPool.antt =====
-- software/libstf/memory_pool.hpp and memory_pool.cpp. The test of a buffer against bounds that the
-- pools share stands here, and each pool in a child module.
-- An address is a natural number, and nullptr is 0; adding a size to a pointer does not wrap, as no
-- object of the source reaches the end of the address space.
pub mod Bounds
pub mod Blocks
pub mod Linear
pub mod Simple
pub mod Jemalloc
pub mod Mallctl
pub mod Extents
pub mod HugePage
