-- ===== src/Lib.antt =====
-- A model of libstf's host library (software/libstf) and proofs of what its parts promise.
--
-- The library connects a host program with an FPGA design. Memory pools hand out buffers, a
-- TLBManager maps their pages for the FPGA, configurations read and write the registers of the
-- design, and enqueue_stream_input posts the transfers of the input. The OutputBufferManager
-- enqueues buffers for the output of the design, handles its interrupts, and passes filled buffers
-- to OutputHandles, from which the user reads. The files:
--
--   Base, Base/*               numbers, words, lists, and the Action monad of state and failures
--   ErrorHandling              error_handling.hpp: Status, check_status
--   Common, Common/Log         common.hpp, common.cpp: constants, floor_log2, size_of, dispatch_type
--   MemoryPool/Bounds          memory_pool.cpp: is_buffer_within_bounds, the alignment assertion
--   MemoryPool/Blocks          the table of live blocks (std::unordered_map)
--   MemoryPool/Linear, */      LinearAllocator
--   MemoryPool/Simple, */      SimpleMemoryPool: its invariant, outcomes, pages and histories
--   MemoryPool/Jemalloc        what HugePageMemoryPool relies on of jemalloc
--   MemoryPool/Mallctl         the wrappers of je_mallctl in memory_pool.cpp
--   MemoryPool/Extents, */     the extent hooks of HugePageMemoryPool
--   MemoryPool/HugePage, */    HugePageMemoryPool: its pages and counters
--   Buffer                     buffer.hpp, buffer.cpp, and the interface of memory pools
--   Coyote                     the calls of a coyote::cThread, kept as a list
--   TlbManager, TlbManager/*   tlb_manager.cpp, and the pools as paged memory
--   Configuration, */          configuration.cpp: Config, MemConfig, StreamConfig,
--                              ReplayBufferConfig; Configuration/Global is GlobalConfig and
--                              Configuration/Printing the two operator<<
--   Transfers, Transfers/*     util.cpp: enqueue_stream_input, and enqueue_stream_output of
--                              examples/02_typed_dictionary/src/main.cpp
--   OutputHandle, */           output_handle.cpp
--   OutputBufferManager, */    output_buffer_manager.cpp: Service, LiveBlocks and SimplePool are the
--                              pool that it relies on, Supply, TopUp and Chunks how the FPGA gets
--                              buffers, Moving, Finishing, Others and Interrupts an interrupt,
--                              Activation, Rounds and Acquisition acquire_output_handle, Destruction
--                              the destructor, Leading, SizedAcquisition and Histories sequences of
--                              calls
--   Logging, */                logging.hpp and logging.cpp
--   Profiling, */              profiling.cpp
--   Examples, */               the programs of examples/: Examples/OutputBuffers is
--                              examples/01_output_buffer_manager/src/main.cpp, of whose main
--                              Examples/OutputBuffers/Setup is the part before the results,
--                              Examples/TypedDictionary examples/02_typed_dictionary/src/main.cpp and
--                              Examples/ReplayBuffer examples/03_replay_buffer/src/main.cpp; their
--                              main functions are Examples/TypedDictionary/Main,
--                              Examples/ReplayBuffer/Runs and Examples/ReplayBuffer/Main, over the
--                              steps of Examples/Session
--   Tests, Tests/*             the theorems at concrete inputs
--
-- A call that can fail is an Action: from a state to a result and the state after it. An exception
-- or a failed assertion is an `err` result, and what was written before it stays written. A call
-- that holds its object's mutex throughout is one step on the state. A call that waits on a
-- condition variable returns `none` where the condition does not hold, and is then tried again.
--
-- Machine words are natural numbers, with the wrap-around of size_t and uint32_t written out where
-- the source computes with them; addresses are natural numbers, and 0 is nullptr. The loops run on
-- fuel: ensure_tlb_mapping on one more than the size, as a page that holds an address ends beyond
-- it; the transfers and the chunks on the size, as each round takes a byte at least;
-- ensure_stream_has_buffers on the number of buffers to enqueue, as each round adds one;
-- offload_to_card on the size. That the fuel is enough is part of the theorems. The pages of
-- TLBManager may come from any memory that is paged: each address has one page, which is the page
-- of all that it holds. The OutputBufferManager runs on any pool behind the interface of Buffer
-- that serves it: it can grant the bytes in question, and keeps the blocks that the manager holds.
-- SimpleMemoryPool is such a pool.
--
-- The main functions of 02_typed_dictionary and 03_replay_buffer run on a given device: the numbers
-- that its polls return, and the memory and the registers that it leaves. The wait for its writes
-- goes through those polls; where none of them has the number waited for, the model says
-- out_of_fuel and the program goes on waiting.
--
-- Not modelled: how the threads of 01_output_buffer_manager run together, whose parts are modelled
-- one by one; what the examples measure and print; the hardware designs; and the bodies of coyote,
-- jemalloc, Caliper, getopt_long, vsnprintf and the C++ standard library, which are parameters or
-- written as their documentation has them.
pub mod Base
pub mod Common
pub mod ErrorHandling
pub mod MemoryPool
pub mod Coyote
pub mod TlbManager
pub mod Buffer
pub mod Configuration
pub mod Transfers
pub mod OutputHandle
pub mod OutputBufferManager
pub mod Logging
pub mod Profiling
pub mod Examples
pub mod Tests
