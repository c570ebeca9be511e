-- ===== src/Lib.antt =====
-- nvm_malloc: an allocator for non-volatile memory whose regions survive a crash.
--
-- A program maps a reserved address range, and chunks of 4 MB of a backing file into it. It
-- reserves a region, which is volatile until it activates it, optionally writing up to two links
-- to the region in the same step; a free does the reverse. After a crash the library repairs the
-- regions that a log names and finds the others by their headers.
--
-- The parts, all from the directory src of the repository:
--   Types        src/types.h: constants, the state byte, field offsets, the address macros
--   Util         src/util.c: round_up, identify_usage, clflush_range
--   Nvm          NVRAM as cells, and the stores, fences and flushes of the code as events
--   Links        the link pointers of an activation or a free: recorded, committed, written, replayed
--   Header       huge regions and large blocks: activation, free and recovery of their headers,
--                and recoveries that are cut off themselves (Resume, Again)
--   Bits, Slot   runs of small slots: the same for one slot and its bit
--   Threads      threads that change slots of one run at the same time, and its state byte as lock
--   Tree         tree_upper_bound of src/arena.c and src/nvm_malloc.c, over ulib's trees
--   Chunk        src/chunk.c: the mapped space and its growth
--   State        the state of the allocator, from the structs of src/types.h
--   Arena        src/arena.c: allocation and free of slots and blocks, arenas' start and end
--   ObjectTable  src/object_table.c: named regions, the buffer of freed slots, ot_recover
--   NvmMalloc    src/nvm_malloc.c: the public calls, the log, the start, the recovery and the end
--   Locks        the mutexes of the three files above, and calls that lock them at the same time
--   Base         shared helpers; Examples has concrete inputs for the theorems
--
-- How the model stands to the code. Memory has one cell for each field, at the field's address, so
-- that an overlap of fields, as between the bytes of a number, is not seen. An operation on a
-- header is the list of its events in program order; a crash keeps the stores of a prefix, since
-- every header is one cache line and the code fences between the steps that must not change places.
-- Functions of the allocator take the state and return it; `none` is the end of the process by an
-- assertion, by `error_and_exit` or by a wild access, and a loop that never ends. Unsigned
-- arithmetic wraps at its width; subtractions are written so.
--
-- Parameters. ulib's trees (`TreeLib`) and hash map (`HashMap`), and the system calls (`Os`), are
-- not part of the program: they are records of operations with the laws that the code relies on.
-- The hash map may hold a key several times. What `malloc` leaves behind the 54 bytes of a
-- recovered identifier is an argument of `ot_recover`.
-- `Examples` has an instance of each.
--
-- Fuel. `flush_from` gets a round for each cache line and two more. The chain
-- of object tables is followed for 20 chunks, the number of the initial arenas, which is all that
-- a fresh start links. The walks of the recovery thread get a round for each page and each chunk,
-- and one for the last test. A header with zero pages, on which the code's loop never ends, runs
-- out of it.
--
-- Threads. Any thread may step at any time, and memory is sequentially consistent. In Threads a step
-- is one access to memory; this is done for the changes of slots of a run, whose lock is the state
-- byte in NVRAM. In Locks a step is a lock, an unlock, or one part of the code between them, as
-- nothing that a mutex guards is seen from outside it; a call is a program of such steps.
--
-- Not modelled: reads of `arenas` and `bins` out of their 20 and 31 places, by a header in NVRAM with
-- a wrong arena or size; the object table's counters under several threads (its operations run alone),
-- `malloc` failing, file names and messages, and the flush instructions' effect on caches. The
-- other directories of the repository are a copy of ulib, another allocator, benchmarks and tests.
pub mod Base
pub mod Types
pub mod Util
pub mod Nvm
pub mod Links
pub mod Header
pub mod Bits
pub mod Slot
pub mod Threads
pub mod Tree
pub mod Chunk
pub mod State
pub mod Arena
pub mod ObjectTable
pub mod NvmMalloc
pub mod Locks
pub mod Examples
