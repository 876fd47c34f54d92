-- ===== src/Lib.antt =====
-- A verification library for givy, an allocator for a global address space.
--
-- The program keeps a region of virtual memory, the GAS, cut in superpages of 2 MB. Which superpages
-- are in use, and which follow each other in one sequence, is kept in two bit tables by
-- `SuperpageTracker`; it reads and writes words of these tables through `BitMask`. `Gas::Space` lays out
-- the region, a part for each node, and gives its callers superpages of the local part by address.
-- The allocator builds a `SuperpageBlock` in them, whose first superpage is cut in page blocks; the
-- unused ones are kept by size in a `QuickList`. A page block is one allocation, or is cut in small
-- blocks of one size class. Each thread has a `ThreadLocalHeap`, which owns superpage blocks, and
-- frees what other threads queue for it in an `AtomicForwardList`. `Coherence::Manager` exchanges
-- messages between the nodes, and src/givy.cpp puts the parts together.
--
-- Files, and the code they are about (paths from the root of the repository):
--   Bits: the binary digits of a number, in which all masks are described.
--   BitMask: src/bitmask.h, `BitMask<IntType>`, for a type of `bits` digits. Windows is about the
--     masks, Counts about the counting loops, Search about the two searches.
--   Tracker: src/superpage_tracker.h, `SuperpageTracker`. Each table is a list of words. A function that
--     writes one table takes it and returns the new one; the others take the whole tracker. Ranges
--     is about the bit manipulators (Cells: one cell; Clear: the clearing functions; Middle, Claim and
--     Wins: `set_mapping_bits`), Sequences about `set_bits`, `release` and `trim`, Start about
--     `get_sequence_start_num`, Acquire about `acquire`, whose loop body is `cell_step`, RoundTrip
--     about these operations one after the other, and Print about `print`.
--   Math: src/math.h on size_t, and `BoundUint` of src/types.h.
--   Range, Pointer: the values and the arithmetic of src/range.h and src/pointer.h;
--     Iterate is about loops over a range.
--   Space: src/gas_space.h, `Gas::Space`, which turns the superpage numbers of its tracker into
--     addresses. Laws is about the addresses, Superpages about reserving and releasing.
--   IntrusiveList: the other lists of src/intrusive_list.h, down to their pointers. Ring is `List`
--     (Links and Rotate: chains of elements; Ends, Refine and Unlink: the operations on them; Iterate:
--     the iterators), Stack is `StackList` and `ForwardList`, Atomic is
--     `AtomicForwardList` as accesses of threads (Inv: who owns an element; Moves and Simulation: the
--     list as one sequence; Alone: the end of its loops), Shared is `List::Atomic`, the list under a
--     lock (Order: one access; Steps: any interleaving).
--   QuickList: `QuickList` of src/intrusive_list.h. Empty is about the constructor, Laws about `insert`,
--     Take about `take`, Remove about `remove`, Sizes about elements whose sizes are read again.
--   SuperpageBlock: the page blocks of src/allocator.h, `SuperpageBlock` with its table of
--     `PageBlockHeader` and its quick list of unused blocks. Headers is about `format_pbh`, Create
--     about the constructor, PageBlocks about `allocate_page_block`, Free about `free_page_block`,
--     Partition about tables that page blocks partition. WellFormed is about the invariant of a superpage
--     block: Cut, Given and Allocate about `allocate_page_block`, Merge and Free about `free_page_block`,
--     Create about the constructor and `destroy_huge_alloc`, Run about any sequence of these calls, Pages
--     and InUse about the number of unused pages and the tests on it.
--   SizeClass: the size classes of src/allocator.h; Counters is about their table.
--   SmallBlocks: the small blocks of a page block in src/allocator.h. Laws is about the blocks that
--     can be carved, Live about those in use.
--   LocalHeap: `ThreadLocalHeap` of src/allocator.h. Pages has the functions on superpage blocks and
--     page blocks, Small those on small blocks and the deallocation by the owner, Interface
--     `allocate`, `deallocate` and the destructor. Huge, Serving, Served and Covers are about
--     what is allocated, Search and Given about where a page block comes from, Invariant, Kept, Freed,
--     Classes and Outcome about the superpage blocks that the heaps own, which stay in order, Remote and
--     Grid about other threads, Disown about the end of a heap, Adopted and Threshold about two special
--     cases.
--   Coherence: src/coherence.h, `Manager` on all nodes. Counts and Termination are about the counters
--     of nodes that still run, Exit and Loop about the end of the event loop, Requests about
--     `request_region_valid`.
--   SpinLock: src/concurrency.h, by accesses of threads.
--   Arrays: the functions on `StaticArray` of src/array.h.
--   Library: `init`, `allocate` and `deallocate` of src/givy.cpp.
--
-- Bounds and fuel: words have 64 bits in Tracker. A counting loop of BitMask runs on one round for each
-- digit, after which the shifted word is 0. `get_sequence_start_num` runs on one round for each cell up
-- to that of its argument. `acquire` runs on two rounds for each superpage of the search space, plus
-- two; every pass of its loop moves forward. The loops over the page blocks of a superpage block run on
-- one round for each header, since no page block is empty; the loop that finds the tail of a list on one
-- more than its elements.
--
-- The assertions of the source are not part of the functions: what they ask is a hypothesis of a
-- theorem, or is answered by one. Those of ThreadLocalHeap and Library that every build checks are part
-- of the functions, which then give `none`. Each operation of the tracker and of the heaps is run
-- without another thread between its atomic steps, but for what others do between the load of an owner
-- and the adoption, and for the words that `set_bits` expects, which are free arguments, so that a
-- compare-exchange may fail. The accesses of the threads in Atomic, Shared and SpinLock,
-- and the steps of the nodes in Coherence, are taken one after the other in any order; weaker memory
-- orders are not modelled.
--
-- Not modelled: the printing functions but for the table that the tracker prints, the system calls, the
-- MPI calls of the network, thread creation, `FixedArray` but as a list, the iterators that insert in
-- src/intrusive_list.h, the page block manager of src/allocator_page_block_manager.h, which is
-- unfinished, and the bootstrap allocator, which calls the C library.
mod Base
pub mod Arrays
pub mod BitMask
pub mod Bits
pub mod Coherence
pub mod IntrusiveList
pub mod Library
pub mod LocalHeap
pub mod Math
pub mod Pointer
pub mod QuickList
pub mod Range
pub mod SizeClass
pub mod SmallBlocks
pub mod Space
pub mod SpinLock
pub mod SuperpageBlock
pub mod Tracker
