-- ===== src/Lib.antt =====
-- RDM is a data-distribution system in C++ after the LDM: processes insert products into a queue
-- in a mapped file and hand them on to the hosts that ask for them. This library models the parts of
-- it that decide what is stored and who may have what.
--
-- Storage, the product queue (storage/pq):
--   * Storage/SignatureIndex: SignatureIndex.h and .cpp, the hash table from signatures to offsets.
--     The arrays of the mapped file are lists, `size_t` indexes are numbers, the null pointer and the
--     out parameter of Find are options; chains take a fuel of nalloc + 1, which the invariant of
--     Storage/SignatureIndex/Valid makes enough. Math: prevPrime and isPrime (core/MathUtil.h).
--   * Storage/FreeBlock: FreeBlock.h and .cpp, the arena of skip-list nodes: InitLevel, Get, Release.
--     Lists has the free lists that the links lead through.
--   * Storage/SkipList: the loops that the skip lists of RegionList.cpp and TimeQueue.cpp share, over
--     any array of elements and the arena. The walk along a level takes as much fuel as there are
--     elements, and one, which Storage/SkipList/Returns shows to be enough.
--   * Storage/RegionList: RegionList.h and .cpp. The file itself has the unused regions and the hash
--     chains by offset (Find takes as much fuel as there are regions, and one), Free the skip lists
--     of the free regions by offset and by extent, which the code writes out twice, and Space the
--     operations Get, Add, Split, Put, Free and Consolidate.
--   * Storage/TimeQueue: TimeQueue.h and .cpp, the products by insertion time. The search of Add may
--     go back to the highest level for each time that is taken; its fuel is the number of elements
--     times that of the levels.
--   * Storage/Control: the control header of the file (QueueIndexManager.h), its initialisation and
--     its validation. Storage/QueueMetrics: QueueMetrics.h, the high-water marks in it.
--   * Storage/QueueIndexManager: QueueIndexManager.h and .cpp, the three indexes in step. The decoding
--     of a product and the report of a deletion are parameters, as they are callbacks of the code;
--     the loops that make room take as much fuel as there are elements, and one, which
--     Storage/QueueIndexManager/Ends shows to be enough. Allocating has AllocateProductSpace, Lookup
--     FreeByOffset and FindTimeEntryBySignature.
--   * Storage/RegionManager: RegionManager.h and .cpp, MappedRegion.h: the regions that a process has
--     mapped. The calls of the kernel are recorded, their answers are arguments.
--   * Storage/ProductQueue: newElement, newElementDirect, commitEntry, rollbackEntry and insert of
--     ProductQueue.cpp over the index manager, with the callbacks that it passes; the answers of the
--     locks, the mappings and the serializer are arguments. Storage/Samples: a queue for the tests.
--   * Storage/QueueCursor: QueueCursor.h and .cpp, the position of a reader: setCursorClass,
--     setCursorFromSignature, and the move that sequenceHelper and next make. That the control lock
--     is granted is assumed.
--   * Storage/QueueEntry: QueueEntry.h and .cpp, the lease of a region between its reservation and
--     its commit or rollback; the callbacks are values that change a world of their own.
-- The answers of GetRandomLevel are arguments wherever an element is added to a skip list. An off_t is
-- an integer and does not wrap around; a size_t does.
-- Core, filters and access (core):
--   * Core/FeedType: FeedType.h and .cpp. A feed type is a number below 2^32; Masks has the named
--     ones, Names the table and ToString, Expression the tokenizer and the parser. Each call of a
--     function of the parser takes a unit of fuel; Diverges shows the input on which no fuel is
--     enough. std::stoul is a parameter.
--   * Core/Timestamp: Timestamp.h and .cpp, on integers without the wrap-around of 64 bits.
--   * Core/Pattern, Core/ProdClass, Core/UpFilter, Core/AclManager: the files of these names,
--     ProdSpec.h, ProdInfo.h and the rules of ServerConfig.h. std::regex is a parameter that gives,
--     for an expression, the texts in which it is found, or none where its constructor throws; an
--     exception is none. AclManager asks UpFilter for its components, UpFilter and ProdClass ask
--     Pattern.
--   * Core/SemaphoreRwLock: SemaphoreRWLock.h and .cpp. The record FileLocks holds the system calls
--     with what POSIX documents of them; a call may block for good, and the fuel of PerformLock is the
--     number of calls, which signals may interrupt without end.
--     Exclusion runs the operations of any number of processes in any order.
--   * Core/Uldb: ULDB.h and .cpp, the table of upstream processes in shared memory. Whether the lock
--     was taken is an argument; addresses and their comparison are parameters.
-- Prelude has what these share: lists and words over the native numbers, integers, texts as lists of
-- bytes, and Run, the result of code that may abort: a failed log_assert, an access outside an array,
-- a loop that outruns its fuel and a system call that blocks for good are faults.
--
-- Not modelled: opening, closing and the layout of the queue file, what a reader does with the
-- products it finds, the mappers of regions, the network layer (network/sunrpc), the programs under
-- apps, the configuration reader, and the wrappers of system calls for files, processes, signals and
-- logs, which have no state of their own to speak of.
pub mod Prelude
pub mod Math
pub mod Core
pub mod Storage
