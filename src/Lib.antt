-- ===== src/Lib.antt =====
-- openshmem-rs is an OpenSHMEM layer over PMIx (bootstrap), UCX (transport) and UCC (collectives).
-- A process calls init, which connects to PMIx, makes the UCX transport and the symmetric heap,
-- exchanges addresses and keys with every PE, and installs the process-global state; malloc and
-- free hand out parts of the heap; put, get and quiet reach the peers' heaps; finalize takes the
-- state away.
--
-- Parts and files, with the paths of the repository:
--
-- SymHeap and SymHeap/* model src/symheap.rs: SymHeap is the record of the same name, with the free
-- list, the allocation map and the registered region; with_size, malloc and free are the methods,
-- cut where the code branches (round_up, take_block, carve, give_back, out_of_heap, merge).
-- SymHeap/Pointer has SymPtr, SymHeap/PeerRkeys the table of keys, SymHeap/Alloc the locked
-- allocator SymAlloc. The invariant is in SymHeap/Invariant, stated by counting, byte by byte, the
-- blocks and allocations that cover it (SymHeap/Cover). SymHeap/Spec is an allocator without a free
-- list, and SymHeap/Refine compares the two. SymHeap/Twins and SymHeap/Symmetry compare the heaps
-- of two PEs, which differ in their bases.
--
-- Error models src/error.rs, with the texts in Error/Display. Lock models the standard mutex as the
-- crate uses it: a panic poisons it.
--
-- World has what the code calls in PMIx and UCX, as records of functions of the history of calls
-- made so far; the history is the state of the monad Io. Nothing is assumed of the answers unless a
-- theorem says so.
--
-- Transport models UcxTransport of src/rma.rs, and Rma the transfers, fences and completions of
-- that file; Rma/Typed has the typed transfers. Rma/Complete, Rma/Attempt, Rma/Outcomes and
-- Rma/Flushes describe by data types every way in which a call and its completion can go, and
-- Init/Held that of code under the lifecycle lock. Atomic models atomic_family!, atomic_op! and
-- atomic_fetch! of that file with their uses: unsigned and signed are the two implementations of
-- AtomicValue, for a family that names the binding's methods; Atomic/Bits is about the casts
-- between them. Pod models the scalars of Pod in src/rma.rs, by their bit patterns, and the
-- functions encode and decode of src/coll.rs; Pod/Collective has the data types and reductions.
--
-- Coll models the collectives of src/coll.rs that wait, Coll/Posting those that do not, and
-- Coll/Request the request with test, wait and result. A collective's start (runtime_of, the
-- checks, init, post) is one function that both kinds use, since the source has the same lines in
-- both. What UCC stores in a buffer is read once the operation has ended. Oob models the exchange
-- over PMIx that UCC calls back: allgather, req_test and req_free.
--
-- Bootstrap models src/bootstrap.rs. Init models src/init.rs, with Runtime::new of src/coll.rs:
-- Init/State has the global state and the lock, Init the lifecycle.
--
-- Examples/PingPutGet and Examples/Barrier model examples/ping_put_get.rs and examples/barrier.rs,
-- as programs on the process-global state; the clock of the first is a function of the calls made
-- so far.
--
-- Numbers: u32, u64 and usize are natural numbers, with the checked and the wrapping operations of
-- a 64-bit target written out (Prelude/Words). Byte strings are lists of numbers.
--
-- Loops: the merge of the free list and the loop over the peers are structural. The wait for UCX is
-- a loop that the source does not bound; it runs on rounds here, and the result is none when they
-- run out; so do the loop of complete_fetch and the two that wait for UCC. Rma/Wait, Rma/Fetch and
-- Coll/Wait state how many rounds are enough for a loop, and Rma/Returns, Atomic/Returns and
-- Examples/Finishing for whole functions; the polls of ping_put_get have a number of their own. A
-- poisoned lock stays poisoned, as in the source.
--
-- Not modelled: the destructors of UCX and UCC handles, ucc_oob, which fills a table of callbacks,
-- and when UCC calls these, and what the examples print. A collective's test outside the lock is
-- not interleaved with other threads, as the source asks of its callers. A vector that the
-- allocator cannot provide ends the process and is not modelled; the panic on a length over
-- isize::MAX is.
pub mod Prelude
pub mod Coll
pub mod Error
pub mod Examples
pub mod Lock
pub mod Oob
pub mod World
pub mod Transport
pub mod SymHeap
pub mod Bootstrap
pub mod Init
pub mod Rma
pub mod Pod
pub mod Atomic
