-- ===== src/Lib.antt =====
-- A verification library of kvdk, a key-value store on persistent memory (PMem).
--
-- The engine keeps its records in PMem. PMEMAllocator hands out space there, in blocks, from a
-- segment or from a free list, whose byte map (SpaceMap) says which blocks are free. Records of the
-- collections are linked in a doubly linked list (DLList), whose links are stored one by one, so
-- that recovery can repair a list after a crash. VersionController gives out timestamps and
-- snapshots, and keeps a snapshot from showing a batch that is still being written. A batch of
-- writes (WriteBatchImpl) is logged to PMem (BatchWriteLog), through the functions of codec.hpp,
-- before it is executed.
--
-- Prelude: shared names, Boolean tests on numbers, lists and functions as tables.
-- Space: SpaceMap of engine/pmem_allocator/free_list.hpp and free_list.cpp. Token is its cell, Map
--   its operations (test, set, test_and_clear, try_merge), Map/Chain what the cells say of an entry,
--   Map/Fill, Map/Take and Map/Merging the laws of Set, TestAndClear and TryMerge. Pool is
--   SpaceEntryPool, the stacks of entry lists that the threads share.
-- Codec: engine/utils/codec.hpp. Pod is the interface of a plain type; Bytes are a number's bytes.
-- Batch: engine/write_batch_impl.hpp and write_batch_impl.cpp. Log is BatchWriteLog, Ops is
--   WriteBatchImpl, whose unordered sets are lists under an equality of keys.
-- Version: engine/version/version_controller.hpp. History has its calls as a step relation; Race is
--   a blocking call with another one inside it; Local is the oldest local snapshot.
-- DlList: engine/dl_list.hpp and dl_list.cpp over the records of engine/data_record.hpp. Ring says
--   when a memory holds a list, Insert, Unlink and Deque have the laws of the operations, and Crash
--   what recovery makes of a memory in between two stores. Iterator has the two iterators.
-- Record: engine/data_record.hpp, the records with their checksums. Valid is what a scan reads of a
--   record that was written.
-- Allocator: engine/pmem_allocator/pmem_allocator.hpp and pmem_allocator.cpp, over FreeList, an
--   interface of what it calls of the free list. Usage is what each step counts, Fits what Allocate
--   gives, Rounding the sizes, Overflow what it does when PMem is used up.
-- Freelist: Freelist of engine/pmem_allocator/free_list.hpp and free_list.cpp, over Space. Small and
--   Get are what Get comes to, Push what a thread gives back, Pooling and Merge the calls that move
--   entries to the pools, Balance what they do for other threads, Pooled, Kept and Calls the
--   invariant of the pools over any calls, and Fits the interface of Allocator.
-- Dram: engine/dram_allocator.hpp and dram_allocator.cpp.
-- LockTable: engine/lock_table.hpp. A lock that is held makes the call give none.
-- Cleaner: engine/version/old_records_cleaner.hpp and old_records_cleaner.cpp.
-- HashTable: engine/hash_table.hpp and hash_table.cpp, the table that indexes every key. Walk is
--   HashBucketIterator on a bucket's chain and the loop of Lookup, Outcome and Lookup what a call
--   comes to, Allocate what allocateEntry does, Holds, Insert and Unique the calls as operations on
--   the set of entries that match a key, and Overflow when there is no memory. hash_str and the keys
--   that indexes lead to are parameters.
-- Transaction: engine/transaction_impl.hpp and transaction_impl.cpp. Gate is
--   CollectionTransactionCV as a step relation, with Counts, Reach and Safe; Timeout is the wait for
--   a lock, Locks what a transaction has locked, Covered and Calls that its batch is under locks. It
--   works on the batch of Batch.Ops, and on the engine through the interface Engine.
-- StringEngine: engine/kv_engine_string.cpp, lookupKey of engine/kv_engine.cpp and TimeUtils of
--   engine/utils/utils.hpp. Interface has KeyIndex, what the calls use of the hash table, and Index
--   fills it by HashTable: Reserves is what Lookup leaves, Moves that records which the index does
--   not name may change, and Puts Insert at the place that Lookup gave. The tests run the theorems
--   over KeyIndex with this index. DRAM for another HashBucket is given or not by any function of
--   the table. Find is what a read sees, whose move of the cache is left out, Publish, Writes, Puts,
--   Deletes and Modify the writes, Restore the recovery of string records, with Newest and Order,
--   and BatchWrite the strings of a batch up to their publication.
-- Collection: engine/collection.hpp, the keys of elements.
-- ListCollection: engine/list_collection/list.hpp and list.cpp, over DlList and Collection. Place is
--   a write anywhere in a DLList, Live the live records among all, Indexed, AtLive and Ends the
--   writes as operations on sequences, Erase the update that outdates a record, Calls the expected
--   effect of each call and Refines that it is the effect, PushN and PopN the pushes and pops of
--   several elements with their preparations, Expire SetExpireTime, Destroy the end of a list.
-- Tests: the theorems at concrete inputs.
--
-- Numbers are natural numbers, and the wrap-around of the source's integers is written out where
-- they can wrap. Loops over the cells of a map take one more than the map's size as fuel, since each
-- round passes a cell; the laws of Test, TestAndClear and TryMerge hold of the loops with this fuel.
-- The loop of Allocate needs two rounds. The retry loops of the list take any fuel but 0, since with
-- no other thread at work the first try succeeds. Destroy takes a round for each record of the list.
--
-- A search in the free list takes one round more than there are offsets that it can come to, and
-- the loops of the merge one more than the pool has lists.
--
-- An iterator needs a round for each record and a step for each old version, and a few more.
--
-- The loop of Lookup takes a round for each entry of the bucket, and gets as many.
--
-- An operation that holds its locks is one step. Not modelled are the slot and table iterators of
-- the hash table, the sorted and hash collections, DestroyAll and the iterator of the lists, the
-- rest of the engine and its background cleaner, and files, threads and logging. The expire times of
-- list records are those that are not negative. Of the strings, the removal of old versions behind
-- a write is left out; it changes no newest version. The checksum of a record is in Record alone,
-- where get_checksum, which calls a third-party library, is a parameter.
pub mod Prelude
pub mod Space
pub mod Codec
pub mod Batch
pub mod Version
pub mod DlList
pub mod Allocator
pub mod Freelist
pub mod Dram
pub mod LockTable
pub mod Cleaner
pub mod HashTable
pub mod Transaction
pub mod StringEngine
pub mod Tests
pub mod Collection
pub mod ListCollection
pub mod Record
