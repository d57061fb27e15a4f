-- ===== src/HashTable.antt =====
-- engine/hash_table.hpp and hash_table.cpp: the hash table that indexes every record. A cell of a
-- bucket's chain is named by its number along the chain: hash_entries[p] of the n-th HashBucket is
-- cell 7 * n + p. A pointer to an entry is its bucket and its cell. Cells behind
-- hash_bucket_entries_ hold whatever the memory holds. A call runs under its slot's lock, as one
-- step.
pub mod Walk
pub mod Outcome
pub mod Allocate
pub mod Lookup
pub mod Holds
pub mod Insert
pub mod Unique
pub mod Overflow
use Prim.Native.Nat.{bit_and}
use kvdk.Prelude.{
  ◌+◌, ◌-◌, ◌*◌, ◌/◌, ◌%◌, ◌^◌, ℕ, zero, suc, Option, none, some, Bool, true, false, not, ◌&&◌,
  ◌||◌, ◌==◌, ltb, if◌then◌else◌, update,
}
use kvdk.Codec.Bytes.{Bytes}
use kvdk.DlList.{RecordStatus, normal}
use kvdk.Batch.Ops.KeyedSet.{bytes_eq}

pub data PointerType : Type 0 where
  invalid string_record dl_record skiplist_node skiplist hash_list hash_elem list_ptr hash_entry
        allocated empty :
      PointerType

pub record HashEntry : Type 0 where
  pub index : ℕ
  pub key_prefix : ℕ
  pub record_type : ℕ
  pub record_status : RecordStatus
  pub index_type : PointerType

-- `HashEntry entry{}`
abbrev pub blank : HashEntry
blank = record {
  index = 0;
  key_prefix = 0;
  record_type = 0;
  record_status = normal;
  index_type = invalid;
}

unfoldable pub is_empty : HashEntry → Bool
is_empty e = elim e.index_type [ empty ↦ true | _ ↦ false ]

unfoldable pub clear_entry : HashEntry → HashEntry
clear_entry e = record e { index_type = empty }

unfoldable pub mark_as_allocated : HashEntry → HashEntry
mark_as_allocated e = record e { index_type = allocated }

-- The pointer types of which Match reads a key or a collection's name.
unfoldable pub has_key : PointerType → Bool
has_key t = elim t [
  | invalid ↦ false
  | hash_entry ↦ false
  | allocated ↦ false
  | empty ↦ false
  | _ ↦ true
]

-- What a table is made with: its sizes, hash_str, and the key or the name that stands where an
-- index points.
pub record Setting : Type 0 where
  pub num_hash_buckets : ℕ
  pub num_buckets_per_slot : ℕ
  pub hash_str : Bytes → ℕ
  pub key_at : PointerType → ℕ → Bytes

pub record EntryPtr : Type 0 where
  pub bucket : ℕ
  pub at : ℕ

pub record HashTable : Type 0 where
  pub hash_bucket_entries : ℕ → ℕ
  pub cells : ℕ → ℕ → HashEntry
  pub hash_cache : ℕ → Option EntryPtr

pub data LookupStatus : Type 0 where
  ok not_found memory_overflow : LookupStatus

pub record LookupResult : Type 0 where
  pub status : LookupStatus
  pub entry : HashEntry
  pub entry_ptr : Option EntryPtr

-- kNumEntryPerBucket
abbrev pub num_entry_per_bucket : ℕ
num_entry_per_bucket = (128 - 8) / 16

unfoldable pub load : HashTable → EntryPtr → HashEntry
load t p = t.cells p.bucket p.at

unfoldable pub store : HashTable → EntryPtr → HashEntry → HashTable
store t p e = record t { cells = λ b i. if (b == p.bucket) && (i == p.at) then e else t.cells b i }

-- HashBucketIterator. `node` is the number of the HashBucket that bucket_ptr_ points to.
pub record BucketIterator : Type 0 where
  pub bucket_idx : ℕ
  pub entry_idx : ℕ
  pub node : ℕ

unfoldable pub bucket_begin : ℕ → BucketIterator
bucket_begin b = record { bucket_idx = b; entry_idx = 0; node = 0 }

unfoldable pub iter_valid : HashTable → BucketIterator → Bool
iter_valid t it = ltb it.entry_idx (t.hash_bucket_entries it.bucket_idx)

unfoldable pub iter_ptr : BucketIterator → EntryPtr
iter_ptr it = record {
  bucket = it.bucket_idx;
  at = num_entry_per_bucket * it.node + it.entry_idx % num_entry_per_bucket;
}

unfoldable pub iter_next : HashTable → BucketIterator → BucketIterator
unfolding iter_valid
iter_next t it =
    if iter_valid t it
    then (let it' : BucketIterator = record it { entry_idx = it.entry_idx + 1 } in
        if (it'.entry_idx % num_entry_per_bucket == 0) && iter_valid t it'
        then record it' { node = it.node + 1 }
        else it')
    else it

-- What the loop of Lookup ends with: the entry it matched, the last empty one, the iterator, and
-- the last entry it read.
pub record Scan : Type 0 where
  pub matched : Bool
  pub empty_entry : Option EntryPtr
  pub iter : BucketIterator
  pub read : HashEntry
  pub read_ptr : Option EntryPtr

-- allocateEntry, where `room` says whether the DRAM allocator has a block for another HashBucket.
unfoldable pub allocate_entry :
    (room : Bool) → HashTable → BucketIterator → Option (HashTable × BucketIterator)
unfolding load store iter_ptr
allocate_entry room t it =
    let count = t.hash_bucket_entries it.bucket_idx in
    let chained = ltb 0 count && (count % num_entry_per_bucket == 0) in
    let it' : BucketIterator = record it {
      entry_idx = count;
      node = if chained then it.node + 1 else it.node;
    } in
    let t' : HashTable = record t {
      hash_bucket_entries = update t.hash_bucket_entries it.bucket_idx (count + 1);
    } in
    if chained && not room
    then none
    else some (store t' (iter_ptr it') (clear_entry (load t' (iter_ptr it'))), it')

-- The end of Lookup, where no entry matched.
unfoldable pub missed : (may_insert room : Bool) → HashTable → Scan → HashTable × LookupResult
missed false room t s = (t, record { status = not_found; entry = s.read; entry_ptr = s.read_ptr })
missed true room t s = elim s.empty_entry [
  | some p ↦ (
    store t p (mark_as_allocated (load t p)),
    record { status = not_found; entry = s.read; entry_ptr = some p },
  )
  | none ↦ elim (allocate_entry room t s.iter) [
    | none ↦ (t, record { status = memory_overflow; entry = s.read; entry_ptr = s.read_ptr })
    | some a ↦ (
      store a.0 (iter_ptr a.1) (mark_as_allocated (load a.0 (iter_ptr a.1))),
      record { status = not_found; entry = s.read; entry_ptr = some (iter_ptr a.1) },
    )
  ]
]

-- Insert at a position
unfoldable pub insert_at :
    HashTable
    → EntryPtr
    → (key_prefix type : ℕ) → RecordStatus
    → (index : ℕ) → PointerType
    → HashTable
insert_at t p prefix type status index index_type = store t p record {
  index = index;
  key_prefix = prefix;
  record_type = type;
  record_status = status;
  index_type = index_type;
}

module _ (env : Setting) where
  abbrev pub key_prefix_of : Bytes → ℕ
  key_prefix_of k = (env.hash_str k / 2 ^ 32) % 2 ^ 32

  abbrev pub get_bucket_num : ℕ → ℕ
  get_bucket_num v = bit_and v (env.num_hash_buckets - 1) % 2 ^ 32

  abbrev pub bucket_of : Bytes → ℕ
  bucket_of k = get_bucket_num (env.hash_str k)

  abbrev pub get_slot_num : ℕ → ℕ
  get_slot_num b = b / env.num_buckets_per_slot

  -- Match without metadata
  unfoldable pub match_entry : Bytes → (type_mask : ℕ) → HashEntry → Bool
  match_entry k m e =
      not (bit_and m e.record_type == 0)
      && (key_prefix_of k == e.key_prefix)
      && has_key e.index_type
      && bytes_eq k (env.key_at e.index_type e.index)

  -- The loop of Lookup. The fuel that Lookup gives is the number of the bucket's entries.
  unfoldable pub scan : ℕ → HashTable → Bytes → ℕ → Scan → Scan
  unfolding iter_valid iter_ptr
  scan zero t k m s = s
  scan (suc f) t k m s =
      let p = iter_ptr s.iter in
      let e = load t p in
      let hit : Scan = record s { matched = true; read = e; read_ptr = some p } in
      let rest = scan f t k m record s {
        empty_entry = if is_empty e then some p else s.empty_entry;
        iter = iter_next t s.iter;
        read = e;
        read_ptr = some p;
      } in
      if iter_valid t s.iter then (if match_entry k m e then hit else rest) else s

  unfoldable pub scan_start : HashTable → Bytes → Scan
  scan_start t k =
      let cached = t.hash_cache (get_slot_num (bucket_of k)) in
      record {
        matched = false;
        empty_entry = none;
        iter = bucket_begin (bucket_of k);
        read = elim cached [ none ↦ blank | some p ↦ load t p ];
        read_ptr = cached;
      }

  -- Lookup behind the cache
  unfoldable pub lookup_bucket :
      (may_insert room : Bool) → HashTable → Bytes → ℕ → HashTable × LookupResult
  lookup_bucket may_insert room t k m =
      let s = scan (t.hash_bucket_entries (bucket_of k)) t k m (scan_start t k) in
      if s.matched
      then (
        record t {
          hash_cache = λ i. if i == get_slot_num (bucket_of k) then s.read_ptr else t.hash_cache i;
        },
        record { status = ok; entry = s.read; entry_ptr = s.read_ptr },
      )
      else missed may_insert room t s

  unfoldable pub lookup :
      (may_insert room : Bool) → HashTable → Bytes → ℕ → HashTable × LookupResult
  lookup may_insert room t k m =
      let behind = lookup_bucket may_insert room t k m in
      elim (t.hash_cache (get_slot_num (bucket_of k))) [
        | none ↦ behind
        | some p ↦
            if match_entry k m (load t p)
            then (t, record { status = ok; entry = load t p; entry_ptr = some p })
            else behind
      ]

  -- Insert of a key
  unfoldable pub insert :
      (room : Bool)
      → HashTable
      → Bytes
      → (type : ℕ) → RecordStatus
      → (index : ℕ) → PointerType
      → HashTable × LookupResult
  insert room t k type status index index_type =
      let r = lookup true room t k type in
      elim r.1.status [
        | memory_overflow ↦ r
        | _ ↦ elim r.1.entry_ptr [
          | none ↦ r
          | some p ↦ (insert_at r.0 p (key_prefix_of k) type status index index_type, r.1)
        ]
      ]

unfoldable pub erase : HashTable → EntryPtr → HashTable
erase t p = store t p (clear_entry (load t p))
