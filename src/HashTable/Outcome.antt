-- ===== src/HashTable/Outcome.antt =====
-- The words in which the results of Lookup are stated.
use kvdk.Prelude.{
  ◌%◌, ◌+◌, ◌<◌, ◌≡◌, ◌⊎◌, ◌≢◌, ℕ, some, Bool, true, false, not, ◌&&◌, ◌==◌, ltb, update,
}
use kvdk.Codec.Bytes.{Bytes}
use kvdk.HashTable.{
  num_entry_per_bucket, allocated, HashTable, EntryPtr, Setting, load, is_empty, match_entry,
  bucket_of, LookupStatus, LookupResult,
}

-- An entry of the table that matches a key and a mask.
abbrev pub Holds : Setting → HashTable → Bytes → ℕ → EntryPtr → Type 0
Holds env t k m p =
    (p.at < t.hash_bucket_entries p.bucket) × (match_entry env k m (load t p) ≡ true)

-- Entries match only keys of their bucket, and a cached entry is one of the table.
pub record IsTable (env : Setting) (t : HashTable) : Type 0 where
  pub sited : (k : Bytes) (m : ℕ) (p : EntryPtr) → Holds env t k m p → p.bucket ≡ bucket_of env k
  pub cached :
      (i : ℕ) (p : EntryPtr) → t.hash_cache i ≡ some p → p.at < t.hash_bucket_entries p.bucket

-- No entry of the key's bucket matches.
abbrev pub Absent : Setting → HashTable → Bytes → ℕ → Type 0
Absent env t k m = (p : EntryPtr) → p.bucket ≡ bucket_of env k → ¬ Holds env t k m p

abbrev pub NoEmpty : HashTable → ℕ → Type 0
NoEmpty t b = (i : ℕ) → i < t.hash_bucket_entries b → is_empty (t.cells b i) ≡ false

-- Another entry needs another HashBucket, and there is none.
abbrev pub no_room : Bool → ℕ → Bool
no_room room count = (ltb 0 count && (count % num_entry_per_bucket == 0)) && not room

-- The entry that is set aside for an insertion: an empty one, or else a new one at the end.
abbrev pub Chosen : (room : Bool) → HashTable → HashTable → ℕ → EntryPtr → Type 0
Chosen room t t' b p =
    ((t'.hash_bucket_entries ≡ t.hash_bucket_entries)
      × (p.at < t.hash_bucket_entries b)
      × (is_empty (load t p) ≡ true))
    ⊎ (NoEmpty t b
        × (no_room room (t.hash_bucket_entries b) ≡ false)
        × (p.at ≡ t.hash_bucket_entries b)
        × (t'.hash_bucket_entries ≡ update t.hash_bucket_entries b (p.at + 1)))

pub record Taken (room : Bool) (t t' : HashTable) (b : ℕ) (p : EntryPtr) : Type 0 where
  pub of_bucket : p.bucket ≡ b
  pub chosen : Chosen room t t' b p
  pub marked : (load t' p).index_type ≡ allocated
  pub rest_same : (q : EntryPtr) → q ≢ p → load t' q ≡ load t q
  pub cache_same : t'.hash_cache ≡ t.hash_cache

-- The entry that was found and its place; the table is as it was but for the cache.
pub record Found (env : Setting) (t : HashTable) (k : Bytes) (m : ℕ) (t' : HashTable)
    (r : LookupResult) (p : EntryPtr) : Type 0 where
  pub holds : Holds env t k m p
  pub entry : r.entry ≡ load t p
  pub entry_ptr : r.entry_ptr ≡ some p
  pub cells_same : t'.cells ≡ t.cells
  pub entries_same : t'.hash_bucket_entries ≡ t.hash_bucket_entries
  pub cache_grows :
      (i : ℕ) (q : EntryPtr) → t'.hash_cache i ≡ some q → (q ≡ p) ⊎ (t.hash_cache i ≡ some q)

-- What a call of Lookup comes to, for each status.
abbrev pub Outcome :
    Setting
    → (may_insert room : Bool) → HashTable
    → Bytes
    → ℕ
    → HashTable
    → LookupResult
    → LookupStatus
    → Type 0
Outcome env may_insert room t k m t' r LookupStatus.ok = (p : EntryPtr) × Found env t k m t' r p
Outcome env false room t k m t' r LookupStatus.not_found = Absent env t k m × (t' ≡ t)
Outcome env true room t k m t' r LookupStatus.not_found =
    Absent env t k m × (p : EntryPtr) × (r.entry_ptr ≡ some p) × Taken room t t' (bucket_of env k) p
Outcome env may_insert room t k m t' r LookupStatus.memory_overflow =
    Absent env t k m
    × NoEmpty t (bucket_of env k)
    × (may_insert ≡ true)
    × (no_room room (t.hash_bucket_entries (bucket_of env k)) ≡ true)
    × (t' ≡ t)
