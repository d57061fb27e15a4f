-- ===== src/StringEngine/Interface.antt =====
-- What the calls on strings use of the hash table, of lookupKey in engine/kv_engine.cpp.
use kvdk.Prelude.{◌≡◌, ℕ, Option, some, if◌then◌else◌}
use kvdk.Codec.Bytes.{Bytes}
use kvdk.DlList.{RecordStatus}
use kvdk.HashTable.{EntryPtr}
use kvdk.Batch.Ops.KeyedSet.{bytes_eq}

-- What a hash entry says of a key, and where it stands.
pub record IndexEntry : Type 0 where
  pub type : ℕ
  pub status : RecordStatus
  pub index : ℕ
  pub place : EntryPtr

-- RecordType::String
abbrev pub string_type : ℕ
string_type = 1

-- The hash table: what Lookup finds, given the key that stands in each record of the persistent
-- memory; the part of Lookup that may set an entry aside, which fails without memory; the table that
-- Lookup leaves otherwise; and Insert at the place of an entry. The laws are those that
-- StringEngine.Index proves of HashTable.
pub record KeyIndex : Type 1 where
  pub Table : Type 0
  pub IsIndex : (ℕ → Bytes) → Table → Type 0
  pub Owns : (ℕ → Bytes) → Table → Bytes → EntryPtr → Type 0
  pub find : (ℕ → Bytes) → Table → Bytes → Option IndexEntry
  pub reserve : (ℕ → Bytes) → Table → Bytes → Option (Table × EntryPtr)
  pub touch : (ℕ → Bytes) → Table → Bytes → Table
  pub put : Table → Bytes → IndexEntry → Table
  pub find-Owns :
      (keys : ℕ → Bytes) (x : Table) (k : Bytes) (e : IndexEntry)
      → IsIndex keys x
      → find keys x k ≡ some e
      → Owns keys x k e.place
  pub reserve-Owns :
      (keys : ℕ → Bytes) (x : Table) (k : Bytes) (y : Table) (p : EntryPtr)
      → IsIndex keys x
      → reserve keys x k ≡ some (y, p)
      → IsIndex keys y × Owns keys y k p × ((j : Bytes) → find keys y j ≡ find keys x j)
  pub find-touch :
      (keys : ℕ → Bytes) (x : Table) (k : Bytes)
      → IsIndex keys x
      → IsIndex keys (touch keys x k) × ((j : Bytes) → find keys (touch keys x k) j ≡ find keys x j)
  pub find-moved :
      (keys keys' : ℕ → Bytes) (x : Table)
      → IsIndex keys x
      → ((j : Bytes) (d : IndexEntry) → find keys x j ≡ some d → keys' d.index ≡ keys d.index)
      → IsIndex keys' x × ((j : Bytes) → find keys' x j ≡ find keys x j)
  pub find-put :
      (keys keys' : ℕ → Bytes) (x : Table) (k : Bytes) (e : IndexEntry)
      → IsIndex keys x
      → Owns keys x k e.place
      → e.type ≡ string_type
      → keys' e.index ≡ k
      → ((j : Bytes) (d : IndexEntry) → find keys x j ≡ some d → keys' d.index ≡ keys d.index)
      → IsIndex keys' (put x k e)
        × ((j : Bytes)
            → find keys' (put x k e) j ≡ (if bytes_eq k j then some e else find keys x j))
