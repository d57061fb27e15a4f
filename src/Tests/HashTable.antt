-- ===== src/Tests/HashTable.antt =====
-- A table with two entries in one bucket, and one with a full HashBucket.
use Prim.Native.Nat.{bit_and}
use kvdk.Prelude.{
  ◌==◌, sym, subst, Option, ◌≡◌, refl, ◌≢◌, ◌⊎◌, inl, inr, ◌↔◌, arith, none, some, true, false, [],
  ◌∷◌,
}
use kvdk.Codec.Bytes.{Bytes}
use kvdk.DlList.{normal}
use kvdk.HashTable.{
  has_key, string_record, HashTable, HashEntry, EntryPtr, Setting, blank, load, lookup, insert,
  LookupStatus,
}
use kvdk.HashTable.Outcome.{Holds, IsTable}
use kvdk.HashTable.Holds.{AtMostOne, lookup-Holds}
use kvdk.HashTable.Insert.{insert-Inserted}
use kvdk.HashTable.Unique.{lookup-insert, insert-AtMostOne}
use kvdk.HashTable.Overflow.{Full, lookup-Full}

abbrev key_a : Bytes
key_a = 97 ∷ []

-- Four buckets in two slots. The hash is the same for all keys, and every index leads to one key.
abbrev setting : Setting
setting = record {
  num_hash_buckets = 4;
  num_buckets_per_slot = 2;
  hash_str = λ k. 4294967297;
  key_at = λ t i. key_a;
}

abbrev table : HashTable
table = record { hash_bucket_entries = λ b. 0; cells = λ b i. blank; hash_cache = λ i. none }

table-IsTable : IsTable setting table
table-IsTable = record {
  sited = λ k m p h. absurd (omega (arith, h.0));
  cached = λ i p e. absurd (none-some p e);
}
  where
    none-some : (p : EntryPtr) → ◌≡◌ {A = Option EntryPtr} none (some p) → ⊥
    none-some p e = cc

abbrev filled : HashTable
filled = (insert setting true table key_a 1 normal 64 string_record).0

filled-IsTable : IsTable setting filled
filled-IsTable =
    elim (insert-Inserted setting true table key_a 1 normal 64 string_record table-IsTable refl) [
      | inl e ↦ subst (IsTable setting) (sym e.1) table-IsTable
      | inr x ↦ x.4
    ]

abbrev place : EntryPtr
place = record { bucket = 0; at = 0 }

abbrev entry : HashEntry
entry = record {
  index = 128;
  key_prefix = 1;
  record_type = 1;
  record_status = normal;
  index_type = string_record;
}

empty-AtMostOne : AtMostOne setting table 1
empty-AtMostOne k p q h o = absurd (omega (arith, h.0))

lookup-Holds_example :
    ((p : EntryPtr) × ((lookup setting true true filled key_a 1).1.status ≡ LookupStatus.ok)
      × ((lookup setting true true filled key_a 1).1.entry_ptr ≡ some p)
      × ((lookup setting true true filled key_a 1).1.entry ≡ load filled p)
      × Holds setting filled key_a 1 p)
    ⊎ (((lookup setting true true filled key_a 1).1.status ≢ LookupStatus.ok)
        × ((p : EntryPtr) → ¬ Holds setting filled key_a 1 p))
lookup-Holds_example = lookup-Holds setting true true filled key_a 1 filled-IsTable

insert-AtMostOne_example :
    AtMostOne setting (insert setting true table key_a 1 normal 128 string_record).0 1
insert-AtMostOne_example =
    insert-AtMostOne setting true table key_a 1 normal 128 string_record table-IsTable refl
      empty-AtMostOne

live : has_key string_record ≡ true
unfolding has_key
live = refl

one_bit : (bit_and 1 1 == 0) ≡ false
one_bit = refl

lookup-insert_example :
    (((insert setting true table key_a 1 normal 128 string_record).1.status
        ≡ LookupStatus.memory_overflow)
      × ((insert setting true table key_a 1 normal 128 string_record).0 ≡ table))
    ⊎ (((lookup setting false true
            (insert setting true table key_a 1 normal 128 string_record).0
            key_a
            1).1.status
          ≡ LookupStatus.ok)
        × ((lookup setting false true
              (insert setting true table key_a 1 normal 128 string_record).0
              key_a
              1).1.entry
            ≡ entry))
lookup-insert_example =
    lookup-insert setting true table key_a 1 normal 128 string_record table-IsTable refl
      empty-AtMostOne false true live one_bit

lookup-Full_example :
    ((lookup setting true false filled key_a 2).1.status ≡ LookupStatus.memory_overflow)
    ↔ Full setting true false filled key_a 2
lookup-Full_example = lookup-Full setting true false filled key_a 2 filled-IsTable
