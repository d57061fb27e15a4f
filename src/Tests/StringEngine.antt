-- ===== src/Tests/StringEngine.antt =====
-- A hash table with one key, and a memory in which each place has a version of the key.
use Prim.Native.Nat.{bit_and}
use kvdk.HashTable.{
  HashTable, EntryPtr, blank, lookup, lookup_bucket, scan, scan_start, bucket_begin, missed,
  allocate_entry, match_entry, has_key, insert_at, store, load,
}
use kvdk.StringEngine.Index.{
  IndexSetting, IsIndex, setting, find_entry, reserve_entry, put_index, touch_index, find-absent,
}
use kvdk.StringEngine.Index.Puts.{hash_index, find_entry-put_index}
use kvdk.Prelude.{
  ◌∙◌, pos, All, ℕ, ◌≤◌, ◌≡◌, refl, sym, ap, ◌⊎◌, inl, ◌≢◌, not, ◌&&◌, Option, none, some, some_inj,
  Bool, true, false, ◌==◌, if◌then◌else◌, List, [], ◌∷◌, has, arith,
}
use kvdk.Codec.Bytes.{Bytes}
use kvdk.DlList.{normal, null_offset}
use kvdk.Batch.Ops.KeyedSet.{bytes_eq}
use kvdk.StringEngine.{
  find_in, InOrder, keys_of, KeyIndex, IndexEntry, StringRecord, CallContext, Status, ok, not_found,
  get, put, delete_key, delete, string_type, State,
}
use kvdk.StringEngine.Time.{
  check_ttl-fits, check_ttl, check_is_expired, ttl_to_expire_time, IsInt64, is_due,
}
use kvdk.DlList.{SpaceEntry}
use kvdk.Batch.Ops.{WriteOp, StringOp}
use kvdk.StringEngine.BatchWrite.{prepare_all, write_all}
use kvdk.StringEngine.BatchWrite.Unpublished.{get-write_all}
use kvdk.StringEngine.Publish.{Fresh}
use kvdk.StringEngine.Writes.{stored_time}
use kvdk.StringEngine.Puts.{get-put}
use kvdk.StringEngine.Deletes.{IsTyped, get-delete_key}
use kvdk.StringEngine.Restore.{
  replace_restored, unless_failed, take_in, purge, restore_string_record, Recovery, restore_all,
  beyond_checkpoint,
}
use kvdk.StringEngine.Restore.Order.{restore_all-newest}

abbrev no_collection : ℕ → IndexEntry → Bool
no_collection now e = false

abbrev key_a : Bytes
key_a = 97 ∷ []

abbrev version : ℕ → StringRecord
version o = record {
  record_size = 64;
  timestamp = o;
  status = normal;
  old_version = null_offset;
  expired_time = pos 1000;
  key = key_a;
  value = o ∷ [];
}

-- Four buckets in two slots, and one hash for all keys.
abbrev index_setting : IndexSetting
index_setting = record {
  num_hash_buckets = 4;
  num_buckets_per_slot = 2;
  hash_str = λ k. 4294967297;
  name_at = λ t i. [];
  room = λ t. true;
}

covers : (bit_and 43 string_type == 0) ≡ false
covers = refl

-- PrimaryRecordType, and RecordType::String in recovery
abbrev key_index : KeyIndex
key_index = hash_index index_setting 43 covers

covers_string : (bit_and 1 string_type == 0) ≡ false
covers_string = refl

abbrev string_index : KeyIndex
string_index = hash_index index_setting 1 covers_string

abbrev keys : ℕ → Bytes
keys = keys_of version

abbrev no_entries : HashTable
no_entries = record { hash_bucket_entries = λ b. 0; cells = λ b i. blank; hash_cache = λ i. none }

no_entries-IsIndex : (m : ℕ) → IsIndex index_setting m keys no_entries
no_entries-IsIndex m = record {
  table = record {
    sited = λ k n p h. absurd (omega (arith, h.0));
    cached = λ i p e. absurd (none-some p e);
  };
  once = λ k p q h o. absurd (omega (arith, h.0));
  prefixed = λ q r. absurd (omega (arith, r));
  typed = λ q r. absurd (omega (arith, r));
}
  where
    none-some : (p : EntryPtr) → ◌≡◌ {A = Option EntryPtr} none (some p) → ⊥
    none-some p e = cc

no_entries-find : (m : ℕ) (j : Bytes) → find_entry index_setting m keys no_entries j ≡ none
no_entries-find m j =
    find-absent index_setting m keys no_entries (no_entries-IsIndex m).table j
      (λ p h. omega (arith, h.0))

-- The entry that is set aside for the key.
abbrev spot : EntryPtr
spot = record { bucket = 1; at = 0 }

abbrev set_aside : HashTable
set_aside = (lookup (setting index_setting keys) true true no_entries key_a 43).0

spot-reserved : reserve_entry index_setting 43 keys no_entries key_a ≡ some (set_aside, spot)
unfolding reserve_entry lookup lookup_bucket scan scan_start bucket_begin missed allocate_entry
spot-reserved = refl

abbrev at_64 : IndexEntry
at_64 = record { type = string_type; status = normal; index = 64; place = spot }

only_entry : (b : Bool) (e : IndexEntry) → (if b then some at_64 else none) ≡ some e → at_64 ≡ e
only_entry true e h = some_inj at_64 e h
only_entry false e h = absurd (none-some e h)
  where
    none-some : (e : IndexEntry) → ◌≡◌ {A = Option IndexEntry} none (some e) → ⊥
    none-some e h = cc

-- The key `a` is at offset 64.
abbrev state : State key_index no_collection
state = record { pmem = version; index = key_index.put set_aside key_a at_64 }

set_aside_lem :
    key_index.IsIndex keys set_aside
    × key_index.Owns keys set_aside key_a spot
    × ((j : Bytes) → key_index.find keys set_aside j ≡ key_index.find keys no_entries j)
set_aside_lem =
    key_index.reserve-Owns keys no_entries key_a set_aside spot (no_entries-IsIndex 43)
      spot-reserved

find_entry-put_index_example :
    IsIndex index_setting 43 keys (put_index index_setting 43 set_aside key_a at_64)
    × ((j : Bytes)
        → find_entry index_setting 43 keys (put_index index_setting 43 set_aside key_a at_64) j
          ≡ (if bytes_eq key_a j then some at_64 else find_entry index_setting 43 keys set_aside j))
find_entry-put_index_example =
    find_entry-put_index index_setting 43 covers keys keys set_aside key_a at_64 set_aside_lem.0
      set_aside_lem.1 refl refl (λ j d e. refl)

state_lem :
    InOrder key_index no_collection state
    × ((j : Bytes)
        → find_in key_index no_collection state j ≡ (if bytes_eq key_a j then some at_64 else none))
state_lem =
    let (g, own, same) = set_aside_lem in
    let (h, f) =
      key_index.find-put keys keys set_aside key_a at_64 g own refl refl (λ j d e. refl) in
    (h, λ j. f j ∙ rw (same j ∙ no_entries-find 43 j) refl)

abbrev context : CallContext
context = record {
  ttl_time = pos 50;
  update_ttl = true;
  base_time = 10;
  now = 11;
  new_ts = 200;
  space = record { offset = 128; size = 64 };
}

state-Fresh : Fresh key_index no_collection state 128
state-Fresh j e h =
    let q =
      ap (λ (x : IndexEntry). x.index)
        (only_entry (bytes_eq key_a j) e (sym (state_lem.1 j) ∙ h)) in
    λ (z : e.index ≡ 128). omega arith

state-IsTyped : (e : IndexEntry) → find_in key_index no_collection state key_a ≡ some e → IsTyped e
state-IsTyped e h = inl (
    sym (
      ap (λ (x : IndexEntry). x.type)
        (only_entry (bytes_eq key_a key_a) e (sym (state_lem.1 key_a) ∙ h))))

get-put_example :
    InOrder key_index no_collection (put key_index no_collection state context key_a (7 ∷ [])).0
    × ((((put key_index no_collection state context key_a (7 ∷ [])).1 ≢ ok)
          × ((now : ℕ) (j : Bytes)
              → get key_index no_collection
                  (put key_index no_collection state context key_a (7 ∷ [])).0
                  now
                  j
                ≡ get key_index no_collection state now j))
        ⊎ (((put key_index no_collection state context key_a (7 ∷ [])).1 ≡ ok)
            × ((now : ℕ) (j : Bytes)
                → get key_index no_collection
                    (put key_index no_collection state context key_a (7 ∷ [])).0
                    now
                    j
                  ≡ (if bytes_eq key_a j
                      then (if check_is_expired
                            (stored_time key_index no_collection state context
                              (find_in key_index no_collection state key_a))
                            now
                          then (not_found, [])
                          else (ok, 7 ∷ []))
                      else get key_index no_collection state now j))))
get-put_example =
    get-put key_index no_collection state context key_a (7 ∷ []) state_lem.0 state-Fresh

get-delete_key_example :
    InOrder key_index no_collection (delete_key key_index no_collection state context key_a).0
    × ((((delete_key key_index no_collection state context key_a).1 ≢ ok)
          × (get key_index no_collection
                (delete_key key_index no_collection state context key_a).0
                12
                key_a
              ≡ get key_index no_collection state 12 key_a))
        ⊎ (((delete_key key_index no_collection state context key_a).1 ≡ ok)
            × (get key_index no_collection
                  (delete_key key_index no_collection state context key_a).0
                  12
                  key_a
                ≡ (if bytes_eq key_a key_a
                    then (not_found, [])
                    else get key_index no_collection state 12 key_a))))
get-delete_key_example =
    get-delete_key key_index no_collection state context key_a 12 key_a (omega arith) state_lem.0
      state-Fresh state-IsTyped

abbrev key_b : Bytes
key_b = 98 ∷ []

fitting-ttl : check_ttl (pos 50) 10 ≡ true
unfolding check_ttl
fitting-ttl = refl

check_ttl-fits_example :
    IsInt64 (ttl_to_expire_time (pos 50) 10)
    × (check_is_expired (ttl_to_expire_time (pos 50) 10) 60 ≡ is_due (pos 50) 10 60)
check_ttl-fits_example = check_ttl-fits (pos 50) 10 60 (omega arith) (omega arith) fitting-ttl

-- Three versions of the key, the last beyond the check point.
abbrev found_records : List ℕ
found_records = 128 ∷ 64 ∷ 192 ∷ []

abbrev check_point : Option ℕ
check_point = some 150

abbrev blank_index : Recovery HashTable
blank_index = record { pmem = version; index = no_entries; purged = [] }

abbrev recovered : Recovery HashTable × Status
recovered = restore_all string_index check_point blank_index found_records

recovered-ok : recovered.1 ≡ ok
unfolding restore_all restore_string_record replace_restored beyond_checkpoint purge take_in
    unless_failed bytes_eq reserve_entry find_entry put_index touch_index insert_at store load
    lookup lookup_bucket scan scan_start bucket_begin missed allocate_entry match_entry has_key
recovered-ok = refl

restore_all-newest_example :
    string_index.IsIndex (keys_of recovered.0.pmem) recovered.0.index
    × (((string_index.find (keys_of recovered.0.pmem) recovered.0.index key_a ≡ none)
          × ((o : ℕ)
              → ¬ (
                  (has o found_records ≡ true)
                  × (beyond_checkpoint check_point (version o) ≡ false)
                  × ((version o).key ≡ key_a))))
        ⊎ ((e : IndexEntry) × (string_index.find (keys_of recovered.0.pmem) recovered.0.index key_a
              ≡ some e)
            × (has e.index found_records ≡ true)
            × ((version e.index).key ≡ key_a)
            × (beyond_checkpoint check_point (version e.index) ≡ false)
            × ((o : ℕ)
                → ((has o found_records
                      && not (beyond_checkpoint check_point (version o))
                      && bytes_eq (version o).key key_a)
                    ≡ false)
                  ⊎ ((version o).timestamp ≤ (version e.index).timestamp))))
restore_all-newest_example =
    restore_all-newest string_index check_point version blank_index found_records key_a refl
      (no_entries-IsIndex 1) (no_entries-find 1) recovered-ok

state-Fresh_other : Fresh key_index no_collection state 192
state-Fresh_other j e h =
    let q =
      ap (λ (x : IndexEntry). x.index)
        (only_entry (bytes_eq key_a j) e (sym (state_lem.1 j) ∙ h)) in
    λ (z : e.index ≡ 192). omega arith

-- One key is written and the other is deleted.
abbrev batch : List (StringOp × SpaceEntry)
batch =
    (record { op = WriteOp.put; key = key_b; value = 5 ∷ [] }, record { offset = 128; size = 64 })
    ∷ (record { op = WriteOp.delete; key = key_a; value = [] }, record { offset = 192; size = 64 })
    ∷ []

batch-Fresh :
    All (λ (o : StringOp × SpaceEntry). Fresh key_index no_collection state o.1.offset) batch
batch-Fresh =
    let second : Fresh key_index no_collection state 192 × Unit {0} = (state-Fresh_other, tt) in
    (state-Fresh, second)

abbrev written : State key_index no_collection
written =
    write_all key_index no_collection (prepare_all key_index no_collection state 11 200 batch).0
      (prepare_all key_index no_collection state 11 200 batch).1.1

get-write_all_example :
    InOrder key_index no_collection written
    × (get key_index no_collection written 12 key_a ≡ get key_index no_collection state 12 key_a)
get-write_all_example =
    get-write_all key_index no_collection state 11 200 batch 12 key_a state_lem.0 batch-Fresh
