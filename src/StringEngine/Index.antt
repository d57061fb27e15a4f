-- ===== src/StringEngine/Index.antt =====
-- The index of the strings by the hash table: HashTable with the keys that stand in the records of
-- the persistent memory, and the names of the collections as they are.
pub mod Reserves
pub mod Moves
pub mod Puts
use Prim.Native.Nat.{bit_and}
use kvdk.Prelude.{
  not_both, some_inj, ◌∙◌, ◌<◌, ◌≡◌, refl, sym, ap, subst, ◌⊎◌, inl, inr, ◌↔◌, ◌≢◌, ℕ, Option, none,
  some, Bool, true, false, ◌==◌, if◌then◌else◌, arith, Bool-cases, List, [],
}
use kvdk.Codec.Bytes.{Bytes}
use kvdk.Batch.Ops.KeyedSet.{bytes_eq, bytes_eq_iff}
use kvdk.HashTable.{
  HashTable, HashEntry, EntryPtr, Setting, load, store, match_entry, has_key, bucket_of,
  key_prefix_of, LookupStatus, LookupResult, lookup, insert_at, PointerType, string_record,
  allocated,
}
use kvdk.HashTable.Allocate.{load-store, load-store_ne}
use kvdk.HashTable.Lookup.{lookup-Outcome}
use kvdk.HashTable.Outcome.{Holds, IsTable, Found, Taken, Outcome}
use kvdk.HashTable.Holds.{
  AtMostOne, ptr-cases, keyless-unmatched, lookup-Holds, Found-load, Found-Holds, Found-IsTable,
  Taken-in_range, Taken-in_old, Taken-Holds, Taken-IsTable, Absent-all,
}
use kvdk.HashTable.Insert.{new_entry-sited, new_entry, store-entries, store→, store←, store-IsTable}
use kvdk.StringEngine.{KeyIndex, IndexEntry, string_type}

-- The sizes of the table, hash_str, the names of collections and of their elements, and whether the
-- DRAM allocator has another HashBucket for a table.
pub record IndexSetting : Type 0 where
  pub num_hash_buckets : ℕ
  pub num_buckets_per_slot : ℕ
  pub hash_str : Bytes → ℕ
  pub name_at : PointerType → ℕ → Bytes
  pub room : HashTable → Bool

abbrev pub key_of : IndexSetting → (ℕ → Bytes) → PointerType → ℕ → Bytes
key_of s keys t o = elim t [ string_record ↦ keys o | other ↦ s.name_at other o ]

abbrev pub setting : IndexSetting → (ℕ → Bytes) → Setting
setting s keys = record {
  num_hash_buckets = s.num_hash_buckets;
  num_buckets_per_slot = s.num_buckets_per_slot;
  hash_str = s.hash_str;
  key_at = key_of s keys;
}

abbrev pub view : HashEntry → EntryPtr → IndexEntry
view e p = record { type = e.record_type; status = e.record_status; index = e.index; place = p }

-- What the engine takes from the result of a lookup.
unfoldable pub found_entry : LookupResult → Option IndexEntry
found_entry r = elim r.status [
  | LookupStatus.ok ↦ elim r.entry_ptr [ none ↦ none | some p ↦ some (view r.entry p) ]
  | _ ↦ none
]

unfoldable pub reserved : HashTable × LookupResult → Option (HashTable × EntryPtr)
reserved x = elim x.1.status [
  | LookupStatus.memory_overflow ↦ none
  | _ ↦ elim x.1.entry_ptr [ none ↦ none | some p ↦ some (x.0, p) ]
]

module _ (s : IndexSetting) (m : ℕ) where
  unfoldable pub find_entry : (ℕ → Bytes) → HashTable → Bytes → Option IndexEntry
  unfolding found_entry
  find_entry keys t k = found_entry (lookup (setting s keys) false (s.room t) t k m).1

  -- The table behind a lookup that does not insert, which may move the cache.
  unfoldable pub touch_index : (ℕ → Bytes) → HashTable → Bytes → HashTable
  touch_index keys t k = (lookup (setting s keys) false (s.room t) t k m).0

  unfoldable pub reserve_entry : (ℕ → Bytes) → HashTable → Bytes → Option (HashTable × EntryPtr)
  unfolding reserved
  reserve_entry keys t k = reserved (lookup (setting s keys) true (s.room t) t k m)

  unfoldable pub put_index : HashTable → Bytes → IndexEntry → HashTable
  put_index t k e =
      insert_at t e.place (key_prefix_of (setting s (λ o. [])) k) e.type e.status e.index
        string_record

  -- A table in order with one entry for each key, in which each entry has the prefix of its key and
  -- the mask takes in the records of strings.
  pub record IsIndex (keys : ℕ → Bytes) (t : HashTable) : Type 0 where
    pub table : IsTable (setting s keys) t
    pub once : AtMostOne (setting s keys) t m
    pub prefixed :
        (q : EntryPtr)
        → q.at < t.hash_bucket_entries q.bucket
        → has_key (load t q).index_type ≡ true
        → key_prefix_of (setting s keys) (key_of s keys (load t q).index_type (load t q).index)
          ≡ (load t q).key_prefix
    pub typed :
        (q : EntryPtr)
        → q.at < t.hash_bucket_entries q.bucket
        → (load t q).index_type ≡ string_record
        → (bit_and m (load t q).record_type == 0) ≡ false

  -- The place of a key: nothing else stands there, and the key nowhere else.
  pub record Owns (keys : ℕ → Bytes) (t : HashTable) (k : Bytes) (p : EntryPtr) : Type 0 where
    pub in_range : p.at < t.hash_bucket_entries p.bucket
    pub of_bucket : p.bucket ≡ bucket_of (setting s keys) k
    pub only : (q : EntryPtr) → Holds (setting s keys) t k m q → q ≡ p
    pub mine : (j : Bytes) → Holds (setting s keys) t j m p → j ≡ k

  found-none :
      (r : LookupResult) (o : LookupStatus)
      → r.status ≡ o
      → o ≢ LookupStatus.ok
      → found_entry r ≡ none
  unfolding found_entry
  found-none r LookupStatus.ok e n = absurd (n refl)
  found-none r LookupStatus.not_found e n = simp (found_entry, e) refl
  found-none r LookupStatus.memory_overflow e n = simp (found_entry, e) refl

  module _ (keys : ℕ → Bytes) where
    abbrev env : Setting
    env = setting s keys

    pub match-has_key :
        (k : Bytes) (e : HashEntry) → match_entry env k m e ≡ true → has_key e.index_type ≡ true
    unfolding match_entry
    match-has_key k e h = ground arith

    pub match-key :
        (k : Bytes) (e : HashEntry)
        → match_entry env k m e ≡ true
        → k ≡ key_of s keys e.index_type e.index
    unfolding match_entry
    match-key k e h = (bytes_eq_iff k (key_of s keys e.index_type e.index)).0 (ground arith)

    module _ (t : HashTable) (h : IsTable env t) where
      pub find-cases :
          (k : Bytes)
          → ((p : EntryPtr) × Holds env t k m p × (find_entry keys t k ≡ some (view (load t p) p)))
            ⊎ ((find_entry keys t k ≡ none) × ((p : EntryPtr) → ¬ Holds env t k m p))
      unfolding find_entry
      find-cases k = elim (lookup-Holds env false (s.room t) t k m h) [
        | inl (p, o, c, e, w) ↦ inl (p, w, simp (found_entry, o, c, e) refl)
        | inr (n, a) ↦ inr (found-none (lookup env false (s.room t) t k m).1 _ refl n, a)
      ]

      pub find-absent :
          (k : Bytes) → ((p : EntryPtr) → ¬ Holds env t k m p) → find_entry keys t k ≡ none
      find-absent k a = elim (find-cases k) [ inl (p, w, e) ↦ absurd (a p w) | inr (e, n) ↦ e ]

      pub find-at :
          AtMostOne env t m
          → (k : Bytes) (p : EntryPtr) → Holds env t k m p
          → find_entry keys t k ≡ some (view (load t p) p)
      find-at once k p w = elim (find-cases k) [
        | inl (q, v, e) ↦ e ∙ ap (λ (o : EntryPtr). some (view (load t o) o)) (once k q p v w)
        | inr (e, n) ↦ absurd (n p w)
      ]

  -- Tables that hold the same entries for a key find the same.
  pub find-same :
      (keys keys' : ℕ → Bytes) (t t' : HashTable) (k : Bytes)
      → IsTable (setting s keys) t
      → IsTable (setting s keys') t'
      → AtMostOne (setting s keys') t' m
      → ((q : EntryPtr) → Holds (setting s keys') t' k m q ↔ Holds (setting s keys) t k m q)
      → ((q : EntryPtr) → Holds (setting s keys) t k m q → load t' q ≡ load t q)
      → find_entry keys' t' k ≡ find_entry keys t k
  find-same keys keys' t t' k h h' once same loads = elim (find-cases keys t h k) [
    | inl (p, w, e) ↦
        find-at keys' t' h' once k p ((same p).1 w)
        ∙ ap (λ (x : HashEntry). some (view x p)) (loads p w)
        ∙ sym e
    | inr (e, n) ↦ find-absent keys' t' h' k (λ p w. n p ((same p).0 w)) ∙ sym e
  ]

  pub find-Owns :
      (keys : ℕ → Bytes) (t : HashTable) (k : Bytes) (e : IndexEntry)
      → IsIndex keys t
      → find_entry keys t k ≡ some e
      → Owns keys t k e.place
  find-Owns keys t k e h f = elim (find-cases keys t h.table k) [
    | inr (n, a) ↦ let z : ⊥ = cc in absurd z
    | inl (p, w, g) ↦
        let same : p ≡ e.place =
          ap (λ (x : IndexEntry). x.place) (some_inj (view (load t p) p) e (sym g ∙ f)) in
        subst (Owns keys t k) same record {
          in_range = w.0;
          of_bucket = h.table.sited k m p w;
          only = λ q v. h.once k q p v w;
          mine = λ j v. match-key keys j (load t p) v.1 ∙ sym (match-key keys k (load t p) w.1);
        }
  ]
