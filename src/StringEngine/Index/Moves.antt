-- ===== src/StringEngine/Index/Moves.antt =====
-- The index when records of the persistent memory change that none of its entries names.
use kvdk.Prelude.{◌∙◌, ◌<◌, ◌≡◌, refl, sym, subst, ◌↔◌, ℕ, some, true, arith}
use kvdk.Codec.Bytes.{Bytes}
use kvdk.Batch.Ops.KeyedSet.{bytes_eq, bytes_eq_iff}
use kvdk.HashTable.{
  HashTable, EntryPtr, load, has_key, match_entry, PointerType, string_record, key_prefix_of,
}
use kvdk.HashTable.Outcome.{Holds}
use kvdk.StringEngine.{IndexEntry}
use kvdk.StringEngine.Index.{
  IndexSetting, setting, key_of, find_entry, IsIndex, Owns, find-same, find-at, view,
}

key-by_type :
    (s : IndexSetting) (keys keys' : ℕ → Bytes) (x : PointerType) (i : ℕ)
    → (x ≡ string_record → keys' i ≡ keys i)
    → key_of s keys' x i ≡ key_of s keys x i
key-by_type s keys keys' string_record i h = h refl
key-by_type s keys keys' PointerType.invalid i h = refl
key-by_type s keys keys' PointerType.dl_record i h = refl
key-by_type s keys keys' PointerType.skiplist_node i h = refl
key-by_type s keys keys' PointerType.skiplist i h = refl
key-by_type s keys keys' PointerType.hash_list i h = refl
key-by_type s keys keys' PointerType.hash_elem i h = refl
key-by_type s keys keys' PointerType.list_ptr i h = refl
key-by_type s keys keys' PointerType.hash_entry i h = refl
key-by_type s keys keys' PointerType.allocated i h = refl
key-by_type s keys keys' PointerType.empty i h = refl

module _ (s : IndexSetting) (m : ℕ) (keys keys' : ℕ → Bytes) (t : HashTable)
    (h : IsIndex s m keys t)
    (stable : (j : Bytes) (d : IndexEntry)
      → find_entry s m keys t j ≡ some d
      → keys' d.index ≡ keys d.index) where
  string-match :
      (q : EntryPtr)
      → q.at < t.hash_bucket_entries q.bucket
      → (load t q).index_type ≡ string_record
      → match_entry (setting s keys) (keys (load t q).index) m (load t q) ≡ true
  unfolding match_entry has_key
  string-match q r is_string =
      let k = keys (load t q).index in
      let a = h.prefixed q r (rw is_string refl) in
      let a' : key_prefix_of (setting s keys) k ≡ (load t q).key_prefix =
        subst
          (λ (x : PointerType).
            key_prefix_of (setting s keys) (key_of s keys x (load t q).index)
            ≡ (load t q).key_prefix)
          is_string a in
      let b = h.typed q r is_string in
      let c : bytes_eq k k ≡ true = (bytes_eq_iff k k).1 refl in rw (is_string, b, c) (ground arith)

  key-same :
      (q : EntryPtr)
      → q.at < t.hash_bucket_entries q.bucket
      → key_of s keys' (load t q).index_type (load t q).index
        ≡ key_of s keys (load t q).index_type (load t q).index
  key-same q r = key-by_type s keys keys' (load t q).index_type (load t q).index (λ e.
      stable (keys (load t q).index) (view (load t q) q)
        (find-at s m keys t h.table h.once (keys (load t q).index) q (r, string-match q r e)))

  match-same :
      (j : Bytes) (n : ℕ) (q : EntryPtr)
      → q.at < t.hash_bucket_entries q.bucket
      → match_entry (setting s keys') j n (load t q) ≡ match_entry (setting s keys) j n (load t q)
  unfolding match_entry
  match-same j n q r = rw (key-same q r) refl

  pub Holds-moved :
      (j : Bytes) (n : ℕ) (q : EntryPtr)
      → Holds (setting s keys') t j n q ↔ Holds (setting s keys) t j n q
  Holds-moved j n q =
      (λ v. (v.0, sym (match-same j n q v.0) ∙ v.1), λ v. (v.0, match-same j n q v.0 ∙ v.1))

  pub IsIndex-moved : IsIndex s m keys' t
  IsIndex-moved = record {
    table = record {
      sited = λ k n p w. h.table.sited k n p ((Holds-moved k n p).0 w);
      cached = h.table.cached;
    };
    once = λ k p q a b. h.once k p q ((Holds-moved k m p).0 a) ((Holds-moved k m q).0 b);
    prefixed = λ q r live. rw (key-same q r) (h.prefixed q r live);
    typed = h.typed;
  }

  pub find-moved :
      IsIndex s m keys' t × ((j : Bytes) → find_entry s m keys' t j ≡ find_entry s m keys t j)
  find-moved = (
    IsIndex-moved,
    λ j.
        find-same s m keys keys' t t j h.table IsIndex-moved.table IsIndex-moved.once
          (Holds-moved j m) (λ q v. refl),
  )

  pub Owns-moved : (k : Bytes) (p : EntryPtr) → Owns s m keys t k p → Owns s m keys' t k p
  Owns-moved k p o = record {
    in_range = o.in_range;
    of_bucket = o.of_bucket;
    only = λ q v. o.only q ((Holds-moved k m q).0 v);
    mine = λ j v. o.mine j ((Holds-moved j m p).0 v);
  }
