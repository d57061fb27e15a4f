-- ===== src/StringEngine/Index/Puts.antt =====
-- Insert at the place of an entry.
use Prim.Native.Nat.{bit_and}
use kvdk.Prelude.{
  ◌∙◌, ◌<◌, ◌≡◌, refl, sym, ap, subst, inl, inr, ◌≢◌, ℕ, some, true, false, ◌==◌, if◌then◌else◌,
  arith, Bool-cases,
}
use kvdk.Codec.Bytes.{Bytes}
use kvdk.Batch.Ops.KeyedSet.{bytes_eq, bytes_eq_iff}
use kvdk.HashTable.{
  HashTable, HashEntry, EntryPtr, load, store, has_key, match_entry, insert_at, bucket_of,
  string_record, key_prefix_of,
}
use kvdk.HashTable.Allocate.{load-store, load-store_ne}
use kvdk.HashTable.Outcome.{Holds}
use kvdk.HashTable.Holds.{ptr-cases}
use kvdk.HashTable.Insert.{Stored, store-entries, store→, store←, store-IsTable}
use kvdk.StringEngine.{KeyIndex, IndexEntry, string_type}
use kvdk.StringEngine.Index.{
  IndexSetting, setting, key_of, find_entry, reserve_entry, touch_index, put_index, IsIndex, Owns,
  find-Owns, find-same, find-at, view,
}
use kvdk.StringEngine.Index.Moves.{find-moved, Owns-moved}
use kvdk.StringEngine.Index.Reserves.{reserve-Owns, find-touch}

module _ (s : IndexSetting) (m : ℕ) (covers : (bit_and m string_type == 0) ≡ false) where
  module _ (keys : ℕ → Bytes) (t : HashTable) (k : Bytes) (e : IndexEntry) (h : IsIndex s m keys t)
      (own : Owns s m keys t k e.place) (is_string : e.type ≡ string_type)
      (keyed : keys e.index ≡ k) where
    abbrev new : HashEntry
    new = record {
      index = e.index;
      key_prefix = key_prefix_of (setting s keys) k;
      record_type = e.type;
      record_status = e.status;
      index_type = string_record;
    }

    abbrev after : HashTable
    after = store t e.place new

    put-after : put_index s m t k e ≡ after
    unfolding put_index insert_at
    put-after = refl

    new-key : (j : Bytes) (n : ℕ) → match_entry (setting s keys) j n new ≡ true → j ≡ k
    unfolding match_entry
    new-key j n w =
        let a : bytes_eq j (keys e.index) ≡ true = ground arith in
        (bytes_eq_iff j (keys e.index)).0 a ∙ keyed

    new-matches : match_entry (setting s keys) k m new ≡ true
    unfolding match_entry has_key
    new-matches =
        let a : bytes_eq k (keys e.index) ≡ true = (bytes_eq_iff k (keys e.index)).1 (sym keyed) in
        rw (is_string, covers, a) (ground arith)

    held-new : Holds (setting s keys) after k m e.place
    held-new =
        store← (setting s keys) t e.place new k m e.place own.in_range (inl (refl, new-matches))

    once-parts :
        (j : Bytes) (p q : EntryPtr)
        → Stored (setting s keys) t e.place new j m p
        → Stored (setting s keys) t e.place new j m q
        → p ≡ q
    once-parts j p q (inl (a, u)) (inl (b, v)) = a ∙ sym b
    once-parts j p q (inr (a, u)) (inr (b, v)) = h.once j p q u v
    once-parts j p q (inl (a, u)) (inr (b, v)) =
        absurd
          (b (own.only q (subst (λ (i : Bytes). Holds (setting s keys) t i m q) (new-key j m u) v)))
    once-parts j p q (inr (a, u)) (inl (b, v)) =
        absurd
          (a (own.only p (subst (λ (i : Bytes). Holds (setting s keys) t i m p) (new-key j m v) u)))

    old-range :
        (q : EntryPtr)
        → q.at < after.hash_bucket_entries q.bucket
        → q.at < t.hash_bucket_entries q.bucket
    old-range q r =
        subst (λ (f : ℕ → ℕ). q.at < f q.bucket) (store-entries (setting s keys) t e.place new) r

    -- A property of entries that the new one has and the others had.
    each :
        (P : HashEntry → Type 0)
        → P new
        → (q : EntryPtr) → (q ≢ e.place → P (load t q))
        → P (load after q)
    each P one q others = elim (ptr-cases q e.place) [
      | inl z ↦
          subst (λ (o : EntryPtr). P (load after o)) (sym z) (rw (load-store t e.place new) one)
      | inr n ↦ rw (load-store_ne t e.place q new n) (others n)
    ]

    after-IsIndex : IsIndex s m keys after
    after-IsIndex = record {
      table =
          store-IsTable (setting s keys) t e.place new h.table
            (λ j n w. own.of_bucket ∙ ap (bucket_of (setting s keys)) (sym (new-key j n w)));
      once = λ j p q a b.
          once-parts j p q (store→ (setting s keys) t e.place new j m p a)
            (store→ (setting s keys) t e.place new j m q b);
      prefixed = λ q r.
          each
            (λ x.
              has_key x.index_type ≡ true
              → key_prefix_of (setting s keys) (key_of s keys x.index_type x.index) ≡ x.key_prefix)
            (λ live. ap (key_prefix_of (setting s keys)) keyed) q
            (λ n. h.prefixed q (old-range q r));
      typed = λ q r.
          each (λ x. x.index_type ≡ string_record → (bit_and m x.record_type == 0) ≡ false)
            (λ z. rw is_string covers) q (λ n. h.typed q (old-range q r));
    }

    find-other : (j : Bytes) → j ≢ k → find_entry s m keys after j ≡ find_entry s m keys t j
    find-other j apart =
        find-same s m keys keys t after j h.table after-IsIndex.table after-IsIndex.once
          (λ q. (
            λ v. elim (store→ (setting s keys) t e.place new j m q v) [
              | inl (a, u) ↦ absurd (apart (new-key j m u))
              | inr (n, u) ↦ u
            ],
            λ u. store← (setting s keys) t e.place new j m q own.in_range (inr (elsewhere q u, u)),
          ))
          (λ q u. load-store_ne t e.place q new (elsewhere q u))
      where
        elsewhere : (q : EntryPtr) → Holds (setting s keys) t j m q → q ≢ e.place
        elsewhere q u z =
            apart (own.mine j (subst (λ (o : EntryPtr). Holds (setting s keys) t j m o) z u))

    find-key : find_entry s m keys after k ≡ some e
    find-key =
        find-at s m keys after after-IsIndex.table after-IsIndex.once k e.place held-new
        ∙ ap (λ (x : HashEntry). some (view x e.place)) (load-store t e.place new)

    find-after :
        (j : Bytes)
        → find_entry s m keys after j ≡ (if bytes_eq k j then some e else find_entry s m keys t j)
    find-after j = elim (Bool-cases (bytes_eq k j)) [
      | inl b ↦ rw b (
          subst (λ (i : Bytes). find_entry s m keys after i ≡ some e) ((bytes_eq_iff k j).0 b)
            find-key)
      | inr b ↦ rw b (find-other j (λ z. apart b (sym z)))
    ]
      where
        apart : bytes_eq k j ≡ false → k ≢ j
        apart b z = let a = (bytes_eq_iff k j).1 z in cc

  -- Of an index in order with a place that is the key's own: behind Insert at this place of an entry of
  -- a string, whose record has the key, the index is in order, the key finds just this entry, and
  -- every other key finds what it found before. The keys of the other records that the index names
  -- must not have changed.
  pub find_entry-put_index :
      (keys keys' : ℕ → Bytes) (t : HashTable) (k : Bytes) (e : IndexEntry)
      → IsIndex s m keys t
      → Owns s m keys t k e.place
      → e.type ≡ string_type
      → keys' e.index ≡ k
      → ((j : Bytes) (d : IndexEntry)
          → find_entry s m keys t j ≡ some d
          → keys' d.index ≡ keys d.index)
      → IsIndex s m keys' (put_index s m t k e)
        × ((j : Bytes)
            → find_entry s m keys' (put_index s m t k e) j
              ≡ (if bytes_eq k j then some e else find_entry s m keys t j))
  find_entry-put_index keys keys' t k e h own is_string keyed stable =
      let (g, same) = find-moved s m keys keys' t h stable in
      let own' = Owns-moved s m keys keys' t h stable k e.place own in
      rw (put-after keys' t k e g own' is_string keyed) (
        after-IsIndex keys' t k e g own' is_string keyed,
        λ j. rw (sym (same j)) (find-after keys' t k e g own' is_string keyed j),
      )

  -- The hash table as the index of the strings.
  abbrev pub hash_index : KeyIndex
  hash_index = record {
    Table = HashTable;
    IsIndex = IsIndex s m;
    Owns = Owns s m;
    find = find_entry s m;
    reserve = reserve_entry s m;
    touch = touch_index s m;
    put = put_index s m;
    find-Owns = find-Owns s m;
    reserve-Owns = reserve-Owns s m;
    find-touch = find-touch s m;
    find-moved = find-moved s m;
    find-put = find_entry-put_index;
  }
