-- ===== src/StringEngine/Index/Reserves.antt =====
-- What Lookup does to the index.
use Prim.Native.Nat.{bit_and}
use kvdk.Prelude.{
  not_both, ◌∙◌, ◌<◌, ◌≡◌, refl, sym, subst, inl, inr, ◌↔◌, ℕ, Option, none, some, Bool, true,
  false, ◌==◌,
}
use kvdk.Codec.Bytes.{Bytes}
use kvdk.HashTable.{
  HashTable, HashEntry, EntryPtr, load, has_key, bucket_of, LookupStatus, LookupResult, lookup,
  string_record, key_prefix_of,
}
use kvdk.HashTable.Lookup.{lookup-Outcome}
use kvdk.HashTable.Outcome.{Holds, IsTable, Outcome}
use kvdk.HashTable.Holds.{
  ptr-cases, Found-load, Found-Holds, Found-IsTable, Taken-in_range, Taken-in_old, Taken-Holds,
  Taken-IsTable, Taken-unmatched, Absent-all,
}
use kvdk.StringEngine.Index.{
  IndexSetting, setting, key_of, find_entry, reserve_entry, touch_index, reserved, IsIndex, Owns,
  find-same, match-has_key, match-key,
}

module _ (s : IndexSetting) (m : ℕ) (keys : ℕ → Bytes) where
  -- A table in order that holds what another holds; each entry with a key is one of the other.
  record Kept (t y : HashTable) : Type 0 where
    pub table : IsTable (setting s keys) y
    pub same :
        (j : Bytes) (q : EntryPtr) → Holds (setting s keys) y j m q ↔ Holds (setting s keys) t j m q
    pub older :
        (q : EntryPtr)
        → q.at < y.hash_bucket_entries q.bucket
        → has_key (load y q).index_type ≡ true
        → (q.at < t.hash_bucket_entries q.bucket) × (load y q ≡ load t q)

  Kept-IsIndex : (t y : HashTable) → Kept t y → IsIndex s m keys t → IsIndex s m keys y
  unfolding has_key
  Kept-IsIndex t y w h = record {
    table = w.table;
    once = λ k p q a b. h.once k p q ((w.same k p).0 a) ((w.same k q).0 b);
    prefixed = λ q r live.
        let (v, e) = w.older q r live in
        subst
          (λ (x : HashEntry).
            key_prefix_of (setting s keys) (key_of s keys x.index_type x.index) ≡ x.key_prefix)
          (sym e) (h.prefixed q v (subst (λ (x : HashEntry). has_key x.index_type ≡ true) e live));
    typed = λ q r is_string.
        let (v, e) = w.older q r (rw is_string refl) in
        subst (λ (x : HashEntry). (bit_and m x.record_type == 0) ≡ false) (sym e)
          (h.typed q v (subst (λ (x : HashEntry). x.index_type ≡ string_record) e is_string));
  }

  Kept-find :
      (t y : HashTable)
      → Kept t y
      → IsIndex s m keys t
      → (j : Bytes) → find_entry s m keys y j ≡ find_entry s m keys t j
  Kept-find t y w h j =
      find-same s m keys keys t y j h.table w.table (Kept-IsIndex t y w h).once (w.same j) (λ q v.
        let u = (w.same j q).1 v in (w.older q u.0 (match-has_key s m keys j (load y q) u.1)).1)

  -- What `reserve_entry` promises of its result.
  abbrev Reserved : HashTable → Bytes → Option (HashTable × EntryPtr) → Type 0
  Reserved t k none = Unit {0}
  Reserved t k (some (y, p)) =
      IsIndex s m keys y
      × Owns s m keys y k p
      × ((j : Bytes) → find_entry s m keys y j ≡ find_entry s m keys t j)

  Outcome-Reserved :
      (room : Bool) (t : HashTable) (k : Bytes) (x : HashTable × LookupResult) (o : LookupStatus)
      → IsIndex s m keys t
      → x.1.status ≡ o
      → Outcome (setting s keys) true room t k m x.0 x.1 o
      → Reserved t k (reserved x)
  unfolding reserved has_key
  Outcome-Reserved room t k x LookupStatus.memory_overflow h e o = simp (reserved, e) tt
  Outcome-Reserved room t k x LookupStatus.ok h e (p, f) =
      let env = setting s keys in
      let kept : Kept t x.0 = record {
        table = Found-IsTable env t k m x.0 x.1 p f h.table;
        same = λ j q. Found-Holds env t k m x.0 x.1 p f j m q;
        older = λ q r live. (
          subst (λ (n : ℕ → ℕ). q.at < n q.bucket) f.entries_same r,
          Found-load env t k m x.0 x.1 p f q,
        );
      } in
      let here = (kept.same k p).1 f.holds in
      let own : Owns s m keys x.0 k p = record {
        in_range = here.0;
        of_bucket = h.table.sited k m p f.holds;
        only = λ q v. h.once k q p ((kept.same k q).0 v) f.holds;
        mine = λ j v.
            match-key s m keys j (load x.0 p) v.1 ∙ sym (match-key s m keys k (load x.0 p) here.1);
      } in
      let done : Reserved t k (some (x.0, p)) =
        (Kept-IsIndex t x.0 kept h, own, Kept-find t x.0 kept h) in
      simp (reserved, e, f.entry_ptr) done
  Outcome-Reserved room t k x LookupStatus.not_found h e (a, p, c, w) =
      let env = setting s keys in
      let kept : Kept t x.0 = record {
        table = Taken-IsTable env room t x.0 (bucket_of env k) p w h.table;
        same = λ j q. Taken-Holds env room t x.0 (bucket_of env k) p w j m q;
        older = λ q r live. elim (ptr-cases q p) [
          | inl z ↦ absurd (
              not_both (rw w.marked refl)
                (subst (λ (o : EntryPtr). has_key (load x.0 o).index_type ≡ true) z live))
          | inr z ↦ (Taken-in_old env room t x.0 (bucket_of env k) p w q z r, w.rest_same q z)
        ];
      } in
      let own : Owns s m keys x.0 k p = record {
        in_range = Taken-in_range env room t x.0 (bucket_of env k) p w;
        of_bucket = w.of_bucket;
        only = λ q v. absurd (Absent-all env t k m h.table a q ((kept.same k q).0 v));
        mine =
            λ j v. absurd (not_both (Taken-unmatched env room t x.0 (bucket_of env k) p w j m) v.1);
      } in
      let done : Reserved t k (some (x.0, p)) =
        (Kept-IsIndex t x.0 kept h, own, Kept-find t x.0 kept h) in
      simp (reserved, e, c) done

  pub reserve-Owns :
      (t : HashTable) (k : Bytes) (y : HashTable) (p : EntryPtr)
      → IsIndex s m keys t
      → reserve_entry s m keys t k ≡ some (y, p)
      → IsIndex s m keys y
        × Owns s m keys y k p
        × ((j : Bytes) → find_entry s m keys y j ≡ find_entry s m keys t j)
  unfolding reserve_entry
  reserve-Owns t k y p h e =
      let x = lookup (setting s keys) true (s.room t) t k m in
      subst (Reserved t k) e (
        Outcome-Reserved (s.room t) t k x x.1.status h refl
          (lookup-Outcome (setting s keys) (s.room t) t k m true h.table))

  Outcome-Kept :
      (room : Bool) (t : HashTable) (k : Bytes) (x : HashTable × LookupResult) (o : LookupStatus)
      → IsIndex s m keys t
      → Outcome (setting s keys) false room t k m x.0 x.1 o
      → Kept t x.0
  Outcome-Kept room t k x LookupStatus.ok h (p, f) =
      let env = setting s keys in
      record {
        table = Found-IsTable env t k m x.0 x.1 p f h.table;
        same = λ j q. Found-Holds env t k m x.0 x.1 p f j m q;
        older = λ q r live. (
          subst (λ (n : ℕ → ℕ). q.at < n q.bucket) f.entries_same r,
          Found-load env t k m x.0 x.1 p f q,
        );
      }
  Outcome-Kept room t k x LookupStatus.not_found h o =
      subst (Kept t) (sym o.1)
        record { table = h.table; same = λ j q. (λ v. v, λ v. v); older = λ q r live. (r, refl) }
  Outcome-Kept room t k x LookupStatus.memory_overflow h o =
      let z = o.2 in let y : ⊥ = cc in absurd y

  pub find-touch :
      (t : HashTable) (k : Bytes)
      → IsIndex s m keys t
      → IsIndex s m keys (touch_index s m keys t k)
        × ((j : Bytes) → find_entry s m keys (touch_index s m keys t k) j ≡ find_entry s m keys t j)
  unfolding touch_index
  find-touch t k h =
      let x = lookup (setting s keys) false (s.room t) t k m in
      let kept =
        Outcome-Kept (s.room t) t k x x.1.status h
          (lookup-Outcome (setting s keys) (s.room t) t k m false h.table) in
      (Kept-IsIndex t x.0 kept h, Kept-find t x.0 kept h)
