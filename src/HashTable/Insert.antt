-- ===== src/HashTable/Insert.antt =====
-- Insert and Erase as operations on the set of entries that match a key.
use kvdk.Prelude.{
  not_both, ◌<◌, ◌≡◌, refl, sym, subst, ◌⊎◌, inl, inr, ◌↔◌, ◌≢◌, ℕ, Option, none, some, Bool, true,
  arith, ◌∙◌,
}
use kvdk.Codec.Bytes.{Bytes}
use kvdk.Batch.Ops.KeyedSet.{bytes_eq, bytes_eq_iff}
use kvdk.DlList.{RecordStatus}
use kvdk.HashTable.{
  HashTable, HashEntry, EntryPtr, Setting, load, store, match_entry, clear_entry, has_key,
  bucket_of, key_prefix_of, LookupStatus, LookupResult, lookup, insert_at, insert, erase,
  PointerType,
}
use kvdk.HashTable.Allocate.{load-store, load-store_ne}
use kvdk.HashTable.Lookup.{lookup-Outcome}
use kvdk.HashTable.Outcome.{Holds, IsTable, Outcome}
use kvdk.HashTable.Holds.{
  Found-Holds, Found-IsTable, Taken-IsTable, Taken-Holds, Taken-in_range, Absent-all, ptr-cases,
  keyless-unmatched,
}

-- What matches after a store.
abbrev pub Stored : Setting → HashTable → EntryPtr → HashEntry → Bytes → ℕ → EntryPtr → Type 0
Stored env t p e k m q = ((q ≡ p) × (match_entry env k m e ≡ true)) ⊎ ((q ≢ p) × Holds env t k m q)

status-ne : ¬ (LookupStatus.ok ≡ LookupStatus.memory_overflow)
status-ne e = cc

status-ne' : ¬ (LookupStatus.not_found ≡ LookupStatus.memory_overflow)
status-ne' e = cc

module _ (env : Setting) where
  module _ (t : HashTable) (p : EntryPtr) (e : HashEntry) where
    pub store-entries : (store t p e).hash_bucket_entries ≡ t.hash_bucket_entries
    unfolding store
    store-entries = refl

    store-cache : (store t p e).hash_cache ≡ t.hash_cache
    unfolding store
    store-cache = refl

    pub store→ :
        (k : Bytes) (m : ℕ) (q : EntryPtr) → Holds env (store t p e) k m q → Stored env t p e k m q
    store→ k m q x =
        let v = subst (λ (f : ℕ → ℕ). q.at < f q.bucket) store-entries x.0 in
        elim (ptr-cases q p) [
          | inl c ↦ inl (
            c,
            rw (sym (load-store t p e))
                (subst (λ (o : EntryPtr). match_entry env k m (load (store t p e) o) ≡ true) c x.1),
          )
          | inr n ↦ inr (n, (v, rw (sym (load-store_ne t p q e n)) x.1))
        ]

    pub store← :
        (k : Bytes) (m : ℕ) (q : EntryPtr)
        → p.at < t.hash_bucket_entries p.bucket
        → Stored env t p e k m q
        → Holds env (store t p e) k m q
    store← k m q in_range (inl (c, y)) =
        (rw (store-entries, c) in_range, rw (c, load-store t p e) y)
    store← k m q in_range (inr (n, y)) = (rw store-entries y.0, rw (load-store_ne t p q e n) y.1)

    pub store-IsTable :
        IsTable env t
        → ((k : Bytes) (m : ℕ) → match_entry env k m e ≡ true → p.bucket ≡ bucket_of env k)
        → IsTable env (store t p e)
    store-IsTable h s = record {
      sited = λ k m q x. elim (store→ k m q x) [
        | inl (c, y) ↦ rw c (s k m y)
        | inr (n, y) ↦ h.sited k m q y
      ];
      cached = λ i q c.
          rw store-entries
            (h.cached i q (subst (λ (f : ℕ → Option EntryPtr). f i ≡ some q) store-cache c));
    }

  -- Erase takes the entry out of every match and changes no other.
  pub erase-Holds :
      (t : HashTable) (p : EntryPtr) (k : Bytes) (m : ℕ) (q : EntryPtr)
      → Holds env (erase t p) k m q ↔ ((q ≢ p) × Holds env t k m q)
  unfolding erase clear_entry has_key
  erase-Holds t p k m q = (
    λ x. elim (store→ t p (clear_entry (load t p)) k m q x) [
      | inl (c, y) ↦
          let u = keyless-unmatched env k m (clear_entry (load t p)) refl in absurd (not_both u y)
      | inr y ↦ y
    ],
    λ y. (
      rw (store-entries t p (clear_entry (load t p))) y.1.0,
      rw (load-store_ne t p q (clear_entry (load t p)) y.0) y.1.1,
    ),
  )

  module _ (room : Bool) (t : HashTable) (k : Bytes) (type : ℕ) (status : RecordStatus) (index : ℕ)
      (index_type : PointerType) where
    abbrev pub new_entry : HashEntry
    new_entry = record {
      index = index;
      key_prefix = key_prefix_of env k;
      record_type = type;
      record_status = status;
      index_type = index_type;
    }

    -- Insert ran out of memory, or stored the entry at a place that nothing else occupies.
    abbrev pub Inserted : HashTable × LookupResult → Type 0
    Inserted x =
        ((x.1.status ≡ LookupStatus.memory_overflow) × (x.0 ≡ t))
        ⊎ ((p : EntryPtr) × (x.1.status ≢ LookupStatus.memory_overflow)
            × (x.1.entry_ptr ≡ some p)
            × (load x.0 p ≡ new_entry)
            × IsTable env x.0
            × ((k' : Bytes) (m' : ℕ) (q : EntryPtr)
                → Holds env x.0 k' m' q ↔ (
                    ((q ≡ p) × (match_entry env k' m' new_entry ≡ true))
                    ⊎ ((q ≢ p) × Holds env t k' m' q)))
            × (((q : EntryPtr) → ¬ Holds env t k type q) ⊎ Holds env t k type p))

    abbrev store_new : HashTable × LookupResult → HashTable × LookupResult
    store_new x = elim x.1.status [
      | LookupStatus.memory_overflow ↦ x
      | _ ↦ elim x.1.entry_ptr [
        | none ↦ x
        | some p ↦ (insert_at x.0 p (key_prefix_of env k) type status index index_type, x.1)
      ]
    ]

    insert-store_new :
        insert env room t k type status index index_type ≡ store_new (lookup env true room t k type)
    unfolding insert
    insert-store_new = refl

    pub new_entry-sited :
        env.key_at index_type index ≡ k
        → (k' : Bytes) (m : ℕ) → match_entry env k' m new_entry ≡ true
        → k' ≡ k
    unfolding match_entry
    new_entry-sited e k' m h =
        (bytes_eq_iff k' k).0 (subst (λ (o : Bytes). bytes_eq k' o ≡ true) e (ground arith))

    status-cases :
        (s : LookupStatus) (x : HashTable × LookupResult) (p : EntryPtr)
        → x.1.status ≡ s
        → x.1.entry_ptr ≡ some p
        → s ≢ LookupStatus.memory_overflow
        → store_new x ≡ (store x.0 p new_entry, x.1)
    unfolding insert_at
    status-cases LookupStatus.ok x p c e n = simp (store_new, c, e) refl
    status-cases LookupStatus.not_found x p c e n = simp (store_new, c, e) refl
    status-cases LookupStatus.memory_overflow x p c e n = absurd (n refl)

    at_place :
        (x : HashTable × LookupResult) (p : EntryPtr)
        → x.1.entry_ptr ≡ some p
        → x.1.status ≢ LookupStatus.memory_overflow
        → store_new x ≡ (store x.0 p new_entry, x.1)
    at_place x p e n = status-cases x.1.status x p refl e n

    module _ (h : IsTable env t) (keyed : env.key_at index_type index ≡ k) where
      -- A place in a table on which Lookup changed no match.
      stored-Inserted :
          (x : HashTable × LookupResult) (p : EntryPtr)
          → x.1.entry_ptr ≡ some p
          → x.1.status ≢ LookupStatus.memory_overflow
          → p.at < x.0.hash_bucket_entries p.bucket
          → p.bucket ≡ bucket_of env k
          → IsTable env x.0
          → ((k' : Bytes) (m' : ℕ) (q : EntryPtr) → Holds env x.0 k' m' q ↔ Holds env t k' m' q)
          → (((q : EntryPtr) → ¬ Holds env t k type q) ⊎ Holds env t k type p)
          → Inserted (store_new x)
      stored-Inserted x p e n in_range site g same before = rw (at_place x p e n) (
          inr (
            p,
            n,
            e,
            load-store x.0 p new_entry,
            store-IsTable x.0 p new_entry g (λ k' m' c. rw (new_entry-sited keyed k' m' c) site),
            (λ k' m' q. (
              λ y. elim (store→ x.0 p new_entry k' m' q y) [
                | inl o ↦ inl o
                | inr (w, o) ↦ inr (w, (same k' m' q).0 o)
              ],
              λ y. elim y [
                | inl o ↦ store← x.0 p new_entry k' m' q in_range (inl o)
                | inr (w, o) ↦ store← x.0 p new_entry k' m' q in_range (inr (w, (same k' m' q).1 o))
              ],
            )),
            before,
          ))

      Outcome-Inserted :
          (s : LookupStatus) (x : HashTable × LookupResult)
          → x.1.status ≡ s
          → Outcome env true room t k type x.0 x.1 s
          → Inserted (store_new x)
      Outcome-Inserted LookupStatus.ok x e (p, f) =
          stored-Inserted x p f.entry_ptr (λ c. status-ne (sym e ∙ c)) (rw f.entries_same f.holds.0)
            (h.sited k type p f.holds) (Found-IsTable env t k type x.0 x.1 p f h)
            (Found-Holds env t k type x.0 x.1 p f) (inr f.holds)
      Outcome-Inserted LookupStatus.not_found x e (a, p, c, w) =
          stored-Inserted x p c (λ c. status-ne' (sym e ∙ c))
            (Taken-in_range env room t x.0 (bucket_of env k) p w) w.of_bucket
            (Taken-IsTable env room t x.0 (bucket_of env k) p w h)
            (Taken-Holds env room t x.0 (bucket_of env k) p w) (inl (Absent-all env t k type h a))
      Outcome-Inserted LookupStatus.memory_overflow x e o =
          inl (simp (store_new, e) refl, simp (store_new, e) o.4)

      -- Insert either ran out of memory and changed nothing, or the new entry stands at one place.
      pub insert-Inserted : Inserted (insert env room t k type status index index_type)
      insert-Inserted =
          let x = lookup env true room t k type in
          rw insert-store_new
            (Outcome-Inserted x.1.status x refl (lookup-Outcome env room t k type true h))
