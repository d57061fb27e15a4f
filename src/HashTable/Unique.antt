-- ===== src/HashTable/Unique.antt =====
-- One entry for each key, and what a lookup behind an insertion finds.
use Prim.Native.Nat.{bit_and}
use kvdk.Prelude.{
  ◌≡◌, refl, sym, ap, subst, ◌⊎◌, inl, inr, ◌≢◌, ℕ, Bool, true, false, arith, ◌∙◌, ◌==◌,
}
use kvdk.Codec.Bytes.{Bytes}
use kvdk.Batch.Ops.KeyedSet.{bytes_eq, bytes_eq_iff}
use kvdk.DlList.{RecordStatus}
use kvdk.HashTable.{
  HashTable, HashEntry, EntryPtr, Setting, load, match_entry, has_key, LookupStatus, LookupResult,
  lookup, insert, PointerType,
}
use kvdk.HashTable.Outcome.{Holds, IsTable}
use kvdk.HashTable.Holds.{AtMostOne, lookup-Holds}
use kvdk.HashTable.Insert.{insert-Inserted, Inserted, new_entry, new_entry-sited}

module _ (env : Setting) (room : Bool) (t : HashTable) (k : Bytes) (type : ℕ)
    (status : RecordStatus) (index : ℕ) (index_type : PointerType) (h : IsTable env t)
    (keyed : env.key_at index_type index ≡ k) (one : AtMostOne env t type) where
  abbrev new : HashEntry
  new = new_entry env room t k type status index index_type

  at_new :
      (p : EntryPtr)
      → (((q : EntryPtr) → ¬ Holds env t k type q) ⊎ Holds env t k type p)
      → (k' : Bytes) (q : EntryPtr) → match_entry env k' type new ≡ true
      → Holds env t k' type q
      → p ≡ q
  at_new p (inl nothing) k' q m x =
      let e = new_entry-sited env room t k type status index index_type keyed k' type m in
      absurd (nothing q (subst (λ (o : Bytes). Holds env t o type q) e x))
  at_new p (inr held) k' q m x =
      let e = new_entry-sited env room t k type status index index_type keyed k' type m in
      one k p q held (subst (λ (o : Bytes). Holds env t o type q) e x)

  Inserted-AtMostOne :
      (x : HashTable × LookupResult)
      → Inserted env room t k type status index index_type x
      → AtMostOne env x.0 type
  Inserted-AtMostOne x (inl (e, same)) = rw same one
  Inserted-AtMostOne x (inr (p, n, e, l, g, holds, before)) =
      λ k' q o y z. by_places p before k' q o ((holds k' type q).0 y) ((holds k' type o).0 z)
    where
      by_places :
          (p : EntryPtr)
          → (((q : EntryPtr) → ¬ Holds env t k type q) ⊎ Holds env t k type p)
          → (k' : Bytes) (q o : EntryPtr)
          → ((q ≡ p) × (match_entry env k' type new ≡ true)) ⊎ ((q ≢ p) × Holds env t k' type q)
          → ((o ≡ p) × (match_entry env k' type new ≡ true)) ⊎ ((o ≢ p) × Holds env t k' type o)
          → q ≡ o
      by_places p before k' q o (inl (a, y)) (inl (b, z)) = a ∙ sym b
      by_places p before k' q o (inl (a, y)) (inr (b, z)) =
          absurd (b (sym (at_new p before k' o y z)))
      by_places p before k' q o (inr (a, y)) (inl (b, z)) =
          absurd (a (sym (at_new p before k' q z y)))
      by_places p before k' q o (inr (a, y)) (inr (b, z)) = one k' q o y z

  -- Insert keeps one entry for each key of its type.
  pub insert-AtMostOne : AtMostOne env (insert env room t k type status index index_type).0 type
  insert-AtMostOne =
      Inserted-AtMostOne (insert env room t k type status index index_type)
        (insert-Inserted env room t k type status index index_type h keyed)

  new-matches :
      has_key index_type ≡ true
      → (bit_and type type == 0) ≡ false
      → match_entry env k type new ≡ true
  unfolding match_entry
  new-matches live some_bit =
      let e : bytes_eq k (env.key_at index_type index) ≡ true =
        (bytes_eq_iff k (env.key_at index_type index)).1 (sym keyed) in
      ground arith

  -- Behind an insertion that did not run out of memory, Lookup of the key finds the new entry.
  pub lookup-insert :
      (may_insert room' : Bool)
      → has_key index_type ≡ true
      → (bit_and type type == 0) ≡ false
      → let r = insert env room t k type status index index_type in
        ((r.1.status ≡ LookupStatus.memory_overflow) × (r.0 ≡ t))
        ⊎ (((lookup env may_insert room' r.0 k type).1.status ≡ LookupStatus.ok)
            × ((lookup env may_insert room' r.0 k type).1.entry ≡ new))
  lookup-insert may_insert room' live some_bit =
      elim (insert-Inserted env room t k type status index index_type h keyed) [
        | inl e ↦ inl e
        | inr (p, n, e, l, g, holds, before) ↦
            elim (lookup-Holds env may_insert room'
              (insert env room t k type status index index_type).0 k type g) [
                | inl (q, s, c, en, y) ↦
                    let same =
                      insert-AtMostOne k p q
                        ((holds k type p).1 (inl (refl, new-matches live some_bit))) y in
                    inr (
                      s,
                      en
                          ∙ ap (load (insert env room t k type status index index_type).0)
                              (sym same)
                          ∙ l,
                    )
                | inr (s, nothing) ↦
                    absurd (nothing p ((holds k type p).1 (inl (refl, new-matches live some_bit))))
              ]
      ]
