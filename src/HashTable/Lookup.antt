-- ===== src/HashTable/Lookup.antt =====
-- What Lookup finds.
use kvdk.Prelude.{
  ◌<◌, ◌≡◌, refl, subst, ◌⊎◌, inl, inr, ℕ, Option, none, some, Bool, true, false, ◌==◌,
  if◌then◌else◌, arith, Bool-cases, Option-cases,
}
use kvdk.Codec.Bytes.{Bytes}
use kvdk.HashTable.{
  allocated, HashTable, HashEntry, EntryPtr, Setting, Scan, scan_start, iter_ptr, load, is_empty,
  match_entry, clear_entry, has_key, bucket_of, get_slot_num, LookupResult, lookup, lookup_bucket,
  missed,
}
use kvdk.HashTable.Walk.{Passed, start-Passed, scan_lem}
use kvdk.HashTable.Outcome.{IsTable, Absent, NoEmpty, Outcome}
use kvdk.HashTable.Allocate.{reuse-Taken, grown, grow-Taken, allocate_entry_lem}

allocated-unmatched :
    (env : Setting) (k : Bytes) (m : ℕ) (e : HashEntry)
    → e.index_type ≡ allocated
    → match_entry env k m e ≡ false
unfolding match_entry has_key
allocated-unmatched env k m e h = rw h (ground arith)

Passed-Absent :
    (env : Setting) (t : HashTable) (k : Bytes) (m : ℕ) (s : Scan)
    → Passed env t k m (bucket_of env k) s
    → s.iter.entry_idx ≡ t.hash_bucket_entries (bucket_of env k)
    → Absent env t k m
unfolding load
Passed-Absent env t k m s h e p eb hp =
    let lt = subst (λ (n : ℕ). p.at < t.hash_bucket_entries n) eb hp.0 in
    let q = h.apart p.at (rw e lt) in
    let u = subst (λ (n : ℕ). match_entry env k m (t.cells n p.at) ≡ true) eb hp.1 in cc

cached-either :
    (c : Bool) (read old : Option EntryPtr) (p q : EntryPtr)
    → read ≡ some p
    → (if c then read else old) ≡ some q
    → (q ≡ p) ⊎ (old ≡ some q)
cached-either c read old p q r h = ground arith

Passed-NoEmpty :
    (env : Setting) (t : HashTable) (k : Bytes) (m : ℕ) (s : Scan)
    → Passed env t k m (bucket_of env k) s
    → s.iter.entry_idx ≡ t.hash_bucket_entries (bucket_of env k)
    → s.empty_entry ≡ none
    → NoEmpty t (bucket_of env k)
Passed-NoEmpty env t k m s h e n i lt = h.no_empty n i (rw e lt)

module _ (env : Setting) (room : Bool) (t : HashTable) (k : Bytes) (m : ℕ) where
  missed_reuse :
      (s : Scan) (p : EntryPtr)
      → s.empty_entry ≡ some p
      → Absent env t k m
      → (p.bucket ≡ bucket_of env k)
        × (p.at < t.hash_bucket_entries (bucket_of env k))
        × (is_empty (load t p) ≡ true)
      → Outcome env true room t k m
          (missed true room t s).0
          (missed true room t s).1
          (missed true room t s).1.status
  unfolding missed
  missed_reuse s p q no_match w =
      let e : missed true room t s ≡ missed true room t record s { empty_entry = some p } =
        simp (missed, q) refl in
      rw e (no_match, p, refl, reuse-Taken room t (bucket_of env k) p w.0 w.1 w.2)

  missed_lem :
      (may_insert : Bool) (s : Scan)
      → Passed env t k m (bucket_of env k) s
      → s.iter.entry_idx ≡ t.hash_bucket_entries (bucket_of env k)
      → Outcome env may_insert room t k m
          (missed may_insert room t s).0
          (missed may_insert room t s).1
          (missed may_insert room t s).1.status
  unfolding missed
  missed_lem false s h e = (Passed-Absent env t k m s h e, refl)
  missed_lem true s h e = elim (Option-cases s.empty_entry) [
    | inl n ↦ elim (allocate_entry_lem room t s.iter (bucket_of env k) h.track h.here e) [
      | inl (a, r, z) ↦
          simp (missed, n, a)
            (Passed-Absent env t k m s h e, Passed-NoEmpty env t k m s h e n, refl, z, refl)
      | inr (it', a, pe, fits) ↦
          simp (missed, n, a)
            (
              Passed-Absent env t k m s h e,
              iter_ptr it',
              refl,
              grow-Taken room t (bucket_of env k)
                  (clear_entry (load (grown t (bucket_of env k)) (iter_ptr it'))) (iter_ptr it') pe
                  (Passed-NoEmpty env t k m s h e n) fits,
            )
    ]
    | inr (p, q) ↦ missed_reuse s p q (Passed-Absent env t k m s h e) (h.an_empty p q)
  ]

  module _ (may_insert : Bool) where
    abbrev Result : HashTable × LookupResult → Type 0
    Result x = Outcome env may_insert room t k m x.0 x.1 x.1.status

    lookup_bucket-Outcome : Result (lookup_bucket env may_insert room t k m)
    unfolding lookup_bucket
    lookup_bucket-Outcome =
        let b = bucket_of env k in
        elim (scan_lem env t k m (t.hash_bucket_entries b) b (scan_start env t k)
          (start-Passed env t k m) (omega arith)) [
            | inl h ↦ simp h.matches (
              h.place,
              record {
                holds = (rw h.of_bucket h.in_range, h.hits);
                entry = h.reads;
                entry_ptr = h.read_place;
                cells_same = refl;
                entries_same = refl;
                cache_grows =
                    λ i q e. cached-either (i == get_slot_num env b) _ _ h.place q h.read_place e;
              },
            )
            | inr (h, e) ↦ simp h.unmatched (missed_lem may_insert _ h e)
          ]

    -- Lookup ends, in every state of the table, and finds an entry that matches or there is none.
    pub lookup-Outcome : IsTable env t → Result (lookup env may_insert room t k m)
    unfolding lookup
    lookup-Outcome h = elim (Option-cases (t.hash_cache (get_slot_num env (bucket_of env k)))) [
      | inl n ↦ simp (lookup, n) lookup_bucket-Outcome
      | inr (p, q) ↦ elim (Bool-cases (match_entry env k m (load t p))) [
        | inl c ↦
            simp (lookup, q, c)
              (
                p,
                record {
                  holds = (h.cached (get_slot_num env (bucket_of env k)) p q, c);
                  entry = refl;
                  entry_ptr = refl;
                  cells_same = refl;
                  entries_same = refl;
                  cache_grows = λ i o e. inr e;
                },
              )
        | inr c ↦ simp (lookup, q, c) lookup_bucket-Outcome
      ]
    ]
