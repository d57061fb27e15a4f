-- ===== src/HashTable/Allocate.antt =====
-- What allocateEntry does to the table.
use kvdk.Prelude.{
  ◌∙◌, ◌%◌, ◌+◌, ◌<◌, ◌≡◌, refl, ap, subst, ◌⊎◌, inl, inr, ◌≢◌, ℕ, none, some, Bool, true, false,
  not, ◌&&◌, ◌==◌, ltb, if◌then◌else◌, update, arith, Bool-cases,
}
use kvdk.HashTable.{
  num_entry_per_bucket, HashTable, HashEntry, EntryPtr, BucketIterator, iter_ptr, load, store,
  is_empty, allocate_entry, clear_entry, mark_as_allocated,
}
use kvdk.HashTable.Walk.{end-OnTrack, OnTrack}
use kvdk.HashTable.Outcome.{NoEmpty, no_room, Taken}

pub load-store : (t : HashTable) (p : EntryPtr) (e : HashEntry) → load (store t p e) p ≡ e
unfolding load store
load-store t p e = ground arith

same_ptr : (p q : EntryPtr) → ((q.bucket == p.bucket) && (q.at == p.at)) ≡ true → q ≡ p
same_ptr p q c =
    let a : q.bucket ≡ p.bucket = ground arith in let b : q.at ≡ p.at = ground arith in cc

pub load-store_ne :
    (t : HashTable) (p q : EntryPtr) (e : HashEntry) → q ≢ p → load (store t p e) q ≡ load t q
unfolding load store
load-store_ne t p q e h = elim (Bool-cases ((q.bucket == p.bucket) && (q.at == p.at))) [
  | inl c ↦ absurd (h (same_ptr p q c))
  | inr c ↦ rw c refl
]

pub reuse-Taken :
    (room : Bool) (t : HashTable) (b : ℕ) (p : EntryPtr)
    → p.bucket ≡ b
    → p.at < t.hash_bucket_entries b
    → is_empty (load t p) ≡ true
    → Taken room t (store t p (mark_as_allocated (load t p))) b p
unfolding store mark_as_allocated
reuse-Taken room t b p eb v em = record {
  of_bucket = eb;
  chosen = inl (refl, v, em);
  marked = rw (load-store t p (mark_as_allocated (load t p))) refl;
  rest_same = λ q h. load-store_ne t p q (mark_as_allocated (load t p)) h;
  cache_same = refl;
}

-- The table with one more entry in a bucket.
abbrev pub grown : HashTable → ℕ → HashTable
grown t b = record t {
  hash_bucket_entries = update t.hash_bucket_entries b (t.hash_bucket_entries b + 1);
}

grown-load : (t : HashTable) (b : ℕ) (q : EntryPtr) → load (grown t b) q ≡ load t q
unfolding load
grown-load t b q = refl

pub grow-Taken :
    (room : Bool) (t : HashTable) (b : ℕ) (e : HashEntry) (p : EntryPtr)
    → p ≡ record { bucket = b; at = t.hash_bucket_entries b }
    → NoEmpty t b
    → no_room room (t.hash_bucket_entries b) ≡ false
    → Taken room t
        (store (store (grown t b) p e) p (mark_as_allocated (load (store (grown t b) p e) p)))
        b
        p
unfolding store mark_as_allocated
grow-Taken room t b e p ep none_empty fits = record {
  of_bucket = ap (λ (q : EntryPtr). q.bucket) ep;
  chosen = inr (none_empty, fits, ap (λ (q : EntryPtr). q.at) ep, rw ep refl);
  marked =
      rw (load-store (store (grown t b) p e) p (mark_as_allocated (load (store (grown t b) p e) p)))
        refl;
  rest_same = λ q h.
      load-store_ne (store (grown t b) p e) p q (mark_as_allocated (load (store (grown t b) p e) p))
        h
      ∙ load-store_ne (grown t b) p q e h
      ∙ grown-load t b q;
  cache_same = refl;
}

-- There is no room for another HashBucket, or the bucket has one more entry.
abbrev Allocation : Bool → HashTable → BucketIterator → ℕ → Type 0
Allocation room t it b =
    ((allocate_entry room t it ≡ none)
      × (room ≡ false)
      × (no_room room (t.hash_bucket_entries b) ≡ true))
    ⊎ ((it' : BucketIterator) × (allocate_entry room t it
          ≡ some (
            store (grown t b) (iter_ptr it') (clear_entry (load (grown t b) (iter_ptr it'))),
            it',
          ))
        × (iter_ptr it' ≡ record { bucket = b; at = t.hash_bucket_entries b })
        × (no_room room (t.hash_bucket_entries b) ≡ false))

allocate_entry-Allocation :
    (room : Bool) (t : HashTable) (it : BucketIterator)
    → OnTrack t it
    → it.entry_idx ≡ t.hash_bucket_entries it.bucket_idx
    → Allocation room t it it.bucket_idx
unfolding allocate_entry
allocate_entry-Allocation room t it h e =
    let c =
      ltb 0 (t.hash_bucket_entries it.bucket_idx)
      && (t.hash_bucket_entries it.bucket_idx % num_entry_per_bucket == 0) in
    elim (Bool-cases (c && not room)) [
      | inl p ↦ inl (rw p refl, ground arith, p)
      | inr p ↦ inr (
        record it {
          entry_idx = t.hash_bucket_entries it.bucket_idx;
          node = if c then it.node + 1 else it.node;
        },
        rw p refl,
        end-OnTrack t it h e,
        p,
      )
    ]

pub allocate_entry_lem :
    (room : Bool) (t : HashTable) (it : BucketIterator) (b : ℕ)
    → OnTrack t it
    → it.bucket_idx ≡ b
    → it.entry_idx ≡ t.hash_bucket_entries b
    → Allocation room t it b
allocate_entry_lem room t it b h eb e =
    subst (λ (n : ℕ). Allocation room t it n) eb (allocate_entry-Allocation room t it h (rw eb e))
