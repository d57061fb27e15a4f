-- ===== src/HashTable/Holds.antt =====
-- Lookup, Insert and Erase as operations on the set of entries that match a key.
use kvdk.Prelude.{
  not_both, ◌<◌, ◌≡◌, refl, sym, ap, subst, ◌⊎◌, inl, inr, ◌↔◌, ◌≢◌, ℕ, Option, some, Bool, true,
  false, ◌&&◌, ◌==◌, arith, Bool-cases,
}
use kvdk.Codec.Bytes.{Bytes}
use kvdk.HashTable.{
  HashTable, HashEntry, EntryPtr, Setting, load, is_empty, match_entry, has_key, LookupStatus,
  LookupResult, lookup, PointerType, allocated, empty,
}
use kvdk.HashTable.Lookup.{lookup-Outcome}
use kvdk.HashTable.Outcome.{Holds, IsTable, Absent, Taken, Found, Outcome}

-- At most one entry matches each key.
abbrev pub AtMostOne : Setting → HashTable → ℕ → Type 0
AtMostOne env t m = (k : Bytes) (p q : EntryPtr) → Holds env t k m p → Holds env t k m q → p ≡ q

pub ptr-cases : (p q : EntryPtr) → (p ≡ q) ⊎ (p ≢ q)
ptr-cases p q = elim (Bool-cases ((p.bucket == q.bucket) && (p.at == q.at))) [
  | inl c ↦
      let a : p.bucket ≡ q.bucket = ground arith in let b : p.at ≡ q.at = ground arith in inl cc
  | inr c ↦ inr (λ (e : p ≡ q).
      let a : p.bucket ≡ q.bucket = ap (λ (x : EntryPtr). x.bucket) e in
      let b : p.at ≡ q.at = ap (λ (x : EntryPtr). x.at) e in ground arith)
]

ne_parts : (p q : EntryPtr) → p ≢ q → ((p.bucket == q.bucket) && (p.at == q.at)) ≡ false
ne_parts p q n = elim (Bool-cases ((p.bucket == q.bucket) && (p.at == q.at))) [
  | inl c ↦
      let a : p.bucket ≡ q.bucket = ground arith in
      let b : p.at ≡ q.at = ground arith in absurd (n cc)
  | inr c ↦ c
]

keyless_cases : (x : PointerType) → elim x [ empty ↦ true | _ ↦ false ] ≡ true → has_key x ≡ false
unfolding has_key
keyless_cases empty h = refl
keyless_cases allocated h = refl
keyless_cases PointerType.invalid h = refl
keyless_cases PointerType.hash_entry h = refl
keyless_cases PointerType.string_record h = cc
keyless_cases PointerType.dl_record h = cc
keyless_cases PointerType.skiplist_node h = cc
keyless_cases PointerType.skiplist h = cc
keyless_cases PointerType.hash_list h = cc
keyless_cases PointerType.hash_elem h = cc
keyless_cases PointerType.list_ptr h = cc

module _ (env : Setting) where
  pub keyless-unmatched :
      (k : Bytes) (m : ℕ) (e : HashEntry)
      → has_key e.index_type ≡ false
      → match_entry env k m e ≡ false
  unfolding match_entry
  keyless-unmatched k m e h = ground arith

  empty-keyless : (e : HashEntry) → is_empty e ≡ true → has_key e.index_type ≡ false
  unfolding is_empty has_key
  empty-keyless e h = keyless_cases e.index_type h

  module _ (room : Bool) (t t' : HashTable) (b : ℕ) (p : EntryPtr) (h : Taken room t t' b p) where
    pub Taken-in_range : p.at < t'.hash_bucket_entries p.bucket
    Taken-in_range = elim h.chosen [
      | inl (e, v, em) ↦ rw (e, h.of_bucket) v
      | inr (none_empty, fits, a, e) ↦ rw (e, h.of_bucket) (ground arith)
    ]

    Taken-wider :
        (q : EntryPtr)
        → q.at < t.hash_bucket_entries q.bucket
        → q.at < t'.hash_bucket_entries q.bucket
    Taken-wider q v = elim h.chosen [
      | inl (e, w, o) ↦ rw e v
      | inr (none_empty, fits, a, e) ↦ rw e (ground arith)
    ]

    pub Taken-in_old :
        (q : EntryPtr)
        → q ≢ p
        → q.at < t'.hash_bucket_entries q.bucket
        → q.at < t.hash_bucket_entries q.bucket
    Taken-in_old q n v = elim h.chosen [
      | inl (e, w, o) ↦ subst (λ (f : ℕ → ℕ). q.at < f q.bucket) e v
      | inr (none_empty, fits, a, e) ↦
          let v' = subst (λ (f : ℕ → ℕ). q.at < f q.bucket) e v in
          let g = ne_parts q p n in let o = h.of_bucket in ground arith
    ]

    pub Taken-unmatched : (k : Bytes) (m : ℕ) → match_entry env k m (load t' p) ≡ false
    unfolding has_key
    Taken-unmatched k m = keyless-unmatched k m (load t' p) (rw h.marked refl)

    Taken-not_held : (k : Bytes) (m : ℕ) → ¬ Holds env t k m p
    Taken-not_held k m x = elim h.chosen [
      | inl (e, v, em) ↦
          let u = keyless-unmatched k m (load t p) (empty-keyless (load t p) em) in
          let w = x.1 in cc
      | inr (none_empty, fits, a, e) ↦
          let w = subst (λ (n : ℕ). p.at < t.hash_bucket_entries n) h.of_bucket x.0 in
          omega (arith, a)
    ]

    pub Taken-Holds : (k : Bytes) (m : ℕ) (q : EntryPtr) → Holds env t' k m q ↔ Holds env t k m q
    Taken-Holds k m q = elim (ptr-cases q p) [
      | inl e ↦ (
        λ (x : Holds env t' k m q).
            let u = Taken-unmatched k m in
            let w = subst (λ (o : EntryPtr). match_entry env k m (load t' o) ≡ true) e x.1 in
            absurd (not_both u w),
        λ (x : Holds env t k m q).
            absurd (Taken-not_held k m (subst (λ (o : EntryPtr). Holds env t k m o) e x)),
      )
      | inr n ↦
          let same = h.rest_same q n in
          (
            λ (x : Holds env t' k m q). (Taken-in_old q n x.0, rw (sym same) x.1),
            λ (x : Holds env t k m q). (Taken-wider q x.0, rw same x.1),
          )
    ]

  pub Absent-all :
      (t : HashTable) (k : Bytes) (m : ℕ)
      → IsTable env t
      → Absent env t k m
      → (p : EntryPtr) → ¬ Holds env t k m p
  Absent-all t k m h a p x = a p (h.sited k m p x) x

  module _ (t : HashTable) (k : Bytes) (m : ℕ) (t' : HashTable) (r : LookupResult) (p : EntryPtr)
      (h : Found env t k m t' r p) where
    pub Found-load : (q : EntryPtr) → load t' q ≡ load t q
    unfolding load
    Found-load q = rw h.cells_same refl

    pub Found-Holds :
        (k' : Bytes) (m' : ℕ) (q : EntryPtr) → Holds env t' k' m' q ↔ Holds env t k' m' q
    Found-Holds k' m' q = (
      λ (x : Holds env t' k' m' q). (
        subst (λ (f : ℕ → ℕ). q.at < f q.bucket) h.entries_same x.0,
        rw (sym (Found-load q)) x.1,
      ),
      λ (x : Holds env t k' m' q). (rw h.entries_same x.0, rw (Found-load q) x.1),
    )

    pub Found-IsTable : IsTable env t → IsTable env t'
    Found-IsTable g = record {
      sited = λ k' m' q x. g.sited k' m' q ((Found-Holds k' m' q).0 x);
      cached = λ i q e. rw h.entries_same (elim (h.cache_grows i q e) [
        | inl o ↦ subst (λ (z : EntryPtr). z.at < t.hash_bucket_entries z.bucket) (sym o) h.holds.0
        | inr o ↦ g.cached i q o
      ]);
    }

  pub Taken-IsTable :
      (room : Bool) (t t' : HashTable) (b : ℕ) (p : EntryPtr)
      → Taken room t t' b p
      → IsTable env t
      → IsTable env t'
  Taken-IsTable room t t' b p h g = record {
    sited = λ k' m' q x. g.sited k' m' q ((Taken-Holds room t t' b p h k' m' q).0 x);
    cached = λ i q e.
        Taken-wider room t t' b p h q
          (g.cached i q (subst (λ (f : ℕ → Option EntryPtr). f i ≡ some q) h.cache_same e));
  }

  -- A call of Lookup changes no match and keeps the table in order.
  abbrev Unchanged : HashTable → HashTable → Type 0
  Unchanged t t' =
      IsTable env t' × ((k : Bytes) (m : ℕ) (q : EntryPtr) → Holds env t' k m q ↔ Holds env t k m q)

  same-Unchanged : (t t' : HashTable) → IsTable env t → t' ≡ t → Unchanged t t'
  same-Unchanged t t' h e = rw e (h, λ k m q. (λ x. x, λ x. x))

  Outcome-Unchanged :
      (may_insert room : Bool) (t : HashTable) (k : Bytes) (m : ℕ) (t' : HashTable)
      (r : LookupResult) (s : LookupStatus)
      → IsTable env t
      → Outcome env may_insert room t k m t' r s
      → Unchanged t t'
  Outcome-Unchanged may_insert room t k m t' r LookupStatus.ok h (p, f) =
      (Found-IsTable t k m t' r p f h, Found-Holds t k m t' r p f)
  Outcome-Unchanged false room t k m t' r LookupStatus.not_found h (a, e) = same-Unchanged t t' h e
  Outcome-Unchanged true room t k m t' r LookupStatus.not_found h (a, p, e, w) =
      (Taken-IsTable room t t' _ p w h, Taken-Holds room t t' _ p w)
  Outcome-Unchanged may_insert room t k m t' r LookupStatus.memory_overflow h o =
      same-Unchanged t t' h o.4

  -- Lookup
  pub lookup-Unchanged :
      (may_insert room : Bool) (t : HashTable) (k : Bytes) (m : ℕ)
      → IsTable env t
      → IsTable env (lookup env may_insert room t k m).0
        × ((k' : Bytes) (m' : ℕ) (q : EntryPtr)
            → Holds env (lookup env may_insert room t k m).0 k' m' q ↔ Holds env t k' m' q)
  lookup-Unchanged may_insert room t k m h =
      let r = lookup env may_insert room t k m in
      Outcome-Unchanged may_insert room t k m r.0 r.1 r.1.status h
        (lookup-Outcome env room t k m may_insert h)

  abbrev Decides : HashTable → Bytes → ℕ → LookupResult → LookupStatus → Type 0
  Decides t k m r s =
      ((p : EntryPtr) × (s ≡ LookupStatus.ok)
        × (r.entry_ptr ≡ some p)
        × (r.entry ≡ load t p)
        × Holds env t k m p)
      ⊎ ((s ≢ LookupStatus.ok) × ((p : EntryPtr) → ¬ Holds env t k m p))

  Outcome-Decides :
      (may_insert room : Bool) (t : HashTable) (k : Bytes) (m : ℕ) (t' : HashTable)
      (r : LookupResult) (s : LookupStatus)
      → IsTable env t
      → Outcome env may_insert room t k m t' r s
      → Decides t k m r s
  Outcome-Decides may_insert room t k m t' r LookupStatus.ok h (p, f) =
      inl (p, refl, f.entry_ptr, f.entry, f.holds)
  Outcome-Decides false room t k m t' r LookupStatus.not_found h o =
      inr (λ e. cc, Absent-all t k m h o.0)
  Outcome-Decides true room t k m t' r LookupStatus.not_found h o =
      inr (λ e. cc, Absent-all t k m h o.0)
  Outcome-Decides may_insert room t k m t' r LookupStatus.memory_overflow h o =
      inr (λ e. cc, Absent-all t k m h o.0)

  -- Lookup succeeds with an entry that matches, or no entry of the whole table matches.
  pub lookup-Holds :
      (may_insert room : Bool) (t : HashTable) (k : Bytes) (m : ℕ)
      → IsTable env t
      → ((p : EntryPtr) × ((lookup env may_insert room t k m).1.status ≡ LookupStatus.ok)
          × ((lookup env may_insert room t k m).1.entry_ptr ≡ some p)
          × ((lookup env may_insert room t k m).1.entry ≡ load t p)
          × Holds env t k m p)
        ⊎ (((lookup env may_insert room t k m).1.status ≢ LookupStatus.ok)
            × ((p : EntryPtr) → ¬ Holds env t k m p))
  lookup-Holds may_insert room t k m h =
      let r = lookup env may_insert room t k m in
      Outcome-Decides may_insert room t k m r.0 r.1 r.1.status h
        (lookup-Outcome env room t k m may_insert h)
