-- ===== src/HashTable/Walk.antt =====
-- The bucket iterator on its chain, and the loop of Lookup that it drives.

use kvdk.Prelude.{
  le→ltb, lt→ltb, ◌∙◌, ◌+◌, ◌*◌, ◌%◌, ◌≤◌, ◌<◌, ◌≡◌, refl, ap, subst, ◌⊎◌, inl, inr, ℕ, zero, suc,
  Option, none, some, Bool, true, false, ◌&&◌, ◌==◌, ltb, if◌then◌else◌, arith, Bool-cases,
  lt-cases,
}
use kvdk.Codec.Bytes.{Bytes}
use kvdk.HashTable.{
  HashTable, HashEntry, EntryPtr, BucketIterator, Setting, Scan, scan, scan_start, iter_valid,
  iter_ptr, iter_next, bucket_begin, load, is_empty, match_entry, num_entry_per_bucket, bucket_of,
}

-- Where the iterator stands: in the HashBucket of its entry, but behind the last entry it stays in
-- the HashBucket of that.
unfoldable pub OnTrack : HashTable → BucketIterator → Type 0
OnTrack t it =
    (it.entry_idx ≤ t.hash_bucket_entries it.bucket_idx)
    × (7 * it.node
          + (if (it.entry_idx == t.hash_bucket_entries it.bucket_idx)
                && ltb 0 it.entry_idx
                && (it.entry_idx % 7 == 0)
              then 7
              else it.entry_idx % 7)
        ≡ it.entry_idx)

pub begin-OnTrack : (t : HashTable) (b : ℕ) → OnTrack t (bucket_begin b)
unfolding OnTrack bucket_begin
begin-OnTrack t b = ground arith

pub ptr-OnTrack :
    (t : HashTable) (it : BucketIterator)
    → OnTrack t it
    → it.entry_idx < t.hash_bucket_entries it.bucket_idx
    → iter_ptr it ≡ record { bucket = it.bucket_idx; at = it.entry_idx }
unfolding OnTrack iter_ptr
ptr-OnTrack t it h v =
    let e : 7 * it.node + it.entry_idx % 7 ≡ it.entry_idx = ground arith in
    ap (λ (n : ℕ). record { bucket = it.bucket_idx; at = n }) e

pub next-OnTrack :
    (t : HashTable) (it : BucketIterator)
    → OnTrack t it
    → it.entry_idx < t.hash_bucket_entries it.bucket_idx
    → OnTrack t (iter_next t it)
      × ((iter_next t it).bucket_idx ≡ it.bucket_idx)
      × ((iter_next t it).entry_idx ≡ suc it.entry_idx)
unfolding OnTrack iter_next iter_valid
next-OnTrack t it h v = ground arith

-- The place of a new entry.
pub end-OnTrack :
    (t : HashTable) (it : BucketIterator)
    → OnTrack t it
    → it.entry_idx ≡ t.hash_bucket_entries it.bucket_idx
    → iter_ptr record it {
      entry_idx = t.hash_bucket_entries it.bucket_idx;
      node =
          if ltb 0 (t.hash_bucket_entries it.bucket_idx)
            && (t.hash_bucket_entries it.bucket_idx % num_entry_per_bucket == 0)
          then it.node + 1
          else it.node;
    }
      ≡ record { bucket = it.bucket_idx; at = t.hash_bucket_entries it.bucket_idx }
unfolding OnTrack iter_ptr
end-OnTrack t it h e = ap (λ (n : ℕ). record { bucket = it.bucket_idx; at = n }) (ground arith)

below-suc : (P : ℕ → Type 0) (n : ℕ) → ((i : ℕ) → i < n → P i) → P n → (i : ℕ) → i < suc n → P i
below-suc P n h p i lt = elim (lt-cases i n) [
  | inl b ↦ h i b
  | inr b ↦ let e : n ≡ i = omega arith in subst P e p
]

if-none :
    (c : Bool) (p : EntryPtr) (o : Option EntryPtr)
    → (if c then some p else o) ≡ none
    → (c ≡ false) × (o ≡ none)
if-none c p o h = ground arith

if-some :
    (c : Bool) (p : EntryPtr) (o : Option EntryPtr) (q : EntryPtr)
    → (if c then some p else o) ≡ some q
    → ((c ≡ true) × (p ≡ q)) ⊎ (o ≡ some q)
if-some c p o q h = ground arith

iter_valid-here :
    (t : HashTable) (b : ℕ) (it : BucketIterator)
    → it.bucket_idx ≡ b
    → iter_valid t it ≡ ltb it.entry_idx (t.hash_bucket_entries b)
unfolding iter_valid
iter_valid-here t b it h = rw h refl

-- The cells of a bucket that the loop has passed.
pub record Passed (env : Setting) (t : HashTable) (k : Bytes) (m : ℕ) (b : ℕ) (s : Scan)
    : Type 0 where
  pub unmatched : s.matched ≡ false
  pub here : s.iter.bucket_idx ≡ b
  pub track : OnTrack t s.iter
  pub apart : (i : ℕ) → i < s.iter.entry_idx → match_entry env k m (t.cells b i) ≡ false
  pub no_empty :
      s.empty_entry ≡ none → (i : ℕ) → i < s.iter.entry_idx → is_empty (t.cells b i) ≡ false
  pub an_empty :
      (p : EntryPtr)
      → s.empty_entry ≡ some p
      → (p.bucket ≡ b) × (p.at < t.hash_bucket_entries b) × (is_empty (load t p) ≡ true)

-- The loop stopped at an entry that matches.
pub record Stopped (env : Setting) (t : HashTable) (k : Bytes) (m : ℕ) (b : ℕ) (s : Scan)
    : Type 0 where
  pub matches : s.matched ≡ true
  pub place : EntryPtr
  pub read_place : s.read_ptr ≡ some place
  pub of_bucket : place.bucket ≡ b
  pub in_range : place.at < t.hash_bucket_entries b
  pub reads : s.read ≡ load t place
  pub hits : match_entry env k m (load t place) ≡ true

module _ (env : Setting) (t : HashTable) (k : Bytes) (m : ℕ) where
  pub start-Passed : Passed env t k m (bucket_of env k) (scan_start env t k)
  unfolding scan_start bucket_begin
  start-Passed = record {
    unmatched = refl;
    here = refl;
    track = begin-OnTrack t (bucket_of env k);
    apart = λ i h. ground arith;
    no_empty = λ e i h. ground arith;
    an_empty = λ p e. ground arith;
  }

  -- A turn of the loop at an entry that does not match.
  abbrev turn : Scan → Scan
  turn s = record s {
    empty_entry =
        if is_empty (load t (iter_ptr s.iter)) then some (iter_ptr s.iter) else s.empty_entry;
    iter = iter_next t s.iter;
    read = load t (iter_ptr s.iter);
    read_ptr = some (iter_ptr s.iter);
  }

  module _ (b : ℕ) (s : Scan) (h : Passed env t k m b s) where
    here_ptr :
        s.iter.entry_idx < t.hash_bucket_entries b
        → iter_ptr s.iter ≡ record { bucket = b; at = s.iter.entry_idx }
    here_ptr v =
        ptr-OnTrack t s.iter h.track (rw h.here v)
        ∙ ap (λ (n : ℕ). record { bucket = n; at = s.iter.entry_idx }) h.here

    here_load :
        s.iter.entry_idx < t.hash_bucket_entries b
        → load t (iter_ptr s.iter) ≡ t.cells b s.iter.entry_idx
    unfolding load
    here_load v = rw (here_ptr v) refl

    turn-Passed :
        s.iter.entry_idx < t.hash_bucket_entries b
        → match_entry env k m (load t (iter_ptr s.iter)) ≡ false
        → Passed env t k m b (turn s)
    turn-Passed v miss =
        let nx = next-OnTrack t s.iter h.track (rw h.here v) in
        record {
          unmatched = h.unmatched;
          here = nx.1 ∙ h.here;
          track = nx.0;
          apart = λ i lt.
              below-suc (λ (j : ℕ). match_entry env k m (t.cells b j) ≡ false) s.iter.entry_idx
                h.apart
                (subst (λ (e : HashEntry). match_entry env k m e ≡ false) (here_load v) miss) i
                (subst (λ (n : ℕ). i < n) nx.2 lt);
          no_empty = λ e i lt.
              below-suc (λ (j : ℕ). is_empty (t.cells b j) ≡ false) s.iter.entry_idx
                (h.no_empty (if-none _ _ _ e).1)
                (subst (λ (x : HashEntry). is_empty x ≡ false) (here_load v) (if-none _ _ _ e).0) i
                (subst (λ (n : ℕ). i < n) nx.2 lt);
          an_empty = λ p e.
              elim (if-some (is_empty (load t (iter_ptr s.iter))) (iter_ptr s.iter) s.empty_entry p
                e) [
                  | inl (c, q) ↦
                      subst
                        (λ (x : EntryPtr).
                          (x.bucket ≡ b)
                          × (x.at < t.hash_bucket_entries b)
                          × (is_empty (load t x) ≡ true))
                        q (ap (λ (x : EntryPtr). x.bucket) (here_ptr v), rw (here_ptr v) v, c)
                  | inr o ↦ h.an_empty p o
                ];
        }

    at_end : t.hash_bucket_entries b ≤ s.iter.entry_idx → s.iter.entry_idx ≡ t.hash_bucket_entries b
    unfolding OnTrack
    at_end v =
        let u = subst (λ (n : ℕ). s.iter.entry_idx ≤ t.hash_bucket_entries n) h.here h.track.0 in
        omega arith

    hit-Stopped :
        s.iter.entry_idx < t.hash_bucket_entries b
        → match_entry env k m (load t (iter_ptr s.iter)) ≡ true
        → Stopped env t k m b record s {
          matched = true;
          read = load t (iter_ptr s.iter);
          read_ptr = some (iter_ptr s.iter);
        }
    hit-Stopped v hit = record {
      matches = refl;
      place = iter_ptr s.iter;
      read_place = refl;
      of_bucket = ap (λ (x : EntryPtr). x.bucket) (here_ptr v);
      in_range = rw (here_ptr v) v;
      reads = refl;
      hits = hit;
    }

  -- With enough fuel the loop stops at an entry that matches, or has passed all of them.
  pub scan_lem :
      (f b : ℕ) (s : Scan)
      → Passed env t k m b s
      → t.hash_bucket_entries b ≤ f + s.iter.entry_idx
      → Stopped env t k m b (scan env f t k m s)
        ⊎ (Passed env t k m b (scan env f t k m s)
            × ((scan env f t k m s).iter.entry_idx ≡ t.hash_bucket_entries b))
  unfolding scan
  scan_lem zero b s h enough = inr (h, at_end b s h (omega arith))
  scan_lem (suc f) b s h enough = elim (lt-cases s.iter.entry_idx (t.hash_bucket_entries b)) [
    | inl v ↦ elim (Bool-cases (match_entry env k m (load t (iter_ptr s.iter)))) [
      | inl hit ↦
          rw (iter_valid-here t b s.iter h.here, lt→ltb s.iter.entry_idx _ v, hit)
            (inl (hit-Stopped b s h v hit))
      | inr miss ↦
          rw (iter_valid-here t b s.iter h.here, lt→ltb s.iter.entry_idx _ v, miss)
            (scan_lem f b (turn s) (turn-Passed b s h v miss)
              (let nx = next-OnTrack t s.iter h.track (rw h.here v) in omega (arith, nx.2)))
    ]
    | inr v ↦
        rw (iter_valid-here t b s.iter h.here, le→ltb s.iter.entry_idx _ v)
          (inr (h, at_end b s h v))
  ]
