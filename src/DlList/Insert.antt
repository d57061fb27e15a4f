-- ===== src/DlList/Insert.antt =====
-- InsertBetween and Update on a well-formed list.
use kvdk.Prelude.{
  ◌⊎◌, has_ne, ℕ, ◌≡◌, ◌≢◌, refl, List, [], ◌∷◌, ◌++◌, false, arith, has, has-append, Distinct,
  if◌then◌else◌, ◌==◌,
}
use kvdk.DlList.{
  new_record, Pmem, WriteArgs, persist_record, link_record, set_next, set_prev, insert_between,
  insert_after, update_record, ok, fail, null_offset,
}
use kvdk.DlList.Ring.{Linked, Seg, IsRing, Seg-frame}

-- What linking the record `r` between `p` and `n` does to the links of the memory `h`.
pub record IsSpliced (h g : Pmem) (p n r : ℕ) : Type 0 where
  pub next : (i : ℕ) → (g i).next ≡ (if i == p then r else if i == r then n else (h i).next)
  pub prev : (i : ℕ) → (g i).prev ≡ (if i == n then r else if i == r then p else (h i).prev)

-- From `n` on the ring goes through `zs` to `p`.
abbrev pub Onward : Pmem → ℕ → List ℕ → ℕ → Type 0
Onward h n [] p = n ≡ p
Onward h n (z ∷ zs) p = (n ≡ z) × Seg h z zs p

-- The new record stands between `p` and `n`.
pub splice-IsRing :
    (h g : Pmem) (p n r : ℕ) (zs : List ℕ)
    → IsSpliced h g p n r
    → Onward h n zs p
    → Distinct (p ∷ zs)
    → has r (p ∷ zs) ≡ false
    → IsRing g p (r ∷ zs)
splice-IsRing h g p n r [] v on d out = record {
  seg = (
    (ground (arith, v.next p), ground (arith, v.prev r)),
    (ground (arith, v.next r), ground (arith, v.prev p)),
  );
  distinct = ground arith;
}
splice-IsRing h g p n r (z ∷ zs) v on d out = record {
  seg = (
    (ground (arith, v.next p), ground (arith, v.prev r)),
    (
      (ground (arith, v.next r), ground (arith, v.prev z)),
      Seg-frame h g z zs p on.1
          (λ i e.
            ground
              (arith, v.next i, has_ne i p (z ∷ zs) e d.0, has_ne i r (z ∷ zs) e (ground arith)))
          (λ i e. ground (
            arith,
            v.prev i,
            has-append i zs (p ∷ []),
            has_ne i z (zs ++ p ∷ []) e (ground (arith, has-append z zs (p ∷ []))),
            has_ne i r (zs ++ p ∷ []) e (ground (arith, has-append r zs (p ∷ []))),
          )),
    ),
  );
  distinct = (ground arith, (ground arith, d.1));
}

-- The new record as it is linked by InsertBetween and Update.
linked-IsSpliced :
    (h : Pmem) (args : WriteArgs) (old p n : ℕ)
    → args.space.offset ≢ p
    → args.space.offset ≢ n
    → IsSpliced h
        (link_record (persist_record h args old p n) p n args.space.offset)
        p
        n
        args.space.offset
unfolding link_record persist_record set_next set_prev new_record
linked-IsSpliced h args old p n np nn = record {
  next = λ i. ground arith;
  prev = λ i. ground arith;
}

-- What the ring says of the record behind `p`.
onward :
    (h : Pmem) (p : ℕ) (zs : List ℕ)
    → IsRing h p zs
    → Onward h (h p).next zs p × ((h (h p).next).prev ≡ p)
onward h p [] r = (r.seg.0, rw r.seg.0 r.seg.1)
onward h p (z ∷ zs) r = ((r.seg.0.0, r.seg.1), rw r.seg.0.0 r.seg.0.1)

-- The same of the record behind the first one.
pub passed :
    (h : Pmem) (p r : ℕ) (zs : List ℕ)
    → IsRing h p (r ∷ zs)
    → Onward h (h r).next zs p × ((h (h r).next).prev ≡ r)
passed h p r [] v = (v.seg.1.0, rw v.seg.1.0 v.seg.1.1)
passed h p r (z ∷ zs) v = ((v.seg.1.0.0, v.seg.1.1), rw v.seg.1.0.0 v.seg.1.0.1)

-- The record that a ring goes on with is on the ring.
pub Onward-ne :
    (h : Pmem) (n p r : ℕ) (zs : List ℕ) → Onward h n zs p → has r (p ∷ zs) ≡ false → r ≢ n
Onward-ne h n p r [] on out = ground arith
Onward-ne h n p r (z ∷ zs) on out = ground arith

insert_between-linked :
    (h : Pmem) (args : WriteArgs) (p n : ℕ)
    → (h p).next ≡ n
    → (h n).prev ≡ p
    → insert_between h args p n
      ≡ (link_record (persist_record h args null_offset p n) p n args.space.offset, ok)
unfolding insert_between
insert_between-linked h args p n e k = ground arith

insert_after_lem :
    (h : Pmem) (args : WriteArgs) (p : ℕ)
    → insert_after h args p ≡ insert_between h args p (h p).next
unfolding insert_after
insert_after_lem h args p = refl

update_record-Linked :
    (h : Pmem) (args : WriteArgs) (p r n : ℕ)
    → Linked h p r
    → (h r).next ≡ n
    → (h n).prev ≡ r
    → update_record h args r ≡ (link_record (persist_record h args r p n) p n args.space.offset, ok)
unfolding update_record
update_record-Linked h args p r n l e k = ground arith

linked_old_version :
    (h : Pmem) (args : WriteArgs) (old p n : ℕ)
    → args.space.offset ≢ p
    → args.space.offset ≢ n
    → (link_record
        (persist_record h args old p n)
        p
        n
        args.space.offset
        args.space.offset).old_version
      ≡ old
unfolding link_record persist_record set_next set_prev new_record
linked_old_version h args old p n np nn = ground arith

-- InsertAfter puts the new record between any record of a list and the next, if the new record's
-- offset is not in the list. The list is seen as the ring from the given record on.
pub insert_after-IsRing :
    (h : Pmem) (args : WriteArgs) (p : ℕ) (zs : List ℕ)
    → IsRing h p zs
    → has args.space.offset (p ∷ zs) ≡ false
    → ((insert_after h args p).1 ≡ ok) × IsRing (insert_after h args p).0 p (args.space.offset ∷ zs)
insert_after-IsRing h args p zs r out =
    let n = (h p).next in
    let (on, back) = onward h p zs r in
    rw (insert_after_lem h args p, insert_between-linked h args p n refl back)
      (
        refl,
        splice-IsRing h _ p n args.space.offset zs
            (linked-IsSpliced h args null_offset p n (ground arith)
              (Onward-ne h n p args.space.offset zs on out))
            on r.distinct out,
      )

-- InsertBetween of two records that are no longer neighbours fails and writes nothing.
pub insert_between_stale :
    (h : Pmem) (args : WriteArgs) (p n : ℕ)
    → ((h p).next ≢ n) ⊎ ((h n).prev ≢ p)
    → insert_between h args p n ≡ (h, fail)
unfolding insert_between
insert_between_stale h args p n stale = ground arith

-- Update of a record of a list puts the new version in its place, with the old one behind it as
-- the old version. The list is seen as the ring from the record before on.
pub update_record-IsRing :
    (h : Pmem) (args : WriteArgs) (p r : ℕ) (zs : List ℕ)
    → IsRing h p (r ∷ zs)
    → has args.space.offset (p ∷ r ∷ zs) ≡ false
    → ((update_record h args r).1 ≡ ok)
      × IsRing (update_record h args r).0 p (args.space.offset ∷ zs)
      × (((update_record h args r).0 args.space.offset).old_version ≡ r)
update_record-IsRing h args p r zs v out =
    let n = (h r).next in
    let (on, back) = passed h p r zs v in
    rw (update_record-Linked h args p r n v.seg.0 refl back) (
      refl,
      splice-IsRing h _ p n args.space.offset zs
          (linked-IsSpliced h args r p n (ground arith)
            (Onward-ne h n p args.space.offset zs on (ground arith)))
          on (ground arith) (ground arith),
      linked_old_version h args r p n (ground arith)
          (Onward-ne h n p args.space.offset zs on (ground arith)),
    )
