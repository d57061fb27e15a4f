-- ===== src/ListCollection/Place.antt =====
-- Writes at any place of a DLList: the ring read from its header, and the contents of the records.
use mathlib.Core.List.{append_assoc, append-nil}
use kvdk.Prelude.{
  ℕ, suc, ◌≡◌, refl, sym, subst, ◌⊎◌, inl, inr, List, [], ◌∷◌, ◌++◌, false, arith, has, has-append,
  some, ◌==◌, if◌then◌else◌,
}
use kvdk.DlList.{
  push_front, push_back, Status, Pmem, WriteArgs, insert_after, insert_before, insert_between,
  update_record, ok, link_record, persist_record, set_next, set_prev, new_record,
}
use kvdk.DlList.Ring.{IsRing, IsRing-rotate}
use kvdk.DlList.Insert.{insert_after-IsRing, update_record-IsRing}
use kvdk.DlList.Deque.{insert_before_last}

pub Snoc-cases : (xs : List ℕ) → (xs ≡ []) ⊎ ((ys : List ℕ) × (p : ℕ) × (xs ≡ ys ++ p ∷ []))
Snoc-cases [] = inl refl
Snoc-cases (x ∷ xs) = elim (Snoc-cases xs) [
  | inl e ↦ inr ([], x, rw e refl)
  | inr (ys, p, e) ↦ inr (x ∷ ys, p, rw e refl)
]

-- The record before the rest `ys` of a list, and the ring from there on.
pub record Before (h : Pmem) (hd : ℕ) (xs ys : List ℕ) : Type 0 where
  pub prev : ℕ
  pub rest : List ℕ
  pub here : IsRing h prev (ys ++ rest)
  pub from_header : (g : Pmem) (zs : List ℕ) → IsRing g prev (zs ++ rest) → IsRing g hd (xs ++ zs)
  pub outside : (r : ℕ) → has r (hd ∷ xs ++ ys) ≡ false → has r (prev ∷ ys ++ rest) ≡ false

before_first : (h : Pmem) (hd : ℕ) (ys : List ℕ) → IsRing h hd ys → Before h hd [] ys
before_first h hd ys r = record {
  prev = hd;
  rest = [];
  here = rw (append-nil ys) r;
  from_header = λ g zs v. subst (λ z. IsRing g hd z) (append-nil zs) v;
  outside = λ q out. rw (append-nil ys) out;
}

before_behind :
    (h : Pmem) (hd p : ℕ) (xs ys : List ℕ)
    → IsRing h hd ((xs ++ p ∷ []) ++ ys)
    → Before h hd (xs ++ p ∷ []) ys
before_behind h hd p xs ys r = record {
  prev = p;
  rest = hd ∷ xs;
  here = IsRing-rotate h hd p xs ys (subst (λ z. IsRing h hd z) (append_assoc xs (p ∷ []) ys) r);
  from_header = λ g zs v. rw (append_assoc xs (p ∷ []) zs) (IsRing-rotate g p hd zs xs v);
  outside = λ q out.
      ground (
        arith,
        has-append q (xs ++ p ∷ []) ys,
        has-append q xs (p ∷ []),
        has-append q ys (hd ∷ xs),
      );
}

pub before : (h : Pmem) (hd : ℕ) (xs ys : List ℕ) → IsRing h hd (xs ++ ys) → Before h hd xs ys
before h hd xs ys r = elim (Snoc-cases xs) [
  | inl e ↦
      subst (λ z. Before h hd z ys) (sym e)
        (before_first h hd ys (subst (λ z. IsRing h hd (z ++ ys)) e r))
  | inr (zs, p, e) ↦
      subst (λ z. Before h hd z ys) (sym e)
        (before_behind h hd p zs ys (subst (λ z. IsRing h hd (z ++ ys)) e r))
]

-- One record is written, and no other changes but for its links.
pub record IsWritten (h g : Pmem) (args : WriteArgs) : Type 0 where
  pub status :
      (i : ℕ) → (g i).status ≡ (if i == args.space.offset then args.status else (h i).status)
  pub value : (i : ℕ) → (g i).value ≡ (if i == args.space.offset then args.value else (h i).value)

insert_between-IsWritten :
    (h : Pmem) (args : WriteArgs) (p n : ℕ)
    → (insert_between h args p n).1 ≡ ok
    → IsWritten h (insert_between h args p n).0 args
unfolding insert_between link_record persist_record set_next set_prev new_record
insert_between-IsWritten h args p n done = record {
  status = λ i. ground arith;
  value = λ i. ground arith;
}

update_record-IsWritten :
    (h : Pmem) (args : WriteArgs) (x : ℕ)
    → (update_record h args x).1 ≡ ok
    → IsWritten h (update_record h args x).0 args
unfolding update_record link_record persist_record set_next set_prev new_record
update_record-IsWritten h args x done = record {
  status = λ i. ground arith;
  value = λ i. ground arith;
}

-- A write that succeeds, and leaves the list `zs`.
pub record Places (h : Pmem) (args : WriteArgs) (hd : ℕ) (zs : List ℕ) (r : Pmem × Status)
    : Type 0 where
  pub done : r.1 ≡ ok
  pub ring : IsRing r.0 hd zs
  pub written : IsWritten h r.0 args

module _ (h : Pmem) (args : WriteArgs) (hd : ℕ) (xs : List ℕ) where
  pub insert_before-Places :
      (x : ℕ) (ys : List ℕ)
      → IsRing h hd (xs ++ x ∷ ys)
      → has args.space.offset (hd ∷ xs ++ x ∷ ys) ≡ false
      → Places h args hd (xs ++ args.space.offset ∷ x ∷ ys) (insert_before h args x)
  unfolding insert_after insert_before
  insert_before-Places x ys r out =
      let b = before h hd xs (x ∷ ys) r in
      let (done, ring) =
        insert_after-IsRing h args b.prev ((x ∷ ys) ++ b.rest) b.here
          (b.outside args.space.offset out) in
      rw (insert_before_last h args b.prev x b.here.seg.0) record {
        done = done;
        ring = b.from_header _ (args.space.offset ∷ x ∷ ys) ring;
        written = insert_between-IsWritten h args b.prev (h b.prev).next done;
      }

  pub insert_after-Places :
      (x : ℕ) (ys : List ℕ)
      → IsRing h hd (xs ++ x ∷ ys)
      → has args.space.offset (hd ∷ xs ++ x ∷ ys) ≡ false
      → Places h args hd (xs ++ x ∷ args.space.offset ∷ ys) (insert_after h args x)
  unfolding insert_after
  insert_after-Places x ys r out =
      let (done, ring) =
        insert_after-IsRing h args x (ys ++ hd ∷ xs) (IsRing-rotate h hd x xs ys r) (
          ground (
            arith,
            has-append args.space.offset xs (x ∷ ys),
            has-append args.space.offset ys (hd ∷ xs),
          )) in
      record {
        done = done;
        ring = IsRing-rotate _ x hd (args.space.offset ∷ ys) xs ring;
        written = insert_between-IsWritten h args x (h x).next done;
      }

  pub update_record-Places :
      (x : ℕ) (ys : List ℕ)
      → IsRing h hd (xs ++ x ∷ ys)
      → has args.space.offset (hd ∷ xs ++ x ∷ ys) ≡ false
      → Places h args hd (xs ++ args.space.offset ∷ ys) (update_record h args x)
  update_record-Places x ys r out =
      let b = before h hd xs (x ∷ ys) r in
      let (done, ring, old) =
        update_record-IsRing h args b.prev x (ys ++ b.rest) b.here
          (b.outside args.space.offset out) in
      record {
        done = done;
        ring = b.from_header _ (args.space.offset ∷ ys) ring;
        written = update_record-IsWritten h args x done;
      }

-- In front of the header, which is behind the last record.
before_header :
    (h : Pmem) (args : WriteArgs) (hd p : ℕ) (ys : List ℕ)
    → IsRing h p (hd ∷ ys)
    → has args.space.offset (p ∷ hd ∷ ys) ≡ false
    → Places h args hd (ys ++ p ∷ args.space.offset ∷ []) (insert_before h args hd)
unfolding insert_after insert_before
before_header h args hd p ys r out =
    let (done, ring) = insert_after-IsRing h args p (hd ∷ ys) r out in
    rw (insert_before_last h args p hd r.seg.0) record {
      done = done;
      ring = IsRing-rotate _ p hd (args.space.offset ∷ []) ys ring;
      written = insert_between-IsWritten h args p (h p).next done;
    }

before_header_alone :
    (h : Pmem) (args : WriteArgs) (hd : ℕ)
    → IsRing h hd []
    → has args.space.offset (hd ∷ []) ≡ false
    → Places h args hd (args.space.offset ∷ []) (insert_before h args hd)
unfolding insert_after insert_before
before_header_alone h args hd r out =
    let (done, ring) = insert_after-IsRing h args hd [] r out in
    rw (insert_before_last h args hd hd r.seg) record {
      done = done;
      ring = ring;
      written = insert_between-IsWritten h args hd (h hd).next done;
    }

module _ (h : Pmem) (args : WriteArgs) (hd : ℕ) (xs : List ℕ) (r : IsRing h hd xs)
    (out : has args.space.offset (hd ∷ xs) ≡ false) where
  pub front-Places : Places h args hd (args.space.offset ∷ xs) (insert_after h args hd)
  unfolding insert_after
  front-Places =
      let (done, ring) = insert_after-IsRing h args hd xs r out in
      record {
        done = done;
        ring = ring;
        written = insert_between-IsWritten h args hd (h hd).next done;
      }

  pub back-Places : Places h args hd (xs ++ args.space.offset ∷ []) (insert_before h args hd)
  back-Places = elim (Snoc-cases xs) [
    | inl e ↦
        subst (λ z. Places h args hd (z ++ args.space.offset ∷ []) (insert_before h args hd))
          (sym e)
          (before_header_alone h args hd (subst (IsRing h hd) e r)
            (subst (λ z. has args.space.offset (hd ∷ z) ≡ false) e out))
    | inr (ys, p, e) ↦
        let ring = IsRing-rotate h hd p ys [] (subst (IsRing h hd) e r) in
        let unused = subst (λ z. has args.space.offset (hd ∷ z) ≡ false) e out in
        subst (λ z. Places h args hd (z ++ args.space.offset ∷ []) (insert_before h args hd))
          (sym e)
          (subst (λ z. Places h args hd z (insert_before h args hd))
            (sym (append_assoc ys (p ∷ []) (args.space.offset ∷ [])))
            (before_header h args hd p ys ring
              (ground (arith, unused, has-append args.space.offset ys (p ∷ [])))))
  ]

  pub push_front-Places : (f : ℕ) → push_front (suc f) h args hd ≡ some (insert_after h args hd).0
  unfolding push_front
  push_front-Places f = rw (push_front, front-Places.done) refl

  pub push_back-Places : (f : ℕ) → push_back (suc f) h args hd ≡ some (insert_before h args hd).0
  unfolding push_back
  push_back-Places f = rw (push_back, back-Places.done) refl
