-- ===== src/DlList/Unlink.antt =====
-- Remove and Replace on a well-formed list.
use kvdk.Prelude.{
  ℕ, ◌≡◌, ◌≢◌, refl, List, [], ◌∷◌, ◌++◌, true, false, arith, has, has-append, Distinct,
  if◌then◌else◌, ◌==◌, has_ne,
}
use kvdk.DlList.{Pmem, link_record, set_next, set_prev, remove, replace}
use kvdk.DlList.Ring.{Linked, IsRing, Seg-frame}
use kvdk.DlList.Insert.{IsSpliced, Onward, splice-IsRing, passed, Onward-ne}

unlink : Pmem → (prev next : ℕ) → Pmem
unlink h p n = set_next (set_prev h n p) p n

unlink_next : (h : Pmem) (p n i : ℕ) → (unlink h p n i).next ≡ (if i == p then n else (h i).next)
unfolding unlink set_next set_prev
unlink_next h p n i = ground arith

unlink_prev : (h : Pmem) (p n i : ℕ) → (unlink h p n i).prev ≡ (if i == n then p else (h i).prev)
unfolding unlink set_next set_prev
unlink_prev h p n i = ground arith

unlink-IsRing :
    (h : Pmem) (p n : ℕ) (zs : List ℕ)
    → Onward h n zs p
    → Distinct (p ∷ zs)
    → IsRing (unlink h p n) p zs
unlink-IsRing h p n [] on d = record {
  seg = (ground (arith, unlink_next h p n p), ground (arith, unlink_prev h p n p));
  distinct = d;
}
unlink-IsRing h p n (z ∷ zs) on d = record {
  seg = (
    (ground (arith, unlink_next h p n p), ground (arith, unlink_prev h p n z)),
    Seg-frame h (unlink h p n) z zs p on.1
        (λ i e. ground (arith, unlink_next h p n i, has_ne i p (z ∷ zs) e d.0))
        (λ i e. ground (
          arith,
          unlink_prev h p n i,
          has_ne i z (zs ++ p ∷ []) e (ground (arith, has-append z zs (p ∷ []))),
        )),
  );
  distinct = d;
}

remove-Linked :
    (h : Pmem) (p r n : ℕ) → Linked h p r → (h r).next ≡ n → remove h r ≡ (unlink h p n, true)
unfolding remove unlink
remove-Linked h p r n l e = ground arith

-- Remove takes a record out of the list that it is on. The list is seen as the ring from the
-- record before on.
pub remove-IsRing :
    (h : Pmem) (p r : ℕ) (zs : List ℕ)
    → IsRing h p (r ∷ zs)
    → ((remove h r).1 ≡ true) × IsRing (remove h r).0 p zs
remove-IsRing h p r zs v =
    let n = (h r).next in
    let (on, back) = passed h p r zs v in
    rw (remove-Linked h p r n v.seg.0 refl)
      (refl, unlink-IsRing h p n zs on (ground (arith, v.distinct)))

-- A record whose predecessor names another one is not on the list any more: Remove and Replace
-- refuse it and write nothing.
pub unlinked_refused :
    (h : Pmem) (r m : ℕ)
    → (h (h r).prev).next ≢ r
    → (remove h r ≡ (h, false)) × (replace h r m ≡ (h, false))
unfolding remove replace
unlinked_refused h r m off = (ground arith, ground arith)

replaced : Pmem → (prev next new : ℕ) → Pmem
replaced h p n m = link_record (set_next (set_prev h m p) m n) p n m

replaced-IsSpliced : (h : Pmem) (p n m : ℕ) → m ≢ p → m ≢ n → IsSpliced h (replaced h p n m) p n m
unfolding replaced link_record set_next set_prev
replaced-IsSpliced h p n m np nn = record { next = λ i. ground arith; prev = λ i. ground arith }

replace-Linked :
    (h : Pmem) (p r n m : ℕ)
    → Linked h p r
    → (h r).next ≡ n
    → p ≢ r
    → replace h r m ≡ (replaced h p n m, true)
unfolding replace replaced
replace-Linked h p r n m l e ne = ground arith

-- Replace puts a record that is on no list in the place of one that is.
pub replace-IsRing :
    (h : Pmem) (p r m : ℕ) (zs : List ℕ)
    → IsRing h p (r ∷ zs)
    → has m (p ∷ r ∷ zs) ≡ false
    → ((replace h r m).1 ≡ true) × IsRing (replace h r m).0 p (m ∷ zs)
replace-IsRing h p r m zs v out =
    let n = (h r).next in
    let (on, back) = passed h p r zs v in
    let ne : p ≢ r = ground (arith, v.distinct) in
    rw (replace-Linked h p r n m v.seg.0 refl ne) (
      refl,
      splice-IsRing h _ p n m zs
          (replaced-IsSpliced h p n m (ground arith) (Onward-ne h n p m zs on (ground arith))) on
          (ground (arith, v.distinct)) (ground arith),
    )

-- A header that is alone on its list is replaced by a header that is alone, and no longer names
-- itself as its predecessor, which is how recovery tells it from a live one.
pub replace_alone :
    (h : Pmem) (r m : ℕ)
    → IsRing h r []
    → m ≢ r
    → ((replace h r m).1 ≡ true) × IsRing (replace h r m).0 m [] × (((replace h r m).0 r).prev ≡ m)
unfolding replace link_record set_next set_prev
replace_alone h r m v ne =
    let l = v.seg in
    (
      ground arith,
      record { seg = (ground arith, ground arith); distinct = (refl, tt) },
      ground arith,
    )
