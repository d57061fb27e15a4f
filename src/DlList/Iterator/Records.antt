-- ===== src/DlList/Iterator/Records.antt =====
-- The records that DLListRecordIterator visits.
use kvdk.Prelude.{
  ap, ◌∙◌, ℕ, zero, suc, ◌≡◌, refl, List, [], ◌∷◌, ◌++◌, length, none, true, false, All,
}
use kvdk.DlList.{Pmem}
use kvdk.DlList.Ring.{Seg, IsRing}
use kvdk.DlList.Iterator.{is_elem, record_next, record_seek_to_first, record_of}

-- Next, `n` times.
unfoldable pub nexts : Pmem → ℕ → ℕ → ℕ
unfolding record_next
nexts h zero r = r
nexts h (suc n) r = nexts h n (record_next h r)

record_next_elem : (h : Pmem) (r : ℕ) → is_elem (h r) ≡ true → record_next h r ≡ (h r).next
unfolding record_next
record_next_elem h r e = rw e refl

nexts_step : (h : Pmem) (n r : ℕ) → is_elem (h r) ≡ true → nexts h (suc n) r ≡ nexts h n (h r).next
unfolding nexts
nexts_step h n r e = ap (nexts h n) (record_next_elem h r e)

nexts-Seg :
    (h : Pmem) (a b x : ℕ) (ys zs : List ℕ)
    → Seg h a (ys ++ x ∷ zs) b
    → All (λ i. is_elem (h i) ≡ true) ys
    → nexts h (length ys) (h a).next ≡ x
unfolding nexts
nexts-Seg h a b x [] zs s es = s.0.0
nexts-Seg h a b x (y ∷ ys) zs s es =
    rw s.0.0 (nexts_step h (length ys) y es.0 ∙ nexts-Seg h y b x ys zs s.1 es.1)

nexts_end :
    (h : Pmem) (a b : ℕ) (ys : List ℕ)
    → Seg h a ys b
    → All (λ i. is_elem (h i) ≡ true) ys
    → nexts h (length ys) (h a).next ≡ b
unfolding nexts
nexts_end h a b [] s es = s.0
nexts_end h a b (y ∷ ys) s es =
    rw s.0.0 (nexts_step h (length ys) y es.0 ∙ nexts_end h y b ys s.1 es.1)

-- After SeekToFirst and as many calls of Next as there are records before `x`, the iterator stands at
-- `x`. After a call for each record of the list it stands at the header and gives no record.
pub record_next-IsRing :
    (h : Pmem) (hd x : ℕ) (ys zs : List ℕ)
    → IsRing h hd (ys ++ x ∷ zs)
    → All (λ i. is_elem (h i) ≡ true) ys
    → All (λ i. is_elem (h i) ≡ true) (ys ++ x ∷ zs)
    → is_elem (h hd) ≡ false
    → (nexts h (length ys) (record_seek_to_first h hd) ≡ x)
      × (record_of h (nexts h (length (ys ++ x ∷ zs)) (record_seek_to_first h hd)) ≡ none)
unfolding record_seek_to_first record_of
record_next-IsRing h hd x ys zs r es all e =
    (nexts-Seg h hd hd x ys zs r.seg es, rw (nexts_end h hd hd (ys ++ x ∷ zs) r.seg all, e) refl)
