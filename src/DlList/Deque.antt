-- ===== src/DlList/Deque.antt =====
-- PushFront, PushBack, RemoveFront and RemoveBack: the list as a deque. With no other thread at work
-- the first try of each loop succeeds.
use kvdk.Prelude.{
  ◌≢◌, has-append, ℕ, suc, ◌≡◌, refl, ◌∙◌, ap, sym, List, [], ◌∷◌, ◌++◌, true, false, arith, has,
  Option, none, some,
}
use kvdk.DlList.{
  insert_between, Pmem, WriteArgs, insert_after, insert_before, push_front, push_back, remove,
  remove_front, remove_back, ok,
}
use kvdk.DlList.Ring.{Linked, IsRing, IsRing-rotate}
use kvdk.DlList.Insert.{insert_after-IsRing}
use kvdk.DlList.Unlink.{remove-IsRing}

-- The memory holds the list `xs` behind the header afterwards.
abbrev pub Pushed : Option Pmem → ℕ → List ℕ → Type 0
Pushed o hd xs = (g : Pmem) × ((o ≡ some g) × IsRing g hd xs)

abbrev pub Removed : Option (Pmem × Option ℕ) → ℕ → Option ℕ → List ℕ → Type 0
Removed o hd r xs = (g : Pmem) × ((o ≡ some (g, r)) × IsRing g hd xs)

-- PushFront puts the new record in front of the list, at the first try, if its offset is not in the
-- list.
pub push_front-IsRing :
    (f : ℕ) (h : Pmem) (args : WriteArgs) (hd : ℕ) (xs : List ℕ)
    → IsRing h hd xs
    → has args.space.offset (hd ∷ xs) ≡ false
    → Pushed (push_front (suc f) h args hd) hd (args.space.offset ∷ xs)
unfolding push_front insert_after
push_front-IsRing f h args hd xs r out =
    let (done, ring) = insert_after-IsRing h args hd xs r out in
    ((insert_after h args hd).0, (rw (push_front, done) refl, ring))

-- Between the last record and the header.
pub insert_before_last :
    (h : Pmem) (args : WriteArgs) (p hd : ℕ)
    → Linked h p hd
    → insert_before h args hd ≡ insert_after h args p
unfolding insert_before insert_after
insert_before_last h args p hd l =
    ap (λ q. insert_between h args q hd) l.1 ∙ ap (insert_between h args p) (sym l.0)

pushed_back :
    (f : ℕ) (h : Pmem) (args : WriteArgs) (hd : ℕ)
    → (insert_before h args hd).1 ≡ ok
    → push_back (suc f) h args hd ≡ some (insert_before h args hd).0
unfolding push_back insert_before
pushed_back f h args hd done = rw (push_back, done) refl

push_back_empty :
    (f : ℕ) (h : Pmem) (args : WriteArgs) (hd : ℕ)
    → IsRing h hd []
    → has args.space.offset (hd ∷ []) ≡ false
    → Pushed (push_back (suc f) h args hd) hd (args.space.offset ∷ [])
push_back_empty f h args hd r out =
    let (done, ring) = insert_after-IsRing h args hd [] r out in
    let e = insert_before_last h args hd hd r.seg in
    ((insert_before h args hd).0, (pushed_back f h args hd (rw e done), rw e ring))

-- PushBack puts the new record behind the last one, at the first try, if its offset is not in the
-- list.
pub push_back-IsRing :
    (f : ℕ) (h : Pmem) (args : WriteArgs) (hd p : ℕ) (ys : List ℕ)
    → IsRing h hd (ys ++ p ∷ [])
    → has args.space.offset (hd ∷ ys ++ p ∷ []) ≡ false
    → Pushed (push_back (suc f) h args hd) hd (ys ++ p ∷ args.space.offset ∷ [])
push_back-IsRing f h args hd p ys r out =
    let q = IsRing-rotate h hd p ys [] r in
    let (done, ring) =
      insert_after-IsRing h args p (hd ∷ ys) q
        (ground (arith, has-append args.space.offset ys (p ∷ []))) in
    let e = insert_before_last h args p hd q.seg.0 in
    (
      (insert_before h args hd).0,
      (
        pushed_back f h args hd (rw e done),
        rw e (IsRing-rotate _ p hd (args.space.offset ∷ []) ys ring),
      ),
    )

-- RemoveFront takes the first record out, at the first try.
pub remove_front-IsRing :
    (f : ℕ) (h : Pmem) (hd x : ℕ) (xs : List ℕ)
    → IsRing h hd (x ∷ xs)
    → Removed (remove_front (suc f) h hd) hd (some x) xs
unfolding remove_front
remove_front-IsRing f h hd x xs r =
    let (done, ring) = remove-IsRing h hd x xs r in
    ((remove h x).0, (ground (arith, r.seg.0.0, r.distinct, done), ring))

-- RemoveFront and RemoveBack of an empty list change nothing and give nothing.
pub remove_empty :
    (f : ℕ) (h : Pmem) (hd : ℕ)
    → IsRing h hd []
    → (remove_front (suc f) h hd ≡ some (h, none)) × (remove_back (suc f) h hd ≡ some (h, none))
unfolding remove_front remove_back
remove_empty f h hd r = let l = r.seg in (ground arith, ground arith)

removed_back :
    (f : ℕ) (h : Pmem) (hd p : ℕ)
    → (h hd).prev ≡ p
    → p ≢ hd
    → (remove h p).1 ≡ true
    → remove_back (suc f) h hd ≡ some ((remove h p).0, some p)
unfolding remove_back
removed_back f h hd p e ne done = ground arith

-- The only record, or the one behind `q`.
pub remove_back_only :
    (f : ℕ) (h : Pmem) (hd p : ℕ)
    → IsRing h hd (p ∷ [])
    → Removed (remove_back (suc f) h hd) hd (some p) []
remove_back_only f h hd p r =
    let (done, ring) = remove-IsRing h hd p [] r in
    ((remove h p).0, (removed_back f h hd p r.seg.1.1 (ground (arith, r.distinct)) done, ring))

-- RemoveBack takes the last record out, at the first try, if there are two at least.
pub remove_back-IsRing :
    (f : ℕ) (h : Pmem) (hd q p : ℕ) (zs : List ℕ)
    → IsRing h hd (zs ++ q ∷ p ∷ [])
    → Removed (remove_back (suc f) h hd) hd (some p) (zs ++ q ∷ [])
remove_back-IsRing f h hd q p zs r =
    let v = IsRing-rotate h hd q zs (p ∷ []) r in
    let (done, ring) = remove-IsRing h q p (hd ∷ zs) v in
    (
      (remove h p).0,
      (
        removed_back f h hd p v.seg.1.0.1 (ground (arith, v.distinct)) done,
        IsRing-rotate _ q hd [] zs ring,
      ),
    )
