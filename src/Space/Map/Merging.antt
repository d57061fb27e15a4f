-- ===== src/Space/Map/Merging.antt =====
-- TryMerge: the entries behind an entry are taken in whole, and the result is one entry.
pub mod Loop
use mathlib.Core.Path.{subst₂}
use kvdk.Prelude.{
  if◌then◌else◌, ltb, ==_iff, refl, ◌==◌, Bool-cases, [], ◌∙◌, subst, min, ℕ, zero, suc, ◌+◌, ◌-◌,
  ◌≤◌, ◌<◌, ◌≡◌, ◌≢◌, ◌⊎◌, inl, inr, true, arith,
}
use kvdk.Space.Map.{SpaceMap, test, try_merge, Merge, merge_loop, set_remaining}
use kvdk.Space.Map.Chain.{Chain, stop, more, stops_at}
use kvdk.Space.Map.Fill.{
  stops_at_cong, IsEntry, test-IsEntry, token-set_remaining, size-set_remaining,
  set_remaining-Chain,
}
use kvdk.Space.Map.Take.{IsEntry-of_test}
use Loop.{Entries, nothing, MergeInv, Ended, merge_loop-MergeInv}

-- A chain of `m` goes on in `g` where `g` has the same tokens, with what follows it there.
extend :
    {m : SpaceMap} (g : SpaceMap) {cur n : ℕ} (k : ℕ)
    → Chain m cur n
    → g.size ≡ m.size
    → ((j : ℕ) → cur ≤ j → j < cur + n → g.token j ≡ m.token j)
    → Chain g (cur + n) k
    → Chain g cur (n + k)
extend {m} g k (stop cur e) q same c = subst₂ (Chain g) (omega arith) (omega arith) c
extend {m} g k (more cur s {n = n} e z t p) q same c =
    let here : g.token cur ≡ m.token cur = same cur (omega arith) (omega arith) in
    more cur s (stops_at_cong g m cur q here ∙ e) (rw here z)
      (extend g k t q (λ j a b. same j (omega arith) (omega arith))
        (subst (λ i. Chain g i k) (omega arith) c))
      (omega arith)

grown :
    (m g : SpaceMap) (start size k : ℕ)
    → IsEntry m start size
    → g.size ≡ m.size
    → ((j : ℕ) → j < start + size → g.token j ≡ m.token j)
    → Chain g (start + size) k
    → test g start ≡ size + k
grown m g start size k v q same c =
    let here : g.token start ≡ m.token start = same start (omega (arith, v.whole, v.some_first)) in
    test-IsEntry g start (size + k) (record {
      first = v.first;
      rest = v.rest + k;
      starts = rw here v.starts;
      reads_first = rw here v.reads_first;
      some_first = v.some_first;
      chain =
          extend g k v.chain q (λ j a b. same j (omega (arith, v.whole)))
            (subst (λ i. Chain g i k) (omega (arith, v.whole)) c);
      whole = omega (arith, v.whole);
    })

Chain-end : {m : SpaceMap} {cur n : ℕ} → Chain m cur n → stops_at m (cur + n) ≡ true
Chain-end {m} (stop cur e) = subst (λ i. stops_at m i ≡ true) (omega arith) e
Chain-end {m} (more cur s e z t p) = subst (λ i. stops_at m i ≡ true) (omega arith) (Chain-end t)

-- Behind an entry no token continues it.
end_stops :
    (m : SpaceMap) (start size : ℕ) → IsEntry m start size → stops_at m (start + size) ≡ true
end_stops m start size v =
    subst (λ i. stops_at m i ≡ true) (omega (arith, v.whole)) (Chain-end v.chain)

-- What TryMerge gives when the entry at `start` has the stated size.
pub record IsMerged (m m' : SpaceMap) (start size limit merged : ℕ) : Type 0 where
  pub larger : size ≤ merged
  pub in_limit : start + merged ≤ start + limit
  pub takes : Entries m (start + size) (merged - size)
  pub one_entry : test m' start ≡ merged
  pub below : (j : ℕ) → j < start + size → m'.token j ≡ m.token j
  pub above : (j : ℕ) → start + merged ≤ j → m'.token j ≡ m.token j

-- The entry that a map has at `start`, once the loop has run and the range is filled.
fill-IsMerged :
    (m : SpaceMap) (start size limit : ℕ) (g : Merge)
    → IsEntry m start size
    → MergeInv m (start + size) size (min (start + limit) m.size) g
    → let added = g.merged_size - size in
      IsMerged m (set_remaining added g.map (start + size) added) start size limit g.merged_size
fill-IsMerged m start size limit g v w =
    let added = g.merged_size - size in
    let m' = set_remaining added g.map (start + size) added in
    let at : g.in_merge_offset ≡ start + size + added = omega (arith, w.at_end, w.larger) in
    let same_stop =
      stops_at_cong g.map m g.in_merge_offset w.same_size
        (w.above g.in_merge_offset (omega arith)) in
    let stopped : stops_at g.map (start + size + added) ≡ true = rw at at (same_stop ∙ w.fresh) in
    let (c, kept) =
      set_remaining-Chain added g.map (start + size) added (omega arith)
        (omega (arith, w.bounded, w.same_size)) stopped in
    record {
      larger = w.larger;
      in_limit = omega (arith, w.bounded, w.at_end);
      takes = w.taken;
      one_entry =
          grown m m' start size added v
            (size-set_remaining added g.map (start + size) added ∙ w.same_size)
            (λ j h. token-set_remaining added g.map (start + size) added j (inl h) ∙ w.below j h) c
          ∙ omega (arith, w.larger);
      below = λ j h. token-set_remaining added g.map (start + size) added j (inl h) ∙ w.below j h;
      above = λ j h.
          token-set_remaining added g.map (start + size) added j (inr (omega (arith, w.larger)))
          ∙ w.above j (omega (arith, w.at_end, w.larger));
    }

finish-IsMerged :
    (m : SpaceMap) (start size limit : ℕ) (g : Merge)
    → IsEntry m start size
    → MergeInv m (start + size) size (min (start + limit) m.size) g
    → let added = g.merged_size - size in
      let r : SpaceMap × ℕ =
        if ltb size g.merged_size
        then (set_remaining added g.map (start + size) added, g.merged_size)
        else (g.map, g.merged_size) in
      IsMerged m r.0 start size limit r.1
unfolding set_remaining
finish-IsMerged m start size limit g v w = elim (Bool-cases (ltb size g.merged_size)) [
  | inl e ↦ rw e (fill-IsMerged m start size limit g v w)
  | inr e ↦
      let none_added : g.merged_size - size ≡ 0 = ground (arith, w.larger) in
      rw e (rw none_added at (fill-IsMerged m start size limit g v w))
]

begin : SpaceMap → ℕ → ℕ → Merge
begin m start size = record {
  map = m;
  merged_size = size;
  in_merge_offset = start + size;
  in_merge_size = 0;
  to_clear = [];
}

begin-MergeInv :
    (m : SpaceMap) (start size limit : ℕ)
    → IsEntry m start size
    → start + size ≤ min (start + limit) m.size
    → MergeInv m (start + size) size (min (start + limit) m.size) (begin m start size)
unfolding begin
begin-MergeInv m start size limit v h = record {
  larger = omega arith;
  at_end = omega arith;
  bounded = h;
  same_size = refl;
  below = λ j lt. refl;
  above = λ j ge. refl;
  taken = subst (Entries m (start + size)) (omega arith) (nothing (start + size));
  fresh = end_stops m start size v;
  cells = λ j e. ground arith;
  walking = λ lt. absurd (omega arith);
}

-- TryMerge of an entry of the stated size, which ends within the limit and the map, takes in whole
-- entries that stand one behind another, stays within the limit, leaves one entry at the offset
-- that Test measures with the returned size, and changes no token of the entry itself and none
-- behind what it took in. If Test does not give the stated size, it returns 0 and changes nothing.
pub try_merge-IsMerged :
    (m : SpaceMap) (start size limit : ℕ)
    → 0 < size
    → start + size ≤ min (start + limit) m.size
    → ((test m start ≡ size)
        × IsMerged m
            (try_merge m start size limit).0
            start
            size
            limit
            (try_merge m start size limit).1)
      ⊎ ((test m start ≢ size) × (try_merge m start size limit ≡ (m, 0)))
unfolding try_merge begin
try_merge-IsMerged m start size limit pos h = elim (Bool-cases (test m start == size)) [
  | inr e ↦ inr (ground arith, rw e)
  | inl e ↦
      let q = (==_iff (test m start) size).0 e in
      let v = IsEntry-of_test m start size pos q in
      let start_inv = begin-MergeInv m start size limit v h in
      let (w, ended) =
        merge_loop-MergeInv m (start + size) size (min (start + limit) m.size) (omega arith)
          (suc m.size) (begin m start size) start_inv (omega arith) in
      inl (q, rw e (finish-IsMerged m start size limit _ v w))
]
