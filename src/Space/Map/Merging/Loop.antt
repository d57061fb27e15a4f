-- ===== src/Space/Map/Merging/Loop.antt =====
-- The loop of TryMerge and its invariant.
use kvdk.Prelude.{
  has-append, has, ltb→lt, ℕ, zero, suc, ◌+◌, ◌-◌, ◌*◌, ◌≤◌, ◌<◌, ◌≡◌, refl, ◌⊎◌, inl, inr, true,
  false, ◌||◌, [], ◌∷◌, arith, ltb, leb, Bool-cases, if◌then◌else◌, ◌∙◌, subst,
}
use kvdk.Space.Token.{is_empty}
use kvdk.Space.Map.{
  SpaceMap, start_at, empty_at, size_at, Merge, commit, advance, merge_loop, max_adjacent,
}
use kvdk.Space.Map.Chain.{Chain, stop, more, stops_at, go_on}
use kvdk.Space.Map.Fill.{IsEntry}
use kvdk.Space.Map.Take.{size-clear_all, token-clear_all}

-- Whole entries stand one behind another from `cur` on, with `n` blocks in all.
pub data Entries (m : SpaceMap) : ℕ → ℕ → Type 0 where
  nothing : (cur : ℕ) → Entries m cur 0
  entry : {cur s n k : ℕ} → Entries m cur n → IsEntry m (cur + n) s → k ≡ n + s → Entries m cur k

abbrev pub cur_of : Merge → ℕ
cur_of g = g.in_merge_offset + g.in_merge_size

-- `from` is the end of the entry that grows, `base` its size.
pub record MergeInv (m : SpaceMap) (from base end : ℕ) (g : Merge) : Type 0 where
  pub larger : base ≤ g.merged_size
  pub at_end : g.in_merge_offset + base ≡ from + g.merged_size
  pub bounded : g.in_merge_offset ≤ end
  pub same_size : g.map.size ≡ m.size
  pub below : (j : ℕ) → j < from → g.map.token j ≡ m.token j
  pub above : (j : ℕ) → g.in_merge_offset ≤ j → g.map.token j ≡ m.token j
  pub taken : Entries m from (g.merged_size - base)
  pub fresh : stops_at m g.in_merge_offset ≡ true
  pub cells : (j : ℕ) → has j g.to_clear ≡ true → (g.in_merge_offset ≤ j) × (j < cur_of g)
  pub walking :
      0 < g.in_merge_size
      → (n : ℕ) → Chain m (cur_of g) n
      → IsEntry m g.in_merge_offset (g.in_merge_size + n)

-- The loop's own reasons to end.
abbrev pub Ended : ℕ → Merge → Type 0
Ended end g =
    (end ≤ cur_of g)
    ⊎ (g.merged_size * max_adjacent < g.in_merge_size)
    ⊎ (empty_at g.map (cur_of g) ≡ true)

positive : (m : SpaceMap) (i : ℕ) → empty_at m i ≡ false → 0 < size_at m i
unfolding is_empty
positive m i e = ground arith

cur_of-advance : (g : Merge) (cur : ℕ) → cur_of (advance g cur) ≡ cur_of g + size_at g.map cur
unfolding advance
cur_of-advance g cur = omega arith

module _ (m : SpaceMap) (from base end : ℕ) (room : end ≤ m.size) where
  -- The entry that has been walked, at a cell where the walk stops.
  walked :
      (g : Merge)
      → MergeInv m from base end g
      → stops_at m (cur_of g) ≡ true
      → 0 < g.in_merge_size
      → IsEntry m (from + (g.merged_size - base)) g.in_merge_size
  walked g v e pos =
      let whole = v.walking pos 0 (stop (cur_of g) e) in
      let at : g.in_merge_offset ≡ from + (g.merged_size - base) =
        omega (arith, v.at_end, v.larger) in
      subst (λ i. IsEntry m i g.in_merge_size) at
        (subst (IsEntry m g.in_merge_offset) (omega arith) whole)

  -- At a cell that starts an entry or is empty the walked entry is taken in.
  commit-MergeInv :
      (g : Merge)
      → MergeInv m from base end g
      → stops_at m (cur_of g) ≡ true
      → cur_of g < end
      → MergeInv m from base end (commit g (cur_of g))
  unfolding commit
  commit-MergeInv g v e lt = elim (Bool-cases (ltb 0 g.in_merge_size)) [
    | inr none_walked ↦ rw none_walked v
    | inl some_walked ↦
        let pos : 0 < g.in_merge_size = ltb→lt 0 g.in_merge_size some_walked in
        rw some_walked (record {
          larger = omega (arith, v.larger);
          at_end = omega (arith, v.at_end);
          bounded = omega arith;
          same_size = size-clear_all g.map g.to_clear ∙ v.same_size;
          below = λ j h.
              ground (
                arith,
                token-clear_all g.map g.to_clear j,
                v.cells j,
                v.below j,
                v.at_end,
                v.larger,
              );
          above = λ j h. ground (arith, token-clear_all g.map g.to_clear j, v.cells j, v.above j);
          taken = entry v.taken (walked g v e pos) (omega (arith, v.larger));
          fresh = e;
          cells = λ j h. ground arith;
          walking = λ h. absurd (omega arith);
        })
  ]

  -- The cell behind the walked blocks adds its own.
  longer :
      (g : Merge)
      → MergeInv m from base end g
      → cur_of g < end
      → empty_at m (cur_of g) ≡ false
      → ((0 < g.in_merge_size) × (start_at m (cur_of g) ≡ false))
        ⊎ ((g.in_merge_size ≡ 0) × (start_at m (cur_of g) ≡ true))
      → (n : ℕ) → Chain m (cur_of g + size_at m (cur_of g)) n
      → IsEntry m g.in_merge_offset (g.in_merge_size + size_at m (cur_of g) + n)
  longer g v lt e (inl (pos, st)) n c =
      let going : stops_at m (cur_of g) ≡ false = ground arith in
      let (s, z, inside) = go_on m (cur_of g) going in
      let c' : Chain m (cur_of g + suc s) n = subst (λ i. Chain m (cur_of g + i) n) z c in
      subst (IsEntry m g.in_merge_offset) (omega arith)
        (v.walking pos (suc s + n) (more (cur_of g) s going z c' refl))
  longer g v lt e (inr (none_yet, st)) n c =
      let here : cur_of g ≡ g.in_merge_offset = omega arith in
      record {
        first = size_at m (cur_of g);
        rest = n;
        starts = rw here at st;
        reads_first = rw here;
        some_first = positive m (cur_of g) e;
        chain = subst (λ i. Chain m (i + size_at m (cur_of g)) n) here c;
        whole = omega arith;
      }

  advance-MergeInv :
      (g : Merge)
      → MergeInv m from base end g
      → cur_of g < end
      → empty_at m (cur_of g) ≡ false
      → ((0 < g.in_merge_size) × (start_at m (cur_of g) ≡ false))
        ⊎ ((g.in_merge_size ≡ 0) × (start_at m (cur_of g) ≡ true))
      → MergeInv m from base end (advance g (cur_of g))
  unfolding advance
  advance-MergeInv g v lt e k =
      let same : size_at g.map (cur_of g) ≡ size_at m (cur_of g) =
        ground (arith, v.above (cur_of g)) in
      record {
        larger = v.larger;
        at_end = v.at_end;
        bounded = v.bounded;
        same_size = v.same_size;
        below = v.below;
        above = v.above;
        taken = v.taken;
        fresh = v.fresh;
        cells = λ j h. ground (
          arith,
          has-append j g.to_clear (cur_of g ∷ []),
          v.cells j,
          positive m (cur_of g) e,
          same,
        );
        walking = λ h n c.
            rw same (longer g v lt e k n (subst (λ i. Chain m i n) (rw same (omega arith)) c));
      }

  -- The entry to go on with: the one at hand, or a new one if that one ends here.
  abbrev turn : Merge → Merge
  turn g = if start_at g.map (cur_of g) || empty_at g.map (cur_of g) then commit g (cur_of g) else g

  cur_of-turn : (g : Merge) → cur_of (turn g) ≡ cur_of g
  unfolding commit
  cur_of-turn g = ground arith

  turn-MergeInv :
      (g : Merge) → MergeInv m from base end g → cur_of g < end → MergeInv m from base end (turn g)
  turn-MergeInv g v lt =
      let same = v.above (cur_of g) (omega arith) in
      elim (Bool-cases (start_at g.map (cur_of g) || empty_at g.map (cur_of g))) [
        | inl e ↦ rw e (commit-MergeInv g v (ground arith) lt)
        | inr e ↦ rw e v
      ]

  turn_next :
      (g : Merge)
      → MergeInv m from base end g
      → cur_of g < end
      → empty_at m (cur_of g) ≡ false
      → ((0 < (turn g).in_merge_size) × (start_at m (cur_of g) ≡ false))
        ⊎ (((turn g).in_merge_size ≡ 0) × (start_at m (cur_of g) ≡ true))
  unfolding commit
  turn_next g v lt e =
      let same = v.above (cur_of g) (omega arith) in
      elim (Bool-cases (start_at m (cur_of g))) [
        | inl st ↦ inr (ground arith, st)
        | inr st ↦ elim (Bool-cases (ltb 0 g.in_merge_size)) [
          | inl some ↦ inl (ground arith, st)
          | inr none ↦
              let here : g.in_merge_offset ≡ cur_of g = ground arith in
              let again : stops_at m (cur_of g) ≡ true = rw (← here) v.fresh in
              absurd (ground arith)
        ]
      ]

  -- The loop keeps the invariant, and its fuel lets it end by its own tests.
  pub merge_loop-MergeInv :
      (f : ℕ) (g : Merge)
      → MergeInv m from base end g
      → m.size < f + cur_of g
      → MergeInv m from base end (merge_loop f end g) × Ended end (merge_loop f end g)
  unfolding merge_loop
  merge_loop-MergeInv zero g v h = (v, inl (omega arith))
  merge_loop-MergeInv (suc f) g v h =
      elim (Bool-cases (leb end (cur_of g) || ltb (g.merged_size * max_adjacent) g.in_merge_size)) [
        | inl over ↦ rw over (v, ground arith)
        | inr on ↦
            let lt : cur_of g < end = ground arith in
            let v' = turn-MergeInv g v lt in
            let same_cur = cur_of-turn g in
            let lt' : cur_of (turn g) < end = omega arith in
            let same = v'.above (cur_of (turn g)) (omega arith) in
            rw on (elim (Bool-cases (empty_at (turn g).map (cur_of g))) [
              | inl done ↦ rw done (v', inr (inr (rw same_cur done)))
              | inr filled ↦
                  let e : empty_at m (cur_of (turn g)) ≡ false = ground arith in
                  let k = turn_next g v lt (rw (← same_cur) e) in
                  let v'' = advance-MergeInv (turn g) v' lt' e (rw same_cur k) in
                  rw filled (
                    merge_loop-MergeInv f (advance (turn g) (cur_of g))
                      (subst (λ i. MergeInv m from base end (advance (turn g) i)) same_cur v'')
                      (omega (
                        arith,
                        cur_of-advance (turn g) (cur_of g),
                        positive (turn g).map (cur_of g) filled,
                      )))
            ])
      ]
