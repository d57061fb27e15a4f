-- ===== src/Freelist/Small.antt =====
-- The search of getSmallEntry for one block size.
use kvdk.Prelude.{==_iff, Bool-cases, ◌==◌, ◌∙◌, ◌⊎◌, inr, has, inl, subst, ◌≡◌}
use mathlib.Core.List.{append_assoc}
use kvdk.Prelude.{
  ℕ, suc, zero, ◌*◌, ◌/◌, ◌<◌, ◌≡◌, ◌≢◌, refl, List, [], ◌∷◌, length, Bool, true, false, arith,
}
use kvdk.Space.Map.{test, SpaceMap}
use kvdk.Space.Map.Take.{IsTaken, test_and_clear-test}
use kvdk.Space.Pool.{try_fetch_entry_list}
use kvdk.Freelist.{
  update, SpaceEntry, SpaceMap, try_fetch_entry_list, ◌∷◌, List, ℕ, Config, Freelist, cached_small,
  set_small, stock, concat, fill_small, pop_small, search_small,
}

-- No list of the pools is empty.
abbrev pub NoEmpty : List (List ℕ) → Type 0
NoEmpty [] = Unit {0}
NoEmpty ([] ∷ xss) = ⊥
NoEmpty ((x ∷ xs) ∷ xss) = NoEmpty xss

pub record IsPooled (l : Freelist) : Type 0 where
  pub active : (i : ℕ) → NoEmpty (l.active_pool.small_entry_pool i)
  pub merged : (i : ℕ) → NoEmpty (l.merged_pool.small_entry_pool i)

-- The list that a search fills from the pools loses nothing.
record Filled (c : Config) (tid i : ℕ) (l l' : Freelist) : Type 0 where
  head : ℕ
  tail : List ℕ
  cached : cached_small c tid l' i ≡ head ∷ tail
  stock_same : (j : ℕ) → stock c tid j l' ≡ stock c tid j l
  map_same : l'.space_map ≡ l.space_map
  pooled : IsPooled l'

module _ (c : Config) (tid i : ℕ) where
  fill_cached :
      (l : Freelist) (o : ℕ) (os : List ℕ)
      → IsPooled l
      → cached_small c tid l i ≡ o ∷ os
      → Filled c tid i l l
  fill_cached l o os p h = record {
    head = o;
    tail = os;
    cached = h;
    stock_same = λ j. refl;
    map_same = refl;
    pooled = p;
  }

  fill_active :
      (l : Freelist) (o : ℕ) (os : List ℕ) (xss : List (List ℕ))
      → IsPooled l
      → cached_small c tid l i ≡ []
      → l.active_pool.small_entry_pool i ≡ (o ∷ os) ∷ xss
      → Filled c tid i l (
          set_small c tid i (o ∷ os) (record l {
            active_pool = record (l.active_pool) {
              small_entry_pool = update (l.active_pool.small_entry_pool) i xss;
            };
          }))
  unfolding stock concat
  fill_active l o os xss p h k = record {
    head = o;
    tail = os;
    cached = ground arith;
    stock_same = λ j.
        ground
          (arith, append_assoc (o ∷ os) (concat xss) (concat (l.merged_pool.small_entry_pool i)));
    map_same = refl;
    pooled = record { active = λ j. ground (arith, p.active j); merged = p.merged };
  }

  fill_merged :
      (l : Freelist) (o : ℕ) (os : List ℕ) (xss : List (List ℕ))
      → IsPooled l
      → cached_small c tid l i ≡ []
      → l.active_pool.small_entry_pool i ≡ []
      → l.merged_pool.small_entry_pool i ≡ (o ∷ os) ∷ xss
      → Filled c tid i l (
          set_small c tid i (o ∷ os) (record l {
            merged_pool = record (l.merged_pool) {
              small_entry_pool = update (l.merged_pool.small_entry_pool) i xss;
            };
          }))
  unfolding stock concat
  fill_merged l o os xss p h n k = record {
    head = o;
    tail = os;
    cached = ground arith;
    stock_same = λ j. ground arith;
    map_same = refl;
    pooled = record { active = p.active; merged = λ j. ground (arith, p.merged j) };
  }

  -- A search that goes on has a list, and one that stops has seen all there is.
  FillCases : Freelist → Freelist × Bool → Type 0
  FillCases l (l', true) = Filled c tid i l l'
  FillCases l (l', false) = (l' ≡ l) × (stock c tid i l ≡ [])

  fill_by :
      (l : Freelist) (cs : List ℕ) (xs ms : List (List ℕ))
      → IsPooled l
      → cached_small c tid l i ≡ cs
      → l.active_pool.small_entry_pool i ≡ xs
      → l.merged_pool.small_entry_pool i ≡ ms
      → FillCases l (fill_small c tid i cs l)
  unfolding FillCases fill_small try_fetch_entry_list stock concat
  fill_by l (o ∷ os) xs ms p h k n = fill_cached l o os p h
  fill_by l [] ([] ∷ xs) ms p h k n = absurd (subst NoEmpty k (p.active i))
  fill_by l [] ((o ∷ os) ∷ xs) ms p h k n = rw k (fill_active l o os xs p h k)
  fill_by l [] [] ([] ∷ ms) p h k n = absurd (subst NoEmpty n (p.merged i))
  fill_by l [] [] ((o ∷ os) ∷ ms) p h k n = rw (k, n) (fill_merged l o os ms p h k n)
  fill_by l [] [] [] p h k n = rw (k, n) (refl, ground arith)

  abbrev set_map : SpaceMap → Freelist → Freelist
  set_map m l = record l { space_map = m }

  stock-pop :
      (l : Freelist) (o : ℕ) (os : List ℕ) (m : SpaceMap)
      → cached_small c tid l i ≡ o ∷ os
      → (stock c tid i l ≡ o ∷ stock c tid i (set_map m (set_small c tid i os l)))
        × ((j : ℕ) → j ≢ i → stock c tid j (set_map m (set_small c tid i os l)) ≡ stock c tid j l)
  unfolding stock
  stock-pop l o os m h = (ground arith, λ j ne. ground arith)

  -- What a search for the block size comes to.
  unfoldable pub SmallOutcome : Freelist → Freelist × (SpaceEntry × Bool) → Type 0
  SmallOutcome l (l', (e, true)) =
      (e.size ≡ i * c.block_size)
      × (test l.space_map (e.offset / c.block_size) ≡ i)
      × IsTaken l.space_map l'.space_map (e.offset / c.block_size) i
  SmallOutcome l (l', (e, false)) =
      (l'.space_map ≡ l.space_map)
      × ((o : ℕ) → has o (stock c tid i l) ≡ true → test l.space_map (o / c.block_size) ≢ i)
      × ((j : ℕ) → j ≢ i → stock c tid j l' ≡ stock c tid j l)
      × IsPooled l'

  -- An outcome for a later state is one for an earlier state, if all that is left out between them
  -- is stale.
  carry :
      (l k : Freelist)
      → k.space_map ≡ l.space_map
      → ((o : ℕ)
          → has o (stock c tid i l) ≡ true
          → (has o (stock c tid i k) ≡ true) ⊎ (test l.space_map (o / c.block_size) ≢ i))
      → ((j : ℕ) → j ≢ i → stock c tid j k ≡ stock c tid j l)
      → (r : Freelist × (SpaceEntry × Bool)) → SmallOutcome k r
      → SmallOutcome l r
  unfolding SmallOutcome
  carry l k em covers others (l', (e, true)) (size, live, taken) =
      (size, rw (← em) live, rw (← em) taken)
  carry l k em covers others (l', (e, false)) (same, stale, rest, p) = (
    same ∙ em,
    λ o h. elim (covers o h) [ inl later ↦ rw (← em) (stale o later) | inr gone ↦ gone ],
    λ j ne. rest j ne ∙ others j ne,
    p,
  )

  popped :
      (q o : ℕ) (xs ys : List ℕ)
      → xs ≡ o ∷ ys
      → (q == o) ≡ false
      → has q xs ≡ true
      → has q ys ≡ true
  popped q o xs ys e ne h = ground arith

  pop_lem :
      (search_entry : SpaceEntry → Freelist → Freelist × (SpaceEntry × Bool)) (e : SpaceEntry)
      (l : Freelist) (o : ℕ) (os : List ℕ)
      → 0 < i
      → cached_small c tid l i ≡ o ∷ os
      → ((e' : SpaceEntry)
          → SmallOutcome
              (set_map l.space_map (set_small c tid i os l))
              (search_entry e' (set_map l.space_map (set_small c tid i os l))))
      → SmallOutcome l (pop_small c search_entry tid i e (o ∷ os) l)
  unfolding SmallOutcome pop_small
  pop_lem search_entry e l o os pos h next =
      elim (test_and_clear-test l.space_map (o / c.block_size) i pos) [
        | inl (live, cleared, taken) ↦ rw cleared (refl, live, taken)
        | inr (stale, kept) ↦ rw kept (
            carry l (set_map l.space_map (set_small c tid i os l)) refl
              (λ q hq. elim (Bool-cases (q == o)) [
                | inl same ↦ inr (rw ((==_iff q o).0 same) stale)
                | inr other ↦
                    inl (popped q o (stock c tid i l) _ (stock-pop l o os l.space_map h).0 other hq)
              ])
              (stock-pop l o os l.space_map h).1 _ (next (record e { offset = o })))
      ]

  -- The search as it goes on from what has been filled in.
  abbrev search_filled : ℕ → SpaceEntry → Freelist × Bool → Freelist × (SpaceEntry × Bool)
  search_filled f e (l, true) =
      pop_small c (search_small c f tid i) tid i e (cached_small c tid l i) l
  search_filled f e (l, false) = (l, (e, false))

  search_filled_lem :
      (f : ℕ) (e : SpaceEntry) (l : Freelist)
      → search_small c (suc f) tid i e l
        ≡ search_filled f e (fill_small c tid i (cached_small c tid l i) l)
  unfolding search_small
  search_filled_lem f e l = elim (Bool-cases (fill_small c tid i (cached_small c tid l i) l).1) [
    | inl go ↦ ground arith
    | inr stop ↦ ground arith
  ]

  shorter : (f o : ℕ) (xs ys : List ℕ) → xs ≡ o ∷ ys → length xs < suc f → length ys < f
  shorter f o xs ys e h = ground arith

  nothing_left :
      (l : Freelist) (e : SpaceEntry)
      → IsPooled l
      → stock c tid i l ≡ []
      → SmallOutcome l (l, (e, false))
  unfolding SmallOutcome
  nothing_left l e p none_left = (refl, λ o h. absurd (ground (arith, none_left)), λ j ne. refl, p)

  -- With more fuel than there are offsets the search is decided.
  abbrev pub AtFuel : ℕ → Type 0
  AtFuel f =
      (e : SpaceEntry) (l : Freelist)
      → 0 < i
      → IsPooled l
      → length (stock c tid i l) < f
      → SmallOutcome l (search_small c f tid i e l)

  -- One round.
  search_filled-Outcome :
      (f : ℕ) (e : SpaceEntry) (l : Freelist) (r : Freelist × Bool)
      → AtFuel f
      → 0 < i
      → IsPooled l
      → length (stock c tid i l) < suc f
      → FillCases l r
      → SmallOutcome l (search_filled f e r)
  unfolding FillCases
  search_filled-Outcome f e l (l', false) ih pos p h (same, none_left) =
      rw same (nothing_left l e p none_left)
  search_filled-Outcome f e l (l', true) ih pos p h filled = rw filled.cached (
      carry l l' filled.map_same (λ o q. inl (rw (filled.stock_same i) q))
        (λ j ne. filled.stock_same j) _
        (pop_lem (search_small c f tid i) e l' filled.head filled.tail pos filled.cached λ e'.
          ih e' _ pos record { active = filled.pooled.active; merged = filled.pooled.merged }
            (shorter f filled.head (stock c tid i l') _
              (stock-pop l' filled.head filled.tail l'.space_map filled.cached).0
              (rw (filled.stock_same i) h))))

  pub search_small-Outcome : (f : ℕ) → AtFuel f
  search_small-Outcome zero e l pos p h = elim h [ ]
  search_small-Outcome (suc f) e l pos p h = rw (search_filled_lem f e l) (
      search_filled-Outcome f e l _ (search_small-Outcome f) pos p h
        (fill_by l _ _ _ p refl refl refl))
