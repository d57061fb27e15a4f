-- ===== src/Freelist/Get.antt =====
-- What Get comes to.
use kvdk.Prelude.{
  lt-cases, subst, ◌-◌, inr, ==_iff, inl, ◌==◌, Bool-cases, has, ◌∙◌, ℕ, suc, zero, ◌+◌, ◌*◌, ◌/◌,
  ◌%◌, ◌<◌, ◌≤◌, ◌≡◌, ◌≢◌, refl, List, [], ◌∷◌, length, Bool, true, false, arith,
}
use native.Mathlib.Nat.{mul-div_cancel, mod-add-div, mod-lt, mul_comm, mod-eq_of_lt}
use kvdk.DlList.{SpaceEntry}
use kvdk.Space.Map.{test, SpaceMap}
use kvdk.Space.Map.Take.{IsTaken, test_and_clear-test}
use kvdk.Freelist.{
  cached_large, fill_large, ltb, Config, Freelist, stock, or_else, search_small, scan_small,
  get_small_entry, sweep, search_large, scan_large, get_large_entry, get,
}
use kvdk.Freelist.Small.{IsPooled, SmallOutcome, search_small-Outcome}

pub div_pos : (b n : ℕ) → 0 < b → b ≤ n → 0 < n / b
div_pos b n pos le = grind (arith, mod-add-div n b, mod-lt n pos)

whole_le : (b n : ℕ) → 0 < n → n % b ≡ 0 → b ≤ n
whole_le b n pos whole = elim (lt-cases n b) [
  | inl lt ↦ absurd (omega (arith, mod-eq_of_lt {n = n} {m = b} lt))
  | inr le ↦ le
]

module _ (c : Config) (tid : ℕ) where
  -- The entry is one that the space map had just so, and it is taken out of the map.
  pub record IsGiven (l l' : Freelist) (e : SpaceEntry) : Type 0 where
    pub was_free : test l.space_map (e.offset / c.block_size) ≡ e.size / c.block_size
    pub taken : IsTaken l.space_map l'.space_map (e.offset / c.block_size) (e.size / c.block_size)

  -- Every offset that is listed for the size `i` is out of date.
  abbrev pub Stale : Freelist → ℕ → Type 0
  Stale l i = (o : ℕ) → has o (stock c tid i l) ≡ true → test l.space_map (o / c.block_size) ≢ i

  -- For the sizes from `i` on, `n` of them.
  ScanOutcome : (n i : ℕ) → Freelist → Freelist × (SpaceEntry × Bool) → Type 0
  ScanOutcome n i l (l', (e, true)) = (i * c.block_size ≤ e.size) × IsGiven l l' e
  ScanOutcome n i l (l', (e, false)) =
      (l'.space_map ≡ l.space_map) × ((j : ℕ) → i ≤ j → j < i + n → Stale l j) × IsPooled l'

  first_given :
      (n i : ℕ) (l : Freelist) (l' : Freelist) (e : SpaceEntry)
      → 0 < c.block_size
      → SmallOutcome c tid i l (l', (e, true))
      → ScanOutcome (suc n) i l (l', (e, true))
  unfolding ScanOutcome SmallOutcome
  first_given n i l l' e pos (size, live, taken) =
      let back : e.size / c.block_size ≡ i = rw size (mul-div_cancel i pos) in
      (omega arith, record { was_free = rw back live; taken = rw back taken })

  next_given :
      (n i : ℕ) (l k l' : Freelist) (r : SpaceEntry × Bool)
      → k.space_map ≡ l.space_map
      → Stale l i
      → ((j : ℕ) → j ≢ i → stock c tid j k ≡ stock c tid j l)
      → ScanOutcome n (i + 1) k (l', r)
      → ScanOutcome (suc n) i l (l', r)
  unfolding ScanOutcome
  next_given n i l k l' (e, true) em here others (size, given) =
      (grind arith, record { was_free = rw (← em) given.was_free; taken = rw (← em) given.taken })
  next_given n i l k l' (e, false) em here others (same, stale, p) = (
    same ∙ em,
    λ j lo hi. elim (Bool-cases (j == i)) [
      | inl now ↦ rw ((==_iff j i).0 now) here
      | inr later ↦ λ o h.
          rw (← em) (stale j (ground arith) (ground arith) o (rw (others j (ground arith)) h))
    ],
    p,
  )

  scan_small_lem :
      (n i : ℕ) (e : SpaceEntry) (l : Freelist)
      → scan_small c (suc n) tid i e l
        ≡ or_else
            (scan_small c n tid (i + 1))
            (search_small c (suc (length (stock c tid i l))) tid i e l)
  unfolding scan_small
  scan_small_lem n i e l = refl

  -- One size, and then the others.
  or_else-Outcome :
      (n i : ℕ) (l : Freelist) (r : Freelist × (SpaceEntry × Bool))
      (next : SpaceEntry → Freelist → Freelist × (SpaceEntry × Bool))
      → 0 < c.block_size
      → SmallOutcome c tid i l r
      → ((e : SpaceEntry) (k : Freelist) → IsPooled k → ScanOutcome n (i + 1) k (next e k))
      → ScanOutcome (suc n) i l (or_else next r)
  unfolding SmallOutcome or_else
  or_else-Outcome n i l (k, (e, true)) next pos h rest = first_given n i l k e pos h
  or_else-Outcome n i l (k, (e, false)) next pos (same, stale, others, p) rest =
      next_given n i l k (next e k).0 (next e k).1 same stale others (rest e k p)

  scan_small-Outcome :
      (n i : ℕ) (e : SpaceEntry) (l : Freelist)
      → 0 < c.block_size
      → 0 < i
      → IsPooled l
      → ScanOutcome n i l (scan_small c n tid i e l)
  scan_small-Outcome zero i e l pos one p =
      unfold ScanOutcome scan_small in (refl, λ j lo hi. absurd (omega arith), p)
  scan_small-Outcome (suc n) i e l pos one p = rw (scan_small_lem n i e l) (
      or_else-Outcome n i l _ (scan_small c n tid (i + 1)) pos
        (search_small-Outcome c tid i (suc (length (stock c tid i l))) e l one p (omega arith))
        λ e' k pk. scan_small-Outcome n (i + 1) e' k pos (omega arith) pk)

  -- What the large entries come to. Failing, they leave the map alone.
  LargeOutcome : (size : ℕ) → SpaceMap → SpaceMap → SpaceEntry × Bool → Type 0
  LargeOutcome size m m' (e, true) =
      (size ≤ e.size)
      × (test m (e.offset / c.block_size) ≡ e.size / c.block_size)
      × IsTaken m m' (e.offset / c.block_size) (e.size / c.block_size)
  LargeOutcome size m m' (e, false) = m' ≡ m

  sweep-Outcome :
      (size : ℕ) (es : List SpaceEntry) (m : SpaceMap) (r : SpaceEntry)
      → 0 < c.block_size
      → c.block_size ≤ size
      → LargeOutcome size m (sweep c size es m r).1.0 (sweep c size es m r).1.1
  unfolding LargeOutcome sweep
  sweep-Outcome size [] m r pos big = refl
  sweep-Outcome size (e ∷ es) m r pos big = elim (Bool-cases (ltb e.size size)) [
    | inl small ↦ rw small refl
    | inr enough ↦
        let le : size ≤ e.size = ground arith in
        elim (test_and_clear-test m (e.offset / c.block_size) (e.size / c.block_size)
          (div_pos c.block_size e.size pos (omega arith))) [
            | inl (live, cleared, taken) ↦ rw (enough, cleared) (le, live, taken)
            | inr (stale, kept) ↦ rw (enough, kept) (sweep-Outcome size es m r pos big)
          ]
  ]

  fill_large-map :
      (i : ℕ) (es : List SpaceEntry) (l : Freelist)
      → (fill_large c tid i es l).0.space_map ≡ l.space_map
  unfolding fill_large
  fill_large-map i [] l = ground arith
  fill_large-map i (e ∷ es) l = refl

  search_large-Outcome :
      (size i : ℕ) (e : SpaceEntry) (l : Freelist)
      → 0 < c.block_size
      → c.block_size ≤ size
      → LargeOutcome size l.space_map
          (search_large c tid size i e l).0.space_map
          (search_large c tid size i e l).1
  unfolding search_large
  search_large-Outcome size i e l pos big =
      let k = (fill_large c tid i (cached_large c tid l i) l).0 in
      let em = fill_large-map i (cached_large c tid l i) l in
      elim (Bool-cases (fill_large c tid i (cached_large c tid l i) l).1) [
        | inl go ↦ rw go (
            subst
              (λ m.
                LargeOutcome size m (sweep c size (cached_large c tid k i) k.space_map e).1.0
                  (sweep c size (cached_large c tid k i) k.space_map e).1.1)
              em (sweep-Outcome size (cached_large c tid k i) k.space_map e pos big))
        | inr stop ↦ rw stop (unfold LargeOutcome in em)
      ]

  large_or_else :
      (size : ℕ) (m : SpaceMap) (r : Freelist × (SpaceEntry × Bool))
      (next : SpaceEntry → Freelist → Freelist × (SpaceEntry × Bool))
      → LargeOutcome size m r.0.space_map r.1
      → ((e : SpaceEntry) (k : Freelist)
          → LargeOutcome size k.space_map (next e k).0.space_map (next e k).1)
      → LargeOutcome size m (or_else next r).0.space_map (or_else next r).1
  unfolding LargeOutcome or_else
  large_or_else size m (k, (e, true)) next h rest = h
  large_or_else size m (k, (e, false)) next h rest = rw (← h) (rest e k)

  scan_large_lem :
      (n size i : ℕ) (e : SpaceEntry) (l : Freelist)
      → scan_large c (suc n) tid size i e l
        ≡ or_else (scan_large c n tid size (i + 1)) (search_large c tid size i e l)
  unfolding scan_large
  scan_large_lem n size i e l = refl

  scan_large-Outcome :
      (n size i : ℕ) (e : SpaceEntry) (l : Freelist)
      → 0 < c.block_size
      → c.block_size ≤ size
      → LargeOutcome size l.space_map
          (scan_large c n tid size i e l).0.space_map
          (scan_large c n tid size i e l).1
  scan_large-Outcome zero size i e l pos big = unfold LargeOutcome scan_large in refl
  scan_large-Outcome (suc n) size i e l pos big = rw (scan_large_lem n size i e l) (
      large_or_else size l.space_map _ (scan_large c n tid size (i + 1))
        (search_large-Outcome size i e l pos big)
        λ e' k. scan_large-Outcome n size (i + 1) e' k pos big)

  -- What Get comes to: an entry of the map that is large enough and has left the map, or no entry,
  -- the map as it was and every small entry that could have served out of date.
  abbrev pub GetOutcome : (size : ℕ) → Freelist → Freelist × (SpaceEntry × Bool) → Type 0
  GetOutcome size l (l', (e, true)) = (size ≤ e.size) × IsGiven l l' e
  GetOutcome size l (l', (e, false)) =
      (l'.space_map ≡ l.space_map)
      × ((i : ℕ) → size / c.block_size ≤ i → i < c.max_small_entry_block_size → Stale l i)

  large_failing :
      (size : ℕ) (l k : Freelist) (r : Freelist × (SpaceEntry × Bool))
      → k.space_map ≡ l.space_map
      → ((i : ℕ) → size / c.block_size ≤ i → i < c.max_small_entry_block_size → Stale l i)
      → LargeOutcome size k.space_map r.0.space_map r.1
      → GetOutcome size l r
  unfolding LargeOutcome
  large_failing size l k (l', (e, true)) em stale (fits, live, taken) =
      (fits, record { was_free = rw (← em) live; taken = rw (← em) taken })
  large_failing size l k (l', (e, false)) em stale same = (same ∙ em, stale)

  large_after_small :
      (size : ℕ) (l : Freelist) (r : Freelist × (SpaceEntry × Bool))
      (next : SpaceEntry → Freelist → Freelist × (SpaceEntry × Bool))
      → 0 < c.block_size
      → size % c.block_size ≡ 0
      → ScanOutcome (c.max_small_entry_block_size - size / c.block_size) (size / c.block_size) l r
      → ((e : SpaceEntry) (k : Freelist)
          → LargeOutcome size k.space_map (next e k).0.space_map (next e k).1)
      → GetOutcome size l (or_else next r)
  unfolding ScanOutcome or_else
  large_after_small size l (k, (e, true)) next pos whole (fits, given) rest = (
    grind (arith, mod-add-div size c.block_size, mul_comm (size / c.block_size) c.block_size),
    given,
  )
  large_after_small size l (k, (e, false)) next pos whole (same, stale, p) rest =
      large_failing size l k (next e k) same (λ j lo hi. stale j lo (omega arith)) (rest e k)

  -- Get of a positive number of whole blocks gives an entry of at least that size, which was an
  -- entry of the space map, of just its size, and has left the map. If it gives none, the map is as
  -- it was, and no offset that the calling thread could find listed, in its cache or in the pools,
  -- for a small size from the requested one on is that of an entry of that size.
  pub get-GetOutcome :
      (size : ℕ) (e : SpaceEntry) (l : Freelist)
      → 0 < c.block_size
      → 0 < size
      → size % c.block_size ≡ 0
      → IsPooled l
      → GetOutcome size l (get c tid size e l)
  unfolding get get_small_entry get_large_entry
  get-GetOutcome size e l pos some_size whole p =
      let big : c.block_size ≤ size = whole_le c.block_size size some_size whole in
      large_after_small size l (get_small_entry c tid size e l) (get_large_entry c tid size) pos
        whole
        (scan_small-Outcome _ (size / c.block_size) e l pos (div_pos c.block_size size pos big) p)
        λ e' k. scan_large-Outcome _ size _ e' k pos big
