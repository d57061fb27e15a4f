-- ===== src/DlList/Iterator/Visible.antt =====
-- The first record that a snapshot shows.
use kvdk.Prelude.{
  Bool-cases, le→ltb, inr, lt→ltb, inl, lt-cases, ℕ, suc, zero, ◌<◌, ◌≡◌, refl, List, [], ◌∷◌,
  length, Option, none, some, true, false, ltb, All, arith, if◌then◌else◌,
}
use kvdk.DlList.{Pmem, null_offset}
use kvdk.DlList.Ring.{Seg, IsRing}
use kvdk.DlList.Iterator.{
  is_elem, is_outdated, offset2addr, find_valid_version, settle, skip_invalid_records,
  seek_to_first,
}

module _ (pmem_size : ℕ) (h : Pmem) (ts : ℕ) where
  -- The old versions behind `r`, the newest first. The last one has no older version.
  abbrev pub Versions : ℕ → List ℕ → Type 0
  Versions r [] = (h r).old_version ≡ null_offset
  Versions r (v ∷ vs) =
      ((h r).old_version ≡ v) × ((v < pmem_size) × (v < null_offset)) × Versions v vs

  -- The newest version that is not younger than the snapshot.
  unfoldable pub newest_shown : List ℕ → Option ℕ
  newest_shown [] = none
  newest_shown (v ∷ vs) = if ltb ts (h v).timestamp then newest_shown vs else some v

  offset2addr_inside :
      (o : ℕ) → o < pmem_size → o < null_offset → offset2addr pmem_size h ts o ≡ some o
  unfolding offset2addr
  offset2addr_inside o i n = ground arith

  offset2addr_null : offset2addr pmem_size h ts null_offset ≡ none
  unfolding offset2addr
  offset2addr_null = ground arith

  find_valid_version-newest :
      (f r : ℕ) (vs : List ℕ)
      → Versions r vs
      → length vs < f
      → find_valid_version pmem_size h ts (suc f) (some r) ≡ some (newest_shown (r ∷ vs))
  unfolding find_valid_version offset2addr newest_shown
  find_valid_version-newest zero r vs v lt = absurd (omega arith)
  find_valid_version-newest (suc f) r [] v lt = elim (lt-cases ts (h r).timestamp) [
    | inl young ↦ rw (lt→ltb ts (h r).timestamp young, v, offset2addr_null) refl
    | inr old ↦ rw (le→ltb ts (h r).timestamp old) refl
  ]
  find_valid_version-newest (suc f) r (o ∷ vs) v lt =
      let older = find_valid_version-newest f o vs v.2 (omega arith) in
      let there = offset2addr_inside o v.1.0 v.1.1 in
      elim (lt-cases ts (h r).timestamp) [
        | inl young ↦ rw (lt→ltb ts (h r).timestamp young, v.0, there) older
        | inr old ↦ rw (le→ltb ts (h r).timestamp old) refl
      ]

  abbrev live : Option ℕ → Option ℕ
  live none = none
  live (some v) = if is_outdated (h v) then none else some v

  abbrev or_else : Option ℕ → ℕ → ℕ
  or_else none next = next
  or_else (some v) next = v

  -- The version of a record that the snapshot shows, if there is one and it is not a deletion.
  unfoldable pub shown : List ℕ → Option ℕ
  unfolding newest_shown
  shown vs = live (newest_shown vs)

  -- The first of the records `xs` of which the snapshot shows a version, or else the header.
  unfoldable pub first_shown : (olds : ℕ → List ℕ) (header : ℕ) → List ℕ → ℕ
  unfolding shown
  first_shown olds hd [] = hd
  first_shown olds hd (x ∷ xs) = or_else (shown (x ∷ olds x)) (first_shown olds hd xs)

  abbrev pub IsElem : (olds : ℕ → List ℕ) (versions x : ℕ) → Type 0
  IsElem olds n x = (is_elem (h x) ≡ true) × Versions x (olds x) × (length (olds x) < n)

  settle_picked :
      (o : Option ℕ) (next : ℕ)
      → settle pmem_size h ts (some o) (some (some next)) ≡ some (some (or_else (live o) next))
  unfolding settle
  settle_picked none next = refl
  settle_picked (some v) next = elim (Bool-cases (is_outdated (h v))) [
    | inl out ↦ rw out refl
    | inr here ↦ rw here refl
  ]

  settle-shown :
      (vs : List ℕ) (next : ℕ)
      → settle pmem_size h ts (some (newest_shown vs)) (some (some next))
        ≡ some (some (or_else (shown vs) next))
  unfolding shown
  settle-shown vs next = settle_picked (newest_shown vs) next

  skip-first_shown :
      (olds : ℕ → List ℕ) (n a hd : ℕ) (xs : List ℕ)
      → Seg h a xs hd
      → All (IsElem olds n) xs
      → is_elem (h hd) ≡ false
      → skip_invalid_records pmem_size h ts (suc n) (suc (length xs)) true (some (h a).next)
        ≡ some (some (first_shown olds hd xs))
  unfolding skip_invalid_records first_shown
  skip-first_shown olds n a hd [] s es e = rw (s.0, e) refl
  skip-first_shown olds n a hd (x ∷ xs) s es e =
      let rest = skip-first_shown olds n x hd xs s.1 es.1 e in
      rw (s.0.0, es.0.0, find_valid_version-newest n x (olds x) es.0.1 es.0.2, rest)
        (settle-shown (x ∷ olds x) (first_shown olds hd xs))

  -- SeekToFirst on a well-formed list of elements ends at the first record of which the snapshot
  -- shows a version that is not outdated, at that version, and at the header if there is none. A
  -- round for each record and one more is enough, and so is a step for each old version and two more.
  pub seek_to_first-first_shown :
      (olds : ℕ → List ℕ) (n hd : ℕ) (xs : List ℕ)
      → IsRing h hd xs
      → All (IsElem olds n) xs
      → is_elem (h hd) ≡ false
      → seek_to_first pmem_size h ts (suc n) (suc (length xs)) hd
        ≡ some (some (first_shown olds hd xs))
  unfolding seek_to_first
  seek_to_first-first_shown olds n hd xs r es e = skip-first_shown olds n hd hd xs r.seg es e
