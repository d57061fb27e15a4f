-- ===== src/ListCollection/Refines.antt =====
-- Each call of a list does to the sequence of its elements what is expected of it.
use kvdk.Prelude.{
  le→ltb, lt→ltb, lt-cases, ℕ, suc, ◌+◌, ◌-◌, ◌<◌, ◌≤◌, ◌≡◌, inl, inr, refl, List, ◌∷◌, length,
  Bool, false, not, arith, has, none, some, ◌==◌, get_elem?, insert_idx, erase_idx, set, length-map,
  ℤ, pos, negsuc, Bool-cases,
}
use kvdk.Codec.Bytes.{Bytes}
use kvdk.DlList.{SpaceEntry}
use kvdk.ListCollection.{
  ListCollection, Result, ok, not_found, pmem_overflow, failed, deref, find_and, iterator_at,
  by_index, push_front, push_back, pop_front, pop_back, erase_at, update_at, insert_before_at,
  insert_after_at,
}
use kvdk.ListCollection.Live.{IsList, values}
use kvdk.ListCollection.AtLive.{
  Refined, erase_at-Refined, update_at-Refined, insert_before_at-Refined, insert_after_at-Refined,
}
use kvdk.ListCollection.Ends.{push_front-Refined, push_back-Refined}
use kvdk.ListCollection.Calls.{
  Call, run_call, written, index_of, indexed, found, expected, AsExpected, failed-Refined,
  get_elem?-lt, get_elem?-ge, find_live_record-index, index_of-le,
}

module _ (l : ListCollection) (v : IsList l) (space : SpaceEntry)
    (unused : has space.offset (l.header ∷ v.records) ≡ false) where
  -- Allocate gave space.
  abbrev room : Bool
  room = not (space.size == 0)

  by_room :
      (r : Result) (vs : List Bytes)
      → (space.size ≡ 0 → r ≡ failed pmem_overflow l)
      → (0 < space.size → Refined l r vs ok)
      → AsExpected l r (written room (values l) vs)
  by_room r vs lacking enough = elim (Bool-cases (space.size == 0)) [
    | inl e ↦ rw (e, lacking (ground arith)) (failed-Refined l pmem_overflow v)
    | inr e ↦ rw e (enough (ground arith))
  ]

  same_length : length (values l) ≡ length l.live_records
  same_length = length-map (λ r. (l.pmem r).value) l.live_records

  -- An operation at a live record that does what is expected.
  abbrev AtLive : (ℕ → ℕ → ListCollection → Result) → (ℕ → List Bytes) → Type 0
  AtLive f g =
      (i x : ℕ)
      → get_elem? l.live_records i ≡ some x
      → AsExpected l (f i x l) (written room (values l) (g i))

  deref-some :
      (f : ℕ → ℕ → ListCollection → Result) (i x : ℕ)
      → get_elem? l.live_records i ≡ some x
      → deref i f l ≡ f i x l
  deref-some f i x here = rw (deref, here) refl

  deref-AsExpected :
      (f : ℕ → ℕ → ListCollection → Result) (g : ℕ → List Bytes) (i : ℕ)
      → AtLive f g
      → i < length l.live_records
      → AsExpected l (deref i f l) (written room (values l) (g i))
  deref-AsExpected f g i at lt =
      let (x, here) = get_elem?-lt l.live_records i lt in rw (deref-some f i x here) (at i x here)

  deref-none :
      (f : ℕ → ℕ → ListCollection → Result) (i : ℕ) → length l.live_records ≤ i → deref i f l ≡ none
  deref-none f i ge = rw (deref, get_elem?-ge l.live_records i ge) refl

  by_index-AsExpected :
      (index : ℤ) (f : ℕ → ℕ → ListCollection → Result) (g : ℕ → List Bytes)
      → AtLive f g
      → AsExpected l (by_index index f l) (indexed room (values l) index g)
  unfolding by_index iterator_at
  by_index-AsExpected (pos n) f g at = rw same_length (elim (lt-cases n (length l.live_records)) [
    | inl lt ↦
        rw (lt→ltb n (length l.live_records) lt, le→ltb (length l.live_records) n (omega arith))
          (deref-AsExpected f g n at lt)
    | inr ge ↦ elim (Bool-cases (n == length l.live_records)) [
      | inl e ↦
          rw
            (
              le→ltb n (length l.live_records) ge,
              le→ltb (length l.live_records) n (ground arith),
              e,
            )
            (deref-none f n ge)
      | inr ne ↦
          rw
            (
              le→ltb n (length l.live_records) ge,
              lt→ltb (length l.live_records) n (ground arith),
              ne,
            )
            (failed-Refined l not_found v)
    ]
  ])
  by_index-AsExpected (negsuc n) f g at =
      rw same_length (elim (lt-cases n (length l.live_records)) [
        | inl lt ↦
            rw (lt→ltb n (length l.live_records) lt, le→ltb (length l.live_records) n (omega arith))
              (deref-AsExpected f g (length l.live_records - suc n) at (omega arith))
        | inr ge ↦ elim (Bool-cases (n == length l.live_records)) [
          | inl e ↦
              rw
                (
                  le→ltb n (length l.live_records) ge,
                  le→ltb (length l.live_records) n (ground arith),
                  e,
                )
                refl
          | inr ne ↦
              rw
                (
                  le→ltb n (length l.live_records) ge,
                  lt→ltb (length l.live_records) n (ground arith),
                  ne,
                )
                (failed-Refined l not_found v)
        ]
      ])

  find_and-AsExpected :
      (x : Bytes) (f : ℕ → ℕ → ListCollection → Result) (g : ℕ → List Bytes)
      → AtLive f g
      → AsExpected l (find_and x f l) (found room (values l) x g)
  find_and-AsExpected x f g at =
      rw (find_live_record-index l.pmem l.live_records x, same_length)
        (elim (Bool-cases (index_of x (values l) == length l.live_records)) [
          | inl e ↦ rw e (failed-Refined l not_found v)
          | inr ne ↦ rw ne (
              deref-AsExpected f g (index_of x (values l)) at
                (ground (arith, index_of-le x (values l), same_length)))
        ])

  erase_at-AtLive : (tries ts : ℕ) → AtLive (erase_at (suc tries) ts space) (erase_idx (values l))
  erase_at-AtLive tries ts i x here =
      by_room _ _ (λ e. unfold erase_at in rw e refl)
        (λ enough. erase_at-Refined l v i x here space enough unused tries ts)

  update_at-AtLive :
      (tries : ℕ) (elem : Bytes) (ts : ℕ)
      → AtLive (update_at (suc tries) elem ts space) (λ i. set (values l) i elem)
  update_at-AtLive tries elem ts i x here =
      by_room _ _ (λ e. unfold update_at in rw e refl)
        (λ enough. update_at-Refined l v i x here space enough unused tries elem ts)

  insert_before_at-AtLive :
      (elem : Bytes) (ts : ℕ)
      → AtLive (insert_before_at elem ts space) (λ i. insert_idx (values l) i elem)
  insert_before_at-AtLive elem ts i x here =
      by_room _ _ (λ e. unfold insert_before_at in rw e refl)
        (λ enough. insert_before_at-Refined l v i x here space enough unused elem ts)

  insert_after_at-AtLive :
      (elem : Bytes) (ts : ℕ)
      → AtLive (insert_after_at elem ts space) (λ i. insert_idx (values l) (i + 1) elem)
  insert_after_at-AtLive elem ts i x here =
      by_room _ _ (λ e. unfold insert_after_at in rw e refl)
        (λ enough. insert_after_at-Refined l v i x here space enough unused elem ts)

  pop_front-AsExpected :
      (tries ts : ℕ)
      → AsExpected l
          (pop_front (suc tries) ts space l)
          (expected Call.pop_front_call room (values l))
  unfolding pop_front expected
  pop_front-AsExpected tries ts = rw same_length (elim (Bool-cases (length l.live_records == 0)) [
    | inl e ↦ rw e (failed-Refined l not_found v)
    | inr ne ↦ rw ne (
        deref-AsExpected (erase_at (suc tries) ts space) (erase_idx (values l)) 0
          (erase_at-AtLive tries ts) (ground arith))
  ])

  pop_back-AsExpected :
      (tries ts : ℕ)
      → AsExpected l (pop_back (suc tries) ts space l) (expected Call.pop_back_call room (values l))
  unfolding pop_back expected
  pop_back-AsExpected tries ts = rw same_length (elim (Bool-cases (length l.live_records == 0)) [
    | inl e ↦ rw e (failed-Refined l not_found v)
    | inr ne ↦ rw ne (
        deref-AsExpected (erase_at (suc tries) ts space) (erase_idx (values l))
          (length l.live_records - 1) (erase_at-AtLive tries ts) (ground arith))
  ])

  -- On a well-formed list, with the space from Allocate not in use, each call does to the sequence
  -- of the list's elements what is expected of it, whatever the tries, and leaves a well-formed
  -- list: it pushes, pops, inserts before or after the first equal element, inserts, erases or
  -- updates at an index from either end; it reports NotFound on an empty list, for a missing element
  -- or for an index too far out, and PmemOverflow without space, and then nothing changes. An index
  -- that is just one too far, from either end, is not refused: a record outside of the deque is
  -- read.
  pub run_call-AsExpected :
      (x : Call) (tries ts : ℕ)
      → AsExpected l
          (run_call x (suc tries) ts space l)
          (expected x (not (space.size == 0)) (values l))
  unfolding run_call expected
  run_call-AsExpected (Call.push_front_call elem) tries ts =
      by_room _ _ (λ e. unfold push_front in rw e refl)
        (λ enough. push_front-Refined l v space enough unused tries ts elem)
  run_call-AsExpected (Call.push_back_call elem) tries ts =
      by_room _ _ (λ e. unfold push_back in rw e refl)
        (λ enough. push_back-Refined l v space enough unused tries ts elem)
  run_call-AsExpected Call.pop_front_call tries ts = pop_front-AsExpected tries ts
  run_call-AsExpected Call.pop_back_call tries ts = pop_back-AsExpected tries ts
  run_call-AsExpected (Call.insert_before_call elem x) tries ts =
      find_and-AsExpected x (insert_before_at elem ts space) (λ i. insert_idx (values l) i elem)
        (insert_before_at-AtLive elem ts)
  run_call-AsExpected (Call.insert_after_call elem x) tries ts =
      find_and-AsExpected x (insert_after_at elem ts space)
        (λ i. insert_idx (values l) (i + 1) elem) (insert_after_at-AtLive elem ts)
  run_call-AsExpected (Call.insert_at_call elem index) tries ts =
      by_index-AsExpected index (insert_before_at elem ts space) (λ i. insert_idx (values l) i elem)
        (insert_before_at-AtLive elem ts)
  run_call-AsExpected (Call.erase_call index) tries ts =
      by_index-AsExpected index (erase_at (suc tries) ts space) (erase_idx (values l))
        (erase_at-AtLive tries ts)
  run_call-AsExpected (Call.update_call index elem) tries ts =
      by_index-AsExpected index (update_at (suc tries) elem ts space) (λ i. set (values l) i elem)
        (update_at-AtLive tries elem ts)
