-- ===== src/ListCollection/PushN.antt =====
-- PreparePushN and PushN of engine/list_collection/list.cpp. `given` is what the calls of Allocate
-- give one after another, from the first on.
use mathlib.Core.Option
use kvdk.Prelude.{
  eq→==, inr, inl, subst, Option-cases, Bool-cases, ℕ, suc, zero, ◌+◌, ◌<◌, ◌≡◌, refl, List, [],
  ◌∷◌, ◌++◌, length, length-append, Bool, true, false, arith, Option, none, some, ◌==◌,
  if◌then◌else◌,
}
use kvdk.Codec.Bytes.{Bytes}
use kvdk.DlList
use kvdk.DlList.{Pmem, SpaceEntry}
use kvdk.ListCollection.{ListCollection, Status, ok, elem_args}

-- The spaces, and those that were given back to the allocator.
pub record Spaces : Type 0 where
  pub spaces : List SpaceEntry
  pub freed : List SpaceEntry

pub record PushNArgs : Type 0 where
  pub s : Status
  pub spaces : List SpaceEntry
  pub elems : List Bytes
  pub to_front : Bool
  pub ts : ℕ

-- The loop over the elements, which ends where there is no space.
unfoldable pub allocate_all :
    List Bytes → (given : ℕ → SpaceEntry) → (k : ℕ) → List SpaceEntry → Spaces
allocate_all [] given k spaces = record { spaces = spaces; freed = [] }
allocate_all (e ∷ es) given k spaces =
    let rest = allocate_all es given (k + 1) (spaces ++ given k ∷ []) in
    if (given k).size == 0 then record { spaces = spaces; freed = spaces } else rest

-- The status that the loop leaves is written over.
unfoldable pub prepare_push_n :
    (to_front : Bool)
    → List Bytes
    → (ts : ℕ) → (given : ℕ → SpaceEntry) → PushNArgs × List SpaceEntry
unfolding allocate_all
prepare_push_n to_front elems ts given =
    let a = allocate_all elems given 0 [] in
    (record { s = ok; spaces = a.spaces; elems = elems; to_front = to_front; ts = ts }, a.freed)

unfoldable pub push_one :
    (tries : ℕ) (to_front : Bool)
    → Bytes
    → (ts : ℕ) → SpaceEntry
    → ListCollection
    → Option ListCollection
unfolding elem_args
push_one tries true e ts space l =
    Option.map (λ (h : Pmem). record l { pmem = h; live_records = space.offset ∷ l.live_records })
      (DlList.push_front tries l.pmem (elem_args l e ts space) l.header)
push_one tries false e ts space l =
    Option.map
      (λ (h : Pmem). record l { pmem = h; live_records = l.live_records ++ space.offset ∷ [] })
      (DlList.push_back tries l.pmem (elem_args l e ts space) l.header)

-- One space for each element; `none` also if a space is read behind the last one.
unfoldable pub push_all :
    (tries : ℕ) (to_front : Bool) (ts : ℕ)
    → List Bytes
    → List SpaceEntry
    → ListCollection
    → Option ListCollection
unfolding push_one
push_all tries to_front ts [] spaces l = some l
push_all tries to_front ts (e ∷ es) [] l = none
push_all tries to_front ts (e ∷ es) (space ∷ spaces) l =
    elim (push_one tries to_front e ts space l) [
      | none ↦ none
      | some k ↦ push_all tries to_front ts es spaces k
    ]

unfoldable pub push_n : (tries : ℕ) → PushNArgs → ListCollection → Option (ListCollection × Status)
unfolding push_all
push_n tries args l = elim args.s [
  | Status.ok ↦
      Option.map (λ (k : ListCollection). (k, Status.ok))
        (push_all tries args.to_front args.ts args.elems args.spaces l)
  | Status.fail ↦ some (l, Status.fail)
  | Status.not_found ↦ some (l, Status.not_found)
  | Status.pmem_overflow ↦ some (l, Status.pmem_overflow)
  | Status.invalid_argument ↦ some (l, Status.invalid_argument)
]

-- Too few spaces are a fault.
push_all_short :
    (tries : ℕ) (to_front : Bool) (ts : ℕ) (es : List Bytes) (spaces : List SpaceEntry)
    (l : ListCollection)
    → length spaces < length es
    → push_all tries to_front ts es spaces l ≡ none
unfolding push_all
push_all_short tries to_front ts [] spaces l h = absurd (omega arith)
push_all_short tries to_front ts (e ∷ es) [] l h = refl
push_all_short tries to_front ts (e ∷ es) (space ∷ spaces) l h =
    elim (Option-cases (push_one tries to_front e ts space l)) [
      | inl stuck ↦ rw (push_all, stuck) refl
      | inr (k, pushed) ↦
          rw (push_all, pushed) (push_all_short tries to_front ts es spaces k (omega arith))
    ]

-- The spaces when the call `k + i` of Allocate fails.
allocate_all_failed :
    (es : List Bytes) (given : ℕ → SpaceEntry) (k i : ℕ) (spaces : List SpaceEntry)
    → i < length es
    → (given (k + i)).size ≡ 0
    → ((allocate_all es given k spaces).freed ≡ (allocate_all es given k spaces).spaces)
      × (length (allocate_all es given k spaces).spaces < length spaces + length es)
unfolding allocate_all
allocate_all_failed [] given k i spaces h z = absurd (omega arith)
allocate_all_failed (e ∷ es) given k zero spaces h z =
    let here : ((given k).size == 0) ≡ true =
      eq→== (given k).size 0 (subst (λ n. (given n).size ≡ 0) (omega arith) z) in
    rw here (refl, omega arith)
allocate_all_failed (e ∷ es) given k (suc i) spaces h z = elim (Bool-cases ((given k).size == 0)) [
  | inl failed ↦ rw failed (refl, omega arith)
  | inr some_space ↦
      let later =
        allocate_all_failed es given (k + 1) i (spaces ++ given k ∷ []) (omega arith)
          (subst (λ n. (given n).size ≡ 0) (omega arith) z) in
      rw some_space (later.0, omega (arith, later.1, length-append spaces (given k ∷ [])))
]

-- If one of the calls of Allocate for the elements fails, PreparePushN gives back the spaces that it
-- has, and reports Ok with those same spaces, which are fewer than the elements; PushN of these
-- arguments then reads a space behind the last one.
pub push_n-prepare_push_n :
    (tries : ℕ) (to_front : Bool) (es : List Bytes) (ts : ℕ) (given : ℕ → SpaceEntry) (i : ℕ)
    (l : ListCollection)
    → i < length es
    → (given i).size ≡ 0
    → ((prepare_push_n to_front es ts given).0.s ≡ ok)
      × ((prepare_push_n to_front es ts given).1 ≡ (prepare_push_n to_front es ts given).0.spaces)
      × (length (prepare_push_n to_front es ts given).0.spaces < length es)
      × (push_n tries (prepare_push_n to_front es ts given).0 l ≡ none)
unfolding prepare_push_n push_n
push_n-prepare_push_n tries to_front es ts given i l h z =
    let (freed, few) =
      allocate_all_failed es given 0 i [] h (subst (λ n. (given n).size ≡ 0) (omega arith) z) in
    (
      refl,
      freed,
      omega (arith, few),
      rw
          (push_all_short tries to_front ts es (allocate_all es given 0 []).spaces l
            (omega (arith, few)))
          refl,
    )
