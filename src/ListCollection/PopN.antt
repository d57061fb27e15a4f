-- ===== src/ListCollection/PopN.antt =====
-- PreparePopN and PopN of engine/list_collection/list.cpp, with a vector for the elements. `given` is
-- what the calls of Allocate give one after another, from the first on. An iterator of the deque is
-- a position: `begin` is the position of the front, which grows when the front is erased. Iterators
-- to other records stay valid, since only ends of the deque are erased.
pub mod Erases
pub mod Taken
pub mod Order
pub mod Pops
pub mod Overflow
use mathlib.Core.Option
use kvdk.Prelude.{
  ℕ, suc, zero, ◌+◌, ◌-◌, List, [], ◌∷◌, length, Bool, true, false, Option, none, some, ◌==◌,
  if◌then◌else◌, get_elem?, erase_idx,
}
use kvdk.Codec.Bytes.{Bytes}
use kvdk.Collection.{internal_key}
use kvdk.DlList.{Pmem, SpaceEntry}
use kvdk.ListCollection.{
  ListCollection, Status, ok, pmem_overflow, invalid_argument, outdated_args, update_loop,
}

pub record PopNArgs : Type 0 where
  pub s : Status
  pub spaces : List SpaceEntry
  pub to_pop : List ℕ
  pub timestamp : ℕ

-- What the loop of PreparePopN comes to.
pub record Popping : Type 0 where
  pub overflow : Bool
  pub spaces : List SpaceEntry
  pub to_pop : List ℕ
  pub elems : List Bytes

abbrev pub stopped : (overflow : Bool) → Popping
stopped b = record { overflow = b; spaces = []; to_pop = []; elems = [] }

abbrev pub one_more : SpaceEntry → ℕ → Bytes → Popping → Popping
one_more space i e p = record p {
  spaces = space ∷ p.spaces;
  to_pop = i ∷ p.to_pop;
  elems = e ∷ p.elems;
}

-- Whether the iterator is the last one of its direction, and the next one.
abbrev pub at_end : (to_front : Bool) (i size : ℕ) → Bool
at_end true i size = i + 1 == size
at_end false i size = i == 0

abbrev pub step : (to_front : Bool) → ℕ → ℕ
step true i = i + 1
step false i = i - 1

-- The loop, with `nn` elements to go.
unfoldable pub allocate_pops :
    (to_front : Bool) (nn i : ℕ)
    → (given : ℕ → SpaceEntry) → (k : ℕ) → ListCollection
    → Option Popping
allocate_pops to_front zero i given k l = some (stopped false)
allocate_pops to_front (suc nn) i given k l =
    let rest = allocate_pops to_front nn (step to_front i) given (k + 1) l in
    let next = if at_end to_front i (length l.live_records) then some (stopped false) else rest in
    elim (get_elem? l.live_records i) [
      | none ↦ none
      | some x ↦
          if (given k).size == 0
          then some (stopped true)
          else Option.map (one_more (given k) i (l.pmem x).value) next
    ]

-- The arguments, the elements, and the spaces that were given back to the allocator.
abbrev pub popping : (ts : ℕ) → Popping → PopNArgs × List Bytes × List SpaceEntry
popping ts p = (
  record {
    s = if p.overflow then pmem_overflow else ok;
    spaces = p.spaces;
    to_pop = p.to_pop;
    timestamp = ts;
  },
  p.elems,
  if p.overflow then p.spaces else [],
)

unfoldable pub prepare_pop_n :
    (to_front : Bool) (n ts : ℕ)
    → (given : ℕ → SpaceEntry) → ListCollection
    → Option (PopNArgs × List Bytes × List SpaceEntry)
unfolding allocate_pops
prepare_pop_n to_front n ts given l =
    let size = length l.live_records in
    if size == 0
    then some (record { s = invalid_argument; spaces = []; to_pop = []; timestamp = ts }, [], [])
    else Option.map (popping ts)
        (allocate_pops to_front n (if to_front then 0 else size - 1) given 0 l)

-- The loop of PopN; `none` also for an iterator outside of the deque or a space behind the last one.
unfoldable pub pop_all :
    (tries ts begin : ℕ) → List ℕ → List SpaceEntry → ListCollection → Option ListCollection
unfolding outdated_args update_loop
pop_all tries ts begin [] spaces l = some l
pop_all tries ts begin (p ∷ ps) [] l = none
pop_all tries ts begin (p ∷ ps) (space ∷ spaces) l =
    let i = p - begin in
    elim (get_elem? l.live_records i) [
      | none ↦ none
      | some x ↦ elim (update_loop tries l.pmem (outdated_args (internal_key l.id []) ts space) x) [
        | none ↦ none
        | some h ↦
            pop_all tries ts (if i == 0 then suc begin else begin) ps spaces
              (record l { pmem = h; live_records = erase_idx l.live_records i })
      ]
    ]

unfoldable pub pop_n : (tries : ℕ) → PopNArgs → ListCollection → Option (ListCollection × Status)
unfolding pop_all
pop_n tries args l = elim args.s [
  | Status.ok ↦
      Option.map (λ (k : ListCollection). (k, Status.ok))
        (pop_all tries args.timestamp 0 args.to_pop args.spaces l)
  | Status.fail ↦ some (l, Status.fail)
  | Status.not_found ↦ some (l, Status.not_found)
  | Status.pmem_overflow ↦ some (l, Status.pmem_overflow)
  | Status.invalid_argument ↦ some (l, Status.invalid_argument)
]
