-- ===== src/DlList/Iterator.antt =====
-- DLListDataIterator of engine/dl_list.hpp: the records of a list that a snapshot shows. The current
-- record is none where the source has a null pointer. The loops take fuel, `versions` for the walk
-- over the old versions of a record.
pub mod Visible
pub mod Records
use Prim.Native.Nat.{bit_and}
use kvdk.Prelude.{
  ℕ, zero, suc, ◌^◌, Option, none, some, Bool, true, false, not, ◌&&◌, ◌==◌, ltb, if◌then◌else◌,
}
use kvdk.DlList.{Pmem, DlRecord, RecordStatus, normal, dirty, outdated, null_offset}

-- SortedElem, HashElem and ListElem
abbrev pub elem_type : ℕ
elem_type = 84

abbrev pub is_elem : DlRecord → Bool
is_elem r = not (bit_and r.type elem_type == 0)

abbrev pub is_outdated : DlRecord → Bool
is_outdated r = elim r.status [ normal ↦ false | dirty ↦ false | outdated ↦ true ]

-- A walk that did not run out of fuel ends at a record or at none.
abbrev pub Walk : Type 0
Walk = Option (Option ℕ)

module _ (pmem_size : ℕ) (h : Pmem) (ts : ℕ) where
  unfoldable pub offset2addr : ℕ → Option ℕ
  offset2addr o = if ltb o pmem_size && not (o == null_offset) then some o else none

  unfoldable pub find_valid_version : (versions : ℕ) → Option ℕ → Walk
  unfolding offset2addr
  find_valid_version zero cur = none
  find_valid_version (suc f) none = some none
  find_valid_version (suc f) (some r) =
      let older = find_valid_version f (offset2addr (h r).old_version) in
      if ltb ts (h r).timestamp then older else some (some r)

  -- What the loop of skipInvalidRecords does with the version that it found.
  unfoldable pub settle : (version rest : Walk) → Walk
  settle none rest = none
  settle (some none) rest = rest
  settle (some (some v)) rest = if is_outdated (h v) then rest else some (some v)

  unfoldable pub skip_invalid_records : (versions fuel : ℕ) (forward : Bool) → Option ℕ → Walk
  unfolding find_valid_version settle
  skip_invalid_records n zero forward cur = none
  skip_invalid_records n (suc f) forward none = some none
  skip_invalid_records n (suc f) forward (some r) =
      let rest =
        skip_invalid_records n f forward (some (if forward then (h r).next else (h r).prev)) in
      if is_elem (h r) then settle (find_valid_version n (some r)) rest else some (some r)

  unfoldable pub valid : Option ℕ → Bool
  valid none = false
  valid (some r) = is_elem (h r)

  unfoldable pub locate : (versions fuel start : ℕ) (forward : Bool) → Walk
  unfolding skip_invalid_records
  locate n f r forward = skip_invalid_records n f forward (some r)

  unfoldable pub seek_to_first : (versions fuel header : ℕ) → Walk
  unfolding skip_invalid_records
  seek_to_first n f hd = skip_invalid_records n f true (some (h hd).next)

  unfoldable pub seek_to_last : (versions fuel header : ℕ) → Walk
  unfolding skip_invalid_records
  seek_to_last n f hd = skip_invalid_records n f false (offset2addr (h hd).prev)

  unfoldable pub next_record : (versions fuel : ℕ) → Option ℕ → Walk
  unfolding skip_invalid_records
  next_record n f none = some none
  next_record n f (some r) =
      if is_elem (h r) then skip_invalid_records n f true (some (h r).next) else some (some r)

  unfoldable pub prev_record : (versions fuel : ℕ) → Option ℕ → Walk
  unfolding skip_invalid_records
  prev_record n f none = some none
  prev_record n f (some r) =
      if is_elem (h r)
      then skip_invalid_records n f false (offset2addr (h r).prev)
      else some (some r)

-- DLListRecordIterator, over all records; its current record is never null.
module _ (h : Pmem) where
  unfoldable pub record_next : ℕ → ℕ
  record_next r = if is_elem (h r) then (h r).next else r

  unfoldable pub record_prev : ℕ → ℕ
  record_prev r = if is_elem (h r) then (h r).prev else r

  unfoldable pub record_seek_to_first : (header : ℕ) → ℕ
  record_seek_to_first hd = (h hd).next

  unfoldable pub record_seek_to_last : (header : ℕ) → ℕ
  record_seek_to_last hd = (h hd).prev

  unfoldable pub record_of : ℕ → Option ℕ
  record_of r = if is_elem (h r) then some r else none
