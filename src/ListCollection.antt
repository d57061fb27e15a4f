-- ===== src/ListCollection.antt =====
-- List of engine/list_collection/list.hpp and list.cpp: a list of strings over the records of a
-- DLList. The records of deleted elements stay linked, so the live records are kept in a deque too,
-- which is a list here, its front first. A call holds the list's lock and is one step. It is given
-- what Allocate gives it. `none` is a fault: a retry loop that ran out of tries, or an iterator that
-- is read outside of the deque.
pub mod Place
pub mod Live
pub mod Indexed
pub mod Erase
pub mod AtLive
pub mod Ends
pub mod Calls
pub mod Refines
pub mod PushN
pub mod PopN
pub mod Expire
pub mod Destroy
use kvdk.Prelude.{
  ℕ, zero, suc, ◌+◌, ◌-◌, ◌*◌, List, [], ◌∷◌, ◌++◌, length, Option, none, some, Bool, true, false,
  ltb, ◌==◌, if◌then◌else◌, ℤ, pos, negsuc, get_elem?, insert_idx, erase_idx, set,
}
use kvdk.Codec.Bytes.{Bytes}
use kvdk.Batch.Ops.KeyedSet.{bytes_eq}
use kvdk.Collection.{internal_key}
use kvdk.DlList
use kvdk.DlList.{
  Pmem, WriteArgs, SpaceEntry, RecordStatus, normal, outdated, insert_before, insert_after,
  update_record,
}

pub data Status : Type 0 where
  ok fail not_found pmem_overflow invalid_argument : Status

pub record ListCollection : Type 0 where
  pub header : ℕ
  pub pmem : Pmem
  pub live_records : List ℕ
  pub id : ℕ

pub record WriteResult : Type 0 where
  pub s : Status
  pub write_record : Option ℕ
  pub existing_record : Option ℕ

abbrev pub Result : Type 0
Result = Option (ListCollection × WriteResult)

-- RecordType::ListElem
abbrev pub list_elem : ℕ
list_elem = 64

abbrev pub failed : Status → ListCollection → Result
failed s l = some (l, record { s = s; write_record = none; existing_record = none })

abbrev of_dl_list : DlList.Status → Status
of_dl_list DlList.Status.ok = ok
of_dl_list DlList.Status.fail = fail

unfoldable pub elem_args : ListCollection → (elem : Bytes) (ts : ℕ) → SpaceEntry → WriteArgs
elem_args l elem ts space = record {
  key = internal_key l.id [];
  value = elem;
  type = list_elem;
  status = normal;
  ts = ts;
  space = space;
}

unfoldable pub outdated_args : (key : Bytes) (ts : ℕ) → SpaceEntry → WriteArgs
outdated_args key ts space = record {
  key = key;
  value = [];
  type = list_elem;
  status = outdated;
  ts = ts;
  space = space;
}

-- Nothing is written without space.
abbrev pub with_space : SpaceEntry → ListCollection → Result → Result
with_space space l r = if space.size == 0 then failed pmem_overflow l else r

abbrev linked : ListCollection → (h : Option Pmem) (live : List ℕ) (r : ℕ) → Result
linked l none live r = none
linked l (some h) live r = some (
  record l { pmem = h; live_records = live },
  record { s = ok; write_record = some r; existing_record = none },
)

unfoldable pub push_front :
    (tries : ℕ) (elem : Bytes) (ts : ℕ) → SpaceEntry → ListCollection → Result
unfolding elem_args
push_front tries elem ts space l = with_space space l (
    linked l (DlList.push_front tries l.pmem (elem_args l elem ts space) l.header)
      (space.offset ∷ l.live_records) space.offset)

unfoldable pub push_back :
    (tries : ℕ) (elem : Bytes) (ts : ℕ) → SpaceEntry → ListCollection → Result
unfolding elem_args
push_back tries elem ts space l = with_space space l (
    linked l (DlList.push_back tries l.pmem (elem_args l elem ts space) l.header)
      (l.live_records ++ space.offset ∷ []) space.offset)

-- The loop around DLList::Update.
unfoldable pub update_loop : (tries : ℕ) → Pmem → WriteArgs → (current : ℕ) → Option Pmem
update_loop zero h args r = none
update_loop (suc f) h args r = elim (update_record h args r).1 [
  | DlList.Status.ok ↦ some (update_record h args r).0
  | DlList.Status.fail ↦ update_loop f (update_record h args r).0 args r
]

abbrev updated : ListCollection → (h : Option Pmem) (live : List ℕ) (r existing : ℕ) → Result
updated l none live r x = none
updated l (some h) live r x = some (
  record l { pmem = h; live_records = live },
  record { s = ok; write_record = some r; existing_record = some x },
)

-- The live record `x` at the index `i` is outdated, and leaves the deque.
unfoldable pub erase_at : (tries ts : ℕ) → SpaceEntry → (i x : ℕ) → ListCollection → Result
unfolding outdated_args update_loop
erase_at tries ts space i x l = with_space space l (
    updated l (update_loop tries l.pmem (outdated_args (l.pmem x).key ts space) x)
      (erase_idx l.live_records i) space.offset x)

-- Reading an iterator: the record at an index of the deque.
abbrev pub deref : (i : ℕ) → (ℕ → ℕ → ListCollection → Result) → ListCollection → Result
deref i f l = elim (get_elem? l.live_records i) [ none ↦ none | some x ↦ f i x l ]

unfoldable pub pop_front : (tries ts : ℕ) → SpaceEntry → ListCollection → Result
unfolding erase_at
pop_front tries ts space l =
    if length l.live_records == 0 then failed not_found l else deref 0 (erase_at tries ts space) l

unfoldable pub pop_back : (tries ts : ℕ) → SpaceEntry → ListCollection → Result
unfolding erase_at
pop_back tries ts space l =
    if length l.live_records == 0
    then failed not_found l
    else deref (length l.live_records - 1) (erase_at tries ts space) l

abbrev inserted : ListCollection → Pmem × DlList.Status → (live : List ℕ) (r : ℕ) → Result
inserted l (h, s) live r = some (
  record l { pmem = h; live_records = live },
  record { s = of_dl_list s; write_record = some r; existing_record = none },
)

unfoldable pub insert_before_at :
    (elem : Bytes) (ts : ℕ) → SpaceEntry → (i x : ℕ) → ListCollection → Result
unfolding elem_args
insert_before_at elem ts space i x l = with_space space l (
    inserted l (insert_before l.pmem (elem_args l elem ts space) x)
      (insert_idx l.live_records i space.offset) space.offset)

unfoldable pub insert_after_at :
    (elem : Bytes) (ts : ℕ) → SpaceEntry → (i x : ℕ) → ListCollection → Result
unfolding elem_args
insert_after_at elem ts space i x l = with_space space l (
    inserted l (insert_after l.pmem (elem_args l elem ts space) x)
      (insert_idx l.live_records (i + 1) space.offset) space.offset)

-- findLiveRecord: the index of the first live record of an element; the number of the records if
-- there is none.
unfoldable pub find_live_record : Pmem → List ℕ → Bytes → ℕ
unfolding bytes_eq
find_live_record h [] elem = 0
find_live_record h (x ∷ xs) elem =
    if bytes_eq (h x).value elem then 0 else suc (find_live_record h xs elem)

abbrev pub find_and : Bytes → (ℕ → ℕ → ListCollection → Result) → ListCollection → Result
find_and elem f l =
    let i = find_live_record l.pmem l.live_records elem in
    if i == length l.live_records then failed not_found l else deref i f l

unfoldable pub insert_before_elem :
    (elem existing_elem : Bytes) (ts : ℕ) → SpaceEntry → ListCollection → Result
unfolding find_live_record insert_before_at
insert_before_elem elem existing ts space l = find_and existing (insert_before_at elem ts space) l

unfoldable pub insert_after_elem :
    (elem existing_elem : Bytes) (ts : ℕ) → SpaceEntry → ListCollection → Result
unfolding find_live_record insert_after_at
insert_after_elem elem existing ts space l = find_and existing (insert_after_at elem ts space) l

-- The guard of the calls by index, and the iterator behind it. Counted from the end, the iterator
-- may come to lie in front of the deque.
abbrev required_size : ℤ → ℕ
required_size (pos n) = n
required_size (negsuc n) = n

unfoldable pub iterator_at : (size : ℕ) → ℤ → Option ℕ
iterator_at size (pos n) = some n
iterator_at size (negsuc n) = if ltb n size then some (size - suc n) else none

unfoldable pub by_index : ℤ → (ℕ → ℕ → ListCollection → Result) → ListCollection → Result
unfolding iterator_at
by_index index f l =
    if ltb (length l.live_records) (required_size index)
    then failed not_found l
    else elim (iterator_at (length l.live_records) index) [ none ↦ none | some i ↦ deref i f l ]

unfoldable pub insert_at :
    (elem : Bytes) (index : ℤ) (ts : ℕ) → SpaceEntry → ListCollection → Result
unfolding by_index insert_before_at
insert_at elem index ts space l = by_index index (insert_before_at elem ts space) l

unfoldable pub erase : (tries : ℕ) (index : ℤ) (ts : ℕ) → SpaceEntry → ListCollection → Result
unfolding by_index erase_at
erase tries index ts space l = by_index index (erase_at tries ts space) l

unfoldable pub update_at :
    (tries : ℕ) (elem : Bytes) (ts : ℕ) → SpaceEntry → (i x : ℕ) → ListCollection → Result
unfolding elem_args update_loop
update_at tries elem ts space i x l = with_space space l (
    updated l (update_loop tries l.pmem (elem_args l elem ts space) x)
      (set l.live_records i space.offset) space.offset x)

unfoldable pub update :
    (tries : ℕ) (index : ℤ) (elem : Bytes) (ts : ℕ) → SpaceEntry → ListCollection → Result
unfolding by_index update_at
update tries index elem ts space l = by_index index (update_at tries elem ts space) l

-- Front and Back
unfoldable pub front : ListCollection → Option Bytes
front l = elim (get_elem? l.live_records 0) [ none ↦ none | some x ↦ some (l.pmem x).value ]

unfoldable pub back : ListCollection → Option Bytes
back l =
    if length l.live_records == 0
    then none
    else elim (get_elem? l.live_records (length l.live_records - 1)) [
      | none ↦ none
      | some x ↦ some (l.pmem x).value
    ]
