-- ===== src/DlList.antt =====
-- engine/dl_list.hpp and dl_list.cpp: the persistent doubly linked list, over the records of
-- engine/data_record.hpp. A record is named by its PMem offset, and the memory is a function from
-- offsets to records. A call runs with its locks held, as one step; its single stores to PMem are
-- functions of their own, so that a crash between two of them can be stated.
pub mod Ring
pub mod Insert
pub mod Unlink
pub mod Deque
pub mod Iterator
pub mod Crash
use kvdk.Prelude.{
  ◌-◌, ℕ, zero, suc, ◌^◌, Option, none, some, Bool, true, false, not, ◌&&◌, ◌==◌, ltb,
  if◌then◌else◌, update,
}
use kvdk.Codec.Bytes.{Bytes}

pub data RecordStatus : Type 0 where
  normal dirty outdated : RecordStatus

-- kNullPMemOffset, UINT64_MAX
abbrev pub null_offset : ℕ
null_offset = 2 ^ 64 - 1

-- kPersistTime, the greatest int64_t
abbrev pub persist_time : ℕ
persist_time = 2 ^ 63 - 1

-- The checksum is a function of the other fields and is left out.
pub record DlRecord : Type 0 where
  pub record_size : ℕ
  pub type : ℕ
  pub status : RecordStatus
  pub timestamp : ℕ
  pub old_version : ℕ
  pub prev : ℕ
  pub next : ℕ
  pub expired_time : ℕ
  pub key : Bytes
  pub value : Bytes

abbrev pub Pmem : Type 0
Pmem = ℕ → DlRecord

pub record SpaceEntry : Type 0 where
  pub offset : ℕ
  pub size : ℕ

pub record WriteArgs : Type 0 where
  pub key : Bytes
  pub value : Bytes
  pub type : ℕ
  pub status : RecordStatus
  pub ts : ℕ
  pub space : SpaceEntry

pub data Status : Type 0 where
  ok fail : Status

-- PersistNextNT and PersistPrevNT, and the persisted stores to the two fields
unfoldable pub set_next : Pmem → ℕ → ℕ → Pmem
set_next h p v = update h p (record (h p) { next = v })

unfoldable pub set_prev : Pmem → ℕ → ℕ → Pmem
set_prev h p v = update h p (record (h p) { prev = v })

-- PersistDLRecord
unfoldable pub new_record : WriteArgs → (old_version prev next : ℕ) → DlRecord
new_record args old p n = record {
  record_size = args.space.size;
  type = args.type;
  status = args.status;
  timestamp = args.ts;
  old_version = old;
  prev = p;
  next = n;
  expired_time = persist_time;
  key = args.key;
  value = args.value;
}

unfoldable pub persist_record : Pmem → WriteArgs → (old_version prev next : ℕ) → Pmem
persist_record h args old p n = update h args.space.offset (new_record args old p n)

-- linkRecord: the store to `prev` comes first.
unfoldable pub link_record : Pmem → (prev next linking : ℕ) → Pmem
link_record h p n r = set_prev (set_next h p r) n r

unfoldable pub insert_between : Pmem → WriteArgs → (prev next : ℕ) → Pmem × Status
insert_between h args p n =
    if ((h p).next == n) && ((h n).prev == p)
    then (link_record (persist_record h args null_offset p n) p n args.space.offset, ok)
    else (h, fail)

unfoldable pub insert_after : Pmem → WriteArgs → (prev : ℕ) → Pmem × Status
unfolding insert_between
insert_after h args p = insert_between h args p (h p).next

unfoldable pub insert_before : Pmem → WriteArgs → (next : ℕ) → Pmem × Status
unfolding insert_between
insert_before h args n = insert_between h args (h n).prev n

-- The retry loops of PushBack and PushFront; `none` if all the tries fail.
unfoldable pub push_back : (tries : ℕ) → Pmem → WriteArgs → (header : ℕ) → Option Pmem
push_back zero h args hd = none
push_back (suc f) h args hd = elim (insert_before h args hd).1 [
  | ok ↦ some (insert_before h args hd).0
  | fail ↦ push_back f (insert_before h args hd).0 args hd
]

unfoldable pub push_front : (tries : ℕ) → Pmem → WriteArgs → (header : ℕ) → Option Pmem
push_front zero h args hd = none
push_front (suc f) h args hd = elim (insert_after h args hd).1 [
  | ok ↦ some (insert_after h args hd).0
  | fail ↦ push_front f (insert_after h args hd).0 args hd
]

-- Update
unfoldable pub update_record : Pmem → WriteArgs → (current : ℕ) → Pmem × Status
update_record h args r =
    let p = (h r).prev in
    let n = (h r).next in
    if ((h n).prev == r) && ((h p).next == r)
    then (link_record (persist_record h args r p n) p n args.space.offset, ok)
    else (h, fail)

-- The static Replace. A record that is alone is the header.
unfoldable pub replace : Pmem → (old_record new_record : ℕ) → Pmem × Bool
replace h r m =
    let p = (h r).prev in
    let n = (h r).next in
    if (h p).next == r
    then (if (p == r) && (n == r)
        then (set_prev (link_record h m m m) r m, true)
        else (link_record (set_next (set_prev h m p) m n) p n m, true))
    else (h, false)

-- Replace of a list, which may move its header.
unfoldable pub replace_in : Pmem → (header old_record new_record : ℕ) → Pmem × (ℕ × Bool)
unfolding replace
replace_in h hd r m =
    let (h', done) = replace h r m in (h', (if done && (r == hd) then m else hd, done))

unfoldable pub remove : Pmem → (removing : ℕ) → Pmem × Bool
remove h r =
    let p = (h r).prev in
    let n = (h r).next in
    if (h p).next == r then (set_next (set_prev h n p) p n, true) else (h, false)

-- RemoveFront and RemoveBack: the memory and the removed record, if there was one; `none` if all
-- the tries fail.
unfoldable pub remove_front : (tries : ℕ) → Pmem → (header : ℕ) → Option (Pmem × Option ℕ)
remove_front zero h hd = none
remove_front (suc f) h hd =
    let front = (h hd).next in
    let again = remove_front f (remove h front).0 hd in
    if front == hd
    then some (h, none)
    else (if (remove h front).1 then some ((remove h front).0, some front) else again)

unfoldable pub remove_back : (tries : ℕ) → Pmem → (header : ℕ) → Option (Pmem × Option ℕ)
remove_back zero h hd = none
remove_back (suc f) h hd =
    let back = (h hd).prev in
    let again = remove_back f (remove h back).0 hd in
    if back == hd
    then some (h, none)
    else (if (remove h back).1 then some ((remove h back).0, some back) else again)
