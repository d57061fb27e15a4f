-- ===== src/StringEngine.antt =====
-- engine/kv_engine_string.cpp, with lookupKey of engine/kv_engine.cpp: the calls on strings. They use
-- the hash table through an interface, which HashTable fills. The persistent memory is a
-- function from offsets to records. A call runs under the lock of its key, as one step.
mod Interface
pub mod Index
pub mod Time
pub mod Find
pub mod Publish
pub mod Writes
pub mod Puts
pub mod Deletes
pub mod Modify
pub mod Restore
pub mod BatchWrite
use Prim.Native.Nat.{bit_and}
use kvdk.Prelude.{
  ℤ, pos, negsuc, ◌+◌, ◌-◌, ◌≡◌, ◌^◌, ℕ, zero, suc, Option, none, some, Bool, true, false, not,
  ◌&&◌, ◌||◌, ◌==◌, leb, ltb, if◌then◌else◌, List, [], ◌∷◌, length, update,
}
use kvdk.Codec.Bytes.{Bytes}
use kvdk.DlList.{RecordStatus, normal, outdated, dirty, SpaceEntry, null_offset}
use kvdk.HashTable.{EntryPtr}
use kvdk.Batch.Ops.KeyedSet.{bytes_eq}
pub use Interface.{KeyIndex, IndexEntry, string_type}
use Time.{check_is_expired, check_ttl, ttl_to_expire_time, persistent}

pub data Status : Type 0 where
  ok not_found key_outdated wrong_type memory_overflow pmem_overflow invalid_data_size
        invalid_argument aborted :
      Status

pub record StringRecord : Type 0 where
  pub record_size : ℕ
  pub timestamp : ℕ
  pub status : RecordStatus
  pub old_version : ℕ
  pub expired_time : ℤ
  pub key : Bytes
  pub value : Bytes

pub record StringEngine (Table : Type 0) : Type 0 where
  pub pmem : ℕ → StringRecord
  pub index : Table

-- WriteOptions, and what the call reads and is given on its way: the time at its start and at the
-- lookup, its timestamp, and the space that Allocate hands out, of size 0 if there is none.
pub record CallContext : Type 0 where
  pub ttl_time : ℤ
  pub update_ttl : Bool
  pub base_time : ℕ
  pub now : ℕ
  pub new_ts : ℕ
  pub space : SpaceEntry

-- The key of each record.
abbrev pub keys_of : (ℕ → StringRecord) → ℕ → Bytes
keys_of pmem o = (pmem o).key

unfoldable pub check_key_size : Bytes → Bool
check_key_size k = leb (length k) (2 ^ 16 - 1)

unfoldable pub check_value_size : Bytes → Bool
check_value_size v = leb (length v) (2 ^ 32 - 1)

unfoldable pub is_outdated : RecordStatus → Bool
is_outdated outdated = true
is_outdated normal = false
is_outdated dirty = false

pub data ModifyOperation : Type 0 where
  write : Bytes → ModifyOperation
  delete abort noop : ModifyOperation

module _ (ki : KeyIndex) (collection_expired : ℕ → IndexEntry → Bool) where
  abbrev pub State : Type 0
  State = StringEngine ki.Table

  -- What Lookup finds in a state.
  abbrev pub find_in : State → Bytes → Option IndexEntry
  find_in st k = ki.find (keys_of st.pmem) st.index k

  abbrev pub InOrder : State → Type 0
  InOrder st = ki.IsIndex (keys_of st.pmem) st.index

  -- Behind a lookup that sets no entry aside.
  abbrev pub touched : State → Bytes → State
  touched st k = record st { index = ki.touch (keys_of st.pmem) st.index k }

  -- lookupKey on an entry that was found
  unfoldable pub classify : (ℕ → StringRecord) → (now type_mask : ℕ) → IndexEntry → Status
  classify pmem now mask e =
      if bit_and mask e.type == 0
      then wrong_type
      else (if is_outdated e.status
          then key_outdated
          else (if (if e.type == string_type
                then check_is_expired (pmem e.index).expired_time now
                else collection_expired now e)
              then key_outdated
              else ok))

  unfoldable pub lookup_key :
      (may_insert : Bool)
      → State
      → (now : ℕ) → Bytes
      → (type_mask : ℕ) → State × (Status × Option IndexEntry × Option EntryPtr)
  lookup_key may_insert st now k mask = elim (find_in st k) [
    | some e ↦ (touched st k, (classify st.pmem now mask e, some e, some e.place))
    | none ↦ elim may_insert [
      | false ↦ (touched st k, (not_found, none, none))
      | true ↦ elim (ki.reserve (keys_of st.pmem) st.index k) [
        | none ↦ (st, (memory_overflow, none, none))
        | some (x, p) ↦ (record st { index = x }, (not_found, none, some p))
      ]
    ]
  ]

  -- insertKeyOrElem of a string. The calls write only behind a lookup that gave a place.
  unfoldable pub put_entry :
      ki.Table → Option EntryPtr → Bytes → RecordStatus → (offset : ℕ) → ki.Table
  put_entry x none k status offset = x
  put_entry x (some p) k status offset =
      ki.put x k record { type = string_type; status = status; index = offset; place = p }

  -- PersistStringRecord and insertKeyOrElem
  unfoldable pub publish :
      State
      → SpaceEntry
      → (ts : ℕ) → RecordStatus
      → (old : ℕ) → Option EntryPtr
      → Bytes
      → Bytes
      → ℤ
      → State
  publish st space ts status old place k v expired = record {
    pmem = λ o.
        if o == space.offset
        then record {
          record_size = space.size;
          timestamp = ts;
          status = status;
          old_version = old;
          expired_time = expired;
          key = k;
          value = v;
        }
        else st.pmem o;
    index = put_entry st.index place k status space.offset;
  }

  -- The offset of the existing record, and the null offset where there is none.
  unfoldable pub old_offset : Option IndexEntry → ℕ
  old_offset none = null_offset
  old_offset (some e) = e.index

  -- The expire time that a write stores.
  unfoldable pub new_expired_time :
      (ℕ → StringRecord) → CallContext → Status → Option IndexEntry → ℤ
  new_expired_time pmem c s found = elim found [
    | none ↦ ttl_to_expire_time c.ttl_time c.base_time
    | some e ↦ elim s [
      | ok ↦
          if c.update_ttl
          then ttl_to_expire_time c.ttl_time c.base_time
          else (pmem e.index).expired_time
      | _ ↦ ttl_to_expire_time c.ttl_time c.base_time
    ]
  ]

  -- The write of a value behind a lookup that is not refused.
  unfoldable pub write_value :
      State × (Status × Option IndexEntry × Option EntryPtr)
      → CallContext
      → Bytes
      → Bytes
      → State × Status
  write_value r c k v = if c.space.size == 0 then (r.0, pmem_overflow) else (
    publish r.0 c.space c.new_ts normal (old_offset r.1.1) r.1.2 k v
        (new_expired_time r.0.pmem c r.1.0 r.1.1),
    ok,
  )

  -- The write of a delete record over an existing one.
  unfoldable pub write_delete :
      State × (Status × Option IndexEntry × Option EntryPtr) → CallContext → Bytes → State × Status
  write_delete r c k =
      if c.space.size == 0
      then (r.0, pmem_overflow)
      else (publish r.0 c.space c.new_ts outdated (old_offset r.1.1) r.1.2 k [] persistent, ok)

  -- A lookup that ran out of memory, or found another type, ends the call.
  unfoldable pub unless_refused : Status → State → State × Status → State × Status
  unless_refused memory_overflow st next = (st, memory_overflow)
  unless_refused wrong_type st next = (st, wrong_type)
  unless_refused s st next = next

  unfoldable pub string_put_impl : State → CallContext → Bytes → Bytes → State × Status
  string_put_impl st c k v =
      let r = lookup_key true st c.now k string_type in
      if check_ttl c.ttl_time c.base_time
      then unless_refused r.1.0 r.0 (write_value r c k v)
      else (st, invalid_argument)

  unfoldable pub put : State → CallContext → Bytes → Bytes → State × Status
  put st c k v =
      if check_key_size k && check_value_size v
      then string_put_impl st c k v
      else (st, invalid_data_size)

  -- What Get returns behind its lookup.
  unfoldable pub answer : (ℕ → StringRecord) → Status → Option IndexEntry → Status × Bytes
  answer pmem s found = elim s [
    | ok ↦ elim found [ none ↦ (not_found, []) | some e ↦ (ok, (pmem e.index).value) ]
    | key_outdated ↦ (not_found, [])
    | s ↦ (s, [])
  ]

  unfoldable pub get : State → (now : ℕ) → Bytes → Status × Bytes
  get st now k =
      let r = lookup_key false st now k string_type in
      if check_key_size k then answer st.pmem r.1.0 r.1.1 else (invalid_data_size, [])

  -- Only a key that is there is overwritten; a missing one is deleted already.
  unfoldable pub if_found : Status → State → State × Status → State × Status
  if_found ok st next = next
  if_found not_found st next = (st, ok)
  if_found key_outdated st next = (st, ok)
  if_found s st next = (st, s)

  unfoldable pub string_delete_impl : State → CallContext → Bytes → State × Status
  string_delete_impl st c k =
      let r = lookup_key false st c.now k string_type in if_found r.1.0 r.0 (write_delete r c k)

  unfoldable pub delete_key : State → CallContext → Bytes → State × Status
  delete_key st c k =
      if check_key_size k then string_delete_impl st c k else (st, invalid_data_size)

  -- What modify_func is given.
  unfoldable pub existing_value : (ℕ → StringRecord) → Status → Option IndexEntry → Option Bytes
  existing_value pmem s found = elim found [
    | none ↦ none
    | some e ↦ elim s [ ok ↦ some (pmem e.index).value | _ ↦ none ]
  ]

  -- The switch of Modify. A deletion of a key that was not found falls through to the abort.
  unfoldable pub modify_switch :
      State × (Status × Option IndexEntry × Option EntryPtr)
      → CallContext
      → Bytes
      → ModifyOperation
      → State × Status
  modify_switch r c k (write v) =
      if check_value_size v then write_value r c k v else (r.0, invalid_data_size)
  modify_switch r c k delete = elim r.1.0 [ ok ↦ write_delete r c k | _ ↦ (r.0, aborted) ]
  modify_switch r c k abort = (r.0, aborted)
  modify_switch r c k noop = (r.0, ok)

  unfoldable pub modify :
      State → CallContext → Bytes → (Option Bytes → ModifyOperation) → State × Status
  modify st c k modify_func =
      let r = lookup_key true st c.now k string_type in
      if check_ttl c.ttl_time c.base_time
      then unless_refused r.1.0 r.0
          (modify_switch r c k (modify_func (existing_value r.0.pmem r.1.0 r.1.1)))
      else (st, invalid_argument)
