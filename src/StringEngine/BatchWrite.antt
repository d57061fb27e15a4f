-- ===== src/StringEngine/BatchWrite.antt =====
-- The strings of a batch: stringWritePrepare, stringWrite and stringWritePublish, and their loops in
-- batchWriteImpl of engine/kv_engine.cpp. Each operation comes with the space that Allocate hands
-- out for it if it is asked, of size 0 if there is none.
pub mod Unpublished
use kvdk.Prelude.{
  ℕ, ◌+◌, Option, none, some, Bool, true, false, ◌&&◌, ◌==◌, not, if◌then◌else◌, List, [], ◌∷◌,
}
use kvdk.Codec.Bytes.{Bytes}
use kvdk.DlList.{RecordStatus, normal, outdated, SpaceEntry}
use kvdk.Batch.Ops.{WriteOp, StringOp}
use kvdk.HashTable.{EntryPtr}
use kvdk.StringEngine.{
  put_entry, KeyIndex, IndexEntry, StringRecord, StringEngine, State, Status, ok, not_found,
  key_outdated, pmem_overflow, lookup_key, old_offset, string_type,
}
use kvdk.StringEngine.Time.{persistent}

pub record StringWriteArgs : Type 0 where
  pub key : Bytes
  pub value : Bytes
  pub op : WriteOp
  pub space : SpaceEntry
  pub ts : ℕ
  pub found : Option IndexEntry
  pub place : Option EntryPtr

abbrev pub no_space : SpaceEntry
no_space = record { offset = 0; size = 0 }

-- The status of the record and of the entry that an operation writes.
unfoldable pub status_of : WriteOp → RecordStatus
status_of WriteOp.put = normal
status_of WriteOp.delete = outdated

abbrev pub args_of :
    StringOp → SpaceEntry → ℕ → Option IndexEntry → Option EntryPtr → StringWriteArgs
args_of o space ts found place = record {
  key = o.key;
  value = o.value;
  op = o.op;
  space = space;
  ts = ts;
  found = found;
  place = place;
}

-- A deletion of a key that is not there needs no record.
unfoldable pub needs_space : WriteOp → (is_found : Bool) → Bool
needs_space WriteOp.put is_found = true
needs_space WriteOp.delete is_found = is_found

-- Behind a lookup of one of the three statuses that are no failure.
unfoldable pub give_space :
    StringOp
    → (ts : ℕ) → (is_found : Bool) → Option IndexEntry
    → Option EntryPtr
    → SpaceEntry
    → Status × StringWriteArgs
unfolding needs_space
give_space o ts is_found found place space =
    if needs_space o.op is_found
    then (if space.size == 0
        then (pmem_overflow, args_of o no_space ts found place)
        else (ok, args_of o space ts found place))
    else (ok, args_of o no_space ts found place)

unfoldable pub string_write_prepare :
    StringOp
    → (ts : ℕ) → Status
    → Option IndexEntry
    → Option EntryPtr
    → SpaceEntry
    → Status × StringWriteArgs
unfolding give_space
string_write_prepare o ts ok found place space = give_space o ts true found place space
string_write_prepare o ts not_found found place space = give_space o ts false found place space
string_write_prepare o ts key_outdated found place space = give_space o ts false found place space
string_write_prepare o ts s found place space = (s, args_of o no_space ts found place)

module _ (ki : KeyIndex) (ce : ℕ → IndexEntry → Bool) where
  -- Behind one preparation.
  unfoldable pub unless_failed :
      Status
      → State ki ce
      → StringWriteArgs
      → State ki ce × (Status × List StringWriteArgs)
      → State ki ce × (Status × List StringWriteArgs)
  unless_failed ok st a rest = (rest.0, (rest.1.0, a ∷ rest.1.1))
  unless_failed s st a rest = (st, (s, a ∷ []))

  -- The loop of the preparations, up to a failure: the state, the status, and the arguments.
  unfoldable pub prepare_all :
      State ki ce
      → (now ts : ℕ) → List (StringOp × SpaceEntry)
      → State ki ce × (Status × List StringWriteArgs)
  prepare_all st now ts [] = (st, (ok, []))
  prepare_all st now ts ((o, space) ∷ os) =
      let r = lookup_key ki ce true st now o.key string_type in
      let p = string_write_prepare o ts r.1.0 r.1.1 r.1.2 space in
      unless_failed p.0 r.0 p.1 (prepare_all r.0 now ts os)

  unfoldable pub string_write : State ki ce → StringWriteArgs → State ki ce
  string_write st a = record st {
    pmem = λ o.
        if o == a.space.offset
        then record {
          record_size = a.space.size;
          timestamp = a.ts;
          status = status_of a.op;
          old_version = old_offset ki ce a.found;
          expired_time = persistent;
          key = a.key;
          value = a.value;
        }
        else st.pmem o;
  }

  unfoldable pub string_write_publish : State ki ce → StringWriteArgs → State ki ce
  string_write_publish st a = record st {
    index = put_entry ki ce st.index a.place a.key (status_of a.op) a.space.offset;
  }

  -- The loops over the operations that have space.
  unfoldable pub write_all : State ki ce → List StringWriteArgs → State ki ce
  unfolding string_write
  write_all st [] = st
  write_all st (a ∷ as_) = write_all (if a.space.size == 0 then st else string_write st a) as_

  unfoldable pub publish_all : State ki ce → List StringWriteArgs → State ki ce
  unfolding string_write_publish
  publish_all st [] = st
  publish_all st (a ∷ as_) =
      publish_all (if a.space.size == 0 then st else string_write_publish st a) as_
