-- ===== src/StringEngine/Restore.antt =====
-- restoreStringRecord: the records of the persistent memory are found one by one, in any order, and
-- the index is built again. A record's cached entry is a copy of its own, and `purged` are the
-- records that PurgeAndFree destroyed and freed. The lookups are those of the mask String.
pub mod Newest
pub mod Order
use kvdk.Prelude.{
  ℕ, zero, suc, Option, none, some, Bool, true, false, leb, ltb, ◌==◌, if◌then◌else◌, List, [], ◌∷◌,
}
use kvdk.DlList.{null_offset}
use kvdk.HashTable.{EntryPtr}
use kvdk.StringEngine.{
  keys_of, KeyIndex, IndexEntry, StringRecord, Status, ok, memory_overflow, string_type,
}

pub record Recovery (Table : Type 0) : Type 0 where
  pub pmem : ℕ → StringRecord
  pub index : Table
  pub purged : List ℕ

-- PersistOldVersion(kNullPMemOffset)
unfoldable pub forget_old_version : (ℕ → StringRecord) → ℕ → ℕ → StringRecord
forget_old_version pmem o p =
    if p == o then record (pmem o) { old_version = null_offset } else pmem p

-- The record is newer than the check point to recover to, if there is one.
unfoldable pub beyond_checkpoint : (checkpoint : Option ℕ) → StringRecord → Bool
beyond_checkpoint none r = false
beyond_checkpoint (some t) r = ltb t r.timestamp

module _ (ki : KeyIndex) (checkpoint : Option ℕ) where
  unfoldable pub purge : Recovery ki.Table → ℕ → Recovery ki.Table
  purge st o = record st { purged = o ∷ st.purged }

  -- insertKeyOrElem at a place, and the end of the record's version chain
  unfoldable pub take_in : Recovery ki.Table → ki.Table → EntryPtr → ℕ → Recovery ki.Table
  unfolding forget_old_version
  take_in st x p o = record st {
    index =
        ki.put x (st.pmem o).key
          record { type = string_type; status = (st.pmem o).status; index = o; place = p };
    pmem = forget_old_version st.pmem o;
  }

  -- Behind the lookup that found an entry.
  unfoldable pub replace_restored : Recovery ki.Table → ℕ → IndexEntry → Recovery ki.Table
  unfolding purge
  replace_restored st o e =
      let x = ki.touch (keys_of st.pmem) st.index (st.pmem o).key in
      if leb (st.pmem o).timestamp (st.pmem e.index).timestamp
      then purge (record st { index = x }) o
      else purge (take_in st x e.place o) e.index

  unfoldable pub restore_string_record : Recovery ki.Table → ℕ → Recovery ki.Table × Status
  unfolding purge take_in replace_restored beyond_checkpoint
  restore_string_record st o =
      let r = st.pmem o in
      if beyond_checkpoint checkpoint r
      then (purge st o, ok)
      else elim (ki.find (keys_of st.pmem) st.index r.key) [
        | some e ↦ (replace_restored st o e, ok)
        | none ↦ elim (ki.reserve (keys_of st.pmem) st.index r.key) [
          | none ↦ (st, memory_overflow)
          | some (x, p) ↦ (take_in st x p o, ok)
        ]
      ]

  -- Recovery stops at a failure.
  unfoldable pub unless_failed :
      Status → Recovery ki.Table → Recovery ki.Table × Status → Recovery ki.Table × Status
  unless_failed ok st rest = rest
  unless_failed s st rest = (st, s)

  -- The records in the order in which they are found.
  unfoldable pub restore_all : Recovery ki.Table → List ℕ → Recovery ki.Table × Status
  unfolding restore_string_record
  restore_all st [] = (st, ok)
  restore_all st (o ∷ os) =
      let next = restore_string_record st o in unless_failed next.1 next.0 (restore_all next.0 os)
