-- ===== src/Cleaner.antt =====
-- engine/version/old_records_cleaner.hpp and old_records_cleaner.cpp: space that waits until no
-- snapshot reads it. The thread caches are the lists of the pending entries; the oldest snapshot is
-- an argument, since the version controller is asked for it first.
pub mod Conserve
use kvdk.Prelude.{
  Option, none, some, ℕ, List, [], ◌∷◌, ◌++◌, ltb, ◌==◌, ◌+◌, ◌%◌, ◌^◌, Bool, if◌then◌else◌,
}
use kvdk.Version.{Controller, update_local_oldest}
use kvdk.DlList.{SpaceEntry}

-- PendingFreeSpaceEntry
pub record Pending : Type 0 where
  pub entry : SpaceEntry
  pub release_time : ℕ

pub record OldRecordsCleaner : Type 0 where
  pub caches : List (List Pending)
  pub global_pending : List Pending

-- The entries that may be freed, and those that have to wait.
pub record Sorting : Type 0 where
  pub free_entries : List SpaceEntry
  pub waiting : List Pending

-- The loop over one thread's cache.
unfoldable pub sort_cache : (oldest : ℕ) → List Pending → Sorting → Sorting
sort_cache oldest [] s = s
sort_cache oldest (p ∷ ps) s =
    let to_free =
      sort_cache oldest ps (record s { free_entries = s.free_entries ++ p.entry ∷ [] }) in
    let to_wait = sort_cache oldest ps (record s { waiting = s.waiting ++ p ∷ [] }) in
    if ltb p.release_time oldest then to_free else to_wait

unfoldable pub sort_caches : (oldest : ℕ) → List (List Pending) → Sorting → Sorting
unfolding sort_cache
sort_caches oldest [] s = s
sort_caches oldest (c ∷ cs) s = sort_caches oldest cs (sort_cache oldest c s)

unfoldable pub emptied : List (List Pending) → List (List Pending)
emptied [] = []
emptied (c ∷ cs) = [] ∷ emptied cs

-- The loop over the front of the global queue, up to the first entry that has to wait.
unfoldable pub take_front : (oldest : ℕ) → List Pending → List SpaceEntry → Sorting
take_front oldest [] fs = record { free_entries = fs; waiting = [] }
take_front oldest (p ∷ ps) fs =
    let rest = take_front oldest ps (fs ++ p.entry ∷ []) in
    if ltb p.release_time oldest then rest else record { free_entries = fs; waiting = p ∷ ps }

-- What the call leaves, what it took out of the queues, and the list that it calls BatchFree with, if
-- it does.
pub record Cleaned : Type 0 where
  pub cleaner : OldRecordsCleaner
  pub free_entries : List SpaceEntry
  pub batch_freed : Option (List SpaceEntry)

-- `if (free_entries.size() > 0)` around the call of BatchFree
unfoldable pub batch_free_if :
    (free_entries space_to_free : List SpaceEntry) → Option (List SpaceEntry)
batch_free_if [] space_to_free = none
batch_free_if (e ∷ es) space_to_free = some space_to_free

unfoldable pub try_global_clean : OldRecordsCleaner → (oldest : ℕ) → Cleaned
unfolding sort_caches emptied take_front batch_free_if
try_global_clean c oldest =
    let s =
      sort_caches oldest c.caches (record { free_entries = []; waiting = c.global_pending }) in
    let g = take_front oldest s.waiting s.free_entries in
    record {
      cleaner = record { caches = emptied c.caches; global_pending = g.waiting };
      free_entries = g.free_entries;
      batch_freed = batch_free_if g.free_entries [];
    }

-- maybeUpdateOldestSnapshot, with the thread's count of its calls, a size_t
unfoldable pub maybe_update_oldest : (round : ℕ) → Controller → (tsc : ℕ) → ℕ × Controller
maybe_update_oldest round c tsc =
    let r = (round + 1) % 2 ^ 64 in (r, if (r % 10000) == 0 then update_local_oldest c tsc else c)
