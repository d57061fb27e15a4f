-- ===== src/Version.antt =====
-- engine/version/version_controller.hpp: timestamps, snapshots and batch writes. A thread is its
-- index in the thread cache. What rdtsc() returns is an argument of each call that reads it.
pub mod History
pub mod Race
pub mod Local
use Prim.Native.Nat.{min}
use kvdk.Prelude.{
  ℕ, zero, suc, ◌+◌, ◌-◌, ◌%◌, ◌^◌, ◌≤◌, ◌<◌, ◌≡◌, List, [], ◌∷◌, Option, none, some, Bool, true,
  false, ltb, leb, ◌==◌, if◌then◌else◌, set, get_or,
}

-- kMaxTimestamp, UINT64_MAX
abbrev pub max_timestamp : ℕ
max_timestamp = 2 ^ 64 - 1

-- SnapshotImpl. The id stands for the object's address.
pub record Snapshot : Type 0 where
  pub id : ℕ
  pub timestamp : ℕ

-- VersionThreadCache
pub record ThreadCache : Type 0 where
  pub holding : ℕ
  pub batch_write_ts : ℕ

-- The snapshot list, the newest first; the head node's `prev` is the last one.
pub record Controller : Type 0 where
  pub threads : List ThreadCache
  pub snapshots : List Snapshot
  pub local_oldest : ℕ
  pub global_oldest : ℕ
  pub base_timestamp : ℕ
  pub tsc_on_startup : ℕ

abbrev pub idle_thread : ThreadCache
idle_thread = record { holding = max_timestamp; batch_write_ts = max_timestamp }

-- SnapshotList::OldestSnapshotTS
unfoldable pub oldest : List Snapshot → ℕ
oldest [] = max_timestamp
oldest (s ∷ []) = s.timestamp
oldest (s ∷ r ∷ rs) = oldest (r ∷ rs)

-- SnapshotList::Delete
unfoldable pub delete : List Snapshot → ℕ → List Snapshot
delete [] i = []
delete (s ∷ ss) i = if s.id == i then ss else s ∷ delete ss i

-- GetCurrentTimestamp
unfoldable pub current : Controller → (tsc : ℕ) → ℕ
current c tsc = (tsc + (2 ^ 64 - c.tsc_on_startup) + c.base_timestamp) % 2 ^ 64

-- The loop of UpdateLocalOldestSnapshot.
unfoldable pub min_holding : List ThreadCache → ℕ → ℕ
min_holding [] ts = ts
min_holding (t ∷ more) ts = min_holding more (min t.holding ts)

unfoldable pub update_local_oldest : Controller → (tsc : ℕ) → Controller
update_local_oldest c tsc = record c { local_oldest = min_holding c.threads (current c tsc) }

unfoldable pub init : Controller → (base tsc : ℕ) → Controller
unfolding update_local_oldest
init c base tsc = update_local_oldest (record c { base_timestamp = base; tsc_on_startup = tsc }) tsc

-- HoldLocalSnapshot and ReleaseLocalSnapshot
unfoldable pub hold_local : Controller → (thread tsc : ℕ) → Controller
hold_local c i tsc = record c {
  threads = set c.threads i (record (get_or c.threads i idle_thread) { holding = current c tsc });
}

unfoldable pub release_local : Controller → (thread : ℕ) → Controller
release_local c i = record c {
  threads = set c.threads i (record (get_or c.threads i idle_thread) { holding = max_timestamp });
}

-- The constructor of BatchWriteToken, and its destructor.
unfoldable pub begin_batch : Controller → (thread tsc : ℕ) → Controller
begin_batch c i tsc = record c {
  threads =
      set c.threads i (record (get_or c.threads i idle_thread) { batch_write_ts = current c tsc });
}

unfoldable pub end_batch : Controller → (thread : ℕ) → Controller
end_batch c i = record c {
  threads =
      set c.threads i (record (get_or c.threads i idle_thread) { batch_write_ts = max_timestamp });
}

-- The loop of NewGlobalSnapshot(false): below every batch that is being written.
unfoldable pub below_batches : List ThreadCache → ℕ → ℕ
below_batches [] ts = ts
below_batches (t ∷ more) ts =
    below_batches more (min ts ((t.batch_write_ts + (2 ^ 64 - 1)) % 2 ^ 64))

-- The loop of NewGlobalSnapshot(true) passes a thread once this holds of it.
unfoldable pub passes : ThreadCache → ℕ → Bool
passes t ts = ltb ts t.batch_write_ts

unfoldable pub all_pass : List ThreadCache → ℕ → Bool
unfolding passes
all_pass [] ts = true
all_pass (t ∷ more) ts = if passes t ts then all_pass more ts else false

-- The end of NewGlobalSnapshot, under the lock: SnapshotList::New and the recorded oldest.
unfoldable pub link_snapshot : Controller → (id ts : ℕ) → Controller
link_snapshot c i ts =
    let linked = record { id = i; timestamp = ts } ∷ c.snapshots in
    record c { snapshots = linked; global_oldest = oldest linked }

unfoldable pub new_snapshot : Controller → (id tsc : ℕ) → Controller
unfolding below_batches link_snapshot
new_snapshot c i tsc = link_snapshot c i (below_batches c.threads (current c tsc))

-- With may_block the timestamp is read first, and the call goes on once every thread passes.
-- Between the two other threads' calls may run. `none` while it spins.
unfoldable pub finish_blocking : Controller → (id ts : ℕ) → Option Controller
unfolding all_pass link_snapshot
finish_blocking c i ts = if all_pass c.threads ts then some (link_snapshot c i ts) else none

-- The call in one piece, with nothing in between.
unfoldable pub new_snapshot_blocking : Controller → (id tsc : ℕ) → Option Controller
unfolding finish_blocking
new_snapshot_blocking c i tsc = finish_blocking c i (current c tsc)

-- ReleaseSnapshot
unfoldable pub release_snapshot : Controller → (id : ℕ) → Controller
release_snapshot c i =
    let left = delete c.snapshots i in record c { snapshots = left; global_oldest = oldest left }

-- CheckPoint; the timestamp 0 stands for none.
abbrev pub CheckPoint : Type 0
CheckPoint = ℕ

unfoldable pub make_checkpoint : CheckPoint → Snapshot → CheckPoint
make_checkpoint p s = s.timestamp

unfoldable pub maybe_release : CheckPoint → Snapshot → CheckPoint
maybe_release p s = if s.timestamp == p then 0 else p

unfoldable pub checkpoint_valid : CheckPoint → Bool
checkpoint_valid p = ltb 0 p
