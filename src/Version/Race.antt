-- ===== src/Version/Race.antt =====
-- NewGlobalSnapshot(true) against a snapshot that another thread takes while the first one waits
-- for a batch.
use kvdk.Prelude.{ℕ, ◌<◌, ◌≡◌, [], ◌∷◌, some, true, arith}
use kvdk.Version.{
  Controller, oldest, current, below_batches, all_pass, link_snapshot, new_snapshot,
  finish_blocking,
}

below_all_pass :
    (c : Controller) (i ts : ℕ)
    → all_pass c.threads ts ≡ true
    → finish_blocking c i ts ≡ some (link_snapshot c i ts)
unfolding finish_blocking
below_all_pass c i ts free = ground arith

-- A blocking caller has read `ts`; before it goes on, another thread takes the first snapshot, at a
-- later timestamp, and the batch ends. The caller then gets its snapshot of `ts`, but the recorded
-- oldest timestamp is the later one: a live snapshot is older than what is recorded as the oldest.
pub race-oldest :
    (c : Controller) (i j ts tsc : ℕ)
    → c.snapshots ≡ []
    → ts < below_batches c.threads (current c tsc)
    → all_pass c.threads ts ≡ true
    → (d : Controller) × (finish_blocking (new_snapshot c j tsc) i ts ≡ some d)
      × (d.snapshots
          ≡ record { id = i; timestamp = ts }
            ∷ record { id = j; timestamp = below_batches c.threads (current c tsc) }
            ∷ [])
      × (ts < d.global_oldest)
unfolding new_snapshot oldest link_snapshot finish_blocking
race-oldest c i j ts tsc fresh later free =
    (link_snapshot (new_snapshot c j tsc) i ts, ground arith, ground arith, rw fresh later)
