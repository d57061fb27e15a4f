-- ===== src/Tests/Version.antt =====
-- Two threads: one begins a batch, and the other takes a snapshot.
use kvdk.Prelude.{◌≡◌, ◌≤◌, ◌<◌, refl, [], ◌∷◌, some, arith, All}
use kvdk.Version.{
  Controller, idle_thread, max_timestamp, current, begin_batch, new_snapshot, finish_blocking,
  below_batches, oldest, all_pass, passes,
}
use kvdk.Version.History.{
  World, Reach, Started, at, begins, takes, recorded-oldest, snapshot-excludes_batches,
}
use kvdk.Version.Race.{race-oldest}

abbrev start : Controller
start = record {
  threads = idle_thread ∷ idle_thread ∷ [];
  snapshots = [];
  local_oldest = max_timestamp;
  global_oldest = max_timestamp;
  base_timestamp = 0;
  tsc_on_startup = 0;
}

abbrev started : World
started = record { clock = 0; ctl = start }

abbrev writing : World
writing = at started 5 (begin_batch start 0 5)

abbrev taken : World
taken = at writing 6 (new_snapshot writing.ctl 1 6)

started-Started : Started started
started-Started = record {
  in_time = omega arith;
  no_snapshot = refl;
  no_batch = (refl, (refl, tt));
  none_recorded = refl;
}

taken-Reach : Reach started taken
unfolding current begin_batch
taken-Reach =
    Reach.next
      (Reach.next Reach.here
        (begins 0 5 (record { later = omega arith; in_range = omega arith }) refl))
      (takes 1 6 (record { later = omega arith; in_range = omega arith }) refl)

recorded-oldest_example :
    (taken.ctl.global_oldest ≡ oldest taken.ctl.snapshots)
    × All (λ s. taken.ctl.global_oldest ≤ s.timestamp) taken.ctl.snapshots
recorded-oldest_example = recorded-oldest started-Started taken-Reach

snapshot-excludes_batches_example :
    All (λ t. All (λ s. s.timestamp < t.batch_write_ts) taken.ctl.snapshots) taken.ctl.threads
snapshot-excludes_batches_example = snapshot-excludes_batches started-Started taken-Reach

race-oldest_example :
    (d : Controller) × (finish_blocking (new_snapshot start 2 8) 1 7 ≡ some d)
    × (d.snapshots
        ≡ record { id = 1; timestamp = 7 }
          ∷ record { id = 2; timestamp = below_batches start.threads (current start 8) }
          ∷ [])
    × (7 < d.global_oldest)
unfolding below_batches current all_pass passes
race-oldest_example = race-oldest start 1 2 7 8 refl (omega arith) refl
