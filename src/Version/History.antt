-- ===== src/Version/History.antt =====
-- Histories of calls that run one after another, with a clock that grows between two readings.
mod Bounds
use kvdk.Prelude.{
  ℕ, zero, suc, ◌+◌, ◌-◌, ◌%◌, ◌^◌, ◌≤◌, ◌<◌, ◌≡◌, refl, List, [], ◌∷◌, Option, none, some, Bool,
  true, false, arith, All, All-set, set, get_or, Bool-cases, inl, inr,
}
use kvdk.Version.{
  Controller, ThreadCache, Snapshot, max_timestamp, idle_thread, oldest, delete, current,
  min_holding, update_local_oldest, hold_local, release_local, begin_batch, end_batch,
  below_batches, all_pass, link_snapshot, new_snapshot, new_snapshot_blocking, release_snapshot,
  init,
}
use Bounds.{
  Descending-mono, Descending, newest, Above, Descending-delete, newest-delete, Descending-newest,
  below_batches_lem, all_pass-Above, oldest-le, Above-mono,
}

-- `clock` is the last reading.
pub record World : Type 0 where
  pub clock : ℕ
  pub ctl : Controller

-- The next reading is later, and the counter has not run out.
pub record Reads (w : World) (tsc : ℕ) : Type 0 where
  pub later : w.clock < current w.ctl tsc
  pub in_range : current w.ctl tsc < max_timestamp

abbrev pub at : World → ℕ → Controller → World
at w tsc c = record { clock = current w.ctl tsc; ctl = c }

-- The calls of the controller. A thread begins a batch in its own place of the cache.
pub data Step (w v : World) : Type 0 where
  begins : (i tsc : ℕ) → Reads w tsc → v ≡ at w tsc (begin_batch w.ctl i tsc) → Step w v
  ends : (i : ℕ) → v ≡ record w { ctl = end_batch w.ctl i } → Step w v
  holds : (i tsc : ℕ) → Reads w tsc → v ≡ at w tsc (hold_local w.ctl i tsc) → Step w v
  releases : (i : ℕ) → v ≡ record w { ctl = release_local w.ctl i } → Step w v
  updates : (tsc : ℕ) → Reads w tsc → v ≡ at w tsc (update_local_oldest w.ctl tsc) → Step w v
  takes : (i tsc : ℕ) → Reads w tsc → v ≡ at w tsc (new_snapshot w.ctl i tsc) → Step w v
  takes_blocking :
      (i tsc : ℕ) {c : Controller}
      → Reads w tsc
      → new_snapshot_blocking w.ctl i tsc ≡ some c
      → v ≡ at w tsc c
      → Step w v
  drops : (i : ℕ) → v ≡ record w { ctl = release_snapshot w.ctl i } → Step w v

pub data Reach (w : World) : World → Type 0 where
  here : Reach w w
  next : {u v : World} → Reach w u → Step u v → Reach w v

pub record Inv (w : World) : Type 0 where
  pub in_time : w.clock < max_timestamp
  pub ordered : Descending w.clock w.ctl.snapshots
  pub above : All (Above (newest w.ctl.snapshots)) w.ctl.threads
  pub recorded : w.ctl.global_oldest ≡ oldest w.ctl.snapshots

-- One snapshot more.
link-Inv :
    (w : World) (i ts n : ℕ)
    → Inv w
    → n < max_timestamp
    → newest w.ctl.snapshots ≤ ts
    → ts ≤ n
    → All (Above ts) w.ctl.threads
    → Inv (record { clock = n; ctl = link_snapshot w.ctl i ts })
unfolding link_snapshot
link-Inv w i ts n v lt ge le above = record {
  in_time = lt;
  ordered = (le, Descending-newest w.clock ts w.ctl.snapshots ge v.ordered);
  above = above;
  recorded = refl;
}

newest-le : (n : ℕ) (ss : List Snapshot) → Descending n ss → newest ss ≤ n
newest-le n [] d = omega arith
newest-le n (s ∷ ss) d = d.0

get_or-All :
    (P : ThreadCache → Type 0) (ts : List ThreadCache) (i : ℕ)
    → P idle_thread
    → All P ts
    → P (get_or ts i idle_thread)
get_or-All P [] i d a = d
get_or-All P (t ∷ ts) zero d a = a.0
get_or-All P (t ∷ ts) (suc i) d a = get_or-All P ts i d a.1

-- Other threads' places, another recorded local snapshot, another time.
threads-Inv :
    (w : World) (ts : List ThreadCache) (o n : ℕ)
    → Inv w
    → w.clock ≤ n
    → n < max_timestamp
    → All (Above (newest w.ctl.snapshots)) ts
    → Inv (record { clock = n; ctl = record w.ctl { threads = ts; local_oldest = o } })
threads-Inv w ts o n v ge lt a = record {
  in_time = lt;
  ordered = Descending-mono w.ctl.snapshots ge v.ordered;
  above = a;
  recorded = v.recorded;
}

idle-Above : (w : World) → Inv w → Above (newest w.ctl.snapshots) idle_thread
idle-Above w v = omega (arith, newest-le w.clock w.ctl.snapshots v.ordered, v.in_time)

-- The batch timestamp of a thread that keeps it.
kept-Above :
    (w : World) (i : ℕ)
    → Inv w
    → Above (newest w.ctl.snapshots) (get_or w.ctl.threads i idle_thread)
kept-Above w i v =
    get_or-All (Above (newest w.ctl.snapshots)) w.ctl.threads i (idle-Above w v) v.above

set-Above :
    (w : World) (i : ℕ) (t : ThreadCache)
    → Inv w
    → Above (newest w.ctl.snapshots) t
    → All (Above (newest w.ctl.snapshots)) (set w.ctl.threads i t)
set-Above w i t v p = All-set (Above (newest w.ctl.snapshots)) w.ctl.threads i t v.above p

Step-Inv : {w u : World} → Step w u → Inv w → Inv u
unfolding begin_batch end_batch hold_local release_local update_local_oldest new_snapshot
    new_snapshot_blocking release_snapshot
Step-Inv {w} (begins i tsc r e) v =
    let now : Above (newest w.ctl.snapshots)
        (record idle_thread { batch_write_ts = current w.ctl tsc }) =
      omega (arith, newest-le w.clock w.ctl.snapshots v.ordered, r.later, r.in_range) in
    rw e (threads-Inv w _ _ _ v (omega (arith, r.later)) r.in_range (set-Above w i _ v now))
Step-Inv {w} (ends i e) v =
    rw e (threads-Inv w _ _ _ v (omega arith) v.in_time (set-Above w i _ v (idle-Above w v)))
Step-Inv {w} (holds i tsc r e) v = rw e (
    threads-Inv w _ _ _ v (omega (arith, r.later)) r.in_range
      (set-Above w i _ v (kept-Above w i v)))
Step-Inv {w} (releases i e) v =
    rw e (threads-Inv w _ _ _ v (omega arith) v.in_time (set-Above w i _ v (kept-Above w i v)))
Step-Inv {w} (updates tsc r e) v =
    rw e (threads-Inv w _ _ _ v (omega (arith, r.later)) r.in_range v.above)
Step-Inv {w} (takes i tsc r e) v =
    let old = newest-le w.clock w.ctl.snapshots v.ordered in
    let (ge, le, above) =
      below_batches_lem w.ctl.threads (newest w.ctl.snapshots) (current w.ctl tsc) v.above
        (omega (arith, r.later)) in
    rw e (
      link-Inv w i (below_batches w.ctl.threads (current w.ctl tsc)) (current w.ctl tsc) v
        r.in_range ge le above)
Step-Inv {w} (takes_blocking i tsc {c = c} r p e) v =
    elim (Bool-cases (all_pass w.ctl.threads (current w.ctl tsc))) [
      | inl free ↦
          let old = newest-le w.clock w.ctl.snapshots v.ordered in
          let same : link_snapshot w.ctl i (current w.ctl tsc) ≡ c = ground arith in
          rw (e, ← same)
            (link-Inv w i (current w.ctl tsc) (current w.ctl tsc) v r.in_range
              (omega (arith, r.later)) (omega arith)
              (all_pass-Above w.ctl.threads (newest w.ctl.snapshots) (current w.ctl tsc) v.above
                free))
      | inr busy ↦ absurd (ground arith)
    ]
Step-Inv {w} (drops i e) v = rw e (record {
  in_time = v.in_time;
  ordered = Descending-delete w.clock w.ctl.snapshots i v.ordered;
  above = Above-mono w.ctl.threads (newest-delete w.clock w.ctl.snapshots i v.ordered) v.above;
  recorded = refl;
})

pub Reach-Inv : {w u : World} → Inv w → Reach w u → Inv u
Reach-Inv v here = v
Reach-Inv v (next r s) = Step-Inv s (Reach-Inv v r)

-- A controller that was just started, with no snapshot and no batch.
pub record Started (w : World) : Type 0 where
  pub in_time : w.clock < max_timestamp
  pub no_snapshot : w.ctl.snapshots ≡ []
  pub no_batch : All (λ t. t.batch_write_ts ≡ max_timestamp) w.ctl.threads
  pub none_recorded : w.ctl.global_oldest ≡ max_timestamp

idle_threads :
    (ts : List ThreadCache) → All (λ t. t.batch_write_ts ≡ max_timestamp) ts → All (Above 0) ts
idle_threads [] a = tt
idle_threads (t ∷ ts) a = (omega (arith, a.0), idle_threads ts a.1)

Started-Inv : (w : World) → Started w → Inv w
unfolding oldest
Started-Inv w s = record {
  in_time = s.in_time;
  ordered = rw s.no_snapshot tt;
  above = rw s.no_snapshot (idle_threads w.ctl.threads s.no_batch);
  recorded = rw s.no_snapshot s.none_recorded;
}

older :
    (n b : ℕ) (ss : List Snapshot) → Descending n ss → newest ss < b → All (λ s. s.timestamp < b) ss
older n b [] d lt = tt
older n b (s ∷ []) d lt = (lt, tt)
older n b (s ∷ r ∷ ss) d lt = (lt, older s.timestamp b (r ∷ ss) d.1 (omega (arith, d.1.0)))

below-All :
    (ts : List ThreadCache) (n : ℕ) (ss : List Snapshot)
    → Descending n ss
    → All (Above (newest ss)) ts
    → All (λ t. All (λ s. s.timestamp < t.batch_write_ts) ss) ts
below-All [] n ss d a = tt
below-All (t ∷ ts) n ss d a = (older n t.batch_write_ts ss d a.0.0, below-All ts n ss d a.1)

-- Whatever the calls, as long as each runs alone and the controller was just started: the recorded
-- oldest timestamp is that of the last snapshot of the list, and no live snapshot is older.
pub recorded-oldest :
    {w u : World}
    → Started w
    → Reach w u
    → (u.ctl.global_oldest ≡ oldest u.ctl.snapshots)
      × All (λ s. u.ctl.global_oldest ≤ s.timestamp) u.ctl.snapshots
recorded-oldest {w} {u} s r =
    let v = Reach-Inv (Started-Inv w s) r in
    (v.recorded, rw v.recorded (oldest-le u.clock u.ctl.snapshots v.ordered))

-- Whatever the calls, as long as each runs alone and the controller was just started: a live
-- snapshot is older than every batch that is still being written, so it shows none of its records.
pub snapshot-excludes_batches :
    {w u : World}
    → Started w
    → Reach w u
    → All (λ t. All (λ s. s.timestamp < t.batch_write_ts) u.ctl.snapshots) u.ctl.threads
snapshot-excludes_batches {w} {u} s r =
    let v = Reach-Inv (Started-Inv w s) r in
    below-All u.ctl.threads u.clock u.ctl.snapshots v.ordered v.above
