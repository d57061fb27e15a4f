-- ===== src/Transaction/Gate.antt =====
-- CollectionTransactionCV. A thread is a phase, and each call is the steps that it takes under the
-- gate's lock: from its start or from a wake-up to the next wait, or to its end.
pub mod Counts
pub mod Reach
pub mod Safe
use kvdk.Prelude.{
  ◌+◌, ◌-◌, ℕ, zero, suc, ◌≡◌, Option, none, some, Bool, true, false, ◌==◌, ltb, if◌then◌else◌,
  List, [], ◌∷◌, map, set,
}

pub data Phase : Type 0 where
  -- outside
  idle : Phase
  -- in AcquireTransaction, asleep in `cv_.wait` or about to test again
  sleeping_transaction woken_transaction : Phase
  -- behind AcquireTransaction
  in_transaction : Phase
  -- the same of AcquireCollection
  sleeping_collection woken_collection in_collection : Phase

pub record Gate : Type 0 where
  pub processing_collection : ℕ
  pub processing_transaction : ℕ
  pub threads : List Phase

unfoldable pub enter : Gate → ℕ → Phase → Gate
enter g i p = record g { threads = set g.threads i p }

-- `cv_.notify_all()`
unfoldable pub wake : Phase → Phase
wake idle = idle
wake sleeping_transaction = woken_transaction
wake woken_transaction = woken_transaction
wake in_transaction = in_transaction
wake sleeping_collection = woken_collection
wake woken_collection = woken_collection
wake in_collection = in_collection

unfoldable pub notify_all : Gate → Gate
unfolding wake
notify_all g = record g { threads = map wake g.threads }

-- The loop of AcquireTransaction from its test, and the statement behind it.
unfoldable pub await_collections : Gate → ℕ → Gate
unfolding enter
await_collections g i =
    if ltb 0 g.processing_collection
    then enter g i sleeping_transaction
    else enter (record g { processing_transaction = g.processing_transaction + 1 }) i in_transaction

unfoldable pub acquire_transaction : Gate → ℕ → Gate
unfolding await_collections
acquire_transaction g i = await_collections g i

-- The loop of AcquireCollection.
unfoldable pub await_transactions : Gate → ℕ → Gate
unfolding enter
await_transactions g i =
    if ltb 0 g.processing_transaction
    then enter g i sleeping_collection
    else enter g i in_collection

unfoldable pub acquire_collection : Gate → ℕ → Gate
unfolding await_transactions
acquire_collection g i =
    await_transactions (record g { processing_collection = g.processing_collection + 1 }) i

unfoldable pub finish_transaction : Gate → ℕ → Gate
unfolding notify_all enter
finish_transaction g i =
    let h = enter (record g { processing_transaction = g.processing_transaction - 1 }) i idle in
    if h.processing_transaction == 0 then notify_all h else h

unfoldable pub finish_collection : Gate → ℕ → Gate
unfolding notify_all enter
finish_collection g i =
    let h = enter (record g { processing_collection = g.processing_collection - 1 }) i idle in
    if h.processing_collection == 0 then notify_all h else h

-- The phase of a thread, if there is such a thread.
unfoldable pub phase_of : List Phase → ℕ → Option Phase
phase_of [] i = none
phase_of (p ∷ ps) zero = some p
phase_of (p ∷ ps) (suc i) = phase_of ps i

-- What a thread can do next. A condition variable may also wake a thread for no reason.
pub data Step (g : Gate) : Gate → Type 0 where
  acquires_transaction :
      (i : ℕ) → phase_of g.threads i ≡ some idle → Step g (acquire_transaction g i)
  tests_collections :
      (i : ℕ) → phase_of g.threads i ≡ some woken_transaction → Step g (await_collections g i)
  finishes_transaction :
      (i : ℕ) → phase_of g.threads i ≡ some in_transaction → Step g (finish_transaction g i)
  acquires_collection : (i : ℕ) → phase_of g.threads i ≡ some idle → Step g (acquire_collection g i)
  tests_transactions :
      (i : ℕ) → phase_of g.threads i ≡ some woken_collection → Step g (await_transactions g i)
  finishes_collection :
      (i : ℕ) → phase_of g.threads i ≡ some in_collection → Step g (finish_collection g i)
  wakes_transaction :
      (i : ℕ)
      → phase_of g.threads i ≡ some sleeping_transaction
      → Step g (enter g i woken_transaction)
  wakes_collection :
      (i : ℕ)
      → phase_of g.threads i ≡ some sleeping_collection
      → Step g (enter g i woken_collection)

abbrev pub idle_threads : ℕ → List Phase
idle_threads zero = []
idle_threads (suc n) = idle ∷ idle_threads n

-- A gate as it is made, and what can come of it.
pub data Reachable : Gate → Type 0 where
  fresh :
      (n : ℕ)
      → Reachable
          record { processing_collection = 0; processing_transaction = 0; threads = idle_threads n }
  then_step : (g h : Gate) → Reachable g → Step g h → Reachable h
