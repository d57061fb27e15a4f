-- ===== src/Tests/Transaction.antt =====
-- A gate with two threads, and a transaction on one collection.
use kvdk.Prelude.{length, ℕ, ◌≡◌, refl, ◌⊎◌, ◌<◌, none, some, true, false, List, [], ◌∷◌, Bool}
use kvdk.Transaction.{
  ok, not_found, Engine, Call, LockTimeout, microseconds, timed_out, run, new_transaction,
  on_string_put, on_sorted_put, on_sorted_get,
}
use kvdk.Transaction.Gate.{
  await_transactions, enter, idle, await_collections, Gate, Phase, Reachable, idle_threads,
  phase_of, in_transaction, in_collection, fresh, then_step, acquire_transaction,
  acquire_collection, acquires_transaction, acquires_collection,
}
use kvdk.Transaction.Gate.Counts.{total}
use kvdk.Transaction.Gate.Safe.{Reachable-apart, Reachable-awake, awake, busy}
use kvdk.Transaction.Covered.{Covered}
use kvdk.Transaction.Calls.{run-IsCovered}

abbrev new_gate : Gate
new_gate = record {
  processing_collection = 0;
  processing_transaction = 0;
  threads = idle_threads 2;
}

-- Thread 0 is in a transaction and thread 1 waits for it.
abbrev waiting : Gate
waiting = acquire_collection (acquire_transaction new_gate 0) 1

idle-second : phase_of (acquire_transaction new_gate 0).threads 1 ≡ some idle
unfolding phase_of acquire_transaction await_collections enter
idle-second = refl

idle-first : phase_of new_gate.threads 0 ≡ some idle
unfolding phase_of
idle-first = refl

waiting-Reachable : Reachable waiting
waiting-Reachable =
    then_step (acquire_transaction new_gate 0) waiting
      (then_step new_gate (acquire_transaction new_gate 0) (fresh 2)
        (acquires_transaction 0 idle-first))
      (acquires_collection 1 idle-second)

waiting-first : phase_of waiting.threads 0 ≡ some in_transaction
unfolding phase_of acquire_transaction await_collections enter acquire_collection await_transactions
waiting-first = refl

Reachable-apart_example : ¬ (phase_of waiting.threads 1 ≡ some in_collection)
Reachable-apart_example = Reachable-apart waiting 0 1 waiting-Reachable waiting-first

Reachable-awake_example :
    (total busy waiting.threads ≡ 0)
    ⊎ ((i : ℕ) × (p : Phase) × (phase_of waiting.threads i ≡ some p) × (0 < awake p))
Reachable-awake_example = Reachable-awake waiting waiting-Reachable

abbrev never : ℕ → Bool
never n = false

abbrev ticks : ℕ → ℕ
ticks n = n

abbrev limit : LockTimeout
limit = microseconds 5

late : timed_out limit 9 ≡ true
unfolding timed_out
late = refl

-- One sorted collection, with the id 3; a lock is the length of a key.
abbrev engine : Engine
engine = record {
  get_lock = length;
  find_sorted = λ c. some 3;
  find_hash = λ c. none;
  internal_key = λ id k. id ∷ k;
  get = λ k. (not_found, []);
  sorted_read = λ id k. (not_found, []);
  hash_read = λ id k. (not_found, []);
  commit = λ b. ok;
}

abbrev all_free : ℕ → Bool
all_free i = true

abbrev history : List (Call × (ℕ → Bool))
history =
    (on_string_put (97 ∷ []) (1 ∷ []), all_free)
    ∷ (on_sorted_put (115 ∷ []) (98 ∷ []) (2 ∷ []), all_free)
    ∷ (on_sorted_get (115 ∷ []) (98 ∷ 99 ∷ []), never)
    ∷ []

run-IsCovered_example :
    Covered engine
      (run engine new_transaction history).locked
      (run engine new_transaction history).ct_token
      (run engine new_transaction history).batch
run-IsCovered_example = run-IsCovered engine history
