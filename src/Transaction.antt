-- ===== src/Transaction.antt =====
-- engine/transaction_impl.hpp and transaction_impl.cpp: the gate between transactions and the
-- threads that create or destroy collections, and the transaction itself. A lock of the hash table
-- is a number. What a transaction asks the engine is the record Engine: its answers while the
-- transaction runs.
pub mod Gate
pub mod Timeout
pub mod Locks
pub mod Covered
pub mod Calls
use kvdk.Prelude.{
  ℕ, zero, suc, ◌+◌, Option, none, some, Bool, true, false, not, ◌&&◌, ltb, if◌then◌else◌, List, [],
  ◌∷◌, has, update,
}
use kvdk.Codec.Bytes.{Bytes}
use kvdk.Batch.Ops.{
  WriteBatch, WriteOp, put, delete, StringOp, CollectionOp, string_put, string_delete, sorted_put,
  sorted_delete, hash_put, hash_delete, string_get, sorted_get, hash_get, clear,
}

pub data Status : Type 0 where
  ok not_found timeout failed : Status

-- The two kinds of collection that a transaction works on: GetLock, Lookup for the collection's id,
-- InternalKey, and the reads.
pub record Engine : Type 0 where
  pub get_lock : Bytes → ℕ
  pub find_sorted : Bytes → Option ℕ
  pub find_hash : Bytes → Option ℕ
  pub internal_key : ℕ → Bytes → Bytes
  pub get : Bytes → Status × Bytes
  pub sorted_read : ℕ → Bytes → Status × Bytes
  pub hash_read : ℕ → Bytes → Status × Bytes
  pub commit : WriteBatch → Status

-- `mine` are the locks that the transaction's thread has.
pub record Transaction : Type 0 where
  pub status : Status
  pub batch : WriteBatch
  pub locked : List ℕ
  pub ct_token : Bool
  pub mine : ℕ → Bool

-- timeout_, an int64_t
pub data LockTimeout : Type 0 where
  negative : LockTimeout
  microseconds : ℕ → LockTimeout

unfoldable pub timed_out : LockTimeout → ℕ → Bool
timed_out negative e = true
timed_out (microseconds t) e = ltb t e

-- tryLockImpl: what the n-th try_lock returns, and the time that has then passed. `none` if the
-- tries given do not decide.
unfoldable pub try_lock_impl :
    (tries : ℕ) → LockTimeout → (try_lock : ℕ → Bool) → (elapsed : ℕ → ℕ) → ℕ → Option Bool
try_lock_impl zero t try_lock elapsed n = none
try_lock_impl (suc f) t try_lock elapsed n =
    let rest = try_lock_impl f t try_lock elapsed (n + 1) in
    if try_lock n then some true else (if timed_out t (elapsed n) then some false else rest)

-- A transaction as it is made, with the result of randomTimeout left out.
abbrev pub new_transaction : Transaction
new_transaction = record {
  status = ok;
  batch = record { string_ops = []; sorted_ops = []; hash_ops = [] };
  locked = [];
  ct_token = false;
  mine = λ i. false;
}

-- tryLock, where `gets` are the locks that tryLockImpl would get in time from other threads.
unfoldable pub try_lock : (gets : ℕ → Bool) → Transaction → ℕ → Transaction × Bool
try_lock gets t spin =
    if has spin t.locked
    then (t, true)
    else (if gets spin && not (t.mine spin)
        then (record t { locked = spin ∷ t.locked; mine = update t.mine spin true }, true)
        else (t, false))

-- A write under the lock of a key.
unfoldable pub locked_write :
    (gets : ℕ → Bool) → Transaction → ℕ → (WriteBatch → WriteBatch) → Transaction × Status
unfolding try_lock
locked_write gets t spin write =
    let r = try_lock gets t spin in
    if r.1
    then (record r.0 { batch = write r.0.batch }, ok)
    else (record r.0 { status = timeout }, timeout)

-- A read under the lock of a key.
unfoldable pub locked_read :
    (gets : ℕ → Bool) → Transaction → ℕ → Status × Bytes → Transaction × (Status × Bytes)
unfolding try_lock
locked_read gets t spin answer =
    let r = try_lock gets t spin in
    if r.1 then (r.0, answer) else (record r.0 { status = timeout }, (timeout, []))

unfoldable pub acquire_collection_transaction : Transaction → Transaction
acquire_collection_transaction t = if t.ct_token then t else record t { ct_token = true }

-- What a read finds in the batch.
unfoldable pub read_op : WriteOp → Bytes → Status × Bytes
read_op put v = (ok, v)
read_op delete v = (not_found, [])

module _ (eng : Engine) (gets : ℕ → Bool) (t : Transaction) where
  unfoldable pub txn_string_put : Bytes → Bytes → Transaction × Status
  txn_string_put k v = locked_write gets t (eng.get_lock k) (λ b. string_put b k v)

  unfoldable pub txn_string_delete : Bytes → Transaction × Status
  txn_string_delete k = locked_write gets t (eng.get_lock k) (λ b. string_delete b k)

  unfoldable pub txn_string_get : Bytes → Transaction × (Status × Bytes)
  txn_string_get k = elim (string_get t.batch k) [
    | some o ↦ (t, read_op o.op o.value)
    | none ↦ locked_read gets t (eng.get_lock k) (eng.get k)
  ]

  -- The part that the writes to a collection share.
  unfoldable pub collection_write :
      Option ℕ → Bytes → (WriteBatch → WriteBatch) → Transaction × Status
  collection_write found k write =
      let t' = acquire_collection_transaction t in
      elim found [
        | none ↦ (t', not_found)
        | some id ↦ locked_write gets t' (eng.get_lock (eng.internal_key id k)) write
      ]

  unfoldable pub collection_read :
      Option CollectionOp → Option ℕ → Bytes → (ℕ → Status × Bytes) → Transaction × (Status × Bytes)
  collection_read op found k read = elim op [
    | some o ↦ (t, read_op o.op o.value)
    | none ↦ elim found [
      | none ↦ (acquire_collection_transaction t, (not_found, []))
      | some id ↦
          locked_read gets (acquire_collection_transaction t) (eng.get_lock (eng.internal_key id k))
            (read id)
    ]
  ]

  unfoldable pub txn_sorted_put : Bytes → Bytes → Bytes → Transaction × Status
  txn_sorted_put c k v = collection_write (eng.find_sorted c) k (λ b. sorted_put b c k v)

  unfoldable pub txn_sorted_delete : Bytes → Bytes → Transaction × Status
  txn_sorted_delete c k = collection_write (eng.find_sorted c) k (λ b. sorted_delete b c k)

  unfoldable pub txn_sorted_get : Bytes → Bytes → Transaction × (Status × Bytes)
  txn_sorted_get c k =
      collection_read (sorted_get t.batch c k) (eng.find_sorted c) k (λ id. eng.sorted_read id k)

  unfoldable pub txn_hash_put : Bytes → Bytes → Bytes → Transaction × Status
  txn_hash_put c k v = collection_write (eng.find_hash c) k (λ b. hash_put b c k v)

  unfoldable pub txn_hash_delete : Bytes → Bytes → Transaction × Status
  txn_hash_delete c k = collection_write (eng.find_hash c) k (λ b. hash_delete b c k)

  unfoldable pub txn_hash_get : Bytes → Bytes → Transaction × (Status × Bytes)
  txn_hash_get c k =
      collection_read (hash_get t.batch c k) (eng.find_hash c) k (λ id. eng.hash_read id k)

-- The loop over locked_.
unfoldable pub unlock_all : (ℕ → Bool) → List ℕ → ℕ → Bool
unlock_all mine [] = mine
unlock_all mine (s ∷ ss) = unlock_all (update mine s false) ss

-- status_ stays.
unfoldable pub rollback : Transaction → Transaction
unfolding unlock_all clear
rollback t = record t {
  batch = clear t.batch;
  locked = [];
  ct_token = false;
  mine = unlock_all t.mine t.locked;
}

unfoldable pub commit : Engine → Transaction → Transaction × Status
unfolding rollback
commit eng t = (rollback t, eng.commit t.batch)

pub data Call : Type 0 where
  on_string_put : Bytes → Bytes → Call
  on_string_delete on_string_get : Bytes → Call
  on_sorted_put on_hash_put : Bytes → Bytes → Bytes → Call
  on_sorted_delete on_hash_delete on_sorted_get on_hash_get : Bytes → Bytes → Call

unfoldable pub call : Engine → (gets : ℕ → Bool) → Transaction → Call → Transaction
call eng gets t (on_string_put k v) = (txn_string_put eng gets t k v).0
call eng gets t (on_string_delete k) = (txn_string_delete eng gets t k).0
call eng gets t (on_string_get k) = (txn_string_get eng gets t k).0
call eng gets t (on_sorted_put c k v) = (txn_sorted_put eng gets t c k v).0
call eng gets t (on_hash_put c k v) = (txn_hash_put eng gets t c k v).0
call eng gets t (on_sorted_delete c k) = (txn_sorted_delete eng gets t c k).0
call eng gets t (on_hash_delete c k) = (txn_hash_delete eng gets t c k).0
call eng gets t (on_sorted_get c k) = (txn_sorted_get eng gets t c k).0
call eng gets t (on_hash_get c k) = (txn_hash_get eng gets t c k).0

-- A history of calls, each with the locks that it can get.
unfoldable pub run : Engine → Transaction → List (Call × (ℕ → Bool)) → Transaction
unfolding call
run eng t [] = t
run eng t ((c, gets) ∷ cs) = run eng (call eng gets t c) cs
