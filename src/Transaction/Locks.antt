-- ===== src/Transaction/Locks.antt =====
-- The locks of a transaction.
use kvdk.Prelude.{
  ℕ, ◌≡◌, refl, inl, inr, Bool, false, not, ◌&&◌, Bool-cases, arith, List, [], ◌∷◌, has, Distinct,
  update, Option, none, some, Option-cases,
}
use kvdk.Batch.Ops.{size, clear}
use kvdk.Codec.Bytes.{Bytes}
use kvdk.Transaction.{
  on_hash_get, on_sorted_get, on_hash_delete, on_sorted_delete, on_hash_put, on_sorted_put,
  on_string_get, on_string_delete, on_string_put, txn_hash_get, txn_sorted_get, txn_hash_delete,
  txn_hash_put, txn_sorted_delete, txn_sorted_put, txn_string_delete, string_get, txn_string_put,
  txn_string_get, WriteBatch, clear, CollectionOp, Transaction, Engine, try_lock, locked_write,
  locked_read, acquire_collection_transaction, collection_write, collection_read, call, Call, run,
  rollback, unlock_all, new_transaction, Status,
}

-- The thread has just the locks that the transaction knows of, each once.
pub record OwnsLocks (t : Transaction) : Type 0 where
  pub known : (i : ℕ) → t.mine i ≡ has i t.locked
  pub once : Distinct t.locked

-- A step of a transaction keeps its locks and may take one more.
try_lock-OwnsLocks :
    (gets : ℕ → Bool) (t : Transaction) (s : ℕ) → OwnsLocks t → OwnsLocks (try_lock gets t s).0
unfolding try_lock
try_lock-OwnsLocks gets t s h = elim (Bool-cases (has s t.locked)) [
  | inl e ↦ rw e h
  | inr e ↦ elim (Bool-cases (gets s && not (t.mine s))) [
    | inl g ↦
        rw (e, g) (record { known = λ i. let u = h.known i in ground arith; once = (e, h.once) })
    | inr g ↦ rw (e, g) h
  ]
]

unlock_all-gone :
    (mine : ℕ → Bool) (ss : List ℕ) (i : ℕ) → unlock_all mine ss i ≡ (mine i && not (has i ss))
unfolding unlock_all
unlock_all-gone mine [] i = ground arith
unlock_all-gone mine (s ∷ ss) i = ground (arith, unlock_all-gone (update mine s false) ss i)

-- OwnsLocks reads two fields only.
same_locks : (t u : Transaction) → OwnsLocks t → u.locked ≡ t.locked → u.mine ≡ t.mine → OwnsLocks u
same_locks t u h e f = record { known = λ i. rw (e, f) (h.known i); once = rw e h.once }

locked_write-OwnsLocks :
    (gets : ℕ → Bool) (t : Transaction) (s : ℕ) (w : WriteBatch → WriteBatch)
    → OwnsLocks t
    → OwnsLocks (locked_write gets t s w).0
unfolding locked_write
locked_write-OwnsLocks gets t s w h =
    let k = try_lock-OwnsLocks gets t s h in
    elim (Bool-cases (try_lock gets t s).1) [
      | inl e ↦ rw e (same_locks (try_lock gets t s).0 _ k refl refl)
      | inr e ↦ rw e (same_locks (try_lock gets t s).0 _ k refl refl)
    ]

locked_read-OwnsLocks :
    (gets : ℕ → Bool) (t : Transaction) (s : ℕ) (a : Status × Bytes)
    → OwnsLocks t
    → OwnsLocks (locked_read gets t s a).0
unfolding locked_read
locked_read-OwnsLocks gets t s a h =
    let k = try_lock-OwnsLocks gets t s h in
    elim (Bool-cases (try_lock gets t s).1) [
      | inl e ↦ rw e k
      | inr e ↦ rw e (same_locks (try_lock gets t s).0 _ k refl refl)
    ]

acquire-OwnsLocks : (t : Transaction) → OwnsLocks t → OwnsLocks (acquire_collection_transaction t)
unfolding acquire_collection_transaction
acquire-OwnsLocks t h = elim (Bool-cases t.ct_token) [
  | inl e ↦ simp e h
  | inr e ↦ simp e (same_locks t _ h refl refl)
]

collection_write-OwnsLocks :
    (eng : Engine) (gets : ℕ → Bool) (t : Transaction) (found : Option ℕ) (k : Bytes)
    (w : WriteBatch → WriteBatch)
    → OwnsLocks t
    → OwnsLocks (collection_write eng gets t found k w).0
unfolding collection_write
collection_write-OwnsLocks eng gets t none k w h = acquire-OwnsLocks t h
collection_write-OwnsLocks eng gets t (some id) k w h =
    locked_write-OwnsLocks gets (acquire_collection_transaction t) _ w (acquire-OwnsLocks t h)

collection_read-OwnsLocks :
    (eng : Engine) (gets : ℕ → Bool) (t : Transaction) (op : Option CollectionOp) (found : Option ℕ)
    (k : Bytes) (r : ℕ → Status × Bytes)
    → OwnsLocks t
    → OwnsLocks (collection_read eng gets t op found k r).0
unfolding collection_read
collection_read-OwnsLocks eng gets t (some o) found k r h = h
collection_read-OwnsLocks eng gets t none none k r h = acquire-OwnsLocks t h
collection_read-OwnsLocks eng gets t none (some id) k r h =
    locked_read-OwnsLocks gets (acquire_collection_transaction t) _ (r id) (acquire-OwnsLocks t h)

string_get-OwnsLocks :
    (eng : Engine) (gets : ℕ → Bool) (t : Transaction) (k : Bytes)
    → OwnsLocks t
    → OwnsLocks (txn_string_get eng gets t k).0
unfolding txn_string_get
string_get-OwnsLocks eng gets t k h = elim (Option-cases (string_get t.batch k)) [
  | inl e ↦ simp (txn_string_get, e) (locked_read-OwnsLocks gets t (eng.get_lock k) (eng.get k) h)
  | inr x ↦ simp (txn_string_get, x.1) h
]

call-OwnsLocks :
    (eng : Engine) (gets : ℕ → Bool) (t : Transaction) (c : Call)
    → OwnsLocks t
    → OwnsLocks (call eng gets t c)
unfolding call txn_string_put txn_string_delete txn_sorted_put txn_sorted_delete txn_hash_put
    txn_hash_delete txn_sorted_get txn_hash_get
call-OwnsLocks eng gets t (on_string_put k v) h = locked_write-OwnsLocks gets t _ _ h
call-OwnsLocks eng gets t (on_string_delete k) h = locked_write-OwnsLocks gets t _ _ h
call-OwnsLocks eng gets t (on_string_get k) h = string_get-OwnsLocks eng gets t k h
call-OwnsLocks eng gets t (on_sorted_put c k v) h = collection_write-OwnsLocks eng gets t _ k _ h
call-OwnsLocks eng gets t (on_hash_put c k v) h = collection_write-OwnsLocks eng gets t _ k _ h
call-OwnsLocks eng gets t (on_sorted_delete c k) h = collection_write-OwnsLocks eng gets t _ k _ h
call-OwnsLocks eng gets t (on_hash_delete c k) h = collection_write-OwnsLocks eng gets t _ k _ h
call-OwnsLocks eng gets t (on_sorted_get c k) h = collection_read-OwnsLocks eng gets t _ _ k _ h
call-OwnsLocks eng gets t (on_hash_get c k) h = collection_read-OwnsLocks eng gets t _ _ k _ h

pub run-OwnsLocks :
    (eng : Engine) (t : Transaction) (cs : List (Call × (ℕ → Bool)))
    → OwnsLocks t
    → OwnsLocks (run eng t cs)
unfolding run
run-OwnsLocks eng t [] h = h
run-OwnsLocks eng t ((c, gets) ∷ cs) h =
    run-OwnsLocks eng (call eng gets t c) cs (call-OwnsLocks eng gets t c h)

new-OwnsLocks : OwnsLocks new_transaction
new-OwnsLocks = record { known = λ i. refl; once = tt }

-- After any history of calls on a new transaction Rollback has given back every lock that its thread
-- got, has emptied the batch and has dropped the token.
pub rollback-run :
    (eng : Engine) (cs : List (Call × (ℕ → Bool)))
    → ((i : ℕ) → (rollback (run eng new_transaction cs)).mine i ≡ false)
      × ((rollback (run eng new_transaction cs)).locked ≡ [])
      × (size (rollback (run eng new_transaction cs)).batch ≡ 0)
      × ((rollback (run eng new_transaction cs)).ct_token ≡ false)
unfolding rollback clear size
rollback-run eng cs =
    let t = run eng new_transaction cs in
    let h = run-OwnsLocks eng new_transaction cs new-OwnsLocks in
    (
      λ i. let a = unlock_all-gone t.mine t.locked i in let b = h.known i in ground arith,
      refl,
      refl,
      refl,
    )
