-- ===== src/Transaction/Calls.antt =====
-- The calls of a transaction keep its batch covered, up to Commit.
use kvdk.Prelude.{inr, inl, ℕ, ◌≡◌, refl, Bool, true, List, [], ◌∷◌, has, some, Option-cases}
use kvdk.Codec.Bytes.{Bytes}
use kvdk.Batch.Ops.{
  WriteBatch, StringOp, string_put, string_delete, sorted_put, sorted_delete, hash_put, hash_delete,
  same_string, same_elem, string_get,
}
use kvdk.Transaction.{
  on_hash_get, on_sorted_get, on_hash_delete, on_sorted_delete, on_hash_put, on_sorted_put,
  on_string_get, on_string_delete, on_string_put, txn_hash_get, txn_sorted_get, txn_hash_delete,
  txn_hash_put, txn_sorted_delete, txn_sorted_put, txn_string_delete, txn_string_put, Transaction,
  Engine, Call, call, run, new_transaction, txn_string_get,
}
use kvdk.Transaction.Covered.{
  Covered, IsCovered, ElemUnder, All-replace, strings-Covered, sorted-Covered, hashes-Covered,
  locked_write-IsCovered, locked_read-IsCovered, collection_write-IsCovered,
  collection_read-IsCovered,
}

module _ (eng : Engine) (l : List ℕ) where
  module _ (token : Bool) (b : WriteBatch) (k : Bytes) where
    put-Covered :
        (v : Bytes)
        → has (eng.get_lock k) l ≡ true
        → Covered eng l token b
        → Covered eng l token (string_put b k v)
    unfolding string_put
    put-Covered v e h = strings-Covered eng l token b h _ (
        All-replace (λ (o : StringOp). has (eng.get_lock o.key) l ≡ true) same_string _ b.string_ops
          e h.strings)

    delete-Covered :
        has (eng.get_lock k) l ≡ true
        → Covered eng l token b
        → Covered eng l token (string_delete b k)
    unfolding string_delete
    delete-Covered e h = strings-Covered eng l token b h _ (
        All-replace (λ (o : StringOp). has (eng.get_lock o.key) l ≡ true) same_string _ b.string_ops
          e h.strings)

  module _ (b : WriteBatch) (c k : Bytes) (id : ℕ) where
    sorted_put-Covered :
        (v : Bytes)
        → eng.find_sorted c ≡ some id
        → has (eng.get_lock (eng.internal_key id k)) l ≡ true
        → Covered eng l true b
        → Covered eng l true (sorted_put b c k v)
    unfolding sorted_put
    sorted_put-Covered v f e h = sorted-Covered eng l true b h _ (
        All-replace (ElemUnder eng eng.find_sorted l true) same_elem _ b.sorted_ops (id, f, refl, e)
          h.sorted)

    sorted_delete-Covered :
        eng.find_sorted c ≡ some id
        → has (eng.get_lock (eng.internal_key id k)) l ≡ true
        → Covered eng l true b
        → Covered eng l true (sorted_delete b c k)
    unfolding sorted_delete
    sorted_delete-Covered f e h = sorted-Covered eng l true b h _ (
        All-replace (ElemUnder eng eng.find_sorted l true) same_elem _ b.sorted_ops (id, f, refl, e)
          h.sorted)

    hash_put-Covered :
        (v : Bytes)
        → eng.find_hash c ≡ some id
        → has (eng.get_lock (eng.internal_key id k)) l ≡ true
        → Covered eng l true b
        → Covered eng l true (hash_put b c k v)
    unfolding hash_put
    hash_put-Covered v f e h = hashes-Covered eng l true b h _ (
        All-replace (ElemUnder eng eng.find_hash l true) same_elem _ b.hash_ops (id, f, refl, e)
          h.hashes)

    hash_delete-Covered :
        eng.find_hash c ≡ some id
        → has (eng.get_lock (eng.internal_key id k)) l ≡ true
        → Covered eng l true b
        → Covered eng l true (hash_delete b c k)
    unfolding hash_delete
    hash_delete-Covered f e h = hashes-Covered eng l true b h _ (
        All-replace (ElemUnder eng eng.find_hash l true) same_elem _ b.hash_ops (id, f, refl, e)
          h.hashes)

string_get-IsCovered :
    (eng : Engine) (gets : ℕ → Bool) (t : Transaction) (k : Bytes)
    → IsCovered eng t
    → IsCovered eng (txn_string_get eng gets t k).0
unfolding txn_string_get
string_get-IsCovered eng gets t k h = elim (Option-cases (string_get t.batch k)) [
  | inl e ↦
      simp (txn_string_get, e) (locked_read-IsCovered eng gets t (eng.get_lock k) (eng.get k) h)
  | inr x ↦ simp (txn_string_get, x.1) h
]

call-IsCovered :
    (eng : Engine) (gets : ℕ → Bool) (t : Transaction) (c : Call)
    → IsCovered eng t
    → IsCovered eng (call eng gets t c)
unfolding call txn_string_put txn_string_delete txn_sorted_put txn_sorted_delete txn_hash_put
    txn_hash_delete txn_sorted_get txn_hash_get
call-IsCovered eng gets t (on_string_put k v) h =
    locked_write-IsCovered eng gets t _ _ h (λ l e g. put-Covered eng l t.ct_token t.batch k v e g)
call-IsCovered eng gets t (on_string_delete k) h =
    locked_write-IsCovered eng gets t _ _ h (λ l e g. delete-Covered eng l t.ct_token t.batch k e g)
call-IsCovered eng gets t (on_string_get k) h = string_get-IsCovered eng gets t k h
call-IsCovered eng gets t (on_sorted_put c k v) h =
    collection_write-IsCovered eng gets t _ k _ h
      (λ id l f e g. sorted_put-Covered eng l t.batch c k id v f e g)
call-IsCovered eng gets t (on_hash_put c k v) h =
    collection_write-IsCovered eng gets t _ k _ h
      (λ id l f e g. hash_put-Covered eng l t.batch c k id v f e g)
call-IsCovered eng gets t (on_sorted_delete c k) h =
    collection_write-IsCovered eng gets t _ k _ h
      (λ id l f e g. sorted_delete-Covered eng l t.batch c k id f e g)
call-IsCovered eng gets t (on_hash_delete c k) h =
    collection_write-IsCovered eng gets t _ k _ h
      (λ id l f e g. hash_delete-Covered eng l t.batch c k id f e g)
call-IsCovered eng gets t (on_sorted_get c k) h = collection_read-IsCovered eng gets t _ _ k _ h
call-IsCovered eng gets t (on_hash_get c k) h = collection_read-IsCovered eng gets t _ _ k _ h

history-IsCovered :
    (eng : Engine) (t : Transaction) (cs : List (Call × (ℕ → Bool)))
    → IsCovered eng t
    → IsCovered eng (run eng t cs)
unfolding run
history-IsCovered eng t [] h = h
history-IsCovered eng t ((c, gets) ∷ cs) h =
    history-IsCovered eng (call eng gets t c) cs (call-IsCovered eng gets t c h)

-- After any history of calls on a new transaction, as Commit finds it, the lock of each string's key
-- is among its locks; and each operation on a collection is on one that is there, with the lock of
-- its internal key among its locks, and the transaction has the collections' token.
pub run-IsCovered :
    (eng : Engine) (cs : List (Call × (ℕ → Bool)))
    → Covered eng
        (run eng new_transaction cs).locked
        (run eng new_transaction cs).ct_token
        (run eng new_transaction cs).batch
run-IsCovered eng cs =
    history-IsCovered eng new_transaction cs (record { strings = tt; sorted = tt; hashes = tt })
