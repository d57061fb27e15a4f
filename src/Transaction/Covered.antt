-- ===== src/Transaction/Covered.antt =====
-- Every operation of a transaction's batch is under a lock that the transaction has.
use kvdk.Prelude.{
  ℕ, ◌≡◌, refl, subst, ◌⊎◌, inl, inr, Bool, true, false, not, ◌&&◌, Bool-cases, arith, List, [],
  ◌∷◌, has, All, Option, none, some, Option-cases,
}
use kvdk.Codec.Bytes.{Bytes}
use kvdk.Batch.Ops.KeyedSet.{erase, insert, replace, find}
use kvdk.Batch.Ops.{WriteBatch, StringOp, CollectionOp}
use kvdk.Transaction.{
  Transaction, Engine, try_lock, locked_write, locked_read, acquire_collection_transaction,
  collection_write, collection_read, Status,
}

-- An operation on an element of a collection that is there: under the lock of the internal key, and
-- with the token.
abbrev pub ElemUnder : Engine → (Bytes → Option ℕ) → List ℕ → Bool → CollectionOp → Type 0
ElemUnder eng find_collection locked token o =
    (id : ℕ) × (find_collection o.collection ≡ some id)
    × (token ≡ true)
    × (has (eng.get_lock (eng.internal_key id o.key)) locked ≡ true)

pub record Covered (eng : Engine) (locked : List ℕ) (token : Bool) (b : WriteBatch) : Type 0 where
  pub strings : All (λ (o : StringOp). has (eng.get_lock o.key) locked ≡ true) b.string_ops
  pub sorted : All (ElemUnder eng eng.find_sorted locked token) b.sorted_ops
  pub hashes : All (ElemUnder eng eng.find_hash locked token) b.hash_ops

module _ {A : Type 0} (P : A → Type 0) where
  All-weaken : (Q : A → Type 0) (xs : List A) → ((a : A) → P a → Q a) → All P xs → All Q xs
  All-weaken Q [] f h = tt
  All-weaken Q (x ∷ xs) f h = (f x h.0, All-weaken Q xs f h.1)

  module _ (same : A → A → Bool) where
    All-erase : (a : A) (xs : List A) → All P xs → All P (erase same a xs)
    unfolding erase
    All-erase a [] h = tt
    All-erase a (x ∷ xs) h = elim (Bool-cases (same x a)) [
      | inl e ↦ rw e (All-erase a xs h.1)
      | inr e ↦ rw e (h.0, All-erase a xs h.1)
    ]

    All-insert : (a : A) (xs : List A) → P a → All P xs → All P (insert same a xs)
    unfolding insert
    All-insert a xs p h = elim (Option-cases (find same a xs)) [
      | inl e ↦ rw (All, insert, e) (p, h)
      | inr x ↦ rw (All, insert, x.1) h
    ]

    pub All-replace : (a : A) (xs : List A) → P a → All P xs → All P (replace same a xs)
    unfolding replace
    All-replace a xs p h = All-insert a (erase same a xs) p (All-erase a xs h)

either_token : (k : Bool) → (k ≡ false) ⊎ (k ≡ true)
either_token k = ground arith

-- More locks and the token keep what is covered.
Covered-more :
    (eng : Engine) (l l' : List ℕ) (k k' : Bool) (b : WriteBatch)
    → ((i : ℕ) → has i l ≡ true → has i l' ≡ true)
    → ((k ≡ false) ⊎ (k' ≡ true))
    → Covered eng l k b
    → Covered eng l' k' b
Covered-more eng l l' k k' b f g h = record {
  strings =
      All-weaken (λ (o : StringOp). has (eng.get_lock o.key) l ≡ true) _ b.string_ops (λ o e. f _ e)
        h.strings;
  sorted =
      All-weaken (ElemUnder eng eng.find_sorted l k) _ b.sorted_ops
        (λ o x. (x.0, x.1, grown_token x.2, f _ x.3)) h.sorted;
  hashes =
      All-weaken (ElemUnder eng eng.find_hash l k) _ b.hash_ops
        (λ o x. (x.0, x.1, grown_token x.2, f _ x.3)) h.hashes;
}
  where
    grown_token : k ≡ true → k' ≡ true
    grown_token e = elim g [ inl z ↦ cc | inr t ↦ t ]

module _ (eng : Engine) (l : List ℕ) (k : Bool) (b : WriteBatch) (h : Covered eng l k b) where
  pub strings-Covered :
      (ops : List StringOp)
      → All (λ (o : StringOp). has (eng.get_lock o.key) l ≡ true) ops
      → Covered eng l k record b { string_ops = ops }
  strings-Covered ops a = record { strings = a; sorted = h.sorted; hashes = h.hashes }

  pub sorted-Covered :
      (ops : List CollectionOp)
      → All (ElemUnder eng eng.find_sorted l k) ops
      → Covered eng l k record b { sorted_ops = ops }
  sorted-Covered ops a = record { strings = h.strings; sorted = a; hashes = h.hashes }

  pub hashes-Covered :
      (ops : List CollectionOp)
      → All (ElemUnder eng eng.find_hash l k) ops
      → Covered eng l k record b { hash_ops = ops }
  hashes-Covered ops a = record { strings = h.strings; sorted = h.sorted; hashes = a }

-- The state of a transaction in these terms.
abbrev pub IsCovered : Engine → Transaction → Type 0
IsCovered eng t = Covered eng t.locked t.ct_token t.batch

-- What try_lock leaves.
try_lock-keeps :
    (gets : ℕ → Bool) (t : Transaction) (s : ℕ)
    → ((i : ℕ) → has i t.locked ≡ true → has i (try_lock gets t s).0.locked ≡ true)
      × ((try_lock gets t s).0.ct_token ≡ t.ct_token)
      × ((try_lock gets t s).0.batch ≡ t.batch)
      × (((try_lock gets t s).1 ≡ false) ⊎ (has s (try_lock gets t s).0.locked ≡ true))
unfolding try_lock
try_lock-keeps gets t s = elim (Bool-cases (has s t.locked)) [
  | inl e ↦ rw e ((λ i h. h), refl, refl, inr e)
  | inr e ↦ elim (Bool-cases (gets s && not (t.mine s))) [
    | inl g ↦ rw (e, g) ((λ i h. ground arith), refl, refl, inr (ground arith))
    | inr g ↦ rw (e, g) ((λ i h. h), refl, refl, inl refl)
  ]
]

try_lock-Covered :
    (eng : Engine) (gets : ℕ → Bool) (t : Transaction) (s : ℕ)
    → IsCovered eng t
    → Covered eng (try_lock gets t s).0.locked t.ct_token t.batch
try_lock-Covered eng gets t s h =
    Covered-more eng t.locked (try_lock gets t s).0.locked t.ct_token t.ct_token t.batch
      (try_lock-keeps gets t s).0 (either_token t.ct_token) h

got-lock : {A : Type 0} (b : Bool) → (b ≡ false) ⊎ A → b ≡ true → A
got-lock b (inl e) h = absurd (ground arith)
got-lock b (inr a) h = a

pub locked_write-IsCovered :
    (eng : Engine) (gets : ℕ → Bool) (t : Transaction) (s : ℕ) (w : WriteBatch → WriteBatch)
    → IsCovered eng t
    → ((l : List ℕ)
        → has s l ≡ true
        → Covered eng l t.ct_token t.batch
        → Covered eng l t.ct_token (w t.batch))
    → IsCovered eng (locked_write gets t s w).0
unfolding locked_write
locked_write-IsCovered eng gets t s w h f =
    let (m, k, b, g) = try_lock-keeps gets t s in
    let c = try_lock-Covered eng gets t s h in
    elim (Bool-cases (try_lock gets t s).1) [
      | inl e ↦
          rw e (rw (k, b) (f (try_lock gets t s).0.locked (got-lock (try_lock gets t s).1 g e) c))
      | inr e ↦ rw e (rw (k, b) c)
    ]

pub locked_read-IsCovered :
    (eng : Engine) (gets : ℕ → Bool) (t : Transaction) (s : ℕ) (a : Status × Bytes)
    → IsCovered eng t
    → IsCovered eng (locked_read gets t s a).0
unfolding locked_read
locked_read-IsCovered eng gets t s a h =
    let (m, k, b, g) = try_lock-keeps gets t s in
    let c = try_lock-Covered eng gets t s h in
    elim (Bool-cases (try_lock gets t s).1) [
      | inl e ↦ rw e (rw (k, b) c)
      | inr e ↦ rw e (rw (k, b) c)
    ]

acquire-keeps :
    (t : Transaction)
    → ((acquire_collection_transaction t).locked ≡ t.locked)
      × ((acquire_collection_transaction t).ct_token ≡ true)
      × ((acquire_collection_transaction t).batch ≡ t.batch)
unfolding acquire_collection_transaction
acquire-keeps t = elim (Bool-cases t.ct_token) [
  | inl e ↦ simp e (refl, refl, refl)
  | inr e ↦ simp e (refl, refl, refl)
]

acquire-IsCovered :
    (eng : Engine) (t : Transaction)
    → IsCovered eng t
    → IsCovered eng (acquire_collection_transaction t)
acquire-IsCovered eng t h =
    let (l, k, b) = acquire-keeps t in
    rw (l, k, b)
      (Covered-more eng t.locked t.locked t.ct_token true t.batch (λ i e. e) (inr refl) h)

-- The write adds an operation on a key of the collection, which is covered where its lock is.
pub collection_write-IsCovered :
    (eng : Engine) (gets : ℕ → Bool) (t : Transaction) (found : Option ℕ) (k : Bytes)
    (w : WriteBatch → WriteBatch)
    → IsCovered eng t
    → ((id : ℕ) (l : List ℕ)
        → found ≡ some id
        → has (eng.get_lock (eng.internal_key id k)) l ≡ true
        → Covered eng l true t.batch
        → Covered eng l true (w t.batch))
    → IsCovered eng (collection_write eng gets t found k w).0
unfolding collection_write
collection_write-IsCovered eng gets t none k w h f = acquire-IsCovered eng t h
collection_write-IsCovered eng gets t (some id) k w h f =
    let (l, c, b) = acquire-keeps t in
    locked_write-IsCovered eng gets (acquire_collection_transaction t) _ w
      (acquire-IsCovered eng t h) (λ m e g. rw (c, b) (f id m refl e (with_token m c b g)))
  where
    with_token :
        (m : List ℕ)
        → (acquire_collection_transaction t).ct_token ≡ true
        → (acquire_collection_transaction t).batch ≡ t.batch
        → Covered eng m
            (acquire_collection_transaction t).ct_token
            (acquire_collection_transaction t).batch
        → Covered eng m true t.batch
    with_token m c b g =
        subst (λ (x : Bool). Covered eng m x t.batch) c
          (subst (λ (x : WriteBatch). Covered eng m (acquire_collection_transaction t).ct_token x) b
            g)

pub collection_read-IsCovered :
    (eng : Engine) (gets : ℕ → Bool) (t : Transaction) (op : Option CollectionOp) (found : Option ℕ)
    (k : Bytes) (r : ℕ → Status × Bytes)
    → IsCovered eng t
    → IsCovered eng (collection_read eng gets t op found k r).0
unfolding collection_read
collection_read-IsCovered eng gets t (some o) found k r h = h
collection_read-IsCovered eng gets t none none k r h = acquire-IsCovered eng t h
collection_read-IsCovered eng gets t none (some id) k r h =
    locked_read-IsCovered eng gets (acquire_collection_transaction t) _ (r id)
      (acquire-IsCovered eng t h)
