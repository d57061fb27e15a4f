-- ===== src/Transaction/Gate/Reach.antt =====
-- What holds of every gate that can come about.
use kvdk.Prelude.{
  le→ltb, lt→ltb, ◌+◌, ◌-◌, ◌≤◌, ◌<◌, ℕ, ◌≡◌, ◌⊎◌, inl, inr, refl, some, List, map, set, arith,
  ◌==◌, Bool-cases, lt-cases,
}
use kvdk.Transaction.Gate.{
  Gate, Phase, idle, sleeping_transaction, woken_transaction, in_transaction, sleeping_collection,
  woken_collection, in_collection, phase_of, wake, enter, notify_all, await_collections,
  await_transactions, acquire_collection, finish_transaction, finish_collection,
}
use kvdk.Transaction.Gate.Counts.{
  inside-with_collection, inside_transaction, inside_collection, with_collection,
  asleep_transaction, asleep_collection, total, total-set, total-wake, total-none,
  inside_transaction-wake, inside_collection-wake, with_collection-wake, asleep_transaction-wake,
  asleep_collection-wake,
}

-- The counters count, a collection is inside only without transactions, and whoever sleeps has
-- something to wait for.
pub record IsGate (collections transactions in_t in_c with_c asleep_t asleep_c : ℕ) : Type 0 where
  pub transactions_counted : transactions ≡ in_t
  pub collections_counted : collections ≡ with_c
  pub apart : (in_c ≡ 0) ⊎ (transactions ≡ 0)
  pub waits_collection : (asleep_t ≡ 0) ⊎ (0 < collections)
  pub waits_transaction : (asleep_c ≡ 0) ⊎ (0 < transactions)

abbrev pub Invariant : Gate → Type 0
Invariant g =
    IsGate g.processing_collection g.processing_transaction (total inside_transaction g.threads)
      (total inside_collection g.threads) (total with_collection g.threads)
      (total asleep_transaction g.threads) (total asleep_collection g.threads)

-- The totals when one thread changes its phase.
pub record Moved (ps : List Phase) (i : ℕ) (p q : Phase) : Type 0 where
  pub t :
      total inside_transaction (set ps i q) + inside_transaction p
      ≡ total inside_transaction ps + inside_transaction q
  pub c :
      total inside_collection (set ps i q) + inside_collection p
      ≡ total inside_collection ps + inside_collection q
  pub w :
      total with_collection (set ps i q) + with_collection p
      ≡ total with_collection ps + with_collection q
  pub st :
      total asleep_transaction (set ps i q) + asleep_transaction p
      ≡ total asleep_transaction ps + asleep_transaction q
  pub sc :
      total asleep_collection (set ps i q) + asleep_collection p
      ≡ total asleep_collection ps + asleep_collection q

moved : (ps : List Phase) (i : ℕ) (p q : Phase) → phase_of ps i ≡ some p → Moved ps i p q
moved ps i p q h = record {
  t = total-set inside_transaction ps i p q h;
  c = total-set inside_collection ps i p q h;
  w = total-set with_collection ps i p q h;
  st = total-set asleep_transaction ps i p q h;
  sc = total-set asleep_collection ps i p q h;
}

-- A thread that has no part in the counters.
pub record Outside (p : Phase) : Type 0 where
  t : inside_transaction p ≡ 0
  c : inside_collection p ≡ 0
  w : with_collection p ≡ 0
  st : asleep_transaction p ≡ 0
  sc : asleep_collection p ≡ 0

pub idle-Outside : Outside idle
idle-Outside = record { t = refl; c = refl; w = refl; st = refl; sc = refl }

pub woken-Outside : Outside woken_transaction
woken-Outside = record { t = refl; c = refl; w = refl; st = refl; sc = refl }

pub await_collections-Invariant :
    (g : Gate) (i : ℕ) (p : Phase)
    → Invariant g
    → phase_of g.threads i ≡ some p
    → Outside p
    → Invariant (await_collections g i)
unfolding await_collections enter
await_collections-Invariant g i p inv h o = elim (lt-cases 0 g.processing_collection) [
  | inl v ↦
      let m = moved g.threads i p sleeping_transaction h in
      rw (lt→ltb 0 g.processing_collection v) (ground arith)
  | inr v ↦
      let m = moved g.threads i p in_transaction h in
      rw (le→ltb 0 g.processing_collection v) (record {
        transactions_counted = omega arith;
        collections_counted = omega arith;
        apart = inl (omega (arith, inside-with_collection g.threads));
        waits_collection = omega arith;
        waits_transaction = omega arith;
      })
]

-- A thread that asks for the collections.
record Asking (g : Gate) (p : Phase) : Type 0 where
  t : inside_transaction p ≡ 0
  c : inside_collection p ≡ 0
  st : asleep_transaction p ≡ 0
  sc : asleep_collection p ≡ 0
  transactions_counted : g.processing_transaction ≡ total inside_transaction g.threads
  collections_counted :
      g.processing_collection + with_collection p ≡ total with_collection g.threads + 1
  apart : (total inside_collection g.threads ≡ 0) ⊎ (g.processing_transaction ≡ 0)
  waits_transaction : (total asleep_collection g.threads ≡ 0) ⊎ (0 < g.processing_transaction)

await_transactions-Invariant :
    (g : Gate) (i : ℕ) (p : Phase)
    → phase_of g.threads i ≡ some p
    → Asking g p
    → with_collection p ≤ 1
    → 0 < g.processing_collection
    → Invariant (await_transactions g i)
unfolding await_transactions enter
await_transactions-Invariant g i p h o le pos = elim (lt-cases 0 g.processing_transaction) [
  | inl v ↦
      let m = moved g.threads i p sleeping_collection h in
      rw (lt→ltb 0 g.processing_transaction v) (ground arith)
  | inr v ↦
      let m = moved g.threads i p in_collection h in
      rw (le→ltb 0 g.processing_transaction v) (ground arith)
]

pub acquire_collection-Invariant :
    (g : Gate) (i : ℕ)
    → Invariant g
    → phase_of g.threads i ≡ some idle
    → Invariant (acquire_collection g i)
unfolding acquire_collection
acquire_collection-Invariant g i inv h =
    await_transactions-Invariant (record g { processing_collection = g.processing_collection + 1 })
      i idle h
      (record {
        t = refl;
        c = refl;
        st = refl;
        sc = refl;
        transactions_counted = inv.transactions_counted;
        collections_counted = omega arith;
        apart = inv.apart;
        waits_transaction = inv.waits_transaction;
      })
      (omega arith) (omega arith)

pub tests_transactions-Invariant :
    (g : Gate) (i : ℕ)
    → Invariant g
    → phase_of g.threads i ≡ some woken_collection
    → Invariant (await_transactions g i)
tests_transactions-Invariant g i inv h =
    let m = moved g.threads i woken_collection idle h in
    await_transactions-Invariant g i woken_collection h
      (record {
        t = refl;
        c = refl;
        st = refl;
        sc = refl;
        transactions_counted = inv.transactions_counted;
        collections_counted = omega arith;
        apart = inv.apart;
        waits_transaction = inv.waits_transaction;
      })
      (omega arith) (omega arith)

-- The totals when everybody wakes up.
record Woken (ps : List Phase) : Type 0 where
  t : total inside_transaction (map wake ps) ≡ total inside_transaction ps
  c : total inside_collection (map wake ps) ≡ total inside_collection ps
  w : total with_collection (map wake ps) ≡ total with_collection ps
  st : total asleep_transaction (map wake ps) ≡ 0
  sc : total asleep_collection (map wake ps) ≡ 0

woken : (ps : List Phase) → Woken ps
woken ps = record {
  t = total-wake inside_transaction ps inside_transaction-wake;
  c = total-wake inside_collection ps inside_collection-wake;
  w = total-wake with_collection ps with_collection-wake;
  st = total-none asleep_transaction ps asleep_transaction-wake;
  sc = total-none asleep_collection ps asleep_collection-wake;
}

pub finish_transaction-Invariant :
    (g : Gate) (i : ℕ)
    → Invariant g
    → phase_of g.threads i ≡ some in_transaction
    → Invariant (finish_transaction g i)
unfolding finish_transaction enter notify_all
finish_transaction-Invariant g i inv h =
    let m = moved g.threads i in_transaction idle h in
    let u = woken (set g.threads i idle) in
    elim (Bool-cases (g.processing_transaction - 1 == 0)) [
      | inl e ↦ rw e (ground arith)
      | inr e ↦ let pos : 0 < g.processing_transaction - 1 = ground arith in rw e (ground arith)
    ]

pub finish_collection-Invariant :
    (g : Gate) (i : ℕ)
    → Invariant g
    → phase_of g.threads i ≡ some in_collection
    → Invariant (finish_collection g i)
unfolding finish_collection enter notify_all
finish_collection-Invariant g i inv h =
    let m = moved g.threads i in_collection idle h in
    let u = woken (set g.threads i idle) in
    elim (Bool-cases (g.processing_collection - 1 == 0)) [
      | inl e ↦ rw e (ground arith)
      | inr e ↦ let pos : 0 < g.processing_collection - 1 = ground arith in rw e (ground arith)
    ]

pub wakes-Invariant :
    (g : Gate) (i : ℕ) (p q : Phase)
    → Invariant g
    → phase_of g.threads i ≡ some p
    → inside_transaction q ≡ inside_transaction p
    → inside_collection q ≡ inside_collection p
    → with_collection q ≡ with_collection p
    → asleep_transaction q ≡ 0
    → asleep_collection q ≡ 0
    → Invariant (enter g i q)
unfolding enter
wakes-Invariant g i p q inv h a b c d e = let m = moved g.threads i p q h in (ground arith)
