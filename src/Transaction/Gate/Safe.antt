-- ===== src/Transaction/Gate/Safe.antt =====
-- What the gate is for: a transaction is never inside together with a thread that creates or
-- destroys a collection, and nobody sleeps for good.
use kvdk.Prelude.{
  ◌≢◌, ◌+◌, ◌≤◌, ◌<◌, ℕ, zero, suc, ◌≡◌, ◌⊎◌, inl, inr, refl, sym, some, List, [], ◌∷◌, arith,
}
use kvdk.Transaction.Gate.{
  Gate, Phase, idle, sleeping_transaction, woken_transaction, in_transaction, sleeping_collection,
  woken_collection, in_collection, phase_of, Step, Reachable, fresh, then_step, acquire_transaction,
  acquires_transaction, tests_collections, finishes_transaction, acquires_collection,
  tests_transactions, finishes_collection, wakes_transaction, wakes_collection,
}
use kvdk.Transaction.Gate.Counts.{
  inside_transaction, inside_collection, with_collection, asleep_transaction, asleep_collection,
  total, total-idle, total-found,
}
use kvdk.Transaction.Gate.Reach.{
  Invariant, idle-Outside, woken-Outside, await_collections-Invariant, acquire_collection-Invariant,
  tests_transactions-Invariant, finish_transaction-Invariant, finish_collection-Invariant,
  wakes-Invariant,
}

Step-Invariant : (g h : Gate) → Invariant g → Step g h → Invariant h
unfolding acquire_transaction
Step-Invariant g h inv (acquires_transaction i e) =
    await_collections-Invariant g i idle inv e idle-Outside
Step-Invariant g h inv (tests_collections i e) =
    await_collections-Invariant g i woken_transaction inv e woken-Outside
Step-Invariant g h inv (finishes_transaction i e) = finish_transaction-Invariant g i inv e
Step-Invariant g h inv (acquires_collection i e) = acquire_collection-Invariant g i inv e
Step-Invariant g h inv (tests_transactions i e) = tests_transactions-Invariant g i inv e
Step-Invariant g h inv (finishes_collection i e) = finish_collection-Invariant g i inv e
Step-Invariant g h inv (wakes_transaction i e) =
    wakes-Invariant g i sleeping_transaction woken_transaction inv e refl refl refl refl refl
Step-Invariant g h inv (wakes_collection i e) =
    wakes-Invariant g i sleeping_collection woken_collection inv e refl refl refl refl refl

reach-Invariant : (g : Gate) → Reachable g → Invariant g
reach-Invariant g (fresh n) =
    let a = total-idle inside_transaction n refl in
    let b = total-idle inside_collection n refl in
    let c = total-idle with_collection n refl in
    let d = total-idle asleep_transaction n refl in
    let e = total-idle asleep_collection n refl in ground arith
reach-Invariant h (then_step g h' r s) = Step-Invariant g h (reach-Invariant g r) s

total-at :
    (f : Phase → ℕ) (ps : List Phase) (i : ℕ) (p : Phase)
    → phase_of ps i ≡ some p
    → f p ≤ total f ps
unfolding phase_of
total-at f [] i p h = absurd (ground arith)
total-at f (x ∷ ps) zero p h = let e : x ≡ p = ground arith in rw (sym e) (omega arith)
total-at f (x ∷ ps) (suc i) p h = omega (arith, total-at f ps i p h)

-- Of a gate that can come about: while a thread is behind AcquireTransaction, none is behind
-- AcquireCollection.
pub Reachable-apart :
    (g : Gate) (i j : ℕ)
    → Reachable g
    → phase_of g.threads i ≡ some in_transaction
    → ¬ (phase_of g.threads j ≡ some in_collection)
Reachable-apart g i j r a b =
    let inv = reach-Invariant g r in
    let u = total-at inside_transaction g.threads i in_transaction a in
    let v = total-at inside_collection g.threads j in_collection b in ground arith

-- A thread between its call and the end of its work that is not asleep.
abbrev pub awake : Phase → ℕ
awake p = elim p [ idle ↦ 0 | sleeping_transaction ↦ 0 | sleeping_collection ↦ 0 | _ ↦ 1 ]

abbrev pub busy : Phase → ℕ
busy p = elim p [ idle ↦ 0 | _ ↦ 1 ]

busy-split :
    (ps : List Phase)
    → total busy ps ≡ total awake ps + total asleep_transaction ps + total asleep_collection ps
busy-split [] = omega arith
busy-split (p ∷ ps) = ground (arith, busy-split ps)

awake-split :
    (ps : List Phase)
    → total inside_transaction ps + total with_collection ps
      ≤ total awake ps + total asleep_collection ps
awake-split [] = omega arith
awake-split (p ∷ ps) = ground (arith, awake-split ps)

asleep-with : (ps : List Phase) → total asleep_collection ps ≤ total with_collection ps
asleep-with [] = omega arith
asleep-with (p ∷ ps) = ground (arith, asleep-with ps)

some_awake : (g : Gate) → Invariant g → (total busy g.threads ≡ 0) ⊎ (0 < total awake g.threads)
some_awake g inv =
    let a = busy-split g.threads in
    let b = awake-split g.threads in let c = asleep-with g.threads in omega arith

-- Of a gate that can come about: all threads are outside, or one that is not outside is not asleep
-- either. So the threads cannot all be waiting for each other.
pub Reachable-awake :
    (g : Gate)
    → Reachable g
    → (total busy g.threads ≡ 0)
      ⊎ ((i : ℕ) × (p : Phase) × (phase_of g.threads i ≡ some p) × (0 < awake p))
Reachable-awake g r = elim (some_awake g (reach-Invariant g r)) [
  | inl e ↦ inl e
  | inr e ↦ inr (total-found awake g.threads e)
]

-- Of a gate that can come about: whoever sleeps in AcquireTransaction has a collection to wait
-- for, and whoever sleeps in AcquireCollection a transaction, so that no wake-up is lost.
pub Reachable-no_lost :
    (g : Gate) (i : ℕ)
    → Reachable g
    → ((phase_of g.threads i ≢ some sleeping_transaction) ⊎ (0 < g.processing_collection))
      × ((phase_of g.threads i ≢ some sleeping_collection) ⊎ (0 < g.processing_transaction))
Reachable-no_lost g i r =
    let inv = reach-Invariant g r in
    (
      elim inv.waits_collection [
        | inl z ↦ inl (λ (e : phase_of g.threads i ≡ some sleeping_transaction).
            let u = total-at asleep_transaction g.threads i sleeping_transaction e in omega arith)
        | inr v ↦ inr v
      ],
      elim inv.waits_transaction [
        | inl z ↦ inl (λ (e : phase_of g.threads i ≡ some sleeping_collection).
            let u = total-at asleep_collection g.threads i sleeping_collection e in omega arith)
        | inr v ↦ inr v
      ],
    )
