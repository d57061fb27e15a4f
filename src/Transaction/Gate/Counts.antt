-- ===== src/Transaction/Gate/Counts.antt =====
-- The numbers of threads in the phases, under the steps of the gate.
use kvdk.Prelude.{
  inr, inl, ◌⊎◌, ◌+◌, ◌≤◌, ◌<◌, ℕ, zero, suc, ◌≡◌, refl, some, List, [], ◌∷◌, map, set, arith,
}
use kvdk.Transaction.Gate.{
  Phase, idle, sleeping_transaction, in_transaction, sleeping_collection, woken_collection,
  in_collection, phase_of, wake, idle_threads,
}

abbrev pub inside_transaction : Phase → ℕ
inside_transaction p = elim p [ in_transaction ↦ 1 | _ ↦ 0 ]

abbrev pub inside_collection : Phase → ℕ
inside_collection p = elim p [ in_collection ↦ 1 | _ ↦ 0 ]

-- From the call of AcquireCollection to the end of FinishCollection.
abbrev pub with_collection : Phase → ℕ
with_collection p = elim p [
  | in_collection ↦ 1
  | sleeping_collection ↦ 1
  | woken_collection ↦ 1
  | _ ↦ 0
]

abbrev pub asleep_transaction : Phase → ℕ
asleep_transaction p = elim p [ sleeping_transaction ↦ 1 | _ ↦ 0 ]

abbrev pub asleep_collection : Phase → ℕ
asleep_collection p = elim p [ sleeping_collection ↦ 1 | _ ↦ 0 ]

abbrev pub total : (Phase → ℕ) → List Phase → ℕ
total f [] = 0
total f (p ∷ ps) = f p + total f ps

pub total-set :
    (f : Phase → ℕ) (ps : List Phase) (i : ℕ) (p q : Phase)
    → phase_of ps i ≡ some p
    → total f (set ps i q) + f p ≡ total f ps + f q
unfolding phase_of
total-set f [] i p q h = absurd (ground arith)
total-set f (x ∷ ps) zero p q h = let e : x ≡ p = ground arith in rw e (omega arith)
total-set f (x ∷ ps) (suc i) p q h = omega (arith, total-set f ps i p q h)

pub total-wake :
    (f : Phase → ℕ) (ps : List Phase)
    → ((p : Phase) → f (wake p) ≡ f p)
    → total f (map wake ps) ≡ total f ps
total-wake f [] h = refl
total-wake f (p ∷ ps) h = omega (arith, h p, total-wake f ps h)

pub total-none :
    (f : Phase → ℕ) (ps : List Phase) → ((p : Phase) → f (wake p) ≡ 0) → total f (map wake ps) ≡ 0
total-none f [] h = refl
total-none f (p ∷ ps) h = omega (arith, h p, total-none f ps h)

pub total-idle : (f : Phase → ℕ) (n : ℕ) → f idle ≡ 0 → total f (idle_threads n) ≡ 0
total-idle f zero h = refl
total-idle f (suc n) h = omega (arith, total-idle f n h)

either_positive : (a b : ℕ) → 0 < a + b → (0 < a) ⊎ (0 < b)
either_positive a b h = omega arith

pub total-found :
    (f : Phase → ℕ) (ps : List Phase)
    → 0 < total f ps
    → (i : ℕ) × (p : Phase) × (phase_of ps i ≡ some p) × (0 < f p)
unfolding phase_of
total-found f [] h = absurd (omega arith)
total-found f (p ∷ ps) h = elim (either_positive (f p) (total f ps) h) [
  | inl e ↦ (0, p, refl, e)
  | inr e ↦ let (i, q, a, b) = total-found f ps e in (suc i, q, a, b)
]

inside-le-with : (p : Phase) → inside_collection p ≤ with_collection p
inside-le-with p = ground arith

pub inside-with_collection :
    (ps : List Phase) → total inside_collection ps ≤ total with_collection ps
inside-with_collection [] = omega arith
inside-with_collection (p ∷ ps) = omega (arith, inside-le-with p, inside-with_collection ps)

-- Waking leaves a thread on its side of the gate, and nobody asleep.
pub inside_transaction-wake : (p : Phase) → inside_transaction (wake p) ≡ inside_transaction p
unfolding wake
inside_transaction-wake p = ground arith

pub inside_collection-wake : (p : Phase) → inside_collection (wake p) ≡ inside_collection p
unfolding wake
inside_collection-wake p = ground arith

pub with_collection-wake : (p : Phase) → with_collection (wake p) ≡ with_collection p
unfolding wake
with_collection-wake p = ground arith

pub asleep_transaction-wake : (p : Phase) → asleep_transaction (wake p) ≡ 0
unfolding wake
asleep_transaction-wake p = ground arith

pub asleep_collection-wake : (p : Phase) → asleep_collection (wake p) ≡ 0
unfolding wake
asleep_collection-wake p = ground arith
