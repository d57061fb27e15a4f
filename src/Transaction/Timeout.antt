-- ===== src/Transaction/Timeout.antt =====
-- The loop in which a transaction waits for a lock.
use kvdk.Prelude.{
  ℕ, zero, suc, ◌+◌, ◌≤◌, ◌≡◌, refl, subst, ◌⊎◌, inl, inr, Option, some, Bool, true, false,
  Bool-cases, arith,
}
use kvdk.Transaction.{LockTimeout, timed_out, try_lock_impl}

-- The loop got the lock at a try, or gave up at one that failed when the time was up.
abbrev pub Tried : LockTimeout → (ℕ → Bool) → (ℕ → ℕ) → ℕ → ℕ → Option Bool → Type 0
Tried t try_lock elapsed first last r =
    (n : ℕ) × (first ≤ n)
    × (n ≤ last)
    × (((r ≡ some true) × (try_lock n ≡ true))
        ⊎ ((r ≡ some false) × (try_lock n ≡ false) × (timed_out t (elapsed n) ≡ true)))

tries-Tried :
    (f : ℕ) (t : LockTimeout) (try_lock : ℕ → Bool) (elapsed : ℕ → ℕ) (n last : ℕ)
    → n + f ≡ last
    → timed_out t (elapsed last) ≡ true
    → Tried t try_lock elapsed n last (try_lock_impl (suc f) t try_lock elapsed n)
unfolding try_lock_impl
tries-Tried zero t try_lock elapsed n last e up =
    let here : last ≡ n = omega arith in
    let over = subst (λ (m : ℕ). timed_out t (elapsed m) ≡ true) here up in
    elim (Bool-cases (try_lock n)) [
      | inl got ↦ rw got (n, omega arith, omega arith, inl (refl, got))
      | inr missed ↦ rw (missed, over) (n, omega arith, omega arith, inr (refl, missed, over))
    ]
tries-Tried (suc f) t try_lock elapsed n last e up =
    let (m, a, b, c) = tries-Tried f t try_lock elapsed (n + 1) last (omega arith) up in
    elim (Bool-cases (try_lock n)) [
      | inl got ↦ rw got (n, omega arith, omega arith, inl (refl, got))
      | inr missed ↦ elim (Bool-cases (timed_out t (elapsed n))) [
        | inl over ↦ rw (missed, over) (n, omega arith, omega arith, inr (refl, missed, over))
        | inr time ↦ rw (missed, time) (m, omega arith, b, c)
      ]
    ]

-- If the time is up at some try, the loop has ended by then: it got the lock at a try, or it gave
-- up at a try that failed when the time was up.
pub try_lock_impl-Tried :
    (t : LockTimeout) (try_lock : ℕ → Bool) (elapsed : ℕ → ℕ) (last : ℕ)
    → timed_out t (elapsed last) ≡ true
    → Tried t try_lock elapsed 0 last (try_lock_impl (suc last) t try_lock elapsed 0)
try_lock_impl-Tried t try_lock elapsed last up =
    tries-Tried last t try_lock elapsed 0 last (omega arith) up
