-- ===== src/LockTable/Order.antt =====
-- The order of the locks, and that a call does not wait for itself.
use kvdk.Prelude.{
  Bool-cases, sym, subst, le→ltb, eq→==, lt→ltb, ne→==, ◌+◌, lt-cases, ℕ, ◌%◌, ◌<◌, ◌≤◌, ◌≡◌, refl,
  ◌∙◌, Bool, true, false, ◌||◌, List, [], ◌∷◌, map, Option, some, arith, has, inl, inr, update,
  if◌then◌else◌,
}
use native.Mathlib.Nat.{mod-lt, mod-eq_of_lt}
use kvdk.LockTable.{
  lock_at, insert, sort, unique_behind, unique, rearrange, Locks, lock, unlock, lock_all,
  unlock_all, multi_lock, multi_unlock,
}

-- Each is below the next one.
abbrev pub Ascending : ℕ → List ℕ → Type 0
Ascending a [] = Unit {0}
Ascending a (x ∷ xs) = (a ≤ x) × Ascending (x + 1) xs

abbrev Sorted : ℕ → List ℕ → Type 0
Sorted a [] = Unit {0}
Sorted a (x ∷ xs) = (a ≤ x) × Sorted x xs

insert-Sorted : (b a : ℕ) (xs : List ℕ) → b ≤ a → Sorted b xs → Sorted b (insert a xs)
unfolding insert
insert-Sorted b a [] le s = (le, tt)
insert-Sorted b a (x ∷ xs) le s = elim (lt-cases x a) [
  | inl lt ↦ rw (lt→ltb x a lt) (s.0, insert-Sorted x a xs (omega arith) s.1)
  | inr ge ↦ rw (le→ltb x a ge) (le, (ge, s.1))
]

sort-Sorted : (xs : List ℕ) → Sorted 0 (sort xs)
unfolding sort
sort-Sorted [] = tt
sort-Sorted (x ∷ xs) = insert-Sorted 0 x (sort xs) (omega arith) (sort-Sorted xs)

unique_behind-Ascending :
    (a : ℕ) (xs : List ℕ) → Sorted a xs → Ascending (a + 1) (unique_behind a xs)
unfolding unique_behind
unique_behind-Ascending a [] s = tt
unique_behind-Ascending a (x ∷ xs) s = elim (lt-cases a x) [
  | inl lt ↦ rw (ne→== a x (omega arith)) (omega arith, unique_behind-Ascending x xs s.1)
  | inr ge ↦
      let e : a ≡ x = omega arith in
      rw (eq→== a x e) (unique_behind-Ascending a xs (subst (λ y. Sorted y xs) (sym e) s.1))
]

unique-Ascending : (xs : List ℕ) → Sorted 0 xs → Ascending 0 (unique xs)
unfolding unique
unique-Ascending [] s = tt
unique-Ascending (x ∷ xs) s = (s.0, unique_behind-Ascending x xs s.1)

has-insert : (j a : ℕ) (xs : List ℕ) → has j (insert a xs) ≡ has j (a ∷ xs)
unfolding insert
has-insert j a [] = refl
has-insert j a (x ∷ xs) = ground (arith, has-insert j a xs)

has-sort : (j : ℕ) (xs : List ℕ) → has j (sort xs) ≡ has j xs
unfolding sort
has-sort j [] = refl
has-sort j (x ∷ xs) = ground (arith, has-insert j x (sort xs), has-sort j xs)

has-unique_behind : (j a : ℕ) (xs : List ℕ) → has j (a ∷ unique_behind a xs) ≡ has j (a ∷ xs)
unfolding unique_behind
has-unique_behind j a [] = refl
has-unique_behind j a (x ∷ xs) = ground (arith, has-unique_behind j a xs, has-unique_behind j x xs)

has-unique : (j : ℕ) (xs : List ℕ) → has j (unique xs) ≡ has j xs
unfolding unique
has-unique j [] = refl
has-unique j (x ∷ xs) = has-unique_behind j x xs

-- The locks that a call takes are those of its hashes, each once, in ascending order.
pub rearrange-Ascending :
    (n : ℕ) (hashes : List ℕ)
    → Ascending 0 (rearrange n hashes)
      × ((j : ℕ) → has j (rearrange n hashes) ≡ has j (map (λ h. h % n) hashes))
unfolding rearrange
rearrange-Ascending n hashes =
    let hs = map (λ h. h % n) hashes in
    (unique-Ascending (sort hs) (sort-Sorted hs), λ j. has-unique j (sort hs) ∙ has-sort j hs)

le-Ascending : (a j : ℕ) (xs : List ℕ) → Ascending a xs → has j xs ≡ true → a ≤ j
le-Ascending a j [] asc e = ground arith
le-Ascending a j (x ∷ xs) asc e = elim (Bool-cases (has j xs)) [
  | inl there ↦ ground (arith, le-Ascending (x + 1) j xs asc.1 there)
  | inr not_there ↦ ground arith
]

has-below : (n j : ℕ) (hs : List ℕ) → 0 < n → has j (map (λ h. h % n) hs) ≡ true → j < n
has-below n j [] pos e = ground arith
has-below n j (h ∷ hs) pos e = elim (Bool-cases (has j (map (λ h. h % n) hs))) [
  | inl there ↦ has-below n j hs pos there
  | inr not_there ↦ ground (arith, mod-lt h pos)
]

lock_free : (n : ℕ) (l : Locks) (i : ℕ) → i < n → l i ≡ false → lock n l i ≡ some (update l i true)
unfolding lock lock_at
lock_free n l i lt free = rw (mod-eq_of_lt lt, free) refl

-- What is held after the locks `xs` have been taken.
abbrev Held : Locks → List ℕ → Option Locks → Type 0
Held l xs o = (g : Locks) × ((o ≡ some g) × ((j : ℕ) → g j ≡ (has j xs || l j)))

lock_all_step :
    (n : ℕ) (l l' : Locks) (x : ℕ) (xs : List ℕ)
    → lock n l x ≡ some l'
    → lock_all n l (x ∷ xs) ≡ lock_all n l' xs
unfolding lock_all lock
lock_all_step n l l' x xs e = rw (lock_all, e) refl

lock_all-Held :
    (n a : ℕ) (l : Locks) (xs : List ℕ)
    → Ascending a xs
    → ((j : ℕ) → has j xs ≡ true → (j < n) × (l j ≡ false))
    → Held l xs (lock_all n l xs)
unfolding lock_all
lock_all-Held n a l [] asc free = (l, (refl, λ j. refl))
lock_all-Held n a l (x ∷ xs) asc free =
    let here = free x (ground arith) in
    let (g, (e, held)) = lock_all-Held n (x + 1) (update l x true) xs asc.1 (λ j there. (
      (free j (ground arith)).0,
      ground (arith, (free j (ground arith)).1, le-Ascending (x + 1) j xs asc.1 there),
    )) in
    (
      g,
      (
        lock_all_step n l (update l x true) x xs (lock_free n l x here.0 here.1) ∙ e,
        λ j. ground (arith, held j),
      ),
    )

unlock_all_lem :
    (n : ℕ) (l : Locks) (xs : List ℕ) (j : ℕ)
    → ((i : ℕ) → has i xs ≡ true → i < n)
    → unlock_all n l xs j ≡ (if has j xs then false else l j)
unfolding unlock_all unlock
unlock_all_lem n l [] j small = refl
unlock_all_lem n l (x ∷ xs) j small =
    rw (mod-eq_of_lt (small x (ground arith)))
      (ground (arith, unlock_all_lem n (update l x false) xs j (λ i there. small i (ground arith))))

given_back :
    (l g : Locks) (j : ℕ) (taken : Bool)
    → g j ≡ (taken || l j)
    → (taken ≡ true → l j ≡ false)
    → (if taken then false else g j) ≡ l j
given_back l g j true e free = sym (free refl)
given_back l g j false e free = e

-- MultiLock, on a table with the locks of the hashes free, does not wait, not even where two hashes
-- share a lock, and takes just these locks; MultiUnlock of the same hashes gives them back.
pub multi_unlock-multi_lock :
    (n : ℕ) (l : Locks) (hashes : List ℕ)
    → 0 < n
    → ((j : ℕ) → has j (map (λ h. h % n) hashes) ≡ true → l j ≡ false)
    → (g : Locks) × (multi_lock n l hashes ≡ some g)
      × ((j : ℕ) → g j ≡ (has j (map (λ h. h % n) hashes) || l j))
      × ((j : ℕ) → multi_unlock n g hashes j ≡ l j)
unfolding multi_lock multi_unlock
multi_unlock-multi_lock n l hashes pos free =
    let (asc, same) = rearrange-Ascending n hashes in
    let small : (j : ℕ) → has j (rearrange n hashes) ≡ true → j < n =
      λ j there. has-below n j hashes pos (sym (same j) ∙ there) in
    let (g, (e, held)) =
      lock_all-Held n 0 l (rearrange n hashes) asc
        (λ j there. (small j there, free j (sym (same j) ∙ there))) in
    (
      g,
      e,
      (λ j. rw (held j, same j) refl),
      λ j.
          unlock_all_lem n g (rearrange n hashes) j small
          ∙ given_back l g j _ (held j) (λ there. free j (sym (same j) ∙ there)),
    )
