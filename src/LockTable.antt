-- ===== src/LockTable.antt =====
-- engine/lock_table.hpp: a table of spin locks that are taken in the order of their index. A call
-- that would spin gives `none`.
pub mod Order
use kvdk.Prelude.{
  ℕ, ◌%◌, Bool, true, false, List, [], ◌∷◌, map, Option, none, some, ltb, ◌==◌, if◌then◌else◌,
  update,
}

-- std::sort
unfoldable pub insert : ℕ → List ℕ → List ℕ
insert a [] = a ∷ []
insert a (x ∷ xs) = let rest = insert a xs in if ltb x a then x ∷ rest else a ∷ x ∷ xs

unfoldable pub sort : List ℕ → List ℕ
unfolding insert
sort [] = []
sort (x ∷ xs) = insert x (sort xs)

-- std::unique drops what equals the element before it.
unfoldable pub unique_behind : ℕ → List ℕ → List ℕ
unique_behind a [] = []
unique_behind a (x ∷ xs) =
    let skipped = unique_behind a xs in
    let kept = unique_behind x xs in if a == x then skipped else x ∷ kept

unfoldable pub unique : List ℕ → List ℕ
unfolding unique_behind
unique [] = []
unique (x ∷ xs) = x ∷ unique_behind x xs

-- Of a table of `n` locks.
unfoldable pub rearrange : (n : ℕ) → List ℕ → List ℕ
unfolding sort unique
rearrange n hashes = unique (sort (map (λ h. h % n) hashes))

-- Whether each lock is held.
abbrev pub Locks : Type 0
Locks = ℕ → Bool

unfoldable pub lock_at : Locks → ℕ → Option Locks
lock_at l i = if l i then none else some (update l i true)

unfoldable pub lock : (n : ℕ) → Locks → (hash : ℕ) → Option Locks
unfolding lock_at
lock n l hash = lock_at l (hash % n)

unfoldable pub unlock : (n : ℕ) → Locks → (hash : ℕ) → Locks
unlock n l hash = update l (hash % n) false

-- The loops of MultiLock and MultiUnlock over the rearranged hashes.
unfoldable pub lock_all : (n : ℕ) → Locks → List ℕ → Option Locks
unfolding lock
lock_all n l [] = some l
lock_all n l (h ∷ hs) = elim (lock n l h) [ none ↦ none | some l' ↦ lock_all n l' hs ]

unfoldable pub unlock_all : (n : ℕ) → Locks → List ℕ → Locks
unfolding unlock
unlock_all n l [] = l
unlock_all n l (h ∷ hs) = unlock_all n (unlock n l h) hs

unfoldable pub multi_lock : (n : ℕ) → Locks → List ℕ → Option Locks
unfolding lock_all rearrange
multi_lock n l hashes = lock_all n l (rearrange n hashes)

unfoldable pub multi_unlock : (n : ℕ) → Locks → List ℕ → Locks
unfolding unlock_all rearrange
multi_unlock n l hashes = unlock_all n l (rearrange n hashes)
