-- ===== src/Space/Pool/Moves.antt =====
-- A list that is moved to the pool and fetched again.
use kvdk.Prelude.{ap, ℕ, ◌≡◌, refl, List, [], ◌∷◌, true, arith, update}
use kvdk.Space.Pool.{
  Level, move_list, fetch_from, try_fetch_list, SpaceEntryPool, move_entry_list,
  try_fetch_entry_list,
}

fetch-update :
    {A : Type 0} (p : Level A) (b : ℕ) (dst l : List A) (ls : List (List A))
    → try_fetch_list (update p b (l ∷ ls)) dst b ≡ (update (update p b (l ∷ ls)) b ls, (l, true))
unfolding try_fetch_list fetch_from
fetch-update p b dst l ls = ground arith

-- What is moved to the pool is what the next fetch of its size gives; the lists of the pool are then
-- as before, and the source is empty.
moved :
    {A : Type 0} (p : Level A) (x : A) (xs dst : List A) (b : ℕ)
    → ((move_list p (x ∷ xs) b).1 ≡ [])
      × ((try_fetch_list (move_list p (x ∷ xs) b).0 dst b).1 ≡ (x ∷ xs, true))
      × ((j : ℕ) → (try_fetch_list (move_list p (x ∷ xs) b).0 dst b).0 j ≡ p j)
unfolding move_list
moved p x xs dst b = (
  refl,
  ap (λ r. r.1) (fetch-update p b dst (x ∷ xs) (p b)),
  λ j. rw (fetch-update p b dst (x ∷ xs) (p b)) (ground arith),
)

-- A list of small entries that is moved to the pool is what the next fetch of its block size gives,
-- whatever the destination held. The small entries of the pool are then as before the move, and the
-- list that was moved from is empty.
pub try_fetch_entry_list-move_entry_list :
    (p : SpaceEntryPool) (x : ℕ) (xs dst : List ℕ) (b : ℕ)
    → ((move_entry_list p (x ∷ xs) b).1 ≡ [])
      × ((try_fetch_entry_list (move_entry_list p (x ∷ xs) b).0 dst b).1 ≡ (x ∷ xs, true))
      × ((j : ℕ)
          → (try_fetch_entry_list (move_entry_list p (x ∷ xs) b).0 dst b).0.small_entry_pool j
            ≡ p.small_entry_pool j)
unfolding move_entry_list try_fetch_entry_list
try_fetch_entry_list-move_entry_list p x xs dst b = moved p.small_entry_pool x xs dst b
