-- ===== src/Space/Pool.antt =====
-- SpaceEntryPool of engine/pmem_allocator/free_list.hpp. A level of the pool has, for each block size
-- or size index, a stack of entry lists; the small entries are offsets, the large ones sets of space
-- entries, and both are handled alike. A call holds its spin lock, so it is one step.
pub mod Moves
use kvdk.Prelude.{ℕ, List, [], ◌∷◌, Bool, true, false, update}
use kvdk.DlList.{SpaceEntry}

abbrev pub Level : Type 0 → Type 0
Level A = ℕ → List (List A)

-- The top of the stack is the back of the source's vector.
unfoldable pub move_list : {A : Type 0} → Level A → (src : List A) → ℕ → Level A × List A
move_list p [] b = (p, [])
move_list p (x ∷ xs) b = (update p b ((x ∷ xs) ∷ p b), [])

-- The old content of the destination goes with the list that is popped.
unfoldable pub fetch_from :
    {A : Type 0} → Level A → ℕ → List A → List (List A) → Level A × (List A × Bool)
fetch_from p b dst [] = (p, (dst, false))
fetch_from p b dst (l ∷ ls) = (update p b ls, (l, true))

unfoldable pub try_fetch_list :
    {A : Type 0} → Level A → (dst : List A) → ℕ → Level A × (List A × Bool)
unfolding fetch_from
try_fetch_list p dst b = fetch_from p b dst (p b)

pub record SpaceEntryPool : Type 0 where
  pub small_entry_pool : Level ℕ
  pub large_entry_pool : Level SpaceEntry

unfoldable pub move_entry_list : SpaceEntryPool → List ℕ → ℕ → SpaceEntryPool × List ℕ
unfolding move_list
move_entry_list p src b =
    let (l, s) = move_list p.small_entry_pool src b in (record p { small_entry_pool = l }, s)

unfoldable pub try_fetch_entry_list : SpaceEntryPool → List ℕ → ℕ → SpaceEntryPool × (List ℕ × Bool)
unfolding try_fetch_list
try_fetch_entry_list p dst b =
    let (l, r) = try_fetch_list p.small_entry_pool dst b in (record p { small_entry_pool = l }, r)

unfoldable pub move_large_entry_set :
    SpaceEntryPool → List SpaceEntry → ℕ → SpaceEntryPool × List SpaceEntry
unfolding move_list
move_large_entry_set p src i =
    let (l, s) = move_list p.large_entry_pool src i in (record p { large_entry_pool = l }, s)

unfoldable pub try_fetch_large_entry_set :
    SpaceEntryPool → List SpaceEntry → ℕ → SpaceEntryPool × (List SpaceEntry × Bool)
unfolding try_fetch_list
try_fetch_large_entry_set p dst i =
    let (l, r) = try_fetch_list p.large_entry_pool dst i in (record p { large_entry_pool = l }, r)
