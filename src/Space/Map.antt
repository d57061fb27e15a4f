-- ===== src/Space/Map.antt =====
-- The operations of SpaceMap. Each runs with the spin locks of the cells that it touches held, so
-- it is one step here. The asserts are not checked: what they demand stands in the hypotheses of
-- the theorems. A loop over the cells takes fuel.
pub mod Chain
pub mod Fill
pub mod Take
pub mod Merging
use kvdk.Prelude.{
  ℕ, zero, suc, ◌+◌, ◌-◌, ◌*◌, ◌<◌, min, Bool, true, false, ◌&&◌, ◌||◌, List, [], ◌∷◌, ◌++◌, ltb,
  leb, ◌==◌, if◌then◌else◌, update,
}
use kvdk.Space.Token.{Token, make, size_of, is_empty, is_start, clear, int8_max}

pub record SpaceMap : Type 0 where
  pub size : ℕ
  pub token : ℕ → Token

abbrev pub write : SpaceMap → ℕ → Token → SpaceMap
write m i t = record m { token = update m.token i t }

abbrev pub start_at : SpaceMap → ℕ → Bool
start_at m i = is_start (m.token i)

abbrev pub empty_at : SpaceMap → ℕ → Bool
empty_at m i = is_empty (m.token i)

abbrev pub size_at : SpaceMap → ℕ → ℕ
size_at m i = size_of (m.token i)

-- The loop of testLocked: `size` blocks have been counted so far.
unfoldable pub test_loop : ℕ → SpaceMap → ℕ → ℕ → ℕ
test_loop zero m start size = size
test_loop (suc f) m start size =
    let cur = start + size in
    let rest = test_loop f m start (size + size_at m cur) in
    if ltb cur m.size then (if start_at m cur || empty_at m cur then size else rest) else size

-- testLocked, and Test
unfoldable pub test : SpaceMap → ℕ → ℕ
unfolding test_loop
test m start = if start_at m start then test_loop (suc m.size) m start (size_at m start) else 0

-- what one token can say of `n` blocks
abbrev pub chunk : ℕ → ℕ
chunk n = if ltb int8_max n then int8_max else n

unfoldable pub set_remaining : ℕ → SpaceMap → ℕ → ℕ → SpaceMap
set_remaining zero m cur remaining = m
set_remaining (suc f) m cur remaining =
    let to_set = chunk remaining in
    let rest =
      set_remaining f (write m cur (make false to_set)) (cur + to_set) (remaining - to_set) in
    if ltb 0 remaining then rest else m

unfoldable pub set : SpaceMap → ℕ → ℕ → SpaceMap
unfolding set_remaining
set m offset size =
    if size == 0
    then m
    else (let to_set = chunk size in
        let remaining = size - to_set in
        let first = write m offset (make true to_set) in
        if ltb 0 remaining
        then set_remaining remaining first (offset + to_set) remaining
        else first)

-- The blocks counted and the cells to clear.
pub record Collected : Type 0 where
  pub in_clear : ℕ
  pub to_clear : List ℕ

-- The loop of TestAndClear over the cells that continue an entry.
unfoldable pub collect : ℕ → SpaceMap → (offset size : ℕ) → Collected → Collected
collect zero m offset size c = c
collect (suc f) m offset size c =
    let cur = offset + c.in_clear in
    let rest =
      collect f m offset size
        (record { in_clear = c.in_clear + size_at m cur; to_clear = c.to_clear ++ cur ∷ [] }) in
    if ltb cur m.size && leb c.in_clear size
    then (if empty_at m cur || start_at m cur then c else rest)
    else c

unfoldable pub clear_all : SpaceMap → List ℕ → SpaceMap
clear_all m [] = m
clear_all m (i ∷ is) = clear_all (write m i clear) is

unfoldable pub test_and_clear : SpaceMap → ℕ → ℕ → SpaceMap × Bool
unfolding collect clear_all
test_and_clear m offset size =
    if size == 0
    then (m, true)
    else (let c =
          if start_at m offset
          then collect (suc m.size) m offset size
              (record { in_clear = size_at m offset; to_clear = offset ∷ [] })
          else record { in_clear = 0; to_clear = [] } in
        if c.in_clear == size then (clear_all m c.to_clear, true) else (m, false))

-- kMaxAjacentSpaceSizeInMerge
abbrev pub max_adjacent : ℕ
max_adjacent = 8

-- The locals of TryMerge's loop.
pub record Merge : Type 0 where
  pub map : SpaceMap
  pub merged_size : ℕ
  pub in_merge_offset : ℕ
  pub in_merge_size : ℕ
  pub to_clear : List ℕ

-- An entry that has been walked to its end is taken in.
unfoldable pub commit : Merge → ℕ → Merge
unfolding clear_all
commit g cur =
    if ltb 0 g.in_merge_size
    then record {
      map = clear_all g.map g.to_clear;
      merged_size = g.merged_size + g.in_merge_size;
      in_merge_offset = cur;
      in_merge_size = 0;
      to_clear = [];
    }
    else g

-- One more cell of the entry that is being walked.
unfoldable pub advance : Merge → ℕ → Merge
advance g cur = record g {
  to_clear = g.to_clear ++ cur ∷ [];
  in_merge_size = g.in_merge_size + size_at g.map cur;
}

unfoldable pub merge_loop : ℕ → (end : ℕ) → Merge → Merge
unfolding commit advance
merge_loop zero end g = g
merge_loop (suc f) end g =
    let cur = g.in_merge_offset + g.in_merge_size in
    let g' = if start_at g.map cur || empty_at g.map cur then commit g cur else g in
    let rest = merge_loop f end (advance g' cur) in
    if leb end cur || ltb (g.merged_size * max_adjacent) g.in_merge_size
    then g
    else if empty_at g'.map cur
    then g'
    else rest

unfoldable pub try_merge : SpaceMap → (start_offset start_size limit : ℕ) → SpaceMap × ℕ
unfolding test merge_loop set_remaining
try_merge m start_offset start_size limit =
    if test m start_offset == start_size
    then (let g = merge_loop (suc m.size) (min (start_offset + limit) m.size) (record {
      map = m;
      merged_size = start_size;
      in_merge_offset = start_offset + start_size;
      in_merge_size = 0;
      to_clear = [];
    }) in
        let added = g.merged_size - start_size in
        if ltb start_size g.merged_size
        then (set_remaining added g.map (start_offset + start_size) added, g.merged_size)
        else (g.map, g.merged_size))
    else (m, 0)
