-- ===== src/Freelist.antt =====
-- Freelist of engine/pmem_allocator/free_list.hpp and free_list.cpp: the lists of free entries over
-- the space map and the two pools. A call is one step of its thread. A vector is a list whose head
-- is its back, and an ordered set is a list in its order.
pub mod Pooling
pub mod Merge
pub mod Small
pub mod Get
pub mod Fits
pub mod Push
pub mod Pooled
pub mod Kept
pub mod Calls
pub mod Balance
use kvdk.Prelude.{
  ℕ, zero, suc, ◌+◌, ◌-◌, ◌*◌, ◌/◌, ◌%◌, ◌^◌, min, List, [], ◌∷◌, ◌++◌, length, Bool, true, false,
  ◌&&◌, ◌||◌, ltb, leb, ◌==◌, if◌then◌else◌, update,
}
use kvdk.DlList.{SpaceEntry}
use kvdk.Space.Map.{SpaceMap, test_and_clear, try_merge}
use kvdk.Space.Map as Map
use kvdk.Space.Pool.{
  SpaceEntryPool, move_entry_list, try_fetch_entry_list, move_large_entry_set,
  try_fetch_large_entry_set,
}

-- FlistThreadCache
pub record FlistThreadCache : Type 0 where
  pub small_entry_offsets : ℕ → List ℕ
  pub large_entries : ℕ → List SpaceEntry
  pub num_recently_freed : ℕ

-- What the constructor fixes.
pub record Config : Type 0 where
  pub num_segment_blocks : ℕ
  pub block_size : ℕ
  pub max_small_entry_block_size : ℕ
  pub max_block_size_index : ℕ
  pub num_caches : ℕ

pub record Freelist : Type 0 where
  pub active_pool : SpaceEntryPool
  pub merged_pool : SpaceEntryPool
  pub space_map : SpaceMap
  pub flist_thread_cache : ℕ → FlistThreadCache
  pub last_freed_after_merge : ℕ

-- kBlockSizeIndexInterval
abbrev block_size_index_interval : ℕ
block_size_index_interval = 1024

-- SpaceCmp: the larger entry first, then the lower offset
unfoldable pub comes_first : SpaceEntry → SpaceEntry → Bool
comes_first a b = ltb b.size a.size || (a.size == b.size && ltb a.offset b.offset)

-- insert of the ordered set; an equivalent entry is kept
unfoldable pub insert_entry : SpaceEntry → List SpaceEntry → List SpaceEntry
unfolding comes_first
insert_entry e [] = e ∷ []
insert_entry e (x ∷ xs) =
    if comes_first e x
    then e ∷ (x ∷ xs)
    else if comes_first x e
    then x ∷ insert_entry e xs
    else x ∷ xs

-- the entries of all lists of a size
unfoldable pub concat : {A : Type 0} → List (List A) → List A
concat [] = []
concat (xs ∷ xss) = xs ++ concat xss

-- The first size that gives an entry ends the loop over the sizes.
unfoldable pub or_else :
    (SpaceEntry → Freelist → Freelist × (SpaceEntry × Bool))
    → Freelist × (SpaceEntry × Bool)
    → Freelist × (SpaceEntry × Bool)
or_else next (l, (e, true)) = (l, (e, true))
or_else next (l, (e, false)) = next e l

module _ (c : Config) where
  unfoldable pub block_size_index : ℕ → ℕ
  block_size_index b =
      min
        (if ltb b c.max_small_entry_block_size
          then 0
          else (b - c.max_small_entry_block_size) / block_size_index_interval)
        (c.max_block_size_index - 1)

  abbrev pub slot : ℕ → ℕ
  slot tid = tid % c.num_caches

  abbrev pub cached_small : ℕ → Freelist → ℕ → List ℕ
  cached_small tid l i = (l.flist_thread_cache (slot tid)).small_entry_offsets i

  abbrev pub cached_large : ℕ → Freelist → ℕ → List SpaceEntry
  cached_large tid l i = (l.flist_thread_cache (slot tid)).large_entries i

  abbrev pub set_cache : ℕ → FlistThreadCache → Freelist → Freelist
  set_cache tid t l = record l { flist_thread_cache = update l.flist_thread_cache (slot tid) t }

  abbrev pub set_small : (tid i : ℕ) → List ℕ → Freelist → Freelist
  set_small tid i os l =
      let t = l.flist_thread_cache (slot tid) in
      set_cache tid (record t { small_entry_offsets = update t.small_entry_offsets i os }) l

  abbrev pub set_large : (tid i : ℕ) → List SpaceEntry → Freelist → Freelist
  set_large tid i es l =
      let t = l.flist_thread_cache (slot tid) in
      set_cache tid (record t { large_entries = update t.large_entries i es }) l

  -- the lists that Push adds an entry to
  unfoldable pub push_listed : (tid : ℕ) → SpaceEntry → ℕ → Freelist → Freelist
  unfolding block_size_index insert_entry
  push_listed tid e b l =
      if leb c.max_small_entry_block_size b
      then (let i = block_size_index b in set_large tid i (insert_entry e (cached_large tid l i)) l)
      else set_small tid b (e.offset ∷ cached_small tid l b) l

  unfoldable pub count_freed : (tid : ℕ) → Freelist → Freelist
  count_freed tid l =
      let t = l.flist_thread_cache (slot tid) in
      set_cache tid (record t { num_recently_freed = (t.num_recently_freed + 1) % 2 ^ 64 }) l

  unfoldable pub push : (tid : ℕ) → SpaceEntry → Freelist → Freelist
  unfolding push_listed count_freed
  push tid e l =
      let b = e.size / c.block_size in
      let m = Map.set l.space_map (e.offset / c.block_size) b in
      count_freed tid (push_listed tid e b (record l { space_map = m }))

  -- A list that is empty is filled from the pools. Without any list the size is passed over.
  unfoldable pub fill_small : (tid i : ℕ) → List ℕ → Freelist → Freelist × Bool
  fill_small tid i (o ∷ os) l = (l, true)
  fill_small tid i [] l =
      let (p, (dst, found)) = try_fetch_entry_list l.active_pool [] i in
      let (q, (dst', found')) = try_fetch_entry_list l.merged_pool [] i in
      if found
      then (set_small tid i dst (record l { active_pool = p }), true)
      else if found'
      then (set_small tid i dst' (record l { merged_pool = q }), true)
      else (l, false)

  -- The back of the list is taken off. It is the result if the space map still has it; otherwise
  -- the search goes on, and the result parameter keeps the offset.
  unfoldable pub pop_small :
      (SpaceEntry → Freelist → Freelist × (SpaceEntry × Bool))
      → (tid i : ℕ) → SpaceEntry
      → List ℕ
      → Freelist
      → Freelist × (SpaceEntry × Bool)
  pop_small search_entry tid i e [] l = (l, (e, false))
  pop_small search_entry tid i e (o ∷ os) l =
      let (m, cleared) = test_and_clear l.space_map (o / c.block_size) i in
      let l' = record (set_small tid i os l) { space_map = m } in
      if cleared
      then (l', (record { offset = o; size = i * c.block_size }, true))
      else search_entry (record e { offset = o }) l'

  -- From the label search_entry on, for the block size `i`.
  unfoldable pub search_small :
      ℕ → (tid i : ℕ) → SpaceEntry → Freelist → Freelist × (SpaceEntry × Bool)
  unfolding fill_small pop_small
  search_small zero tid i e l = (l, (e, false))
  search_small (suc f) tid i e l =
      let (l', listed) = fill_small tid i (cached_small tid l i) l in
      if listed
      then pop_small (search_small f tid i) tid i e (cached_small tid l' i) l'
      else (l', (e, false))

  -- The offsets that a search for the block size `i` can come to.
  unfoldable pub stock : (tid i : ℕ) → Freelist → List ℕ
  unfolding concat
  stock tid i l =
      cached_small tid l i
      ++ (concat (l.active_pool.small_entry_pool i) ++ concat (l.merged_pool.small_entry_pool i))

  -- Each round takes an offset off, and the last finds nothing.
  unfoldable pub scan_small :
      ℕ → (tid i : ℕ) → SpaceEntry → Freelist → Freelist × (SpaceEntry × Bool)
  unfolding or_else search_small stock
  scan_small zero tid i e l = (l, (e, false))
  scan_small (suc n) tid i e l =
      or_else (scan_small n tid (i + 1)) (search_small (suc (length (stock tid i l))) tid i e l)

  unfoldable pub get_small_entry :
      (tid size : ℕ) → SpaceEntry → Freelist → Freelist × (SpaceEntry × Bool)
  unfolding scan_small
  get_small_entry tid size e l =
      let b = size / c.block_size in scan_small (c.max_small_entry_block_size - b) tid b e l

  -- The entries from the front on, as long as they are large enough. Each is taken off.
  unfoldable pub sweep :
      (size : ℕ)
      → List SpaceEntry
      → SpaceMap
      → SpaceEntry
      → List SpaceEntry × (SpaceMap × (SpaceEntry × Bool))
  sweep size [] m r = ([], (m, (r, false)))
  sweep size (e ∷ es) m r =
      let (m', cleared) = test_and_clear m (e.offset / c.block_size) (e.size / c.block_size) in
      let rest = sweep size es m' r in
      if ltb e.size size
      then (e ∷ es, (m, (r, false)))
      else if cleared
      then (es, (m', (e, true)))
      else rest

  unfoldable pub fill_large : (tid i : ℕ) → List SpaceEntry → Freelist → Freelist × Bool
  fill_large tid i (e ∷ es) l = (l, true)
  fill_large tid i [] l =
      let (p, (dst, found)) = try_fetch_large_entry_set l.active_pool [] i in
      let (q, (dst', found')) = try_fetch_large_entry_set l.merged_pool [] i in
      if found
      then (set_large tid i dst (record l { active_pool = p }), true)
      else if found'
      then (set_large tid i dst' (record l { merged_pool = q }), true)
      else (l, false)

  unfoldable pub search_large :
      (tid size i : ℕ) → SpaceEntry → Freelist → Freelist × (SpaceEntry × Bool)
  unfolding fill_large sweep
  search_large tid size i e l =
      let (l', listed) = fill_large tid i (cached_large tid l i) l in
      if listed
      then (let (es, (m, r)) = sweep size (cached_large tid l' i) l'.space_map e in
          (record (set_large tid i es l') { space_map = m }, r))
      else (l', (e, false))

  unfoldable pub scan_large :
      ℕ → (tid size i : ℕ) → SpaceEntry → Freelist → Freelist × (SpaceEntry × Bool)
  unfolding or_else search_large
  scan_large zero tid size i e l = (l, (e, false))
  scan_large (suc n) tid size i e l =
      or_else (scan_large n tid size (i + 1)) (search_large tid size i e l)

  unfoldable pub get_large_entry :
      (tid size : ℕ) → SpaceEntry → Freelist → Freelist × (SpaceEntry × Bool)
  unfolding scan_large block_size_index
  get_large_entry tid size e l =
      let i = block_size_index (size / c.block_size) in
      scan_large (c.max_block_size_index - i) tid size i e l

  unfoldable pub get : (tid size : ℕ) → SpaceEntry → Freelist → Freelist × (SpaceEntry × Bool)
  unfolding or_else get_small_entry get_large_entry
  get tid size e l = or_else (get_large_entry tid size) (get_small_entry tid size e l)
