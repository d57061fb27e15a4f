-- ===== src/Freelist/Pooling.antt =====
-- BatchPush and the background calls: MoveCachedEntriesToPool, MergeSpaceInPool, OrganizeFreeSpace.
use kvdk.Prelude.{
  ℕ, zero, suc, ◌+◌, ◌-◌, ◌*◌, ◌/◌, ◌%◌, ◌^◌, List, [], ◌∷◌, length, Bool, ltb, leb, ◌==◌,
  if◌then◌else◌, update,
}
use kvdk.DlList.{SpaceEntry}
use kvdk.Space.Map
use kvdk.Space.Map.{try_merge}
use kvdk.Space.Pool.{SpaceEntryPool, move_entry_list, move_large_entry_set}
use kvdk.Freelist.{Config, Freelist, FlistThreadCache, block_size_index, insert_entry}

-- kMinMovableEntries and kMergeThreshold
abbrev pub min_movable_entries : ℕ
min_movable_entries = 1024

abbrev pub merge_threshold : ℕ
merge_threshold = 1024 * 1024

-- Entries on their way to a pool, by size and by size index.
pub record Moving : Type 0 where
  pub small : ℕ → List ℕ
  pub large : ℕ → List SpaceEntry

abbrev pub nothing_moving : Moving
nothing_moving = record { small = λ i. []; large = λ i. [] }

-- The two kinds of entries are added to what is moving, which goes to the pool when it is many.
unfoldable pub add_small :
    (full : ℕ → Bool) → (b offset : ℕ) → SpaceEntryPool × Moving → SpaceEntryPool × Moving
add_small full b o (p, v) =
    let os = o ∷ v.small b in
    let (p', rest) = move_entry_list p os b in
    if full (length os)
    then (p', record v { small = update v.small b rest })
    else (p, record v { small = update v.small b os })

unfoldable pub add_large :
    (full : ℕ → Bool) → (i : ℕ) → SpaceEntry → SpaceEntryPool × Moving → SpaceEntryPool × Moving
add_large full i e (p, v) =
    let es = insert_entry e (v.large i) in
    let (p', rest) = move_large_entry_set p es i in
    if full (length es)
    then (p', record v { large = update v.large i rest })
    else (p, record v { large = update v.large i es })

-- The lists of `n` sizes from `b` on.
unfoldable pub flush_small : (n b : ℕ) → (ℕ → List ℕ) → SpaceEntryPool → SpaceEntryPool
flush_small zero b os p = p
flush_small (suc n) b os p = flush_small n (b + 1) os (move_entry_list p (os b) b).0

unfoldable pub flush_large : (n i : ℕ) → (ℕ → List SpaceEntry) → SpaceEntryPool → SpaceEntryPool
flush_large zero i es p = p
flush_large (suc n) i es p = flush_large n (i + 1) es (move_large_entry_set p (es i) i).0

module _ (c : Config) where
  unfoldable pub batch_add : SpaceEntry → Freelist × Moving → Freelist × Moving
  unfolding add_small add_large
  batch_add e (l, v) =
      let b = (e.size / c.block_size) % 2 ^ 32 in
      let m = Map.set l.space_map (e.offset / c.block_size) b in
      let (p, v') =
        if ltb b c.max_small_entry_block_size
        then add_small (λ n. n == min_movable_entries) b e.offset (l.active_pool, v)
        else add_large (λ n. n == min_movable_entries) (block_size_index c b) e
            (l.active_pool, v) in
      (record l { space_map = m; active_pool = p }, v')

  unfoldable pub batch_add_all : List SpaceEntry → Freelist × Moving → Freelist × Moving
  unfolding batch_add
  batch_add_all [] s = s
  batch_add_all (e ∷ es) s = batch_add_all es (batch_add e s)

  abbrev total_size : List SpaceEntry → ℕ
  total_size [] = 0
  total_size (e ∷ es) = (e.size + total_size es) % 2 ^ 64

  unfoldable pub batch_push : List SpaceEntry → Freelist → Freelist × ℕ
  unfolding batch_add_all flush_small flush_large
  batch_push es l =
      let (k, v) = batch_add_all es (l, nothing_moving) in
      let p = flush_small (c.max_small_entry_block_size - 1) 1 v.small k.active_pool in
      (
        record k {
          active_pool = flush_large c.max_block_size_index 0 v.large p;
          last_freed_after_merge = (k.last_freed_after_merge + length es) % 2 ^ 64;
        },
        total_size es,
      )

  -- A list that is swapped out leaves an empty one; the sizes are 1 up to the largest.
  unfoldable pub emptied : (n from : ℕ) {A : Type 0} → (ℕ → List A) → ℕ → List A
  emptied n from xs i = if leb from i then (if ltb i (from + n) then [] else xs i) else xs i

  unfoldable pub move_cache : FlistThreadCache → Freelist → Freelist
  unfolding flush_small flush_large
  move_cache t l = record l {
    last_freed_after_merge = (l.last_freed_after_merge + t.num_recently_freed) % 2 ^ 64;
    active_pool =
        flush_large c.max_block_size_index 0 t.large_entries
          (flush_small (c.max_small_entry_block_size - 1) 1 t.small_entry_offsets l.active_pool);
  }

  unfoldable pub emptied_cache : FlistThreadCache → FlistThreadCache
  unfolding emptied
  emptied_cache t = record {
    num_recently_freed = 0;
    small_entry_offsets = emptied (c.max_small_entry_block_size - 1) 1 t.small_entry_offsets;
    large_entries = emptied c.max_block_size_index 0 t.large_entries;
  }

  -- The caches from `i` on, `n` of them.
  unfoldable pub move_caches : (n i : ℕ) → Freelist → Freelist
  unfolding move_cache emptied_cache
  move_caches zero i l = l
  move_caches (suc n) i l =
      let t = l.flist_thread_cache i in
      move_caches n (i + 1) (record (move_cache t l) {
        flist_thread_cache = update l.flist_thread_cache i (emptied_cache t);
      })

  unfoldable pub move_cached_entries_to_pool : Freelist → Freelist
  unfolding move_caches
  move_cached_entries_to_pool l = move_caches c.num_caches 0 l
