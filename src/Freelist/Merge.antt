-- ===== src/Freelist/Merge.antt =====
-- MergeSpaceInPool and OrganizeFreeSpace. A while loop on a pool has one more round than the pool has
-- lists of the size. The size that is persisted for a merged entry is kept by its offset.
use kvdk.Prelude.{
  ℕ, zero, suc, ◌+◌, ◌-◌, ◌*◌, ◌/◌, ◌%◌, ◌^◌, List, [], ◌∷◌, length, ltb, leb, if◌then◌else◌,
  update,
}
use mathlib.Core.List.{reverse}
use kvdk.DlList.{SpaceEntry}
use kvdk.Space.Map.{try_merge}
use kvdk.Space.Pool.{
  SpaceEntryPool, move_entry_list, try_fetch_entry_list, move_large_entry_set,
  try_fetch_large_entry_set,
}
use kvdk.Freelist.{Config, Freelist, block_size_index}
use kvdk.Freelist.Pooling.{
  Moving, nothing_moving, add_small, add_large, merge_threshold, min_movable_entries,
  move_cached_entries_to_pool,
}

pub record Merging : Type 0 where
  pub list : Freelist
  pub moving : Moving
  pub record_size : ℕ → ℕ

-- What is left in a pool goes to another.
unfoldable pub drain_small :
    (fuel b : ℕ) → SpaceEntryPool × SpaceEntryPool → SpaceEntryPool × SpaceEntryPool
drain_small zero b s = s
drain_small (suc f) b (p, q) =
    let (q', (os, found)) = try_fetch_entry_list q [] b in
    let rest = drain_small f b ((move_entry_list p os b).0, q') in if found then rest else (p, q)

unfoldable pub drain_large :
    (fuel i : ℕ) → SpaceEntryPool × SpaceEntryPool → SpaceEntryPool × SpaceEntryPool
drain_large zero i s = s
drain_large (suc f) i (p, q) =
    let (q', (es, found)) = try_fetch_large_entry_set q [] i in
    let rest = drain_large f i ((move_large_entry_set p es i).0, q') in
    if found then rest else (p, q)

-- The merged entries of each size, and then those of the merged pool, are active again.
unfoldable pub collect_small :
    (n b : ℕ) → (ℕ → List ℕ) → SpaceEntryPool × SpaceEntryPool → SpaceEntryPool × SpaceEntryPool
unfolding drain_small
collect_small zero b os s = s
collect_small (suc n) b os (p, q) =
    collect_small n (b + 1) os
      (drain_small (suc (length (q.small_entry_pool b))) b ((move_entry_list p (os b) b).0, q))

unfoldable pub collect_large :
    (n i : ℕ)
    → (ℕ → List SpaceEntry)
    → SpaceEntryPool × SpaceEntryPool
    → SpaceEntryPool × SpaceEntryPool
unfolding drain_large
collect_large zero i es s = s
collect_large (suc n) i es (p, q) =
    collect_large n (i + 1) es
      (drain_large (suc (length (q.large_entry_pool i))) i ((move_large_entry_set p (es i) i).0, q))

module _ (c : Config) where
  -- A merged entry is put where its new size belongs.
  unfoldable pub list_merged :
      (merged offset : ℕ) → SpaceEntryPool × Moving → SpaceEntryPool × Moving
  unfolding add_small add_large
  list_merged merged o s =
      let e : SpaceEntry = record { offset = o; size = merged * c.block_size } in
      if leb c.max_small_entry_block_size merged
      then add_large (λ n. leb min_movable_entries n) (block_size_index c merged) e s
      else add_small (λ n. leb min_movable_entries n) merged o s

  -- One offset of a list of entries of `b` blocks: stale ones are dropped.
  unfoldable pub merge_offset : (b offset : ℕ) → Merging → Merging
  unfolding list_merged
  merge_offset b o s =
      let b_offset = o / c.block_size in
      let limit = c.num_segment_blocks - b_offset % c.num_segment_blocks in
      let (m, merged) = try_merge s.list.space_map b_offset b limit in
      let l = record (s.list) { space_map = m } in
      let (q, v) = list_merged merged o (l.merged_pool, s.moving) in
      let sizes =
        if ltb b merged
        then update s.record_size o ((merged * c.block_size) % 2 ^ 32)
        else s.record_size in
      if ltb 0 merged
      then record { list = record l { merged_pool = q }; moving = v; record_size = sizes }
      else record s { list = l }

  unfoldable pub merge_offsets : (b : ℕ) → List ℕ → Merging → Merging
  unfolding merge_offset
  merge_offsets b [] s = s
  merge_offsets b (o ∷ os) s = merge_offsets b os (merge_offset b o s)

  -- The lists of the active pool for one size, each from its front on.
  unfoldable pub merge_lists : (fuel b : ℕ) → Merging → Merging
  unfolding merge_offsets
  merge_lists zero b s = s
  merge_lists (suc f) b s =
      let (p, (os, found)) = try_fetch_entry_list s.list.active_pool [] b in
      let rest =
        merge_lists f b (
          merge_offsets b (reverse os) (record s { list = record (s.list) { active_pool = p } })) in
      if found then rest else s

  unfoldable pub merge_sizes : (n b : ℕ) → Merging → Merging
  unfolding merge_lists
  merge_sizes zero b s = s
  merge_sizes (suc n) b s =
      merge_sizes n (b + 1) (merge_lists (suc (length (s.list.active_pool.small_entry_pool b))) b s)

  unfoldable pub merge_space_in_pool : Freelist → (ℕ → ℕ) → Freelist × (ℕ → ℕ)
  unfolding merge_sizes collect_small collect_large
  merge_space_in_pool l sizes =
      let n = c.max_small_entry_block_size - 1 in
      let s = merge_sizes n 1 (record {
        list = record l { last_freed_after_merge = 0 };
        moving = nothing_moving;
        record_size = sizes;
      }) in
      let (p, q) =
        collect_large c.max_block_size_index 0 s.moving.large
          (collect_small n 1 s.moving.small (s.list.active_pool, s.list.merged_pool)) in
      (record (s.list) { active_pool = p; merged_pool = q }, s.record_size)

  unfoldable pub organize_free_space : Freelist → (ℕ → ℕ) → Freelist × (ℕ → ℕ)
  unfolding move_cached_entries_to_pool merge_space_in_pool
  organize_free_space l sizes =
      let k = move_cached_entries_to_pool c l in
      if ltb merge_threshold k.last_freed_after_merge
      then merge_space_in_pool k sizes
      else (k, sizes)
