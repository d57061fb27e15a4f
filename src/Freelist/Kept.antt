-- ===== src/Freelist/Kept.antt =====
-- The background calls and BatchPush leave no empty list in a pool.
use kvdk.Prelude.{
  ◌==◌, ◌^◌, ◌-◌, inr, inl, Bool-cases, ℕ, suc, zero, ◌+◌, ◌/◌, ◌%◌, ◌≡◌, refl, List, [], ◌∷◌,
  length,
}
use mathlib.Core.List.{reverse}
use kvdk.DlList.{SpaceEntry}
use kvdk.Space.Map.{try_merge}
use kvdk.Space.Pool.{
  SpaceEntryPool, try_fetch_entry_list, move_entry_list, try_fetch_large_entry_set,
  move_large_entry_set,
}
use kvdk.Freelist.{update, ltb, leb, Config, Freelist, block_size_index}
use kvdk.Freelist.Small.{IsPooled}
use kvdk.Freelist.Pooling.{
  merge_threshold, Moving, batch_add, batch_add_all, batch_push, move_cache, move_caches,
  move_cached_entries_to_pool, min_movable_entries, nothing_moving, emptied_cache,
}
use kvdk.Freelist.Merge.{
  Merging, drain_small, drain_large, collect_small, collect_large, list_merged, merge_offset,
  merge_offsets, merge_lists, merge_sizes, merge_space_in_pool, organize_free_space,
}
use kvdk.Freelist.Pooled.{
  flush_small-Full, flush_large-Full, add_small-Full, add_large-Full, try_fetch_entry_list-Full,
  try_fetch_large_entry_set-Full, move_large_entry_set-Full, move_entry_list-Full, Full,
}

-- Both pools of a free list.
abbrev FullBoth : SpaceEntryPool × SpaceEntryPool → Type 0
FullBoth (p, q) = Full p × Full q

drain_small-FullBoth :
    (f b : ℕ) (s : SpaceEntryPool × SpaceEntryPool) → FullBoth s → FullBoth (drain_small f b s)
unfolding drain_small
drain_small-FullBoth zero b s h = h
drain_small-FullBoth (suc f) b (p, q) h = elim (Bool-cases (try_fetch_entry_list q [] b).1.1) [
  | inl go ↦ rw go (
      drain_small-FullBoth f b _
        (move_entry_list-Full p _ b h.0, try_fetch_entry_list-Full q b h.1))
  | inr stop ↦ rw stop h
]

drain_large-FullBoth :
    (f b : ℕ) (s : SpaceEntryPool × SpaceEntryPool) → FullBoth s → FullBoth (drain_large f b s)
unfolding drain_large
drain_large-FullBoth zero b s h = h
drain_large-FullBoth (suc f) b (p, q) h = elim (Bool-cases (try_fetch_large_entry_set q [] b).1.1) [
  | inl go ↦ rw go (
      drain_large-FullBoth f b _
        (move_large_entry_set-Full p _ b h.0, try_fetch_large_entry_set-Full q b h.1))
  | inr stop ↦ rw stop h
]

collect_small_lem :
    (n b : ℕ) (os : ℕ → List ℕ) (p q : SpaceEntryPool)
    → collect_small (suc n) b os (p, q)
      ≡ collect_small n
          (b + 1)
          os
          (drain_small (suc (length (q.small_entry_pool b))) b ((move_entry_list p (os b) b).0, q))
unfolding collect_small
collect_small_lem n b os p q = refl

collecting :
    (p q : SpaceEntryPool) (os : ℕ → List ℕ) (b : ℕ)
    → FullBoth (p, q)
    → FullBoth ((move_entry_list p (os b) b).0, q)
collecting p q os b h = (move_entry_list-Full p (os b) b h.0, h.1)

collect_small-FullBoth :
    (n b : ℕ) (os : ℕ → List ℕ) (s : SpaceEntryPool × SpaceEntryPool)
    → FullBoth s
    → FullBoth (collect_small n b os s)
collect_small-FullBoth zero b os s h = unfold collect_small in h
collect_small-FullBoth (suc n) b os (p, q) h =
    rw (collect_small_lem n b os p q)
      (collect_small-FullBoth n (b + 1) os _ (drain_small-FullBoth _ b _ (collecting p q os b h)))

collect_large_lem :
    (n b : ℕ) (os : ℕ → List SpaceEntry) (p q : SpaceEntryPool)
    → collect_large (suc n) b os (p, q)
      ≡ collect_large n (b + 1) os (
          drain_large
            (suc (length (q.large_entry_pool b)))
            b
            ((move_large_entry_set p (os b) b).0, q))
unfolding collect_large
collect_large_lem n b os p q = refl

collecting_large :
    (p q : SpaceEntryPool) (os : ℕ → List SpaceEntry) (b : ℕ)
    → FullBoth (p, q)
    → FullBoth ((move_large_entry_set p (os b) b).0, q)
collecting_large p q os b h = (move_large_entry_set-Full p (os b) b h.0, h.1)

collect_large-FullBoth :
    (n b : ℕ) (os : ℕ → List SpaceEntry) (s : SpaceEntryPool × SpaceEntryPool)
    → FullBoth s
    → FullBoth (collect_large n b os s)
collect_large-FullBoth zero b os s h = unfold collect_large in h
collect_large-FullBoth (suc n) b os (p, q) h = rw (collect_large_lem n b os p q) (
    collect_large-FullBoth n (b + 1) os _
      (drain_large-FullBoth _ b _ (collecting_large p q os b h)))

collected :
    (n m : ℕ) (k : Merging)
    → IsPooled k.list
    → FullBoth (
        collect_large m 0 k.moving.large
          (collect_small n 1 k.moving.small (k.list.active_pool, k.list.merged_pool)))
collected n m k p =
    collect_large-FullBoth m 0 k.moving.large _
      (collect_small-FullBoth n 1 k.moving.small _ (p.active, p.merged))

module _ (c : Config) where
  list_merged-Full :
      (merged o : ℕ) (s : SpaceEntryPool × Moving) → Full s.0 → Full (list_merged c merged o s).0
  unfolding list_merged
  list_merged-Full merged o s h = elim (Bool-cases (leb c.max_small_entry_block_size merged)) [
    | inl large ↦ rw large (add_large-Full (λ n. leb min_movable_entries n) _ _ s h)
    | inr small ↦ rw small (add_small-Full (λ n. leb min_movable_entries n) merged o s h)
  ]

  merge_offset-IsPooled :
      (b o : ℕ) (s : Merging) → IsPooled s.list → IsPooled (merge_offset c b o s).list
  unfolding merge_offset
  merge_offset-IsPooled b o s p =
      let blocks = o / c.block_size in
      let merged =
        (try_merge s.list.space_map blocks b
          (c.num_segment_blocks - blocks % c.num_segment_blocks)).1 in
      elim (Bool-cases (ltb 0 merged)) [
        | inl live ↦ rw live record {
          active = p.active;
          merged = list_merged-Full merged o (s.list.merged_pool, s.moving) p.merged;
        }
        | inr stale ↦ rw stale record { active = p.active; merged = p.merged }
      ]

  merge_offsets-IsPooled :
      (b : ℕ) (os : List ℕ) (s : Merging) → IsPooled s.list → IsPooled (merge_offsets c b os s).list
  unfolding merge_offsets
  merge_offsets-IsPooled b [] s p = p
  merge_offsets-IsPooled b (o ∷ os) s p =
      merge_offsets-IsPooled b os _ (merge_offset-IsPooled b o s p)

  merge_lists-IsPooled :
      (f b : ℕ) (s : Merging) → IsPooled s.list → IsPooled (merge_lists c f b s).list
  unfolding merge_lists
  merge_lists-IsPooled zero b s p = p
  merge_lists-IsPooled (suc f) b s p =
      let t = try_fetch_entry_list s.list.active_pool [] b in
      let k : Merging = record s { list = record (s.list) { active_pool = t.0 } } in
      let pk : IsPooled k.list = record {
        active = try_fetch_entry_list-Full s.list.active_pool b p.active;
        merged = p.merged;
      } in
      elim (Bool-cases t.1.1) [
        | inl go ↦ rw go (
            merge_lists-IsPooled f b (merge_offsets c b (reverse t.1.0) k)
              (merge_offsets-IsPooled b (reverse t.1.0) k pk))
        | inr stop ↦ rw stop p
      ]

  merge_sizes-IsPooled :
      (n b : ℕ) (s : Merging) → IsPooled s.list → IsPooled (merge_sizes c n b s).list
  unfolding merge_sizes
  merge_sizes-IsPooled zero b s p = p
  merge_sizes-IsPooled (suc n) b s p =
      let f = suc (length (s.list.active_pool.small_entry_pool b)) in
      merge_sizes-IsPooled n (b + 1) (merge_lists c f b s) (merge_lists-IsPooled f b s p)

  merge_space_in_pool-IsPooled :
      (l : Freelist) (sizes : ℕ → ℕ) → IsPooled l → IsPooled (merge_space_in_pool c l sizes).0
  unfolding merge_space_in_pool
  merge_space_in_pool-IsPooled l sizes p =
      let n = c.max_small_entry_block_size - 1 in
      let s : Merging = record {
        list = record l { last_freed_after_merge = 0 };
        moving = nothing_moving;
        record_size = sizes;
      } in
      let k = merge_sizes c n 1 s in
      let pk = merge_sizes-IsPooled n 1 s (record { active = p.active; merged = p.merged }) in
      let both = collected n c.max_block_size_index k pk in
      record { active = both.0; merged = both.1 }

  batch_add-IsPooled :
      (e : SpaceEntry) (s : Freelist × Moving) → IsPooled s.0 → IsPooled (batch_add c e s).0
  unfolding batch_add
  batch_add-IsPooled e (l, v) p =
      let b = (e.size / c.block_size) % 2 ^ 32 in
      elim (Bool-cases (ltb b c.max_small_entry_block_size)) [
        | inl small ↦ rw small record {
          active =
              add_small-Full (λ n. n == min_movable_entries) b e.offset (l.active_pool, v) p.active;
          merged = p.merged;
        }
        | inr large ↦ rw large record {
          active =
              add_large-Full (λ n. n == min_movable_entries) (block_size_index c b) e
                (l.active_pool, v) p.active;
          merged = p.merged;
        }
      ]

  batch_add_all-IsPooled :
      (es : List SpaceEntry) (s : Freelist × Moving)
      → IsPooled s.0
      → IsPooled (batch_add_all c es s).0
  unfolding batch_add_all
  batch_add_all-IsPooled [] s p = p
  batch_add_all-IsPooled (e ∷ es) s p =
      batch_add_all-IsPooled es (batch_add c e s) (batch_add-IsPooled e s p)

  pub batch_push-IsPooled :
      (es : List SpaceEntry) (l : Freelist) → IsPooled l → IsPooled (batch_push c es l).0
  unfolding batch_push
  batch_push-IsPooled es l p =
      let s : Freelist × Moving = (l, nothing_moving) in
      let k = batch_add_all c es s in
      let pk = batch_add_all-IsPooled es s p in
      record {
        active = flush_large-Full c.max_block_size_index 0 k.1.large _ (
            flush_small-Full (c.max_small_entry_block_size - 1) 1 k.1.small k.0.active_pool
              pk.active);
        merged = pk.merged;
      }

  pub move_caches-IsPooled : (n i : ℕ) (l : Freelist) → IsPooled l → IsPooled (move_caches c n i l)
  unfolding move_caches move_cache
  move_caches-IsPooled zero i l p = p
  move_caches-IsPooled (suc n) i l p =
      let t = l.flist_thread_cache i in
      let k : Freelist = record (move_cache c t l) {
        flist_thread_cache = update l.flist_thread_cache i (emptied_cache c t);
      } in
      let pk : IsPooled k = record {
        active = flush_large-Full c.max_block_size_index 0 t.large_entries _ (
            flush_small-Full (c.max_small_entry_block_size - 1) 1 t.small_entry_offsets
              l.active_pool p.active);
        merged = p.merged;
      } in
      move_caches-IsPooled n (i + 1) k pk

  pub organize_free_space-IsPooled :
      (l : Freelist) (sizes : ℕ → ℕ) → IsPooled l → IsPooled (organize_free_space c l sizes).0
  unfolding organize_free_space move_cached_entries_to_pool
  organize_free_space-IsPooled l sizes p =
      let k = move_cached_entries_to_pool c l in
      let pk : IsPooled k = move_caches-IsPooled c.num_caches 0 l p in
      elim (Bool-cases (ltb merge_threshold k.last_freed_after_merge)) [
        | inl many ↦ rw many (merge_space_in_pool-IsPooled k sizes pk)
        | inr few ↦ rw few pk
      ]
