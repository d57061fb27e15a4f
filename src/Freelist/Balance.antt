-- ===== src/Freelist/Balance.antt =====
-- What MoveCachedEntriesToPool does for the other threads.
use kvdk.Prelude.{
  subst, ==_iff, ◌==◌, inr, ◌-◌, inl, Bool-cases, ℕ, suc, zero, ◌+◌, ◌/◌, ◌%◌, ◌<◌, ◌≤◌, ◌≡◌, refl,
  List, [], ◌∷◌, ◌++◌, true, arith, ◌⊎◌, has, has-append,
}
use kvdk.DlList.{SpaceEntry}
use kvdk.Space.Map.Chain.{stops_at}
use kvdk.Space.Map.Fill.{test-set}
use kvdk.Space.Pool.{SpaceEntryPool, move_entry_list, move_large_entry_set, move_list}
use kvdk.Freelist.{
  push_listed, count_freed, Config, Freelist, FlistThreadCache, stock, push, get, concat, slot,
  cached_small,
}
use kvdk.Freelist.Pooling.{
  flush_small, flush_large, move_cache, move_caches, move_cached_entries_to_pool,
}
use native.Mathlib.Nat.{mod-lt, le-div_iff_mul-le, div-mul-le_self}
use kvdk.Freelist.Push.{push-map, push-IsPooled, live_found}
use kvdk.Freelist.Get.{div_pos, get-GetOutcome}
use kvdk.Freelist.Kept.{move_caches-IsPooled}
use kvdk.Freelist.Small.{IsPooled}

-- An offset that the pool lists for a size.
abbrev pub Listed : SpaceEntryPool → (i o : ℕ) → Type 0
Listed p i o = has o (concat (p.small_entry_pool i)) ≡ true

move-keeps :
    (p : SpaceEntryPool) (os : List ℕ) (b i o : ℕ)
    → Listed p i o
    → Listed (move_entry_list p os b).0 i o
unfolding move_entry_list move_list concat
move-keeps p [] b i o h = h
move-keeps p (x ∷ xs) b i o h =
    ground (arith, has-append o (x ∷ xs) (concat (p.small_entry_pool b)))

move-adds :
    (p : SpaceEntryPool) (os : List ℕ) (b o : ℕ)
    → has o os ≡ true
    → Listed (move_entry_list p os b).0 b o
unfolding move_entry_list move_list concat
move-adds p [] b o h = cc
move-adds p (x ∷ xs) b o h = ground (arith, has-append o (x ∷ xs) (concat (p.small_entry_pool b)))

flush_small-keeps :
    (n b : ℕ) (os : ℕ → List ℕ) (p : SpaceEntryPool) (i o : ℕ)
    → Listed p i o
    → Listed (flush_small n b os p) i o
unfolding flush_small
flush_small-keeps zero b os p i o h = h
flush_small-keeps (suc n) b os p i o h =
    flush_small-keeps n (b + 1) os _ i o (move-keeps p (os b) b i o h)

flush_small-adds :
    (n b : ℕ) (os : ℕ → List ℕ) (p : SpaceEntryPool) (i o : ℕ)
    → b ≤ i
    → i < b + n
    → has o (os i) ≡ true
    → Listed (flush_small n b os p) i o
unfolding flush_small
flush_small-adds zero b os p i o lo hi h = absurd (omega arith)
flush_small-adds (suc n) b os p i o lo hi h = elim (Bool-cases (b == i)) [
  | inl here ↦
      let e = (==_iff b i).0 here in
      flush_small-keeps n (b + 1) os _ i o
        (subst (λ j. Listed (move_entry_list p (os b) b).0 j o) e (move-adds p (os b) b o (rw e h)))
  | inr later ↦ flush_small-adds n (b + 1) os _ i o (ground arith) (omega arith) h
]

flush_large-small :
    (n b : ℕ) (es : ℕ → List SpaceEntry) (p : SpaceEntryPool)
    → (flush_large n b es p).small_entry_pool ≡ p.small_entry_pool
unfolding flush_large move_large_entry_set
flush_large-small zero b es p = refl
flush_large-small (suc n) b es p = flush_large-small n (b + 1) es _

module _ (c : Config) where
  move_cache-Listed :
      (t : FlistThreadCache) (l : Freelist) (i o : ℕ)
      → Listed l.active_pool i o
        ⊎ ((1 ≤ i) × (i < c.max_small_entry_block_size) × (has o (t.small_entry_offsets i) ≡ true))
      → Listed (move_cache c t l).active_pool i o
  unfolding move_cache
  move_cache-Listed t l i o (inl h) =
      rw
        (flush_large-small c.max_block_size_index 0 t.large_entries
          (flush_small (c.max_small_entry_block_size - 1) 1 t.small_entry_offsets l.active_pool))
        (flush_small-keeps (c.max_small_entry_block_size - 1) 1 t.small_entry_offsets l.active_pool
          i o h)
  move_cache-Listed t l i o (inr (lo, hi, h)) =
      rw
        (flush_large-small c.max_block_size_index 0 t.large_entries
          (flush_small (c.max_small_entry_block_size - 1) 1 t.small_entry_offsets l.active_pool))
        (flush_small-adds (c.max_small_entry_block_size - 1) 1 t.small_entry_offsets l.active_pool i
          o lo (omega arith) h)

  move_caches-keeps :
      (n k : ℕ) (l : Freelist) (i o : ℕ)
      → Listed l.active_pool i o
      → Listed (move_caches c n k l).active_pool i o
  unfolding move_caches
  move_caches-keeps zero k l i o h = h
  move_caches-keeps (suc n) k l i o h =
      move_caches-keeps n (k + 1) _ i o (move_cache-Listed (l.flist_thread_cache k) l i o (inl h))

  move_caches-adds :
      (n k : ℕ) (l : Freelist) (j i o : ℕ)
      → k ≤ j
      → j < k + n
      → 1 ≤ i
      → i < c.max_small_entry_block_size
      → has o ((l.flist_thread_cache j).small_entry_offsets i) ≡ true
      → Listed (move_caches c n k l).active_pool i o
  unfolding move_caches
  move_caches-adds zero k l j i o a b lo hi h = absurd (omega arith)
  move_caches-adds (suc n) k l j i o a b lo hi h = elim (Bool-cases (k == j)) [
    | inl here ↦
        let e = (==_iff k j).0 here in
        move_caches-keeps n (k + 1) _ i o
          (move_cache-Listed (l.flist_thread_cache k) l i o (inr (lo, hi, rw e h)))
    | inr later ↦
        move_caches-adds n (k + 1) _ j i o (ground arith) (omega arith) lo hi (ground arith)
  ]

  move_caches-map : (n k : ℕ) (l : Freelist) → (move_caches c n k l).space_map ≡ l.space_map
  unfolding move_caches move_cache
  move_caches-map zero k l = refl
  move_caches-map (suc n) k l = move_caches-map n (k + 1) _

  pooled-stock :
      (tid i o : ℕ) (l : Freelist) → Listed l.active_pool i o → has o (stock c tid i l) ≡ true
  unfolding stock
  pooled-stock tid i o l h = ground (
    arith,
    has-append o (cached_small c tid l i)
        (concat (l.active_pool.small_entry_pool i) ++ concat (l.merged_pool.small_entry_pool i)),
    has-append o (concat (l.active_pool.small_entry_pool i))
        (concat (l.merged_pool.small_entry_pool i)),
  )

  -- A small entry that one thread pushes is in that thread's list.
  push-cached :
      (tid : ℕ) (e : SpaceEntry) (l : Freelist)
      → e.size / c.block_size < c.max_small_entry_block_size
      → has e.offset (cached_small c tid (push c tid e l) (e.size / c.block_size)) ≡ true
  unfolding push push_listed count_freed
  push-cached tid e l small = ground arith

  -- A small entry of whole blocks, inside the map and with no continuation behind it, that one thread
  -- pushes, is enough for every thread after MoveCachedEntriesToPool: the thread's Get of at most
  -- the entry's size, in any positive number of whole blocks, gives an entry.
  pub get-move_cached :
      (tid tid' : ℕ) (e r : SpaceEntry) (l : Freelist) (size : ℕ)
      → 0 < c.block_size
      → 0 < c.num_caches
      → IsPooled l
      → c.block_size ≤ e.size
      → e.size / c.block_size < c.max_small_entry_block_size
      → e.offset / c.block_size + e.size / c.block_size ≤ l.space_map.size
      → stops_at l.space_map (e.offset / c.block_size + e.size / c.block_size) ≡ true
      → 0 < size
      → size ≤ e.size
      → size % c.block_size ≡ 0
      → (get c tid' size r (move_cached_entries_to_pool c (push c tid e l))).1.1 ≡ true
  unfolding move_cached_entries_to_pool
  get-move_cached tid tid' e r l size pos some_cache p some small inside stops some_size le whole =
      let k = push c tid e l in
      let b = e.size / c.block_size in
      let one = div_pos c.block_size e.size pos some in
      live_found c tid' size b e.offset (move_caches c c.num_caches 0 k) _
        (pooled-stock tid' b e.offset (move_caches c c.num_caches 0 k) (
          move_caches-adds c.num_caches 0 k (slot c tid) b e.offset (omega arith)
            (omega (arith, mod-lt tid some_cache)) one small (push-cached tid e l small)))
        (rw (move_caches-map c.num_caches 0 k, push-map c tid e l)
          (test-set l.space_map (e.offset / c.block_size) b one inside stops).0)
        ((le-div_iff_mul-le pos).1 (omega (arith, div-mul-le_self size c.block_size))) small
        (get-GetOutcome c tid' size r _ pos some_size whole
          (move_caches-IsPooled c c.num_caches 0 k (push-IsPooled c tid e l p)))
