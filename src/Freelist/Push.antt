-- ===== src/Freelist/Push.antt =====
-- What Push gives back can be had again.
use kvdk.Prelude.{has, ℕ, ◌+◌, ◌/◌, ◌%◌, ◌<◌, ◌≤◌, ◌≡◌, refl, Bool, true, false, arith}
use native.Mathlib.Nat.{le-div_iff_mul-le, div-mul-le_self}
use kvdk.DlList.{SpaceEntry}
use kvdk.Space.Map
use kvdk.Space.Map.{test}
use kvdk.Space.Map.Chain.{stops_at}
use kvdk.Space.Map.Fill.{test-set}
use kvdk.Freelist.{Config, Freelist, stock, push, push_listed, count_freed, get}
use kvdk.Freelist.Small.{IsPooled}
use kvdk.Freelist.Get.{GetOutcome, get-GetOutcome, div_pos}

module _ (c : Config) (tid : ℕ) where
  pub push-map :
      (e : SpaceEntry) (l : Freelist)
      → (push c tid e l).space_map
        ≡ Map.set l.space_map (e.offset / c.block_size) (e.size / c.block_size)
  unfolding push push_listed count_freed
  push-map e l = ground arith

  pub push-IsPooled : (e : SpaceEntry) (l : Freelist) → IsPooled l → IsPooled (push c tid e l)
  unfolding push push_listed count_freed
  push-IsPooled e l p = record {
    active = λ i. ground (arith, p.active i);
    merged = λ i. ground (arith, p.merged i);
  }

  push-listed :
      (e : SpaceEntry) (l : Freelist)
      → e.size / c.block_size < c.max_small_entry_block_size
      → has e.offset (stock c tid (e.size / c.block_size) (push c tid e l)) ≡ true
  unfolding push push_listed count_freed stock
  push-listed e l small = ground arith

  pub live_found :
      (size i o : ℕ) (l : Freelist) (r : Freelist × (SpaceEntry × Bool))
      → has o (stock c tid i l) ≡ true
      → test l.space_map (o / c.block_size) ≡ i
      → size / c.block_size ≤ i
      → i < c.max_small_entry_block_size
      → GetOutcome c tid size l r
      → r.1.1 ≡ true
  live_found size i o l (l', (e, true)) listed live lo hi h = refl
  live_found size i o l (l', (e, false)) listed live lo hi (same, stale) =
      absurd (stale i lo hi o listed live)

  -- A small entry of whole blocks, inside the map and with no continuation behind it, that a thread
  -- pushes is enough for the thread's next Get of at most its size, in any number of whole blocks:
  -- that Get gives an entry.
  pub get-push :
      (e r : SpaceEntry) (l : Freelist) (size : ℕ)
      → 0 < c.block_size
      → IsPooled l
      → c.block_size ≤ e.size
      → e.size / c.block_size < c.max_small_entry_block_size
      → e.offset / c.block_size + e.size / c.block_size ≤ l.space_map.size
      → stops_at l.space_map (e.offset / c.block_size + e.size / c.block_size) ≡ true
      → 0 < size
      → size ≤ e.size
      → size % c.block_size ≡ 0
      → (get c tid size r (push c tid e l)).1.1 ≡ true
  get-push e r l size pos p some small inside stops some_size le whole =
      live_found size (e.size / c.block_size) e.offset (push c tid e l)
        (get c tid size r (push c tid e l)) (push-listed e l small)
        (rw (push-map e l)
          (test-set l.space_map _ _ (div_pos c.block_size e.size pos some) inside stops).0)
        ((le-div_iff_mul-le pos).1 (omega (arith, div-mul-le_self size c.block_size))) small
        (get-GetOutcome c tid size r (push c tid e l) pos some_size whole (push-IsPooled e l p))
