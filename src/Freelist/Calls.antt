-- ===== src/Freelist/Calls.antt =====
-- Histories of calls of the free list.
use kvdk.Prelude.{
  inr, inl, Bool-cases, ℕ, suc, zero, ◌+◌, ◌/◌, ◌%◌, ◌<◌, ◌≡◌, List, [], ◌∷◌, length, Bool, true,
  false,
}
use kvdk.DlList.{SpaceEntry}
use kvdk.Space.Map.{SpaceMap, test_and_clear}
use kvdk.Space.Pool.{try_fetch_entry_list, try_fetch_large_entry_set}
use kvdk.Freelist.{
  stock, cached_small, cached_large, Config, Freelist, or_else, fill_small, pop_small, search_small,
  scan_small, get_small_entry, fill_large, search_large, scan_large, get_large_entry, get, push,
}
use kvdk.Freelist.Small.{IsPooled}
use kvdk.Freelist.Get.{GetOutcome, get-GetOutcome}
use kvdk.Freelist.Push.{push-IsPooled}
use kvdk.Freelist.Pooled.{try_fetch_entry_list-Full, try_fetch_large_entry_set-Full}
use kvdk.Freelist.Pooling.{batch_push}
use kvdk.Freelist.Merge.{organize_free_space}
use kvdk.Freelist.Kept.{batch_push-IsPooled, organize_free_space-IsPooled}

or_else-IsPooled :
    (r : Freelist × (SpaceEntry × Bool))
    (next : SpaceEntry → Freelist → Freelist × (SpaceEntry × Bool))
    → IsPooled r.0
    → ((e : SpaceEntry) (l : Freelist) → IsPooled l → IsPooled (next e l).0)
    → IsPooled (or_else next r).0
unfolding or_else
or_else-IsPooled (l, (e, true)) next p rest = p
or_else-IsPooled (l, (e, false)) next p rest = rest e l p

module _ (c : Config) (tid : ℕ) where
  fill_small-IsPooled :
      (i : ℕ) (os : List ℕ) (l : Freelist) → IsPooled l → IsPooled (fill_small c tid i os l).0
  unfolding fill_small
  fill_small-IsPooled i (o ∷ os) l p = p
  fill_small-IsPooled i [] l p = elim (Bool-cases (try_fetch_entry_list l.active_pool [] i).1.1) [
    | inl found ↦
        rw found
          record { active = try_fetch_entry_list-Full l.active_pool i p.active; merged = p.merged }
    | inr none_active ↦
        rw none_active (elim (Bool-cases (try_fetch_entry_list l.merged_pool [] i).1.1) [
          | inl found ↦ rw found record {
            active = p.active;
            merged = try_fetch_entry_list-Full l.merged_pool i p.merged;
          }
          | inr none_merged ↦ rw none_merged p
        ])
  ]

  pop_small-IsPooled :
      (i : ℕ) (search_entry : SpaceEntry → Freelist → Freelist × (SpaceEntry × Bool))
      (e : SpaceEntry) (os : List ℕ) (l : Freelist)
      → ((e : SpaceEntry) (l : Freelist) → IsPooled l → IsPooled (search_entry e l).0)
      → IsPooled l
      → IsPooled (pop_small c search_entry tid i e os l).0
  unfolding pop_small
  pop_small-IsPooled i search_entry e [] l rest p = p
  pop_small-IsPooled i search_entry e (o ∷ os) l rest p =
      elim (Bool-cases (test_and_clear l.space_map (o / c.block_size) i).1) [
        | inl done ↦ rw done record { active = p.active; merged = p.merged }
        | inr stale ↦ rw stale (rest _ _ (record { active = p.active; merged = p.merged }))
      ]

  search_small-IsPooled :
      (f i : ℕ) (e : SpaceEntry) (l : Freelist)
      → IsPooled l
      → IsPooled (search_small c f tid i e l).0
  unfolding search_small
  search_small-IsPooled zero i e l p = p
  search_small-IsPooled (suc f) i e l p =
      let os = cached_small c tid l i in
      let k = (fill_small c tid i os l).0 in
      let pk = fill_small-IsPooled i os l p in
      elim (Bool-cases (fill_small c tid i os l).1) [
        | inl go ↦ rw go (
            pop_small-IsPooled i (search_small c f tid i) e (cached_small c tid k i) k
              (search_small-IsPooled f i) pk)
        | inr stop ↦ rw stop pk
      ]

  scan_small-IsPooled :
      (n i : ℕ) (e : SpaceEntry) (l : Freelist) → IsPooled l → IsPooled (scan_small c n tid i e l).0
  unfolding scan_small
  scan_small-IsPooled zero i e l p = p
  scan_small-IsPooled (suc n) i e l p =
      or_else-IsPooled _ (scan_small c n tid (i + 1))
        (search_small-IsPooled (suc (length (stock c tid i l))) i e l p)
        (scan_small-IsPooled n (i + 1))

  fill_large-IsPooled :
      (i : ℕ) (es : List SpaceEntry) (l : Freelist)
      → IsPooled l
      → IsPooled (fill_large c tid i es l).0
  unfolding fill_large
  fill_large-IsPooled i (e ∷ es) l p = p
  fill_large-IsPooled i [] l p =
      elim (Bool-cases (try_fetch_large_entry_set l.active_pool [] i).1.1) [
        | inl found ↦ rw found record {
          active = try_fetch_large_entry_set-Full l.active_pool i p.active;
          merged = p.merged;
        }
        | inr none_active ↦
            rw none_active (elim (Bool-cases (try_fetch_large_entry_set l.merged_pool [] i).1.1) [
              | inl found ↦ rw found record {
                active = p.active;
                merged = try_fetch_large_entry_set-Full l.merged_pool i p.merged;
              }
              | inr none_merged ↦ rw none_merged p
            ])
      ]

  search_large-IsPooled :
      (size i : ℕ) (e : SpaceEntry) (l : Freelist)
      → IsPooled l
      → IsPooled (search_large c tid size i e l).0
  unfolding search_large
  search_large-IsPooled size i e l p =
      let es = cached_large c tid l i in
      let pk = fill_large-IsPooled i es l p in
      elim (Bool-cases (fill_large c tid i es l).1) [
        | inl go ↦ rw go record { active = pk.active; merged = pk.merged }
        | inr stop ↦ rw stop pk
      ]

  scan_large-IsPooled :
      (n size i : ℕ) (e : SpaceEntry) (l : Freelist)
      → IsPooled l
      → IsPooled (scan_large c n tid size i e l).0
  unfolding scan_large
  scan_large-IsPooled zero size i e l p = p
  scan_large-IsPooled (suc n) size i e l p =
      or_else-IsPooled _ (scan_large c n tid size (i + 1)) (search_large-IsPooled size i e l p)
        (scan_large-IsPooled n size (i + 1))

  get-IsPooled :
      (size : ℕ) (e : SpaceEntry) (l : Freelist) → IsPooled l → IsPooled (get c tid size e l).0
  unfolding get get_small_entry get_large_entry
  get-IsPooled size e l p =
      or_else-IsPooled (get_small_entry c tid size e l) (get_large_entry c tid size)
        (scan_small-IsPooled _ (size / c.block_size) e l p)
        (λ e' k pk. scan_large-IsPooled _ size _ e' k pk)

pub data Call : Type 0 where
  push_call : (tid : ℕ) → SpaceEntry → Call
  batch_push_call : List SpaceEntry → Call
  get_call : (tid size : ℕ) → SpaceEntry → Call
  organize_call : (ℕ → ℕ) → Call

-- A call on the free list; what it returns besides is left out.
unfoldable pub run_call : Config → Call → Freelist → Freelist
unfolding push batch_push get organize_free_space
run_call c (push_call tid e) l = push c tid e l
run_call c (batch_push_call es) l = (batch_push c es l).0
run_call c (get_call tid size e) l = (get c tid size e l).0
run_call c (organize_call sizes) l = (organize_free_space c l sizes).0

unfoldable pub run : Config → List Call → Freelist → Freelist
unfolding run_call
run c [] l = l
run c (x ∷ xs) l = run c xs (run_call c x l)

-- A free list as its constructor leaves it, over a map.
unfoldable pub empty_list : SpaceMap → Freelist
empty_list m = record {
  active_pool = record { small_entry_pool = λ i. []; large_entry_pool = λ i. [] };
  merged_pool = record { small_entry_pool = λ i. []; large_entry_pool = λ i. [] };
  space_map = m;
  flist_thread_cache = λ i. record {
    small_entry_offsets = λ j. [];
    large_entries = λ j. [];
    num_recently_freed = 0;
  };
  last_freed_after_merge = 0;
}

module _ (c : Config) where
  run_call-IsPooled : (x : Call) (l : Freelist) → IsPooled l → IsPooled (run_call c x l)
  unfolding run_call
  run_call-IsPooled (push_call tid e) l p = push-IsPooled c tid e l p
  run_call-IsPooled (batch_push_call es) l p = batch_push-IsPooled c es l p
  run_call-IsPooled (get_call tid size e) l p = get-IsPooled c tid size e l p
  run_call-IsPooled (organize_call sizes) l p = organize_free_space-IsPooled c l sizes p

  run-IsPooled : (xs : List Call) (l : Freelist) → IsPooled l → IsPooled (run c xs l)
  unfolding run
  run-IsPooled [] l p = p
  run-IsPooled (x ∷ xs) l p = run-IsPooled xs (run_call c x l) (run_call-IsPooled x l p)

  pub reached-IsPooled : (xs : List Call) (m : SpaceMap) → IsPooled (run c xs (empty_list m))
  unfolding empty_list
  reached-IsPooled xs m = run-IsPooled xs _ (record { active = λ i. tt; merged = λ i. tt })

  -- After any calls of Push, BatchPush, Get and OrganizeFreeSpace on a new free list, Get of a
  -- positive number of whole blocks gives an entry of at least that size, which was an entry of the
  -- space map, of just its size, and has left the map. If it gives none, the map is as it was, and
  -- no offset that the calling thread could find listed, in its cache or in the pools, for a small
  -- size from the requested one on is that of an entry of that size.
  pub get-run :
      (xs : List Call) (m : SpaceMap) (tid size : ℕ) (e : SpaceEntry)
      → 0 < c.block_size
      → 0 < size
      → size % c.block_size ≡ 0
      → GetOutcome c tid size (run c xs (empty_list m)) (get c tid size e (run c xs (empty_list m)))
  get-run xs m tid size e pos some_size whole =
      get-GetOutcome c tid size e (run c xs (empty_list m)) pos some_size whole
        (reached-IsPooled xs m)
