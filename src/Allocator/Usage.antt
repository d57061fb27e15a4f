-- ===== src/Allocator/Usage.antt =====
-- Each step of Allocate, and what it leaves in the calling thread's cache and counter.
use kvdk.Prelude.{if◌then◌else◌, ◌^◌, ℕ, ◌≤◌, ◌<◌, ◌≡◌, refl, true, arith}
use kvdk.DlList.{SpaceEntry}
use kvdk.Allocator.{
  ltb, take_segment, take_free_entry, log_deallocation, get_free_entry, return_segment,
  allocate_segment_space, return_free_entry, Cache, FreeList, Allocator, cache_of, set_cache,
  log_allocation, free, add64, sub64,
}

-- The free list gives an entry of at least the size, where it reports one.
abbrev pub GetFits : FreeList → (size : ℕ) → Type 0
GetFits F size =
    (tid : ℕ) (e : SpaceEntry) (l : F.Carrier)
    → (F.get tid size e l).1.1 ≡ true
    → size ≤ (F.get tid size e l).1.0.size

module _ {F : FreeList} (tid : ℕ) where
  -- The calling thread's counter.
  abbrev pub counter : Allocator F → ℕ
  counter a = (cache_of a tid).allocated

  pub cache_of-set_cache : (a : Allocator F) (c : Cache) → cache_of (set_cache a tid c) tid ≡ c
  cache_of-set_cache a c = ground arith

  counter-log_allocation :
      (a : Allocator F) (s : ℕ) → counter (log_allocation tid s a) ≡ add64 (counter a) s
  unfolding log_allocation
  counter-log_allocation a s = ground arith

  counter-free :
      (a : Allocator F) (e : SpaceEntry)
      → counter (free tid e a) ≡ (if ltb 0 e.size then sub64 (counter a) e.size else counter a)
  unfolding free log_deallocation
  counter-free a e = ground arith

  -- What is counted as allocated and then freed.
  free-log_allocation :
      (a : Allocator F) (e : SpaceEntry)
      → counter a < 2 ^ 64
      → counter (free tid e (log_allocation tid e.size a)) ≡ counter a
  free-log_allocation a e l =
      ground (arith, counter-log_allocation a e.size, counter-free (log_allocation tid e.size a) e)

  pub return_free_entry-counter :
      (a : Allocator F) → counter a < 2 ^ 64 → counter (return_free_entry tid a) ≡ counter a
  unfolding return_free_entry
  return_free_entry-counter a l =
      ground (arith, free-log_allocation a (cache_of a tid).free_entry l)

  pub get_free_entry-counter :
      (a : Allocator F) (s : ℕ) → counter (get_free_entry tid s a).0 ≡ counter a
  unfolding get_free_entry
  get_free_entry-counter a s = ground arith

  pub return_segment-counter :
      (a : Allocator F) → counter a < 2 ^ 64 → counter (return_segment tid a) ≡ counter a
  unfolding return_segment
  return_segment-counter a l = free-log_allocation a (cache_of a tid).segment_entry l

  pub allocate_segment_space-counter :
      (a : Allocator F) → counter (allocate_segment_space tid a).0 ≡ counter a
  unfolding allocate_segment_space
  allocate_segment_space-counter a = ground arith

  pub take_free_entry-counter :
      (a : Allocator F) (s : ℕ) → counter (take_free_entry tid s a).0 ≡ add64 (counter a) s
  unfolding take_free_entry log_allocation
  take_free_entry-counter a s = ground arith

  pub take_segment-counter :
      (a : Allocator F) (s : ℕ) → counter (take_segment tid s a).0 ≡ add64 (counter a) s
  unfolding take_segment log_allocation
  take_segment-counter a s = ground arith

  pub take_free_entry-size : (s : ℕ) (a : Allocator F) → (take_free_entry tid s a).1.size ≡ s
  unfolding take_free_entry
  take_free_entry-size s a = refl

  pub take_segment-size : (s : ℕ) (a : Allocator F) → (take_segment tid s a).1.size ≡ s
  unfolding take_segment
  take_segment-size s a = refl

  pub get_free_entry-fits :
      (s : ℕ) (a : Allocator F)
      → GetFits F s
      → (get_free_entry tid s a).1 ≡ true
      → s ≤ (cache_of (get_free_entry tid s a).0 tid).free_entry.size
  unfolding get_free_entry
  get_free_entry-fits s a law found =
      ground (arith, law tid (cache_of a tid).free_entry a.free_list found)

  pub allocate_segment_space-fits :
      (a : Allocator F)
      → (allocate_segment_space tid a).1 ≡ true
      → (cache_of (allocate_segment_space tid a).0 tid).segment_entry.size ≡ a.segment_size
  unfolding allocate_segment_space
  allocate_segment_space-fits a got = ground arith

  pub return_segment-segment_size :
      (a : Allocator F) → (return_segment tid a).segment_size ≡ a.segment_size
  unfolding return_segment free log_allocation log_deallocation
  return_segment-segment_size a = ground arith

  pub get_free_entry-segment_size :
      (s : ℕ) (a : Allocator F) → (get_free_entry tid s a).0.segment_size ≡ a.segment_size
  unfolding get_free_entry
  get_free_entry-segment_size s a = refl

  pub return_free_entry-segment_size :
      (a : Allocator F) → (return_free_entry tid a).segment_size ≡ a.segment_size
  unfolding return_free_entry free log_allocation log_deallocation
  return_free_entry-segment_size a = ground arith
