-- ===== src/Allocator/Overflow.antt =====
-- Allocate when no segment is left.
use kvdk.Prelude.{gt→leb, lt→ltb, ℕ, ◌<◌, ◌≡◌, refl, false, arith}
use kvdk.Allocator.{
  allocate_segment_space, log_deallocation, log_allocation, free, return_segment, return_free_entry,
  get_free_entry, no_space, some, FreeList, Allocator, cache_of, has_segment, allocate_loop,
}

module _ {F : FreeList} where
  nothing_returned :
      (tid : ℕ) (a : Allocator F)
      → (cache_of a tid).free_entry.size ≡ 0
      → return_free_entry tid a ≡ a
  unfolding return_free_entry
  nothing_returned tid a none_free = ground arith

  returned_free_list :
      (tid s : ℕ) (a : Allocator F)
      → 0 < (cache_of a tid).segment_entry.size
      → (return_segment tid (get_free_entry tid s a).0).free_list
        ≡ F.push tid
            (cache_of a tid).segment_entry
            (F.get tid s (cache_of a tid).free_entry a.free_list).0
  unfolding return_segment get_free_entry free log_allocation log_deallocation
  returned_free_list tid s a some_room = ground arith

  returned_segment :
      (tid s : ℕ) (a : Allocator F)
      → (cache_of (return_segment tid (get_free_entry tid s a).0) tid).segment_entry
        ≡ (cache_of a tid).segment_entry
  unfolding return_segment get_free_entry free log_allocation log_deallocation
  returned_segment tid s a = ground arith

  still_full :
      (tid s : ℕ) (a : Allocator F)
      → has_segment a ≡ false
      → allocate_segment_space tid (return_segment tid (get_free_entry tid s a).0)
        ≡ (return_segment tid (get_free_entry tid s a).0, false)
  unfolding return_segment get_free_entry free log_allocation log_deallocation
      allocate_segment_space
  still_full tid s a no_segment = ground arith

  found :
      (tid s : ℕ) (a : Allocator F)
      → (get_free_entry tid s a).1 ≡ (F.get tid s (cache_of a tid).free_entry a.free_list).1.1
  unfolding get_free_entry
  found tid s a = refl

  -- A thread whose segment has some room, but too little, and that finds neither a free entry nor a
  -- new segment, gives the segment to the free list and keeps it in its cache: the room has two owners.
  pub overflow_keeps_segment :
      (tid s : ℕ) (a : Allocator F)
      → 0 < (cache_of a tid).segment_entry.size
      → (cache_of a tid).segment_entry.size < s
      → (cache_of a tid).free_entry.size ≡ 0
      → (F.get tid s (cache_of a tid).free_entry a.free_list).1.1 ≡ false
      → has_segment a ≡ false
      → (b : Allocator F) × (allocate_loop 1 tid s a ≡ some (b, no_space))
        × (b.free_list
            ≡ F.push tid
                (cache_of a tid).segment_entry
                (F.get tid s (cache_of a tid).free_entry a.free_list).0)
        × ((cache_of b tid).segment_entry ≡ (cache_of a tid).segment_entry)
  unfolding allocate_loop
  overflow_keeps_segment tid s a some_room small none_free no_entry no_segment = (
    return_segment tid (get_free_entry tid s a).0,
    rw
        (
          lt→ltb (cache_of a tid).segment_entry.size s small,
          gt→leb s (cache_of a tid).free_entry.size (ground arith),
          nothing_returned tid a none_free,
          found tid s a,
          no_entry,
          still_full tid s a no_segment,
        )
        refl,
    returned_free_list tid s a some_room,
    returned_segment tid s a,
  )
