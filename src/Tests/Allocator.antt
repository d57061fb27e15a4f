-- ===== src/Tests/Allocator.antt =====
-- A free list of one entry, and an allocator with two segments of four blocks.
use kvdk.Prelude.{ℕ, ◌≡◌, refl, Option, some, none, arith, true, false, leb, if◌then◌else◌, Bool}
use kvdk.DlList.{SpaceEntry}
use kvdk.Allocator.{FreeList, Allocator, cache_of, no_space, allocate_loop}
use kvdk.Allocator.Overflow.{overflow_keeps_segment}

abbrev get_one : ℕ → SpaceEntry → Option SpaceEntry → Option SpaceEntry × (SpaceEntry × Bool)
get_one size e none = (none, (e, false))
get_one size e (some f) = if leb size f.size then (none, (f, true)) else (some f, (e, false))

abbrev one_entry : FreeList
one_entry = record {
  Carrier = Option SpaceEntry;
  push = λ tid e l. some e;
  get = λ tid size e l. get_one size e l;
}

-- The second segment is nearly used up.
abbrev nearly_full : Allocator one_entry
nearly_full = record {
  block_size = 64;
  segment_size = 256;
  pmem_size = 512;
  offset_head = 512;
  global_allocated = 0;
  num_caches = 1;
  caches = λ i. record {
    free_entry = no_space;
    segment_entry = record { offset = 448; size = 64 };
    allocated = 0;
  };
  free_list = none;
  record_size = λ o. 0;
}

overflow_keeps_segment_example :
    (b : Allocator one_entry) × (allocate_loop 1 0 128 nearly_full ≡ some (b, no_space))
    × (b.free_list ≡ some (record { offset = 448; size = 64 }))
    × ((cache_of b 0).segment_entry ≡ record { offset = 448; size = 64 })
overflow_keeps_segment_example =
    overflow_keeps_segment 0 128 nearly_full (omega arith) (omega arith) refl refl refl
