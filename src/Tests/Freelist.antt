-- ===== src/Tests/Freelist.antt =====
-- A free list over a map of sixteen blocks of 64 bytes, for two threads.
use kvdk.Prelude.{◌+◌, ◌+◌, ℕ, ◌≤◌, ◌<◌, ◌%◌, ◌≡◌, refl, true, arith, List, [], ◌∷◌}
use kvdk.DlList.{SpaceEntry}
use kvdk.Space.Token.{clear, make, size_of, is_start, is_empty}
use kvdk.Space.Map.{SpaceMap, set, test_and_clear}
use kvdk.Space.Pool.{try_fetch_entry_list}
use kvdk.Allocator.{Allocator, allocate, no_space, size_2_block_size, table_entry}
use kvdk.Allocator.Fits.{IsAllocation, allocate-IsAllocation}
use kvdk.Freelist.{Config, get}
use kvdk.Freelist.Fits.{free_list, free_list-GetFits}
use kvdk.Freelist.Get.{GetOutcome}
use kvdk.Freelist.Calls.{Call, run, empty_list, get-run}

abbrev blocks_of_64 : Config
blocks_of_64 = record {
  num_segment_blocks = 8;
  block_size = 64;
  max_small_entry_block_size = 4;
  max_block_size_index = 1;
  num_caches = 2;
}

abbrev sixteen : SpaceMap
sixteen = record { size = 16; token = λ j. clear }

abbrev two_blocks : SpaceEntry
two_blocks = record { offset = 0; size = 128 }

abbrev five_blocks : SpaceEntry
five_blocks = record { offset = 128; size = 320 }

-- A small and a large entry are pushed, the caches are moved to the pool, and one entry is taken.
abbrev busy : List Call
busy =
    Call.push_call 0 two_blocks
    ∷ (Call.push_call 1 five_blocks
        ∷ (Call.organize_call (λ o. 0) ∷ (Call.get_call 1 192 no_space ∷ [])))

get-run_example :
    GetOutcome blocks_of_64 1 64
      (run blocks_of_64 busy (empty_list sixteen))
      (get blocks_of_64 1 64 no_space (run blocks_of_64 busy (empty_list sixteen)))
get-run_example =
    get-run blocks_of_64 busy sixteen 1 64 no_space (omega arith) (omega arith) (omega arith)

small_entry_given :
    (get blocks_of_64 0 64 no_space
      (run blocks_of_64 (Call.push_call 0 two_blocks ∷ []) (empty_list sixteen))).1
    ≡ (two_blocks, true)
unfolding get run empty_list test_and_clear set make size_of is_start is_empty try_fetch_entry_list
small_entry_given = refl

-- The second segment is nearly used up.
abbrev nearly_full : Allocator (free_list blocks_of_64)
nearly_full = record {
  block_size = 64;
  segment_size = 512;
  pmem_size = 1024;
  offset_head = 1024;
  global_allocated = 0;
  num_caches = 1;
  caches = λ i. record {
    free_entry = no_space;
    segment_entry = record { offset = 960; size = 64 };
    allocated = 0;
  };
  free_list = run blocks_of_64 busy (empty_list sixteen);
  record_size = λ o. 0;
}

allocate-IsAllocation_example :
    (s : ℕ) × (100 ≤ s)
    × (s < 100 + nearly_full.block_size)
    × (s % nearly_full.block_size ≡ 0)
    × IsAllocation 0 s nearly_full (allocate 2 0 100 nearly_full)
unfolding size_2_block_size table_entry
allocate-IsAllocation_example =
    allocate-IsAllocation 0 100 nearly_full (omega arith) (omega arith)
      (free_list-GetFits blocks_of_64 128 (omega arith)) (omega arith)
