-- ===== src/Tests/Space.antt =====
-- A byte map of eight blocks.
use kvdk.Prelude.{[], ◌≡◌, ◌⊎◌, ◌≢◌, true, false, arith}
use kvdk.Space.Token.{clear}
use kvdk.Space.Pool.{SpaceEntryPool}
use kvdk.Space.Map.{SpaceMap, set, test, test_and_clear, try_merge}
use kvdk.Space.Map.Take.{test_and_clear-test, IsTaken}
use kvdk.Space.Map.Merging.{try_merge-IsMerged, IsMerged}

abbrev blank : SpaceMap
blank = record { size = 8; token = λ j. clear }

-- Two entries, one behind the other.
abbrev two : SpaceMap
two = set (set blank 0 2) 2 3

test_and_clear-test_example :
    ((test two 2 ≡ 3)
      × ((test_and_clear two 2 3).1 ≡ true)
      × IsTaken two (test_and_clear two 2 3).0 2 3)
    ⊎ ((test two 2 ≢ 3) × (test_and_clear two 2 3 ≡ (two, false)))
test_and_clear-test_example = test_and_clear-test two 2 3 (omega arith)

try_merge-IsMerged_example :
    ((test two 0 ≡ 2) × IsMerged two (try_merge two 0 2 8).0 0 2 8 (try_merge two 0 2 8).1)
    ⊎ ((test two 0 ≢ 2) × (try_merge two 0 2 8 ≡ (two, 0)))
unfolding set
try_merge-IsMerged_example = try_merge-IsMerged two 0 2 8 (omega arith) (omega arith)

abbrev pool : SpaceEntryPool
pool = record { small_entry_pool = λ b. []; large_entry_pool = λ i. [] }
