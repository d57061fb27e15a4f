-- ===== src/Tests/Misc.antt =====
-- Locks, chunks, pending space and iterators.
use kvdk.Prelude.{
  Bool, true, not, ◌&&◌, ltb, ℕ, ◌+◌, ◌%◌, ◌≡◌, ◌||◌, refl, List, [], ◌∷◌, map, false, some, has,
  arith, ◌==◌, if◌then◌else◌,
}
use kvdk.DlList.{Pmem, DlRecord, RecordStatus, normal, SpaceEntry, null_offset}
use kvdk.DlList.Ring.{IsRing}
use kvdk.DlList.Iterator.{seek_to_first}
use kvdk.DlList.Iterator.Visible.{first_shown, seek_to_first-first_shown}
use kvdk.LockTable.{Locks, multi_lock, multi_unlock}
use kvdk.LockTable.Order.{multi_unlock-multi_lock}
use kvdk.Dram.{ThreadChunk}
use kvdk.Cleaner.{Pending, OldRecordsCleaner, try_global_clean}
use kvdk.Cleaner.Conserve.{number, number_all, spaces, try_global_clean-conserves}

-- Two of the hashes share a lock.
abbrev hashes : List ℕ
hashes = 9 ∷ 6 ∷ 1 ∷ []

abbrev none_held : Locks
none_held i = false

multi_unlock-multi_lock_example :
    (g : Locks) × (multi_lock 4 none_held hashes ≡ some g)
    × ((j : ℕ) → g j ≡ (has j (map (λ h. h % 4) hashes) || none_held j))
    × ((j : ℕ) → multi_unlock 4 g hashes j ≡ none_held j)
multi_unlock-multi_lock_example =
    multi_unlock-multi_lock 4 none_held hashes (omega arith) (λ j there. refl)

abbrev next_chunk : ℕ
next_chunk = 8192

abbrev chunk : ThreadChunk
chunk = record { chunk_addr = 4096; usable_bytes = 100; allocated_chunks = 4096 ∷ [] }

abbrev space : SpaceEntry
space = record { offset = 64; size = 64 }

abbrev cleaner : OldRecordsCleaner
cleaner = record {
  caches = (record { entry = space; release_time = 3 } ∷ []) ∷ [];
  global_pending = record { entry = space; release_time = 8 } ∷ [];
}

abbrev any_space : SpaceEntry → Bool
any_space e = e.offset == 64

abbrev any_pending : Pending → Bool
any_pending p = p.entry.size == 64

try_global_clean-conserves_example :
    (spaces any_space (try_global_clean cleaner 5).free_entries
        + number (λ p. any_space p.entry) (try_global_clean cleaner 5).cleaner.global_pending
      ≡ number_all (λ p. any_space p.entry) cleaner.caches
        + number (λ p. any_space p.entry) cleaner.global_pending)
    × (number
          (λ p. not (ltb p.release_time 5) && any_pending p)
          (try_global_clean cleaner 5).cleaner.global_pending
        ≡ number_all (λ p. not (ltb p.release_time 5) && any_pending p) cleaner.caches
          + number (λ p. not (ltb p.release_time 5) && any_pending p) cleaner.global_pending)
    × (number_all (λ p. true) (try_global_clean cleaner 5).cleaner.caches ≡ 0)
try_global_clean-conserves_example = try_global_clean-conserves cleaner 5 any_space any_pending

abbrev element : (type timestamp old_version prev next : ℕ) → RecordStatus → DlRecord
element t ts o p n s = record {
  record_size = 64;
  type = t;
  status = s;
  timestamp = ts;
  old_version = o;
  prev = p;
  next = n;
  expired_time = 0;
  key = [];
  value = [];
}

-- The header 0, a record 1 that was written after the snapshot, over the version 2.
abbrev memory : Pmem
memory i =
    if i == 0
    then element 2 1 null_offset 1 1 normal
    else (if i == 1 then element 4 9 2 0 0 normal else element 4 3 null_offset 0 0 normal)

abbrev olds : ℕ → List ℕ
olds i = 2 ∷ []

memory-IsRing : IsRing memory 0 (1 ∷ [])
memory-IsRing = record { seg = ((refl, refl), (refl, refl)); distinct = (refl, (refl, tt)) }

seek_to_first-first_shown_example :
    seek_to_first 64 memory 5 3 2 0 ≡ some (some (first_shown 64 memory 5 olds 0 (1 ∷ [])))
seek_to_first-first_shown_example =
    seek_to_first-first_shown 64 memory 5 olds 2 0 (1 ∷ []) memory-IsRing
      ((refl, (refl, (omega arith, omega arith), refl), omega arith), tt) refl
