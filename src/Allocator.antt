-- ===== src/Allocator.antt =====
-- engine/pmem_allocator/pmem_allocator.hpp and pmem_allocator.cpp: the allocator over the free list.
-- A call is one step of its thread, on the allocator's state and the sizes in the record headers on
-- PMem. The counters are 64-bit two's complement, kept modulo 2 ^ 64. The free list is an interface:
-- `get` is given what its result parameter holds before the call, and gives what it holds after.
pub mod Usage
pub mod Fits
pub mod Overflow
pub mod Rounding
use kvdk.Prelude.{
  ℕ, zero, suc, ◌+◌, ◌-◌, ◌*◌, ◌/◌, ◌%◌, ◌^◌, Option, none, some, Bool, true, false, not, ◌&&◌,
  ◌==◌, ltb, leb, if◌then◌else◌, update,
}
use kvdk.DlList.{SpaceEntry}

-- Freelist
pub record FreeList : Type 1 where
  pub Carrier : Type 0
  pub push : (tid : ℕ) → SpaceEntry → Carrier → Carrier
  pub get : (tid size : ℕ) → SpaceEntry → Carrier → Carrier × (SpaceEntry × Bool)

-- PAllocThreadCache
pub record Cache : Type 0 where
  pub free_entry : SpaceEntry
  pub segment_entry : SpaceEntry
  pub allocated : ℕ

pub record Allocator (F : FreeList) : Type 0 where
  pub block_size : ℕ
  pub segment_size : ℕ
  pub pmem_size : ℕ
  pub offset_head : ℕ
  pub global_allocated : ℕ
  pub num_caches : ℕ
  pub caches : ℕ → Cache
  pub free_list : F.Carrier
  pub record_size : ℕ → ℕ

abbrev pub no_space : SpaceEntry
no_space = record { offset = 0; size = 0 }

abbrev pub add64 : ℕ → ℕ → ℕ
add64 a b = (a + b) % 2 ^ 64

abbrev pub sub64 : ℕ → ℕ → ℕ
sub64 a b = (a + (2 ^ 64 - b % 2 ^ 64)) % 2 ^ 64

-- The entry of the table for short data is a 16-bit number.
unfoldable pub table_entry : (block_size i : ℕ) → ℕ
table_entry b i = (i / b + (if (i % b) == 0 then 0 else 1)) % 2 ^ 16

unfoldable pub size_2_block_size : (block_size data_size : ℕ) → ℕ
size_2_block_size b size =
    let d = size % 2 ^ 32 in
    if ltb d 4096 then table_entry b d else (d / b + (if (d % b) == 0 then 0 else 1)) % 2 ^ 32

-- The front of an entry, and the rest of it.
abbrev pub front : SpaceEntry → (size : ℕ) → SpaceEntry
front e s = record e { size = s }

abbrev pub rest : SpaceEntry → (size : ℕ) → SpaceEntry
rest e s = record { offset = add64 e.offset s; size = e.size - s }

module _ {F : FreeList} where
  abbrev pub slot : Allocator F → (tid : ℕ) → ℕ
  slot a tid = tid % a.num_caches

  abbrev pub cache_of : Allocator F → (tid : ℕ) → Cache
  cache_of a tid = a.caches (tid % a.num_caches)

  abbrev pub set_cache : Allocator F → (tid : ℕ) → Cache → Allocator F
  set_cache a tid c = record a { caches = update a.caches (tid % a.num_caches) c }

  -- Of a thread; the caller of FetchSegment counts globally.
  unfoldable pub log_allocation : (tid size : ℕ) → Allocator F → Allocator F
  log_allocation tid size a =
      let c = cache_of a tid in set_cache a tid (record c { allocated = add64 c.allocated size })

  unfoldable pub log_deallocation : (tid size : ℕ) → Allocator F → Allocator F
  log_deallocation tid size a =
      let c = cache_of a tid in set_cache a tid (record c { allocated = sub64 c.allocated size })

  unfoldable pub free : (tid : ℕ) → SpaceEntry → Allocator F → Allocator F
  unfolding log_deallocation
  free tid e a =
      if ltb 0 e.size
      then log_deallocation tid e.size (record a { free_list = F.push tid e a.free_list })
      else a

  abbrev pub persist_space_entry : (offset size : ℕ) → Allocator F → Allocator F
  persist_space_entry o s a = record a { record_size = update a.record_size o (s % 2 ^ 32) }

  -- No segment is left if the head is past the last place for one.
  abbrev pub has_segment : Allocator F → Bool
  has_segment a = leb a.offset_head (sub64 a.pmem_size a.segment_size)

  abbrev pub next_segment : Allocator F → SpaceEntry
  next_segment a = record { offset = a.offset_head; size = a.segment_size }

  unfoldable pub fetch_segment : Allocator F → Allocator F × Option SpaceEntry
  fetch_segment a =
      if has_segment a
        && (ltb a.offset_head a.pmem_size && not ((a.record_size a.offset_head) == 0))
      then (
        record a {
          offset_head = add64 a.offset_head a.segment_size;
          global_allocated = add64 a.global_allocated a.segment_size;
        },
        some (next_segment a),
      )
      else (a, none)

  -- The segment goes to the calling thread's cache.
  unfoldable pub allocate_segment_space : (tid : ℕ) → Allocator F → Allocator F × Bool
  allocate_segment_space tid a =
      if has_segment a
      then (
        persist_space_entry a.offset_head a.segment_size
            (record (set_cache a tid (record (cache_of a tid) { segment_entry = next_segment a })) {
              offset_head = add64 a.offset_head a.segment_size;
            }),
        true,
      )
      else (a, false)

  -- The entry is cut from the cached free entry, the rest marked first.
  unfoldable pub take_free_entry : (tid size : ℕ) → Allocator F → Allocator F × SpaceEntry
  unfolding log_allocation
  take_free_entry tid s a =
      let c = cache_of a tid in
      let e = c.free_entry in
      let marked =
        if ltb 0 (e.size - s) then persist_space_entry (add64 e.offset s) (e.size - s) a else a in
      let cut =
        if (marked.record_size e.offset) == s
        then marked
        else persist_space_entry e.offset s marked in
      (log_allocation tid s (set_cache cut tid (record c { free_entry = rest e s })), front e s)

  unfoldable pub take_segment : (tid size : ℕ) → Allocator F → Allocator F × SpaceEntry
  unfolding log_allocation
  take_segment tid s a =
      let c = cache_of a tid in
      let e = c.segment_entry in
      (
        log_allocation tid s (
            set_cache (persist_space_entry e.offset s a) tid
              (record c { segment_entry = rest e s })),
        front e s,
      )

  -- A free entry that is too small goes back; it was not handed out, so its size is counted first.
  unfoldable pub return_free_entry : (tid : ℕ) → Allocator F → Allocator F
  unfolding log_allocation free
  return_free_entry tid a =
      let e = (cache_of a tid).free_entry in
      if ltb 0 e.size
      then (let b = free tid e (log_allocation tid e.size a) in
          set_cache b tid (record (cache_of b tid) { free_entry = record e { size = 0 } }))
      else a

  unfoldable pub get_free_entry : (tid size : ℕ) → Allocator F → Allocator F × Bool
  get_free_entry tid s a =
      let c = cache_of a tid in
      let (l, (e, found)) = F.get tid s c.free_entry a.free_list in
      (set_cache (record a { free_list = l }) tid (record c { free_entry = e }), found)

  unfoldable pub return_segment : (tid : ℕ) → Allocator F → Allocator F
  unfolding log_allocation free
  return_segment tid a =
      let e = (cache_of a tid).segment_entry in free tid e (log_allocation tid e.size a)

  -- The loop of Allocate, and what follows it.
  unfoldable pub allocate_loop :
      (fuel tid size : ℕ) → Allocator F → Option (Allocator F × SpaceEntry)
  unfolding take_segment take_free_entry return_free_entry get_free_entry return_segment
      allocate_segment_space
  allocate_loop zero tid s a = none
  allocate_loop (suc f) tid s a =
      let got = get_free_entry tid s (return_free_entry tid a) in
      let fresh = allocate_segment_space tid (return_segment tid got.0) in
      let after_get = allocate_loop f tid s got.0 in
      let after_segment = allocate_loop f tid s fresh.0 in
      if ltb (cache_of a tid).segment_entry.size s
      then (if leb s (cache_of a tid).free_entry.size
          then some (take_free_entry tid s a)
          else (if got.1
              then after_get
              else (if fresh.1 then after_segment else some (fresh.0, no_space))))
      else some (take_segment tid s a)

  abbrev pub aligned_size : Allocator F → (size : ℕ) → ℕ
  aligned_size a size = (size_2_block_size a.block_size size * a.block_size) % 2 ^ 32

  unfoldable pub allocate : (fuel tid size : ℕ) → Allocator F → Option (Allocator F × SpaceEntry)
  unfolding allocate_loop
  allocate f tid size a =
      let s = aligned_size a size in
      if ltb a.segment_size s then some (a, no_space) else allocate_loop f tid s a

  -- The total over the first `n` threads, and over all.
  unfoldable pub usage : (n : ℕ) → Allocator F → ℕ
  usage zero a = 0
  usage (suc n) a = add64 (usage n a) (a.caches n).allocated

  unfoldable pub pmem_usage_in_bytes : Allocator F → ℕ
  unfolding usage
  pmem_usage_in_bytes a = add64 (usage a.num_caches a) a.global_allocated
