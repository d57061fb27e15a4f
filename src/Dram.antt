-- ===== src/Dram.antt =====
-- engine/dram_allocator.hpp and dram_allocator.cpp: allocation in DRAM from chunks. What
-- aligned_alloc returns is an argument of the call, 0 where it fails.
pub mod Room
use kvdk.Prelude.{ℕ, ◌+◌, ◌-◌, ◌^◌, List, [], ◌∷◌, ◌==◌, ltb, if◌then◌else◌}
use kvdk.DlList.{SpaceEntry}

abbrev pub chunk_size : ℕ
chunk_size = 2 ^ 20

-- DAllocThreadCache
pub record ThreadChunk : Type 0 where
  pub chunk_addr : ℕ
  pub usable_bytes : ℕ
  pub allocated_chunks : List ℕ

-- The default entry; its offset is not initialised in the source.
abbrev pub nothing : SpaceEntry
nothing = record { offset = 0; size = 0 }

-- The chunk that the request is served from.
unfoldable pub serve : ThreadChunk → (size : ℕ) → ThreadChunk × SpaceEntry
serve tc size = (
  record tc { chunk_addr = tc.chunk_addr + size; usable_bytes = tc.usable_bytes - size },
  record { offset = tc.chunk_addr; size = size },
)

abbrev pub new_chunk : ThreadChunk → (addr : ℕ) → ThreadChunk
new_chunk tc addr = record {
  chunk_addr = addr;
  usable_bytes = chunk_size;
  allocated_chunks = addr ∷ tc.allocated_chunks;
}

unfoldable pub allocate_dram : ThreadChunk → (size addr : ℕ) → ThreadChunk × SpaceEntry
unfolding serve
allocate_dram tc size addr =
    if ltb chunk_size size
    then (if addr == 0 then (tc, nothing) else (
      record tc { allocated_chunks = addr ∷ tc.allocated_chunks },
      record { offset = addr; size = chunk_size },
    ))
    else (if ltb tc.usable_bytes size
        then (if addr == 0 then (tc, nothing) else serve (new_chunk tc addr) size)
        else serve tc size)
