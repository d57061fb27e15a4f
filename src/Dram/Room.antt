-- ===== src/Dram/Room.antt =====
-- What a request gets of a chunk.
use kvdk.Prelude.{
  eq→==, ne→==, lt→ltb, inl, inr, lt-cases, le→ltb, ℕ, ◌+◌, ◌≤◌, ◌<◌, ◌≡◌, ◌⊎◌, refl, arith,
}
use kvdk.Dram.{ThreadChunk, chunk_size, nothing, serve, allocate_dram}

-- A request of at most one chunk gets just its size, from the front of what is usable of the old or
-- of a new chunk, and the rest stays usable; or no chunk could be had, and nothing has changed.
pub allocate_dram_lem :
    (tc : ThreadChunk) (size addr : ℕ)
    → size ≤ chunk_size
    → (((allocate_dram tc size addr).1.size ≡ size)
        × (((allocate_dram tc size addr).1.offset ≡ tc.chunk_addr)
            ⊎ ((allocate_dram tc size addr).1.offset ≡ addr))
        × ((allocate_dram tc size addr).0.chunk_addr ≡ (allocate_dram tc size addr).1.offset + size)
        × (((allocate_dram tc size addr).0.usable_bytes + size ≡ tc.usable_bytes)
            ⊎ ((allocate_dram tc size addr).0.usable_bytes + size ≡ chunk_size)))
      ⊎ ((addr ≡ 0) × (allocate_dram tc size addr ≡ (tc, nothing)))
unfolding allocate_dram serve
allocate_dram_lem tc size addr le =
    rw (le→ltb chunk_size size le) (elim (lt-cases tc.usable_bytes size) [
      | inr room ↦
          rw (le→ltb tc.usable_bytes size room) (inl (refl, inl refl, refl, inl (omega arith)))
      | inl full ↦ rw (lt→ltb tc.usable_bytes size full) (elim (lt-cases 0 addr) [
        | inl got ↦ rw (ne→== addr 0 (omega arith)) (inl (refl, inr refl, refl, inr (omega arith)))
        | inr failed ↦ rw (eq→== addr 0 (omega arith)) (inr (omega arith, refl))
      ])
    ])

-- A request of more than one chunk gets an entry that is smaller than what was asked for.
pub allocate_dram_large :
    (tc : ThreadChunk) (size addr : ℕ)
    → chunk_size < size
    → (allocate_dram tc size addr).1.size < size
unfolding allocate_dram
allocate_dram_large tc size addr lt = ground arith
