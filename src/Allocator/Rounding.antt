-- ===== src/Allocator/Rounding.antt =====
-- The size that Allocate takes for a requested one.
use kvdk.Prelude.{zero, suc, ◌==◌, if◌then◌else◌, ℕ, ◌≤◌, ◌<◌, ◌≡◌, arith, ◌+◌, ◌*◌, ◌/◌, ◌%◌, ◌^◌}
use native.Mathlib.Nat.{
  suc-mul, mod-eq_of_lt, mod-add-div, mod-lt, mul_comm, mul-add, mul-mod_left, suc-mul,
  mod-eq_of_lt,
}
use kvdk.Allocator.{size_2_block_size, table_entry, aligned_size, Allocator, FreeList}

abbrev rounded : (b d : ℕ) → ℕ
rounded b d = d / b + (if (d % b) == 0 then 0 else 1)

-- The quotient and the remainder, as products of variables.
up : (b q r d : ℕ) → r + b * q ≡ d → r < b → d ≤ (q + (if r == 0 then 0 else 1)) * b
up b q zero d e l = omega (arith, mul_comm b q)
up b q (suc r) d e l = grind (arith, mul_comm b q, mul_comm b (q + 1), mul-add b q 1)

tight : (b q r d : ℕ) → r + b * q ≡ d → r < b → (q + (if r == 0 then 0 else 1)) * b < d + b
tight b q zero d e l = omega (arith, mul_comm b q)
tight b q (suc r) d e l = grind (arith, mul_comm b q, mul_comm b (q + 1), mul-add b q 1)

few : (b q r d : ℕ) → r + b * q ≡ d → 0 < b → q + (if r == 0 then 0 else 1) ≤ d
few zero q r d e pos = omega arith
few (suc b) q zero d e pos = omega (arith, suc-mul b q)
few (suc b) q (suc r) d e pos = grind (arith, suc-mul b q)

size_2_block_size-rounded : (b d : ℕ) → 0 < b → d < 2 ^ 32 → size_2_block_size b d ≡ rounded b d
unfolding size_2_block_size table_entry
size_2_block_size-rounded b d pos small =
    ground (arith, few b (d / b) (d % b) d (mod-add-div d b) pos)

-- Allocate rounds a size up to whole blocks, and up by less than one block, if a block has a byte and
-- the rounded size fits in 32 bits.
pub aligned_size-rounds :
    {F : FreeList} (a : Allocator F) (size : ℕ)
    → 0 < a.block_size
    → size + a.block_size ≤ 2 ^ 32
    → (size ≤ aligned_size a size)
      × (aligned_size a size < size + a.block_size)
      × (aligned_size a size % a.block_size ≡ 0)
aligned_size-rounds a size pos fits =
    let b = a.block_size in
    let e = size_2_block_size-rounded b size pos (omega arith) in
    let l = tight b (size / b) (size % b) size (mod-add-div size b) (mod-lt size pos) in
    let u = up b (size / b) (size % b) size (mod-add-div size b) (mod-lt size pos) in
    rw (e, mod-eq_of_lt {n = rounded b size * b} {m = 2 ^ 32} (omega (arith, l)))
      (u, l, mul-mod_left (rounded b size) b)
