-- ===== src/Prelude/Tables.antt =====
-- Arrays and memories as functions of an index.
use Prim.Native.Nat.{ℕ}
use kvdk.Prelude.Tests.{◌==◌, if◌then◌else◌}

-- A write to one cell.
abbrev pub update {ℓ} : {A : Type ℓ} → (ℕ → A) → ℕ → A → ℕ → A
update f i v j = if j == i then v else f j
