-- ===== src/Codec/Bytes.antt =====
-- The bytes of an unsigned number in memory.
use kvdk.Prelude.{
  ℕ, zero, suc, ◌+◌, ◌*◌, ◌/◌, ◌%◌, ◌^◌, ◌<◌, ◌≡◌, refl, List, [], ◌∷◌, ◌++◌, length, arith, ap,
}
use native.Mathlib.Nat.{pow-suc}

-- A byte is a number below 256.
abbrev pub Bytes : Type 0
Bytes = List ℕ

-- The first `k` bytes of `v`, the lowest first.
unfoldable pub to_bytes : ℕ → ℕ → Bytes
to_bytes zero v = []
to_bytes (suc k) v = (v % 256) ∷ to_bytes k (v / 256)

unfoldable pub from_bytes : Bytes → ℕ
from_bytes [] = 0
from_bytes (b ∷ bs) = b + 256 * from_bytes bs

pub length-to_bytes : (k v : ℕ) → length (to_bytes k v) ≡ k
unfolding to_bytes
length-to_bytes zero v = refl
length-to_bytes (suc k) v = ap suc (length-to_bytes k (v / 256))

pub from_bytes-to_bytes : (k v : ℕ) → v < 256 ^ k → from_bytes (to_bytes k v) ≡ v
unfolding to_bytes from_bytes
from_bytes-to_bytes zero v h = omega arith
from_bytes-to_bytes (suc k) v h =
    let bound : v < 256 ^ k * 256 = rw (← pow-suc 256 k) h in
    omega (arith, from_bytes-to_bytes k (v / 256) (omega arith))

-- The first `n` bytes and the rest, if there are as many.
unfoldable pub split : ℕ → Bytes → Bytes × Bytes
split zero bs = ([], bs)
split (suc n) [] = ([], [])
split (suc n) (b ∷ bs) = let (l, r) = split n bs in (b ∷ l, r)

pub split-append : (xs ys : Bytes) → split (length xs) (xs ++ ys) ≡ (xs, ys)
unfolding split
split-append [] ys = refl
split-append (x ∷ xs) ys = rw (split-append xs ys)

pub split-append_exact : (n : ℕ) (xs ys : Bytes) → length xs ≡ n → split n (xs ++ ys) ≡ (xs, ys)
split-append_exact n xs ys h = rw (← h) (split-append xs ys)
