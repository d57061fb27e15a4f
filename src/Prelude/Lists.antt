-- ===== src/Prelude/Lists.antt =====
-- Lists measured by native numbers, and a predicate on every element.
use Prim.Native.Nat.{ℕ, zero, suc, ◌+◌}
use mathlib.Core.Path.{◌≡◌, refl, ap}
use mathlib.Core.Option.{Option, none, some}
use mathlib.Core.Bool.{Bool, true, false, ◌||◌}
use kvdk.Prelude.Tests.{◌==◌}
use mathlib.Core.List.{map, List, [], ◌∷◌, ◌++◌}
use native.Mathlib.Omega.{arith}

module _ {ℓ} {A : Type ℓ} where
  abbrev pub length : List A → ℕ
  length [] = 0
  length (x ∷ xs) = suc (length xs)

  pub length-append : (xs ys : List A) → length (xs ++ ys) ≡ length xs + length ys
  length-append [] ys = omega arith
  length-append (x ∷ xs) ys = omega (arith, length-append xs ys)

module _ {ℓ κ} {A : Type ℓ} where
  abbrev pub All : (A → Type κ) → List A → Type κ
  All P [] = Unit
  All P (x ∷ xs) = P x × All P xs

  pub All-append : (P : A → Type κ) (xs ys : List A) → All P xs → All P ys → All P (xs ++ ys)
  All-append P [] ys hx hy = hy
  All-append P (x ∷ xs) ys hx hy = (hx.0, All-append P xs ys hx.1 hy)

module _ {ℓ} {A : Type ℓ} where
  -- A write out of bounds changes nothing.
  abbrev pub set : List A → ℕ → A → List A
  set [] i v = []
  set (x ∷ xs) zero v = v ∷ xs
  set (x ∷ xs) (suc i) v = x ∷ set xs i v

  -- The element at an index, or a default out of bounds.
  abbrev pub get_or : List A → ℕ → A → A
  get_or [] i d = d
  get_or (x ∷ xs) zero d = x
  get_or (x ∷ xs) (suc i) d = get_or xs i d

  pub All-set {κ} :
      (P : A → Type κ) (xs : List A) (i : ℕ) (v : A) → All P xs → P v → All P (set xs i v)
  All-set P [] i v h p = h
  All-set P (x ∷ xs) zero v h p = (p, h.1)
  All-set P (x ∷ xs) (suc i) v h p = (h.0, All-set P xs i v h.1 p)

-- The list holds the number.
abbrev pub has : ℕ → List ℕ → Bool
has j [] = false
has j (i ∷ is) = (j == i) || has j is

pub has-append : (j : ℕ) (xs ys : List ℕ) → has j (xs ++ ys) ≡ (has j xs || has j ys)
has-append j [] ys = refl
has-append j (x ∷ xs) ys = ground (arith, has-append j xs ys)

-- No number stands twice.
abbrev pub Distinct : List ℕ → Type 0
Distinct [] = Unit {0}
Distinct (x ∷ xs) = (has x xs ≡ false) × Distinct xs

-- Two lists share no number.
abbrev pub Apart : List ℕ → List ℕ → Type 0
Apart [] ys = Unit {0}
Apart (x ∷ xs) ys = (has x ys ≡ false) × Apart xs ys

pub Distinct-append :
    (xs ys : List ℕ) → Distinct xs → Distinct ys → Apart xs ys → Distinct (xs ++ ys)
Distinct-append [] ys dx dy a = dy
Distinct-append (x ∷ xs) ys dx dy a =
    (ground (arith, has-append x xs ys), Distinct-append xs ys dx.1 dy a.1)

pub Distinct-split :
    (xs ys : List ℕ) → Distinct (xs ++ ys) → Distinct xs × Distinct ys × Apart xs ys
Distinct-split [] ys d = (tt, d, tt)
Distinct-split (x ∷ xs) ys d =
    let (dx, dy, a) = Distinct-split xs ys d.1 in
    let out = has-append x xs ys in ((ground arith, dx), dy, (ground arith, a))

Apart-nil : (ys : List ℕ) → Apart ys []
Apart-nil [] = tt
Apart-nil (y ∷ ys) = (refl, Apart-nil ys)

Apart-cons : (x : ℕ) (ys xs : List ℕ) → has x ys ≡ false → Apart ys xs → Apart ys (x ∷ xs)
Apart-cons x [] xs h a = tt
Apart-cons x (y ∷ ys) xs h a = (ground arith, Apart-cons x ys xs (ground arith) a.1)

pub Apart-symm : (xs ys : List ℕ) → Apart xs ys → Apart ys xs
Apart-symm [] ys a = Apart-nil ys
Apart-symm (x ∷ xs) ys a = Apart-cons x ys xs a.0 (Apart-symm xs ys a.1)

-- A rotation.
pub Distinct-swap : (xs ys : List ℕ) → Distinct (xs ++ ys) → Distinct (ys ++ xs)
Distinct-swap xs ys d =
    let (dx, dy, a) = Distinct-split xs ys d in Distinct-append ys xs dy dx (Apart-symm xs ys a)

pub has_ne : (i j : ℕ) (xs : List ℕ) → has i xs ≡ true → has j xs ≡ false → (i == j) ≡ false
has_ne i j [] h k = ground arith
has_ne i j (x ∷ xs) h k = ground (arith, has_ne i j xs)

module _ {ℓ} {A : Type ℓ} where
  abbrev pub get_elem? : List A → ℕ → Option A
  get_elem? [] i = none
  get_elem? (x ∷ xs) zero = some x
  get_elem? (x ∷ xs) (suc i) = get_elem? xs i

  -- An element more in front of the one at an index, or at the end.
  abbrev pub insert_idx : List A → ℕ → A → List A
  insert_idx [] i v = v ∷ []
  insert_idx (x ∷ xs) zero v = v ∷ (x ∷ xs)
  insert_idx (x ∷ xs) (suc i) v = x ∷ insert_idx xs i v

  abbrev pub erase_idx : List A → ℕ → List A
  erase_idx [] i = []
  erase_idx (x ∷ xs) zero = xs
  erase_idx (x ∷ xs) (suc i) = x ∷ erase_idx xs i

  pub insert_idx-append :
      (xs ys : List A) (i : ℕ) (v : A) → length xs ≡ i → insert_idx (xs ++ ys) i v ≡ xs ++ v ∷ ys
  insert_idx-append [] [] zero v e = refl
  insert_idx-append [] (y ∷ ys) zero v e = refl
  insert_idx-append [] ys (suc i) v e = absurd (omega arith)
  insert_idx-append (x ∷ xs) ys zero v e = absurd (omega arith)
  insert_idx-append (x ∷ xs) ys (suc i) v e = ap (◌∷◌ x) (insert_idx-append xs ys i v (omega arith))

  pub erase_idx-append :
      (xs ys : List A) (i : ℕ) (y : A) → length xs ≡ i → erase_idx (xs ++ y ∷ ys) i ≡ xs ++ ys
  erase_idx-append [] ys zero y e = refl
  erase_idx-append [] ys (suc i) y e = absurd (omega arith)
  erase_idx-append (x ∷ xs) ys zero y e = absurd (omega arith)
  erase_idx-append (x ∷ xs) ys (suc i) y e = ap (◌∷◌ x) (erase_idx-append xs ys i y (omega arith))

  pub set-append :
      (xs ys : List A) (i : ℕ) (y v : A) → length xs ≡ i → set (xs ++ y ∷ ys) i v ≡ xs ++ v ∷ ys
  set-append [] ys zero y v e = refl
  set-append [] ys (suc i) y v e = absurd (omega arith)
  set-append (x ∷ xs) ys zero y v e = absurd (omega arith)
  set-append (x ∷ xs) ys (suc i) y v e = ap (◌∷◌ x) (set-append xs ys i y v (omega arith))

pub length-map {ℓ κ} :
    {A : Type ℓ} {B : Type κ} (f : A → B) (xs : List A) → length (map f xs) ≡ length xs
length-map f [] = refl
length-map f (x ∷ xs) = omega (arith, length-map f xs)
