-- ===== src/ListCollection/PopN/Taken.antt =====
-- The first elements of a list, and the order from its front or from its back.
use mathlib.Core.List.{reverse, reverse-cons}
use kvdk.Prelude.{
  ℕ, suc, zero, ◌≤◌, ◌≡◌, refl, ap, ◌∙◌, List, [], ◌∷◌, ◌++◌, length, length-append, Bool, true,
  false, arith, some, get_elem?,
}

module _ {ℓ} {A : Type ℓ} where
  abbrev pub take : ℕ → List A → List A
  take zero xs = []
  take (suc n) [] = []
  take (suc n) (x ∷ xs) = x ∷ take n xs

  abbrev pub drop : ℕ → List A → List A
  drop zero xs = xs
  drop (suc n) [] = []
  drop (suc n) (x ∷ xs) = drop n xs

  pub take-nil : (n : ℕ) → take n [] ≡ []
  take-nil zero = refl
  take-nil (suc n) = refl

  pub drop-length-take : (n : ℕ) (xs : List A) → drop (length (take n xs)) xs ≡ drop n xs
  drop-length-take zero xs = refl
  drop-length-take (suc n) [] = refl
  drop-length-take (suc n) (x ∷ xs) = drop-length-take n xs

  pub length-take :
      (n : ℕ) (xs : List A) → (length (take n xs) ≤ n) × (length (take n xs) ≤ length xs)
  length-take zero xs = (omega arith, omega arith)
  length-take (suc n) [] = (omega arith, omega arith)
  length-take (suc n) (x ∷ xs) =
      let (a, b) = length-take n xs in (omega (arith, a, b), omega (arith, a, b))

  -- In the order in which the pops go.
  abbrev pub ordered : (to_front : Bool) → List A → List A
  ordered true xs = xs
  ordered false xs = reverse xs

  pub get_elem?-append :
      (xs ys : List A) (y : A) (i : ℕ) → length xs ≡ i → get_elem? (xs ++ y ∷ ys) i ≡ some y
  get_elem?-append [] ys y zero e = refl
  get_elem?-append [] ys y (suc i) e = absurd (omega arith)
  get_elem?-append (x ∷ xs) ys y zero e = absurd (omega arith)
  get_elem?-append (x ∷ xs) ys y (suc i) e = get_elem?-append xs ys y i (omega arith)

  pub length-reverse : (xs : List A) → length (reverse xs) ≡ length xs
  length-reverse [] = refl
  length-reverse (x ∷ xs) =
      ap length (reverse-cons x xs)
      ∙ length-append (reverse xs) (x ∷ [])
      ∙ omega (arith, length-reverse xs)

  pub length-ordered : (to_front : Bool) (xs : List A) → length (ordered to_front xs) ≡ length xs
  length-ordered true xs = refl
  length-ordered false xs = length-reverse xs
