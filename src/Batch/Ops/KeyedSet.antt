-- ===== src/Batch/Ops/KeyedSet.antt =====
-- std::unordered_set under an equality of keys, as a list whose order means nothing.
use kvdk.Prelude.{
  ◌+◌, ◌≤◌, ◌≡◌, List, [], ◌∷◌, length, arith, Option, none, some, Bool, true, false, ◌&&◌,
  if◌then◌else◌, ◌↔◌, ◌==◌,
}
use kvdk.Codec.Bytes.{Bytes}

-- The comparison of two std::string.
unfoldable pub bytes_eq : Bytes → Bytes → Bool
bytes_eq [] [] = true
bytes_eq [] (y ∷ ys) = false
bytes_eq (x ∷ xs) [] = false
bytes_eq (x ∷ xs) (y ∷ ys) = (x == y) && bytes_eq xs ys

pub bytes_eq_iff : (xs ys : Bytes) → (bytes_eq xs ys ≡ true) ↔ (xs ≡ ys)
unfolding bytes_eq
bytes_eq_iff [] [] = ground arith
bytes_eq_iff [] (y ∷ ys) = ground arith
bytes_eq_iff (x ∷ xs) [] = ground arith
bytes_eq_iff (x ∷ xs) (y ∷ ys) = ground (arith, bytes_eq_iff xs ys)

module _ {A : Type 0} (same : A → A → Bool) where
  unfoldable pub find : A → List A → Option A
  find a [] = none
  find a (x ∷ xs) = if same x a then some x else find a xs

  unfoldable pub erase : A → List A → List A
  erase a [] = []
  erase a (x ∷ xs) = let rest = erase a xs in if same x a then rest else x ∷ rest

  -- An equal element is left in place.
  unfoldable pub insert : A → List A → List A
  insert a xs = elim (find a xs) [ none ↦ a ∷ xs | some _ ↦ xs ]

  unfoldable pub replace : A → List A → List A
  replace a xs = insert a (erase a xs)

-- The elements are compared by a key.
pub record ByKey {A : Type 0} (same : A → A → Bool) : Type 0 where
  pub reflexive : (a : A) → same a a ≡ true
  pub symmetric : (a b : A) → same a b ≡ same b a
  pub congruent : (a b c : A) → same a b ≡ true → same a c ≡ same b c

module _ {A : Type 0} (same : A → A → Bool) (k : ByKey same) where
  find-erase :
      (a c : A) (xs : List A)
      → find same c (erase same a xs) ≡ (if same a c then none else find same c xs)
  unfolding find erase
  find-erase a c [] = ground arith
  find-erase a c (x ∷ xs) = ground (
    arith,
    find-erase a c xs,
    k.congruent x a c,
    k.symmetric x a,
    k.congruent a c x,
    k.symmetric c x,
    k.congruent x c a,
    k.symmetric c a,
  )

  replace-cons : (a : A) (xs : List A) → replace same a xs ≡ a ∷ erase same a xs
  unfolding replace insert
  replace-cons a xs =
      let gone : find same a (erase same a xs) ≡ none =
        ground (arith, find-erase a a xs, k.reflexive a) in
      rw (gone, insert)

  -- Looking up after a replacement.
  pub find-replace :
      (a c : A) (xs : List A)
      → find same c (replace same a xs) ≡ (if same a c then some a else find same c xs)
  unfolding find
  find-replace a c xs = rw replace-cons (ground (arith, find-erase a c xs))

  length-erase : (a : A) (xs : List A) → length (erase same a xs) ≤ length xs
  unfolding erase
  length-erase a [] = omega arith
  length-erase a (x ∷ xs) = ground (arith, length-erase a xs)

  pub length-replace : (a : A) (xs : List A) → length (replace same a xs) ≤ length xs + 1
  length-replace a xs = rw replace-cons (omega (arith, length-erase a xs))
