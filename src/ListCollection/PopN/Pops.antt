-- ===== src/ListCollection/PopN/Pops.antt =====
-- PreparePopN and PopN together, as operations on the list of elements.
use mathlib.Core.List.{map-append, reverse, reverse-cons}
use kvdk.Prelude.{
  ℕ, suc, zero, ◌+◌, ◌<◌, ◌≤◌, ◌≡◌, refl, sym, ap, subst, ◌∙◌, List, [], ◌∷◌, ◌++◌, length,
  length-map, map, All, Bool, false, true, arith, some, ◌==◌,
}
use kvdk.Codec.Bytes.{Bytes}
use kvdk.DlList.{SpaceEntry}
use kvdk.ListCollection.{ListCollection, ok}
use kvdk.ListCollection.Live.{IsList, values, values_of}
use kvdk.ListCollection.PopN.{PopNArgs, prepare_pop_n, pop_n, allocate_pops}
use kvdk.ListCollection.PopN.Erases.{erase_all, Unused, pop_all-Popped}
use kvdk.ListCollection.PopN.Taken.{
  take, drop, ordered, length-take, length-ordered, drop-length-take,
}
use kvdk.ListCollection.PopN.Order.{
  spaces_from, positions, start, IsAt, IsAt-start, allocate_pops-IsAt, erase_all-ordered,
}

map-take : (f : ℕ → Bytes) (n : ℕ) (xs : List ℕ) → map f (take n xs) ≡ take n (map f xs)
map-take f zero xs = refl
map-take f (suc n) [] = refl
map-take f (suc n) (x ∷ xs) = ap (◌∷◌ (f x)) (map-take f n xs)

map-reverse : (f : ℕ → Bytes) (xs : List ℕ) → map f (reverse xs) ≡ reverse (map f xs)
map-reverse f [] = refl
map-reverse f (x ∷ xs) =
    ap (map f) (reverse-cons x xs)
    ∙ map-append f (reverse xs) (x ∷ [])
    ∙ ap (λ zs. zs ++ f x ∷ []) (map-reverse f xs)
    ∙ sym (reverse-cons (f x) (map f xs))

map-ordered :
    (f : ℕ → Bytes) (to_front : Bool) (xs : List ℕ)
    → map f (ordered to_front xs) ≡ ordered to_front (map f xs)
map-ordered f true xs = refl
map-ordered f false xs = map-reverse f xs

All-fewer :
    (P : SpaceEntry → Type 0) (given : ℕ → SpaceEntry) (k m n : ℕ)
    → m ≤ n
    → All P (spaces_from given k n)
    → All P (spaces_from given k m)
All-fewer P given k zero n h a = tt
All-fewer P given k (suc m) zero h a = absurd (omega arith)
All-fewer P given k (suc m) (suc n) h a = (a.0, All-fewer P given (k + 1) m n (omega arith) a.1)

Unused-fewer :
    (given : ℕ → SpaceEntry) (k m n : ℕ) (records : List ℕ)
    → m ≤ n
    → Unused (spaces_from given k n) records
    → Unused (spaces_from given k m) records
Unused-fewer given k zero n records h u = tt
Unused-fewer given k (suc m) zero records h u = absurd (omega arith)
Unused-fewer given k (suc m) (suc n) records h u = (
  u.0,
  All-fewer (λ s. (s.offset == (given k).offset) ≡ false) given (k + 1) m n (omega arith) u.1,
  Unused-fewer given (k + 1) m n records (omega arith) u.2,
)

length-spaces_from :
    (given : ℕ → SpaceEntry) (to_front : Bool) (k i m : ℕ)
    → length (spaces_from given k m) ≡ length (positions to_front i m)
length-spaces_from given to_front k i zero = refl
length-spaces_from given to_front k i (suc m) =
    ap suc (length-spaces_from given to_front (k + 1) _ m)

-- What the two calls come to.
pub record Pops (l : ListCollection) (to_front : Bool) (n ts tries : ℕ) (given : ℕ → SpaceEntry)
    : Type 0 where
  pub args : PopNArgs
  pub elems : List Bytes
  pub prepared : prepare_pop_n to_front n ts given l ≡ some (args, elems, [])
  pub given_out : elems ≡ take n (ordered to_front (values l))
  pub after : ListCollection
  pub returned : pop_n tries args l ≡ some (after, ok)
  pub left : ordered to_front (values after) ≡ drop n (ordered to_front (values l))
  pub in_order : IsList after

allocated :
    (to_front : Bool) (n : ℕ) (given : ℕ → SpaceEntry) (l : ListCollection) (os : List ℕ)
    → IsAt to_front l.live_records os (start to_front (length l.live_records))
    → 0 < length os
    → ((j : ℕ) → j < n → 0 < (given j).size)
    → allocate_pops to_front n (start to_front (length l.live_records)) given 0 l
      ≡ some (record {
        overflow = false;
        spaces = spaces_from given 0 (length (take n os));
        to_pop = positions to_front (start to_front (length l.live_records)) (length (take n os));
        elems = values_of l.pmem (take n os);
      })
allocated to_front n given l [] a h room = absurd (omega arith)
allocated to_front n given l (x ∷ os) a h room =
    allocate_pops-IsAt to_front n _ given 0 l x os a (λ j i. room j (omega arith))

-- For a list with an element, and spaces for n records that are not used by it and stand apart from
-- each other, PreparePopN of n elements from either end reports Ok, gives nothing back to the
-- allocator, and gives out the first n elements from that end, or all if there are fewer; PopN of
-- its arguments then reports Ok and leaves the other elements in their order, in a list.
pub prepare_pop_n-Pops :
    (l : ListCollection) (v : IsList l) (to_front : Bool) (n ts tries : ℕ) (given : ℕ → SpaceEntry)
    → 0 < length (values l)
    → ((j : ℕ) → j < n → 0 < (given j).size)
    → Unused (spaces_from given 0 n) (l.header ∷ v.records)
    → Pops l to_front n ts (suc tries) given
unfolding prepare_pop_n pop_n
prepare_pop_n-Pops l v to_front n ts tries given h room u =
    let f : ℕ → Bytes = λ r. (l.pmem r).value in
    let counted = length-map f l.live_records in
    let os = ordered to_front l.live_records in
    let m = length (take n os) in
    let few = length-take n os in
    let same = length-ordered to_front l.live_records in
    let i = start to_front (length l.live_records) in
    let some_left : (length l.live_records == 0) ≡ false = ground arith in
    let out : map f (take n os) ≡ take n (ordered to_front (values l)) =
      map-take f n os ∙ ap (take n) (map-ordered f to_front l.live_records) in
    let as_many : m ≡ length (take n (ordered to_front (values l))) =
      sym (length-map f (take n os)) ∙ ap length out in
    let a =
      allocated to_front n given l os (IsAt-start to_front l.live_records (omega (arith, counted)))
        (omega (arith, counted, same)) room in
    let (ws, erased, rest) =
      erase_all-ordered to_front m (values l) h (omega (arith, few.1, counted, same)) in
    let p =
      pop_all-Popped tries ts 0 (positions to_front i m) (spaces_from given 0 m) l v ws
        (length-spaces_from given to_front 0 i m) (Unused-fewer given 0 m n _ few.0 u)
        (subst (λ c. erase_all 0 (positions to_front (start to_front c) m) (values l) ≡ some ws)
          counted erased) in
    record {
      args = record {
        s = ok;
        spaces = spaces_from given 0 m;
        to_pop = positions to_front i m;
        timestamp = ts;
      };
      elems = values_of l.pmem (take n os);
      prepared = rw (some_left, a) refl;
      given_out = out;
      after = p.after;
      returned = rw p.returned refl;
      left =
          ap (ordered to_front) p.elements
          ∙ rest
          ∙ ap (λ c. drop c (ordered to_front (values l))) as_many
          ∙ drop-length-take n (ordered to_front (values l));
      in_order = p.in_order;
    }
