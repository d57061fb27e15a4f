-- ===== src/ListCollection/Live.antt =====
-- The live records of a list, and the elements that they stand for.

use kvdk.Prelude.{
  some_inj, inr, inl, Bool-cases, ℕ, suc, zero, ◌+◌, ◌≡◌, refl, ap, subst, List, [], ◌∷◌, ◌++◌, map,
  length, Bool, true, false, arith, has, has-append, some, if◌then◌else◌, get_elem?,
}
use kvdk.Codec.Bytes.{Bytes}
use kvdk.DlList.{Pmem, WriteArgs, RecordStatus, normal, dirty, outdated}
use kvdk.DlList.Ring.{IsRing}
use kvdk.ListCollection.{ListCollection}
use kvdk.ListCollection.Place.{IsWritten}

abbrev pub is_normal : RecordStatus → Bool
is_normal normal = true
is_normal dirty = false
is_normal outdated = false

-- The records of a list that are not outdated.
unfoldable pub live_of : Pmem → List ℕ → List ℕ
live_of h [] = []
live_of h (x ∷ xs) = if is_normal (h x).status then x ∷ live_of h xs else live_of h xs

abbrev pub values_of : Pmem → List ℕ → List Bytes
values_of h xs = map (λ r. (h r).value) xs

-- The elements of a list, its front first.
abbrev pub values : ListCollection → List Bytes
values l = values_of l.pmem l.live_records

-- The deque has the live records of the list in memory, in their order.
pub record IsList (l : ListCollection) : Type 0 where
  pub records : List ℕ
  pub ring : IsRing l.pmem l.header records
  pub live : live_of l.pmem records ≡ l.live_records

pub live-append : (h : Pmem) (xs ys : List ℕ) → live_of h (xs ++ ys) ≡ live_of h xs ++ live_of h ys
unfolding live_of
live-append h [] ys = refl
live-append h (x ∷ xs) ys = ground (arith, live-append h xs ys)

pub has-live : (h : Pmem) (j : ℕ) (xs : List ℕ) → has j xs ≡ false → has j (live_of h xs) ≡ false
unfolding live_of
has-live h j [] out = refl
has-live h j (x ∷ xs) out = ground (arith, has-live h j xs)

live-written :
    (h g : Pmem) (args : WriteArgs) (xs : List ℕ)
    → IsWritten h g args
    → has args.space.offset xs ≡ false
    → live_of g xs ≡ live_of h xs
unfolding live_of
live-written h g args [] w out = refl
live-written h g args (x ∷ xs) w out = ground (arith, w.status x, live-written h g args xs w)

pub values-written :
    (h g : Pmem) (args : WriteArgs) (xs : List ℕ)
    → IsWritten h g args
    → has args.space.offset xs ≡ false
    → values_of g xs ≡ values_of h xs
values-written h g args [] w out = refl
values-written h g args (x ∷ xs) w out = ground (arith, w.value x, values-written h g args xs w)

-- The place in the list of a live record.
pub record Located (h : Pmem) (xs : List ℕ) (i x : ℕ) : Type 0 where
  pub front : List ℕ
  pub rest : List ℕ
  pub here : xs ≡ front ++ x ∷ rest
  pub counted : length (live_of h front) ≡ i
  pub is_live : is_normal (h x).status ≡ true

behind :
    (h : Pmem) (y : ℕ) (xs : List ℕ) (i j x : ℕ)
    → Located h xs i x
    → length (live_of h (y ∷ [])) + i ≡ j
    → Located h (y ∷ xs) j x
unfolding live_of
behind h y xs i j x l e = record {
  front = y ∷ l.front;
  rest = l.rest;
  here = ap (◌∷◌ y) l.here;
  counted = ground (arith, l.counted);
  is_live = l.is_live;
}

pub live-cons :
    (h : Pmem) (y : ℕ) (xs : List ℕ)
    → is_normal (h y).status ≡ true
    → live_of h (y ∷ xs) ≡ y ∷ live_of h xs
unfolding live_of
live-cons h y xs alive = rw alive refl

at_or_behind :
    (h : Pmem) (y : ℕ) (xs : List ℕ) (i x : ℕ)
    → is_normal (h y).status ≡ true
    → get_elem? (y ∷ live_of h xs) i ≡ some x
    → ((j : ℕ) → get_elem? (live_of h xs) j ≡ some x → Located h xs j x)
    → Located h (y ∷ xs) i x
unfolding live_of
at_or_behind h y xs zero x alive e later =
    let same : y ≡ x = some_inj y x e in
    record {
      front = [];
      rest = xs;
      here = ap (λ z. z ∷ xs) same;
      counted = refl;
      is_live = subst (λ z. is_normal (h z).status ≡ true) same alive;
    }
at_or_behind h y xs (suc i) x alive e later = behind h y xs i (suc i) x (later i e) (ground arith)

pub locate :
    (h : Pmem) (xs : List ℕ) (i x : ℕ) → get_elem? (live_of h xs) i ≡ some x → Located h xs i x
unfolding live_of
locate h [] i x e = absurd (ground arith)
locate h (y ∷ xs) i x e = elim (Bool-cases (is_normal (h y).status)) [
  | inl alive ↦
      at_or_behind h y xs i x alive
        (subst (λ zs. get_elem? zs i ≡ some x) (live-cons h y xs alive) e) (λ j. locate h xs j x)
  | inr dead ↦ behind h y xs i i x (locate h xs i x (ground arith)) (ground arith)
]

placed_first :
    (h g : Pmem) (args : WriteArgs) (ys : List ℕ)
    → IsWritten h g args
    → has args.space.offset ys ≡ false
    → live_of g (args.space.offset ∷ ys)
      ≡ (if is_normal args.status then args.space.offset ∷ live_of h ys else live_of h ys)
unfolding live_of
placed_first h g args ys w out =
    ground (arith, w.status args.space.offset, live-written h g args ys w out)

-- What stands in the place of a part of the list after a write.
pub live-placed :
    (h g : Pmem) (args : WriteArgs) (xs ys : List ℕ)
    → IsWritten h g args
    → has args.space.offset (xs ++ ys) ≡ false
    → live_of g (xs ++ args.space.offset ∷ ys) ≡ (
        live_of h xs
        ++ (if is_normal args.status then args.space.offset ∷ live_of h ys else live_of h ys))
live-placed h g args xs ys w out =
    rw
      (
        live-append g xs (args.space.offset ∷ ys),
        live-written h g args xs w (ground (arith, has-append args.space.offset xs ys)),
      )
      (ap (◌++◌ (live_of h xs))
        (placed_first h g args ys w (ground (arith, has-append args.space.offset xs ys))))
