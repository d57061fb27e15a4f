-- ===== src/ListCollection/PopN/Overflow.antt =====
-- PreparePopN and PopN if there is not enough space.
use kvdk.Prelude.{
  eq→==, Bool-cases, inl, inr, Option, ℕ, suc, zero, ◌+◌, ◌<◌, ◌≤◌, ◌≡◌, refl, ap, subst, List, [],
  ◌∷◌, length, length-map, Bool, false, true, arith, some, ◌==◌,
}
use kvdk.Codec.Bytes.{Bytes}
use kvdk.DlList.{SpaceEntry}
use kvdk.ListCollection.{ListCollection, pmem_overflow}
use kvdk.ListCollection.Live.{values}
use kvdk.ListCollection.PopN.{
  PopNArgs, allocate_pops, Popping, stopped, one_more, step, prepare_pop_n, pop_n,
}
use kvdk.ListCollection.PopN.Taken.{ordered, length-ordered}
use kvdk.ListCollection.PopN.Order.{
  spaces_from, start, IsAt, IsAt-start, IsAt-read, IsAt-more, IsAt-step,
}

-- What the loop comes to if a call of Allocate that it gets to gives no space: the spaces up to the
-- first such call.
pub record Overflows (given : ℕ → SpaceEntry) (k j : ℕ) (o : Option Popping) : Type 0 where
  pub calls : ℕ
  pub popping : Popping
  pub returned : o ≡ some popping
  pub overflow : popping.overflow ≡ true
  pub spaces : popping.spaces ≡ spaces_from given k calls
  pub in_time : calls ≤ j
  pub failed : (given (k + calls)).size ≡ 0

Overflows-here :
    (to_front : Bool) (nn i : ℕ) (given : ℕ → SpaceEntry) (k : ℕ) (l : ListCollection) (x : ℕ)
    (left : List ℕ) (j : ℕ)
    → IsAt to_front l.live_records (x ∷ left) i
    → (given k).size ≡ 0
    → Overflows given k j (allocate_pops to_front (suc nn) i given k l)
unfolding allocate_pops
Overflows-here to_front nn i given k l x left j a z =
    let full = eq→== (given k).size 0 z in
    record {
      calls = 0;
      popping = stopped true;
      returned = rw (allocate_pops, IsAt-read to_front l.live_records left x i a, full) refl;
      overflow = refl;
      spaces = refl;
      in_time = omega arith;
      failed = subst (λ n. (given n).size ≡ 0) (omega arith) z;
    }

Overflows-later :
    (to_front : Bool) (nn i : ℕ) (given : ℕ → SpaceEntry) (k : ℕ) (l : ListCollection) (x y : ℕ)
    (left : List ℕ) (j : ℕ)
    → IsAt to_front l.live_records (x ∷ (y ∷ left)) i
    → ((given k).size == 0) ≡ false
    → Overflows given (k + 1) j (allocate_pops to_front nn (step to_front i) given (k + 1) l)
    → Overflows given k (suc j) (allocate_pops to_front (suc nn) i given k l)
unfolding allocate_pops
Overflows-later to_front nn i given k l x y left j a room o = record {
  calls = suc o.calls;
  popping = one_more (given k) i (l.pmem x).value o.popping;
  returned =
      rw
        (
          allocate_pops,
          IsAt-read to_front l.live_records (y ∷ left) x i a,
          room,
          IsAt-more to_front l.live_records left x y i a,
          o.returned,
        )
        refl;
  overflow = o.overflow;
  spaces = ap (◌∷◌ (given k)) o.spaces;
  in_time = omega (arith, o.in_time);
  failed = subst (λ n. (given n).size ≡ 0) (omega arith) o.failed;
}

pub allocate_pops-Overflows :
    (to_front : Bool) (nn i : ℕ) (given : ℕ → SpaceEntry) (k : ℕ) (l : ListCollection) (x : ℕ)
    (left : List ℕ) (j : ℕ)
    → IsAt to_front l.live_records (x ∷ left) i
    → j < nn
    → j < length (x ∷ left)
    → (given (k + j)).size ≡ 0
    → Overflows given k j (allocate_pops to_front nn i given k l)
allocate_pops-Overflows to_front zero i given k l x left j a h b z = absurd (omega arith)
allocate_pops-Overflows to_front (suc nn) i given k l x left zero a h b z =
    Overflows-here to_front nn i given k l x left 0 a
      (subst (λ n. (given n).size ≡ 0) (omega arith) z)
allocate_pops-Overflows to_front (suc nn) i given k l x [] (suc j) a h b z = absurd (omega arith)
allocate_pops-Overflows to_front (suc nn) i given k l x (y ∷ left) (suc j) a h b z =
    let later =
      allocate_pops-Overflows to_front nn (step to_front i) given (k + 1) l y left j
        (IsAt-step to_front l.live_records left x y i a) (omega arith) (omega arith)
        (subst (λ n. (given n).size ≡ 0) (omega arith) z) in
    elim (Bool-cases ((given k).size == 0)) [
      | inl full ↦ Overflows-here to_front nn i given k l x (y ∷ left) (suc j) a (ground arith)
      | inr room ↦ Overflows-later to_front nn i given k l x y left j a room later
    ]

-- What the two calls come to.
pub record Refused (l : ListCollection) (to_front : Bool) (n ts tries j : ℕ)
    (given : ℕ → SpaceEntry) : Type 0 where
  pub args : PopNArgs
  pub elems : List Bytes
  pub calls : ℕ
  pub prepared : prepare_pop_n to_front n ts given l ≡ some (args, elems, spaces_from given 0 calls)
  pub in_time : calls ≤ j
  pub failed : (given calls).size ≡ 0
  pub returned : pop_n tries args l ≡ some (l, pmem_overflow)

some_left-Overflows :
    (to_front : Bool) (n : ℕ) (given : ℕ → SpaceEntry) (l : ListCollection) (os : List ℕ) (j : ℕ)
    → IsAt to_front l.live_records os (start to_front (length l.live_records))
    → j < n
    → j < length os
    → (given j).size ≡ 0
    → Overflows given 0 j
        (allocate_pops to_front n (start to_front (length l.live_records)) given 0 l)
some_left-Overflows to_front n given l [] j a h b z = absurd (omega arith)
some_left-Overflows to_front n given l (x ∷ os) j a h b z =
    allocate_pops-Overflows to_front n _ given 0 l x os j a h b
      (subst (λ i. (given i).size ≡ 0) (omega arith) z)

-- If one of the calls of Allocate for the elements to pop fails, PreparePopN stops at the first such
-- call and gives all the spaces that it got back to the allocator, and PopN of its arguments reports
-- the overflow and leaves the list as it was.
pub prepare_pop_n-Refused :
    (l : ListCollection) (to_front : Bool) (n ts tries j : ℕ) (given : ℕ → SpaceEntry)
    → j < n
    → j < length (values l)
    → (given j).size ≡ 0
    → Refused l to_front n ts tries j given
unfolding prepare_pop_n pop_n
prepare_pop_n-Refused l to_front n ts tries j given h b z =
    let counted = length-map (λ r. (l.pmem r).value) l.live_records in
    let same = length-ordered to_front l.live_records in
    let some_left : (length l.live_records == 0) ≡ false = ground arith in
    let o =
      some_left-Overflows to_front n given l (ordered to_front l.live_records) j
        (IsAt-start to_front l.live_records (omega (arith, counted))) h
        (omega (arith, counted, same)) z in
    let args : PopNArgs = record {
      s = pmem_overflow;
      spaces = o.popping.spaces;
      to_pop = o.popping.to_pop;
      timestamp = ts;
    } in
    record {
      args = args;
      elems = o.popping.elems;
      calls = o.calls;
      prepared =
          rw (some_left, o.returned, o.overflow)
            (ap (λ zs. some (args, o.popping.elems, zs)) o.spaces);
      in_time = o.in_time;
      failed = subst (λ i. (given i).size ≡ 0) (omega arith) o.failed;
      returned = refl;
    }
