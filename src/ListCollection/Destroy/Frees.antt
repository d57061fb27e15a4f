-- ===== src/ListCollection/Destroy/Frees.antt =====
-- What Destroy of a list comes to.
use kvdk.Prelude.{
  eq→==, ℕ, zero, suc, ◌<◌, ◌≡◌, refl, sym, ap, subst, ◌∙◌, List, [], ◌∷◌, ◌++◌, length, map, true,
  false, arith, has, Option, some, ◌==◌, ltb, if◌then◌else◌, Bool-cases, inl, inr,
}
use mathlib.Core.List.{append_assoc, append-nil}
use kvdk.DlList.{Pmem, SpaceEntry, remove, set_next, set_prev}
use kvdk.DlList.Ring.{IsRing, Seg-frame}
use kvdk.DlList.Unlink.{remove-IsRing}
use kvdk.ListCollection.{ListCollection}
use kvdk.ListCollection.Live.{IsList}
use kvdk.ListCollection.Destroy.{
  max_cached_old_records, Freeing, batch_free, collect_space, space_of, destroy_record,
  destroy_next, destroy_loop, destroy,
}

abbrev all_spaces : Freeing → List SpaceEntry
all_spaces b = b.freed ++ b.to_free

all_spaces-collect_space :
    (s : SpaceEntry) (b : Freeing) → all_spaces (collect_space s b) ≡ all_spaces b ++ s ∷ []
unfolding collect_space batch_free
all_spaces-collect_space s b =
    elim (Bool-cases (ltb max_cached_old_records (length (b.to_free ++ s ∷ [])))) [
      | inl full ↦ rw full (
          append-nil (b.freed ++ (b.to_free ++ s ∷ []))
          ∙ sym (append_assoc b.freed b.to_free (s ∷ [])))
      | inr room ↦ rw room (sym (append_assoc b.freed b.to_free (s ∷ [])))
    ]

remove-content :
    (h : Pmem) (x i : ℕ)
    → (((remove h x).0 i).record_size ≡ (h i).record_size) × (((remove h x).0 i).type ≡ (h i).type)
unfolding remove set_next set_prev
remove-content h x i = (ground arith, ground arith)

destroy_record-content :
    (h : Pmem) (x i : ℕ)
    → ((destroy_record h x i).record_size ≡ (h i).record_size)
      × ((destroy_record h x i).type ≡ (if i == x then 0 else (h i).type))
      × ((destroy_record h x i).next ≡ (h i).next)
      × ((destroy_record h x i).prev ≡ (h i).prev)
unfolding destroy_record
destroy_record-content h x i = (ground arith, ground arith, ground arith, ground arith)

destroy_record-IsRing :
    (h : Pmem) (x hd : ℕ) (xs : List ℕ) → IsRing h hd xs → IsRing (destroy_record h x) hd xs
destroy_record-IsRing h x hd xs v = record {
  seg =
      Seg-frame h (destroy_record h x) hd xs hd v.seg (λ i e. (destroy_record-content h x i).2)
        (λ i e. (destroy_record-content h x i).3);
  distinct = v.distinct;
}

-- A round that takes `x` out.
record Stepped (h : Pmem) (b : Freeing) (x : ℕ) (s : Pmem × Freeing) : Type 0 where
  memory : s.0 ≡ destroy_record (remove h x).0 x
  sizes : (i : ℕ) → (s.0 i).record_size ≡ (h i).record_size
  types : (i : ℕ) → (s.0 i).type ≡ (if i == x then 0 else (h i).type)
  spaces : all_spaces s.1 ≡ all_spaces b ++ space_of h x ∷ []

destroy_next-Stepped :
    (h : Pmem) (b : Freeing) (hd x : ℕ)
    → (h hd).next ≡ x
    → (remove h x).1 ≡ true
    → Stepped h b x (destroy_next (h, b) hd)
unfolding destroy_next
destroy_next-Stepped h b hd x at done =
    let g = (remove h x).0 in
    let s : Pmem × Freeing =
      (destroy_record g x, collect_space (space_of (destroy_record g x) x) b) in
    let went : destroy_next (h, b) hd ≡ s = rw at (rw done refl) in
    let size : (i : ℕ) → (destroy_record g x i).record_size ≡ (h i).record_size =
      λ i. (destroy_record-content g x i).0 ∙ (remove-content h x i).0 in
    subst (Stepped h b x) (sym went) record {
      memory = refl;
      sizes = size;
      types = λ i. ground (arith, (destroy_record-content g x i).1, (remove-content h x i).1);
      spaces =
          all_spaces-collect_space (space_of (destroy_record g x) x) b
          ∙ ap (λ n. all_spaces b ++ record { offset = x; size = n } ∷ []) (size x);
    }

-- All of the records were destroyed, and each of their spaces was freed once.
record Destroyed (h : Pmem) (b : Freeing) (xs : List ℕ) (o : Option (Pmem × Freeing)) : Type 0 where
  pmem : Pmem
  freeing : Freeing
  returned : o ≡ some (pmem, freeing)
  types : (i : ℕ) → (pmem i).type ≡ (if has i xs then 0 else (h i).type)
  spaces : all_spaces freeing ≡ all_spaces b ++ map (space_of h) xs

spaces-same :
    (h g : Pmem)
    → ((i : ℕ) → (g i).record_size ≡ (h i).record_size)
    → (xs : List ℕ) → map (space_of g) xs ≡ map (space_of h) xs
spaces-same h g same [] = refl
spaces-same h g same (x ∷ xs) = rw (same x, spaces-same h g same xs) refl

remove_alone : (h : Pmem) (hd : ℕ) → IsRing h hd [] → (remove h hd).1 ≡ true
unfolding remove
remove_alone h hd v = let l = v.seg in ground arith

destroy_loop_last :
    (f : ℕ) (h : Pmem) (b : Freeing) (hd : ℕ)
    → ((h hd).next == hd) ≡ true
    → destroy_loop (suc f) (h, b) hd ≡ some (destroy_next (h, b) hd)
unfolding destroy_loop
destroy_loop_last f h b hd e = rw e refl

destroy_loop_more :
    (f : ℕ) (h : Pmem) (b : Freeing) (hd : ℕ)
    → ((h hd).next == hd) ≡ false
    → destroy_loop (suc f) (h, b) hd ≡ destroy_loop f (destroy_next (h, b) hd) hd
unfolding destroy_loop
destroy_loop_more f h b hd e = rw e refl

destroy_loop-Destroyed :
    (f : ℕ) (h : Pmem) (b : Freeing) (hd : ℕ) (xs : List ℕ)
    → IsRing h hd xs
    → length xs < f
    → Destroyed h b (xs ++ hd ∷ []) (destroy_loop f (h, b) hd)
destroy_loop-Destroyed zero h b hd xs v enough = absurd (omega arith)
destroy_loop-Destroyed (suc f) h b hd [] v enough =
    let at : (h hd).next ≡ hd = v.seg.0 in
    let s = destroy_next-Stepped h b hd hd at (remove_alone h hd v) in
    record {
      pmem = (destroy_next (h, b) hd).0;
      freeing = (destroy_next (h, b) hd).1;
      returned = destroy_loop_last f h b hd (eq→== (h hd).next hd at);
      types = λ i. ground (arith, s.types i);
      spaces = s.spaces;
    }
destroy_loop-Destroyed (suc f) h b hd (x ∷ xs) v enough =
    let at : (h hd).next ≡ x = v.seg.0.0 in
    let apart : (x == hd) ≡ false = ground (arith, v.distinct.0) in
    let (done, ring) = remove-IsRing h hd x xs v in
    let s = destroy_next-Stepped h b hd x at done in
    let (g, c) = destroy_next (h, b) hd in
    let d =
      destroy_loop-Destroyed f g c hd xs
        (subst (λ k. IsRing k hd xs) (sym s.memory)
          (destroy_record-IsRing (remove h x).0 x hd xs ring))
        (omega arith) in
    record {
      pmem = d.pmem;
      freeing = d.freeing;
      returned = destroy_loop_more f h b hd (rw at apart) ∙ d.returned;
      types = λ i. ground (arith, d.types i, s.types i);
      spaces =
          d.spaces
          ∙ ap (λ zs. zs ++ map (space_of g) (xs ++ hd ∷ [])) s.spaces
          ∙ append_assoc (all_spaces b) (space_of h x ∷ []) (map (space_of g) (xs ++ hd ∷ []))
          ∙ ap (λ zs. all_spaces b ++ space_of h x ∷ zs) (spaces-same h g s.sizes (xs ++ hd ∷ []));
    }

-- What the call gives.
pub record AllFreed (l : ListCollection) (records : List ℕ) (o : Option (Pmem × List SpaceEntry))
    : Type 0 where
  pub pmem : Pmem
  pub returned : o ≡ some (pmem, map (space_of l.pmem) (records ++ l.header ∷ []))
  pub types :
      (i : ℕ) → (pmem i).type ≡ (if has i (records ++ l.header ∷ []) then 0 else (l.pmem i).type)

-- Destroy of a list ends within as many rounds as the list has records, its header included. It
-- gives to BatchFree the space of each of these records exactly once, with the record's size, the
-- header's last, and sets the type of these records and of no others to Empty.
pub destroy-AllFreed :
    (l : ListCollection) (v : IsList l) (rounds : ℕ)
    → length v.records < rounds
    → AllFreed l v.records (destroy rounds l)
unfolding destroy batch_free
destroy-AllFreed l v rounds enough =
    let b : Freeing = record { to_free = []; freed = [] } in
    let d = destroy_loop-Destroyed rounds l.pmem b l.header v.records v.ring enough in
    record {
      pmem = d.pmem;
      returned = rw (destroy, d.returned) (ap (λ zs. some (d.pmem, zs)) d.spaces);
      types = d.types;
    }
