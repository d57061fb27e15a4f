-- ===== src/ListCollection/PopN/Erases.antt =====
-- PopN, as erasures from the list of elements.
use kvdk.Prelude.{
  some_inj, Bool-cases, inl, inr, ℕ, suc, ◌-◌, ◌<◌, ◌≡◌, refl, sym, subst, List, [], ◌∷◌, length,
  length-map, All, false, arith, has, Option, none, some, ◌==◌, ltb, if◌then◌else◌, erase_idx,
}
use kvdk.Codec.Bytes.{Bytes}
use kvdk.Collection.{internal_key}
use kvdk.DlList.{SpaceEntry}
use kvdk.ListCollection.{ListCollection}
use kvdk.ListCollection.Live.{IsList, values}
use kvdk.ListCollection.Calls.{get_elem?-lt}
use kvdk.ListCollection.Erase.{outdate-Erased}
use kvdk.ListCollection.PopN.{pop_all}

-- Erasing at iterators; `none` for one outside of the list.
unfoldable pub erase_all : (begin : ℕ) → List ℕ → List Bytes → Option (List Bytes)
erase_all begin [] vs = some vs
erase_all begin (p ∷ ps) vs =
    let i = p - begin in
    let rest = erase_all (if i == 0 then suc begin else begin) ps (erase_idx vs i) in
    if ltb i (length vs) then rest else none

-- No space is in the list, or twice among the others.
abbrev pub Unused : List SpaceEntry → List ℕ → Type 0
Unused [] records = Unit {0}
Unused (space ∷ spaces) records =
    (has space.offset records ≡ false)
    × All (λ (s : SpaceEntry). (s.offset == space.offset) ≡ false) spaces
    × Unused spaces records

Unused-kept :
    (spaces : List SpaceEntry) (o : ℕ) (before after : List ℕ)
    → ((j : ℕ) → (j == o) ≡ false → has j before ≡ false → has j after ≡ false)
    → All (λ (s : SpaceEntry). (s.offset == o) ≡ false) spaces
    → Unused spaces before
    → Unused spaces after
Unused-kept [] o before after kept ne u = tt
Unused-kept (space ∷ spaces) o before after kept ne u =
    (kept space.offset ne.0 u.0, u.1, Unused-kept spaces o before after kept ne.1 u.2)

erase_all-cons :
    (begin p : ℕ) (ps : List ℕ) (vs ws : List Bytes)
    → erase_all begin (p ∷ ps) vs ≡ some ws
    → (p - begin < length vs)
      × (erase_all (if (p - begin) == 0 then suc begin else begin) ps (erase_idx vs (p - begin))
          ≡ some ws)
unfolding erase_all
erase_all-cons begin p ps vs ws h = elim (Bool-cases (ltb (p - begin) (length vs))) [
  | inl inside ↦ (ground arith, rw inside at h)
  | inr outside ↦ absurd (ground arith)
]

pub record Popped (l : ListCollection) (o : Option ListCollection) (vs : List Bytes) : Type 0 where
  pub after : ListCollection
  pub returned : o ≡ some after
  pub elements : values after ≡ vs
  pub in_order : IsList after

pub pop_all-Popped :
    (tries ts begin : ℕ) (ps : List ℕ) (spaces : List SpaceEntry) (l : ListCollection)
    (v : IsList l) (vs : List Bytes)
    → length spaces ≡ length ps
    → Unused spaces (l.header ∷ v.records)
    → erase_all begin ps (values l) ≡ some vs
    → Popped l (pop_all (suc tries) ts begin ps spaces l) vs
unfolding pop_all erase_all
pop_all-Popped tries ts begin [] spaces l v vs e u h = record {
  after = l;
  returned = refl;
  elements = some_inj (values l) vs h;
  in_order = v;
}
pop_all-Popped tries ts begin (p ∷ ps) [] l v vs e u h = absurd (omega arith)
pop_all-Popped tries ts begin (p ∷ ps) (space ∷ spaces) l v vs e u h =
    let i = p - begin in
    let (inside, later) = erase_all-cons begin p ps (values l) vs h in
    let (x, here) =
      get_elem?-lt l.live_records i
        (omega (arith, inside, length-map (λ r. (l.pmem r).value) l.live_records)) in
    let d = outdate-Erased l v i x here space u.0 tries ts (internal_key l.id []) in
    let k : ListCollection = record l {
      pmem = d.pmem;
      live_records = erase_idx l.live_records i;
    } in
    let r =
      pop_all-Popped tries ts (if i == 0 then suc begin else begin) ps spaces k d.in_order vs
        (omega arith)
        (Unused-kept spaces space.offset (l.header ∷ v.records) (l.header ∷ d.in_order.records)
          d.unused u.1 u.2)
        (subst (λ ws. erase_all (if i == 0 then suc begin else begin) ps ws ≡ some vs)
          (sym d.elements) later) in
    record {
      after = r.after;
      returned = rw (pop_all, here, d.looped) r.returned;
      elements = r.elements;
      in_order = r.in_order;
    }
