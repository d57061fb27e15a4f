-- ===== src/ListCollection/AtLive.antt =====
-- The writes at a live record, as operations on the list of elements.
use mathlib.Core.List.{append_assoc, map-append}
use kvdk.Prelude.{
  ℕ, suc, ◌+◌, ◌<◌, ◌≡◌, refl, sym, ap, subst, ◌∙◌, List, [], ◌∷◌, ◌++◌, false, arith, has,
  has-append, none, some, ◌==◌, get_elem?, insert_idx, erase_idx, set, insert_idx-append,
  set-append, length-append, length-map,
}
use kvdk.Codec.Bytes.{Bytes}
use kvdk.DlList.{insert_after, SpaceEntry, insert_before, update_record}
use kvdk.DlList.Ring.{IsRing}
use kvdk.ListCollection.{
  ListCollection, WriteResult, Result, Status, elem_args, insert_before_at, insert_after_at,
  erase_at, update_at, ok,
}
use kvdk.ListCollection.Place.{insert_before-Places, insert_after-Places, update_record-Places}
use kvdk.ListCollection.Live.{IsList, live_of, values_of, values, live-append, live-cons}
use kvdk.ListCollection.Erase.{update_once, outdate-Erased}
use kvdk.ListCollection.Indexed.{AtRecord, at_record, added}

-- The call returned, with the status, and left the elements.
pub record Refined (l : ListCollection) (o : Result) (vs : List Bytes) (s : Status) : Type 0 where
  pub after : ListCollection
  pub result : WriteResult
  pub returned : o ≡ some (after, result)
  pub says : result.s ≡ s
  pub elements : values after ≡ vs
  pub in_order : IsList after

module _ (l : ListCollection) (v : IsList l) (i x : ℕ) (here : get_elem? l.live_records i ≡ some x)
    (space : SpaceEntry) (some_space : 0 < space.size)
    (unused : has space.offset (l.header ∷ v.records) ≡ false) where
  -- The ring at the live record.
  IsRing-here : (a : AtRecord l v i x) → IsRing l.pmem l.header (a.place.front ++ x ∷ a.place.rest)
  IsRing-here a = subst (IsRing l.pmem l.header) a.place.here v.ring

  unused_here :
      (a : AtRecord l v i x)
      → has space.offset (l.header ∷ a.place.front ++ x ∷ a.place.rest) ≡ false
  unused_here a = subst (λ zs. has space.offset (l.header ∷ zs) ≡ false) a.place.here unused

  some_size : (space.size == 0) ≡ false
  some_size = ground arith

  pub insert_before_at-Refined :
      (elem : Bytes) (ts : ℕ)
      → Refined l (insert_before_at elem ts space i x l) (insert_idx (values l) i elem) ok
  unfolding insert_before_at elem_args
  insert_before_at-Refined elem ts =
      let a = at_record l v i x here in
      let args = elem_args l elem ts space in
      let out = unused_here a in
      let front = a.place.front in
      let rest = a.place.rest in
      let p = insert_before-Places l.pmem args l.header front x rest (IsRing-here a) out in
      let kept =
        added l (insert_before l.pmem args x).0 args front (x ∷ rest)
          (insert_idx l.live_records i space.offset) p.ring p.written (ground arith) refl
          (ap (λ zs. insert_idx zs i space.offset) a.deque
            ∙ insert_idx-append (live_of l.pmem front) (x ∷ live_of l.pmem rest) i space.offset
                a.place.counted
            ∙ ap (λ zs. live_of l.pmem front ++ space.offset ∷ zs)
                (sym (live-cons l.pmem x rest a.place.is_live))) in
      record {
        after = record l {
          pmem = (insert_before l.pmem args x).0;
          live_records = insert_idx l.live_records i space.offset;
        };
        result = record { s = ok; write_record = some space.offset; existing_record = none };
        returned = rw (some_size, p.done) refl;
        says = refl;
        elements =
            kept.1
            ∙ ap (λ zs. values_of l.pmem (live_of l.pmem front) ++ elem ∷ values_of l.pmem zs)
                (live-cons l.pmem x rest a.place.is_live)
            ∙ sym (
                ap (λ zs. insert_idx zs i elem) a.elems
                ∙ insert_idx-append (values_of l.pmem (live_of l.pmem front)) _ i elem a.index);
        in_order = kept.0;
      }

  -- The live records up to `x`.
  live_through :
      (a : AtRecord l v i x)
      → live_of l.pmem (a.place.front ++ x ∷ []) ≡ live_of l.pmem a.place.front ++ x ∷ []
  unfolding live_of
  live_through a =
      live-append l.pmem a.place.front (x ∷ [])
      ∙ ap (◌++◌ (live_of l.pmem a.place.front)) (live-cons l.pmem x [] a.place.is_live)

  pub insert_after_at-Refined :
      (elem : Bytes) (ts : ℕ)
      → Refined l (insert_after_at elem ts space i x l) (insert_idx (values l) (i + 1) elem) ok
  unfolding insert_after_at elem_args
  insert_after_at-Refined elem ts =
      let a = at_record l v i x here in
      let args = elem_args l elem ts space in
      let out = unused_here a in
      let front = a.place.front in
      let rest = a.place.rest in
      let us = live_of l.pmem front in
      let p = insert_after-Places l.pmem args l.header front x rest (IsRing-here a) out in
      let kept =
        added l (insert_after l.pmem args x).0 args (front ++ x ∷ []) rest
          (insert_idx l.live_records (i + 1) space.offset)
          (subst (IsRing (insert_after l.pmem args x).0 l.header)
            (sym (append_assoc front (x ∷ []) (space.offset ∷ rest))) p.ring)
          p.written
          (subst (λ zs. has space.offset zs ≡ false) (sym (append_assoc front (x ∷ []) rest))
            (ground arith))
          refl
          (ap (λ zs. insert_idx zs (i + 1) space.offset)
              (a.deque ∙ sym (append_assoc us (x ∷ []) (live_of l.pmem rest)))
            ∙ insert_idx-append (us ++ x ∷ []) (live_of l.pmem rest) (i + 1) space.offset
                (omega (arith, length-append us (x ∷ []), a.place.counted))
            ∙ ap (λ zs. zs ++ space.offset ∷ live_of l.pmem rest) (sym (live_through a))) in
      record {
        after = record l {
          pmem = (insert_after l.pmem args x).0;
          live_records = insert_idx l.live_records (i + 1) space.offset;
        };
        result = record { s = ok; write_record = some space.offset; existing_record = none };
        returned = rw (some_size, p.done) refl;
        says = refl;
        elements =
            kept.1
            ∙ ap (λ zs. values_of l.pmem zs ++ elem ∷ values_of l.pmem (live_of l.pmem rest))
                (live_through a)
            ∙ sym (
                ap (λ zs. insert_idx (values_of l.pmem zs) (i + 1) elem)
                  (a.deque ∙ sym (append_assoc us (x ∷ []) (live_of l.pmem rest)))
                ∙ ap (λ zs. insert_idx zs (i + 1) elem)
                    (map-append (λ r. (l.pmem r).value) (us ++ x ∷ []) (live_of l.pmem rest))
                ∙ insert_idx-append (values_of l.pmem (us ++ x ∷ [])) _ (i + 1) elem (
                    omega (
                      arith,
                      length-map (λ r. (l.pmem r).value) (us ++ x ∷ []),
                      length-append us (x ∷ []),
                      a.place.counted,
                    )));
        in_order = kept.0;
      }

  pub erase_at-Refined :
      (tries ts : ℕ) → Refined l (erase_at (suc tries) ts space i x l) (erase_idx (values l) i) ok
  unfolding erase_at
  erase_at-Refined tries ts =
      let e = outdate-Erased l v i x here space unused tries ts (l.pmem x).key in
      record {
        after = record l { pmem = e.pmem; live_records = erase_idx l.live_records i };
        result = record { s = ok; write_record = some space.offset; existing_record = some x };
        returned = rw (some_size, e.looped) refl;
        says = refl;
        elements = e.elements;
        in_order = e.in_order;
      }

  pub update_at-Refined :
      (tries : ℕ) (elem : Bytes) (ts : ℕ)
      → Refined l (update_at (suc tries) elem ts space i x l) (set (values l) i elem) ok
  unfolding update_at elem_args
  update_at-Refined tries elem ts =
      let a = at_record l v i x here in
      let args = elem_args l elem ts space in
      let out = unused_here a in
      let front = a.place.front in
      let rest = a.place.rest in
      let p = update_record-Places l.pmem args l.header front x rest (IsRing-here a) out in
      let kept =
        added l (update_record l.pmem args x).0 args front rest (set l.live_records i space.offset)
          p.ring p.written
          (ground
            (arith, has-append space.offset front (x ∷ rest), has-append space.offset front rest))
          refl
          (ap (λ zs. set zs i space.offset) a.deque
            ∙ set-append (live_of l.pmem front) (live_of l.pmem rest) i x space.offset
                a.place.counted) in
      record {
        after = record l {
          pmem = (update_record l.pmem args x).0;
          live_records = set l.live_records i space.offset;
        };
        result = record { s = ok; write_record = some space.offset; existing_record = some x };
        returned = rw (some_size, update_once tries l.pmem args x p.done) refl;
        says = refl;
        elements =
            kept.1
            ∙ sym (
                ap (λ zs. set zs i elem) a.elems
                ∙ set-append (values_of l.pmem (live_of l.pmem front)) _ i (l.pmem x).value elem
                    a.index);
        in_order = kept.0;
      }
