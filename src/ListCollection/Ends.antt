-- ===== src/ListCollection/Ends.antt =====
-- PushFront and PushBack, as operations on the list of elements.
use mathlib.Core.List.{append-nil}
use kvdk.Prelude.{
  ℕ, suc, ◌<◌, ◌≡◌, refl, sym, ap, ◌∙◌, [], ◌∷◌, ◌++◌, false, arith, has, some, ◌==◌,
}
use kvdk.Codec.Bytes.{Bytes}
use kvdk.DlList.{SpaceEntry, insert_before, insert_after}
use kvdk.ListCollection.{none, ListCollection, elem_args, push_front, push_back, ok}
use kvdk.ListCollection.Place.{front-Places, back-Places, push_front-Places, push_back-Places}
use kvdk.ListCollection.Live.{IsList, live_of, values_of, values}
use kvdk.ListCollection.Indexed.{added}
use kvdk.ListCollection.AtLive.{Refined}

module _ (l : ListCollection) (v : IsList l) (space : SpaceEntry) (some_space : 0 < space.size)
    (unused : has space.offset (l.header ∷ v.records) ≡ false) (tries ts : ℕ) (elem : Bytes) where
  some_size : (space.size == 0) ≡ false
  some_size = ground arith

  pub push_front-Refined : Refined l (push_front (suc tries) elem ts space l) (elem ∷ values l) ok
  unfolding push_front elem_args live_of
  push_front-Refined =
      let args = elem_args l elem ts space in
      let g = (insert_after l.pmem args l.header).0 in
      let p = front-Places l.pmem args l.header v.records v.ring unused in
      let kept =
        added l g args [] v.records (space.offset ∷ l.live_records) p.ring p.written (ground arith)
          refl (ap (◌∷◌ space.offset) (sym v.live)) in
      record {
        after = record l { pmem = g; live_records = space.offset ∷ l.live_records };
        result = record { s = ok; write_record = some space.offset; existing_record = none };
        returned =
            rw (some_size, push_front-Places l.pmem args l.header v.records v.ring unused tries)
              refl;
        says = refl;
        elements = kept.1 ∙ ap (λ zs. elem ∷ values_of l.pmem zs) v.live;
        in_order = kept.0;
      }

  pub push_back-Refined :
      Refined l (push_back (suc tries) elem ts space l) (values l ++ elem ∷ []) ok
  unfolding push_back elem_args live_of
  push_back-Refined =
      let args = elem_args l elem ts space in
      let g = (insert_before l.pmem args l.header).0 in
      let p = back-Places l.pmem args l.header v.records v.ring unused in
      let kept =
        added l g args v.records [] (l.live_records ++ space.offset ∷ []) p.ring p.written
          (rw (append-nil v.records) (ground arith)) refl
          (ap (λ zs. zs ++ space.offset ∷ []) (sym v.live)) in
      record {
        after = record l { pmem = g; live_records = l.live_records ++ space.offset ∷ [] };
        result = record { s = ok; write_record = some space.offset; existing_record = none };
        returned =
            rw (some_size, push_back-Places l.pmem args l.header v.records v.ring unused tries)
              refl;
        says = refl;
        elements = kept.1 ∙ ap (λ zs. values_of l.pmem zs ++ elem ∷ []) v.live;
        in_order = kept.0;
      }
