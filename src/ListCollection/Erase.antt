-- ===== src/ListCollection/Erase.antt =====
-- The update that outdates a live record, as an operation on the list of elements.
use kvdk.Prelude.{
  ℕ, suc, ◌≡◌, refl, sym, ap, subst, ◌∙◌, List, ◌∷◌, ◌++◌, false, arith, has, has-append, some,
  ◌==◌, get_elem?, erase_idx, erase_idx-append,
}
use kvdk.Codec.Bytes.{Bytes}
use kvdk.DlList
use kvdk.DlList.{Pmem, WriteArgs, SpaceEntry, update_record}
use kvdk.DlList.Ring.{IsRing}
use kvdk.ListCollection.{ListCollection, outdated_args, update_loop}
use kvdk.ListCollection.Place.{update_record-Places}
use kvdk.ListCollection.Live.{IsList, live_of, values_of, values}
use kvdk.ListCollection.Indexed.{at_record, live_removed, values_removed}

pub update_once :
    (f : ℕ) (h : Pmem) (args : WriteArgs) (x : ℕ)
    → (update_record h args x).1 ≡ DlList.Status.ok
    → update_loop (suc f) h args x ≡ some (update_record h args x).0
unfolding update_loop
update_once f h args x done = rw (update_loop, done) refl

-- The memory and the list behind it. The space of the new record is the only one that the ring has
-- got.
pub record Erased (l : ListCollection) (records : List ℕ) (i x tries : ℕ) (args : WriteArgs)
    : Type 0 where
  pub pmem : Pmem
  pub looped : update_loop tries l.pmem args x ≡ some pmem
  pub in_order : IsList (record l { pmem = pmem; live_records = erase_idx l.live_records i })
  pub elements : values_of pmem (erase_idx l.live_records i) ≡ erase_idx (values l) i
  pub unused :
      (o : ℕ)
      → (o == args.space.offset) ≡ false
      → has o (l.header ∷ records) ≡ false
      → has o (l.header ∷ in_order.records) ≡ false

has-replaced :
    (o h new old : ℕ) (front rest : List ℕ)
    → (o == new) ≡ false
    → has o (h ∷ front ++ old ∷ rest) ≡ false
    → has o (h ∷ front ++ new ∷ rest) ≡ false
has-replaced o h new old front rest ne before =
    ground (arith, has-append o front (old ∷ rest), has-append o front (new ∷ rest))

pub outdate-Erased :
    (l : ListCollection) (v : IsList l) (i x : ℕ)
    → get_elem? l.live_records i ≡ some x
    → (space : SpaceEntry) → has space.offset (l.header ∷ v.records) ≡ false
    → (tries ts : ℕ) (key : Bytes) → Erased l v.records i x (suc tries) (outdated_args key ts space)
unfolding outdated_args
outdate-Erased l v i x here space unused tries ts key =
    let a = at_record l v i x here in
    let args = outdated_args key ts space in
    let front = a.place.front in
    let rest = a.place.rest in
    let out : has space.offset (l.header ∷ front ++ x ∷ rest) ≡ false =
      subst (λ zs. has space.offset (l.header ∷ zs) ≡ false) a.place.here unused in
    let p =
      update_record-Places l.pmem args l.header front x rest
        (subst (IsRing l.pmem l.header) a.place.here v.ring) out in
    let g = (update_record l.pmem args x).0 in
    let apart : has space.offset (front ++ rest) ≡ false =
      ground
        (arith, has-append space.offset front (x ∷ rest), has-append space.offset front rest) in
    let deque =
      ap (λ zs. erase_idx zs i) a.deque
      ∙ erase_idx-append (live_of l.pmem front) (live_of l.pmem rest) i x a.place.counted in
    record {
      pmem = g;
      looped = update_once tries l.pmem args x p.done;
      in_order = record {
        records = front ++ space.offset ∷ rest;
        ring = p.ring;
        live =
            live_removed l g args front rest (erase_idx l.live_records i) p.ring p.written apart
              refl deque;
      };
      elements =
          values_removed l g args front rest (erase_idx l.live_records i) p.ring p.written apart
            deque
          ∙ sym (
              ap (λ zs. erase_idx zs i) a.elems
              ∙ erase_idx-append (values_of l.pmem (live_of l.pmem front)) _ i (l.pmem x).value
                  a.index);
      unused = λ o ne before.
          has-replaced o l.header space.offset x front rest ne
            (subst (λ zs. has o (l.header ∷ zs) ≡ false) a.place.here before);
    }
