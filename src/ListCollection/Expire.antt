-- ===== src/ListCollection/Expire.antt =====
-- SetExpireTime of engine/list_collection/list.cpp, and GetExpireTime of list.hpp: a new header in
-- the place of the old one, which stays as its old version.
use kvdk.Prelude.{
  eq→==, has_ne, ℕ, ◌<◌, ◌≡◌, refl, sym, subst, ◌∙◌, inl, inr, List, [], ◌∷◌, ◌++◌, true, false,
  arith, has, has-append, some, ◌==◌, update,
}
use kvdk.DlList.{
  Pmem, DlRecord, SpaceEntry, normal, replace, replace_in, link_record, set_next, set_prev,
}
use kvdk.DlList.Ring.{IsRing, Seg-frame, IsRing-rotate}
use kvdk.DlList.Unlink.{replace-IsRing, replace_alone}
use kvdk.ListCollection.{ListCollection, Result, with_space, ok}
use kvdk.ListCollection.Place.{Snoc-cases}
use kvdk.ListCollection.Live.{IsList, live_of, values_of, values}

-- RecordType::ListRecord
abbrev list_record : ℕ
list_record = 32

unfoldable pub expiring_header : Pmem → (header expired_time ts : ℕ) → SpaceEntry → DlRecord
expiring_header h hd expire ts space = record {
  record_size = space.size;
  type = list_record;
  status = normal;
  timestamp = ts;
  old_version = hd;
  prev = (h hd).prev;
  next = (h hd).next;
  expired_time = expire;
  key = (h hd).key;
  value = (h hd).value;
}

unfoldable pub set_expire_time : (expired_time ts : ℕ) → SpaceEntry → ListCollection → Result
unfolding expiring_header replace_in
set_expire_time expire ts space l = with_space space l (
    let h = update l.pmem space.offset (expiring_header l.pmem l.header expire ts space) in
    let (g, moved) = replace_in h l.header l.header space.offset in
    some (
      record l { pmem = g; header = moved.0 },
      record { s = ok; write_record = some space.offset; existing_record = some l.header },
    ))

unfoldable pub get_expire_time : ListCollection → ℕ
get_expire_time l = (l.pmem l.header).expired_time

replace-content :
    (h : Pmem) (r m i : ℕ)
    → ((replace h r m).0 i).status ≡ (h i).status
      × ((replace h r m).0 i).value ≡ (h i).value
      × ((replace h r m).0 i).key ≡ (h i).key
      × ((replace h r m).0 i).old_version ≡ (h i).old_version
      × ((replace h r m).0 i).expired_time ≡ (h i).expired_time
unfolding replace link_record set_next set_prev
replace-content h r m i = (ground arith, ground arith, ground arith, ground arith, ground arith)

-- Replacing the header of a list.
replace_header :
    (h : Pmem) (hd m : ℕ) (xs : List ℕ)
    → IsRing h hd xs
    → has m (hd ∷ xs) ≡ false
    → ((replace h hd m).1 ≡ true) × IsRing (replace h hd m).0 m xs
replace_header h hd m xs v out = elim (Snoc-cases xs) [
  | inl e ↦
      let r = replace_alone h hd m (subst (IsRing h hd) e v) (ground arith) in
      (r.0, subst (IsRing (replace h hd m).0 m) (sym e) r.1)
  | inr (ys, p, e) ↦
      let w = IsRing-rotate h hd p ys [] (subst (IsRing h hd) e v) in
      let free : has m (hd ∷ ys ++ p ∷ []) ≡ false = subst (λ zs. has m (hd ∷ zs) ≡ false) e out in
      let r = replace-IsRing h p hd m ys w (ground (arith, has-append m ys (p ∷ []))) in
      (
        r.0,
        subst (IsRing (replace h hd m).0 m) (sym e)
            (IsRing-rotate (replace h hd m).0 p m [] ys r.1),
      )
]

update-IsRing :
    (h : Pmem) (hd m : ℕ) (r : DlRecord) (xs : List ℕ)
    → IsRing h hd xs
    → has m (hd ∷ xs) ≡ false
    → IsRing (update h m r) hd xs
update-IsRing h hd m r xs v out = record {
  seg =
      Seg-frame h (update h m r) hd xs hd v.seg (λ i e. ground (arith, has_ne i m (hd ∷ xs) e out))
        (λ i e.
          ground (arith, has_ne i m (xs ++ hd ∷ []) e (ground (arith, has-append m xs (hd ∷ [])))));
  distinct = v.distinct;
}

-- A memory of the same contents at the records of a list.
live-same :
    (h g : Pmem) (xs : List ℕ)
    → ((i : ℕ) → has i xs ≡ true → (g i).status ≡ (h i).status)
    → live_of g xs ≡ live_of h xs
unfolding live_of
live-same h g [] same = refl
live-same h g (x ∷ xs) same =
    rw (same x (ground arith), live-same h g xs (λ i e. same i (ground arith))) refl

values-same :
    (h g : Pmem) (xs : List ℕ)
    → ((i : ℕ) → has i xs ≡ true → (g i).value ≡ (h i).value)
    → values_of g xs ≡ values_of h xs
values-same h g [] same = refl
values-same h g (x ∷ xs) same =
    rw (same x (ground arith), values-same h g xs (λ i e. same i (ground arith))) refl

has-live_of : (h : Pmem) (i : ℕ) (xs : List ℕ) → has i (live_of h xs) ≡ true → has i xs ≡ true
unfolding live_of
has-live_of h i [] e = e
has-live_of h i (x ∷ xs) e = ground (arith, has-live_of h i xs)

-- The list behind the call.
pub record Renewed (l : ListCollection) (expire : ℕ) (space : SpaceEntry) (o : Result)
    : Type 0 where
  pub after : ListCollection
  pub returned :
      o
      ≡ some (
        after,
        record { s = ok; write_record = some space.offset; existing_record = some l.header },
      )
  pub in_order : IsList after
  pub elements : values after ≡ values l
  pub expires : get_expire_time after ≡ expire
  pub name : (after.pmem after.header).key ≡ (l.pmem l.header).key
  pub version : (after.pmem after.header).old_version ≡ l.header

-- With space that the list does not use, SetExpireTime gives a well-formed list of the same elements
-- under a new header, which has the expire time that was set, the old header's key, and the old
-- header as its old version.
pub set_expire_time-Renewed :
    (l : ListCollection) (v : IsList l) (space : SpaceEntry) (expire ts : ℕ)
    → 0 < space.size
    → has space.offset (l.header ∷ v.records) ≡ false
    → Renewed l expire space (set_expire_time expire ts space l)
unfolding set_expire_time replace_in expiring_header get_expire_time
set_expire_time-Renewed l v space expire ts room out =
    let some_size : (space.size == 0) ≡ false = ground arith in
    let m = space.offset in
    let h = update l.pmem m (expiring_header l.pmem l.header expire ts space) in
    let g = (replace h l.header m).0 in
    let r =
      replace_header h l.header m v.records (update-IsRing l.pmem l.header m _ v.records v.ring out)
        out in
    let c = replace-content h l.header m in
    let apart : (i : ℕ) → has i v.records ≡ true → (i == m) ≡ false =
      λ i e. ground (arith, has_ne i m v.records e (ground arith)) in
    let live : live_of g v.records ≡ l.live_records =
      live-same l.pmem g v.records (λ i e. ground (arith, (c i).0, apart i e)) ∙ v.live in
    record {
      after = record l { pmem = g; header = m };
      returned = rw (some_size, r.0, eq→== l.header l.header refl) refl;
      in_order = record { records = v.records; ring = r.1; live = live };
      elements =
          values-same l.pmem g l.live_records (λ i e.
            ground (arith, (c i).1, apart i (has-live_of l.pmem i v.records (rw v.live e))));
      expires = ground (arith, (c m).4);
      name = ground (arith, (c m).2);
      version = ground (arith, (c m).3);
    }
