-- ===== src/ListCollection/Indexed.antt =====
-- The writes at a live record, as operations on the list of elements.
use mathlib.Core.List.{map-append}
use kvdk.Prelude.{
  ℕ, ◌≡◌, refl, sym, ap, ◌∙◌, List, ◌∷◌, ◌++◌, length, false, arith, has, has-append, some, ◌==◌,
  if◌then◌else◌, get_elem?, length-map,
}
use kvdk.DlList.{Pmem, WriteArgs, normal, outdated}
use kvdk.DlList.Ring.{IsRing}
use kvdk.ListCollection.{ListCollection}
use kvdk.ListCollection.Place.{IsWritten}
use kvdk.ListCollection.Live.{
  has-live, values-written, live-cons, IsList, live_of, values_of, values, Located, locate,
  live-append, live-placed,
}

module _ (h g : Pmem) (args : WriteArgs) (w : IsWritten h g args) where
  values-apart :
      (us ws : List ℕ)
      → has args.space.offset (us ++ ws) ≡ false
      → values_of g (us ++ ws) ≡ values_of h us ++ values_of h ws
  values-apart us ws out =
      values-written h g args (us ++ ws) w out ∙ map-append (λ r. (h r).value) us ws

  -- The elements around a new one.
  values-placed :
      (us ws : List ℕ)
      → has args.space.offset (us ++ ws) ≡ false
      → values_of g (us ++ args.space.offset ∷ ws) ≡ values_of h us ++ args.value ∷ values_of h ws
  values-placed us ws out =
      map-append (λ r. (g r).value) us (args.space.offset ∷ ws)
      ∙ ap (λ zs. zs ++ (g args.space.offset).value ∷ values_of g ws)
          (values-written h g args us w (ground (arith, has-append args.space.offset us ws)))
      ∙ ap (λ zs. values_of h us ++ (g args.space.offset).value ∷ zs)
          (values-written h g args ws w (ground (arith, has-append args.space.offset us ws)))
      ∙ ap (λ z. values_of h us ++ z ∷ values_of h ws)
          (new_value args.space.offset (w.value args.space.offset))
    where
      new_value :
          (o : ℕ)
          → (g o).value ≡ (if o == args.space.offset then args.value else (h o).value)
          → (g args.space.offset).value ≡ args.value
      new_value o e = ground (arith, w.value args.space.offset)

-- The deque and the elements at a live record.
pub record AtRecord (l : ListCollection) (v : IsList l) (i x : ℕ) : Type 0 where
  pub place : Located l.pmem v.records i x
  pub deque : l.live_records ≡ live_of l.pmem place.front ++ x ∷ live_of l.pmem place.rest
  pub elems :
      values l
      ≡ values_of l.pmem (live_of l.pmem place.front)
        ++ (l.pmem x).value ∷ values_of l.pmem (live_of l.pmem place.rest)
  pub index : length (values_of l.pmem (live_of l.pmem place.front)) ≡ i

pub at_record :
    (l : ListCollection) (v : IsList l) (i x : ℕ)
    → get_elem? l.live_records i ≡ some x
    → AtRecord l v i x
at_record l v i x e =
    let p = locate l.pmem v.records i x (rw v.live e) in
    let d : l.live_records ≡ live_of l.pmem p.front ++ x ∷ live_of l.pmem p.rest =
      sym v.live
      ∙ ap (live_of l.pmem) p.here
      ∙ live-append l.pmem p.front (x ∷ p.rest)
      ∙ ap (◌++◌ (live_of l.pmem p.front)) (live-cons l.pmem x p.rest p.is_live) in
    record {
      place = p;
      deque = d;
      elems =
          ap (values_of l.pmem) d
          ∙ map-append (λ r. (l.pmem r).value) (live_of l.pmem p.front) (x ∷ live_of l.pmem p.rest);
      index = length-map (λ r. (l.pmem r).value) (live_of l.pmem p.front) ∙ p.counted;
    }

-- The state behind a write of `args` between `front` and `rest`.
module _ (l : ListCollection) (g : Pmem) (args : WriteArgs) (front rest live : List ℕ)
    (ring : IsRing g l.header (front ++ args.space.offset ∷ rest)) (w : IsWritten l.pmem g args)
    (apart : has args.space.offset (front ++ rest) ≡ false) where
  abbrev pub behind_write : ListCollection
  behind_write = record l { pmem = g; live_records = live }

  live_apart : has args.space.offset (live_of l.pmem front ++ live_of l.pmem rest) ≡ false
  live_apart = ground (
    arith,
    has-append args.space.offset front rest,
    has-append args.space.offset (live_of l.pmem front) (live_of l.pmem rest),
    has-live l.pmem args.space.offset front,
    has-live l.pmem args.space.offset rest,
  )

  pub added :
      args.status ≡ normal
      → live ≡ live_of l.pmem front ++ args.space.offset ∷ live_of l.pmem rest
      → IsList behind_write
        × (values behind_write
            ≡ values_of l.pmem (live_of l.pmem front)
              ++ args.value ∷ values_of l.pmem (live_of l.pmem rest))
  added st e = (
    record {
      records = front ++ args.space.offset ∷ rest;
      ring = ring;
      live = live-placed l.pmem g args front rest w apart ∙ rw st refl ∙ sym e;
    },
    ap (values_of g) e
        ∙ values-placed l.pmem g args w (live_of l.pmem front) (live_of l.pmem rest) live_apart,
  )

  pub live_removed :
      args.status ≡ outdated
      → live ≡ live_of l.pmem front ++ live_of l.pmem rest
      → live_of g (front ++ args.space.offset ∷ rest) ≡ live
  live_removed st e = live-placed l.pmem g args front rest w apart ∙ rw st refl ∙ sym e

  pub values_removed :
      live ≡ live_of l.pmem front ++ live_of l.pmem rest
      → values behind_write
        ≡ values_of l.pmem (live_of l.pmem front) ++ values_of l.pmem (live_of l.pmem rest)
  values_removed e =
      ap (values_of g) e
      ∙ values-apart l.pmem g args w (live_of l.pmem front) (live_of l.pmem rest) live_apart
