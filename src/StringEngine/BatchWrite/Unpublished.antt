-- ===== src/StringEngine/BatchWrite/Unpublished.antt =====
-- A batch is invisible up to its publication.
use kvdk.Prelude.{
  not_both, ℕ, ◌≡◌, refl, sym, ap, subst, ◌∙◌, ◌⊎◌, inl, inr, ◌≢◌, ne→==, Option, some,
  Option-cases, Bool-cases, Bool, true, false, ◌==◌, List, [], ◌∷◌, All,
}
use kvdk.Codec.Bytes.{Bytes}
use kvdk.DlList.{SpaceEntry}
use kvdk.Batch.Ops.{StringOp}
use kvdk.HashTable.{EntryPtr}
use kvdk.StringEngine.{
  find_in, InOrder, keys_of, KeyIndex, IndexEntry, StringRecord, State, Status, ok, not_found,
  key_outdated, lookup_key, get, string_type,
}
use kvdk.StringEngine.Find.{get-same, lookup_key-some, lookup_key-reserve}
use kvdk.StringEngine.Publish.{Fresh, Alike-touched}
use kvdk.StringEngine.BatchWrite.{
  needs_space, unless_failed, StringWriteArgs, give_space, string_write_prepare, prepare_all,
  string_write, write_all,
}

-- An operation has no space, or its own from Allocate.
abbrev Given : SpaceEntry → StringWriteArgs → Type 0
Given space a = ((a.space.size == 0) ≡ true) ⊎ (a.space ≡ space)

give_space-Given :
    (o : StringOp) (ts : ℕ) (f : Bool) (found : Option IndexEntry) (place : Option EntryPtr)
    (space : SpaceEntry)
    → Given space (give_space o ts f found place space).1
unfolding give_space
give_space-Given o ts f found place space = elim (Bool-cases (needs_space o.op f)) [
  | inl n ↦ elim (Bool-cases (space.size == 0)) [
    | inl e ↦ rw (n, e) (inl refl)
    | inr e ↦ rw (n, e) (inr refl)
  ]
  | inr n ↦ rw n (inl refl)
]

prepare-Given :
    (o : StringOp) (ts : ℕ) (s : Status) (found : Option IndexEntry) (place : Option EntryPtr)
    (space : SpaceEntry)
    → Given space (string_write_prepare o ts s found place space).1
unfolding string_write_prepare
prepare-Given o ts ok found place space = give_space-Given o ts true found place space
prepare-Given o ts not_found found place space = give_space-Given o ts false found place space
prepare-Given o ts key_outdated found place space = give_space-Given o ts false found place space
prepare-Given o ts Status.wrong_type found place space = inl refl
prepare-Given o ts Status.memory_overflow found place space = inl refl
prepare-Given o ts Status.pmem_overflow found place space = inl refl
prepare-Given o ts Status.invalid_data_size found place space = inl refl
prepare-Given o ts Status.invalid_argument found place space = inl refl
prepare-Given o ts Status.aborted found place space = inl refl

module _ (ki : KeyIndex) (ce : ℕ → IndexEntry → Bool) where
  -- The same memory, and an index in order that finds the same.
  abbrev Alike : State ki ce → State ki ce → Type 0
  Alike st st' =
      (st'.pmem ≡ st.pmem)
      × InOrder ki ce st'
      × ((j : Bytes) → find_in ki ce st' j ≡ find_in ki ce st j)

  lookup-Alike :
      (st : State ki ce) (now : ℕ) (k : Bytes)
      → InOrder ki ce st
      → Alike st (lookup_key ki ce true st now k string_type).0
  lookup-Alike st now k h = elim (Option-cases (find_in ki ce st k)) [
    | inr (e, f) ↦
        let (g, same) = Alike-touched ki ce st k h in
        rw (lookup_key-some ki ce st now k string_type true e f) (refl, g, same)
    | inl f ↦ elim (lookup_key-reserve ki ce st now k string_type f) [
      | inl (r, q) ↦ rw q (refl, h, λ j. refl)
      | inr (x, p, r, q) ↦
          let (g, own, same) = ki.reserve-Owns (keys_of st.pmem) st.index k x p h r in
          rw q (refl, g, same)
    ]
  ]

  -- The arguments of a preparation write only where Allocate has given space.
  abbrev Prepared :
      (ℕ → Type 0) → State ki ce → State ki ce × (Status × List StringWriteArgs) → Type 0
  Prepared P st r =
      Alike st r.0
      × All (λ (a : StringWriteArgs). ((a.space.size == 0) ≡ true) ⊎ P a.space.offset) r.1.1

  Given-place :
      (P : ℕ → Type 0) (space : SpaceEntry) (a : StringWriteArgs)
      → P space.offset
      → Given space a
      → ((a.space.size == 0) ≡ true) ⊎ P a.space.offset
  Given-place P space a p (inl e) = inl e
  Given-place P space a p (inr e) = inr (subst (λ (x : SpaceEntry). P x.offset) (sym e) p)

  unless_failed-Prepared :
      (P : ℕ → Type 0) (st0 st : State ki ce) (s : Status) (a : StringWriteArgs)
      (rest : State ki ce × (Status × List StringWriteArgs))
      → Alike st0 st
      → ((a.space.size == 0) ≡ true) ⊎ P a.space.offset
      → Prepared P st rest
      → Prepared P st0 (unless_failed ki ce s st a rest)
  unfolding unless_failed
  unless_failed-Prepared P st0 st ok a rest l g h =
      ((h.0.0 ∙ l.0, h.0.1, λ j. h.0.2 j ∙ l.2 j), (g, h.1))
  unless_failed-Prepared P st0 st Status.not_found a rest l g h = (l, (g, tt))
  unless_failed-Prepared P st0 st Status.key_outdated a rest l g h = (l, (g, tt))
  unless_failed-Prepared P st0 st Status.wrong_type a rest l g h = (l, (g, tt))
  unless_failed-Prepared P st0 st Status.memory_overflow a rest l g h = (l, (g, tt))
  unless_failed-Prepared P st0 st Status.pmem_overflow a rest l g h = (l, (g, tt))
  unless_failed-Prepared P st0 st Status.invalid_data_size a rest l g h = (l, (g, tt))
  unless_failed-Prepared P st0 st Status.invalid_argument a rest l g h = (l, (g, tt))
  unless_failed-Prepared P st0 st Status.aborted a rest l g h = (l, (g, tt))

  prepare_all-Prepared :
      (P : ℕ → Type 0) (os : List (StringOp × SpaceEntry)) (st : State ki ce) (now ts : ℕ)
      → InOrder ki ce st
      → All (λ (o : StringOp × SpaceEntry). P o.1.offset) os
      → Prepared P st (prepare_all ki ce st now ts os)
  unfolding prepare_all
  prepare_all-Prepared P [] st now ts g h = ((refl, g, λ j. refl), tt)
  prepare_all-Prepared P ((o, space) ∷ os) st now ts g h =
      let r = lookup_key ki ce true st now o.key string_type in
      let p = string_write_prepare o ts r.1.0 r.1.1 r.1.2 space in
      unless_failed-Prepared P st r.0 p.0 p.1 (prepare_all ki ce r.0 now ts os)
        (lookup-Alike st now o.key g)
        (Given-place P space p.1 h.0 (prepare-Given o ts r.1.0 r.1.1 r.1.2 space))
        (prepare_all-Prepared P os r.0 now ts (lookup-Alike st now o.key g).1 h.1)

  write_all-index :
      (as_ : List StringWriteArgs) (st : State ki ce) → (write_all ki ce st as_).index ≡ st.index
  unfolding write_all string_write
  write_all-index [] st = refl
  write_all-index (a ∷ as_) st = elim (Bool-cases (a.space.size == 0)) [
    | inl e ↦ rw (write_all, e) (write_all-index as_ st)
    | inr e ↦ rw (write_all, e) (write_all-index as_ (string_write ki ce st a))
  ]

  -- Writes of records leave the index and every place that is not written.
  write_all-elsewhere :
      (as_ : List StringWriteArgs) (st : State ki ce) (place : ℕ)
      → All (λ (a : StringWriteArgs). ((a.space.size == 0) ≡ true) ⊎ (place ≢ a.space.offset)) as_
      → ((write_all ki ce st as_).index ≡ st.index)
        × ((write_all ki ce st as_).pmem place ≡ st.pmem place)
  unfolding write_all string_write
  write_all-elsewhere [] st place h = (refl, refl)
  write_all-elsewhere (a ∷ as_) st place h = elim (Bool-cases (a.space.size == 0)) [
    | inl e ↦ rw (write_all, e) (write_all-elsewhere as_ st place h.1)
    | inr e ↦ elim h.0 [
      | inl z ↦ absurd (not_both e z)
      | inr n ↦
          let (i, p) = write_all-elsewhere as_ (string_write ki ce st a) place h.1 in
          rw (write_all, e) (i, p ∙ rw (ne→== place a.space.offset n) refl)
    ]
  ]

  All-apart :
      (st : State ki ce) (place : ℕ) (as_ : List StringWriteArgs)
      → ((o : ℕ) → Fresh ki ce st o → place ≢ o)
      → All
          (λ (a : StringWriteArgs). ((a.space.size == 0) ≡ true) ⊎ Fresh ki ce st a.space.offset)
          as_
      → All (λ (a : StringWriteArgs). ((a.space.size == 0) ≡ true) ⊎ (place ≢ a.space.offset)) as_
  All-apart st place [] f h = tt
  All-apart st place (a ∷ as_) f h =
      (elim h.0 [ inl e ↦ inl e | inr g ↦ inr (f a.space.offset g) ], All-apart st place as_ f h.1)

  -- After the preparations of a batch, failed or not, and the writes of the records that they gave
  -- space to, the index is in order and no read has changed, if the index was in order before and
  -- the space from Allocate is not in use.
  pub get-write_all :
      (st : State ki ce) (now ts : ℕ) (os : List (StringOp × SpaceEntry)) (later : ℕ) (j : Bytes)
      → InOrder ki ce st
      → All (λ (o : StringOp × SpaceEntry). Fresh ki ce st o.1.offset) os
      → let w =
          write_all ki ce (prepare_all ki ce st now ts os).0 (prepare_all ki ce st now ts os).1.1 in
        InOrder ki ce w × (get ki ce w later j ≡ get ki ce st later j)
  get-write_all st now ts os later j h fresh =
      let r = prepare_all ki ce st now ts os in
      let (alike, given) = prepare_all-Prepared (Fresh ki ce st) os st now ts h fresh in
      let w = write_all ki ce r.0 r.1.1 in
      let elsewhere : (i : Bytes) (e : IndexEntry)
          → find_in ki ce st i ≡ some e
          → w.pmem e.index ≡ r.0.pmem e.index =
        λ i e f.
          (write_all-elsewhere r.1.1 r.0 e.index
            (All-apart st e.index r.1.1 (λ o g. g i e f) given)).1 in
      let moved =
        ki.find-moved (keys_of r.0.pmem) (keys_of w.pmem) r.0.index alike.1
          (λ i e f. ap (λ (x : StringRecord). x.key) (elsewhere i e (sym (alike.2 i) ∙ f))) in
      (
        subst (ki.IsIndex (keys_of w.pmem)) (sym (write_all-index r.1.1 r.0)) moved.0,
        get-same ki ce st w later j
            (ap (λ (x : ki.Table). ki.find (keys_of w.pmem) x j) (write_all-index r.1.1 r.0)
              ∙ moved.1 j
              ∙ alike.2 j)
            (λ e f. elsewhere j e f ∙ ap (λ (m : ℕ → StringRecord). m e.index) alike.0),
      )
