-- ===== src/StringEngine/Restore/Order.antt =====
-- The whole recovery of the strings.
use kvdk.Prelude.{
  ◌&&◌, not, some_inj, not_both, ℕ, ◌≤◌, ◌≡◌, refl, sym, ap, subst, ◌∙◌, ◌⊎◌, inl, inr, ◌≢◌,
  fun_ext, Option, none, some, Option-cases, Bool-cases, Bool, true, false, ◌||◌, ◌==◌, leb, arith,
  List, [], ◌∷◌, has,
}
use kvdk.Codec.Bytes.{Bytes}
use kvdk.Batch.Ops.KeyedSet.{bytes_eq, bytes_eq_iff}
use kvdk.HashTable.{EntryPtr}
use kvdk.StringEngine.{keys_of, KeyIndex, IndexEntry, StringRecord, Status, ok, memory_overflow}
use kvdk.StringEngine.Restore.{
  unless_failed, Recovery, beyond_checkpoint, purge, take_in, restore_string_record, restore_all,
  replace_restored,
}
use kvdk.StringEngine.Restore.Newest.{
  IsNewest, beyond-same, with_one, dropped-IsNewest, taken-IsNewest,
}

reorder : (a b d : Bool) → (b || (a || d)) ≡ ((a || b) || d)
reorder a b d = ground arith

module _ (ki : KeyIndex) (c : Option ℕ) (p0 : ℕ → StringRecord) where
  abbrev Step : (ℕ → Bool) → ℕ → Recovery ki.Table × Status → Type 0
  Step done o r = (r.1 ≢ ok) ⊎ IsNewest ki c p0 r.0 (with_one o done)

  module _ (st : Recovery ki.Table) (done : ℕ → Bool) (h : IsNewest ki c p0 st done) (o : ℕ) where
    keys-same : keys_of st.pmem ≡ keys_of p0
    keys-same = fun_ext h.same_key

    -- A record whose key is in the index already.
    replace_restored-IsNewest :
        (e : IndexEntry)
        → beyond_checkpoint c (p0 o) ≡ false
        → ki.find (keys_of p0) st.index (p0 o).key ≡ some e
        → IsNewest ki c p0 (replace_restored ki c st o e) (with_one o done)
    unfolding replace_restored purge
    replace_restored-IsNewest e visible f =
        let x = ki.touch (keys_of p0) st.index (p0 o).key in
        let (g, same) = ki.find-touch (keys_of p0) st.index (p0 o).key h.in_order in
        let own = ki.find-Owns (keys_of p0) x (p0 o).key e g (same (p0 o).key ∙ f) in
        let a = h.same_ts o in
        let b = h.same_ts e.index in
        elim (Bool-cases (leb (st.pmem o).timestamp (st.pmem e.index).timestamp)) [
          | inl le ↦
              rw (le, keys-same, h.same_key o)
                (dropped-IsNewest ki c p0 st done h o x (o ∷ st.purged) g same
                  (inr (e, f, ground arith)))
          | inr gt ↦
              rw (gt, keys-same, h.same_key o)
                (taken-IsNewest ki c p0 st done h o x e.place
                  (e.index ∷ (take_in ki c st x e.place o).purged) g own same visible
                  (λ j there vis key.
                    let (d, w, le) = h.newest j there vis in
                    let same : d ≡ e =
                      some_inj d e (sym w ∙ ap (ki.find (keys_of p0) st.index) key ∙ f) in
                    let le' =
                      subst (λ (i : IndexEntry). (p0 j).timestamp ≤ (p0 i.index).timestamp) same
                        le in
                    ground arith))
        ]

    -- A record of a new key.
    new-IsNewest :
        (x : ki.Table) (p : EntryPtr)
        → beyond_checkpoint c (p0 o) ≡ false
        → ki.find (keys_of p0) st.index (p0 o).key ≡ none
        → ki.reserve (keys_of p0) st.index (p0 o).key ≡ some (x, p)
        → IsNewest ki c p0 (take_in ki c st x p o) (with_one o done)
    unfolding take_in
    new-IsNewest x p visible f r =
        let (g, own, same) = ki.reserve-Owns (keys_of p0) st.index (p0 o).key x p h.in_order r in
        taken-IsNewest ki c p0 st done h o x p st.purged g own same visible (λ j there vis key.
          let (d, w, le) = h.newest j there vis in
          absurd (none-some (p0 o).key d f (sym (ap (ki.find (keys_of p0) st.index) key) ∙ w)))
      where
        none-some :
            (k : Bytes) (d : IndexEntry)
            → ki.find (keys_of p0) st.index k ≡ none
            → ki.find (keys_of p0) st.index k ≡ some d
            → ⊥
        none-some k d a b = cc

    restore-Step : Step done o (restore_string_record ki c st o)
    unfolding restore_string_record
    restore-Step =
        let same : beyond_checkpoint c (st.pmem o) ≡ beyond_checkpoint c (p0 o) =
          beyond-same c (st.pmem o) (p0 o) (h.same_ts o) in
        let key = h.same_key o in
        elim (Bool-cases (beyond_checkpoint c (p0 o))) [
          | inl b ↦
              rw (same, b)
                (inr (
                  unfold purge in
                  dropped-IsNewest ki c p0 st done h o st.index (o ∷ st.purged) h.in_order
                    (λ j. refl) (inl b)))
          | inr b ↦ elim (Option-cases (ki.find (keys_of p0) st.index (p0 o).key)) [
            | inr (e, f) ↦
                let f' : ki.find (keys_of st.pmem) st.index (st.pmem o).key ≡ some e =
                  rw (keys-same, key) f in
                rw (same, b, f') (inr (replace_restored-IsNewest e b f))
            | inl f ↦
                let f' : ki.find (keys_of st.pmem) st.index (st.pmem o).key ≡ none =
                  rw (keys-same, key) f in
                elim (Option-cases (ki.reserve (keys_of st.pmem) st.index (st.pmem o).key)) [
                  | inl r ↦ rw (same, b, f', r) (inl (λ (z : memory_overflow ≡ ok). cc))
                  | inr ((x, p), r) ↦
                      let r' : ki.reserve (keys_of p0) st.index (p0 o).key ≡ some (x, p) =
                        subst (λ (i : Bytes). ki.reserve (keys_of p0) st.index i ≡ some (x, p)) key
                          (subst
                            (λ (ks : ℕ → Bytes).
                              ki.reserve ks st.index (st.pmem o).key ≡ some (x, p))
                            keys-same r) in
                      rw (same, b, f', r) (inr (new-IsNewest x p b f r'))
                ]
          ]
        ]

  unless_failed-ok :
      (s : Status) (st : Recovery ki.Table) (rest : Recovery ki.Table × Status)
      → (unless_failed ki c s st rest).1 ≡ ok
      → (s ≡ ok) × (unless_failed ki c s st rest ≡ rest)
  unfolding unless_failed
  unless_failed-ok Status.ok st rest h = (refl, refl)
  unless_failed-ok Status.not_found st rest h = let z : ⊥ = cc in absurd z
  unless_failed-ok Status.key_outdated st rest h = let z : ⊥ = cc in absurd z
  unless_failed-ok Status.wrong_type st rest h = let z : ⊥ = cc in absurd z
  unless_failed-ok Status.memory_overflow st rest h = let z : ⊥ = cc in absurd z
  unless_failed-ok Status.pmem_overflow st rest h = let z : ⊥ = cc in absurd z
  unless_failed-ok Status.invalid_data_size st rest h = let z : ⊥ = cc in absurd z
  unless_failed-ok Status.invalid_argument st rest h = let z : ⊥ = cc in absurd z
  unless_failed-ok Status.aborted st rest h = let z : ⊥ = cc in absurd z

  start-IsNewest :
      (st : Recovery ki.Table)
      → st.pmem ≡ p0
      → ki.IsIndex (keys_of p0) st.index
      → ((k : Bytes) → ki.find (keys_of p0) st.index k ≡ none)
      → IsNewest ki c p0 st (λ j. false)
  start-IsNewest st start g none_yet = record {
    in_order = g;
    same_key = λ o. ap (λ (f : ℕ → StringRecord). (f o).key) start;
    same_ts = λ o. ap (λ (f : ℕ → StringRecord). (f o).timestamp) start;
    held = λ k e f. absurd (none-some (ki.find (keys_of p0) st.index k) e (none_yet k) f);
    newest = λ o d v. absurd (not_both refl d);
  }
    where
      none-some : (o : Option IndexEntry) (d : IndexEntry) → o ≡ none → o ≡ some d → ⊥
      none-some o d a b = cc

  restore_all-IsNewest :
      (os : List ℕ) (st : Recovery ki.Table) (done : ℕ → Bool)
      → IsNewest ki c p0 st done
      → (restore_all ki c st os).1 ≡ ok
      → IsNewest ki c p0 (restore_all ki c st os).0 (λ j. has j os || done j)
  unfolding restore_all
  restore_all-IsNewest [] st done h all = h
  restore_all-IsNewest (o ∷ os) st done h all =
      let next = restore_string_record ki c st o in
      let (one, rest) = unless_failed-ok next.1 next.0 (restore_all ki c next.0 os) all in
      let all' = subst (λ (r : Recovery ki.Table × Status). r.1 ≡ ok) rest all in
      elim (restore-Step st done h o) [
        | inl n ↦ absurd (n one)
        | inr g ↦ rw rest (
            subst (IsNewest ki c p0 (restore_all ki c next.0 os).0)
              (fun_ext (λ j. reorder (j == o) (has j os) (done j)))
              (restore_all-IsNewest os next.0 (with_one o done) g all'))
      ]

  lost :
      (st : Recovery ki.Table) (j k : Bytes) (d : IndexEntry)
      → ki.find (keys_of p0) st.index j ≡ some d
      → j ≡ k
      → ki.find (keys_of p0) st.index k ≡ none
      → ⊥
  lost st j k d g e f = let q = ap (ki.find (keys_of p0) st.index) e in cc

  abbrev recovered : Recovery ki.Table → List ℕ → Recovery ki.Table
  recovered st os = (restore_all ki c st os).0

  -- Recovery of a list of records into an empty index in order, if it does not run out of memory:
  -- the index is in order again, and each record that is not beyond the check point has its key in
  -- it, at a record of the list with that key that is not beyond the check point either and not
  -- older; and the index has no other keys.
  pub restore_all-newest :
      (st : Recovery ki.Table) (os : List ℕ) (k : Bytes)
      → st.pmem ≡ p0
      → ki.IsIndex (keys_of p0) st.index
      → ((j : Bytes) → ki.find (keys_of p0) st.index j ≡ none)
      → (restore_all ki c st os).1 ≡ ok
      → let r = (restore_all ki c st os).0 in
        ki.IsIndex (keys_of r.pmem) r.index
        × (((ki.find (keys_of r.pmem) r.index k ≡ none)
              × ((o : ℕ)
                  → ¬ (
                      (has o os ≡ true) × (beyond_checkpoint c (p0 o) ≡ false) × ((p0 o).key ≡ k))))
            ⊎ ((e : IndexEntry) × (ki.find (keys_of r.pmem) r.index k ≡ some e)
                × (has e.index os ≡ true)
                × ((p0 e.index).key ≡ k)
                × (beyond_checkpoint c (p0 e.index) ≡ false)
                × ((o : ℕ)
                    → ((has o os && not (beyond_checkpoint c (p0 o)) && bytes_eq (p0 o).key k)
                        ≡ false)
                      ⊎ ((p0 o).timestamp ≤ (p0 e.index).timestamp))))
  restore_all-newest st os k start g none_yet all =
      let h = restore_all-IsNewest os st (λ j. false) (start-IsNewest st start g none_yet) all in
      let keys : keys_of (recovered st os).pmem ≡ keys_of p0 = fun_ext h.same_key in
      rw keys (
        h.in_order,
        elim (Option-cases (ki.find (keys_of p0) (recovered st os).index k)) [
          | inl f ↦ inl (
            f,
            λ o w.
                let (d, g, le) = h.newest o (ground arith) w.1 in
                absurd (lost (recovered st os) (p0 o).key k d g w.2 f),
          )
          | inr (e, f) ↦
              let (d, kk, v) = h.held k e f in
              inr (
                e,
                f,
                ground arith,
                kk,
                v,
                λ o.
                    elim (Bool-cases
                      (has o os && not (beyond_checkpoint c (p0 o)) && bytes_eq (p0 o).key k)) [
                        | inr no_match ↦ inl no_match
                        | inl yes_match ↦
                            let key = (bytes_eq_iff (p0 o).key k).0 (ground arith) in
                            let (x, g, le) = h.newest o (ground arith) (ground arith) in
                            let same : x ≡ e =
                              some_inj x e (
                                sym g
                                ∙ ap (ki.find (keys_of p0) (recovered st os).index) key
                                ∙ f) in
                            inr (
                              subst (λ (i : IndexEntry). (p0 o).timestamp ≤ (p0 i.index).timestamp)
                                same le)
                      ],
              )
        ],
      )
