-- ===== src/StringEngine/Restore/Newest.antt =====
-- The index that recovery builds holds the newest record of each key, in whatever order the records
-- are found.
use kvdk.Prelude.{
  not_both, some_inj, ℕ, ◌≤◌, ◌≡◌, refl, sym, ap, subst, ◌∙◌, ◌⊎◌, inl, inr, Option, none, some,
  Bool-cases, Bool, true, false, ◌||◌, if◌then◌else◌, ◌==◌, ltb, arith, List,
}
use kvdk.Codec.Bytes.{Bytes}
use kvdk.Batch.Ops.KeyedSet.{bytes_eq, bytes_eq_iff}
use kvdk.HashTable.{EntryPtr}
use kvdk.StringEngine.{keys_of, KeyIndex, IndexEntry, StringRecord, string_type}
use kvdk.StringEngine.Restore.{Recovery, forget_old_version, beyond_checkpoint, take_in}

-- The index so far, over the records that were found so far: what it holds is one of them, and none
-- of them is newer. Records beyond the check point do not count.
pub record IsNewest (ki : KeyIndex) (checkpoint : Option ℕ) (p0 : ℕ → StringRecord)
    (st : Recovery ki.Table) (done : ℕ → Bool) : Type 0 where
  pub same_key : (o : ℕ) → (st.pmem o).key ≡ (p0 o).key
  pub same_ts : (o : ℕ) → (st.pmem o).timestamp ≡ (p0 o).timestamp
  pub in_order : ki.IsIndex (keys_of p0) st.index
  pub held :
      (k : Bytes) (e : IndexEntry)
      → ki.find (keys_of p0) st.index k ≡ some e
      → (done e.index ≡ true)
        × ((p0 e.index).key ≡ k)
        × (beyond_checkpoint checkpoint (p0 e.index) ≡ false)
  pub newest :
      (o : ℕ)
      → done o ≡ true
      → beyond_checkpoint checkpoint (p0 o) ≡ false
      → (e : IndexEntry) × (ki.find (keys_of p0) st.index (p0 o).key ≡ some e)
        × ((p0 o).timestamp ≤ (p0 e.index).timestamp)

pub beyond-same :
    (c : Option ℕ) (r r' : StringRecord)
    → r.timestamp ≡ r'.timestamp
    → beyond_checkpoint c r ≡ beyond_checkpoint c r'
unfolding beyond_checkpoint
beyond-same none r r' h = refl
beyond-same (some t) r r' h = ap (λ (n : ℕ). ltb t n) h

forget-key : (p : ℕ → StringRecord) (o x : ℕ) → (forget_old_version p o x).key ≡ (p x).key
unfolding forget_old_version
forget-key p o x = elim (Bool-cases (x == o)) [
  | inl e ↦ rw e (let q : x ≡ o = ground arith in rw q refl)
  | inr e ↦ rw e refl
]

forget-timestamp :
    (p : ℕ → StringRecord) (o x : ℕ) → (forget_old_version p o x).timestamp ≡ (p x).timestamp
unfolding forget_old_version
forget-timestamp p o x = elim (Bool-cases (x == o)) [
  | inl e ↦ rw e (let q : x ≡ o = ground arith in rw q refl)
  | inr e ↦ rw e refl
]

abbrev pub with_one : ℕ → (ℕ → Bool) → ℕ → Bool
with_one o done j = (j == o) || done j

module _ (ki : KeyIndex) (c : Option ℕ) (p0 : ℕ → StringRecord) (st : Recovery ki.Table)
    (done : ℕ → Bool) (h : IsNewest ki c p0 st done) (o : ℕ) where
  -- A record that is dropped.
  pub dropped-IsNewest :
      (x : ki.Table) (ps : List ℕ)
      → ki.IsIndex (keys_of p0) x
      → ((j : Bytes) → ki.find (keys_of p0) x j ≡ ki.find (keys_of p0) st.index j)
      → (beyond_checkpoint c (p0 o) ≡ true)
        ⊎ ((e : IndexEntry) × (ki.find (keys_of p0) st.index (p0 o).key ≡ some e)
            × ((p0 o).timestamp ≤ (p0 e.index).timestamp))
      → IsNewest ki c p0 record st { index = x; purged = ps } (with_one o done)
  dropped-IsNewest x ps g same why = record {
    in_order = g;
    same_key = h.same_key;
    same_ts = h.same_ts;
    held = λ k e f. let (a, b, d) = h.held k e (sym (same k) ∙ f) in (ground arith, b, d);
    newest = λ j here visible. elim (Bool-cases (j == o)) [
      | inl e ↦
          let q : j ≡ o = ground arith in
          elim why [
            | inl b ↦
                absurd
                  (not_both (subst (λ (i : ℕ). beyond_checkpoint c (p0 i) ≡ false) q visible) b)
            | inr (d, f, le) ↦
                subst
                  (λ (i : ℕ).
                    (e : IndexEntry) × (ki.find (keys_of p0) x (p0 i).key ≡ some e)
                    × ((p0 i).timestamp ≤ (p0 e.index).timestamp))
                  (sym q) (d, same (p0 o).key ∙ f, le)
          ]
      | inr e ↦ let (d, f, le) = h.newest j (ground arith) visible in (d, same (p0 j).key ∙ f, le)
    ];
  }

  abbrev new_entry : EntryPtr → IndexEntry
  new_entry p = record { type = string_type; status = (st.pmem o).status; index = o; place = p }

  find-taken :
      (x : ki.Table) (p : EntryPtr)
      → ki.IsIndex (keys_of p0) x
      → ki.Owns (keys_of p0) x (p0 o).key p
      → ((j : Bytes) → ki.find (keys_of p0) x j ≡ ki.find (keys_of p0) st.index j)
      → ki.IsIndex (keys_of p0) (take_in ki c st x p o).index
        × ((k : Bytes)
            → ki.find (keys_of p0) (take_in ki c st x p o).index k ≡ (
                if bytes_eq (p0 o).key k
                then some (new_entry p)
                else ki.find (keys_of p0) st.index k))
  unfolding take_in
  find-taken x p g own same =
      let (a, b) =
        ki.find-put (keys_of p0) (keys_of p0) x (p0 o).key (new_entry p) g own refl refl
          (λ j d f. refl) in
      rw (h.same_key o) (a, λ k. b k ∙ rw (same k) refl)

  -- A record that is taken in, since no other of its key is newer.
  pub taken-IsNewest :
      (x : ki.Table) (p : EntryPtr) (ps : List ℕ)
      → ki.IsIndex (keys_of p0) x
      → ki.Owns (keys_of p0) x (p0 o).key p
      → ((j : Bytes) → ki.find (keys_of p0) x j ≡ ki.find (keys_of p0) st.index j)
      → beyond_checkpoint c (p0 o) ≡ false
      → ((j : ℕ)
          → done j ≡ true
          → beyond_checkpoint c (p0 j) ≡ false
          → (p0 j).key ≡ (p0 o).key
          → (p0 j).timestamp ≤ (p0 o).timestamp)
      → IsNewest ki c p0 (record (take_in ki c st x p o) { purged = ps }) (with_one o done)
  taken-IsNewest x p ps g own same visible older = record {
    in_order = (find-taken x p g own same).0;
    same_key = λ i. unfold take_in in forget-key st.pmem o i ∙ h.same_key i;
    same_ts = λ i. unfold take_in in forget-timestamp st.pmem o i ∙ h.same_ts i;
    held = λ k e f. elim (Bool-cases (bytes_eq (p0 o).key k)) [
      | inl b ↦
          let q : new_entry p ≡ e =
            some_inj (new_entry p) e (sym ((find-taken x p g own same).1 k ∙ rw b refl) ∙ f) in
          subst
            (λ (i : IndexEntry).
              (with_one o done i.index ≡ true)
              × ((p0 i.index).key ≡ k)
              × (beyond_checkpoint c (p0 i.index) ≡ false))
            q (ground arith, (bytes_eq_iff (p0 o).key k).0 b, visible)
      | inr b ↦
          let (d, kk, v) = h.held k e (sym ((find-taken x p g own same).1 k ∙ rw b refl) ∙ f) in
          (ground arith, kk, v)
    ];
    newest = λ j here vis. elim (Bool-cases (bytes_eq (p0 o).key (p0 j).key)) [
      | inl b ↦ (
        new_entry p,
        (find-taken x p g own same).1 (p0 j).key ∙ rw b refl,
        elim (Bool-cases (j == o)) [
          | inl e ↦ let q : j ≡ o = ground arith in rw q (omega arith)
          | inr e ↦ older j (ground arith) vis (sym ((bytes_eq_iff (p0 o).key (p0 j).key).0 b))
        ],
      )
      | inr b ↦ elim (Bool-cases (j == o)) [
        | inl e ↦
            let q : j ≡ o = ground arith in
            absurd (
              not_both b
                ((bytes_eq_iff (p0 o).key (p0 j).key).1 (ap (λ (i : ℕ). (p0 i).key) (sym q))))
        | inr e ↦
            let (d, f, v) = h.newest j (ground arith) vis in
            (d, (find-taken x p g own same).1 (p0 j).key ∙ rw b f, v)
      ]
    ];
  }
