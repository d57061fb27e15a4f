-- ===== src/StringEngine/Publish.antt =====
-- What the publication of a record does to later reads.
use kvdk.Prelude.{
  ℤ, ne→==, ℕ, ◌≡◌, refl, ap, subst, ◌∙◌, inl, inr, ◌≢◌, some, Bool-cases, Bool, true, false,
  if◌then◌else◌, [], ◌==◌, arith,
}
use kvdk.Codec.Bytes.{Bytes}
use kvdk.DlList.{RecordStatus, SpaceEntry}
use kvdk.Batch.Ops.KeyedSet.{bytes_eq, bytes_eq_iff}
use kvdk.HashTable.{EntryPtr}
use kvdk.StringEngine.{
  find_in, InOrder, keys_of, put_entry, touched, StringRecord, KeyIndex, IndexEntry, State, ok,
  not_found, invalid_data_size, classify, get, answer, publish, check_key_size, string_type,
  is_outdated,
}
use kvdk.StringEngine.Time.{check_is_expired}
use kvdk.StringEngine.Find.{read, get-read, get-same}

module _ (ki : KeyIndex) (ce : ℕ → IndexEntry → Bool) where
  -- No entry of the index names the place: Allocate hands out space that is not in use.
  abbrev pub Fresh : State ki ce → ℕ → Type 0
  Fresh st o = (j : Bytes) (e : IndexEntry) → find_in ki ce st j ≡ some e → e.index ≢ o

  -- An index in order that finds what the state's finds.
  abbrev pub Alike : State ki ce → ki.Table → Type 0
  Alike st x =
      ki.IsIndex (keys_of st.pmem) x
      × ((j : Bytes) → ki.find (keys_of st.pmem) x j ≡ find_in ki ce st j)

  pub Alike-self : (st : State ki ce) → InOrder ki ce st → Alike st st.index
  Alike-self st h = (h, λ j. refl)

  pub Alike-touched :
      (st : State ki ce) (k : Bytes) → InOrder ki ce st → Alike st (touched ki ce st k).index
  Alike-touched st k h = ki.find-touch (keys_of st.pmem) st.index k h

  module _ (st : State ki ce) (space : SpaceEntry) (ts : ℕ) (status : RecordStatus) (old : ℕ)
      (p : EntryPtr) (k v : Bytes) (exp : ℤ) where
    abbrev published : State ki ce
    published = publish ki ce st space ts status old (some p) k v exp

    abbrev entry : IndexEntry
    entry = record { type = string_type; status = status; index = space.offset; place = p }

    published-elsewhere :
        Fresh st space.offset
        → (j : Bytes) (e : IndexEntry) → find_in ki ce st j ≡ some e
        → published.pmem e.index ≡ st.pmem e.index
    unfolding publish
    published-elsewhere fresh j e h = rw (ne→== e.index space.offset (fresh j e h)) refl

    published-key : (published.pmem space.offset).key ≡ k
    unfolding publish
    published-key = let same : (space.offset == space.offset) ≡ true = ground arith in rw same refl

    published-put : published.index ≡ ki.put st.index k entry
    unfolding publish put_entry
    published-put = refl

    module _ (fresh : Fresh st space.offset) (h : InOrder ki ce st)
        (own : ki.Owns (keys_of st.pmem) st.index k p) where
      published-find :
          InOrder ki ce published
          × ((j : Bytes)
              → find_in ki ce published j
                ≡ (if bytes_eq k j then some entry else find_in ki ce st j))
      published-find = rw published-put (
          ki.find-put (keys_of st.pmem) (keys_of published.pmem) st.index k entry h own refl
            published-key
            (λ j e f. ap (λ (r : StringRecord). r.key) (published-elsewhere fresh j e f)))

      published-other :
          (now : ℕ) (j : Bytes)
          → bytes_eq k j ≡ false
          → get ki ce published now j ≡ get ki ce st now j
      published-other now j other =
          get-same ki ce st published now j (published-find.1 j ∙ rw other refl)
            (published-elsewhere fresh j)

      published-read :
          (now : ℕ)
          → get ki ce published now k ≡ (
              if check_key_size k
              then read ki ce published.pmem now (some entry)
              else (invalid_data_size, []))
      published-read now =
          let e : bytes_eq k k ≡ true = ground (arith, bytes_eq_iff k k) in
          let f : find_in ki ce published k ≡ some entry = published-find.1 k ∙ rw e refl in
          get-read ki ce published now k ∙ rw f refl

    published-value : answer ki ce published.pmem ok (some entry) ≡ (ok, v)
    unfolding publish answer
    published-value =
        let same : (space.offset == space.offset) ≡ true = ground arith in rw same refl

    published-entry :
        (now : ℕ)
        → read ki ce published.pmem now (some entry) ≡ (
            if is_outdated status
            then (not_found, [])
            else (if check_is_expired exp now then (not_found, []) else (ok, v)))
    unfolding publish classify answer
    published-entry now =
        let same : (space.offset == space.offset) ≡ true = ground arith in
        elim (Bool-cases (is_outdated status)) [
          | inl o ↦ rw (same, o) refl
          | inr n ↦ elim (Bool-cases (check_is_expired exp now)) [
            | inl x ↦ rw (same, n, x) refl
            | inr x ↦ rw (same, n, x) published-value
          ]
        ]

    -- Reads of every key behind a publication.
    pub get-publish :
        (now : ℕ) (j : Bytes)
        → Fresh st space.offset
        → InOrder ki ce st
        → ki.Owns (keys_of st.pmem) st.index k p
        → check_key_size k ≡ true
        → get ki ce published now j ≡ (
            if bytes_eq k j
            then (if is_outdated status
                then (not_found, [])
                else (if check_is_expired exp now then (not_found, []) else (ok, v)))
            else get ki ce st now j)
    get-publish now j fresh h own small = elim (Bool-cases (bytes_eq k j)) [
      | inl e ↦ rw e (
          subst
            (λ (i : Bytes). get ki ce published now i ≡ (
              if is_outdated status
              then (not_found, [])
              else (if check_is_expired exp now then (not_found, []) else (ok, v))))
            ((bytes_eq_iff k j).0 e)
            (published-read fresh h own now ∙ rw small (published-entry now)))
      | inr e ↦ rw e (published-other fresh h own now j e)
    ]

    pub publish-InOrder :
        Fresh st space.offset
        → InOrder ki ce st
        → ki.Owns (keys_of st.pmem) st.index k p
        → InOrder ki ce published
    publish-InOrder fresh h own = (published-find fresh h own).0
