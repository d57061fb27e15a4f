-- ===== src/StringEngine/Find.antt =====
-- What a read finds, in terms of the index and the record that it names.
use kvdk.Prelude.{
  ℕ, ◌≡◌, refl, ◌⊎◌, inl, inr, Option, none, some, Option-cases, Bool, true, false, if◌then◌else◌,
  [],
}
use kvdk.Codec.Bytes.{Bytes}
use kvdk.HashTable.{EntryPtr}
use kvdk.StringEngine.{
  pmem_overflow, invalid_argument, aborted, answer, KeyIndex, IndexEntry, StringRecord, State,
  Status, ok, not_found, key_outdated, wrong_type, memory_overflow, invalid_data_size, classify,
  lookup_key, find_in, touched, keys_of, get, check_key_size, string_type,
}

module _ (ki : KeyIndex) (ce : ℕ → IndexEntry → Bool) where
  -- The read of what the index has for a key.
  abbrev pub read : (ℕ → StringRecord) → ℕ → Option IndexEntry → Status × Bytes
  read pmem now none = (not_found, [])
  read pmem now (some e) = answer ki ce pmem (classify ki ce pmem now string_type e) (some e)

  pub get-read :
      (st : State ki ce) (now : ℕ) (k : Bytes)
      → get ki ce st now k ≡ (
          if check_key_size k
          then read st.pmem now (find_in ki ce st k)
          else (invalid_data_size, []))
  unfolding get lookup_key answer
  get-read st now k = elim (Option-cases (find_in ki ce st k)) [
    | inl e ↦ simp (get, lookup_key, e) refl
    | inr x ↦ simp (get, lookup_key, x.1) refl
  ]

  module _ (st : State ki ce) (now : ℕ) (k : Bytes) (m : ℕ) where
    -- The two outcomes of a lookup that finds something, and of one that does not.
    pub lookup_key-some :
        (may_insert : Bool) (e : IndexEntry)
        → find_in ki ce st k ≡ some e
        → lookup_key ki ce may_insert st now k m
          ≡ (touched ki ce st k, (classify ki ce st.pmem now m e, some e, some e.place))
    unfolding lookup_key
    lookup_key-some may_insert e h = simp (lookup_key, h) refl

    pub lookup_key-none :
        find_in ki ce st k ≡ none
        → lookup_key ki ce false st now k m ≡ (touched ki ce st k, (not_found, none, none))
    unfolding lookup_key
    lookup_key-none h = simp (lookup_key, h) refl

    pub lookup_key-reserve :
        find_in ki ce st k ≡ none
        → ((ki.reserve (keys_of st.pmem) st.index k ≡ none)
            × (lookup_key ki ce true st now k m ≡ (st, (memory_overflow, none, none))))
          ⊎ ((x : ki.Table) × (p : EntryPtr) × (ki.reserve (keys_of st.pmem) st.index k
                ≡ some (x, p))
              × (lookup_key ki ce true st now k m
                  ≡ (record st { index = x }, (not_found, none, some p))))
    unfolding lookup_key
    lookup_key-reserve h = elim (Option-cases (ki.reserve (keys_of st.pmem) st.index k)) [
      | inl e ↦ inl (e, simp (lookup_key, h, e) refl)
      | inr (y, r) ↦ inr (y.0, y.1, r, simp (lookup_key, h, r) refl)
    ]

  classify-same :
      (pmem pmem' : ℕ → StringRecord) (now : ℕ) (e : IndexEntry)
      → pmem' e.index ≡ pmem e.index
      → classify ki ce pmem' now string_type e ≡ classify ki ce pmem now string_type e
  unfolding classify
  classify-same pmem pmem' now e h = rw h refl

  answer-same :
      (pmem pmem' : ℕ → StringRecord) (e : IndexEntry)
      → pmem' e.index ≡ pmem e.index
      → (s : Status) → answer ki ce pmem' s (some e) ≡ answer ki ce pmem s (some e)
  unfolding answer
  answer-same pmem pmem' e h ok = rw h refl
  answer-same pmem pmem' e h not_found = refl
  answer-same pmem pmem' e h key_outdated = refl
  answer-same pmem pmem' e h wrong_type = refl
  answer-same pmem pmem' e h memory_overflow = refl
  answer-same pmem pmem' e h pmem_overflow = refl
  answer-same pmem pmem' e h invalid_data_size = refl
  answer-same pmem pmem' e h invalid_argument = refl
  answer-same pmem pmem' e h aborted = refl

  -- Reads depend on the index and on the records that it names.
  pub get-same :
      (st st' : State ki ce) (now : ℕ) (j : Bytes)
      → find_in ki ce st' j ≡ find_in ki ce st j
      → ((e : IndexEntry) → find_in ki ce st j ≡ some e → st'.pmem e.index ≡ st.pmem e.index)
      → get ki ce st' now j ≡ get ki ce st now j
  get-same st st' now j e h =
      rw (get-read st' now j, get-read st now j, e) (read-same (find_in ki ce st j) refl)
    where
      read-same :
          (o : Option IndexEntry)
          → find_in ki ce st j ≡ o
          → (if check_key_size j then read st'.pmem now o else (invalid_data_size, []))
            ≡ (if check_key_size j then read st.pmem now o else (invalid_data_size, []))
      read-same none f = refl
      read-same (some x) f =
          rw
            (
              classify-same st.pmem st'.pmem now x (h x f),
              answer-same st.pmem st'.pmem x (h x f) (classify ki ce st.pmem now string_type x),
            )
            refl
