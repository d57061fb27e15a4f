-- ===== src/StringEngine/Deletes.antt =====
-- Delete and the reads behind it.
use Prim.Native.Nat.{bit_and}
use kvdk.Prelude.{
  ℤ, pos, negsuc, ℕ, ◌≤◌, ◌≡◌, refl, subst, ◌⊎◌, inl, inr, ◌≢◌, none, some, Option-cases,
  Bool-cases, Bool, true, false, if◌then◌else◌, [], ◌==◌, arith,
}
use kvdk.Codec.Bytes.{Bytes}
use kvdk.DlList.{outdated}
use kvdk.Batch.Ops.KeyedSet.{bytes_eq, bytes_eq_iff}
use kvdk.StringEngine.{
  if_found, find_in, InOrder, touched, KeyIndex, IndexEntry, StringRecord, State, CallContext,
  Status, ok, not_found, key_outdated, pmem_overflow, invalid_data_size, wrong_type,
  memory_overflow, invalid_argument, aborted, get, delete_key, string_delete_impl, write_delete,
  publish, check_key_size, is_outdated, classify, answer, string_type, old_offset,
}
use kvdk.StringEngine.Time.{check_is_expired, persistent}
use kvdk.StringEngine.Find.{get-read, lookup_key-some, lookup_key-none}
use kvdk.StringEngine.Publish.{Fresh, Alike-touched}
use kvdk.StringEngine.Writes.{touched-Owns}
use kvdk.StringEngine.Puts.{get-Alike, get-Written}

-- A hash entry has one record type: string, or one that a lookup of strings does not match.
abbrev pub IsTyped : IndexEntry → Type 0
IsTyped e = (e.type ≡ string_type) ⊎ ((bit_and string_type e.type == 0) ≡ true)

expired-later :
    (t : ℤ) (now later : ℕ)
    → now ≤ later
    → check_is_expired t now ≡ true
    → check_is_expired t later ≡ true
unfolding check_is_expired
expired-later (pos t) now later h e = ground arith
expired-later (negsuc t) now later h e = cc

module _ (ki : KeyIndex) (ce : ℕ → IndexEntry → Bool) where
  outdated-later :
      (pmem : ℕ → StringRecord) (now later : ℕ) (e : IndexEntry)
      → now ≤ later
      → IsTyped e
      → classify ki ce pmem now string_type e ≡ key_outdated
      → classify ki ce pmem later string_type e ≡ key_outdated
  unfolding classify
  outdated-later pmem now later e h t c =
      let x = expired-later (pmem e.index).expired_time now later h in
      elim t [
        | inl y ↦ elim (Bool-cases (check_is_expired (pmem e.index).expired_time now)) [
          | inl z ↦ let w = x z in ground arith
          | inr z ↦ ground arith
        ]
        | inr y ↦ ground arith
      ]

  -- What Delete comes to at one later read.
  abbrev Deleted : State ki ce → Bytes → ℕ → Bytes → State ki ce × Status → Type 0
  Deleted st k now j r =
      InOrder ki ce r.0
      × (((r.1 ≢ ok) × (get ki ce r.0 now j ≡ get ki ce st now j))
          ⊎ ((r.1 ≡ ok)
              × (get ki ce r.0 now j
                  ≡ (if bytes_eq k j then (not_found, []) else get ki ce st now j))))

  -- A refusal behind the lookup.
  touched-Deleted :
      (st : State ki ce) (k : Bytes) (now : ℕ) (j : Bytes) (s : Status)
      → InOrder ki ce st
      → s ≢ ok
      → Deleted st k now j (touched ki ce st k, s)
  touched-Deleted st k now j s h n =
      let (g, same) = get-Alike ki ce st (touched ki ce st k) refl (Alike-touched ki ce st k h) in
      (g, inl (n, same now j))

  -- A key that reads as missing already.
  missing-Deleted :
      (st : State ki ce) (k : Bytes) (now : ℕ) (j : Bytes)
      → InOrder ki ce st
      → get ki ce st now k ≡ (not_found, [])
      → Deleted st k now j (touched ki ce st k, ok)
  missing-Deleted st k now j o h =
      let (g, same) = get-Alike ki ce st (touched ki ce st k) refl (Alike-touched ki ce st k o) in
      elim (Bool-cases (bytes_eq k j)) [
        | inl e ↦ (
          g,
          inr (
            refl,
            rw (e, same now j)
                (subst (λ (i : Bytes). get ki ce st now i ≡ (not_found, []))
                  ((bytes_eq_iff k j).0 e) h),
          ),
        )
        | inr e ↦ (g, inr (refl, rw e (same now j)))
      ]

  write_delete-Deleted :
      (st : State ki ce) (c : CallContext) (k : Bytes) (s : Status) (e : IndexEntry) (now : ℕ)
      (j : Bytes)
      → InOrder ki ce st
      → Fresh ki ce st c.space.offset
      → check_key_size k ≡ true
      → find_in ki ce st k ≡ some e
      → Deleted st k now j (write_delete ki ce (touched ki ce st k, (s, some e, some e.place)) c k)
  unfolding write_delete is_outdated
  write_delete-Deleted st c k s e now j h fresh small f = elim (Bool-cases (c.space.size == 0)) [
    | inl z ↦ rw z (touched-Deleted st k now j pmem_overflow h (λ (y : pmem_overflow ≡ ok). cc))
    | inr z ↦
        let (g, reads) =
          get-Written ki ce st c outdated k [] persistent
            (
              publish ki ce (touched ki ce st k) c.space c.new_ts outdated
                  (old_offset ki ce (some e)) (some e.place) k [] persistent,
              ok,
            )
            fresh small
            (
              (touched ki ce st k).index,
              old_offset ki ce (some e),
              e.place,
              refl,
              touched-Owns ki ce st k e h f,
              Alike-touched ki ce st k h,
            ) in
        rw z (g, inr (refl, reads now j))
  ]

  missing-read :
      (st : State ki ce) (now : ℕ) (k : Bytes)
      → check_key_size k ≡ true
      → find_in ki ce st k ≡ none
      → get ki ce st now k ≡ (not_found, [])
  missing-read st now k small f = rw (get-read ki ce st now k, small, f) refl

  outdated-read :
      (st : State ki ce) (now : ℕ) (k : Bytes) (e : IndexEntry)
      → check_key_size k ≡ true
      → find_in ki ce st k ≡ some e
      → classify ki ce st.pmem now string_type e ≡ key_outdated
      → get ki ce st now k ≡ (not_found, [])
  unfolding answer
  outdated-read st now k e small f c = rw (get-read ki ce st now k, small, f) (rw c refl)

  delete_found :
      (st : State ki ce) (c : CallContext) (k : Bytes) (e : IndexEntry) (s : Status) (now : ℕ)
      (j : Bytes)
      → c.now ≤ now
      → InOrder ki ce st
      → Fresh ki ce st c.space.offset
      → check_key_size k ≡ true
      → find_in ki ce st k ≡ some e
      → IsTyped e
      → classify ki ce st.pmem c.now string_type e ≡ s
      → s ≢ not_found
      → Deleted st k now j (
          if_found ki ce s
            (touched ki ce st k)
            (write_delete ki ce (touched ki ce st k, (s, some e, some e.place)) c k))
  unfolding if_found
  delete_found st c k e ok now j later h fresh small f t cl n =
      write_delete-Deleted st c k ok e now j h fresh small f
  delete_found st c k e not_found now j later h fresh small f t cl n = absurd (n refl)
  delete_found st c k e key_outdated now j later h fresh small f t cl n =
      missing-Deleted st k now j h
        (outdated-read st now k e small f (outdated-later st.pmem c.now now e later t cl))
  delete_found st c k e wrong_type now j later h fresh small f t cl n =
      touched-Deleted st k now j wrong_type h (λ (z : wrong_type ≡ ok). cc)
  delete_found st c k e memory_overflow now j later h fresh small f t cl n =
      touched-Deleted st k now j memory_overflow h (λ (z : memory_overflow ≡ ok). cc)
  delete_found st c k e pmem_overflow now j later h fresh small f t cl n =
      touched-Deleted st k now j pmem_overflow h (λ (z : pmem_overflow ≡ ok). cc)
  delete_found st c k e invalid_data_size now j later h fresh small f t cl n =
      touched-Deleted st k now j invalid_data_size h (λ (z : invalid_data_size ≡ ok). cc)
  delete_found st c k e invalid_argument now j later h fresh small f t cl n =
      touched-Deleted st k now j invalid_argument h (λ (z : invalid_argument ≡ ok). cc)
  delete_found st c k e aborted now j later h fresh small f t cl n =
      touched-Deleted st k now j aborted h (λ (z : aborted ≡ ok). cc)

  classify-found :
      (pmem : ℕ → StringRecord) (now m : ℕ) (e : IndexEntry)
      → classify ki ce pmem now m e ≢ not_found
  unfolding classify
  classify-found pmem now m e = λ (z : classify ki ce pmem now m e ≡ not_found). ground arith

  -- Delete keeps the index in order. It fails and a later read of a key is as before; or it succeeds,
  -- and a later read of its key finds nothing and one of another key is as before. The index must be
  -- in order before, the allocated space not in use, and an entry of the key of a single record type.
  pub get-delete_key :
      (st : State ki ce) (c : CallContext) (k : Bytes) (now : ℕ) (j : Bytes)
      → c.now ≤ now
      → InOrder ki ce st
      → Fresh ki ce st c.space.offset
      → ((e : IndexEntry) → find_in ki ce st k ≡ some e → IsTyped e)
      → InOrder ki ce (delete_key ki ce st c k).0
        × ((((delete_key ki ce st c k).1 ≢ ok)
              × (get ki ce (delete_key ki ce st c k).0 now j ≡ get ki ce st now j))
            ⊎ (((delete_key ki ce st c k).1 ≡ ok)
                × (get ki ce (delete_key ki ce st c k).0 now j
                    ≡ (if bytes_eq k j then (not_found, []) else get ki ce st now j))))
  unfolding delete_key string_delete_impl if_found
  get-delete_key st c k now j later h fresh typed = elim (Bool-cases (check_key_size k)) [
    | inr s ↦ rw s (h, inl ((λ (z : invalid_data_size ≡ ok). cc), refl))
    | inl s ↦ elim (Option-cases (find_in ki ce st k)) [
      | inl f ↦
          rw (s, lookup_key-none ki ce st c.now k string_type f)
            (missing-Deleted st k now j h (missing-read st now k s f))
      | inr (e, f) ↦
          rw (s, lookup_key-some ki ce st c.now k string_type false e f)
            (delete_found st c k e (classify ki ce st.pmem c.now string_type e) now j later h fresh
              s f (typed e f) refl (classify-found st.pmem c.now string_type e))
    ]
  ]
