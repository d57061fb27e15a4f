-- ===== src/StringEngine/Writes.antt =====
-- What Put and Delete do to later reads.
use kvdk.Prelude.{
  ℤ, ℕ, ◌≡◌, refl, ◌∙◌, ◌⊎◌, inl, inr, ◌≢◌, Option, none, some, Option-cases, Bool-cases, Bool,
  true, false, ◌==◌,
}
use kvdk.Codec.Bytes.{Bytes}
use kvdk.DlList.{RecordStatus, normal}
use kvdk.HashTable.{EntryPtr}
use kvdk.StringEngine.{
  find_in, InOrder, keys_of, touched, unless_refused, string_put_impl, invalid_argument, aborted,
  new_expired_time, old_offset, ttl_to_expire_time, KeyIndex, IndexEntry, State, CallContext,
  Status, ok, not_found, key_outdated, wrong_type, memory_overflow, pmem_overflow,
  invalid_data_size, classify, publish, write_value, string_type,
}
use kvdk.StringEngine.Publish.{Alike, Alike-self, Alike-touched}
use kvdk.StringEngine.Time.{check_ttl, ttl_to_expire_time}
use kvdk.StringEngine.Find.{lookup_key-some, lookup_key-reserve}

abbrev pub is_ok : Status → Bool
is_ok s = elim s [ ok ↦ true | _ ↦ false ]

module _ (ki : KeyIndex) (ce : ℕ → IndexEntry → Bool) where
  -- A call that was refused: the same memory, and an index that finds the same.
  abbrev pub Refused : State ki ce → State ki ce × Status → Type 0
  Refused st r = (r.1 ≢ ok) × (r.0.pmem ≡ st.pmem) × Alike ki ce st r.0.index

  -- A write that was made, at the place of its key in an index that finds the same.
  abbrev pub Written :
      State ki ce → CallContext → RecordStatus → Bytes → Bytes → ℤ → State ki ce × Status → Type 0
  Written st c status k v exp r =
      (x : ki.Table) × (old : ℕ) × (p : EntryPtr) × (r ≡ (
        publish ki ce (record st { index = x }) c.space c.new_ts status old (some p) k v exp,
        ok,
      ))
      × ki.Owns (keys_of st.pmem) x k p
      × Alike ki ce st x

  abbrev pub Outcome :
      State ki ce → CallContext → RecordStatus → Bytes → Bytes → ℤ → State ki ce × Status → Type 0
  Outcome st c status k v exp r = Refused st r ⊎ Written st c status k v exp r

  pub refused :
      (st : State ki ce) (c : CallContext) (status : RecordStatus) (k v : Bytes) (exp : ℤ)
      (s : Status)
      → s ≢ ok
      → InOrder ki ce st
      → Outcome st c status k v exp (st, s)
  refused st c status k v exp s n h = inl (n, refl, Alike-self ki ce st h)

  pub written :
      (st : State ki ce) (x : ki.Table) (c : CallContext) (k v : Bytes) (s : Status)
      (o : Option IndexEntry) (p : EntryPtr)
      → ki.Owns (keys_of st.pmem) x k p
      → Alike ki ce st x
      → Outcome st c normal k v
          (new_expired_time ki ce st.pmem c s o)
          (write_value ki ce (record st { index = x }, (s, o, some p)) c k v)
  unfolding write_value
  written st x c k v s o p own same = elim (Bool-cases (c.space.size == 0)) [
    | inl e ↦ rw e (inl ((λ (z : pmem_overflow ≡ ok). cc), refl, same))
    | inr e ↦ rw e (inr (x, old_offset ki ce o, p, refl, own, same))
  ]

  -- The place of an entry that was found is the key's, also behind the lookup.
  pub touched-Owns :
      (st : State ki ce) (k : Bytes) (e : IndexEntry)
      → InOrder ki ce st
      → find_in ki ce st k ≡ some e
      → ki.Owns (keys_of st.pmem) (touched ki ce st k).index k e.place
  touched-Owns st k e h f =
      let (g, same) = Alike-touched ki ce st k h in
      ki.find-Owns (keys_of st.pmem) (touched ki ce st k).index k e g (same k ∙ f)

  put_found :
      (st : State ki ce) (c : CallContext) (k v : Bytes) (e : IndexEntry) (s : Status)
      → InOrder ki ce st
      → find_in ki ce st k ≡ some e
      → Outcome st c normal k v (new_expired_time ki ce st.pmem c s (some e)) (
          unless_refused ki ce s
            (touched ki ce st k)
            (write_value ki ce (touched ki ce st k, (s, some e, some e.place)) c k v))
  unfolding unless_refused
  put_found st c k v e memory_overflow h f =
      inl ((λ (z : memory_overflow ≡ ok). cc), refl, Alike-touched ki ce st k h)
  put_found st c k v e wrong_type h f =
      inl ((λ (z : wrong_type ≡ ok). cc), refl, Alike-touched ki ce st k h)
  put_found st c k v e ok h f =
      written st (touched ki ce st k).index c k v ok (some e) e.place (touched-Owns st k e h f)
        (Alike-touched ki ce st k h)
  put_found st c k v e not_found h f =
      written st (touched ki ce st k).index c k v not_found (some e) e.place
        (touched-Owns st k e h f) (Alike-touched ki ce st k h)
  put_found st c k v e key_outdated h f =
      written st (touched ki ce st k).index c k v key_outdated (some e) e.place
        (touched-Owns st k e h f) (Alike-touched ki ce st k h)
  put_found st c k v e pmem_overflow h f =
      written st (touched ki ce st k).index c k v pmem_overflow (some e) e.place
        (touched-Owns st k e h f) (Alike-touched ki ce st k h)
  put_found st c k v e invalid_data_size h f =
      written st (touched ki ce st k).index c k v invalid_data_size (some e) e.place
        (touched-Owns st k e h f) (Alike-touched ki ce st k h)
  put_found st c k v e invalid_argument h f =
      written st (touched ki ce st k).index c k v invalid_argument (some e) e.place
        (touched-Owns st k e h f) (Alike-touched ki ce st k h)
  put_found st c k v e aborted h f =
      written st (touched ki ce st k).index c k v aborted (some e) e.place (touched-Owns st k e h f)
        (Alike-touched ki ce st k h)

  -- The expire time that Put stores over what it found.
  abbrev pub stored_time : State ki ce → CallContext → Option IndexEntry → ℤ
  stored_time st c none = ttl_to_expire_time c.ttl_time c.base_time
  stored_time st c (some e) =
      new_expired_time ki ce st.pmem c (classify ki ce st.pmem c.now string_type e) (some e)

  reserved :
      (st : State ki ce) (x : ki.Table) (c : CallContext) (k v : Bytes) (p : EntryPtr)
      → ki.Owns (keys_of st.pmem) x k p
      → Alike ki ce st x
      → Outcome st c normal k v (ttl_to_expire_time c.ttl_time c.base_time) (
          unless_refused ki ce not_found
            (record st { index = x })
            (write_value ki ce (record st { index = x }, (not_found, none, some p)) c k v))
  unfolding unless_refused new_expired_time
  reserved st x c k v p own same = written st x c k v not_found none p own same

  pub put_impl-Outcome :
      (st : State ki ce) (c : CallContext) (k v : Bytes)
      → InOrder ki ce st
      → Outcome st c normal k v
          (stored_time st c (find_in ki ce st k))
          (string_put_impl ki ce st c k v)
  unfolding string_put_impl unless_refused
  put_impl-Outcome st c k v h = elim (Bool-cases (check_ttl c.ttl_time c.base_time)) [
    | inr t ↦ rw t (
        refused st c normal k v (stored_time st c (find_in ki ce st k)) invalid_argument
          (λ (z : invalid_argument ≡ ok). cc) h)
    | inl t ↦ elim (Option-cases (find_in ki ce st k)) [
      | inr (e, f) ↦
          rw (t, lookup_key-some ki ce st c.now k string_type true e f, f)
            (put_found st c k v e (classify ki ce st.pmem c.now string_type e) h f)
      | inl f ↦ elim (lookup_key-reserve ki ce st c.now k string_type f) [
        | inl (r, q) ↦
            rw (t, q, f)
              (refused st c normal k v (ttl_to_expire_time c.ttl_time c.base_time) memory_overflow
                (λ (z : memory_overflow ≡ ok). cc) h)
        | inr (x, p, r, q) ↦
            let (g, own, same) = ki.reserve-Owns (keys_of st.pmem) st.index k x p h r in
            rw (t, q, f) (reserved st x c k v p own (g, same))
      ]
    ]
  ]
