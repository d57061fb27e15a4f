-- ===== src/StringEngine/Puts.antt =====
-- Put and the reads behind it.
use kvdk.Prelude.{
  ℤ, ℕ, ◌≡◌, refl, sym, ap, subst, ◌∙◌, ◌⊎◌, inl, inr, ◌≢◌, Bool-cases, Bool, true, if◌then◌else◌,
  [],
}
use kvdk.Codec.Bytes.{Bytes}
use kvdk.DlList.{RecordStatus, normal}
use kvdk.Batch.Ops.KeyedSet.{bytes_eq}
use kvdk.StringEngine.{
  find_in, InOrder, keys_of, KeyIndex, IndexEntry, StringRecord, State, CallContext, Status, ok,
  not_found, invalid_data_size, get, put, check_key_size, check_value_size, is_outdated,
  string_put_impl,
}
use kvdk.StringEngine.Time.{check_is_expired}
use kvdk.StringEngine.Find.{get-same}
use kvdk.StringEngine.Publish.{Fresh, Alike, get-publish, publish-InOrder}
use kvdk.StringEngine.Writes.{Written, put_impl-Outcome, stored_time}

module _ (ki : KeyIndex) (ce : ℕ → IndexEntry → Bool) where
  -- Reads on an index that finds the same.
  pub get-Alike :
      (st r : State ki ce)
      → r.pmem ≡ st.pmem
      → Alike ki ce st r.index
      → InOrder ki ce r × ((now : ℕ) (j : Bytes) → get ki ce r now j ≡ get ki ce st now j)
  get-Alike st r p (g, f) = (
    subst (λ (m : ℕ → StringRecord). ki.IsIndex (keys_of m) r.index) (sym p) g,
    λ now j.
        get-same ki ce st r now j
          (ap (λ (m : ℕ → StringRecord). ki.find (keys_of m) r.index j) p ∙ f j) (λ e h. rw p refl),
  )

  -- Reads behind a write on an index that finds the same.
  pub get-Written :
      (st : State ki ce) (c : CallContext) (status : RecordStatus) (k v : Bytes) (exp : ℤ)
      (r : State ki ce × Status)
      → Fresh ki ce st c.space.offset
      → check_key_size k ≡ true
      → Written ki ce st c status k v exp r
      → InOrder ki ce r.0
        × ((now : ℕ) (j : Bytes)
            → get ki ce r.0 now j ≡ (
                if bytes_eq k j
                then (if is_outdated status
                    then (not_found, [])
                    else (if check_is_expired exp now then (not_found, []) else (ok, v)))
                else get ki ce st now j))
  get-Written st c status k v exp r fresh small (x, old, p, e, own, (g, same)) =
      let there = (get-Alike st (record st { index = x }) refl (g, same)).1 in
      let fresh' : Fresh ki ce (record st { index = x }) c.space.offset =
        λ i o h. fresh i o (sym (same i) ∙ h) in
      rw e (
        publish-InOrder ki ce (record st { index = x }) c.space c.new_ts status old p k v exp fresh'
            g own,
        λ now j. rw (sym (there now j)) (
            get-publish ki ce (record st { index = x }) c.space c.new_ts status old p k v exp now j
              fresh' g own small),
      )

  -- What Put comes to.
  abbrev PutDone : State ki ce → CallContext → Bytes → Bytes → State ki ce × Status → Type 0
  PutDone st c k v r =
      InOrder ki ce r.0
      × (((r.1 ≢ ok) × ((now : ℕ) (j : Bytes) → get ki ce r.0 now j ≡ get ki ce st now j))
          ⊎ ((r.1 ≡ ok)
              × ((now : ℕ) (j : Bytes)
                  → get ki ce r.0 now j ≡ (
                      if bytes_eq k j
                      then (if check_is_expired (stored_time ki ce st c (find_in ki ce st k)) now
                          then (not_found, [])
                          else (ok, v))
                      else get ki ce st now j))))

  impl-PutDone :
      (st : State ki ce) (c : CallContext) (k v : Bytes)
      → InOrder ki ce st
      → Fresh ki ce st c.space.offset
      → check_key_size k ≡ true
      → PutDone st c k v (string_put_impl ki ce st c k v)
  unfolding is_outdated
  impl-PutDone st c k v h fresh small = elim (put_impl-Outcome ki ce st c k v h) [
    | inl (n, p, a) ↦
        let (g, same) = get-Alike st (string_put_impl ki ce st c k v).0 p a in (g, inl (n, same))
    | inr w ↦
        let (g, reads) =
          get-Written st c normal k v (stored_time ki ce st c (find_in ki ce st k))
            (string_put_impl ki ce st c k v) fresh small w in
        (g, inr (ap (λ (r : State ki ce × Status). r.1) w.3, reads))
  ]

  -- Put keeps the index in order. It fails and no read changes; or it succeeds, and from then on its
  -- key reads as the new value until the stored expire time, and every other key as before. The
  -- index must be in order before, and the allocated space not in use.
  pub get-put :
      (st : State ki ce) (c : CallContext) (k v : Bytes)
      → InOrder ki ce st
      → Fresh ki ce st c.space.offset
      → InOrder ki ce (put ki ce st c k v).0
        × ((((put ki ce st c k v).1 ≢ ok)
              × ((now : ℕ) (j : Bytes)
                  → get ki ce (put ki ce st c k v).0 now j ≡ get ki ce st now j))
            ⊎ (((put ki ce st c k v).1 ≡ ok)
                × ((now : ℕ) (j : Bytes)
                    → get ki ce (put ki ce st c k v).0 now j ≡ (
                        if bytes_eq k j
                        then (if check_is_expired (stored_time ki ce st c (find_in ki ce st k)) now
                            then (not_found, [])
                            else (ok, v))
                        else get ki ce st now j))))
  unfolding put
  get-put st c k v h fresh = elim (Bool-cases (check_key_size k)) [
    | inr s ↦ rw s (h, inl ((λ (z : invalid_data_size ≡ ok). cc), λ now j. refl))
    | inl s ↦ elim (Bool-cases (check_value_size v)) [
      | inr t ↦ rw (s, t) (h, inl ((λ (z : invalid_data_size ≡ ok). cc), λ now j. refl))
      | inl t ↦ rw (s, t) (impl-PutDone st c k v h fresh s)
    ]
  ]
