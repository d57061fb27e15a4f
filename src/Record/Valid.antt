-- ===== src/Record/Valid.antt =====
-- A record that was written is found valid, until its status is changed.
use kvdk.Prelude.{
  subst, ◌||◌, eq→==, le→leb, ℕ, ◌+◌, ◌^◌, ◌<◌, ◌≤◌, ◌≡◌, refl, ap, ◌∙◌, List, [], ◌∷◌, ◌++◌,
  length, Bool, true, false, arith,
}
use native.Mathlib.Nat.{mod-eq_of_lt}
use kvdk.Codec.Bytes.{Bytes, split, split-append_exact}
use kvdk.DlList.{RecordStatus, dirty}
use kvdk.Record.{
  DataRecord, key, value, Store, persist, persist_all, persist_status, needed_size,
  validate_record_size, checksum_of, validate, valid_or_dirty, construct,
}

-- What the links do not change.
persist_all-same :
    (xs : List Store) (r : DataRecord)
    → ((persist_all xs r).checksum ≡ r.checksum)
      × ((persist_all xs r).record_size ≡ r.record_size)
      × ((persist_all xs r).meta ≡ r.meta)
      × ((persist_all xs r).bytes ≡ r.bytes)
unfolding persist_all persist
persist_all-same [] r = (refl, refl, refl, refl)
persist_all-same (Store.next v ∷ xs) r = persist_all-same xs _
persist_all-same (Store.prev v ∷ xs) r = persist_all-same xs _
persist_all-same (Store.old_version v ∷ xs) r = persist_all-same xs _
persist_all-same (Store.expire_time v ∷ xs) r = persist_all-same xs _

key-written :
    (r : DataRecord) (k rest : Bytes) → r.bytes ≡ k ++ rest → r.meta.k_size ≡ length k → key r ≡ k
unfolding key
key-written r k rest e n = rw (e, n) (ap (λ p. p.0) (split-append_exact (length k) k rest refl))

value-written :
    (r : DataRecord) (k v behind : Bytes)
    → r.bytes ≡ k ++ (v ++ behind)
    → r.meta.k_size ≡ length k
    → r.meta.v_size ≡ length v
    → value r ≡ v
unfolding value
value-written r k v behind e n m =
    rw (e, n, m)
      (ap (λ p. (split (length v) p.1).0) (split-append_exact (length k) k (v ++ behind) refl)
        ∙ ap (λ p. p.0) (split-append_exact (length v) v behind refl))

or_true : (b : Bool) → (b || true) ≡ true
or_true true = refl
or_true false = refl

fits_value : (a b : ℕ) → a + b < 2 ^ 32 → b < 2 ^ 32
fits_value a b h = omega arith

fits_data : (a f : ℕ) → a + f < 2 ^ 32 → a < 2 ^ 32
fits_data a f h = omega arith

-- What a scan of the records reads from a written one.
unfoldable pub IsFound :
    (fixed_size : ℕ) (get_checksum : Bytes → ℕ) → (k v : Bytes) → DataRecord → Type 0
IsFound size sum k v r =
    (validate size sum r ≡ true)
    × (key r ≡ k)
    × (value r ≡ v)
    × (valid_or_dirty size sum (persist_status dirty r) ≡ true)
    × (key (persist_status dirty r) ≡ k)
    × (value (persist_status dirty r) ≡ v)

module _ (fixed_size : ℕ) (get_checksum : Bytes → ℕ) where
  validate-same :
      (r q : DataRecord)
      → q.checksum ≡ r.checksum
      → q.record_size ≡ r.record_size
      → q.meta ≡ r.meta
      → q.bytes ≡ r.bytes
      → validate fixed_size get_checksum r ≡ true
      → validate fixed_size get_checksum q ≡ true
  unfolding validate validate_record_size checksum_of
  validate-same r q ec es em eb h = rw (ec, es, em, eb) h

  construct-validate :
      (size ts type : ℕ) (status : RecordStatus) (old p n : ℕ) (k v : Bytes) (expire : ℕ)
      (behind : Bytes)
      → length k < 2 ^ 16
      → length k + length v < 2 ^ 32
      → length k + length v + fixed_size ≤ size
      → validate fixed_size get_checksum
          (construct fixed_size get_checksum size ts type status old p n k v expire behind)
        ≡ true
  unfolding validate validate_record_size construct
  construct-validate size ts type status old p n k v expire behind short fits room =
      rw
        (
          mod-eq_of_lt short,
          mod-eq_of_lt (fits_value (length k) (length v) fits),
          mod-eq_of_lt fits,
        )
        (rw (le→leb (length k + length v + fixed_size) size room) (eq→== _ _ refl))

  IsFound-written :
      (r : DataRecord) (k v behind : Bytes)
      → r.bytes ≡ k ++ (v ++ behind)
      → r.meta.k_size ≡ length k
      → r.meta.v_size ≡ length v
      → validate fixed_size get_checksum r ≡ true
      → IsFound fixed_size get_checksum k v r
  unfolding IsFound valid_or_dirty persist_status
  IsFound-written r k v behind e n m h =
      let q = persist_status dirty r in
      (
        h,
        key-written r k (v ++ behind) e n,
        value-written r k v behind e n m,
        or_true _,
        key-written q k (v ++ behind) e n,
        value-written q k v behind e n m,
      )

  -- A record of a key of fewer than 2^16 bytes and of a key, a value and fixed fields of fewer than
  -- 2^32 bytes together, in a space of at least the size that needed_size gives, is found again:
  -- after any stores into its links, its old version and its expiration time it is valid, with the
  -- key and the value that it was written with, and when then its status is set to dirty it
  -- is still taken for one that is valid or dirty, with the same key and value.
  pub construct-IsFound :
      (size ts type : ℕ) (status : RecordStatus) (old p n : ℕ) (k v : Bytes) (expire : ℕ)
      (behind : Bytes) (stores : List Store)
      → length k < 2 ^ 16
      → length k + length v + fixed_size < 2 ^ 32
      → needed_size fixed_size get_checksum k v ≤ size
      → IsFound fixed_size get_checksum k v (
          persist_all stores
            (construct fixed_size get_checksum size ts type status old p n k v expire behind))
  unfolding construct needed_size
  construct-IsFound size ts type status old p n k v expire behind stores short fits room =
      let r = construct fixed_size get_checksum size ts type status old p n k v expire behind in
      let small = fits_data (length k + length v) fixed_size fits in
      let same = persist_all-same stores r in
      IsFound-written (persist_all stores r) k v behind same.3
        (ap (λ m. m.k_size) same.2 ∙ mod-eq_of_lt short)
        (ap (λ m. m.v_size) same.2 ∙ mod-eq_of_lt (fits_value (length k) (length v) small))
        (validate-same r (persist_all stores r) same.0 same.1 same.2 same.3 (
          construct-validate size ts type status old p n k v expire behind short small
            (subst (λ x. x ≤ size) (mod-eq_of_lt fits) room)))
