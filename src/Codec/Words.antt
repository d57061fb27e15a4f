-- ===== src/Codec/Words.antt =====
-- AppendPOD and FetchPOD over any plain type, and the functions for 64 and 32 bits.
use kvdk.Prelude.{
  [], ℕ, ◌^◌, ◌<◌, ◌≡◌, ◌++◌, length, arith, Option, none, some, ltb, if◌then◌else◌, length-append,
}
use mathlib.Core.List.{append-nil}
use kvdk.Codec.Bytes.{
  split-append_exact, Bytes, to_bytes, from_bytes, split, length-to_bytes, from_bytes-to_bytes,
}

-- What copying a plain value to and from memory relies on. `Fits` holds of the values that the
-- type has, since numbers here are unbounded.
pub record Pod (T : Type 0) : Type 1 where
  pub size_of : ℕ
  pub bytes : T → Bytes
  pub value : Bytes → T
  pub Fits : T → Type 0
  pub length-bytes : (t : T) → length (bytes t) ≡ size_of
  pub value-bytes : (t : T) → Fits t → value (bytes t) ≡ t

module _ {T : Type 0} (p : Pod T) where
  unfoldable pub append_pod : Bytes → T → Bytes
  append_pod dst t = dst ++ p.bytes t

  -- FetchPOD leaves the source as it is where it fails.
  unfoldable pub fetch_pod : Bytes → Bytes × Option T
  fetch_pod src =
      if ltb (length src) p.size_of
      then (src, none)
      else (let (l, r) = split p.size_of src in (r, some (p.value l)))

  -- FetchPOD gives back the value that stands in front, and the source behind it.
  pub fetch_pod-bytes :
      (t : T) (rest : Bytes) → p.Fits t → fetch_pod (p.bytes t ++ rest) ≡ (rest, some t)
  unfolding fetch_pod
  fetch_pod-bytes t rest h = ground (
    arith,
    length-append (p.bytes t) rest,
    p.length-bytes t,
    p.value-bytes t h,
    split-append_exact p.size_of (p.bytes t) rest (p.length-bytes t),
  )

-- A number of `k` bytes.
abbrev pub word : ℕ → Pod ℕ
word k = record {
  size_of = k;
  bytes = to_bytes k;
  value = from_bytes;
  Fits = λ v. v < 256 ^ k;
  length-bytes = length-to_bytes k;
  value-bytes = from_bytes-to_bytes k;
}

unfoldable pub encode_uint64 : ℕ → Bytes
encode_uint64 v = to_bytes 8 v

unfoldable pub decode_uint64 : Bytes → Option ℕ
decode_uint64 src = if ltb (length src) 8 then none else some (from_bytes (split 8 src).0)

unfoldable pub append_uint64 : Bytes → ℕ → Bytes
append_uint64 dst v = dst ++ to_bytes 8 v

unfoldable pub fetch_uint64 : Bytes → Bytes × Option ℕ
fetch_uint64 src =
    if ltb (length src) 8 then (src, none) else ((split 8 src).1, some (from_bytes (split 8 src).0))

unfoldable pub encode_uint32 : ℕ → Bytes
encode_uint32 v = to_bytes 4 v

unfoldable pub decode_uint32 : Bytes → Option ℕ
decode_uint32 src = if ltb (length src) 4 then none else some (from_bytes (split 4 src).0)

unfoldable pub append_uint32 : Bytes → ℕ → Bytes
append_uint32 dst v = dst ++ to_bytes 4 v

unfoldable pub fetch_uint32 : Bytes → Bytes × Option ℕ
fetch_uint32 src =
    if ltb (length src) 4 then (src, none) else ((split 4 src).1, some (from_bytes (split 4 src).0))

-- A 64-bit number that has been appended is fetched back from the front of any further bytes, and
-- decoded from its encoding.
pub fetch-append_uint64 :
    (v : ℕ) (rest : Bytes)
    → v < 2 ^ 64
    → (fetch_uint64 (append_uint64 [] v ++ rest) ≡ (rest, some v))
      × (decode_uint64 (encode_uint64 v) ≡ some v)
unfolding fetch_uint64 append_uint64 decode_uint64 encode_uint64
fetch-append_uint64 v rest h = (
  unfold fetch_pod in fetch_pod-bytes (word 8) v rest h,
  ground (
    arith,
    length-to_bytes 8 v,
    from_bytes-to_bytes 8 v h,
    split-append_exact 8 (to_bytes 8 v) [] (length-to_bytes 8 v),
    append-nil (to_bytes 8 v),
  ),
)

-- The same of 32-bit numbers.
pub fetch-append_uint32 :
    (v : ℕ) (rest : Bytes)
    → v < 2 ^ 32
    → (fetch_uint32 (append_uint32 [] v ++ rest) ≡ (rest, some v))
      × (decode_uint32 (encode_uint32 v) ≡ some v)
unfolding fetch_uint32 append_uint32 decode_uint32 encode_uint32
fetch-append_uint32 v rest h = (
  unfold fetch_pod in fetch_pod-bytes (word 4) v rest h,
  ground (
    arith,
    length-to_bytes 4 v,
    from_bytes-to_bytes 4 v h,
    split-append_exact 4 (to_bytes 4 v) [] (length-to_bytes 4 v),
    append-nil (to_bytes 4 v),
  ),
)
