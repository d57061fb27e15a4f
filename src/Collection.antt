-- ===== src/Collection.antt =====
-- Collection of engine/collection.hpp: the keys by which the elements of a collection are stored.
use kvdk.Prelude.{length-append, ℕ, ◌^◌, ◌<◌, ◌≡◌, ◌++◌, none, some, arith, ap}
use kvdk.Codec.Bytes.{
  Bytes, to_bytes, split, length-to_bytes, from_bytes-to_bytes, split-append_exact,
}
use kvdk.Codec.Words.{encode_uint64, decode_uint64}

-- CollectionIDType is uint64_t.
abbrev id_size : ℕ
id_size = 8

unfoldable pub id_2_string : ℕ → Bytes
id_2_string id = to_bytes id_size id

unfoldable pub internal_key : (id : ℕ) (user_key : Bytes) → Bytes
unfolding id_2_string
internal_key id key = id_2_string id ++ key

unfoldable pub encode_id : ℕ → Bytes
unfolding encode_uint64
encode_id id = encode_uint64 id

-- A string that is too short leaves the initial 0; the assert is not checked.
unfoldable pub decode_id : Bytes → ℕ
unfolding decode_uint64
decode_id s = elim (decode_uint64 s) [ none ↦ 0 | some id ↦ id ]

unfoldable pub extract_user_key : Bytes → Bytes
extract_user_key k = (split id_size k).1

unfoldable pub extract_id : Bytes → ℕ
unfolding decode_id
extract_id k = decode_id k

-- The id and the key of an element are read back from its internal key, if the id fits in 64 bits.
pub extract-internal_key :
    (id : ℕ) (key : Bytes)
    → id < 2 ^ 64
    → (extract_id (internal_key id key) ≡ id) × (extract_user_key (internal_key id key) ≡ key)
unfolding extract_id extract_user_key internal_key
extract-internal_key id key h =
    let e = split-append_exact 8 (to_bytes 8 id) key (length-to_bytes 8 id) in
    (
      ground (
        arith,
        e,
        length-append (to_bytes 8 id) key,
        length-to_bytes 8 id,
        from_bytes-to_bytes 8 id h,
      ),
      ap (λ p. p.1) e,
    )
