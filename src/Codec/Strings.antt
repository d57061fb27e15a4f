-- ===== src/Codec/Strings.antt =====
-- AppendFixedString and FetchFixedString: a string behind its 32-bit length.
use kvdk.Prelude.{
  ap, [], ℕ, ◌^◌, ◌<◌, ◌≡◌, ◌++◌, length, arith, Option, none, some, leb, if◌then◌else◌,
  length-append, ◌∙◌,
}
use mathlib.Core.List.{append_assoc}
use kvdk.Codec.Bytes.{Bytes, split, split-append}
use kvdk.Codec.Words.{fetch-append_uint32, append_uint32, fetch_uint32}

unfoldable pub append_fixed_string : Bytes → Bytes → Bytes
append_fixed_string dst str = append_uint32 dst (length str) ++ str

-- The length stays consumed if the string is cut short.
take_sized : Bytes × Option ℕ → Bytes × Option Bytes
take_sized (src, none) = (src, none)
take_sized (src, some size) =
    if leb size (length src) then ((split size src).1, some (split size src).0) else (src, none)

unfoldable pub fetch_fixed_string : Bytes → Bytes × Option Bytes
unfolding take_sized
fetch_fixed_string src = take_sized (fetch_uint32 src)

-- A string below 4 GiB is fetched back whole, from the front of any further bytes.
pub fetch-append_fixed_string :
    (str rest : Bytes)
    → length str < 2 ^ 32
    → fetch_fixed_string (append_fixed_string [] str ++ rest) ≡ (rest, some str)
unfolding fetch_fixed_string append_fixed_string
fetch-append_fixed_string str rest h =
    let read = (fetch-append_uint32 (length str) (str ++ rest) h).0 in
    let sized : take_sized (str ++ rest, some (length str)) ≡ (rest, some str) =
      ground (arith, length-append str rest, split-append str rest) in
    ap (λ src. take_sized (fetch_uint32 src))
      (append_assoc (append_uint32 [] (length str)) str rest)
    ∙ ap take_sized read
    ∙ sized

-- A string that is cut short is not fetched, and its length is consumed all the same.
pub fetch_fixed_string_short :
    (n : ℕ) (rest : Bytes)
    → n < 2 ^ 32
    → length rest < n
    → fetch_fixed_string (append_uint32 [] n ++ rest) ≡ (rest, none)
unfolding fetch_fixed_string
fetch_fixed_string_short n rest h short =
    let sized : take_sized (rest, some n) ≡ (rest, none) = ground arith in
    ap take_sized (fetch-append_uint32 n rest h).0 ∙ sized
