-- ===== src/Tests/Record.antt =====
-- The records at concrete inputs.
use kvdk.Prelude.{ℕ, ◌+◌, List, [], ◌∷◌, arith}
use kvdk.Codec.Bytes.{Bytes}
use kvdk.DlList.{normal}
use kvdk.Record.{Store, persist_all, construct, needed_size}
use kvdk.Record.Valid.{construct-IsFound, IsFound}

abbrev sum : Bytes → ℕ
sum [] = 0
sum (b ∷ bs) = b + sum bs

abbrev stores : List Store
stores = Store.next 7 ∷ Store.expire_time 9 ∷ []

-- The key has the bytes 1 and 2, and the value is the byte 3, in a space of 64 bytes.
construct-IsFound_example :
    IsFound 56 sum (1 ∷ 2 ∷ []) (3 ∷ []) (
      persist_all stores (construct 56 sum 64 5 1 normal 0 8 16 (1 ∷ 2 ∷ []) (3 ∷ []) 100 (0 ∷ [])))
unfolding needed_size
construct-IsFound_example =
    construct-IsFound 56 sum 64 5 1 normal 0 8 16 (1 ∷ 2 ∷ []) (3 ∷ []) 100 (0 ∷ []) stores
      (omega arith) (omega arith) (omega arith)
