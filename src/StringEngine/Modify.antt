-- ===== src/StringEngine/Modify.antt =====
-- Modify against the calls that it stands for.
use kvdk.Prelude.{ℕ, ◌≡◌, ◌≢◌, refl, ◌⊎◌, Bool, true}
use kvdk.Codec.Bytes.{Bytes}
use kvdk.StringEngine.{
  Status, not_found, key_outdated, KeyIndex, IndexEntry, State, CallContext, ok, modify,
  modify_switch, write, string_put_impl, check_value_size,
}

module _ (ki : KeyIndex) (ce : ℕ → IndexEntry → Bool) (st : State ki ce) (c : CallContext)
    (k : Bytes) where
  -- A function that always writes one value of a permitted size makes Modify what Put does behind
  -- its checks of the sizes.
  pub modify-string_put_impl :
      (v : Bytes)
      → check_value_size v ≡ true
      → modify ki ce st c k (λ o. write v) ≡ string_put_impl ki ce st c k v
  unfolding modify string_put_impl modify_switch
  modify-string_put_impl v small = rw small refl

  -- The status of Delete behind its lookup, where there is nothing to overwrite.
  abbrev nothing_to_delete : Status → Status
  nothing_to_delete s = elim s [ not_found ↦ ok | key_outdated ↦ ok | other ↦ other ]

  abbrev Compared : Status → State ki ce × Status → State ki ce × Status → Type 0
  Compared s m d = ((s ≡ ok) × (m ≡ d)) ⊎ ((s ≢ ok) × (m.1 ≢ ok) × (d.1 ≡ nothing_to_delete s))
