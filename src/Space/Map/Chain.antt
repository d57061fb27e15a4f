-- ===== src/Space/Map/Chain.antt =====
-- What the cells behind an entry's first token say: a chain of continuing tokens up to its end.
use kvdk.Prelude.{
  has, ◌≤◌, ℕ, zero, suc, ◌+◌, ◌-◌, ◌<◌, ◌≡◌, refl, inl, inr, Bool, true, false, ◌||◌, List, [],
  ◌∷◌, arith, ltb, Bool-cases, if◌then◌else◌,
}
use kvdk.Space.Token.{is_empty}
use kvdk.Space.Map.{SpaceMap, start_at, empty_at, size_at, test_loop, test}

-- No entry continues at the cell `cur`.
abbrev pub stops_at : SpaceMap → ℕ → Bool
stops_at m cur = if ltb cur m.size then start_at m cur || empty_at m cur else true

-- From `cur` on, `n` blocks belong to the entry before `cur`.
pub data Chain (m : SpaceMap) : ℕ → ℕ → Type 0 where
  stop : (cur : ℕ) → stops_at m cur ≡ true → Chain m cur 0
  more :
      (cur s : ℕ) {k n : ℕ}
      → stops_at m cur ≡ false
      → size_at m cur ≡ suc s
      → Chain m (cur + suc s) k
      → n ≡ suc s + k
      → Chain m cur n

-- The cells that hold the chain's tokens.
unfoldable pub heads : {m : SpaceMap} {cur n : ℕ} → Chain m cur n → List ℕ
heads (stop cur e) = []
heads (more cur s e z c q) = cur ∷ heads c

-- A cell that does not stop the walk lies in the map and says of at least one block.
pub go_on :
    (m : SpaceMap) (cur : ℕ)
    → stops_at m cur ≡ false
    → (s : ℕ) × (size_at m cur ≡ suc s) × (cur < m.size)
unfolding is_empty
go_on m cur e = (size_at m cur - 1, ground arith, ground arith)

-- Every walk ends.
pub Chain-total : (f : ℕ) (m : SpaceMap) (cur : ℕ) → m.size < f + cur → (n : ℕ) × Chain m cur n
Chain-total zero m cur h = (0, stop cur (ground arith))
Chain-total (suc f) m cur h = elim (Bool-cases (stops_at m cur)) [
  | inl e ↦ (0, stop cur e)
  | inr e ↦
      let (s, z, lt) = go_on m cur e in
      let r : (n : ℕ) × Chain m (cur + suc s) n = Chain-total f m (cur + suc s) (omega arith) in
      (suc s + r.0, more cur s e z r.1 refl)
]

-- The loop of testLocked adds the chain's blocks, and its fuel is enough.
pub test_loop-Chain :
    (f : ℕ) (m : SpaceMap) (start size : ℕ) {cur n : ℕ}
    → Chain m cur n
    → cur ≡ start + size
    → m.size < f + cur
    → test_loop f m start size ≡ size + n
unfolding test_loop
test_loop-Chain zero m start size (stop cur e) q h = omega arith
test_loop-Chain zero m start size (more cur s e z c p) q h =
    absurd (omega (arith, (go_on m cur e).2))
test_loop-Chain (suc f) m start size (stop cur e) q h = ground arith
test_loop-Chain (suc f) m start size (more cur s e z c p) q h =
    ground (arith, test_loop-Chain f m start (size + size_at m cur) c (omega arith) (omega arith))

-- Test reads the first token and the chain behind it.
pub test-Chain :
    (m : SpaceMap) (off : ℕ) {n : ℕ}
    → start_at m off ≡ true
    → Chain m (off + size_at m off) n
    → test m off ≡ size_at m off + n
unfolding test
test-Chain m off st c =
    rw st (test_loop-Chain (suc m.size) m off (size_at m off) c refl (omega arith))

pub heads-in_range :
    {m : SpaceMap} {cur n : ℕ} (t : Chain m cur n) (j : ℕ)
    → has j (heads t) ≡ true
    → (cur ≤ j) × (j < cur + n)
unfolding heads
heads-in_range (stop cur e) j h = ground arith
heads-in_range (more cur s e z c q) j h = ground (arith, heads-in_range c j)
