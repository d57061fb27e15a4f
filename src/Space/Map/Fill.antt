-- ===== src/Space/Map/Fill.antt =====
-- Set and setRemaining: the tokens that they write make one entry, and they write nowhere else.
use kvdk.Prelude.{
  has, ◌∷◌, inr, ltb, Bool-cases, lt→ltb, subst, ◌∙◌, ℕ, zero, suc, ◌+◌, ◌-◌, ◌≤◌, ◌<◌, ◌≡◌, refl,
  ◌⊎◌, inl, true, false, arith,
}
use kvdk.Space.Token.{is_empty_iff, make, size_of-make, is_start-make}
use kvdk.Space.Map.{SpaceMap, write, size_at, chunk, set_remaining, set, test, start_at}
use kvdk.Space.Map.Chain.{heads, Chain, stop, more, stops_at, test-Chain}

pub size-set_remaining :
    (f : ℕ) (m : SpaceMap) (cur n : ℕ) → (set_remaining f m cur n).size ≡ m.size
unfolding set_remaining
size-set_remaining zero m cur n = refl
size-set_remaining (suc f) m cur n =
    ground (
      arith,
      size-set_remaining f (write m cur (make false (chunk n))) (cur + chunk n) (n - chunk n),
    )

-- A cell outside of the range keeps its token.
pub token-set_remaining :
    (f : ℕ) (m : SpaceMap) (cur n j : ℕ)
    → (j < cur) ⊎ (cur + n ≤ j)
    → (set_remaining f m cur n).token j ≡ m.token j
unfolding set_remaining
token-set_remaining zero m cur n j out = refl
token-set_remaining (suc f) m cur n j out = ground (
  arith,
  token-set_remaining f (write m cur (make false (chunk n))) (cur + chunk n) (n - chunk n) j,
)

-- A continuing token is read back.
reads :
    (m : SpaceMap) (cur c : ℕ)
    → m.token cur ≡ make false c
    → 0 < c
    → c < 128
    → cur < m.size
    → (stops_at m cur ≡ false) × (size_at m cur ≡ c)
reads m cur c e pos lt inside =
    ground (arith, size_of-make c lt false, is_start-make c lt false, is_empty_iff (m.token cur))

set_remaining_step :
    (f : ℕ) (m : SpaceMap) (cur n : ℕ)
    → 0 < n
    → set_remaining (suc f) m cur n
      ≡ set_remaining f (write m cur (make false (chunk n))) (cur + chunk n) (n - chunk n)
unfolding set_remaining
set_remaining_step f m cur n h = rw (lt→ltb 0 n h)

set_remaining_done : (f : ℕ) (m : SpaceMap) (cur : ℕ) → set_remaining f m cur 0 ≡ m
unfolding set_remaining
set_remaining_done zero m cur = refl
set_remaining_done (suc f) m cur = refl

pub stops_at_cong :
    (m g : SpaceMap) (i : ℕ) → m.size ≡ g.size → m.token i ≡ g.token i → stops_at m i ≡ stops_at g i
stops_at_cong m g i p q = cc

-- A chain in `g`, off whose cells `g` reads as `m`.
abbrev pub ChainOver : SpaceMap → SpaceMap → ℕ → ℕ → Type 0
ChainOver m g cur n =
    (t : Chain g cur n) × ((j : ℕ) → has j (heads t) ≡ false → g.token j ≡ m.token j)

-- One more token in front of a chain.
link :
    (m g : SpaceMap) (cur c n n' : ℕ)
    → g.token cur ≡ make false c
    → (0 < c) × (c < 128) × (cur < g.size)
    → n' ≡ c + n
    → ChainOver (write m cur (make false c)) g (cur + c) n
    → ChainOver m g cur n'
unfolding heads
link m g cur zero n n' e h q rest = absurd (omega arith)
link m g cur (suc c) n n' e h q (t, kept) =
    let got = reads g cur (suc c) e h.0 h.1 h.2 in
    (more cur c got.0 got.1 t q, λ j out. kept j (ground arith) ∙ ground arith)

-- The written tokens chain up over the whole range.
pub set_remaining-Chain :
    (f : ℕ) (m : SpaceMap) (cur n : ℕ)
    → n ≤ f
    → cur + n ≤ m.size
    → stops_at m (cur + n) ≡ true
    → ChainOver m (set_remaining f m cur n) cur n
set_remaining-Chain f m cur zero h b e =
    rw (set_remaining_done f m cur)
      (stop cur (subst (λ i. stops_at m i ≡ true) (omega arith) e), λ j out. refl)
set_remaining-Chain zero m cur (suc n) h b e = absurd (omega arith)
set_remaining-Chain (suc f) m cur (suc n) h b e =
    let c = chunk (suc n) in
    let m' = write m cur (make false c) in
    let r = suc n - c in
    let g = set_remaining f m' (cur + c) r in
    let c_le : (0 < c) × (c ≤ suc n) × (c < 128) = (ground arith, ground arith, ground arith) in
    let end : cur + c + r ≡ cur + suc n = omega arith in
    let after : stops_at m' (cur + c + r) ≡ true = rw end (ground arith) in
    let rest = set_remaining-Chain f m' (cur + c) r (omega arith) (omega arith) after in
    let at_cur : g.token cur ≡ make false c =
      token-set_remaining f m' (cur + c) r cur (inl (omega arith)) ∙ ground arith in
    let inside : cur < g.size = omega (arith, size-set_remaining f m' (cur + c) r) in
    rw (set_remaining_step f m cur (suc n) (omega arith))
      (link m g cur c r (suc n) at_cur (c_le.0, c_le.2, inside) (omega arith) rest)

set_unfold :
    (m : SpaceMap) (off size : ℕ)
    → 0 < size
    → set m off size
      ≡ set_remaining
          (size - chunk size)
          (write m off (make true (chunk size)))
          (off + chunk size)
          (size - chunk size)
unfolding set set_remaining
set_unfold m off size h = elim (Bool-cases (ltb 0 (size - chunk size))) [
  | inl e ↦ ground arith
  | inr e ↦ let z : size - chunk size ≡ 0 = ground arith in rw z (ground arith)
]

pub size-set : (m : SpaceMap) (off size : ℕ) → (set m off size).size ≡ m.size
unfolding set
size-set m off size = ground (
  arith,
  size-set_remaining (size - chunk size) (write m off (make true (chunk size))) (off + chunk size)
      (size - chunk size),
)

-- A cell outside of the new entry keeps its token.
pub token-set :
    (m : SpaceMap) (off size j : ℕ)
    → (j < off) ⊎ (off + size ≤ j)
    → (set m off size).token j ≡ m.token j
unfolding set
token-set m off size j out = ground (
  arith,
  token-set_remaining (size - chunk size) (write m off (make true (chunk size))) (off + chunk size)
      (size - chunk size) j,
)

-- What Set leaves: a first token and a chain over the rest.
pub record IsEntry (m : SpaceMap) (off size : ℕ) : Type 0 where
  pub first : ℕ
  pub rest : ℕ
  pub starts : start_at m off ≡ true
  pub reads_first : size_at m off ≡ first
  pub some_first : 0 < first
  pub chain : Chain m (off + first) rest
  pub whole : first + rest ≡ size

-- An entry in `g`, off whose cells `g` reads as `m`.
abbrev pub EntryOver : SpaceMap → SpaceMap → ℕ → ℕ → Type 0
EntryOver m g off size =
    (v : IsEntry g off size) × ((j : ℕ)
      → has j (off ∷ heads v.chain) ≡ false
      → g.token j ≡ m.token j)

head_entry :
    (m g : SpaceMap) (off c n size : ℕ)
    → g.token off ≡ make true c
    → (0 < c) × (c < 128)
    → c + n ≡ size
    → ChainOver (write m off (make true c)) g (off + c) n
    → EntryOver m g off size
head_entry m g off c n size e h q (t, kept) = (
  record {
    first = c;
    rest = n;
    starts = rw e (is_start-make c h.1 true);
    reads_first = rw e (size_of-make c h.1 true);
    some_first = h.0;
    chain = t;
    whole = q;
  },
  λ j out. kept j (ground arith) ∙ ground arith,
)

pub set-IsEntry :
    (m : SpaceMap) (off size : ℕ)
    → 0 < size
    → off + size ≤ m.size
    → stops_at m (off + size) ≡ true
    → EntryOver m (set m off size) off size
set-IsEntry m off size h b e =
    let c = chunk size in
    let m' = write m off (make true c) in
    let r = size - c in
    let g = set_remaining r m' (off + c) r in
    let c_le : (0 < c) × (c ≤ size) × (c < 128) = (ground arith, ground arith, ground arith) in
    let end : off + c + r ≡ off + size = omega arith in
    let after : stops_at m' (off + c + r) ≡ true = rw end (ground arith) in
    let at_off : g.token off ≡ make true c =
      token-set_remaining r m' (off + c) r off (inl (omega arith)) ∙ ground arith in
    rw (set_unfold m off size h) (
      head_entry m g off c r size at_off (c_le.0, c_le.2) (omega arith)
        (set_remaining-Chain r m' (off + c) r (omega arith) (omega arith) after))

pub test-IsEntry : (m : SpaceMap) (off size : ℕ) → IsEntry m off size → test m off ≡ size
test-IsEntry m off size v =
    test-Chain m off {n = v.rest} v.starts (rw v.reads_first v.chain)
    ∙ omega (arith, v.whole, v.reads_first)

inside_or_out : (off size j : ℕ) → ((off ≤ j) × (j < off + size)) ⊎ ((j < off) ⊎ (off + size ≤ j))
inside_or_out off size j = ground arith

-- Set of a positive number of blocks inside the map, with the cell behind them no continuation,
-- makes an entry that Test measures with its whole size, and changes no token outside of the
-- range.
pub test-set :
    (m : SpaceMap) (off size : ℕ)
    → 0 < size
    → off + size ≤ m.size
    → stops_at m (off + size) ≡ true
    → (test (set m off size) off ≡ size)
      × ((j : ℕ) → ((off ≤ j) × (j < off + size)) ⊎ ((set m off size).token j ≡ m.token j))
test-set m off size h b e = (
  test-IsEntry (set m off size) off size (set-IsEntry m off size h b e).0,
  λ j. elim (inside_or_out off size j) [
    | inl inside ↦ inl inside
    | inr out ↦ inr (token-set m off size j out)
  ],
)
