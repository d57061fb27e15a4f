-- ===== src/Space/Map/Take.antt =====
-- TestAndClear: it takes exactly the entry that Test measures, once.
use kvdk.Prelude.{
  has, leb, ==_iff, ℕ, zero, suc, ◌+◌, ◌≤◌, ◌<◌, ◌≡◌, ◌≢◌, refl, ◌⊎◌, inl, inr, true, false, List,
  [], ◌∷◌, ◌++◌, arith, ◌==◌, Bool-cases, if◌then◌else◌, ◌∙◌, sym,
}
use mathlib.Core.List.{append_assoc, append-nil}
use kvdk.Space.Token.{clear, is_start-clear}
use kvdk.Space.Map.{
  SpaceMap, write, start_at, size_at, Collected, collect, clear_all, test_and_clear, test, set,
}
use kvdk.Space.Map.Chain.{
  Chain, stop, more, heads, heads-in_range, stops_at, go_on, Chain-total, test-Chain,
}
use kvdk.Space.Map.Fill.{IsEntry, set-IsEntry}

pub size-clear_all : (m : SpaceMap) (is : List ℕ) → (clear_all m is).size ≡ m.size
unfolding clear_all
size-clear_all m [] = refl
size-clear_all m (i ∷ is) = size-clear_all (write m i clear) is

-- Exactly the listed cells are cleared.
pub token-clear_all :
    (m : SpaceMap) (is : List ℕ) (j : ℕ)
    → (clear_all m is).token j ≡ (if has j is then clear else m.token j)
unfolding clear_all
token-clear_all m [] j = refl
token-clear_all m (i ∷ is) j = ground (arith, token-clear_all (write m i clear) is j)

module _ (m : SpaceMap) (off size : ℕ) where
  collect_all :
      (f : ℕ) (c : Collected) {cur n : ℕ} (t : Chain m cur n)
      → cur ≡ off + c.in_clear
      → m.size < f + cur
      → c.in_clear + n ≤ size
      → collect f m off size c
        ≡ record { in_clear = c.in_clear + n; to_clear = c.to_clear ++ heads t }
  unfolding collect heads
  collect_all zero c (stop cur e) q h b = ground (arith, append-nil c.to_clear)
  collect_all zero c (more cur s e z t p) q h b = absurd (omega (arith, (go_on m cur e).2))
  collect_all (suc f) c (stop cur e) q h b = ground (arith, append-nil c.to_clear)
  collect_all (suc f) c (more cur s e z t p) q h b =
      let c' : Collected = record {
        in_clear = c.in_clear + size_at m cur;
        to_clear = c.to_clear ++ cur ∷ [];
      } in
      ground (
        arith,
        collect_all f c' t (omega arith) (omega arith) (omega arith),
        append_assoc c.to_clear (cur ∷ []) (heads t),
      )

  collect_over :
      (f : ℕ) (c : Collected) {cur n : ℕ} (t : Chain m cur n)
      → cur ≡ off + c.in_clear
      → m.size < f + cur
      → size < c.in_clear + n
      → size < (collect f m off size c).in_clear
  unfolding collect
  collect_over zero c (stop cur e) q h b = omega arith
  collect_over zero c (more cur s e z t p) q h b = absurd (omega (arith, (go_on m cur e).2))
  collect_over (suc f) c (stop cur e) q h b = ground arith
  collect_over (suc f) c (more cur s e z t p) q h b =
      let c' : Collected = record {
        in_clear = c.in_clear + size_at m cur;
        to_clear = c.to_clear ++ cur ∷ [];
      } in
      ground (arith, collect_over f c' t (omega arith) (omega arith) (omega arith))

Chain-zero : {m : SpaceMap} {cur n : ℕ} → Chain m cur n → stops_at m cur ≡ true → n ≡ 0
Chain-zero (stop cur e) h = refl
Chain-zero (more cur s e z t p) h = ground arith

IsEntry-of_start :
    (m : SpaceMap) (off size n : ℕ)
    → 0 < size
    → start_at m off ≡ true
    → Chain m (off + size_at m off) n
    → size_at m off + n ≡ size
    → IsEntry m off size
IsEntry-of_start m off size n pos st c q = record {
  first = size_at m off;
  rest = n;
  starts = st;
  reads_first = refl;
  some_first = elim (Bool-cases (size_at m off == 0)) [
    | inl z ↦
        let at_off : off + size_at m off ≡ off = ground arith in
        let stopped : stops_at m (off + size_at m off) ≡ true = rw at_off (ground arith) in
        absurd (omega (arith, Chain-zero c stopped, (==_iff (size_at m off) 0).0 z))
    | inr z ↦ ground arith
  ];
  chain = c;
  whole = q;
}

-- What Test measures is an entry.
pub IsEntry-of_test :
    (m : SpaceMap) (off size : ℕ) → 0 < size → test m off ≡ size → IsEntry m off size
unfolding test
IsEntry-of_test m off size pos q = elim (Bool-cases (start_at m off)) [
  | inl st ↦
      let (n, c) = Chain-total (suc m.size) m (off + size_at m off) (omega arith) in
      IsEntry-of_start m off size n pos st c (sym (test-Chain m off st c) ∙ q)
  | inr st ↦ absurd (ground arith)
]

-- An entry is taken whole: the cells of its tokens are cleared.
pub take-IsEntry :
    (m : SpaceMap) (off size : ℕ) (v : IsEntry m off size)
    → test_and_clear m off size ≡ (clear_all m (off ∷ heads v.chain), true)
unfolding test_and_clear
take-IsEntry m off size v = ground (
  arith,
  v.starts,
  v.reads_first,
  v.whole,
  v.some_first,
  collect_all m off size (suc m.size) (record { in_clear = v.first; to_clear = off ∷ [] }) v.chain
      refl (omega arith) (omega (arith, v.whole)),
)

-- Nothing but the whole entry at its own offset is taken.
pub take_refused :
    (m : SpaceMap) (off size : ℕ)
    → 0 < size
    → test m off ≢ size
    → test_and_clear m off size ≡ (m, false)
unfolding test_and_clear
take_refused m off size pos ne = elim (Bool-cases (start_at m off)) [
  | inl st ↦
      let (n, c) = Chain-total (suc m.size) m (off + size_at m off) (omega arith) in
      let c0 : Collected = record { in_clear = size_at m off; to_clear = off ∷ [] } in
      let total = test-Chain m off st c in
      elim (Bool-cases (leb (size_at m off + n) size)) [
        | inl le ↦ ground (
          arith,
          st,
          total,
          collect_all m off size (suc m.size) c0 c refl (omega arith) (ground arith),
        )
        | inr gt ↦ ground (
          arith,
          st,
          total,
          collect_over m off size (suc m.size) c0 c refl (omega arith) (ground arith),
        )
      ]
  | inr st ↦ ground arith
]

-- What taking the entry at `off` leaves: no entry at `off`, the size of the map, and every cell
-- outside of the entry.
pub record IsTaken (m m' : SpaceMap) (off size : ℕ) : Type 0 where
  pub gone : test m' off ≡ 0
  pub same_size : m'.size ≡ m.size
  pub outside : (j : ℕ) → (j < off) ⊎ (off + size ≤ j) → m'.token j ≡ m.token j

not-has : (j : ℕ) (is : List ℕ) → (has j is ≡ true → ⊥) → has j is ≡ false
not-has j is h = elim (Bool-cases (has j is)) [ inl e ↦ absurd (h e) | inr e ↦ e ]

cells_inside :
    {m : SpaceMap} {off size : ℕ} (v : IsEntry m off size) (j : ℕ)
    → has j (off ∷ heads v.chain) ≡ true
    → (off ≤ j) × (j < off + size)
cells_inside {off = off} v j h = ground (arith, v.whole, v.some_first, heads-in_range v.chain j)

clear_all-IsTaken :
    (m : SpaceMap) (off size : ℕ) (v : IsEntry m off size)
    → IsTaken m (clear_all m (off ∷ heads v.chain)) off size
unfolding test
clear_all-IsTaken m off size v = record {
  gone = ground (arith, token-clear_all m (off ∷ heads v.chain) off, is_start-clear);
  same_size = size-clear_all m (off ∷ heads v.chain);
  outside = λ j out.
      token-clear_all m (off ∷ heads v.chain) j
      ∙ rw (
          not-has j (off ∷ heads v.chain) λ h.
            let inside = cells_inside v j h in
            elim out [ inl lt ↦ omega arith | inr ge ↦ omega arith ]);
}

-- TestAndClear of a positive size succeeds exactly if Test measures that size; then no entry is
-- left at the offset, and no cell outside of the entry has changed. Otherwise the map is as it
-- was.
pub test_and_clear-test :
    (m : SpaceMap) (off size : ℕ)
    → 0 < size
    → ((test m off ≡ size)
        × ((test_and_clear m off size).1 ≡ true)
        × IsTaken m (test_and_clear m off size).0 off size)
      ⊎ ((test m off ≢ size) × (test_and_clear m off size ≡ (m, false)))
test_and_clear-test m off size pos = elim (Bool-cases (test m off == size)) [
  | inl e ↦
      let q = (==_iff (test m off) size).0 e in
      let v = IsEntry-of_test m off size pos q in
      inl (
        q,
        rw (take-IsEntry m off size v),
        rw (take-IsEntry m off size v) (clear_all-IsTaken m off size v),
      )
  | inr e ↦ let ne : test m off ≢ size = ground arith in inr (ne, take_refused m off size pos ne)
]

-- Of two attempts to take from one offset at most one succeeds, whatever the sizes, as long as
-- they are positive.
pub take_once :
    (m : SpaceMap) (off size size' : ℕ)
    → 0 < size
    → 0 < size'
    → (test_and_clear m off size).1 ≡ true
    → (test_and_clear (test_and_clear m off size).0 off size').1 ≡ false
take_once m off size size' pos pos' done = elim (test_and_clear-test m off size pos) [
  | inl (q, ok, gone) ↦
      let m' = (test_and_clear m off size).0 in
      let ne : test m' off ≢ size' = omega (arith, gone.gone) in
      rw (take_refused m' off size' pos' ne)
  | inr (ne, refused) ↦ absurd (ground (arith, refused, done))
]

-- Set and then TestAndClear of the same positive number of blocks inside the map succeeds and
-- gives every cell its token back, if the range was clear before and the cell behind it is no
-- continuation.
pub take-set :
    (m : SpaceMap) (off size : ℕ)
    → 0 < size
    → off + size ≤ m.size
    → stops_at m (off + size) ≡ true
    → ((j : ℕ) → off ≤ j → j < off + size → m.token j ≡ clear)
    → ((test_and_clear (set m off size) off size).1 ≡ true)
      × ((j : ℕ) → (test_and_clear (set m off size) off size).0.token j ≡ m.token j)
take-set m off size pos b e free =
    let (v, kept) = set-IsEntry m off size pos b e in
    let g = set m off size in
    let is = off ∷ heads v.chain in
    rw (take-IsEntry g off size v) (
      refl,
      λ j. elim (Bool-cases (has j is)) [
        | inl hit ↦
            let inside = cells_inside v j hit in
            token-clear_all g is j ∙ rw hit (sym (free j inside.0 inside.1))
        | inr miss ↦ token-clear_all g is j ∙ rw miss (kept j miss)
      ],
    )
