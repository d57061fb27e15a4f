-- ===== src/DlList/Ring.antt =====
-- The list in memory: a ring through its header. Any record of the ring may be taken for the first.
use kvdk.Prelude.{ℕ, ◌≡◌, List, [], ◌∷◌, ◌++◌, true, arith, has, Distinct, Distinct-swap, ◌∙◌}
use kvdk.DlList.{Pmem}

-- Each of two neighbours names the other.
abbrev pub Linked : Pmem → ℕ → ℕ → Type 0
Linked h a b = ((h a).next ≡ b) × ((h b).prev ≡ a)

-- From `a` through the records `xs` to `b`.
abbrev pub Seg : Pmem → ℕ → List ℕ → ℕ → Type 0
Seg h a [] b = Linked h a b
Seg h a (x ∷ xs) b = Linked h a x × Seg h x xs b

-- From `a` once round through the distinct records `xs`.
pub record IsRing (h : Pmem) (a : ℕ) (xs : List ℕ) : Type 0 where
  pub seg : Seg h a xs a
  pub distinct : Distinct (a ∷ xs)

pub Seg-append :
    (h : Pmem) (a b c : ℕ) (xs ys : List ℕ) → Seg h a xs b → Seg h b ys c → Seg h a (xs ++ b ∷ ys) c
Seg-append h a b c [] ys s t = (s, t)
Seg-append h a b c (x ∷ xs) ys s t = (s.0, Seg-append h x b c xs ys s.1 t)

pub Seg-split :
    (h : Pmem) (a b c : ℕ) (xs ys : List ℕ) → Seg h a (xs ++ b ∷ ys) c → Seg h a xs b × Seg h b ys c
Seg-split h a b c [] ys s = s
Seg-split h a b c (x ∷ xs) ys s = let (l, r) = Seg-split h x b c xs ys s.1 in ((s.0, l), r)

-- The ring can be read from any of its records.
pub IsRing-rotate :
    (h : Pmem) (a b : ℕ) (xs ys : List ℕ) → IsRing h a (xs ++ b ∷ ys) → IsRing h b (ys ++ a ∷ xs)
IsRing-rotate h a b xs ys r =
    let (l, s) = Seg-split h a b a xs ys r.seg in
    record {
      seg = Seg-append h b a b ys xs s l;
      distinct = Distinct-swap (a ∷ xs) (b ∷ ys) r.distinct;
    }

-- A segment stands in another memory that agrees on what it reads.
pub Seg-frame :
    (h g : Pmem) (a : ℕ) (xs : List ℕ) (b : ℕ)
    → Seg h a xs b
    → ((i : ℕ) → has i (a ∷ xs) ≡ true → (g i).next ≡ (h i).next)
    → ((i : ℕ) → has i (xs ++ b ∷ []) ≡ true → (g i).prev ≡ (h i).prev)
    → Seg g a xs b
Seg-frame h g a [] b s same_next same_prev =
    (same_next a (ground arith) ∙ s.0, same_prev b (ground arith) ∙ s.1)
Seg-frame h g a (x ∷ xs) b s same_next same_prev = (
  (same_next a (ground arith) ∙ s.0.0, same_prev x (ground arith) ∙ s.0.1),
  Seg-frame h g x xs b s.1 (λ i e. same_next i (ground arith)) (λ i e. same_prev i (ground arith)),
)
