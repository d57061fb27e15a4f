-- ===== src/Version/Local.antt =====
-- The oldest local snapshot, which tells what no reader can still hold.
use Prim.Native.Nat.{min}
use kvdk.Prelude.{◌↔◌, ℕ, ◌≤◌, List, [], ◌∷◌, arith, All}
use kvdk.Version.{Controller, ThreadCache, current, min_holding, update_local_oldest}

min_holding-le : (ts : List ThreadCache) (n : ℕ) → min_holding ts n ≤ n
unfolding min_holding
min_holding-le [] n = omega arith
min_holding-le (t ∷ ts) n = omega (arith, min_holding-le ts (min t.holding n))

min_holding-All : (ts : List ThreadCache) (n : ℕ) → All (λ t. min_holding ts n ≤ t.holding) ts
unfolding min_holding
min_holding-All [] n = tt
min_holding-All (t ∷ ts) n =
    (omega (arith, min_holding-le ts (min t.holding n)), min_holding-All ts (min t.holding n))

All-le :
    (m n : ℕ) (ts : List ThreadCache)
    → m ≤ n
    → All (λ t. n ≤ t.holding) ts
    → All (λ t. m ≤ t.holding) ts
All-le m n [] le a = tt
All-le m n (t ∷ ts) le a = (omega arith, All-le m n ts le a.1)

le-min_holding :
    (ts : List ThreadCache) (m n : ℕ) → All (λ t. m ≤ t.holding) ts → m ≤ n → m ≤ min_holding ts n
unfolding min_holding
le-min_holding [] m n a h = h
le-min_holding (t ∷ ts) m n a h = le-min_holding ts m (min t.holding n) a.1 (omega arith)

-- A timestamp is at most the one that UpdateLocalOldestSnapshot records exactly if it is at most the
-- current one and at most what each thread holds.
pub update_local_oldest_lem :
    (c : Controller) (tsc m : ℕ)
    → (m ≤ (update_local_oldest c tsc).local_oldest)
      ↔ ((m ≤ current c tsc) × All (λ t. m ≤ t.holding) c.threads)
unfolding update_local_oldest
update_local_oldest_lem c tsc m = (
  λ le. (
    omega (arith, min_holding-le c.threads (current c tsc)),
    All-le m (min_holding c.threads (current c tsc)) c.threads le
        (min_holding-All c.threads (current c tsc)),
  ),
  λ b. le-min_holding c.threads m (current c tsc) b.1 b.0,
)
