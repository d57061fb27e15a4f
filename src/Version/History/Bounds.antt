-- ===== src/Version/History/Bounds.antt =====
-- The order of the snapshot list and the bounds that the loops of NewGlobalSnapshot give.
use Prim.Native.Nat.{min}
use kvdk.Prelude.{ℕ, ◌+◌, ◌-◌, ◌%◌, ◌^◌, ◌≤◌, ◌<◌, ◌≡◌, List, [], ◌∷◌, true, arith, All}
use kvdk.Version.{ThreadCache, Snapshot, max_timestamp, oldest, delete, below_batches, all_pass}

-- The timestamps fall along the list and are at most `n`.
abbrev pub Descending : ℕ → List Snapshot → Type 0
Descending n [] = Unit {0}
Descending n (s ∷ ss) = (s.timestamp ≤ n) × Descending s.timestamp ss

abbrev pub newest : List Snapshot → ℕ
newest [] = 0
newest (s ∷ ss) = s.timestamp

-- The batch of the thread, if it writes one, is newer than `n`.
abbrev pub Above : ℕ → ThreadCache → Type 0
Above n t = (n < t.batch_write_ts) × (t.batch_write_ts ≤ max_timestamp)

pub Descending-mono : {m n : ℕ} (ss : List Snapshot) → m ≤ n → Descending m ss → Descending n ss
Descending-mono [] h d = tt
Descending-mono (s ∷ ss) h d = (omega arith, d.1)

pub Descending-newest :
    (m n : ℕ) (ss : List Snapshot) → newest ss ≤ n → Descending m ss → Descending n ss
Descending-newest m n [] h d = tt
Descending-newest m n (s ∷ ss) h d = (h, d.1)

pub Descending-delete :
    (n : ℕ) (ss : List Snapshot) (i : ℕ) → Descending n ss → Descending n (delete ss i)
unfolding delete
Descending-delete n [] i d = tt
Descending-delete n (s ∷ ss) i d =
    ground
      (arith, Descending-mono {m = s.timestamp} {n = n} ss, Descending-delete s.timestamp ss i d.1)

pub newest-delete :
    (n : ℕ) (ss : List Snapshot) (i : ℕ) → Descending n ss → newest (delete ss i) ≤ newest ss
unfolding delete
newest-delete n [] i d = omega arith
newest-delete n (s ∷ []) i d = ground arith
newest-delete n (s ∷ r ∷ ss) i d = ground arith

pub Above-mono : {m n : ℕ} (ts : List ThreadCache) → m ≤ n → All (Above n) ts → All (Above m) ts
Above-mono [] h a = tt
Above-mono (t ∷ ts) h a = ((omega arith, a.0.1), Above-mono ts h a.1)

below_batches-le : (ts : List ThreadCache) (n : ℕ) → below_batches ts n ≤ n
unfolding below_batches
below_batches-le [] n = omega arith
below_batches-le (t ∷ ts) n =
    omega (arith, below_batches-le ts (min n ((t.batch_write_ts + (2 ^ 64 - 1)) % 2 ^ 64)))

le-below_batches :
    (ts : List ThreadCache) (m n : ℕ) → All (Above m) ts → m ≤ n → m ≤ below_batches ts n
unfolding below_batches
le-below_batches [] m n a h = h
le-below_batches (t ∷ ts) m n a h =
    le-below_batches ts m (min n ((t.batch_write_ts + (2 ^ 64 - 1)) % 2 ^ 64)) a.1 (omega arith)

below_batches-Above :
    (ts : List ThreadCache) (m n : ℕ) → All (Above m) ts → All (Above (below_batches ts n)) ts
unfolding below_batches
below_batches-Above [] m n a = tt
below_batches-Above (t ∷ ts) m n a =
    let n' = min n ((t.batch_write_ts + (2 ^ 64 - 1)) % 2 ^ 64) in
    ((omega (arith, below_batches-le ts n'), a.0.1), below_batches-Above ts m n' a.1)

-- A snapshot that does not block lies between the newest one and now, below every batch.
pub below_batches_lem :
    (ts : List ThreadCache) (m n : ℕ)
    → All (Above m) ts
    → m ≤ n
    → (m ≤ below_batches ts n) × (below_batches ts n ≤ n) × All (Above (below_batches ts n)) ts
below_batches_lem ts m n a h =
    (le-below_batches ts m n a h, below_batches-le ts n, below_batches-Above ts m n a)

-- So does one that need not wait.
pub all_pass-Above :
    (ts : List ThreadCache) (m n : ℕ) → All (Above m) ts → all_pass ts n ≡ true → All (Above n) ts
unfolding all_pass
all_pass-Above [] m n a h = tt
all_pass-Above (t ∷ ts) m n a h = ((ground arith, a.0.1), all_pass-Above ts m n a.1 (ground arith))

oldest-le_head :
    {n : ℕ} (s : Snapshot) (ss : List Snapshot)
    → Descending n (s ∷ ss)
    → oldest (s ∷ ss) ≤ s.timestamp
unfolding oldest
oldest-le_head s [] d = omega arith
oldest-le_head s (r ∷ ss) d = omega (arith, oldest-le_head r ss d.1)

-- The last snapshot of the list is the oldest one.
pub oldest-le :
    (n : ℕ) (ss : List Snapshot) → Descending n ss → All (λ s. oldest ss ≤ s.timestamp) ss
unfolding oldest
oldest-le n [] d = tt
oldest-le n (s ∷ []) d = (omega arith, tt)
oldest-le n (s ∷ r ∷ ss) d =
    (omega (arith, oldest-le_head r ss d.1), oldest-le s.timestamp (r ∷ ss) d.1)
