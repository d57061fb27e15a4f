-- ===== src/Freelist/Fits.antt =====
-- Freelist as the free list that PMEMAllocator works with.
use kvdk.Prelude.{
  inr, inl, Bool-cases, ◌-◌, ℕ, suc, zero, ◌+◌, ◌*◌, ◌/◌, ◌%◌, ◌≤◌, ◌≡◌, List, [], ◌∷◌, Bool, true,
  false, arith,
}
use native.Mathlib.Nat.{mod-add-div, mul_comm}
use kvdk.DlList.{SpaceEntry}
use kvdk.Space.Map.{SpaceMap, test_and_clear}
use kvdk.Allocator.{FreeList}
use kvdk.Allocator.Usage.{GetFits}
use kvdk.Freelist.{
  cached_small, stock, fill_small, fill_large, cached_large, length, Config, Freelist, or_else,
  pop_small, search_small, scan_small, get_small_entry, sweep, search_large, scan_large,
  get_large_entry, get, push,
}

-- An entry that is found has at least the size.
abbrev Fits : ℕ → Freelist × (SpaceEntry × Bool) → Type 0
Fits n r = r.1.1 ≡ true → n ≤ r.1.0.size

or_else-Fits :
    (n : ℕ) (r : Freelist × (SpaceEntry × Bool))
    (next : SpaceEntry → Freelist → Freelist × (SpaceEntry × Bool))
    → Fits n r
    → ((e : SpaceEntry) (l : Freelist) → Fits n (next e l))
    → Fits n (or_else next r)
unfolding or_else
or_else-Fits n (l, (e, true)) next h rest = h
or_else-Fits n (l, (e, false)) next h rest = rest e l

module _ (c : Config) (tid : ℕ) where
  pop_small-Fits :
      (i : ℕ) (search_entry : SpaceEntry → Freelist → Freelist × (SpaceEntry × Bool))
      (e : SpaceEntry) (os : List ℕ) (l : Freelist)
      → ((e : SpaceEntry) (l : Freelist) → Fits (i * c.block_size) (search_entry e l))
      → Fits (i * c.block_size) (pop_small c search_entry tid i e os l)
  unfolding pop_small
  pop_small-Fits i search_entry e [] l rest = λ h. ground arith
  pop_small-Fits i search_entry e (o ∷ os) l rest =
      elim (Bool-cases (test_and_clear l.space_map (o / c.block_size) i).1) [
        | inl done ↦ rw done (λ h. omega arith)
        | inr stale ↦ rw stale (rest _ _)
      ]

  search_small-Fits :
      (f i : ℕ) (e : SpaceEntry) (l : Freelist)
      → Fits (i * c.block_size) (search_small c f tid i e l)
  unfolding search_small
  search_small-Fits zero i e l = λ h. ground arith
  search_small-Fits (suc f) i e l =
      elim (Bool-cases (fill_small c tid i (cached_small c tid l i) l).1) [
        | inl go ↦ rw go (pop_small-Fits i (search_small c f tid i) e _ _ (search_small-Fits f i))
        | inr stop ↦ rw stop (λ h. ground arith)
      ]

  scan_small-Fits :
      (n i k : ℕ) (e : SpaceEntry) (l : Freelist)
      → k ≤ i
      → Fits (k * c.block_size) (scan_small c n tid i e l)
  unfolding scan_small
  scan_small-Fits zero i k e l le = λ h. ground arith
  scan_small-Fits (suc n) i k e l le =
      or_else-Fits (k * c.block_size) (search_small c (suc (length (stock c tid i l))) tid i e l)
        (scan_small c n tid (i + 1))
        (λ h. grind (arith, search_small-Fits (suc (length (stock c tid i l))) i e l h))
        (λ e' l'. scan_small-Fits n (i + 1) k e' l' (omega arith))

  sweep-Fits :
      (size : ℕ) (es : List SpaceEntry) (m : SpaceMap) (e : SpaceEntry)
      → (sweep c size es m e).1.1.1 ≡ true
      → size ≤ (sweep c size es m e).1.1.0.size
  unfolding sweep
  sweep-Fits size [] m e h = ground arith
  sweep-Fits size (x ∷ xs) m e h = ground (
    arith,
    sweep-Fits size xs (test_and_clear m (x.offset / c.block_size) (x.size / c.block_size)).0 e,
  )

  search_large-Fits :
      (size i : ℕ) (e : SpaceEntry) (l : Freelist) → Fits size (search_large c tid size i e l)
  unfolding search_large
  search_large-Fits size i e l = λ h. ground (
    arith,
    sweep-Fits size (cached_large c tid (fill_large c tid i (cached_large c tid l i) l).0 i)
        (fill_large c tid i (cached_large c tid l i) l).0.space_map e,
  )

  scan_large-Fits :
      (n size i : ℕ) (e : SpaceEntry) (l : Freelist) → Fits size (scan_large c n tid size i e l)
  unfolding scan_large
  scan_large-Fits zero size i e l = λ h. ground arith
  scan_large-Fits (suc n) size i e l =
      or_else-Fits size (search_large c tid size i e l) (scan_large c n tid size (i + 1))
        (search_large-Fits size i e l) (scan_large-Fits n size (i + 1))

abbrev pub free_list : Config → FreeList
free_list c = record { Carrier = Freelist; push = push c; get = get c }

pub free_list-GetFits :
    (c : Config) (size : ℕ) → size % c.block_size ≡ 0 → GetFits (free_list c) size
unfolding get get_small_entry get_large_entry
free_list-GetFits c size whole tid e l =
    or_else-Fits size (get_small_entry c tid size e l) (get_large_entry c tid size)
      (λ h. grind (
        arith,
        scan_small-Fits c tid (c.max_small_entry_block_size - size / c.block_size)
            (size / c.block_size) (size / c.block_size) e l (omega arith) h,
        mod-add-div size c.block_size,
        mul_comm (size / c.block_size) c.block_size,
      ))
      (λ e' k. scan_large-Fits c tid _ size _ e' k)
