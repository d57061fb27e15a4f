-- ===== src/Freelist/Pooled.antt =====
-- No call leaves an empty list in a pool.
use kvdk.Prelude.{
  inr, ◌==◌, inl, Bool-cases, subst, ℕ, suc, zero, ◌+◌, ◌≡◌, refl, List, [], ◌∷◌, length, Bool,
  arith,
}
use kvdk.DlList.{SpaceEntry}
use kvdk.Space.Pool.{
  SpaceEntryPool, move_entry_list, try_fetch_entry_list, move_large_entry_set,
  try_fetch_large_entry_set, move_list, try_fetch_list, fetch_from,
}
use kvdk.Freelist.{insert_entry}
use kvdk.Freelist.Small.{NoEmpty}
use kvdk.Freelist.Pooling.{Moving, add_small, add_large, flush_small, flush_large}

abbrev pub Full : SpaceEntryPool → Type 0
Full p = (i : ℕ) → NoEmpty (p.small_entry_pool i)

pub move_entry_list-Full :
    (p : SpaceEntryPool) (os : List ℕ) (b : ℕ) → Full p → Full (move_entry_list p os b).0
unfolding move_entry_list move_list
move_entry_list-Full p [] b h i = h i
move_entry_list-Full p (o ∷ os) b h i = ground (arith, h i, h b)

fetch-NoEmpty :
    (xss : List (List ℕ)) (p : ℕ → List (List ℕ)) (b i : ℕ)
    → p b ≡ xss
    → ((j : ℕ) → NoEmpty (p j))
    → NoEmpty ((fetch_from p b [] xss).0 i)
unfolding fetch_from
fetch-NoEmpty [] p b i e h = h i
fetch-NoEmpty ([] ∷ xss) p b i e h = absurd (subst NoEmpty e (h b))
fetch-NoEmpty ((x ∷ xs) ∷ xss) p b i e h = elim (Bool-cases (i == b)) [
  | inl here ↦ rw here (subst NoEmpty e (h b))
  | inr other ↦ rw other (h i)
]

pub try_fetch_entry_list-Full :
    (p : SpaceEntryPool) (b : ℕ) → Full p → Full (try_fetch_entry_list p [] b).0
unfolding try_fetch_entry_list try_fetch_list
try_fetch_entry_list-Full p b h i = fetch-NoEmpty _ p.small_entry_pool b i refl h

pub move_large_entry_set-Full :
    (p : SpaceEntryPool) (es : List SpaceEntry) (b : ℕ)
    → Full p
    → Full (move_large_entry_set p es b).0
unfolding move_large_entry_set
move_large_entry_set-Full p es b h = h

pub try_fetch_large_entry_set-Full :
    (p : SpaceEntryPool) (b : ℕ) → Full p → Full (try_fetch_large_entry_set p [] b).0
unfolding try_fetch_large_entry_set
try_fetch_large_entry_set-Full p b h = h

pub flush_small-Full :
    (n b : ℕ) (os : ℕ → List ℕ) (p : SpaceEntryPool) → Full p → Full (flush_small n b os p)
unfolding flush_small
flush_small-Full zero b os p h = h
flush_small-Full (suc n) b os p h =
    flush_small-Full n (b + 1) os _ (move_entry_list-Full p (os b) b h)

pub flush_large-Full :
    (n b : ℕ) (es : ℕ → List SpaceEntry) (p : SpaceEntryPool) → Full p → Full (flush_large n b es p)
unfolding flush_large
flush_large-Full zero b es p h = h
flush_large-Full (suc n) b es p h =
    flush_large-Full n (b + 1) es _ (move_large_entry_set-Full p (es b) b h)

pub add_small-Full :
    (full : ℕ → Bool) (b o : ℕ) (s : SpaceEntryPool × Moving)
    → Full s.0
    → Full (add_small full b o s).0
unfolding add_small
add_small-Full full b o (p, v) h = elim (Bool-cases (full (length (o ∷ v.small b)))) [
  | inl e ↦ rw e (move_entry_list-Full p (o ∷ v.small b) b h)
  | inr e ↦ rw e h
]

pub add_large-Full :
    (full : ℕ → Bool) (b : ℕ) (e : SpaceEntry) (s : SpaceEntryPool × Moving)
    → Full s.0
    → Full (add_large full b e s).0
unfolding add_large
add_large-Full full b x (p, v) h = elim (Bool-cases (full (length (insert_entry x (v.large b))))) [
  | inl e ↦ rw e (move_large_entry_set-Full p (insert_entry x (v.large b)) b h)
  | inr e ↦ rw e h
]
