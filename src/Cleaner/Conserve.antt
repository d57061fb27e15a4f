-- ===== src/Cleaner/Conserve.antt =====
-- What becomes of the entries that are pending.
use kvdk.Prelude.{
  if◌then◌else◌, ℕ, ◌+◌, ◌≡◌, refl, Bool, true, not, ◌&&◌, List, [], ◌∷◌, ◌++◌, arith, ltb, ◌∙◌,
}
use kvdk.Cleaner.{
  SpaceEntry, Pending, OldRecordsCleaner, Sorting, sort_cache, sort_caches, emptied, take_front,
  try_global_clean,
}

-- How many entries of a queue pass a test, of all caches, and of the spaces that were taken out.
pub number : (Pending → Bool) → List Pending → ℕ
number P [] = 0
number P (p ∷ ps) = (if P p then 1 else 0) + number P ps

pub number_all : (Pending → Bool) → List (List Pending) → ℕ
number_all P [] = 0
number_all P (c ∷ cs) = number P c + number_all P cs

pub spaces : (SpaceEntry → Bool) → List SpaceEntry → ℕ
spaces Q [] = 0
spaces Q (e ∷ es) = (if Q e then 1 else 0) + spaces Q es

number-append :
    (P : Pending → Bool) (ps qs : List Pending) → number P (ps ++ qs) ≡ number P ps + number P qs
unfolding number
number-append P [] qs = omega arith
number-append P (p ∷ ps) qs = omega (arith, number-append P ps qs)

spaces-append :
    (Q : SpaceEntry → Bool) (es fs : List SpaceEntry)
    → spaces Q (es ++ fs) ≡ spaces Q es + spaces Q fs
unfolding spaces
spaces-append Q [] fs = omega arith
spaces-append Q (e ∷ es) fs = omega (arith, spaces-append Q es fs)

number_all-emptied : (P : Pending → Bool) (cs : List (List Pending)) → number_all P (emptied cs) ≡ 0
unfolding number number_all emptied
number_all-emptied P [] = refl
number_all-emptied P (c ∷ cs) = omega (arith, number_all-emptied P cs)

module _ (o : ℕ) (Q : SpaceEntry → Bool) where
  -- The test on the space of a pending entry.
  abbrev of_space : Pending → Bool
  of_space p = Q p.entry

  abbrev count : Sorting → ℕ
  count s = spaces Q s.free_entries + number of_space s.waiting

  count-sort_cache :
      (ps : List Pending) (s : Sorting) → count (sort_cache o ps s) ≡ number of_space ps + count s
  unfolding sort_cache number spaces
  count-sort_cache [] s = omega arith
  count-sort_cache (p ∷ ps) s = ground (
    arith,
    count-sort_cache ps (record s { free_entries = s.free_entries ++ p.entry ∷ [] }),
    count-sort_cache ps (record s { waiting = s.waiting ++ p ∷ [] }),
    spaces-append Q s.free_entries (p.entry ∷ []),
    number-append of_space s.waiting (p ∷ []),
  )

  count-sort_caches :
      (cs : List (List Pending)) (s : Sorting)
      → count (sort_caches o cs s) ≡ number_all of_space cs + count s
  unfolding sort_caches number_all
  count-sort_caches [] s = omega arith
  count-sort_caches (c ∷ cs) s =
      omega (arith, count-sort_caches cs (sort_cache o c s), count-sort_cache c s)

  count-take_front :
      (ps : List Pending) (fs : List SpaceEntry)
      → count (take_front o ps fs) ≡ number of_space ps + spaces Q fs
  unfolding take_front number spaces
  count-take_front [] fs = ground arith
  count-take_front (p ∷ ps) fs =
      ground (arith, count-take_front ps (fs ++ p.entry ∷ []), spaces-append Q fs (p.entry ∷ []))

module _ (o : ℕ) (P : Pending → Bool) where
  -- A snapshot from `o` on may still read the entry.
  abbrev late : Pending → Bool
  late p = not (ltb p.release_time o) && P p

  late-sort_cache :
      (ps : List Pending) (s : Sorting)
      → number late (sort_cache o ps s).waiting ≡ number late ps + number late s.waiting
  unfolding sort_cache number
  late-sort_cache [] s = omega arith
  late-sort_cache (p ∷ ps) s = ground (
    arith,
    late-sort_cache ps (record s { free_entries = s.free_entries ++ p.entry ∷ [] }),
    late-sort_cache ps (record s { waiting = s.waiting ++ p ∷ [] }),
    number-append late s.waiting (p ∷ []),
  )

  late-sort_caches :
      (cs : List (List Pending)) (s : Sorting)
      → number late (sort_caches o cs s).waiting ≡ number_all late cs + number late s.waiting
  unfolding sort_caches number_all
  late-sort_caches [] s = omega arith
  late-sort_caches (c ∷ cs) s =
      omega (arith, late-sort_caches cs (sort_cache o c s), late-sort_cache c s)

  late-take_front :
      (ps : List Pending) (fs : List SpaceEntry)
      → number late (take_front o ps fs).waiting ≡ number late ps
  unfolding take_front number
  late-take_front [] fs = refl
  late-take_front (p ∷ ps) fs = ground (arith, late-take_front ps (fs ++ p.entry ∷ []))

-- TryGlobalClean empties the thread caches and loses no entry on the way: by every test on spaces, as
-- many are pending in the global queue or taken out afterwards as were pending before. By every test
-- on pending entries, as many that are not older than the oldest snapshot are pending afterwards as
-- before, so only older ones are taken out.
pub try_global_clean-conserves :
    (c : OldRecordsCleaner) (oldest : ℕ) (Q : SpaceEntry → Bool) (P : Pending → Bool)
    → let r = try_global_clean c oldest in
      (spaces Q r.free_entries + number (λ p. Q p.entry) r.cleaner.global_pending
        ≡ number_all (λ p. Q p.entry) c.caches + number (λ p. Q p.entry) c.global_pending)
      × (number (λ p. not (ltb p.release_time oldest) && P p) r.cleaner.global_pending
          ≡ number_all (λ p. not (ltb p.release_time oldest) && P p) c.caches
            + number (λ p. not (ltb p.release_time oldest) && P p) c.global_pending)
      × (number_all (λ p. true) r.cleaner.caches ≡ 0)
unfolding try_global_clean spaces
try_global_clean-conserves c oldest Q P =
    let first : Sorting = record { free_entries = []; waiting = c.global_pending } in
    let s = sort_caches oldest c.caches first in
    (
      omega (
        arith,
        count-take_front oldest Q s.waiting s.free_entries,
        count-sort_caches oldest Q c.caches first,
      ),
      late-take_front oldest P s.waiting s.free_entries ∙ late-sort_caches oldest P c.caches first,
      number_all-emptied (λ p. true) c.caches,
    )
