-- ===== src/HashTable/Overflow.antt =====
-- When Lookup runs out of memory.
use kvdk.Prelude.{◌≡◌, refl, subst, inl, inr, ◌↔◌, ℕ, Bool, true, false}
use kvdk.Codec.Bytes.{Bytes}
use kvdk.HashTable.{
  HashTable, EntryPtr, Setting, load, is_empty, bucket_of, LookupStatus, LookupResult, lookup,
}
use kvdk.HashTable.Lookup.{lookup-Outcome}
use kvdk.HashTable.Outcome.{Holds, IsTable, NoEmpty, Taken, Outcome, no_room}
use kvdk.HashTable.Holds.{Absent-all}

-- There is nothing to reuse and no HashBucket to be had.
abbrev pub Full : Setting → (may_insert room : Bool) → HashTable → Bytes → ℕ → Type 0
Full env may_insert room t k m =
    (may_insert ≡ true)
    × (no_room room (t.hash_bucket_entries (bucket_of env k)) ≡ true)
    × NoEmpty t (bucket_of env k)
    × ((p : EntryPtr) → ¬ Holds env t k m p)

Taken-not-Full :
    (env : Setting) (room : Bool) (t t' : HashTable) (k : Bytes) (m : ℕ) (p : EntryPtr)
    → Taken room t t' (bucket_of env k) p
    → ¬ Full env true room t k m
unfolding load
Taken-not-Full env room t t' k m p w f = elim w.chosen [
  | inl (e, v, em) ↦
      let g = f.2 p.at v in
      let u = subst (λ (n : ℕ). is_empty (t.cells n p.at) ≡ true) w.of_bucket em in cc
  | inr (none_empty, fits, e, o) ↦ let u = f.1 in cc
]

Outcome-Full :
    (env : Setting) (may_insert room : Bool) (t : HashTable) (k : Bytes) (m : ℕ) (t' : HashTable)
    (r : LookupResult) (s : LookupStatus)
    → IsTable env t
    → Outcome env may_insert room t k m t' r s
    → (s ≡ LookupStatus.memory_overflow) ↔ Full env may_insert room t k m
Outcome-Full env may_insert room t k m t' r LookupStatus.ok h (p, o) =
    ((λ e. cc), λ f. absurd (f.3 p o.holds))
Outcome-Full env false room t k m t' r LookupStatus.not_found h o =
    ((λ e. cc), λ f. let u = f.0 in cc)
Outcome-Full env true room t k m t' r LookupStatus.not_found h (a, p, e, w) =
    ((λ e. cc), λ f. absurd (Taken-not-Full env room t t' k m p w f))
Outcome-Full env may_insert room t k m t' r LookupStatus.memory_overflow h o =
    ((λ e. (o.2, o.3, o.1, Absent-all env t k m h o.0)), λ f. refl)

-- Lookup returns MemoryOverflow exactly if it may insert, nothing matches, the key's bucket has no
-- empty entry, and another entry needs a HashBucket that cannot be had.
pub lookup-Full :
    (env : Setting) (may_insert room : Bool) (t : HashTable) (k : Bytes) (m : ℕ)
    → IsTable env t
    → ((lookup env may_insert room t k m).1.status ≡ LookupStatus.memory_overflow)
      ↔ Full env may_insert room t k m
lookup-Full env may_insert room t k m h =
    let r = lookup env may_insert room t k m in
    Outcome-Full env may_insert room t k m r.0 r.1 r.1.status h
      (lookup-Outcome env room t k m may_insert h)
