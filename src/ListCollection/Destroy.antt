-- ===== src/ListCollection/Destroy.antt =====
-- Destroy of engine/list_collection/list.cpp. `freed` are the spaces that BatchFree was given, in
-- the order of its calls.
pub mod Frees
use kvdk.Prelude.{
  eq→==, has_ne, ℕ, zero, suc, ◌+◌, ◌<◌, ◌≤◌, ◌≡◌, refl, sym, ap, subst, ◌∙◌, List, [], ◌∷◌, ◌++◌,
  length, map, Bool, true, false, arith, has, has-append, Option, some, none, ◌==◌, ltb,
  if◌then◌else◌, update, Bool-cases, inl, inr,
}
use mathlib.Core.List.{append_assoc, append-nil}
use kvdk.DlList.{Pmem, SpaceEntry, remove, set_next, set_prev}
use kvdk.DlList.Ring.{IsRing, Seg-frame}
use kvdk.DlList.Unlink.{remove-IsRing}
use kvdk.ListCollection.{ListCollection}
use kvdk.ListCollection.Live.{IsList}

-- kMaxCachedOldRecords
abbrev pub max_cached_old_records : ℕ
max_cached_old_records = 1024

pub record Freeing : Type 0 where
  pub to_free : List SpaceEntry
  pub freed : List SpaceEntry

unfoldable pub batch_free : Freeing → Freeing
batch_free b = record { to_free = []; freed = b.freed ++ b.to_free }

-- A record's space, and the spaces with it, in a full batch if there are enough.
unfoldable pub collect_space : SpaceEntry → Freeing → Freeing
unfolding batch_free
collect_space space b =
    let b' : Freeing = record b { to_free = b.to_free ++ space ∷ [] } in
    if ltb max_cached_old_records (length b'.to_free) then batch_free b' else b'

abbrev pub space_of : Pmem → ℕ → SpaceEntry
space_of h x = record { offset = x; size = (h x).record_size }

-- DLRecord::Destroy: the type becomes Empty.
unfoldable pub destroy_record : Pmem → ℕ → Pmem
destroy_record h x = update h x (record (h x) { type = 0 })

-- One round. A record that cannot be removed is tried again.
unfoldable pub destroy_next : Pmem × Freeing → (header : ℕ) → Pmem × Freeing
unfolding destroy_record collect_space
destroy_next (h, b) hd =
    let x = (h hd).next in
    let (g, removed) = remove h x in
    if removed
    then (destroy_record g x, collect_space (space_of (destroy_record g x) x) b)
    else (g, b)

unfoldable pub destroy_loop : (rounds : ℕ) → Pmem × Freeing → (header : ℕ) → Option (Pmem × Freeing)
unfolding destroy_next
destroy_loop zero s hd = none
destroy_loop (suc f) s hd =
    let again = destroy_loop f (destroy_next s hd) hd in
    if (s.0 hd).next == hd then some (destroy_next s hd) else again

-- The memory and the freed spaces.
unfoldable pub destroy : (rounds : ℕ) → ListCollection → Option (Pmem × List SpaceEntry)
unfolding destroy_loop batch_free
destroy rounds l =
    elim (destroy_loop rounds (l.pmem, record { to_free = []; freed = [] }) l.header) [
      | none ↦ none
      | some (h, b) ↦ some (h, (batch_free b).freed)
    ]
