-- ===== src/DlList/Crash.antt =====
-- What recovery makes of a crash between two stores: DLListRecoveryUtils of engine/dl_list.hpp. The
-- collection's tests are parameters: whether a record has the collection's type, and its id.
use kvdk.Prelude.{
  sym, ap, ◌∙◌, ℕ, ◌≡◌, ◌≢◌, refl, Bool, true, false, ◌&&◌, ◌==◌, if◌then◌else◌, arith,
}
use kvdk.Codec.Bytes.{Bytes}
use kvdk.DlList.{
  Pmem, DlRecord, WriteArgs, set_next, set_prev, persist_record, link_record, new_record,
  insert_between, null_offset,
}
use kvdk.DlList.Ring.{Linked}

-- The memory after the first, and after the second store of an insertion.
abbrev pub written : Pmem → WriteArgs → ℕ → ℕ → Pmem
written h args p n = persist_record h args null_offset p n

abbrev pub half_linked : Pmem → WriteArgs → ℕ → ℕ → Pmem
half_linked h args p n = set_next (written h args p n) p args.space.offset

-- The memory after the first store of a removal.
abbrev pub half_removed : Pmem → ℕ → Pmem
half_removed h r = set_prev h (h r).next (h r).prev

inserted :
    (h : Pmem) (args : WriteArgs) (p n : ℕ)
    → Linked h p n
    → (insert_between h args p n).0 ≡ set_prev (half_linked h args p n) n args.space.offset
unfolding insert_between link_record
inserted h args p n l = ground arith

half_linked_here :
    (h : Pmem) (args : WriteArgs) (p n : ℕ)
    → args.space.offset ≢ p
    → half_linked h args p n args.space.offset ≡ new_record args null_offset p n
unfolding set_next persist_record
half_linked_here h args p n ne = ground arith

half_linked_prev :
    (h : Pmem) (args : WriteArgs) (p n : ℕ)
    → args.space.offset ≢ p
    → half_linked h args p n p ≡ record (h p) { next = args.space.offset }
unfolding set_next persist_record
half_linked_prev h args p n ne = ground arith

half_removed_undone :
    (h : Pmem) (p r n j : ℕ) → Linked h p r → Linked h r n → set_prev (half_removed h r) n r j ≡ h j
unfolding set_prev
half_removed_undone h p r n j l k = ground arith

half_removed_here : (h : Pmem) (p r n : ℕ) → Linked h r n → n ≢ r → half_removed h r r ≡ h r
unfolding set_prev
half_removed_here h p r n k ne = ground arith

half_removed_next :
    (h : Pmem) (r p n : ℕ) → Linked h p r → Linked h r n → p ≢ r → (half_removed h r n).prev ≢ r
unfolding set_prev
half_removed_next h r p n l k ne = ground arith

half_removed_prev : (h : Pmem) (r p : ℕ) → Linked h p r → (half_removed h r p).next ≡ r
unfolding set_prev
half_removed_prev h r p l = ground arith

half_removed_data :
    (h : Pmem) (r j : ℕ) → record (half_removed h r j) { prev = 0 } ≡ record (h j) { prev = 0 }
unfolding set_prev
half_removed_data h r j = ground arith

-- The type test reads a record's type, the id its type, key and value.
module _ (match_type : ℕ → Bool) (fetch_id : (type : ℕ) (key value : Bytes) → ℕ) where
  abbrev pub id_of : DlRecord → ℕ
  id_of r = fetch_id r.type r.key r.value

  unfoldable pub check_next_linkage : Pmem → ℕ → Bool
  check_next_linkage h r =
      let n = (h r).next in
      ((h n).prev == r) && (match_type (h r).type && (id_of (h r) == id_of (h n)))

  unfoldable pub check_prev_linkage : Pmem → ℕ → Bool
  check_prev_linkage h r =
      let p = (h r).prev in
      ((h p).next == r) && (match_type (h r).type && (id_of (h r) == id_of (h p)))

  unfoldable pub check_linkage : Pmem → ℕ → Bool
  unfolding check_next_linkage check_prev_linkage
  check_linkage h r = check_prev_linkage h r && check_next_linkage h r

  unfoldable pub check_and_repair : Pmem → ℕ → Pmem × Bool
  check_and_repair h r =
      if check_next_linkage h r
      then (h, true)
      else (if check_prev_linkage h r then (set_prev h (h r).next r, true) else (h, false))

  -- Both neighbours disown the record.
  disowned :
      (h : Pmem) (r p n : ℕ)
      → (h r).next ≡ n
      → (h r).prev ≡ p
      → (h n).prev ≢ r
      → (h p).next ≢ r
      → check_and_repair h r ≡ (h, false)
  unfolding check_and_repair check_next_linkage check_prev_linkage
  disowned h r p n e k nn np = ground arith

  -- Only the record behind disowns it.
  half_owned :
      (h : Pmem) (r p n : ℕ)
      → (h r).next ≡ n
      → (h r).prev ≡ p
      → (h n).prev ≢ r
      → (h p).next ≡ r
      → match_type (h r).type ≡ true
      → id_of (h r) ≡ id_of (h p)
      → check_and_repair h r ≡ (set_prev h n r, true)
  unfolding check_and_repair check_next_linkage check_prev_linkage
  half_owned h r p n e k nn np t i = ground arith

  module _ (h : Pmem) (args : WriteArgs) (p n : ℕ) (l : Linked h p n) (np : args.space.offset ≢ p)
      (nn : args.space.offset ≢ n) where
    abbrev off : ℕ
    off = args.space.offset

    -- An insertion between two neighbours, at an offset that is neither, that is cut short before
    -- its first link store leaves the list as it was, and a record that recovery finds on no list.
    pub insert_crash_written :
        check_and_repair (written h args p n) args.space.offset ≡ (written h args p n, false)
    unfolding persist_record new_record
    insert_crash_written =
        disowned (written h args p n) off p n (ground arith) (ground arith) (ground arith)
          (ground arith)

    -- An insertion between two neighbours, at an offset that is neither, of a record of the list's
    -- collection that is cut short before its second link store is completed by recovery to just
    -- the memory that the insertion would have left.
    pub insert_crash_half :
        match_type args.type ≡ true
        → id_of (h p) ≡ fetch_id args.type args.key args.value
        → check_and_repair (half_linked h args p n) args.space.offset
          ≡ ((insert_between h args p n).0, true)
    unfolding persist_record new_record set_next
    insert_crash_half t i =
        half_owned (half_linked h args p n) off p n (ground arith) (ground arith) (ground arith)
          (ground arith) (ground arith)
          (rw (half_linked_here h args p n np, half_linked_prev h args p n np) (sym i))
        ∙ ap (λ g. (g, true)) (sym (inserted h args p n l))

  -- A removal of a record of the list's collection, not the only one of its ring, that is cut
  -- short between its two stores is undone by recovery: every record reads as before the removal,
  -- and the removed one is on its list.
  pub remove_crash :
      (h : Pmem) (p r n : ℕ)
      → Linked h p r
      → Linked h r n
      → p ≢ r
      → match_type (h r).type ≡ true
      → fetch_id (h r).type (h r).key (h r).value ≡ fetch_id (h p).type (h p).key (h p).value
      → ((check_and_repair (half_removed h r) r).1 ≡ true)
        × ((j : ℕ) → (check_and_repair (half_removed h r) r).0 j ≡ h j)
  remove_crash h p r n l k ne t i =
      let out : n ≢ r = ground arith in
      let here = half_removed_here h p r n k out in
      let e : check_and_repair (half_removed h r) r ≡ (set_prev (half_removed h r) n r, true) =
        half_owned (half_removed h r) r p n (ap (λ g. g.next) here ∙ k.0)
          (ap (λ g. g.prev) here ∙ l.1) (half_removed_next h r p n l k ne)
          (half_removed_prev h r p l) (ap (λ g. match_type g.type) here ∙ t)
          (ap id_of here ∙ i ∙ sym (ap id_of (half_removed_data h r p))) in
      rw e (refl, λ j. half_removed_undone h p r n j l k)
