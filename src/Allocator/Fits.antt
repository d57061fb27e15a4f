-- ===== src/Allocator/Fits.antt =====
-- What Allocate hands out, how many rounds its loop needs, and what it counts.
use kvdk.Prelude.{
  le→ltb, lt-cases, sym, inr, gt→leb, lt→ltb, ◌^◌, ◌+◌, ◌%◌, le→leb, inl, Bool-cases, ◌⊎◌, ℕ, ◌≤◌,
  ◌<◌, ◌≡◌, refl, ◌∙◌, ap, arith,
}
use kvdk.DlList.{SpaceEntry}
use kvdk.Allocator.{
  ltb, some, suc, Option, FreeList, Allocator, cache_of, add64, take_free_entry, take_segment,
  allocate_loop, allocate_segment_space, return_segment, get_free_entry, return_free_entry,
  no_space, allocate, aligned_size,
}
use kvdk.Allocator.Rounding.{aligned_size-rounds}
use kvdk.Allocator.Usage.{
  counter, GetFits, get_free_entry-counter, return_free_entry-counter,
  allocate_segment_space-counter, return_segment-counter, get_free_entry-fits,
  allocate_segment_space-fits, return_segment-segment_size, get_free_entry-segment_size,
  return_free_entry-segment_size, take_free_entry-size, take_segment-size, take_free_entry-counter,
  take_segment-counter,
}

-- The call ended; it handed out nothing or just `s` bytes, and counted what it handed out.
pub record IsAllocation {F : FreeList} (tid s : ℕ) (a : Allocator F)
    (o : Option (Allocator F × SpaceEntry)) : Type 0 where
  pub after : Allocator F
  pub entry : SpaceEntry
  pub returned : o ≡ some (after, entry)
  pub handed_out : (entry.size ≡ 0) ⊎ (entry.size ≡ s)
  pub counted : counter tid after ≡ add64 (counter tid a) entry.size

module _ {F : FreeList} (tid : ℕ) where
  -- A thread whose cache has room is served at once.
  cached :
      (f s : ℕ) (a : Allocator F)
      → (s ≤ (cache_of a tid).segment_entry.size) ⊎ (s ≤ (cache_of a tid).free_entry.size)
      → IsAllocation tid s a (allocate_loop (suc f) tid s a)
  unfolding allocate_loop
  cached f s a room = elim (Bool-cases (ltb (cache_of a tid).segment_entry.size s)) [
    | inl small ↦
        rw (small, le→leb s (cache_of a tid).free_entry.size (ground arith))
          record {
            after = (take_free_entry tid s a).0;
            entry = (take_free_entry tid s a).1;
            returned = refl;
            handed_out = inr (take_free_entry-size tid s a);
            counted =
                take_free_entry-counter tid a s
                ∙ ap (add64 (counter tid a)) (sym (take_free_entry-size tid s a));
          }
    | inr big ↦ rw big record {
      after = (take_segment tid s a).0;
      entry = (take_segment tid s a).1;
      returned = refl;
      handed_out = inr (take_segment-size tid s a);
      counted =
          take_segment-counter tid a s
          ∙ ap (add64 (counter tid a)) (sym (take_segment-size tid s a));
    }
  ]

  recount :
      (s : ℕ) (a b : Allocator F) (o : Option (Allocator F × SpaceEntry))
      → counter tid b ≡ counter tid a
      → IsAllocation tid s b o
      → IsAllocation tid s a o
  recount s a b o same i = record {
    after = i.after;
    entry = i.entry;
    returned = i.returned;
    handed_out = i.handed_out;
    counted = i.counted ∙ ap (λ c. add64 c i.entry.size) same;
  }

  -- A round in which the cache has no room leaves room for the next one, or ends with nothing.
  uncached :
      (s : ℕ) (a : Allocator F)
      → GetFits F s
      → counter tid a < 2 ^ 64
      → s ≤ a.segment_size
      → (cache_of a tid).segment_entry.size < s
      → (cache_of a tid).free_entry.size < s
      → IsAllocation tid s a (allocate_loop 2 tid s a)
  unfolding allocate_loop
  uncached s a law lt64 fits small few =
      let r = return_free_entry tid a in
      let g = get_free_entry tid s r in
      let b = return_segment tid g.0 in
      let n = allocate_segment_space tid b in
      let same_g : counter tid g.0 ≡ counter tid a =
        get_free_entry-counter tid r s ∙ return_free_entry-counter tid a lt64 in
      let same_n : counter tid n.0 ≡ counter tid a =
        allocate_segment_space-counter tid b
        ∙ return_segment-counter tid g.0 (ground (arith, same_g))
        ∙ same_g in
      rw (lt→ltb (cache_of a tid).segment_entry.size s small) (
        rw (gt→leb s (cache_of a tid).free_entry.size few) (elim (Bool-cases g.1) [
          | inl found ↦ rw found (
              recount s a g.0 _ same_g
                (cached 0 s g.0 (inr (get_free_entry-fits tid s r law found))))
          | inr missed ↦ rw missed (elim (Bool-cases n.1) [
            | inl got ↦ rw got (
                recount s a n.0 _ same_n (
                  cached 0 s n.0 (
                    inl (
                      ground (
                        arith,
                        allocate_segment_space-fits tid b got,
                        return_segment-segment_size tid g.0,
                        get_free_entry-segment_size tid s r,
                        return_free_entry-segment_size tid a,
                      )))))
            | inr full ↦ rw full record {
              after = n.0;
              entry = no_space;
              returned = refl;
              handed_out = inl refl;
              counted = ground (arith, same_n);
            }
          ])
        ]))

  served :
      (s : ℕ) (a : Allocator F)
      → GetFits F s
      → counter tid a < 2 ^ 64
      → s ≤ a.segment_size
      → IsAllocation tid s a (allocate_loop 2 tid s a)
  served s a law lt64 fits = elim (lt-cases (cache_of a tid).segment_entry.size s) [
    | inr big ↦ cached 1 s a (inl big)
    | inl small ↦ elim (lt-cases (cache_of a tid).free_entry.size s) [
      | inr enough ↦ cached 1 s a (inr enough)
      | inl few ↦ uncached s a law lt64 fits small few
    ]
  ]

  ended :
      (size : ℕ) (a : Allocator F)
      → GetFits F (aligned_size a size)
      → counter tid a < 2 ^ 64
      → IsAllocation tid (aligned_size a size) a (allocate 2 tid size a)
  unfolding allocate
  ended size a law lt64 =
      let s = aligned_size a size in
      elim (lt-cases a.segment_size s) [
        | inl large ↦ rw (lt→ltb a.segment_size s large) record {
          after = a;
          entry = no_space;
          returned = refl;
          handed_out = inl refl;
          counted = ground arith;
        }
        | inr fits ↦ rw (le→ltb a.segment_size s fits) (served s a law lt64 fits)
      ]

  -- A block has a byte, the requested size rounded up fits in 32 bits, the thread's count is a 64-bit
  -- number, and the free list gives entries of at least the size that it is asked for. Then Allocate
  -- ends within two rounds of its loop. It hands out nothing, or the requested size rounded up to
  -- whole blocks, by less than one block; and it adds to the count just what it handed out, whatever
  -- it moved to and from the free list on the way.
  pub allocate-IsAllocation :
      (size : ℕ) (a : Allocator F)
      → 0 < a.block_size
      → size + a.block_size ≤ 2 ^ 32
      → GetFits F (aligned_size a size)
      → counter tid a < 2 ^ 64
      → (s : ℕ) × (size ≤ s)
        × (s < size + a.block_size)
        × (s % a.block_size ≡ 0)
        × IsAllocation tid s a (allocate 2 tid size a)
  allocate-IsAllocation size a positive fits law lt64 =
      let (up, tight, whole) = aligned_size-rounds a size positive fits in
      (aligned_size a size, up, tight, whole, ended size a law lt64)
