-- ===== src/ListCollection/PopN/Order.antt =====
-- What PreparePopN goes through, from either end of the deque.
use mathlib.Core.List.{append_assoc, append-nil, reverse, reverse-cons, reverse-reverse}
use kvdk.Prelude.{
  lt→ltb, ℕ, suc, zero, ◌+◌, ◌-◌, ◌<◌, ◌≤◌, ◌≡◌, refl, sym, ap, subst, ◌∙◌, List, [], ◌∷◌, ◌++◌,
  length, length-append, Bool, false, true, arith, some, ◌==◌, if◌then◌else◌, get_elem?, erase_idx,
  erase_idx-append,
}
use kvdk.Codec.Bytes.{Bytes}
use kvdk.DlList.{SpaceEntry}
use kvdk.ListCollection.{ListCollection}
use kvdk.ListCollection.Live.{values_of}
use kvdk.ListCollection.PopN.{allocate_pops, at_end, step}
use kvdk.ListCollection.PopN.Taken.{take, drop, ordered, take-nil, get_elem?-append, length-reverse}
use kvdk.ListCollection.PopN.Erases.{erase_all}

abbrev pub spaces_from : (given : ℕ → SpaceEntry) → (k m : ℕ) → List SpaceEntry
spaces_from given k zero = []
spaces_from given k (suc m) = given k ∷ spaces_from given (k + 1) m

abbrev pub positions : (to_front : Bool) (i m : ℕ) → List ℕ
positions to_front i zero = []
positions to_front i (suc m) = i ∷ positions to_front (step to_front i) m

-- The iterator stands at the first one of the records that are left, in their order.
abbrev pub IsAt : (to_front : Bool) → (live left : List ℕ) → (i : ℕ) → Type 0
IsAt true live left i = (us : List ℕ) × (live ≡ us ++ left) × (length us ≡ i)
IsAt false live left i = (us : List ℕ) × (live ≡ reverse left ++ us) × (length left ≡ i + 1)

reversed_at :
    (live us left : List ℕ) (x : ℕ)
    → live ≡ reverse (x ∷ left) ++ us
    → live ≡ reverse left ++ x ∷ us
reversed_at live us left x e =
    e ∙ ap (λ zs. zs ++ us) (reverse-cons x left) ∙ append_assoc (reverse left) (x ∷ []) us

pub IsAt-read :
    (to_front : Bool) (live left : List ℕ) (x i : ℕ)
    → IsAt to_front live (x ∷ left) i
    → get_elem? live i ≡ some x
IsAt-read true live left x i (us, e, c) = rw e (get_elem?-append us left x i c)
IsAt-read false live left x i (us, e, c) =
    rw (reversed_at live us left x e)
      (get_elem?-append (reverse left) us x i (omega (arith, length-reverse left)))

pub IsAt-last :
    (to_front : Bool) (live : List ℕ) (x i : ℕ)
    → IsAt to_front live (x ∷ []) i
    → at_end to_front i (length live) ≡ true
IsAt-last true live x i (us, e, c) = rw e (ground (arith, length-append us (x ∷ [])))
IsAt-last false live x i (us, e, c) = ground arith

pub IsAt-more :
    (to_front : Bool) (live left : List ℕ) (x y i : ℕ)
    → IsAt to_front live (x ∷ (y ∷ left)) i
    → at_end to_front i (length live) ≡ false
IsAt-more true live left x y i (us, e, c) = rw e (ground (arith, length-append us (x ∷ (y ∷ left))))
IsAt-more false live left x y i (us, e, c) = ground arith

pub IsAt-step :
    (to_front : Bool) (live left : List ℕ) (x y i : ℕ)
    → IsAt to_front live (x ∷ (y ∷ left)) i
    → IsAt to_front live (y ∷ left) (step to_front i)
IsAt-step true live left x y i (us, e, c) = (
  us ++ x ∷ [],
  e ∙ sym (append_assoc us (x ∷ []) (y ∷ left)),
  omega (arith, length-append us (x ∷ [])),
)
IsAt-step false live left x y i (us, e, c) =
    (x ∷ us, reversed_at live us (y ∷ left) x e, omega arith)

pub allocate_pops-IsAt :
    (to_front : Bool) (nn i : ℕ) (given : ℕ → SpaceEntry) (k : ℕ) (l : ListCollection) (x : ℕ)
    (left : List ℕ)
    → IsAt to_front l.live_records (x ∷ left) i
    → ((j : ℕ) → j < k + nn → 0 < (given j).size)
    → allocate_pops to_front nn i given k l
      ≡ some (record {
        overflow = false;
        spaces = spaces_from given k (length (take nn (x ∷ left)));
        to_pop = positions to_front i (length (take nn (x ∷ left)));
        elems = values_of l.pmem (take nn (x ∷ left));
      })
unfolding allocate_pops
allocate_pops-IsAt to_front zero i given k l x left a room = refl
allocate_pops-IsAt to_front (suc nn) i given k l x [] a room =
    let some_size : ((given k).size == 0) ≡ false = ground (arith, room k (omega arith)) in
    rw
      (
        allocate_pops,
        IsAt-read to_front l.live_records [] x i a,
        some_size,
        IsAt-last to_front l.live_records x i a,
      )
      (rw (take-nil {A = ℕ} nn) refl)
allocate_pops-IsAt to_front (suc nn) i given k l x (y ∷ left) a room =
    let some_size : ((given k).size == 0) ≡ false = ground (arith, room k (omega arith)) in
    rw
      (
        allocate_pops,
        IsAt-read to_front l.live_records (y ∷ left) x i a,
        some_size,
        IsAt-more to_front l.live_records left x y i a,
        allocate_pops-IsAt to_front nn (step to_front i) given (k + 1) l y left
            (IsAt-step to_front l.live_records left x y i a) (λ j h. room j (omega arith)),
      )
      refl

erase_all-here :
    (b p i c : ℕ) (ps : List ℕ) (vs ws : List Bytes)
    → p - b ≡ i
    → i < length vs
    → erase_idx vs i ≡ ws
    → (if i == 0 then suc b else b) ≡ c
    → erase_all b (p ∷ ps) vs ≡ erase_all c ps ws
unfolding erase_all
erase_all-here b p i c ps vs ws e h w g = rw (erase_all, e, lt→ltb i (length vs) h, w, g) refl

erase_all-front :
    (b m : ℕ) (vs : List Bytes)
    → m ≤ length vs
    → erase_all b (positions true b m) vs ≡ some (drop m vs)
unfolding erase_all
erase_all-front b zero vs h = refl
erase_all-front b (suc m) [] h = absurd (omega arith)
erase_all-front b (suc m) (v ∷ vs) h =
    erase_all-here b b 0 (suc b) (positions true (b + 1) m) (v ∷ vs) vs (omega arith) (omega arith)
      refl refl
    ∙ subst (λ c. erase_all (suc b) (positions true c m) vs ≡ some (drop m vs)) (omega arith)
        (erase_all-front (suc b) m vs (omega arith))

erase_idx-reverse :
    (i : ℕ) (v : Bytes) (vs : List Bytes)
    → length vs ≡ i
    → erase_idx (reverse (v ∷ vs)) i ≡ reverse vs
erase_idx-reverse i v vs e =
    ap (λ ws. erase_idx ws i) (reverse-cons v vs)
    ∙ erase_idx-append (reverse vs) [] i v (length-reverse vs ∙ e)
    ∙ append-nil (reverse vs)

erase_all-back :
    (i m : ℕ) (vs : List Bytes)
    → length vs ≡ i + 1
    → m ≤ length vs
    → erase_all 0 (positions false i m) (reverse vs) ≡ some (reverse (drop m vs))
unfolding erase_all
erase_all-back i zero vs e h = refl
erase_all-back i (suc m) [] e h = absurd (omega arith)
erase_all-back zero (suc zero) (v ∷ vs) e h =
    erase_all-here 0 0 0 1 [] (reverse (v ∷ vs)) (reverse vs) (omega arith)
      (omega (arith, length-reverse (v ∷ vs))) (erase_idx-reverse 0 v vs (omega arith)) refl
erase_all-back zero (suc (suc m)) (v ∷ vs) e h = absurd (omega arith)
erase_all-back (suc i) (suc m) (v ∷ vs) e h =
    erase_all-here 0 (suc i) (suc i) 0 (positions false (suc i - 1) m) (reverse (v ∷ vs))
      (reverse vs) (omega arith) (omega (arith, length-reverse (v ∷ vs)))
      (erase_idx-reverse (suc i) v vs (omega arith)) (ground arith)
    ∙ subst (λ c. erase_all 0 (positions false c m) (reverse vs) ≡ some (reverse (drop m vs)))
        (omega arith) (erase_all-back i m vs (omega arith) (omega arith))

-- Where PreparePopN begins.
abbrev pub start : (to_front : Bool) (size : ℕ) → ℕ
start to_front size = if to_front then 0 else size - 1

pub erase_all-ordered :
    (to_front : Bool) (m : ℕ) (vs : List Bytes)
    → 0 < length vs
    → m ≤ length vs
    → (ws : List Bytes) × (erase_all 0 (positions to_front (start to_front (length vs)) m) vs
        ≡ some ws)
      × (ordered to_front ws ≡ drop m (ordered to_front vs))
erase_all-ordered true m vs h k = (drop m vs, erase_all-front 0 m vs k, refl)
erase_all-ordered false m vs h k = (
  reverse (drop m (reverse vs)),
  subst
      (λ ws.
        erase_all 0 (positions false (length vs - 1) m) ws ≡ some (reverse (drop m (reverse vs))))
      (reverse-reverse vs)
      (erase_all-back (length vs - 1) m (reverse vs) (omega (arith, length-reverse vs))
        (omega (arith, length-reverse vs))),
  reverse-reverse (drop m (reverse vs)),
)

pub IsAt-start :
    (to_front : Bool) (live : List ℕ)
    → 0 < length live
    → IsAt to_front live (ordered to_front live) (start to_front (length live))
IsAt-start true live h = ([], refl, refl)
IsAt-start false live h = (
  [],
  sym (append-nil (reverse (reverse live)) ∙ reverse-reverse live),
  omega (arith, length-reverse live),
)
