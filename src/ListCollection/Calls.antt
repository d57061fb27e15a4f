-- ===== src/ListCollection/Calls.antt =====
-- The calls of a list, and what they do to the sequence of its elements.
use kvdk.Prelude.{
  map, ℕ, suc, zero, ◌+◌, ◌-◌, ◌<◌, ◌≤◌, ◌≡◌, refl, List, [], ◌∷◌, ◌++◌, length, Bool, arith,
  Option, none, some, ◌==◌, ltb, if◌then◌else◌, get_elem?, insert_idx, erase_idx, set, ℤ, pos,
  negsuc,
}
use kvdk.Codec.Bytes.{Bytes}
use kvdk.Batch.Ops.KeyedSet.{bytes_eq}
use kvdk.DlList.{Pmem, SpaceEntry}
use kvdk.ListCollection.{
  ListCollection, Result, Status, ok, not_found, pmem_overflow, failed, find_live_record,
  push_front, push_back, pop_front, pop_back, insert_before_elem, insert_after_elem, insert_at,
  erase, update,
}
use kvdk.ListCollection.Live.{IsList, values}
use kvdk.ListCollection.AtLive.{Refined}

pub data Call : Type 0 where
  push_front_call push_back_call : (elem : Bytes) → Call
  pop_front_call pop_back_call : Call
  insert_before_call insert_after_call : (elem existing : Bytes) → Call
  insert_at_call : (elem : Bytes) → ℤ → Call
  erase_call : ℤ → Call
  update_call : ℤ → (elem : Bytes) → Call

unfoldable pub run_call : Call → (tries ts : ℕ) → SpaceEntry → ListCollection → Result
unfolding push_front push_back pop_front pop_back insert_before_elem insert_after_elem insert_at
    erase update
run_call (push_front_call elem) tries ts space l = push_front tries elem ts space l
run_call (push_back_call elem) tries ts space l = push_back tries elem ts space l
run_call pop_front_call tries ts space l = pop_front tries ts space l
run_call pop_back_call tries ts space l = pop_back tries ts space l
run_call (insert_before_call elem x) tries ts space l = insert_before_elem elem x ts space l
run_call (insert_after_call elem x) tries ts space l = insert_after_elem elem x ts space l
run_call (insert_at_call elem index) tries ts space l = insert_at elem index ts space l
run_call (erase_call index) tries ts space l = erase tries index ts space l
run_call (update_call index elem) tries ts space l = update tries index elem ts space l

-- The sequence behind a call, and its status; `none` is a read outside of the sequence.
abbrev pub Expected : Type 0
Expected = Option (List Bytes × Status)

-- A write needs room.
abbrev pub written : (room : Bool) → (before after : List Bytes) → Expected
written room vs vs' = if room then some (vs', ok) else some (vs, pmem_overflow)

abbrev pub index_of : Bytes → List Bytes → ℕ
index_of x [] = 0
index_of x (v ∷ vs) = if bytes_eq v x then 0 else suc (index_of x vs)

-- At an index counted from the front, from 0 on, or from the back, from -1 on. The index that is one
-- too far is not refused.
abbrev pub indexed : Bool → List Bytes → ℤ → (ℕ → List Bytes) → Expected
indexed room vs (pos n) f =
    if ltb n (length vs)
    then written room vs (f n)
    else if n == length vs
    then none
    else some (vs, not_found)
indexed room vs (negsuc n) f =
    if ltb n (length vs)
    then written room vs (f (length vs - suc n))
    else if n == length vs
    then none
    else some (vs, not_found)

-- At the first element of a value.
abbrev pub found : Bool → List Bytes → Bytes → (ℕ → List Bytes) → Expected
found room vs x f =
    if index_of x vs == length vs then some (vs, not_found) else written room vs (f (index_of x vs))

unfoldable pub expected : Call → (room : Bool) → List Bytes → Expected
expected (push_front_call elem) room vs = written room vs (elem ∷ vs)
expected (push_back_call elem) room vs = written room vs (vs ++ elem ∷ [])
expected pop_front_call room vs =
    if length vs == 0 then some (vs, not_found) else written room vs (erase_idx vs 0)
expected pop_back_call room vs =
    if length vs == 0 then some (vs, not_found) else written room vs (erase_idx vs (length vs - 1))
expected (insert_before_call elem x) room vs = found room vs x (λ i. insert_idx vs i elem)
expected (insert_after_call elem x) room vs = found room vs x (λ i. insert_idx vs (i + 1) elem)
expected (insert_at_call elem index) room vs = indexed room vs index (λ i. insert_idx vs i elem)
expected (erase_call index) room vs = indexed room vs index (λ i. erase_idx vs i)
expected (update_call index elem) room vs = indexed room vs index (λ i. set vs i elem)

abbrev pub AsExpected : ListCollection → Result → Expected → Type 0
AsExpected l o none = o ≡ none
AsExpected l o (some (vs, s)) = Refined l o vs s

pub failed-Refined :
    (l : ListCollection) (s : Status) → IsList l → Refined l (failed s l) (values l) s
failed-Refined l s v = record {
  after = l;
  result = record { s = s; write_record = none; existing_record = none };
  returned = refl;
  says = refl;
  elements = refl;
  in_order = v;
}

pub get_elem?-lt :
    {A : Type 0} (xs : List A) (i : ℕ) → i < length xs → (x : A) × (get_elem? xs i ≡ some x)
get_elem?-lt [] i h = absurd (omega arith)
get_elem?-lt (x ∷ xs) zero h = (x, refl)
get_elem?-lt (x ∷ xs) (suc i) h = get_elem?-lt xs i (omega arith)

pub get_elem?-ge : {A : Type 0} (xs : List A) (i : ℕ) → length xs ≤ i → get_elem? xs i ≡ none
get_elem?-ge [] i h = refl
get_elem?-ge (x ∷ xs) zero h = absurd (omega arith)
get_elem?-ge (x ∷ xs) (suc i) h = get_elem?-ge xs i (omega arith)

pub find_live_record-index :
    (h : Pmem) (xs : List ℕ) (x : Bytes)
    → find_live_record h xs x ≡ index_of x (map (λ r. (h r).value) xs)
unfolding find_live_record
find_live_record-index h [] x = refl
find_live_record-index h (r ∷ xs) x = ground (arith, find_live_record-index h xs x)

pub index_of-le : (x : Bytes) (vs : List Bytes) → index_of x vs ≤ length vs
index_of-le x [] = omega arith
index_of-le x (v ∷ vs) = ground (arith, index_of-le x vs)
