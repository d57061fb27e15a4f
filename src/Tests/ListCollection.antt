-- ===== src/Tests/ListCollection.antt =====
-- A list with the one element "a", and its header.
use kvdk.Prelude.{
  false, ℕ, ◌+◌, ◌*◌, ◌≡◌, ◌<◌, refl, true, arith, List, [], ◌∷◌, length, not, ◌==◌, if◌then◌else◌,
  pos, none,
}
use kvdk.Codec.Bytes.{Bytes}
use kvdk.DlList.{DlRecord, SpaceEntry, normal, null_offset, persist_time}
use kvdk.ListCollection.{ListCollection, ok, list_elem}
use kvdk.ListCollection.Live.{IsList, values, live_of}
use kvdk.ListCollection.Calls.{Call, run_call, expected, AsExpected}
use kvdk.ListCollection.Refines.{run_call-AsExpected}
use kvdk.ListCollection.Expire.{set_expire_time, Renewed, set_expire_time-Renewed}
use kvdk.ListCollection.Destroy.{destroy}
use kvdk.ListCollection.Destroy.Frees.{AllFreed, destroy-AllFreed}
use kvdk.ListCollection.PopN.Overflow.{Refused, prepare_pop_n-Refused}
use kvdk.ListCollection.PopN.Pops.{Pops, prepare_pop_n-Pops}
use kvdk.ListCollection.PushN.{prepare_push_n, push_n, push_n-prepare_push_n}

abbrev linked_to : ℕ → DlRecord
linked_to o = record {
  record_size = 64;
  type = list_elem;
  status = normal;
  timestamp = 1;
  old_version = null_offset;
  prev = o;
  next = o;
  expired_time = persist_time;
  key = [];
  value = b'a' ∷ [];
}

abbrev one_element : ListCollection
one_element = record {
  header = 100;
  pmem = λ o. if o == 100 then linked_to 200 else linked_to 100;
  live_records = 200 ∷ [];
  id = 7;
}

one_element-IsList : IsList one_element
unfolding live_of
one_element-IsList = record {
  records = 200 ∷ [];
  ring = record { seg = ((refl, refl), (refl, refl)); distinct = ground arith };
  live = refl;
}

abbrev free_space : SpaceEntry
free_space = record { offset = 300; size = 64 }

run_call-AsExpected_example :
    AsExpected one_element
      (run_call (Call.insert_after_call (b'b' ∷ []) (b'a' ∷ [])) 1 2 free_space one_element)
      (expected
        (Call.insert_after_call (b'b' ∷ []) (b'a' ∷ []))
        (not (64 == 0))
        (values one_element))
unfolding one_element-IsList
run_call-AsExpected_example =
    run_call-AsExpected one_element one_element-IsList free_space refl
      (Call.insert_after_call (b'b' ∷ []) (b'a' ∷ [])) 0 2

-- The index that is one too far is read.
erase_one_too_far : run_call (Call.erase_call (pos 1)) 1 2 free_space one_element ≡ none
unfolding run_call
erase_one_too_far = refl

-- Only the first call of Allocate gives space.
abbrev first_only : ℕ → SpaceEntry
first_only k = if k == 0 then free_space else record { offset = 0; size = 0 }

abbrev b_and_c : List Bytes
b_and_c = (b'b' ∷ []) ∷ ((b'c' ∷ []) ∷ [])

push_n-prepare_push_n_example :
    ((prepare_push_n true b_and_c 3 first_only).0.s ≡ ok)
    × ((prepare_push_n true b_and_c 3 first_only).1
        ≡ (prepare_push_n true b_and_c 3 first_only).0.spaces)
    × (length (prepare_push_n true b_and_c 3 first_only).0.spaces < 2)
    × (push_n 1 (prepare_push_n true b_and_c 3 first_only).0 one_element ≡ none)
push_n-prepare_push_n_example =
    push_n-prepare_push_n 1 true b_and_c 3 first_only 1 one_element (omega arith) refl

abbrev spaces_of_64 : ℕ → SpaceEntry
spaces_of_64 k = record { offset = 300 + 64 * k; size = 64 }

-- Two pops of the one element.
prepare_pop_n-Pops_example : Pops one_element false 2 5 1 spaces_of_64
unfolding one_element-IsList
prepare_pop_n-Pops_example =
    prepare_pop_n-Pops one_element one_element-IsList false 2 5 0 spaces_of_64 (omega arith)
      (λ j h. omega arith) (refl, (refl, tt), (refl, tt, tt))

-- The one element's list until the time 9.
set_expire_time-Renewed_example :
    Renewed one_element 9 free_space (set_expire_time 9 5 free_space one_element)
unfolding one_element-IsList
set_expire_time-Renewed_example =
    set_expire_time-Renewed one_element one_element-IsList free_space 9 5 (omega arith) refl

destroy-AllFreed_example : AllFreed one_element (200 ∷ []) (destroy 2 one_element)
unfolding one_element-IsList
destroy-AllFreed_example = destroy-AllFreed one_element one_element-IsList 2 (omega arith)

abbrev nothing_given : ℕ → SpaceEntry
nothing_given k = record { offset = 0; size = 0 }

prepare_pop_n-Refused_example : Refused one_element true 3 5 1 0 nothing_given
prepare_pop_n-Refused_example =
    prepare_pop_n-Refused one_element true 3 5 1 0 nothing_given (omega arith) (omega arith) refl
