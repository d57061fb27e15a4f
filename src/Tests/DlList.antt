-- ===== src/Tests/DlList.antt =====
-- A header and two records, and one record more.
use kvdk.Prelude.{ℕ, ◌≡◌, refl, [], ◌∷◌, arith, true, if◌then◌else◌, ◌==◌, Bool}
use kvdk.Codec.Bytes.{Bytes}
use kvdk.DlList.{
  Pmem, DlRecord, WriteArgs, normal, insert_after, insert_between, update_record, remove, ok,
}
use kvdk.DlList.Ring.{IsRing}
use kvdk.DlList.Insert.{insert_after-IsRing, update_record-IsRing}
use kvdk.DlList.Unlink.{remove-IsRing}
use kvdk.DlList.Crash.{half_linked, half_removed, check_and_repair, insert_crash_half, remove_crash}

abbrev node : ℕ → ℕ → DlRecord
node p n = record {
  record_size = 64;
  type = 4;
  status = normal;
  timestamp = 1;
  old_version = 0;
  prev = p;
  next = n;
  expired_time = 0;
  key = [];
  value = [];
}

-- The ring through 0, 1 and 2; 3 is alone, and any other record is on no list.
abbrev memory : Pmem
memory i =
    if i == 0
    then node 2 1
    else (if i == 1
        then node 0 2
        else (if i == 2 then node 1 0 else (if i == 3 then node 3 3 else node 0 0)))

memory-IsRing : IsRing memory 0 (1 ∷ 2 ∷ [])
memory-IsRing = record {
  seg = ((refl, refl), ((refl, refl), (refl, refl)));
  distinct = (refl, (refl, (refl, tt)));
}

alone : IsRing memory 3 []
alone = record { seg = (refl, refl); distinct = (refl, tt) }

abbrev args : WriteArgs
args = record {
  key = 1 ∷ [];
  value = [];
  type = 4;
  status = normal;
  ts = 2;
  space = record { offset = 5; size = 64 };
}

insert_after-IsRing_example :
    ((insert_after memory args 0).1 ≡ ok) × IsRing (insert_after memory args 0).0 0 (5 ∷ 1 ∷ 2 ∷ [])
insert_after-IsRing_example = insert_after-IsRing memory args 0 (1 ∷ 2 ∷ []) memory-IsRing refl

update_record-IsRing_example :
    ((update_record memory args 1).1 ≡ ok)
    × IsRing (update_record memory args 1).0 0 (5 ∷ 2 ∷ [])
    × (((update_record memory args 1).0 5).old_version ≡ 1)
update_record-IsRing_example = update_record-IsRing memory args 0 1 (2 ∷ []) memory-IsRing refl

remove-IsRing_example : ((remove memory 1).1 ≡ true) × IsRing (remove memory 1).0 0 (2 ∷ [])
remove-IsRing_example = remove-IsRing memory 0 1 (2 ∷ []) memory-IsRing

-- The sorted collections' tests.
abbrev is_sorted : ℕ → Bool
is_sorted t = t == 4

abbrev id_of_type : ℕ → Bytes → Bytes → ℕ
id_of_type t k v = t

insert_crash_half_example :
    check_and_repair is_sorted id_of_type (half_linked memory args 0 1) 5
    ≡ ((insert_between memory args 0 1).0, true)
insert_crash_half_example =
    insert_crash_half is_sorted id_of_type memory args 0 1 (refl, refl) (omega arith) (omega arith)
      refl refl

remove_crash_example :
    ((check_and_repair is_sorted id_of_type (half_removed memory 1) 1).1 ≡ true)
    × ((j : ℕ) → (check_and_repair is_sorted id_of_type (half_removed memory 1) 1).0 j ≡ memory j)
remove_crash_example =
    remove_crash is_sorted id_of_type memory 0 1 2 (refl, refl) (refl, refl) (omega arith) refl refl
