-- ===== src/Batch/Ops/History.antt =====
-- What a batch holds after any history of calls: the last operation on each key.
use kvdk.Prelude.{
  ap, ◌∙◌, ◌≤◌, ◌≡◌, refl, List, [], ◌∷◌, length, arith, Option, none, some, Bool, ◌&&◌,
  if◌then◌else◌,
}
use kvdk.Codec.Bytes.{Bytes}
use kvdk.Batch.Ops.KeyedSet.{bytes_eq, bytes_eq_iff, find, ByKey, find-replace, length-replace}
use kvdk.Batch.Ops.{
  put, delete, StringOp, CollectionOp, same_string, same_elem, WriteBatch, string_put,
  string_delete, sorted_put, sorted_delete, hash_put, hash_delete, string_get, sorted_get, hash_get,
  clear, size,
}

pub data Call : Type 0 where
  string_puts : (key value : Bytes) → Call
  string_deletes : (key : Bytes) → Call
  sorted_puts : (collection key value : Bytes) → Call
  sorted_deletes : (collection key : Bytes) → Call
  hash_puts : (collection key value : Bytes) → Call
  hash_deletes : (collection key : Bytes) → Call
  clears : Call

abbrev pub empty : WriteBatch
empty = record { string_ops = []; sorted_ops = []; hash_ops = [] }

unfoldable pub step : WriteBatch → Call → WriteBatch
step b (string_puts k v) = string_put b k v
step b (string_deletes k) = string_delete b k
step b (sorted_puts c k v) = sorted_put b c k v
step b (sorted_deletes c k) = sorted_delete b c k
step b (hash_puts c k v) = hash_put b c k v
step b (hash_deletes c k) = hash_delete b c k
step b clears = clear b

-- The newest call comes first.
unfoldable pub run : List Call → WriteBatch
run [] = empty
run (c ∷ cs) = step (run cs) c

-- The specification: the operation of the newest call that names the key, unless the batch was
-- cleared since.
unfoldable pub latest_string : Bytes → List Call → Option StringOp
latest_string k [] = none
latest_string k (string_puts j v ∷ cs) =
    if bytes_eq j k then some (record { op = put; key = j; value = v }) else latest_string k cs
latest_string k (string_deletes j ∷ cs) =
    if bytes_eq j k then some (record { op = delete; key = j; value = [] }) else latest_string k cs
latest_string k (clears ∷ cs) = none
latest_string k (_ ∷ cs) = latest_string k cs

abbrev same_names : Bytes → Bytes → Bytes → Bytes → Bool
same_names c k d j = bytes_eq c d && bytes_eq k j

unfoldable pub latest_sorted : Bytes → Bytes → List Call → Option CollectionOp
latest_sorted c k [] = none
latest_sorted c k (sorted_puts d j v ∷ cs) =
    if same_names d j c k
    then some (record { op = put; collection = d; key = j; value = v })
    else latest_sorted c k cs
latest_sorted c k (sorted_deletes d j ∷ cs) =
    if same_names d j c k
    then some (record { op = delete; collection = d; key = j; value = [] })
    else latest_sorted c k cs
latest_sorted c k (clears ∷ cs) = none
latest_sorted c k (_ ∷ cs) = latest_sorted c k cs

unfoldable pub latest_hash : Bytes → Bytes → List Call → Option CollectionOp
latest_hash c k [] = none
latest_hash c k (hash_puts d j v ∷ cs) =
    if same_names d j c k
    then some (record { op = put; collection = d; key = j; value = v })
    else latest_hash c k cs
latest_hash c k (hash_deletes d j ∷ cs) =
    if same_names d j c k
    then some (record { op = delete; collection = d; key = j; value = [] })
    else latest_hash c k cs
latest_hash c k (clears ∷ cs) = none
latest_hash c k (_ ∷ cs) = latest_hash c k cs

string_keys : ByKey same_string
unfolding same_string
string_keys = record {
  reflexive = λ a. ground (arith, bytes_eq_iff a.key a.key);
  symmetric = λ a b. ground (arith, bytes_eq_iff a.key b.key, bytes_eq_iff b.key a.key);
  congruent = λ a b c h. ground (arith, bytes_eq_iff a.key b.key);
}

elem_keys : ByKey same_elem
unfolding same_elem
elem_keys = record {
  reflexive = λ a. ground (arith, bytes_eq_iff a.key a.key, bytes_eq_iff a.collection a.collection);
  symmetric = λ a b. ground (
    arith,
    bytes_eq_iff a.key b.key,
    bytes_eq_iff b.key a.key,
    bytes_eq_iff a.collection b.collection,
    bytes_eq_iff b.collection a.collection,
  );
  congruent =
      λ a b c h. ground (arith, bytes_eq_iff a.key b.key, bytes_eq_iff a.collection b.collection);
}

-- After any history of calls, looking up a string key gives the last operation on that key since the
-- batch was last cleared.
pub string_get-run : (cs : List Call) (k : Bytes) → string_get (run cs) k ≡ latest_string k cs
unfolding run step string_get latest_string same_string string_put string_delete sorted_put
    sorted_delete hash_put hash_delete clear
string_get-run [] k = unfold find in refl
string_get-run (string_puts j v ∷ cs) k =
    find-replace same_string string_keys (record { op = put; key = j; value = v })
      (record { op = put; key = k; value = [] }) (run cs).string_ops
    ∙ ap (λ r. if bytes_eq j k then some (record { op = put; key = j; value = v }) else r)
        (string_get-run cs k)
string_get-run (string_deletes j ∷ cs) k =
    find-replace same_string string_keys (record { op = delete; key = j; value = [] })
      (record { op = put; key = k; value = [] }) (run cs).string_ops
    ∙ ap (λ r. if bytes_eq j k then some (record { op = delete; key = j; value = [] }) else r)
        (string_get-run cs k)
string_get-run (sorted_puts d j v ∷ cs) k = string_get-run cs k
string_get-run (sorted_deletes d j ∷ cs) k = string_get-run cs k
string_get-run (hash_puts d j v ∷ cs) k = string_get-run cs k
string_get-run (hash_deletes d j ∷ cs) k = string_get-run cs k
string_get-run (clears ∷ cs) k = unfold find in refl

-- After any history of calls, looking up a key of a sorted collection gives the last operation on that key of
-- it since the batch was last cleared.
pub sorted_get-run : (cs : List Call) (c k : Bytes) → sorted_get (run cs) c k ≡ latest_sorted c k cs
unfolding run step sorted_get latest_sorted same_elem string_put string_delete sorted_put
    sorted_delete hash_put hash_delete clear
sorted_get-run [] c k = unfold find in refl
sorted_get-run (string_puts j v ∷ cs) c k = sorted_get-run cs c k
sorted_get-run (string_deletes j ∷ cs) c k = sorted_get-run cs c k
sorted_get-run (sorted_puts d j v ∷ cs) c k =
    find-replace same_elem elem_keys (record { op = put; collection = d; key = j; value = v })
      (record { op = put; collection = c; key = k; value = [] }) (run cs).sorted_ops
    ∙ ap
        (λ r.
          if same_names d j c k
          then some (record { op = put; collection = d; key = j; value = v })
          else r)
        (sorted_get-run cs c k)
sorted_get-run (sorted_deletes d j ∷ cs) c k =
    find-replace same_elem elem_keys (record { op = delete; collection = d; key = j; value = [] })
      (record { op = put; collection = c; key = k; value = [] }) (run cs).sorted_ops
    ∙ ap
        (λ r.
          if same_names d j c k
          then some (record { op = delete; collection = d; key = j; value = [] })
          else r)
        (sorted_get-run cs c k)
sorted_get-run (hash_puts d j v ∷ cs) c k = sorted_get-run cs c k
sorted_get-run (hash_deletes d j ∷ cs) c k = sorted_get-run cs c k
sorted_get-run (clears ∷ cs) c k = unfold find in refl

-- After any history of calls, looking up a key of a hash gives the last operation on that key of
-- it since the batch was last cleared.
pub hash_get-run : (cs : List Call) (c k : Bytes) → hash_get (run cs) c k ≡ latest_hash c k cs
unfolding run step hash_get latest_hash same_elem string_put string_delete sorted_put sorted_delete
    hash_put hash_delete clear
hash_get-run [] c k = unfold find in refl
hash_get-run (string_puts j v ∷ cs) c k = hash_get-run cs c k
hash_get-run (string_deletes j ∷ cs) c k = hash_get-run cs c k
hash_get-run (sorted_puts d j v ∷ cs) c k = hash_get-run cs c k
hash_get-run (sorted_deletes d j ∷ cs) c k = hash_get-run cs c k
hash_get-run (hash_puts d j v ∷ cs) c k =
    find-replace same_elem elem_keys (record { op = put; collection = d; key = j; value = v })
      (record { op = put; collection = c; key = k; value = [] }) (run cs).hash_ops
    ∙ ap
        (λ r.
          if same_names d j c k
          then some (record { op = put; collection = d; key = j; value = v })
          else r)
        (hash_get-run cs c k)
hash_get-run (hash_deletes d j ∷ cs) c k =
    find-replace same_elem elem_keys (record { op = delete; collection = d; key = j; value = [] })
      (record { op = put; collection = c; key = k; value = [] }) (run cs).hash_ops
    ∙ ap
        (λ r.
          if same_names d j c k
          then some (record { op = delete; collection = d; key = j; value = [] })
          else r)
        (hash_get-run cs c k)
hash_get-run (clears ∷ cs) c k = unfold find in refl

-- After any history of calls each of the three lookups gives the last operation on its key, of the
-- collection where there is one, since the batch was last cleared.
pub lookups-run :
    (cs : List Call) (c k : Bytes)
    → (string_get (run cs) k ≡ latest_string k cs)
      × (sorted_get (run cs) c k ≡ latest_sorted c k cs)
      × (hash_get (run cs) c k ≡ latest_hash c k cs)
lookups-run cs c k = (string_get-run cs k, sorted_get-run cs c k, hash_get-run cs c k)

-- A batch never holds more operations than it was given.
pub size-run : (cs : List Call) → size (run cs) ≤ length cs
unfolding size run step string_put string_delete sorted_put sorted_delete hash_put hash_delete clear
size-run [] = omega arith
size-run (string_puts j v ∷ cs) = omega (
  arith,
  size-run cs,
  length-replace same_string string_keys (record { op = put; key = j; value = v })
      (run cs).string_ops,
)
size-run (string_deletes j ∷ cs) = omega (
  arith,
  size-run cs,
  length-replace same_string string_keys (record { op = delete; key = j; value = [] })
      (run cs).string_ops,
)
size-run (sorted_puts d j v ∷ cs) = omega (
  arith,
  size-run cs,
  length-replace same_elem elem_keys (record { op = put; collection = d; key = j; value = v })
      (run cs).sorted_ops,
)
size-run (sorted_deletes d j ∷ cs) = omega (
  arith,
  size-run cs,
  length-replace same_elem elem_keys (record { op = delete; collection = d; key = j; value = [] })
      (run cs).sorted_ops,
)
size-run (hash_puts d j v ∷ cs) = omega (
  arith,
  size-run cs,
  length-replace same_elem elem_keys (record { op = put; collection = d; key = j; value = v })
      (run cs).hash_ops,
)
size-run (hash_deletes d j ∷ cs) = omega (
  arith,
  size-run cs,
  length-replace same_elem elem_keys (record { op = delete; collection = d; key = j; value = [] })
      (run cs).hash_ops,
)
size-run (clears ∷ cs) = omega arith
