-- ===== src/Tests/Batch.antt =====
-- A log with two entries, and a short history of calls.
use kvdk.Prelude.{List, ◌≡◌, ◌≤◌, ◌+◌, ◌↔◌, [], ◌∷◌, some, arith, length}
use kvdk.Batch.Log.{
  BatchWriteLog, fresh, decode_from, mark, processing, encode_to, buffer_of, total_bytes, size,
  max_bytes, capacity,
}
use kvdk.Batch.Log.Roundtrip.{LogFits, decode-processing}
use kvdk.Batch.Log.Capacity.{fits-max_bytes}
use kvdk.Batch.Ops.{string_get, sorted_get, hash_get}
use kvdk.Batch.Ops.History.{
  lookups-run, Call, string_puts, string_deletes, sorted_puts, hash_puts, run, latest_string,
  latest_sorted, latest_hash,
}

abbrev two_entries : BatchWriteLog
two_entries = record fresh {
  timestamp = 9;
  string_logs = record { op = 0; offset = 64 } ∷ [];
  list_logs = record { op = 1; offset = 128 } ∷ [];
}

two_entries-LogFits : LogFits two_entries
unfolding total_bytes
two_entries-LogFits = record {
  total = omega arith;
  timestamp = omega arith;
  string_logs = ((omega arith, omega arith), tt);
  sorted_logs = tt;
  hash_logs = tt;
  list_logs = ((omega arith, omega arith), tt);
}

decode-processing_example :
    decode_from fresh (mark processing (encode_to two_entries (1 ∷ 2 ∷ [])))
    ≡ some (record two_entries { stage = processing })
decode-processing_example = decode-processing two_entries (1 ∷ 2 ∷ []) two_entries-LogFits

fits-max_bytes_example :
    (length (buffer_of two_entries) ≤ max_bytes) ↔ (size two_entries + 2 ≤ capacity)
fits-max_bytes_example = fits-max_bytes two_entries

abbrev calls : List Call
calls =
    string_deletes (1 ∷ [])
    ∷ hash_puts (2 ∷ []) (1 ∷ []) (5 ∷ [])
    ∷ sorted_puts (3 ∷ []) (1 ∷ []) (6 ∷ [])
    ∷ string_puts (1 ∷ []) (7 ∷ [])
    ∷ []

lookups-run_example :
    (string_get (run calls) (1 ∷ []) ≡ latest_string (1 ∷ []) calls)
    × (sorted_get (run calls) (3 ∷ []) (1 ∷ []) ≡ latest_sorted (3 ∷ []) (1 ∷ []) calls)
    × (hash_get (run calls) (3 ∷ []) (1 ∷ []) ≡ latest_hash (3 ∷ []) (1 ∷ []) calls)
lookups-run_example = lookups-run calls (3 ∷ []) (1 ∷ [])
