-- ===== src/Batch/Log.antt =====
-- BatchWriteLog. The log is encoded to memory, marked as processing, and read in recovery. `Op` and
-- `Stage` are size_t in the source, so any number may stand in memory. Where a kvdk_assert fails,
-- decoding gives `none`.
pub mod Layout
pub mod Roundtrip
pub mod Capacity
use kvdk.Prelude.{
  not, ℕ, zero, suc, ◌+◌, ◌*◌, ◌^◌, ◌<◌, ◌≡◌, refl, List, [], ◌∷◌, ◌++◌, length, arith, Option,
  none, some, Bool, true, false, ◌==◌, ◌||◌, ◌&&◌, if◌then◌else◌, length-append, ◌∙◌,
}
use mathlib.Core.List.{append-nil}
use mathlib.Core.Bool.{not}
use kvdk.Codec.Bytes.{
  Bytes, to_bytes, from_bytes, split, length-to_bytes, from_bytes-to_bytes, split-append_exact,
}
use kvdk.Codec.Words.{Pod, word, append_pod, fetch_pod}

pub record LogEntry : Type 0 where
  pub op : ℕ
  pub offset : ℕ

-- Op
abbrev pub op_put : ℕ
op_put = 0

abbrev pub op_delete : ℕ
op_delete = 1

-- Stage
abbrev pub initializing : ℕ
initializing = 0

abbrev pub processing : ℕ
processing = 1

abbrev pub committed : ℕ
committed = 2

pub record BatchWriteLog : Type 0 where
  pub stage : ℕ
  pub timestamp : ℕ
  pub string_logs : List LogEntry
  pub sorted_logs : List LogEntry
  pub hash_logs : List LogEntry
  pub list_logs : List LogEntry

-- A new object; its timestamp is set before use.
abbrev pub fresh : BatchWriteLog
fresh = record {
  stage = initializing;
  timestamp = 0;
  string_logs = [];
  sorted_logs = [];
  hash_logs = [];
  list_logs = [];
}

unfoldable pub set_timestamp : BatchWriteLog → ℕ → BatchWriteLog
set_timestamp log ts = record log { timestamp = ts }

abbrev entry : ℕ → ℕ → List LogEntry
entry op offset = record { op = op; offset = offset } ∷ []

unfoldable pub string_put : BatchWriteLog → ℕ → BatchWriteLog
string_put log offset = record log { string_logs = log.string_logs ++ entry op_put offset }

unfoldable pub string_delete : BatchWriteLog → ℕ → BatchWriteLog
string_delete log offset = record log { string_logs = log.string_logs ++ entry op_delete offset }

unfoldable pub sorted_put : BatchWriteLog → ℕ → BatchWriteLog
sorted_put log offset = record log { sorted_logs = log.sorted_logs ++ entry op_put offset }

unfoldable pub sorted_delete : BatchWriteLog → ℕ → BatchWriteLog
sorted_delete log offset = record log { sorted_logs = log.sorted_logs ++ entry op_delete offset }

unfoldable pub hash_put : BatchWriteLog → ℕ → BatchWriteLog
hash_put log offset = record log { hash_logs = log.hash_logs ++ entry op_put offset }

unfoldable pub hash_delete : BatchWriteLog → ℕ → BatchWriteLog
hash_delete log offset = record log { hash_logs = log.hash_logs ++ entry op_delete offset }

unfoldable pub list_emplace : BatchWriteLog → ℕ → BatchWriteLog
list_emplace log offset = record log { list_logs = log.list_logs ++ entry op_put offset }

unfoldable pub list_delete : BatchWriteLog → ℕ → BatchWriteLog
list_delete log offset = record log { list_logs = log.list_logs ++ entry op_delete offset }

unfoldable pub clear : BatchWriteLog → BatchWriteLog
clear log = record log { string_logs = []; sorted_logs = []; hash_logs = []; list_logs = [] }

unfoldable pub size : BatchWriteLog → ℕ
size log =
    length log.string_logs + length log.sorted_logs + length log.hash_logs + length log.list_logs

abbrev pub capacity : ℕ
capacity = 2 ^ 20

-- size_t, TimestampType, Stage and Op have eight bytes, an entry sixteen.
abbrev pub max_bytes : ℕ
max_bytes = 8 + 8 + 8 + 8 + capacity * 16

unfoldable pub entry_bytes : LogEntry → Bytes
entry_bytes e = to_bytes 8 e.op ++ to_bytes 8 e.offset

unfoldable pub entry_value : Bytes → LogEntry
entry_value bs = record {
  op = from_bytes (split 8 bs).0;
  offset = from_bytes (split 8 (split 8 bs).1).0;
}

abbrev pub EntryFits : LogEntry → Type 0
EntryFits e = (e.op < 2 ^ 64) × (e.offset < 2 ^ 64)

pub length-entry_bytes : (e : LogEntry) → length (entry_bytes e) ≡ 16
unfolding entry_bytes
length-entry_bytes e = omega (
  arith,
  length-append (to_bytes 8 e.op) (to_bytes 8 e.offset),
  length-to_bytes 8 e.op,
  length-to_bytes 8 e.offset,
)

pub entry_value-entry_bytes : (e : LogEntry) → EntryFits e → entry_value (entry_bytes e) ≡ e
unfolding entry_bytes entry_value
entry_value-entry_bytes e h = ground (
  arith,
  split-append_exact 8 (to_bytes 8 e.op) (to_bytes 8 e.offset) (length-to_bytes 8 e.op),
  split-append_exact 8 (to_bytes 8 e.offset) [] (length-to_bytes 8 e.offset),
  append-nil (to_bytes 8 e.offset),
  from_bytes-to_bytes 8 e.op h.0,
  from_bytes-to_bytes 8 e.offset h.1,
)

-- The four kinds of log entry have one layout.
abbrev pub entry_pod : Pod LogEntry
entry_pod = record {
  size_of = 16;
  bytes = entry_bytes;
  value = entry_value;
  Fits = EntryFits;
  length-bytes = length-entry_bytes;
  value-bytes = entry_value-entry_bytes;
}

abbrev pub size_t : Pod ℕ
size_t = word 8

unfoldable pub total_bytes : BatchWriteLog → ℕ
total_bytes log =
    8
    + 8
    + 8
    + 8
    + length log.string_logs * 16
    + 8
    + length log.sorted_logs * 16
    + 8
    + length log.hash_logs * 16
    + 8
    + length log.list_logs * 16

unfoldable pub append_entries : Bytes → List LogEntry → Bytes
append_entries buffer [] = buffer
append_entries buffer (e ∷ es) = append_entries (append_pod entry_pod buffer e) es

-- The number of the entries and the entries.
unfoldable pub append_logs : Bytes → List LogEntry → Bytes
append_logs buffer es = append_entries (append_pod size_t buffer (length es)) es

unfoldable pub buffer_of : BatchWriteLog → Bytes
buffer_of log =
    let b = append_pod size_t [] (total_bytes log) in
    let b = append_pod size_t b log.timestamp in
    let b = append_pod size_t b log.stage in
    let b = append_logs b log.string_logs in
    let b = append_logs b log.sorted_logs in
    let b = append_logs b log.hash_logs in append_logs b log.list_logs

-- memcpy to `dst + at`
unfoldable pub overwrite : Bytes → ℕ → Bytes → Bytes
overwrite dst at bs =
    let (before, behind) = split at dst in before ++ (bs ++ (split (length bs) behind).1)

unfoldable pub encode_to : BatchWriteLog → Bytes → Bytes
encode_to log dst = overwrite dst 0 (buffer_of log)

-- MarkProcessing, MarkCommitted and MarkInitializing
unfoldable pub mark : ℕ → Bytes → Bytes
mark stage dst = overwrite dst (8 + 8) (to_bytes 8 stage)

-- What decoding does with the string view: a value and the view behind it.
abbrev pub Fetch : Type 0 → Type 0
Fetch A = Bytes → Option (A × Bytes)

abbrev pub pure : {A : Type 0} → A → Fetch A
pure a src = some (a, src)

infixl 5 ◌>>=◌
abbrev pub ◌>>=◌ : {A B : Type 0} → Fetch A → (A → Fetch B) → Fetch B
◌>>=◌ m f src = elim (m src) [ none ↦ none | some (a, rest) ↦ f a rest ]

pub >>=-some :
    {A B : Type 0} (m : Fetch A) (f : A → Fetch B) {a : A} {src rest : Bytes}
    → m src ≡ some (a, rest)
    → (m >>= f) src ≡ f a rest
>>=-some m f e = rw (e, ◌>>=◌)

-- FetchPOD with its assert
unfoldable pub fetch : {T : Type 0} → Pod T → Bytes → Option (T × Bytes)
fetch p src = elim (fetch_pod p src).1 [ none ↦ none | some t ↦ some (t, (fetch_pod p src).0) ]

unfoldable pub fetch_entries : ℕ → Bytes → Option (List LogEntry × Bytes)
fetch_entries zero = pure []
fetch_entries (suc n) = do e ← fetch entry_pod; es ← fetch_entries n; pure (e ∷ es)

unfoldable pub fetch_logs : Bytes → Option (List LogEntry × Bytes)
fetch_logs = do n ← fetch size_t; fetch_entries n

-- The logs of a batch that was being executed.
unfoldable pub fetch_all : BatchWriteLog → Bytes → Option (BatchWriteLog × Bytes)
fetch_all log = do
  string_logs ← fetch_logs
  sorted_logs ← fetch_logs
  hash_logs ← fetch_logs
  list_logs ← fetch_logs
  pure (record log {
    string_logs = string_logs;
    sorted_logs = sorted_logs;
    hash_logs = hash_logs;
    list_logs = list_logs;
  })

unfoldable pub fetch_batch : BatchWriteLog → Bytes → Option (BatchWriteLog × Bytes)
fetch_batch log = do
  total ← fetch size_t
  timestamp ← fetch size_t
  stage ← fetch size_t
  let log' = record log { timestamp = timestamp; stage = stage }
  if stage == initializing || stage == committed
      then pure log'
      else if stage == processing
      then fetch_all log'
      else λ src. none

-- A log that is being executed has to be read to the end of the view.
unfoldable pub finish : Option (BatchWriteLog × Bytes) → Option BatchWriteLog
finish none = none
finish (some (log, rest)) =
    if log.stage == processing && not (length rest == 0) then none else some log

unfoldable pub decode_from : BatchWriteLog → Bytes → Option BatchWriteLog
unfolding finish
decode_from log src =
    let total = from_bytes (split 8 src).0 in
    if length log.string_logs + length log.sorted_logs + length log.hash_logs == 0
    then (if total == 0 then some log else finish (fetch_batch log (split total src).0))
    else none
