-- ===== src/Batch/Log/Layout.antt =====
-- The bytes of a batch's log, in the order that the header comment gives.
use mathlib.Core.List.{append_assoc, append-nil}
use kvdk.Prelude.{ℕ, ◌+◌, ◌*◌, ◌≡◌, List, [], ◌∷◌, ◌++◌, length, arith, length-append, ◌∙◌, ap, sym}
use kvdk.Codec.Bytes.{Bytes, to_bytes, split, length-to_bytes, split-append_exact}
use kvdk.Codec.Words.{append_pod}
use kvdk.Batch.Log.{
  LogEntry, BatchWriteLog, entry_bytes, total_bytes, append_entries, append_logs, buffer_of,
  overwrite, mark, length-entry_bytes,
}

-- The bytes of a list of entries, and of a list behind its length.
unfoldable pub entries_bytes : List LogEntry → Bytes
entries_bytes [] = []
entries_bytes (e ∷ es) = entry_bytes e ++ entries_bytes es

unfoldable pub logs_bytes : List LogEntry → Bytes
logs_bytes es = to_bytes 8 (length es) ++ entries_bytes es

append_entries_lem :
    (buffer : Bytes) (es : List LogEntry) → append_entries buffer es ≡ buffer ++ entries_bytes es
unfolding append_entries entries_bytes append_pod
append_entries_lem buffer [] = sym (append-nil buffer)
append_entries_lem buffer (e ∷ es) =
    append_entries_lem (buffer ++ entry_bytes e) es
    ∙ append_assoc buffer (entry_bytes e) (entries_bytes es)

append_logs_lem :
    (buffer : Bytes) (es : List LogEntry) → append_logs buffer es ≡ buffer ++ logs_bytes es
unfolding append_logs logs_bytes append_pod
append_logs_lem buffer es =
    append_entries_lem (buffer ++ to_bytes 8 (length es)) es
    ∙ append_assoc buffer (to_bytes 8 (length es)) (entries_bytes es)

unfoldable pub body : BatchWriteLog → Bytes
body log =
    logs_bytes log.string_logs
    ++ (logs_bytes log.sorted_logs ++ (logs_bytes log.hash_logs ++ logs_bytes log.list_logs))

-- The layout that the header comment gives.
unfoldable pub layout : ℕ → ℕ → ℕ → Bytes → Bytes
layout total ts stage rest = to_bytes 8 total ++ (to_bytes 8 ts ++ (to_bytes 8 stage ++ rest))

pub buffer_of-layout :
    (log : BatchWriteLog)
    → buffer_of log ≡ layout (total_bytes log) log.timestamp log.stage (body log)
unfolding buffer_of append_pod layout body
buffer_of-layout log = simp (append_logs_lem, append_assoc)

length-entries_bytes : (es : List LogEntry) → length (entries_bytes es) ≡ length es * 16
unfolding entries_bytes
length-entries_bytes [] = omega arith
length-entries_bytes (e ∷ es) = omega (
  arith,
  length-append (entry_bytes e) (entries_bytes es),
  length-entry_bytes e,
  length-entries_bytes es,
)

length-logs_bytes : (es : List LogEntry) → length (logs_bytes es) ≡ 8 + length es * 16
unfolding logs_bytes
length-logs_bytes es = omega (
  arith,
  length-append (to_bytes 8 (length es)) (entries_bytes es),
  length-to_bytes 8 (length es),
  length-entries_bytes es,
)

pub length-layout :
    (total ts stage : ℕ) (rest : Bytes) → length (layout total ts stage rest) ≡ 24 + length rest
unfolding layout
length-layout total ts stage rest = omega (
  arith,
  length-append (to_bytes 8 total) (to_bytes 8 ts ++ (to_bytes 8 stage ++ rest)),
  length-append (to_bytes 8 ts) (to_bytes 8 stage ++ rest),
  length-append (to_bytes 8 stage) rest,
  length-to_bytes 8 total,
  length-to_bytes 8 ts,
  length-to_bytes 8 stage,
)

pub length-body : (log : BatchWriteLog) → 24 + length (body log) ≡ total_bytes log
unfolding body total_bytes
length-body log = omega (
  arith,
  length-append (logs_bytes log.string_logs)
      (logs_bytes log.sorted_logs ++ (logs_bytes log.hash_logs ++ logs_bytes log.list_logs)),
  length-append (logs_bytes log.sorted_logs) (logs_bytes log.hash_logs ++ logs_bytes log.list_logs),
  length-append (logs_bytes log.hash_logs) (logs_bytes log.list_logs),
  length-logs_bytes log.string_logs,
  length-logs_bytes log.sorted_logs,
  length-logs_bytes log.hash_logs,
  length-logs_bytes log.list_logs,
)

split_two :
    (a b : ℕ) (rest : Bytes)
    → split 16 (to_bytes 8 a ++ (to_bytes 8 b ++ rest)) ≡ (to_bytes 8 a ++ to_bytes 8 b, rest)
split_two a b rest =
    ap (split 16) (sym (append_assoc (to_bytes 8 a) (to_bytes 8 b) rest))
    ∙ split-append_exact 16 (to_bytes 8 a ++ to_bytes 8 b) rest (
        omega (
          arith,
          length-append (to_bytes 8 a) (to_bytes 8 b),
          length-to_bytes 8 a,
          length-to_bytes 8 b,
        ))

-- Marking writes the stage and nothing else.
pub mark-layout :
    (s total ts stage : ℕ) (rest : Bytes)
    → mark s (layout total ts stage rest) ≡ layout total ts s rest
unfolding mark overwrite layout
mark-layout s total ts stage rest =
    rw
      (
        split_two total ts (to_bytes 8 stage ++ rest),
        length-to_bytes 8 s,
        split-append_exact 8 (to_bytes 8 stage) rest (length-to_bytes 8 stage),
      )
      (append_assoc (to_bytes 8 total) (to_bytes 8 ts) (to_bytes 8 s ++ rest))

pub layout-append :
    (total ts stage : ℕ) (rest tail : Bytes)
    → layout total ts stage rest ++ tail ≡ layout total ts stage (rest ++ tail)
unfolding layout
layout-append total ts stage rest tail = simp append_assoc
