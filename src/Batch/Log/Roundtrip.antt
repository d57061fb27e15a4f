-- ===== src/Batch/Log/Roundtrip.antt =====
-- A batch's log is read back as it was written, from whatever memory it was written to.
use mathlib.Core.List.{append_assoc, append-nil}
use kvdk.Prelude.{
  ◌⊎◌, ℕ, ◌^◌, ◌<◌, ◌≡◌, refl, List, [], ◌∷◌, ◌++◌, length, arith, Option, none, some, false, ◌==◌,
  ◌||◌, if◌then◌else◌, ◌∙◌, All, ap, sym,
}
use kvdk.Codec.Bytes.{
  Bytes, to_bytes, from_bytes, split, length-to_bytes, from_bytes-to_bytes, split-append_exact,
}
use kvdk.Codec.Words.{Pod, fetch_pod, fetch_pod-bytes}
use kvdk.Batch.Log.{
  finish, pure, >>=-some, LogEntry, EntryFits, BatchWriteLog, entry_bytes, entry_pod, size_t,
  total_bytes, buffer_of, overwrite, encode_to, mark, fetch, fetch_entries, fetch_logs, fetch_all,
  fetch_batch, decode_from, initializing, processing, committed, fresh,
}
use kvdk.Batch.Log.Layout.{
  entries_bytes, logs_bytes, body, layout, buffer_of-layout, length-layout, length-body,
  mark-layout, layout-append,
}

accept : {T : Type 0} → Bytes × Option T → Option (T × Bytes)
accept (rest, none) = none
accept (rest, some t) = some (t, rest)

fetch-accept : {T : Type 0} (p : Pod T) (src : Bytes) → fetch p src ≡ accept (fetch_pod p src)
unfolding fetch accept
fetch-accept p src = ground arith

fetch-bytes :
    {T : Type 0} (p : Pod T) (t : T) (rest : Bytes)
    → p.Fits t
    → fetch p (p.bytes t ++ rest) ≡ some (t, rest)
unfolding accept
fetch-bytes p t rest h = fetch-accept p (p.bytes t ++ rest) ∙ ap accept (fetch_pod-bytes p t rest h)

fetch_entries-bytes :
    (es : List LogEntry) (rest : Bytes)
    → All EntryFits es
    → fetch_entries (length es) (entries_bytes es ++ rest) ≡ some (es, rest)
unfolding fetch_entries entries_bytes
fetch_entries-bytes [] rest h = refl
fetch_entries-bytes (e ∷ es) rest h = rw (append_assoc (entry_bytes e) (entries_bytes es) rest) (
    >>=-some (fetch entry_pod) _ (fetch-bytes entry_pod e (entries_bytes es ++ rest) h.0)
    ∙ >>=-some (fetch_entries (length es)) _ (fetch_entries-bytes es rest h.1))

fetch_logs-bytes :
    (es : List LogEntry) (rest : Bytes)
    → All EntryFits es
    → length es < 2 ^ 64
    → fetch_logs (logs_bytes es ++ rest) ≡ some (es, rest)
unfolding fetch_logs logs_bytes
fetch_logs-bytes es rest h lt = rw (append_assoc (to_bytes 8 (length es)) (entries_bytes es) rest) (
    >>=-some (fetch size_t) _ (fetch-bytes size_t (length es) (entries_bytes es ++ rest) lt)
    ∙ fetch_entries-bytes es rest h)

-- The values of a log have the widths of their types.
pub record LogFits (log : BatchWriteLog) : Type 0 where
  pub total : total_bytes log < 2 ^ 64
  pub timestamp : log.timestamp < 2 ^ 64
  pub string_logs : All EntryFits log.string_logs
  pub sorted_logs : All EntryFits log.sorted_logs
  pub hash_logs : All EntryFits log.hash_logs
  pub list_logs : All EntryFits log.list_logs

fetch_all-body :
    (log into : BatchWriteLog)
    → LogFits log
    → fetch_all into (body log)
      ≡ some (
        record into {
          string_logs = log.string_logs;
          sorted_logs = log.sorted_logs;
          hash_logs = log.hash_logs;
          list_logs = log.list_logs;
        },
        [],
      )
unfolding fetch_all body total_bytes
fetch_all-body log into h =
    >>=-some fetch_logs _
      (fetch_logs-bytes log.string_logs _ h.string_logs (omega (arith, h.total)))
    ∙ >>=-some fetch_logs _
        (fetch_logs-bytes log.sorted_logs _ h.sorted_logs (omega (arith, h.total)))
    ∙ >>=-some fetch_logs _ (fetch_logs-bytes log.hash_logs _ h.hash_logs (omega (arith, h.total)))
    ∙ >>=-some fetch_logs _ (
        ap fetch_logs (sym (append-nil (logs_bytes log.list_logs)))
        ∙ fetch_logs-bytes log.list_logs [] h.list_logs (omega (arith, h.total)))

-- The log as it is marked with the stage `s` after encoding, and what lay behind it.
marked : ℕ → BatchWriteLog → Bytes
marked s log = layout (total_bytes log) log.timestamp s (body log)

mark-encode_to :
    (s : ℕ) (log : BatchWriteLog) (dst : Bytes)
    → (tail : Bytes) × (mark s (encode_to log dst) ≡ marked s log ++ tail)
unfolding encode_to overwrite split marked
mark-encode_to s log dst =
    let tail = (split (length (buffer_of log)) dst).1 in
    let total = total_bytes log in
    (
      tail,
      ap (λ b. mark s (b ++ tail)) (buffer_of-layout log)
          ∙ ap (mark s) (layout-append total log.timestamp log.stage (body log) tail)
          ∙ mark-layout s total log.timestamp log.stage (body log ++ tail)
          ∙ sym (layout-append total log.timestamp s (body log) tail),
    )

length-marked : (s : ℕ) (log : BatchWriteLog) → length (marked s log) ≡ total_bytes log
unfolding marked
length-marked s log =
    omega (arith, length-layout (total_bytes log) log.timestamp s (body log), length-body log)

total_read :
    (s : ℕ) (log : BatchWriteLog) (tail : Bytes)
    → LogFits log
    → from_bytes (split 8 (marked s log ++ tail)).0 ≡ total_bytes log
unfolding marked
total_read s log tail h = rw layout-append (
    unfold layout in
    ap (λ p. from_bytes p.0)
      (split-append_exact 8 (to_bytes 8 (total_bytes log)) _ (length-to_bytes 8 (total_bytes log)))
    ∙ from_bytes-to_bytes 8 (total_bytes log) h.total)

total_bytes-ne-zero : (log : BatchWriteLog) → (total_bytes log == 0) ≡ false
unfolding total_bytes
total_bytes-ne-zero log = ground arith

-- Decoding sees the marked log alone.
decode_from-marked :
    (s : ℕ) (log : BatchWriteLog) (tail : Bytes)
    → LogFits log
    → decode_from fresh (marked s log ++ tail) ≡ finish (fetch_batch fresh (marked s log))
unfolding decode_from
decode_from-marked s log tail h = rw (
  total_read s log tail h,
  total_bytes-ne-zero log,
  split-append_exact (total_bytes log) (marked s log) tail (length-marked s log),
)

fetch_batch-marked :
    (s : ℕ) (log : BatchWriteLog)
    → LogFits log
    → s < 2 ^ 64
    → let into : BatchWriteLog = record fresh { stage = s; timestamp = log.timestamp } in
      fetch_batch fresh (marked s log)
      ≡ (if s == initializing || s == committed
            then pure into
            else if s == processing
            then fetch_all into
            else λ src. none)
          (body log)
unfolding fetch_batch marked layout
fetch_batch-marked s log h lt =
    >>=-some (fetch size_t) _ (fetch-bytes size_t (total_bytes log) _ h.total)
    ∙ >>=-some (fetch size_t) _ (fetch-bytes size_t log.timestamp _ h.timestamp)
    ∙ >>=-some (fetch size_t) _ (fetch-bytes size_t s _ lt)

-- A log whose numbers fit in 64 bits, encoded to any memory and then marked as processing, is
-- decoded to the log that was encoded, in its new stage.
pub decode-processing :
    (log : BatchWriteLog) (dst : Bytes)
    → LogFits log
    → decode_from fresh (mark processing (encode_to log dst))
      ≡ some (record log { stage = processing })
unfolding finish
decode-processing log dst h =
    let (tail, e) = mark-encode_to processing log dst in
    ap (decode_from fresh) e
    ∙ decode_from-marked processing log tail h
    ∙ ap finish (fetch_batch-marked processing log h (omega arith) ∙ fetch_all-body log _ h)

-- A log whose numbers fit in 64 bits, encoded and then marked as initializing, which is how a
-- rolled back log is left, or as committed, is decoded to a log without entries.
pub decode-idle :
    (s : ℕ) (log : BatchWriteLog) (dst : Bytes)
    → (s ≡ initializing) ⊎ (s ≡ committed)
    → LogFits log
    → decode_from fresh (mark s (encode_to log dst))
      ≡ some (record fresh { stage = s; timestamp = log.timestamp })
unfolding finish
decode-idle s log dst k h =
    let (tail, e) = mark-encode_to s log dst in
    ap (decode_from fresh) e
    ∙ decode_from-marked s log tail h
    ∙ ap finish (fetch_batch-marked s log h (ground arith))
    ∙ ground arith
