-- ===== src/Batch/Log/Capacity.antt =====
-- How much memory a log takes, against the memory that the engine maps for it.
use kvdk.Prelude.{ap, ◌∙◌, ◌+◌, ◌*◌, ◌≤◌, ◌≡◌, ◌↔◌, length, arith}
use kvdk.Batch.Log.{BatchWriteLog, capacity, max_bytes, size, total_bytes, buffer_of}
use kvdk.Batch.Log.Layout.{body, buffer_of-layout, length-layout, length-body}

-- The encoded log has as many bytes as its first field says: 56 and 16 for each entry.
pub length-buffer_of :
    (log : BatchWriteLog)
    → (length (buffer_of log) ≡ total_bytes log) × (total_bytes log ≡ 56 + 16 * size log)
unfolding total_bytes size
length-buffer_of log = (
  ap length (buffer_of-layout log)
      ∙ length-layout (total_bytes log) log.timestamp log.stage (body log)
      ∙ length-body log,
  omega arith,
)

-- A log fits MaxBytes exactly if at least two places of Capacity stay unused. So a full batch, or
-- one with a single place left, does not fit.
pub fits-max_bytes :
    (log : BatchWriteLog) → (length (buffer_of log) ≤ max_bytes) ↔ (size log + 2 ≤ capacity)
fits-max_bytes log =
    (λ h. omega (arith, length-buffer_of log), λ h. omega (arith, length-buffer_of log))
