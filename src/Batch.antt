-- ===== src/Batch.antt =====
-- engine/write_batch_impl.hpp and write_batch_impl.cpp: the batch that a user fills, and the log
-- that is persisted before a batch is executed.
pub mod Ops
pub mod Log
