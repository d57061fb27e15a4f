-- ===== src/Tests.antt =====
-- The theorems at concrete inputs.
mod Space
mod ListCollection
mod Freelist
mod Codec
mod Batch
mod Version
mod DlList
mod Allocator
mod Misc
mod HashTable
mod Transaction
mod StringEngine
mod Record
