-- ===== src/Record.antt =====
-- engine/data_record.hpp and data_record.cpp: the records on PMem as they are checked when they are
-- found again. StringRecord and DLRecord differ in the links that they have and so in the number of
-- bytes in front of the data: a parameter, which is 40 for the one and 56 for the other. So is
-- get_checksum, which calls a third-party library.
pub mod Valid
use kvdk.Prelude.{
  ℕ, ◌+◌, ◌%◌, ◌^◌, List, [], ◌∷◌, ◌++◌, length, Bool, true, false, ◌||◌, leb, ◌==◌, if◌then◌else◌,
}
use kvdk.Codec.Bytes.{Bytes, to_bytes, split}
use kvdk.DlList.{RecordStatus, normal, dirty, outdated}

-- DataMeta, of 16 bytes
pub record DataMeta : Type 0 where
  pub type : ℕ
  pub status : RecordStatus
  pub k_size : ℕ
  pub v_size : ℕ
  pub timestamp : ℕ

-- DataHeader, DataMeta, the links, and the bytes behind them. A StringRecord has no prev and next.
pub record DataRecord : Type 0 where
  pub checksum : ℕ
  pub record_size : ℕ
  pub meta : DataMeta
  pub old_version : ℕ
  pub prev : ℕ
  pub next : ℕ
  pub expired_time : ℕ
  pub bytes : Bytes

abbrev pub status_code : RecordStatus → ℕ
status_code normal = 0
status_code dirty = 1
status_code outdated = 2

-- The bytes of the metadata, in memory order.
unfoldable pub meta_bytes : DataMeta → Bytes
meta_bytes m =
    m.type
    ∷ (status_code m.status
        ∷ (to_bytes 2 m.k_size ++ (to_bytes 4 m.v_size ++ to_bytes 8 m.timestamp)))

unfoldable pub key : DataRecord → Bytes
key r = (split r.meta.k_size r.bytes).0

unfoldable pub value : DataRecord → Bytes
value r = (split r.meta.v_size (split r.meta.k_size r.bytes).1).0

-- The sum of two unsigned 32-bit numbers.
abbrev data_size : DataRecord → ℕ
data_size r = (r.meta.k_size + r.meta.v_size) % 2 ^ 32

-- PersistNextNT, PersistPrevNT, PersistOldVersion and PersistExpireTimeNT
pub data Store : Type 0 where
  next prev old_version expire_time : ℕ → Store

unfoldable pub persist : Store → DataRecord → DataRecord
persist (next v) r = record r { next = v }
persist (prev v) r = record r { prev = v }
persist (old_version v) r = record r { old_version = v }
persist (expire_time v) r = record r { expired_time = v }

unfoldable pub persist_all : List Store → DataRecord → DataRecord
unfolding persist
persist_all [] r = r
persist_all (x ∷ xs) r = persist_all xs (persist x r)

unfoldable pub persist_status : RecordStatus → DataRecord → DataRecord
persist_status s r = record r { meta = record (r.meta) { status = s } }

module _ (fixed_size : ℕ) (get_checksum : Bytes → ℕ) where
  -- The return type has 32 bits.
  unfoldable pub needed_size : (key value : Bytes) → ℕ
  needed_size k v = (length k + length v + fixed_size) % 2 ^ 32

  unfoldable pub validate_record_size : DataRecord → Bool
  validate_record_size r = leb (data_size r + fixed_size) r.record_size

  unfoldable pub checksum_of : DataRecord → ℕ
  unfolding meta_bytes
  checksum_of r =
      (get_checksum (meta_bytes r.meta) + get_checksum (split (data_size r) r.bytes).0) % 2 ^ 32

  unfoldable pub validate : DataRecord → Bool
  unfolding validate_record_size checksum_of
  validate r = if validate_record_size r then checksum_of r == r.checksum else false

  abbrev is_dirty : RecordStatus → Bool
  is_dirty normal = false
  is_dirty dirty = true
  is_dirty outdated = false

  unfoldable pub valid_or_dirty : DataRecord → Bool
  unfolding validate
  valid_or_dirty r = validate r || is_dirty r.meta.status

  -- The key's size has 16 bits and the value's 32. What lies behind the data in the space stays.
  unfoldable pub construct :
      (record_size ts type : ℕ)
      → RecordStatus
      → (old_version prev next : ℕ) → (key value : Bytes) → (expired_time : ℕ) → Bytes
      → DataRecord
  unfolding checksum_of
  construct size ts type status old p n k v expire behind =
      let r : DataRecord = record {
        checksum = 0;
        record_size = size;
        meta = record {
          type = type;
          status = status;
          k_size = length k % 2 ^ 16;
          v_size = length v % 2 ^ 32;
          timestamp = ts;
        };
        old_version = old;
        prev = p;
        next = n;
        expired_time = expire;
        bytes = k ++ (v ++ behind);
      } in
      record r { checksum = checksum_of r }
