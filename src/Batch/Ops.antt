-- ===== src/Batch/Ops.antt =====
-- WriteBatchImpl: the operations that a batch collects, at most one for each key.
pub mod KeyedSet
pub mod History
use kvdk.Prelude.{
  ℕ, ◌+◌, ◌≤◌, ◌≡◌, refl, List, [], ◌∷◌, length, arith, Option, none, some, Bool, true, false, ◌&&◌,
  if◌then◌else◌,
}
use kvdk.Codec.Bytes.{Bytes}
use KeyedSet.{bytes_eq, bytes_eq_iff, erase, insert, find, replace}

pub data WriteOp : Type 0 where
  put delete : WriteOp

pub record StringOp : Type 0 where
  pub op : WriteOp
  pub key : Bytes
  pub value : Bytes

-- SortedOp and HashOp have the same fields.
pub record CollectionOp : Type 0 where
  pub op : WriteOp
  pub collection : Bytes
  pub key : Bytes
  pub value : Bytes

abbrev pub SortedOp : Type 0
SortedOp = CollectionOp

abbrev pub HashOp : Type 0
HashOp = CollectionOp

-- HashEq
unfoldable pub same_string : StringOp → StringOp → Bool
same_string a b = bytes_eq a.key b.key

unfoldable pub same_elem : CollectionOp → CollectionOp → Bool
same_elem a b = bytes_eq a.collection b.collection && bytes_eq a.key b.key

pub record WriteBatch : Type 0 where
  pub string_ops : List StringOp
  pub sorted_ops : List SortedOp
  pub hash_ops : List HashOp

abbrev string_op : WriteOp → Bytes → Bytes → StringOp
string_op o k v = record { op = o; key = k; value = v }

abbrev elem_op : WriteOp → Bytes → Bytes → Bytes → CollectionOp
elem_op o c k v = record { op = o; collection = c; key = k; value = v }

unfoldable pub string_put : WriteBatch → Bytes → Bytes → WriteBatch
string_put b k v = record b { string_ops = replace same_string (string_op put k v) b.string_ops }

unfoldable pub string_delete : WriteBatch → Bytes → WriteBatch
string_delete b k = record b {
  string_ops = replace same_string (string_op delete k []) b.string_ops;
}

unfoldable pub sorted_put : WriteBatch → Bytes → Bytes → Bytes → WriteBatch
sorted_put b c k v = record b { sorted_ops = replace same_elem (elem_op put c k v) b.sorted_ops }

unfoldable pub sorted_delete : WriteBatch → Bytes → Bytes → WriteBatch
sorted_delete b c k = record b {
  sorted_ops = replace same_elem (elem_op delete c k []) b.sorted_ops;
}

unfoldable pub hash_put : WriteBatch → Bytes → Bytes → Bytes → WriteBatch
hash_put b c k v = record b { hash_ops = replace same_elem (elem_op put c k v) b.hash_ops }

unfoldable pub hash_delete : WriteBatch → Bytes → Bytes → WriteBatch
hash_delete b c k = record b { hash_ops = replace same_elem (elem_op delete c k []) b.hash_ops }

unfoldable pub string_get : WriteBatch → Bytes → Option StringOp
string_get b k = find same_string (string_op put k []) b.string_ops

unfoldable pub sorted_get : WriteBatch → Bytes → Bytes → Option SortedOp
sorted_get b c k = find same_elem (elem_op put c k []) b.sorted_ops

unfoldable pub hash_get : WriteBatch → Bytes → Bytes → Option HashOp
hash_get b c k = find same_elem (elem_op put c k []) b.hash_ops

unfoldable pub clear : WriteBatch → WriteBatch
clear b = record b { string_ops = []; sorted_ops = []; hash_ops = [] }

unfoldable pub size : WriteBatch → ℕ
size b = length b.string_ops + length b.sorted_ops + length b.hash_ops
