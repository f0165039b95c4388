-- ===== src/Value.antt =====
-- crates/redis-wasm-core/src/types/mod.rs: `ValueType`, `Value`, `TypeError`. The operations on
-- each kind of value are in the child modules, their laws in the modules named `Laws` below those.
pub mod Range
pub mod Idle
pub mod WellFormed
pub mod Strings
pub mod Lists
pub mod Sets
pub mod Zsets
pub mod Hashes
use kvasm.Common.{ℕ, String, Bool, List, [], length, eqb, Result, ok, err}
use kvasm.HashMap.{HashMap, HashSet}
use kvasm.SortedSet
use kvasm.SortedSet.{SortedSet}

pub data ValueType : Type 0 where
  string list set sorted_set hash none : ValueType

-- `ValueType::as_str`
unfoldable pub as_str : ValueType → String
as_str ValueType.string = "string"
as_str ValueType.list = "list"
as_str ValueType.set = "set"
as_str ValueType.sorted_set = "zset"
as_str ValueType.hash = "hash"
as_str ValueType.none = "none"

-- Strings are sequences of bytes.
pub data Value (F : Type 0) : Type 0 where
  string : List ℕ → Value F
  list : List String → Value F
  set : HashSet → Value F
  sorted_set : SortedSet F → Value F
  hash : HashMap String → Value F

pub data TypeError : Type 0 where
  wrong_type index_out_of_range string_too_large : TypeError

module _ {F : Type 0} where
  -- `Value::type_name`
  unfoldable pub type_name : Value F → String
  type_name (string _) = "string"
  type_name (list _) = "list"
  type_name (set _) = "set"
  type_name (sorted_set _) = "zset"
  type_name (hash _) = "hash"

  unfoldable pub value_type : Value F → ValueType
  value_type (string _) = ValueType.string
  value_type (list _) = ValueType.list
  value_type (set _) = ValueType.set
  value_type (sorted_set _) = ValueType.sorted_set
  value_type (hash _) = ValueType.hash

  -- `Value::len`
  unfoldable pub len : Value F → ℕ
  len (string s) = length s
  len (list l) = length l
  len (set s) = length s
  len (sorted_set z) = SortedSet.len z
  len (hash h) = length h

  -- `Value::is_empty`
  unfoldable pub is_empty : Value F → Bool
  unfolding len
  is_empty v = eqb (len v) 0

  -- `as_bytes`, `as_list`, ... and their `_mut` forms, each with its `.ok_or(TypeError::WrongType)`
  unfoldable pub as_bytes : Value F → Result TypeError (List ℕ)
  as_bytes (string s) = ok s
  as_bytes _ = err wrong_type

  unfoldable pub as_list : Value F → Result TypeError (List String)
  as_list (list l) = ok l
  as_list _ = err wrong_type

  unfoldable pub as_set : Value F → Result TypeError HashSet
  as_set (set s) = ok s
  as_set _ = err wrong_type

  unfoldable pub as_sorted_set : Value F → Result TypeError (SortedSet F)
  as_sorted_set (sorted_set z) = ok z
  as_sorted_set _ = err wrong_type

  unfoldable pub as_hash : Value F → Result TypeError (HashMap String)
  as_hash (hash h) = ok h
  as_hash _ = err wrong_type

  abbrev pub new_empty_string : Value F
  new_empty_string = string []

  abbrev pub new_list : Value F
  new_list = list []

  abbrev pub new_set : Value F
  new_set = set []

  abbrev pub new_sorted_set : Value F
  new_sorted_set = sorted_set SortedSet.empty

  abbrev pub new_hash : Value F
  new_hash = hash []

-- What a method that reads a value returns, and one that takes `&mut self`.
abbrev pub Read : Type 0 → Type 0 → Type 0
Read F A = Value F → Result TypeError A

abbrev pub Write : Type 0 → Type 0 → Type 0
Write F A = Value F → Result TypeError A × Value F
