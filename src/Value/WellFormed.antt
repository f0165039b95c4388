-- ===== src/Value/WellFormed.antt =====
-- Values of crates/redis-wasm-core/src/types/mod.rs as the code builds them, and the operations on
-- them.
use kvasm.Common.{ℕ, String, List, [], ◌∷◌, Result, arith}
use kvasm.Common.Int.{ℤ}
use kvasm.HashMap.Laws.{IsDistinct, IsSetLike, insert-IsDistinct}
use kvasm.Float.{Float64}
use kvasm.SortedSet.Synced.{IsSynced}
use kvasm.Value.{Value}
use kvasm.Value.Strings
use kvasm.Value.Lists
use kvasm.Value.Sets
use kvasm.Value.Sets.Laws.{add_all-IsSetLike, discard_all-IsSetLike}
use kvasm.Value.Zsets
use kvasm.Value.Zsets.Laws.{insert_all-IsSynced, remove_all-IsSynced}
use kvasm.Value.Hashes
use kvasm.Value.Hashes.Laws.{remove_all-IsDistinct}

-- No member and no field twice, and the two halves of a sorted set in step.
abbrev pub IsWellFormed : {F : Type 0} → Float64 F → Value F → Type 0
IsWellFormed f (Value.string s) = Unit
IsWellFormed f (Value.list l) = Unit
IsWellFormed f (Value.set s) = IsSetLike s
IsWellFormed f (Value.sorted_set z) = IsSynced f z
IsWellFormed f (Value.hash h) = IsDistinct h

-- An operation that leaves well-formed values well-formed, whether it succeeds or fails.
pub record Safe {F E A : Type 0} (f : Float64 F) (op : Value F → Result E A × Value F)
    : Type 0 where
  pub at : (v : Value F) → IsWellFormed f v → IsWellFormed f (op v).1

module _ {F : Type 0} (f : Float64 F) where
  pub lpush-Safe : (values : List String) → Safe f (Lists.lpush values)
  unfolding Lists.lpush
  lpush-Safe values = record { at = well_formed }
    where
      well_formed : (v : Value F) → IsWellFormed f v → IsWellFormed f (Lists.lpush values v).1
      well_formed (Value.list l) h = tt
      well_formed _ h = h

  pub rpush-Safe : (values : List String) → Safe f (Lists.rpush values)
  unfolding Lists.rpush
  rpush-Safe values = record { at = well_formed }
    where
      well_formed : (v : Value F) → IsWellFormed f v → IsWellFormed f (Lists.rpush values v).1
      well_formed (Value.list l) h = tt
      well_formed _ h = h

  pub lpop-Safe : (count : ℕ) → Safe f (Lists.lpop count)
  unfolding Lists.lpop
  lpop-Safe count = record { at = well_formed }
    where
      well_formed : (v : Value F) → IsWellFormed f v → IsWellFormed f (Lists.lpop count v).1
      well_formed (Value.list l) h = tt
      well_formed _ h = h

  pub rpop-Safe : (count : ℕ) → Safe f (Lists.rpop count)
  unfolding Lists.rpop
  rpop-Safe count = record { at = well_formed }
    where
      well_formed : (v : Value F) → IsWellFormed f v → IsWellFormed f (Lists.rpop count v).1
      well_formed (Value.list l) h = tt
      well_formed _ h = h

  pub lrem-Safe : (count : ℤ) (value : String) → Safe f (Lists.lrem count value)
  unfolding Lists.lrem
  lrem-Safe count value = record { at = well_formed }
    where
      well_formed : (v : Value F) → IsWellFormed f v → IsWellFormed f (Lists.lrem count value v).1
      well_formed (Value.list l) h = tt
      well_formed _ h = h

  pub ltrim-Safe : (start stop : ℤ) → Safe f (Lists.ltrim start stop)
  unfolding Lists.ltrim
  ltrim-Safe start stop = record { at = well_formed }
    where
      well_formed : (v : Value F) → IsWellFormed f v → IsWellFormed f (Lists.ltrim start stop v).1
      well_formed (Value.list l) h = tt
      well_formed _ h = h

  pub lset-Safe : (index : ℤ) (value : String) → Safe f (Lists.lset index value)
  unfolding Lists.lset
  lset-Safe index value = record { at = well_formed }
    where
      well_formed : (v : Value F) → IsWellFormed f v → IsWellFormed f (Lists.lset index value v).1
      well_formed (Value.list l) h = ground arith
      well_formed _ h = h

  pub append-Safe : (suffix : List ℕ) → Safe f (Strings.append suffix)
  unfolding Strings.append
  append-Safe suffix = record { at = well_formed }
    where
      well_formed : (v : Value F) → IsWellFormed f v → IsWellFormed f (Strings.append suffix v).1
      well_formed (Value.string s) h = ground arith
      well_formed _ h = h

  pub set_range-Safe : (offset : ℕ) (value : List ℕ) → Safe f (Strings.set_range offset value)
  unfolding Strings.set_range
  set_range-Safe offset [] = record { at = well_formed }
    where
      well_formed :
          (v : Value F) → IsWellFormed f v → IsWellFormed f (Strings.set_range offset [] v).1
      well_formed (Value.string s) h = tt
      well_formed _ h = h
  set_range-Safe offset (b ∷ value) = record { at = well_formed }
    where
      well_formed :
          (v : Value F)
          → IsWellFormed f v
          → IsWellFormed f (Strings.set_range offset (b ∷ value) v).1
      well_formed (Value.string s) h = ground arith
      well_formed _ h = h

  pub sadd-Safe : (members : List String) → Safe f (Sets.sadd members)
  unfolding Sets.sadd
  sadd-Safe members = record { at = well_formed }
    where
      well_formed : (v : Value F) → IsWellFormed f v → IsWellFormed f (Sets.sadd members v).1
      well_formed (Value.set s) h = add_all-IsSetLike members 0 s h
      well_formed _ h = h

  pub srem-Safe : (members : List String) → Safe f (Sets.srem members)
  unfolding Sets.srem
  srem-Safe members = record { at = well_formed }
    where
      well_formed : (v : Value F) → IsWellFormed f v → IsWellFormed f (Sets.srem members v).1
      well_formed (Value.set s) h = discard_all-IsSetLike members 0 s h
      well_formed _ h = h

  pub zadd-Safe : (members : List (String × F)) → Safe f (Zsets.zadd f members)
  unfolding Zsets.zadd
  zadd-Safe members = record { at = well_formed }
    where
      well_formed : (v : Value F) → IsWellFormed f v → IsWellFormed f (Zsets.zadd f members v).1
      well_formed (Value.sorted_set z) h = insert_all-IsSynced f members 0 z h
      well_formed _ h = h

  pub zrem-Safe : (members : List String) → Safe f (Zsets.zrem f members)
  unfolding Zsets.zrem
  zrem-Safe members = record { at = well_formed }
    where
      well_formed : (v : Value F) → IsWellFormed f v → IsWellFormed f (Zsets.zrem f members v).1
      well_formed (Value.sorted_set z) h = remove_all-IsSynced f members 0 z h
      well_formed _ h = h

  pub hset-Safe : (field value : String) → Safe f (Hashes.hset field value)
  unfolding Hashes.hset
  hset-Safe field value = record { at = well_formed }
    where
      well_formed : (v : Value F) → IsWellFormed f v → IsWellFormed f (Hashes.hset field value v).1
      well_formed (Value.hash m) h = insert-IsDistinct field value m h
      well_formed _ h = h

  pub hdel-Safe : (fields : List String) → Safe f (Hashes.hdel fields)
  unfolding Hashes.hdel
  hdel-Safe fields = record { at = well_formed }
    where
      well_formed : (v : Value F) → IsWellFormed f v → IsWellFormed f (Hashes.hdel fields v).1
      well_formed (Value.hash m) h = remove_all-IsDistinct fields 0 m h
      well_formed _ h = h
