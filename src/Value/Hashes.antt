-- ===== src/Value/Hashes.antt =====
-- The hash operations of `Value` in crates/redis-wasm-core/src/types/mod.rs.
pub mod Laws
use kvasm.Common.{
  ℕ, suc, String, Bool, Option, List, [], ◌∷◌, Result, ok, err, if◌then◌else◌, length, not,
}
use kvasm.HashMap
use kvasm.HashMap.{HashMap, lookup, insert, remove, contains_key}
use kvasm.Value.{Value, TypeError, Read, Write, hash, wrong_type}

-- The loop of `hdel`, with its counter `deleted`.
unfoldable pub remove_all : List String → ℕ → HashMap String → HashMap String × ℕ
remove_all [] deleted h = (h, deleted)
remove_all (k ∷ ks) deleted h =
    remove_all ks (if contains_key k h then suc deleted else deleted) (remove k h)

module _ {F : Type 0} where
  unfoldable pub hset : String → String → Write F ℕ
  hset field value (hash h) =
      let is_new = not (contains_key field h) in
      (ok (if is_new then 1 else 0), hash (insert field value h))
  hset field value v = (err wrong_type, v)

  unfoldable pub hget : String → Read F (Option String)
  hget field (hash h) = ok (lookup field h)
  hget field _ = err wrong_type

  unfoldable pub hgetall : Read F (List (String × String))
  hgetall (hash h) = ok h
  hgetall _ = err wrong_type

  unfoldable pub hdel : List String → Write F ℕ
  hdel fields (hash h) = let (h', deleted) = remove_all fields 0 h in (ok deleted, hash h')
  hdel fields v = (err wrong_type, v)

  unfoldable pub hexists : String → Read F Bool
  hexists field (hash h) = ok (contains_key field h)
  hexists field _ = err wrong_type

  unfoldable pub hlen : Read F ℕ
  hlen (hash h) = ok (length h)
  hlen _ = err wrong_type

  unfoldable pub hkeys : Read F (List String)
  hkeys (hash h) = ok (HashMap.keys h)
  hkeys _ = err wrong_type

  unfoldable pub hvals : Read F (List String)
  hvals (hash h) = ok (HashMap.values h)
  hvals _ = err wrong_type
