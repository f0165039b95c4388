-- ===== src/Value/Sets.antt =====
-- The set operations of `Value` in crates/redis-wasm-core/src/types/mod.rs.
pub mod Laws
use kvasm.Common.{ℕ, suc, String, Bool, List, [], ◌∷◌, ◌++◌, Result, ok, err, if◌then◌else◌, length}
use kvasm.HashMap.{HashSet, contains, add, discard}
use kvasm.Value.{Value, TypeError, Read, Write, set, wrong_type}

-- The loop of `sadd`, with its counter `added`.
unfoldable pub add_all : List String → ℕ → HashSet → HashSet × ℕ
add_all [] added s = (s, added)
add_all (m ∷ ms) added s = add_all ms (if contains m s then added else suc added) (add m s)

-- The loop of `srem`, with its counter `removed`.
unfoldable pub discard_all : List String → ℕ → HashSet → HashSet × ℕ
discard_all [] removed s = (s, removed)
discard_all (m ∷ ms) removed s =
    discard_all ms (if contains m s then suc removed else removed) (discard m s)

-- `retain(|v| other.contains(v))`, which is also `intersection`
unfoldable pub retain_in : HashSet → HashSet → HashSet
retain_in other [] = []
retain_in other (x ∷ s) =
    let rest = retain_in other s in if contains x other then x ∷ rest else rest

-- `difference`
unfoldable pub difference : HashSet → HashSet → HashSet
difference [] other = []
difference (x ∷ s) other =
    let rest = difference s other in if contains x other then rest else x ∷ rest

module _ {F : Type 0} where
  unfoldable pub sadd : List String → Write F ℕ
  sadd members (set s) = let (s', added) = add_all members 0 s in (ok added, set s')
  sadd members v = (err wrong_type, v)

  unfoldable pub srem : List String → Write F ℕ
  srem members (set s) = let (s', removed) = discard_all members 0 s in (ok removed, set s')
  srem members v = (err wrong_type, v)

  unfoldable pub sismember : String → Read F Bool
  sismember member (set s) = ok (contains member s)
  sismember member _ = err wrong_type

  unfoldable pub smembers : Read F (List String)
  smembers (set s) = ok s
  smembers _ = err wrong_type

  unfoldable pub scard : Read F ℕ
  scard (set s) = ok (length s)
  scard _ = err wrong_type

  unfoldable pub sinter : HashSet → Read F (List String)
  sinter other (set s) = ok (retain_in other s)
  sinter other _ = err wrong_type

  -- the elements of the set, then those of the other that it does not hold
  unfoldable pub sunion : HashSet → Read F (List String)
  sunion other (set s) = ok (s ++ difference other s)
  sunion other _ = err wrong_type

  unfoldable pub sdiff : HashSet → Read F (List String)
  sdiff other (set s) = ok (difference s other)
  sdiff other _ = err wrong_type
