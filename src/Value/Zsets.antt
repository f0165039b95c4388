-- ===== src/Value/Zsets.antt =====
-- The sorted set operations of `Value` in crates/redis-wasm-core/src/types/mod.rs.
pub mod Laws
use kvasm.Common.{
  ℕ, suc, ◌-◌, String, Bool, true, false, Option, none, some, List, [], ◌∷◌, ◌++◌, Result, ok, err,
  ◌&&◌, if◌then◌else◌, length, take, drop, reverse, map,
}
use kvasm.Common.Int.{ℤ}
use kvasm.Float.{Float64}
use kvasm.SortedSet
use kvasm.SortedSet.{SortedSet}
use kvasm.Value.{Value, TypeError, Read, Write, sorted_set, wrong_type}
use kvasm.Value.Range.{clamp_range, slice_clamped}

module _ {F : Type 0} (f : Float64 F) where
  open f use {le, to_string}

  -- The loop of `zadd`, with its counter `added`.
  unfoldable pub insert_all : List (String × F) → ℕ → SortedSet F → SortedSet F × ℕ
  insert_all [] added z = (z, added)
  insert_all ((member, score) ∷ ms) added z =
      let (new, z') = SortedSet.insert f member score z in
      insert_all ms (if new then suc added else added) z'

  -- The loop of `zrem`, with its counter `removed`.
  unfoldable pub remove_all : List String → ℕ → SortedSet F → SortedSet F × ℕ
  remove_all [] removed z = (z, removed)
  remove_all (member ∷ ms) removed z =
      let (was, z') = SortedSet.remove f member z in
      remove_all ms (if was then suc removed else removed) z'

  unfoldable pub collect_range : List (String × F) → Bool → List String
  collect_range [] with_scores = []
  collect_range ((member, score) ∷ es) with_scores =
      let rest = collect_range es with_scores in
      if with_scores then member ∷ to_string score ∷ rest else member ∷ rest

  -- `.filter(|(_, s)| *s >= min && *s <= max)`
  unfoldable pub in_score_range : F → F → List (String × F) → List (String × F)
  in_score_range min max [] = []
  in_score_range min max ((m, s) ∷ es) =
      let rest = in_score_range min max es in if le min s && le s max then (m, s) ∷ rest else rest

  unfoldable pub zadd : List (String × F) → Write F ℕ
  zadd members (sorted_set z) =
      let (z', added) = insert_all members 0 z in (ok added, sorted_set z')
  zadd members v = (err wrong_type, v)

  unfoldable pub zrem : List String → Write F ℕ
  zrem members (sorted_set z) =
      let (z', removed) = remove_all members 0 z in (ok removed, sorted_set z')
  zrem members v = (err wrong_type, v)

  unfoldable pub zscore : String → Read F (Option F)
  zscore member (sorted_set z) = ok (SortedSet.score member z)
  zscore member _ = err wrong_type

  unfoldable pub zrank : String → Read F (Option ℕ)
  zrank member (sorted_set z) = ok (SortedSet.rank f member z)
  zrank member _ = err wrong_type

  unfoldable pub zrevrank : String → Read F (Option ℕ)
  zrevrank member (sorted_set z) = elim (SortedSet.rank f member z) [
    | none ↦ ok none
    | some r ↦ ok (some (SortedSet.len z - 1 - r))
  ]
  zrevrank member _ = err wrong_type

  unfoldable pub zrange : ℤ → ℤ → Bool → Read F (List String)
  zrange start stop with_scores (sorted_set z) = ok (
      collect_range (slice_clamped (SortedSet.iter z) (clamp_range (SortedSet.len z) start stop))
        with_scores)
  zrange start stop with_scores _ = err wrong_type

  unfoldable pub zrevrange : ℤ → ℤ → Bool → Read F (List String)
  zrevrange start stop with_scores (sorted_set z) = ok (
      collect_range
        (slice_clamped (reverse (SortedSet.iter z)) (clamp_range (SortedSet.len z) start stop))
        with_scores)
  zrevrange start stop with_scores _ = err wrong_type

  unfoldable pub zrangebyscore : F → F → Read F (List (String × F))
  zrangebyscore min max (sorted_set z) = ok (in_score_range min max (SortedSet.iter z))
  zrangebyscore min max _ = err wrong_type

  unfoldable pub zcard : Read F ℕ
  zcard (sorted_set z) = ok (SortedSet.len z)
  zcard _ = err wrong_type

  unfoldable pub zcount : F → F → Read F ℕ
  zcount min max (sorted_set z) = ok (length (in_score_range min max (SortedSet.iter z)))
  zcount min max _ = err wrong_type
