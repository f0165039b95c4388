-- ===== src/Tests/Values.antt =====
-- The theorems on values at small values.
use kvasm.Common.{
  ℕ, ◌+◌, ◌<◌, max, String, ◌≡◌, refl, true, ◌||◌, none, some, List, [], ◌∷◌, ok, err,
  if◌then◌else◌, length, get_elem?, reverse, arith,
}
use kvasm.Common.Int.{pos, negsuc, ◌+ℤ◌}
use kvasm.Db.{not_an_integer}
use kvasm.Db.Strings.{incr_value, i64_bytes, in_i64}
use kvasm.Db.Strings.RoundTrip.{incr_value-i64_bytes}
use kvasm.HashMap
use kvasm.HashMap.{HashSet, HashMap, contains, lookup}
use kvasm.HashMap.Laws.{IsSetLike}
use kvasm.SortedSet
use kvasm.SortedSet.{SortedSet, score, rank, iter, position_of}
use kvasm.SortedSet.Synced.{IsSynced, empty-IsSynced, insert-IsSynced, remove-IsSynced, rank_lem}
use kvasm.Value.{list, string, set, sorted_set}
use kvasm.Value.Range.Laws.{selected, select_from}
use kvasm.Value.Strings.{set_range}
use kvasm.Value.Strings.Laws.{written, set_range_lem}
use kvasm.Value.Lists.{lpop, rpop, ltrim, lrange, lrem}
use kvasm.Value.Lists.Laws.{pop_lem, ltrim-lrange}
use kvasm.Value.Lists.Remove.{lrem_lem, left_after, removed_count, occurrences}
use kvasm.Value.Sets.{sadd}
use kvasm.Value.Sets.Laws.{sadd_lem}
use kvasm.Value.Zsets.{zadd, zrem, zrange, zrevrange, zrank, zrevrank, collect_range}
use kvasm.Value.Zsets.Laws.{zadd_lem, zrem_lem, zrange-select, zrank-zrevrank, assigned}
use kvasm.Tests.{floats, two_scores}

two_scores-IsSynced : IsSynced floats two_scores
two_scores-IsSynced =
    insert-IsSynced floats "b" 2 _
      (insert-IsSynced floats "a" 1 SortedSet.empty (empty-IsSynced floats))

insert-IsSynced_example : IsSynced floats (SortedSet.insert floats "b" 7 two_scores).1
insert-IsSynced_example = insert-IsSynced floats "b" 7 two_scores two_scores-IsSynced

remove-IsSynced_example : IsSynced floats (SortedSet.remove floats "b" two_scores).1
remove-IsSynced_example = remove-IsSynced floats "b" two_scores two_scores-IsSynced

rank_lem_example :
    (i : ℕ) × (rank floats "b" two_scores ≡ some i)
    × (i < SortedSet.len two_scores)
    × ((t : ℕ) × (get_elem? two_scores.order i ≡ some (t, "b")) × (t ≡ 2))
unfolding score SortedSet.insert lookup HashMap.insert
rank_lem_example = rank_lem floats "b" two_scores {s = 2} two_scores-IsSynced refl

zrank-zrevrank_example :
    (i j : ℕ) × (zrank floats "a" (sorted_set two_scores) ≡ ok (some i))
    × (zrevrank floats "a" (sorted_set two_scores) ≡ ok (some j))
    × (i + j + 1 ≡ SortedSet.len two_scores)
unfolding score SortedSet.insert lookup HashMap.insert
zrank-zrevrank_example = zrank-zrevrank floats "a" two_scores {s = 1} two_scores-IsSynced refl

zrange-select_example :
    (zrange floats (pos 0) (negsuc 0) true (sorted_set two_scores)
      ≡ ok (
          collect_range floats
            (select_from 0
              (selected (SortedSet.len two_scores) (pos 0) (negsuc 0))
              (iter two_scores))
            true))
    × (zrevrange floats (pos 0) (negsuc 0) true (sorted_set two_scores)
        ≡ ok (
            collect_range floats
              (select_from 0
                (selected (SortedSet.len two_scores) (pos 0) (negsuc 0))
                (reverse (iter two_scores)))
              true))
zrange-select_example = zrange-select floats (pos 0) (negsuc 0) true two_scores two_scores-IsSynced

abbrev pub new_scores : List (String × ℕ)
new_scores = ("a", 3) ∷ ("c", 0) ∷ []

zadd_lem_example :
    (z' : SortedSet ℕ) × (added : ℕ) × (zadd floats new_scores (sorted_set two_scores)
      ≡ (ok added, sorted_set z'))
    × IsSynced floats z'
    × (SortedSet.len z' ≡ SortedSet.len two_scores + added)
    × ((j : String) → score j z' ≡ assigned floats j new_scores (score j two_scores))
zadd_lem_example = zadd_lem floats new_scores two_scores two_scores-IsSynced

zrem_lem_example :
    (z' : SortedSet ℕ) × (removed : ℕ) × (zrem floats ("a" ∷ []) (sorted_set two_scores)
      ≡ (ok removed, sorted_set z'))
    × IsSynced floats z'
    × (SortedSet.len z' + removed ≡ SortedSet.len two_scores)
    × ((j : String) → score j z' ≡ (if contains j ("a" ∷ []) then none else score j two_scores))
zrem_lem_example = zrem_lem floats ("a" ∷ []) two_scores two_scores-IsSynced

set_range_lem_example :
    (s' : List ℕ) × (set_range {F = ℕ} 3 (9 ∷ []) (string (1 ∷ [])) ≡ (ok (length s'), string s'))
    × (length s' ≡ max 1 4)
    × ((i : ℕ) → get_elem? s' i ≡ written (1 ∷ []) 3 (9 ∷ []) i)
set_range_lem_example = set_range_lem (1 ∷ []) 3 (9 ∷ []) (omega arith) (omega arith)

pop_lem_example :
    (lpop {F = ℕ} 2 (list ("a" ∷ "b" ∷ "c" ∷ [])) ≡ (ok ("a" ∷ "b" ∷ []), list ("c" ∷ [])))
    × (rpop {F = ℕ} 2 (list ("a" ∷ "b" ∷ "c" ∷ [])) ≡ (ok ("c" ∷ "b" ∷ []), list ("a" ∷ [])))
pop_lem_example = pop_lem 2 ("a" ∷ "b" ∷ "c" ∷ [])

ltrim-lrange_example :
    (ltrim {F = ℕ} (pos 1) (negsuc 0) (list ("a" ∷ "b" ∷ []))
      ≡ (ok tt, list (select_from 0 (selected 2 (pos 1) (negsuc 0)) ("a" ∷ "b" ∷ []))))
    × (lrange {F = ℕ} (pos 1) (negsuc 0) (list ("a" ∷ "b" ∷ []))
        ≡ ok (select_from 0 (selected 2 (pos 1) (negsuc 0)) ("a" ∷ "b" ∷ [])))
ltrim-lrange_example = ltrim-lrange ("a" ∷ "b" ∷ []) (pos 1) (negsuc 0)

lrem_lem_example : lrem {F = ℕ} (negsuc 0) "a" (list ("a" ∷ "b" ∷ "a" ∷ [])) ≡ (
  ok (removed_count (negsuc 0) (occurrences "a" ("a" ∷ "b" ∷ "a" ∷ []))),
  list (left_after (negsuc 0) "a" ("a" ∷ "b" ∷ "a" ∷ [])),
)
lrem_lem_example = lrem_lem (negsuc 0) "a" ("a" ∷ "b" ∷ "a" ∷ [])

sadd_lem_example :
    (s' : HashSet) × (added : ℕ) × (sadd {F = ℕ} ("a" ∷ "b" ∷ []) (set ("a" ∷ []))
      ≡ (ok added, set s'))
    × (length s' ≡ 1 + added)
    × ((b : String) → contains b s' ≡ (contains b ("a" ∷ "b" ∷ []) || contains b ("a" ∷ [])))
    × IsSetLike s'
unfolding contains
sadd_lem_example = sadd_lem ("a" ∷ "b" ∷ []) ("a" ∷ []) (refl, tt)

abbrev pub one_field : HashMap String
one_field = ("f", "1") ∷ []

incr_value-i64_bytes_example : incr_value {F = ℕ} (pos 50) (string (i64_bytes (negsuc 41))) ≡ (
    if in_i64 (negsuc 41 +ℤ pos 50)
    then (ok (negsuc 41 +ℤ pos 50), string (i64_bytes (negsuc 41 +ℤ pos 50)))
    else (err not_an_integer, string (i64_bytes (negsuc 41))))
unfolding in_i64
incr_value-i64_bytes_example = incr_value-i64_bytes (negsuc 41) (pos 50) refl
