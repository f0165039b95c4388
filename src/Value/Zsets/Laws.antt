-- ===== src/Value/Zsets/Laws.antt =====
-- The sorted set operations keep the two halves of the set in step, and read it by rank.
use kvasm.Common.{
  ℕ, suc, ◌+◌, ◌-◌, String, ◌≡◌, refl, ap, ◌∙◌, Bool, Option, none, some, List, [], ◌∷◌, ok, ◌==◌,
  if◌then◌else◌, length, arith, reverse, length-reverse, map,
}
use kvasm.Common.Int.{ℤ}
use kvasm.Float.{Float64}
use kvasm.HashMap.{contains}
use kvasm.SortedSet
use kvasm.SortedSet.{SortedSet, iter, score}
use kvasm.SortedSet.Synced.{
  IsSynced, insert-IsSynced, remove-IsSynced, rank_lem, score-insert, score-remove, len-insert,
  len-remove,
}
use kvasm.Value.{sorted_set}
use kvasm.Value.Range.{clamp_range, slice_clamped}
use kvasm.Value.Range.Laws.{selected, select_from, slice_clamped-select}
use kvasm.Value.Zsets.{
  insert_all, remove_all, collect_range, zadd, zrem, zrank, zrevrank, zrange, zrevrange,
}

module _ {F : Type 0} (f : Float64 F) where
  pub insert_all-IsSynced :
      (ms : List (String × F)) (n : ℕ) (z : SortedSet F)
      → IsSynced f z
      → IsSynced f (insert_all f ms n z).0
  unfolding insert_all
  insert_all-IsSynced [] n z h = h
  insert_all-IsSynced ((m, s) ∷ ms) n z h =
      insert_all-IsSynced ms _ (SortedSet.insert f m s z).1 (insert-IsSynced f m s z h)

  pub remove_all-IsSynced :
      (ms : List String) (n : ℕ) (z : SortedSet F)
      → IsSynced f z
      → IsSynced f (remove_all f ms n z).0
  unfolding remove_all
  remove_all-IsSynced [] n z h = h
  remove_all-IsSynced (m ∷ ms) n z h =
      remove_all-IsSynced ms _ (SortedSet.remove f m z).1 (remove-IsSynced f m z h)

  length-iter :
      (es : List (F × String)) → length (map {B = String × F} (λ e. (e.1, e.0)) es) ≡ length es
  length-iter [] = refl
  length-iter (e ∷ es) = ap suc (length-iter es)

  -- The score that a list of assignments leaves for a member: the last one counts.
  abbrev pub assigned : String → List (String × F) → Option F → Option F
  assigned j [] old = old
  assigned j ((m, s) ∷ ms) old = assigned j ms (if m == j then some s else old)

  pub score-insert_all :
      (ms : List (String × F)) (n : ℕ) (j : String) (z : SortedSet F)
      → score j (insert_all f ms n z).0 ≡ assigned j ms (score j z)
  unfolding insert_all
  score-insert_all [] n j z = refl
  score-insert_all ((m, s) ∷ ms) n j z =
      score-insert_all ms _ j (SortedSet.insert f m s z).1
      ∙ ap (assigned j ms) (score-insert f m j s z)

  len-insert_all :
      (ms : List (String × F)) (n : ℕ) (z : SortedSet F)
      → SortedSet.len (insert_all f ms n z).0 + n ≡ SortedSet.len z + (insert_all f ms n z).1
  unfolding insert_all
  len-insert_all [] n z = refl
  len-insert_all ((m, s) ∷ ms) n z =
      let new = (SortedSet.insert f m s z).0 in
      ground (
        arith,
        len-insert f m s z,
        len-insert_all ms (if new then suc n else n) (SortedSet.insert f m s z).1,
      )

  -- ZADD to a sorted set whose map and order are in step keeps them in step, gives each member the
  -- last score listed for it, leaves the other scores, and returns by how many the set has grown.
  pub zadd_lem :
      (members : List (String × F)) (z : SortedSet F)
      → IsSynced f z
      → (z' : SortedSet F) × (added : ℕ) × (zadd f members (sorted_set z)
          ≡ (ok added, sorted_set z'))
        × IsSynced f z'
        × (SortedSet.len z' ≡ SortedSet.len z + added)
        × ((j : String) → score j z' ≡ assigned j members (score j z))
  unfolding zadd
  zadd_lem members z h = (
    (insert_all f members 0 z).0,
    (insert_all f members 0 z).1,
    refl,
    insert_all-IsSynced members 0 z h,
    omega (arith, len-insert_all members 0 z),
    λ j. score-insert_all members 0 j z,
  )

  score-remove_all :
      (ms : List String) (n : ℕ) (j : String) (z : SortedSet F)
      → score j (remove_all f ms n z).0 ≡ (if contains j ms then none else score j z)
  unfolding remove_all contains
  score-remove_all [] n j z = refl
  score-remove_all (m ∷ ms) n j z =
      let was = (SortedSet.remove f m z).0 in
      ground (
        arith,
        score-remove f m j z,
        score-remove_all ms (if was then suc n else n) j (SortedSet.remove f m z).1,
      )

  len-remove_all :
      (ms : List String) (n : ℕ) (z : SortedSet F)
      → IsSynced f z
      → SortedSet.len (remove_all f ms n z).0 + (remove_all f ms n z).1 ≡ SortedSet.len z + n
  unfolding remove_all
  len-remove_all [] n z h = refl
  len-remove_all (m ∷ ms) n z h =
      let was = (SortedSet.remove f m z).0 in
      ground (
        arith,
        len-remove f m z h,
        len-remove_all ms (if was then suc n else n) (SortedSet.remove f m z).1
            (remove-IsSynced f m z h),
      )

  -- ZREM from a sorted set whose map and order are in step keeps them in step, drops the given
  -- members and no other, and returns by how many the set has shrunk.
  pub zrem_lem :
      (members : List String) (z : SortedSet F)
      → IsSynced f z
      → (z' : SortedSet F) × (removed : ℕ) × (zrem f members (sorted_set z)
          ≡ (ok removed, sorted_set z'))
        × IsSynced f z'
        × (SortedSet.len z' + removed ≡ SortedSet.len z)
        × ((j : String) → score j z' ≡ (if contains j members then none else score j z))
  unfolding zrem
  zrem_lem members z h = (
    (remove_all f members 0 z).0,
    (remove_all f members 0 z).1,
    refl,
    remove_all-IsSynced members 0 z h,
    omega (arith, len-remove_all members 0 z h),
    λ j. score-remove_all members 0 j z,
  )

  clamped-select :
      (es : List (String × F)) (n : ℕ) (start stop : ℤ)
      → length es ≡ n
      → slice_clamped es (clamp_range n start stop) ≡ select_from 0 (selected n start stop) es
  clamped-select es n start stop e = rw (← e) (slice_clamped-select es start stop)

  -- On a sorted set whose map and order are in step, ZRANGE returns the entries of the order that
  -- its indices select, and ZREVRANGE those that they select in the reverse of the order, with
  -- scores if asked.
  pub zrange-select :
      (start stop : ℤ) (with_scores : Bool) (z : SortedSet F)
      → IsSynced f z
      → (zrange f start stop with_scores (sorted_set z)
          ≡ ok (
              collect_range f
                (select_from 0 (selected (SortedSet.len z) start stop) (iter z))
                with_scores))
        × (zrevrange f start stop with_scores (sorted_set z)
            ≡ ok (
                collect_range f
                  (select_from 0 (selected (SortedSet.len z) start stop) (reverse (iter z)))
                  with_scores))
  unfolding zrange zrevrange
  zrange-select start stop with_scores z h =
      let size : length (iter z) ≡ SortedSet.len z = length-iter z.order ∙ h.counted in
      let size' = length-reverse (iter z) ∙ size in
      (
        rw (clamped-select (iter z) (SortedSet.len z) start stop size),
        rw (clamped-select (reverse (iter z)) (SortedSet.len z) start stop size'),
      )

  -- In a sorted set whose map and order are in step, a member with a score has a rank from each
  -- end, and the two add up to the size less one.
  pub zrank-zrevrank :
      (member : String) (z : SortedSet F) {s : F}
      → IsSynced f z
      → score member z ≡ some s
      → (i j : ℕ) × (zrank f member (sorted_set z) ≡ ok (some i))
        × (zrevrank f member (sorted_set z) ≡ ok (some j))
        × (i + j + 1 ≡ SortedSet.len z)
  unfolding zrank zrevrank
  zrank-zrevrank member z h k =
      let (i, ranked, bound, _) = rank_lem f member z h k in
      (i, SortedSet.len z - 1 - i, rw ranked, rw (ranked, zrevrank), omega arith)
