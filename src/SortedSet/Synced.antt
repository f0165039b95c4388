-- ===== src/SortedSet/Synced.antt =====
-- The map and the ordered list of a sorted set stay in step.
use kvasm.Common.{
  ℕ, suc, ◌<◌, ◌+◌, String, ◌≡◌, refl, true, Option, none, some, List, [], ◌∷◌, ◌==◌, eq_iff,
  eq_refl, inl, inr, Bool-cases, Option-cases, if◌then◌else◌, arith, length, get_elem?,
}
use mathlib.Core.Option
use kvasm.Float.{Float64}
use kvasm.HashMap
use kvasm.HashMap.{lookup}
use kvasm.HashMap.Laws.{
  lookup-insert, lookup-remove, length-insert, length-remove, insert-IsDistinct, remove-IsDistinct,
  IsDistinct,
}
use kvasm.SortedSet
use kvasm.SortedSet.{SortedSet, same_score, empty, rank, position_of, score}
use kvasm.SortedSet.Order.{
  find, length-insert_entry, length-remove_entry, IsUnique, IsSorted, find-insert_entry,
  find-remove_entry, insert_entry-IsUnique, remove_entry-IsUnique, insert_entry-IsSorted,
  remove_entry-IsSorted,
}

module _ {F : Type 0} (f : Float64 F) where
  open f use {position}

  -- Both have the member, at scores that `OrderedFloat` calls equal, or neither has it.
  abbrev pub Agree : Option F → Option F → Type 0
  Agree a b = Option.map position a ≡ Option.map position b

  pub record IsSynced (z : SortedSet F) : Type 0 where
    pub agree : (j : String) → Agree (lookup j z.scores) (find j z.order)
    pub unique : IsUnique f z.order
    pub sorted : IsSorted f z.order
    pub distinct : IsDistinct z.scores
    pub counted : length z.order ≡ length z.scores

  pub empty-IsSynced : IsSynced empty
  unfolding lookup find
  empty-IsSynced = record {
    agree = λ j. refl;
    unique = tt;
    sorted = tt;
    distinct = tt;
    counted = refl;
  }

  find_none :
      (z : SortedSet F) (m : String) → IsSynced z → lookup m z.scores ≡ none → find m z.order ≡ none
  find_none z m v h = ground (arith, v.agree m)

  find_known :
      (z : SortedSet F) (m : String) (s : F)
      → IsSynced z
      → lookup m z.scores ≡ some s
      → (t : F) × (find m z.order ≡ some t) × (same_score f t s ≡ true)
  find_known z m s v h = ground (arith, v.agree m)

  -- If the map and the order of a sorted set are in step, they are in step after the insertion of
  -- a member at a score, be the member new or known: both hold the same members at scores that
  -- OrderedFloat calls equal, no member stands twice, the order is ascending, and both have the
  -- same size.
  pub insert-IsSynced :
      (m : String) (s : F) (z : SortedSet F) → IsSynced z → IsSynced (SortedSet.insert f m s z).1
  unfolding SortedSet.insert HashMap.contains_key
  insert-IsSynced m s z v =
      let distinct' = insert-IsDistinct m s z.scores v.distinct in
      let size = length-insert m s z.scores in
      elim (Option-cases (lookup m z.scores)) [
        | inl fresh ↦
            let none_there = find_none z m v fresh in
            rw (fresh, SortedSet.insert)
              (record {
                agree = λ j. ground (
                  arith,
                  v.agree j,
                  lookup-insert m j s z.scores,
                  find-insert_entry f s m j z.order none_there,
                );
                unique = insert_entry-IsUnique f s m z.order none_there v.unique;
                sorted = insert_entry-IsSorted f (s, m) z.order v.sorted;
                distinct = distinct';
                counted =
                    ground
                      (arith, size, fresh, v.counted, length-insert_entry f s m z.order none_there);
              })
        | inr (old, known) ↦
            let (t, there, same) = find_known z m old v known in
            rw (known, SortedSet.insert)
              (elim (Bool-cases (same_score f old s)) [
                | inl equal ↦ rw equal (record {
                  agree = λ j.
                      ground (arith, v.agree j, lookup-insert m j s z.scores, eq_iff m j, there);
                  unique = v.unique;
                  sorted = v.sorted;
                  distinct = distinct';
                  counted = ground (arith, size, known, v.counted);
                })
                | inr moved ↦ rw moved (
                    let gone = find-remove_entry f old m m z.order v.unique there same in
                    let absent : find m (SortedSet.remove_entry f (old, m) z.order) ≡ none =
                      ground (arith, gone, eq_refl m) in
                    record {
                      agree = λ j. ground (
                        arith,
                        v.agree j,
                        lookup-insert m j s z.scores,
                        find-insert_entry f s m j (SortedSet.remove_entry f (old, m) z.order)
                            absent,
                        find-remove_entry f old m j z.order v.unique there same,
                      );
                      unique =
                          insert_entry-IsUnique f s m _ absent
                            (remove_entry-IsUnique f old m z.order there same v.unique);
                      sorted =
                          insert_entry-IsSorted f (s, m) _
                            (remove_entry-IsSorted f (old, m) z.order v.sorted);
                      distinct = distinct';
                      counted = ground (
                        arith,
                        size,
                        known,
                        v.counted,
                        length-insert_entry f s m _ absent,
                        length-remove_entry f old m z.order there same,
                      );
                    })
              ])
      ]

  -- If the map and the order of a sorted set are in step, they are in step after the removal of a
  -- member, be it there or not.
  pub remove-IsSynced :
      (m : String) (z : SortedSet F) → IsSynced z → IsSynced (SortedSet.remove f m z).1
  unfolding SortedSet.remove HashMap.contains_key
  remove-IsSynced m z v = elim (Option-cases (lookup m z.scores)) [
    | inl fresh ↦ rw (fresh, SortedSet.remove) v
    | inr (old, known) ↦
        let (t, there, same) = find_known z m old v known in
        rw (known, SortedSet.remove)
          (record {
            agree = λ j. ground (
              arith,
              v.agree j,
              lookup-remove m j z.scores,
              find-remove_entry f old m j z.order v.unique there same,
            );
            unique = remove_entry-IsUnique f old m z.order there same v.unique;
            sorted = remove_entry-IsSorted f (old, m) z.order v.sorted;
            distinct = remove-IsDistinct m z.scores v.distinct;
            counted = ground (
              arith,
              known,
              v.counted,
              length-remove m z.scores v.distinct,
              length-remove_entry f old m z.order there same,
            );
          })
  ]

  position_of_lem :
      (s : F) (m : String) (xs : List (F × String)) {t : F}
      → find m xs ≡ some t
      → same_score f t s ≡ true
      → (i : ℕ) × (position_of f s m xs ≡ some i) × (get_elem? xs i ≡ some (t, m)) × (i < length xs)
  unfolding find position_of
  position_of_lem s m [] h k = cc
  position_of_lem s m ((t, n) ∷ xs) {t = r} h k = elim (Bool-cases (n == m)) [
    | inl same ↦ (0, ground arith, ground (arith, eq_iff n m), omega arith)
    | inr other ↦
        let (i, found, elem, bound) = position_of_lem s m xs {t = r} (ground arith) k in
        (suc i, ground arith, elem, omega arith)
  ]

  -- In a sorted set whose map and order are in step, a member with a score has a rank, which is
  -- below the size, and at which the order holds the member with a score that OrderedFloat calls
  -- equal to its own.
  pub rank_lem :
      (m : String) (z : SortedSet F) {s : F}
      → IsSynced z
      → score m z ≡ some s
      → (i : ℕ) × (rank f m z ≡ some i)
        × (i < SortedSet.len z)
        × ((t : F) × (get_elem? z.order i ≡ some (t, m)) × (position t ≡ position s))
  unfolding rank score
  rank_lem m z {s} v h =
      let (t, there, same) = find_known z m s v h in
      let (i, found, elem, bound) = position_of_lem s m z.order {t = t} there same in
      (i, ground arith, omega (arith, v.counted), (t, elem, ground arith))

  -- What `insert` and `remove` change in the map, and whether they report a change of its size.
  pub score-insert :
      (m j : String) (s : F) (z : SortedSet F)
      → score j (SortedSet.insert f m s z).1 ≡ (if m == j then some s else score j z)
  unfolding SortedSet.insert score
  score-insert m j s z = ground (arith, lookup-insert m j s z.scores)

  pub score-remove :
      (m j : String) (z : SortedSet F)
      → score j (SortedSet.remove f m z).1 ≡ (if m == j then none else score j z)
  unfolding SortedSet.remove score
  score-remove m j z = ground (arith, lookup-remove m j z.scores, eq_iff m j)

  pub len-insert :
      (m : String) (s : F) (z : SortedSet F)
      → SortedSet.len (SortedSet.insert f m s z).1
        ≡ SortedSet.len z + (if (SortedSet.insert f m s z).0 then 1 else 0)
  unfolding SortedSet.insert HashMap.contains_key
  len-insert m s z = ground (arith, length-insert m s z.scores)

  pub len-remove :
      (m : String) (z : SortedSet F)
      → IsSynced z
      → SortedSet.len (SortedSet.remove f m z).1 + (if (SortedSet.remove f m z).0 then 1 else 0)
        ≡ SortedSet.len z
  unfolding SortedSet.remove HashMap.contains_key
  len-remove m z h = ground (arith, length-remove m z.scores h.distinct)
