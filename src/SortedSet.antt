-- ===== src/SortedSet.antt =====
-- crates/redis-wasm-core/src/types/mod.rs, `SortedSet`: a map from members to scores beside the
-- set of (score, member) pairs in order. The `BTreeSet` is its list of elements in order.
pub mod Order
pub mod Synced
use kvasm.Common.{
  ℕ, suc, String, Bool, true, false, Option, none, some, List, [], ◌∷◌, ◌==◌, ◌&&◌, ◌||◌, ltb, eqb,
  if◌then◌else◌, map, length,
}
use kvasm.Common.Order.{str_lt}
use kvasm.Float.{Float64}
use kvasm.HashMap.{HashMap, lookup}
use kvasm.HashMap

pub record SortedSet (F : Type 0) : Type 0 where
  pub scores : HashMap F
  pub order : List (F × String)

-- `SortedSet::new`
abbrev pub empty : {F : Type 0} → SortedSet F
empty = record { scores = []; order = [] }

module _ {F : Type 0} (f : Float64 F) where
  open f use {position}

  -- `==` and `<` of `(OrderedFloat<f64>, String)`
  abbrev pub same_score : F → F → Bool
  same_score s t = eqb (position s) (position t)

  abbrev pub same_entry : F × String → F × String → Bool
  same_entry (s, m) (t, n) = same_score s t && m == n

  abbrev pub entry_lt : F × String → F × String → Bool
  entry_lt (s, m) (t, n) =
      if ltb (position s) (position t) then true else same_score s t && str_lt m n

  -- `BTreeSet::insert`: an element that is there already stays as it is
  unfoldable pub insert_entry : F × String → List (F × String) → List (F × String)
  insert_entry e [] = e ∷ []
  insert_entry e (x ∷ xs) =
      if same_entry x e then x ∷ xs else if entry_lt e x then e ∷ x ∷ xs else x ∷ insert_entry e xs

  -- `BTreeSet::remove`
  unfoldable pub remove_entry : F × String → List (F × String) → List (F × String)
  remove_entry e [] = []
  remove_entry e (x ∷ xs) = if same_entry x e then xs else x ∷ remove_entry e xs

  -- `SortedSet::insert`: the new set, and whether the member was new
  unfoldable pub insert : String → F → SortedSet F → Bool × SortedSet F
  insert member score z =
      let scores' = HashMap.insert member score z.scores in
      elim (lookup member z.scores) [
        | some old ↦ (
          false,
          if same_score old score then record { scores = scores'; order = z.order } else record {
            scores = scores';
            order = insert_entry (score, member) (remove_entry (old, member) z.order);
          },
        )
        | none ↦ (true, record { scores = scores'; order = insert_entry (score, member) z.order })
      ]

  -- `SortedSet::remove`
  unfoldable pub remove : String → SortedSet F → Bool × SortedSet F
  remove member z = elim (lookup member z.scores) [
    | some score ↦ (
      true,
      record {
        scores = HashMap.remove member z.scores;
        order = remove_entry (score, member) z.order;
      },
    )
    | none ↦ (false, z)
  ]

  -- the `position` of an iterator in `SortedSet::rank`
  unfoldable pub position_of : F → String → List (F × String) → Option ℕ
  position_of score member [] = none
  position_of score member ((s, m) ∷ xs) =
      let rest = position_of score member xs in
      if same_score s score && m == member
      then some 0
      else elim rest [ none ↦ none | some i ↦ some (suc i) ]

  -- `SortedSet::rank`
  unfoldable pub rank : String → SortedSet F → Option ℕ
  rank member z = elim (lookup member z.scores) [
    | none ↦ none
    | some score ↦ position_of score member z.order
  ]

module _ {F : Type 0} where
  -- `SortedSet::score`
  unfoldable pub score : String → SortedSet F → Option F
  score member z = lookup member z.scores

  -- `SortedSet::len`
  abbrev pub len : SortedSet F → ℕ
  len z = length z.scores

  -- `SortedSet::iter`
  abbrev pub iter : SortedSet F → List (String × F)
  iter z = map (λ e. (e.1, e.0)) z.order
