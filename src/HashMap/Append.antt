-- ===== src/HashMap/Append.antt =====
-- Maps and sets put one behind the other, and entries that go in twice.
use kvasm.Common.{
  String, ◌≡◌, refl, false, none, some, List, [], ◌∷◌, ◌++◌, ◌==◌, ◌||◌, eq_iff, eq_refl, arith,
  Bool-cases, inl, inr,
}
use kvasm.HashMap.{HashMap, HashSet, lookup, insert, contains}
use kvasm.HashMap.Laws.{IsDistinct, IsSetLike}

contains-append :
    (x : String) (s t : HashSet) → contains x (s ++ t) ≡ (contains x s || contains x t)
unfolding contains
contains-append x [] t = refl
contains-append x (y ∷ s) t = ground (arith, contains-append x s t)

pub contains-middle :
    (acc : HashSet) (m : String) (ms : List String)
    → IsSetLike (acc ++ m ∷ ms)
    → contains m acc ≡ false
unfolding contains
contains-middle [] m ms h = refl
contains-middle (x ∷ acc) m ms h =
    ground (arith, contains-append x acc (m ∷ ms), contains-middle acc m ms, eq_iff x m, eq_iff m x)

module _ {V : Type 0} where
  pub insert-insert :
      (k : String) (v w : V) (m : HashMap V) → insert k v (insert k w m) ≡ insert k v m
  unfolding insert
  insert-insert k v w [] = rw (eq_refl k) refl
  insert-insert k v w ((i, x) ∷ m) = elim (Bool-cases (i == k)) [
    | inl e ↦ rw (e, insert, eq_refl k) refl
    | inr e ↦ rw (e, insert, e, insert-insert k v w m) refl
  ]

  pub insert_same : (k : String) (v : V) (m : HashMap V) → lookup k m ≡ some v → insert k v m ≡ m
  unfolding lookup insert
  insert_same k v [] h = cc
  insert_same k v ((i, x) ∷ m) h = ground (arith, eq_iff i k, insert_same k v m)

  lookup-append :
      (k : String) (s t : HashMap V)
      → lookup k (s ++ t) ≡ elim (lookup k s) [ none ↦ lookup k t | some v ↦ some v ]
  unfolding lookup
  lookup-append k [] t = refl
  lookup-append k ((i, x) ∷ s) t = ground (arith, lookup-append k s t)

  pub lookup-middle :
      (acc : HashMap V) (k : String) (v : V) (m : HashMap V)
      → IsDistinct (acc ++ (k, v) ∷ m)
      → lookup k acc ≡ none
  unfolding lookup
  lookup-middle [] k v m h = refl
  lookup-middle ((i, x) ∷ acc) k v m h =
      ground
        (arith, lookup-append i acc ((k, v) ∷ m), lookup-middle acc k v m, eq_iff i k, eq_iff k i)
