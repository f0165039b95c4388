-- ===== src/HashMap.antt =====
-- `HashMap` and `DashMap` with `String` keys, and `HashSet<String>`, as the source uses them
-- (the standard library and the dashmap crate). A table is the list of its entries in the order
-- in which it iterates: a new key goes to the end, a known one is replaced in place.
pub mod Laws
pub mod Append
use kvasm.Common.{
  String, Bool, true, false, Option, none, some, List, [], ◌∷◌, ◌==◌, map, if◌then◌else◌,
}

abbrev pub HashMap {ℓ} : Type ℓ → Type ℓ
HashMap V = List (String × V)

module _ {ℓ} {V : Type ℓ} where
  -- `map.get(key)`, with `map.contains_key(key)` below
  unfoldable pub lookup : String → HashMap V → Option V
  lookup key [] = none
  lookup key ((known, value) ∷ rest) = if known == key then some value else lookup key rest

  -- `map.insert(key, value)`
  unfoldable pub insert : String → V → HashMap V → HashMap V
  insert key value [] = (key, value) ∷ []
  insert key value ((known, old) ∷ rest) =
      if known == key then (key, value) ∷ rest else (known, old) ∷ insert key value rest

  -- `map.remove(key)`
  unfoldable pub remove : String → HashMap V → HashMap V
  remove k [] = []
  remove k ((j, v) ∷ m) = let rest = remove k m in if j == k then rest else (j, v) ∷ rest

  unfoldable pub contains_key : String → HashMap V → Bool
  contains_key k m = elim (lookup k m) [ none ↦ false | some _ ↦ true ]

  abbrev pub keys : HashMap V → List String
  keys = map (λ e. e.0)

  abbrev pub values : HashMap V → List V
  values = map (λ e. e.1)

abbrev pub HashSet : Type 0
HashSet = List String

-- `set.contains(member)`
unfoldable pub contains : String → HashSet → Bool
contains a [] = false
contains a (x ∷ s) = if x == a then true else contains a s

-- `set.insert(member)`: the new set, and whether the member was new
unfoldable pub add : String → HashSet → HashSet
add a [] = a ∷ []
add a (x ∷ s) = if x == a then x ∷ s else x ∷ add a s

-- `set.remove(member)`
unfoldable pub discard : String → HashSet → HashSet
discard a [] = []
discard a (x ∷ s) = let rest = discard a s in if x == a then rest else x ∷ rest
