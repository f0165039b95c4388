-- ===== src/HashMap/Laws.antt =====
-- What a lookup sees after each operation on a table.
use mathlib.Core.Path.{subst}
use kvasm.Common.{
  Bool-cases, inl, inr, suc, String, ◌≡◌, refl, true, false, none, some, [], ◌∷◌, ◌++◌, ◌==◌,
  eq_iff, eq_refl, if◌then◌else◌, arith, length,
}
use kvasm.HashMap.{HashMap, HashSet, lookup, insert, remove, contains_key, contains, add, discard}

-- The two ways round of a comparison of strings agree.
pub eq_comm : (a b : String) → (a == b) ≡ (b == a)
eq_comm a b = ground (arith, eq_iff a b, eq_iff b a)

module _ {ℓ} {V : Type ℓ} where
  pub lookup-insert :
      (key j : String) (value : V) (m : HashMap V)
      → lookup j (insert key value m) ≡ (if key == j then some value else lookup j m)
  unfolding lookup insert
  lookup-insert key j value [] = refl
  lookup-insert key j value ((known, old) ∷ rest) =
      ground (arith, eq_iff known key, eq_iff known j, eq_iff key j, lookup-insert key j value rest)

  pub lookup-remove :
      (k j : String) (m : HashMap V) → lookup j (remove k m) ≡ (if k == j then none else lookup j m)
  unfolding lookup remove
  lookup-remove k j [] = ground arith
  lookup-remove k j ((i, w) ∷ m) =
      ground (arith, eq_iff k j, eq_iff i k, eq_iff i j, lookup-remove k j m)

  pub lookup-insert_self : (k : String) (v : V) (m : HashMap V) → lookup k (insert k v m) ≡ some v
  lookup-insert_self k v m = ground (arith, lookup-insert k k v m, eq_refl k)

  pub lookup-remove_self : (k : String) (m : HashMap V) → lookup k (remove k m) ≡ none
  lookup-remove_self k m = ground (arith, lookup-remove k k m, eq_refl k)

  pub remove_absent : (k : String) (m : HashMap V) → lookup k m ≡ none → remove k m ≡ m
  unfolding lookup remove
  remove_absent k [] h = refl
  remove_absent k ((i, w) ∷ m) h = ground (arith, remove_absent k m)

  pub length-insert :
      (k : String) (v : V) (m : HashMap V)
      → length (insert k v m) ≡ (if contains_key k m then length m else suc (length m))
  unfolding lookup insert contains_key
  length-insert k v [] = refl
  length-insert k v ((i, w) ∷ m) = ground (arith, length-insert k v m)

  -- No key twice: the keys of the rest do not hold the first.
  abbrev pub IsDistinct : HashMap V → Type ℓ
  IsDistinct [] = Unit
  IsDistinct ((k, v) ∷ m) = (lookup k m ≡ none) × IsDistinct m

  pub insert-IsDistinct :
      (k : String) (v : V) (m : HashMap V) → IsDistinct m → IsDistinct (insert k v m)
  unfolding lookup insert
  insert-IsDistinct k v [] h = (refl, tt)
  insert-IsDistinct k v ((i, w) ∷ m) h =
      ground (arith, eq_iff i k, insert-IsDistinct k v m, lookup-insert k i v m, eq_iff k i)

  pub remove-IsDistinct : (k : String) (m : HashMap V) → IsDistinct m → IsDistinct (remove k m)
  unfolding lookup remove
  remove-IsDistinct k [] h = tt
  remove-IsDistinct k ((i, w) ∷ m) h =
      ground (arith, remove-IsDistinct k m, lookup-remove k i m, eq_iff k i)

  -- Every value of the table has a property.
  abbrev pub AllValues {κ} : (V → Type κ) → HashMap V → Type κ
  AllValues P [] = Unit
  AllValues P ((k, v) ∷ m) = P v × AllValues P m

  pub insert-AllValues {κ} :
      (P : V → Type κ) (k : String) (v : V) (m : HashMap V)
      → P v
      → AllValues P m
      → AllValues P (insert k v m)
  unfolding insert
  insert-AllValues P k v [] p h = (p, tt)
  insert-AllValues P k v ((i, w) ∷ m) p h = elim (Bool-cases (i == k)) [
    | inl e ↦ rw (e, insert) (p, h.1)
    | inr e ↦ rw (e, insert) (h.0, insert-AllValues P k v m p h.1)
  ]

  pub remove-AllValues {κ} :
      (P : V → Type κ) (k : String) (m : HashMap V) → AllValues P m → AllValues P (remove k m)
  unfolding remove
  remove-AllValues P k [] h = tt
  remove-AllValues P k ((i, w) ∷ m) h = elim (Bool-cases (i == k)) [
    | inl e ↦ rw (e, remove) (remove-AllValues P k m h.1)
    | inr e ↦ rw (e, remove) (h.0, remove-AllValues P k m h.1)
  ]

  pub AllValues-lookup {κ} :
      (P : V → Type κ) (k : String) (v : V) (m : HashMap V)
      → AllValues P m
      → lookup k m ≡ some v
      → P v
  unfolding lookup
  AllValues-lookup P k v [] h e = absurd (ground arith)
  AllValues-lookup P k v ((i, w) ∷ m) h e = elim (Bool-cases (i == k)) [
    | inl same ↦ let found : w ≡ v = ground arith in subst P found h.0
    | inr other ↦ AllValues-lookup P k v m h.1 (ground arith)
  ]

  -- An entry that goes in under a fresh key stands at the end.
  pub insert_fresh :
      (k : String) (v : V) (m : HashMap V) → lookup k m ≡ none → insert k v m ≡ m ++ (k, v) ∷ []
  unfolding lookup insert
  insert_fresh k v [] h = refl
  insert_fresh k v ((i, w) ∷ m) h = ground (arith, insert_fresh k v m)

  pub length-remove :
      (k : String) (m : HashMap V)
      → IsDistinct m
      → length m ≡ (if contains_key k m then suc (length (remove k m)) else length (remove k m))
  unfolding lookup remove contains_key
  length-remove k [] h = refl
  length-remove k ((i, w) ∷ m) h = ground (arith, eq_iff i k, length-remove k m, remove_absent k m)

pub contains-add :
    (a b : String) (s : HashSet) → contains b (add a s) ≡ (if a == b then true else contains b s)
unfolding contains add
contains-add a b [] = refl
contains-add a b (x ∷ s) = ground (arith, eq_iff x a, eq_iff a b, eq_iff x b, contains-add a b s)

pub contains-discard :
    (a b : String) (s : HashSet)
    → contains b (discard a s) ≡ (if a == b then false else contains b s)
unfolding contains discard
contains-discard a b [] = ground arith
contains-discard a b (x ∷ s) =
    ground (arith, eq_iff x a, eq_iff a b, eq_iff x b, contains-discard a b s)

pub length-add :
    (a : String) (s : HashSet)
    → length (add a s) ≡ (if contains a s then length s else suc (length s))
unfolding contains add
length-add a [] = refl
length-add a (x ∷ s) = ground (arith, length-add a s)

-- No member twice.
abbrev pub IsSetLike : HashSet → Type 0
IsSetLike [] = Unit
IsSetLike (x ∷ s) = (contains x s ≡ false) × IsSetLike s

pub add-IsSetLike : (a : String) (s : HashSet) → IsSetLike s → IsSetLike (add a s)
unfolding contains add
add-IsSetLike a [] h = (refl, tt)
add-IsSetLike a (x ∷ s) h =
    ground (arith, add-IsSetLike a s, contains-add a x s, eq_iff a x, eq_iff x a)

pub discard-IsSetLike : (a : String) (s : HashSet) → IsSetLike s → IsSetLike (discard a s)
unfolding contains discard
discard-IsSetLike a [] h = tt
discard-IsSetLike a (x ∷ s) h =
    ground (arith, discard-IsSetLike a s, contains-discard a x s, eq_iff a x)

pub discard_absent : (a : String) (s : HashSet) → contains a s ≡ false → discard a s ≡ s
unfolding contains discard
discard_absent a [] h = refl
discard_absent a (x ∷ s) h = ground (arith, discard_absent a s)

pub length-discard :
    (a : String) (s : HashSet)
    → IsSetLike s
    → length s ≡ (if contains a s then suc (length (discard a s)) else length (discard a s))
unfolding contains discard
length-discard a [] h = refl
length-discard a (x ∷ s) h = ground (arith, eq_iff x a, length-discard a s, discard_absent a s)

pub add_fresh : (a : String) (s : HashSet) → contains a s ≡ false → add a s ≡ s ++ a ∷ []
unfolding contains add
add_fresh a [] h = refl
add_fresh a (x ∷ s) h = ground (arith, add_fresh a s)
