-- ===== src/SortedSet/Order.antt =====
-- The ordered list of a sorted set: what is found in it after an insertion and a removal, and that
-- it stays in order.
use kvasm.Common.{
  suc, String, ◌≡◌, refl, true, false, Option, none, some, List, [], ◌∷◌, ◌==◌, eq_iff, inl, inr,
  Bool-cases, if◌then◌else◌, arith, length,
}
use kvasm.Common.Order.{str_lt_trans, str_lt_total}
use kvasm.Float.{Float64}
use kvasm.SortedSet.{same_score, same_entry, entry_lt, insert_entry, remove_entry}

-- The score that the ordered list has for a member.
unfoldable pub find {ℓ} : {F : Type ℓ} → String → List (F × String) → Option F
find j [] = none
find j ((s, m) ∷ xs) = if m == j then some s else find j xs

module _ {F : Type 0} (f : Float64 F) where
  -- No member twice.
  abbrev pub IsUnique : List (F × String) → Type 0
  IsUnique [] = Unit
  IsUnique ((s, m) ∷ xs) = (find m xs ≡ none) × IsUnique xs

  pub find-insert_entry :
      (s : F) (m j : String) (xs : List (F × String))
      → find m xs ≡ none
      → find j (insert_entry f (s, m) xs) ≡ (if m == j then some s else find j xs)
  unfolding find insert_entry
  find-insert_entry s m j [] h = refl
  find-insert_entry s m j ((t, n) ∷ xs) h =
      ground (arith, eq_iff m j, eq_iff n m, eq_iff n j, find-insert_entry s m j xs)

  pub find-remove_entry :
      (s : F) (m j : String) (xs : List (F × String)) {t : F}
      → IsUnique xs
      → find m xs ≡ some t
      → same_score f t s ≡ true
      → find j (remove_entry f (s, m) xs) ≡ (if m == j then none else find j xs)
  unfolding find remove_entry
  find-remove_entry s m j [] u h k = cc
  find-remove_entry s m j ((t, n) ∷ xs) {t = r} u h k =
      ground (arith, eq_iff m j, eq_iff n m, eq_iff n j, find-remove_entry s m j xs {t = r})

  pub insert_entry-IsUnique :
      (s : F) (m : String) (xs : List (F × String))
      → find m xs ≡ none
      → IsUnique xs
      → IsUnique (insert_entry f (s, m) xs)
  unfolding find insert_entry
  insert_entry-IsUnique s m [] h u = (refl, tt)
  insert_entry-IsUnique s m ((t, n) ∷ xs) h u =
      ground
        (arith, eq_iff n m, eq_iff m n, find-insert_entry s m n xs, insert_entry-IsUnique s m xs)

  pub remove_entry-IsUnique :
      (s : F) (m : String) (xs : List (F × String)) {t : F}
      → find m xs ≡ some t
      → same_score f t s ≡ true
      → IsUnique xs
      → IsUnique (remove_entry f (s, m) xs)
  unfolding find remove_entry
  remove_entry-IsUnique s m [] h k u = tt
  remove_entry-IsUnique s m ((t, n) ∷ xs) {t = r} h k u = ground (
    arith,
    eq_iff n m,
    eq_iff m n,
    find-remove_entry s m n xs {t = r},
    remove_entry-IsUnique s m xs {t = r},
  )

  pub length-insert_entry :
      (s : F) (m : String) (xs : List (F × String))
      → find m xs ≡ none
      → length (insert_entry f (s, m) xs) ≡ suc (length xs)
  unfolding find insert_entry
  length-insert_entry s m [] h = refl
  length-insert_entry s m ((t, n) ∷ xs) h = ground (arith, eq_iff n m, length-insert_entry s m xs)

  pub length-remove_entry :
      (s : F) (m : String) (xs : List (F × String)) {t : F}
      → find m xs ≡ some t
      → same_score f t s ≡ true
      → suc (length (remove_entry f (s, m) xs)) ≡ length xs
  unfolding find remove_entry
  length-remove_entry s m [] h k = cc
  length-remove_entry s m ((t, n) ∷ xs) {t = r} h k =
      ground (arith, eq_iff n m, length-remove_entry s m xs {t = r})

  -- `e` stands before every element.
  abbrev pub Before : F × String → List (F × String) → Type 0
  Before e [] = Unit
  Before e (x ∷ xs) = (entry_lt f e x ≡ true) × Before e xs

  abbrev pub IsSorted : List (F × String) → Type 0
  IsSorted [] = Unit
  IsSorted (x ∷ xs) = Before x xs × IsSorted xs

  entry_lt_trans :
      (a b c : F × String) → entry_lt f a b ≡ true → entry_lt f b c ≡ true → entry_lt f a c ≡ true
  entry_lt_trans (s, m) (t, n) (r, k) p q = ground (arith, str_lt_trans m n k)

  entry_lt_total :
      (a b : F × String) → same_entry f a b ≡ false → entry_lt f b a ≡ false → entry_lt f a b ≡ true
  entry_lt_total (s, m) (t, n) p q = ground (arith, str_lt_total n m, eq_iff m n, eq_iff n m)

  Before-trans :
      (a b : F × String) (xs : List (F × String))
      → entry_lt f a b ≡ true
      → Before b xs
      → Before a xs
  Before-trans a b [] p h = tt
  Before-trans a b (x ∷ xs) p h = (entry_lt_trans a b x p h.0, Before-trans a b xs p h.1)

  Before-insert_entry :
      (a e : F × String) (xs : List (F × String))
      → entry_lt f a e ≡ true
      → Before a xs
      → Before a (insert_entry f e xs)
  unfolding insert_entry
  Before-insert_entry a e [] p h = (p, tt)
  Before-insert_entry a e (x ∷ xs) p h = ground (arith, Before-insert_entry a e xs)

  Before-remove_entry :
      (a e : F × String) (xs : List (F × String)) → Before a xs → Before a (remove_entry f e xs)
  unfolding remove_entry
  Before-remove_entry a e [] h = tt
  Before-remove_entry a e (x ∷ xs) h = ground (arith, Before-remove_entry a e xs)

  pub insert_entry-IsSorted :
      (e : F × String) (xs : List (F × String)) → IsSorted xs → IsSorted (insert_entry f e xs)
  unfolding insert_entry
  insert_entry-IsSorted e [] h = (tt, tt)
  insert_entry-IsSorted e (x ∷ xs) h = elim (Bool-cases (same_entry f x e)) [
    | inl same ↦ rw same h
    | inr new ↦ rw new (elim (Bool-cases (entry_lt f e x)) [
      | inl here ↦ rw here (((here, Before-trans e x xs here h.0)), h)
      | inr later ↦ rw later (
        Before-insert_entry x e xs (entry_lt_total x e new later) h.0,
        insert_entry-IsSorted e xs h.1,
      )
    ])
  ]

  pub remove_entry-IsSorted :
      (e : F × String) (xs : List (F × String)) → IsSorted xs → IsSorted (remove_entry f e xs)
  unfolding remove_entry
  remove_entry-IsSorted e [] h = tt
  remove_entry-IsSorted e (x ∷ xs) h =
      ground (arith, Before-remove_entry x e xs, remove_entry-IsSorted e xs)
