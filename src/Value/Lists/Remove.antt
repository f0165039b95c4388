-- ===== src/Value/Lists/Remove.antt =====
-- LREM: which occurrences of the value go.
use mathlib.Core.List.{append_assoc, append-nil, reverse-append, reverse-reverse}
use kvasm.Common.{
  ℕ, zero, suc, ◌+◌, ◌-◌, ◌≤◌, min, String, ◌≡◌, refl, sym, ap, ◌∙◌, true, false, List, [], ◌∷◌,
  ◌++◌, ok, ◌==◌, ltb, eqb, if◌then◌else◌, length, reverse, arith, length-reverse, Bool-cases, inl,
  inr,
}
use kvasm.Common.Int.{ℤ, pos, negsuc}
use kvasm.Value.{list}
use kvasm.Value.Lists.{
  retain_head, tail_indices, remove_at, remove_indices, retain_ne, lrem_list, lrem,
}

-- The list without the first `n` occurrences of the value.
unfoldable pub drop_first : ℕ → String → List String → List String
drop_first zero value l = l
drop_first (suc n) value [] = []
drop_first (suc n) value (v ∷ l) =
    let hit = drop_first n value l in
    let miss = drop_first (suc n) value l in if v == value then hit else v ∷ miss

-- How often the value occurs.
unfoldable pub occurrences : String → List String → ℕ
occurrences value [] = 0
occurrences value (v ∷ l) = let rest = occurrences value l in if v == value then suc rest else rest

drop_first_zero : (value : String) (l : List String) → drop_first 0 value l ≡ l
unfolding drop_first
drop_first_zero value l = refl

retain_head_full :
    (count : ℕ) (value : String) (removed : ℕ) (l : List String)
    → count ≤ removed
    → retain_head count value removed l ≡ (l, removed)
unfolding retain_head
retain_head_full count value removed [] h = refl
retain_head_full count value removed (v ∷ l) h =
    ground (arith, retain_head_full count value removed l)

retain_head_lem :
    (left : ℕ) (value : String) (count removed : ℕ) (l : List String)
    → count ≡ removed + left
    → retain_head count value removed l
      ≡ (drop_first left value l, removed + min left (occurrences value l))
unfolding retain_head drop_first occurrences
retain_head_lem zero value count removed l h =
    retain_head_full count value removed l (omega arith) ∙ ground arith
retain_head_lem (suc left) value count removed [] h = ground arith
retain_head_lem (suc left) value count removed (v ∷ l) h =
    let less : ltb removed count ≡ true = ground arith in
    elim (Bool-cases (v == value)) [
      | inl hit ↦
          rw (less, hit)
            (ground (arith, retain_head_lem left value count (suc removed) l (omega arith)))
      | inr miss ↦
          rw (less, miss) (ground (arith, retain_head_lem (suc left) value count removed l h))
    ]

remove_at-append :
    (xs ys : List String) (v : String) → remove_at (length xs) (xs ++ v ∷ ys) ≡ xs ++ ys
unfolding remove_at
remove_at-append [] ys v = refl
remove_at-append (x ∷ xs) ys v = ap (◌∷◌ x) (remove_at-append xs ys v)

reverse-cons-append :
    (v : String) (r kept : List String) → reverse (v ∷ r) ++ kept ≡ reverse r ++ v ∷ kept
reverse-cons-append v r kept =
    rw (reverse-append (v ∷ []) r) (append_assoc (reverse r) (v ∷ []) kept)

remove_at-reverse :
    (v : String) (r kept : List String) (n : ℕ)
    → n ≡ length r
    → remove_at n (reverse (v ∷ r) ++ kept) ≡ reverse r ++ kept
remove_at-reverse v r kept n e =
    ap (remove_at n) (reverse-cons-append v r kept)
    ∙ ap (λ k. remove_at k (reverse r ++ v ∷ kept)) (e ∙ sym (length-reverse r))
    ∙ remove_at-append (reverse r) kept v

-- The loop over the reversed list `r`, with `len` the length of the whole and `i` the elements
-- that it has passed: what it collects takes the last occurrences out.
tail_indices_lem :
    (left : ℕ) (value : String) (count len i pushed removed : ℕ) (r kept : List String)
    → len ≡ i + length r
    → count ≡ suc (pushed + left)
    → remove_indices (tail_indices count value len i pushed r) removed (reverse r ++ kept) ≡ (
      reverse (drop_first (suc left) value r) ++ kept,
      removed + min (suc left) (occurrences value r),
    )
unfolding tail_indices remove_indices drop_first occurrences
tail_indices_lem left value count len i pushed removed [] kept h k = ground arith
tail_indices_lem zero value count len i pushed removed (v ∷ r) kept h k =
    elim (Bool-cases (v == value)) [
      | inl hit ↦
          let last : eqb (suc pushed) count ≡ true = ground arith in
          rw (hit, last) (ground (arith, remove_at-reverse v r kept (len - 1 - i) (omega arith)))
      | inr miss ↦ rw miss (
          ground (
            arith,
            tail_indices_lem zero value count len (suc i) pushed removed r (v ∷ kept) (omega arith)
                k,
            reverse-cons-append v r kept,
            reverse-cons-append v (drop_first 1 value r) kept,
          ))
    ]
tail_indices_lem (suc left) value count len i pushed removed (v ∷ r) kept h k =
    elim (Bool-cases (v == value)) [
      | inl hit ↦
          let more : eqb (suc pushed) count ≡ false = ground arith in
          rw (hit, more)
            (ground (
              arith,
              remove_at-reverse v r kept (len - 1 - i) (omega arith),
              tail_indices_lem left value count len (suc i) (suc pushed) (suc removed) r kept
                  (omega arith) (omega arith),
            ))
      | inr miss ↦ rw miss (
          ground (
            arith,
            tail_indices_lem (suc left) value count len (suc i) pushed removed r (v ∷ kept)
                (omega arith) k,
            reverse-cons-append v r kept,
            reverse-cons-append v (drop_first (suc (suc left)) value r) kept,
          ))
    ]

drop_first_hit :
    (n : ℕ) (value v : String) (l : List String)
    → (v == value) ≡ true
    → drop_first (suc n) value (v ∷ l) ≡ drop_first n value l
unfolding drop_first
drop_first_hit n value v l h = rw h

drop_first_miss :
    (n : ℕ) (value v : String) (l : List String)
    → (v == value) ≡ false
    → drop_first n value (v ∷ l) ≡ v ∷ drop_first n value l
unfolding drop_first
drop_first_miss zero value v l h = refl
drop_first_miss (suc n) value v l h = rw h

retain_ne_lem :
    (value : String) (l : List String)
    → (retain_ne value l ≡ drop_first (occurrences value l) value l)
      × (length (retain_ne value l) + occurrences value l ≡ length l)
unfolding retain_ne occurrences
retain_ne_lem value [] = (drop_first_nil, omega arith)
  where
    drop_first_nil : [] ≡ drop_first 0 value []
    drop_first_nil = sym (drop_first_zero value [])
retain_ne_lem value (v ∷ l) = elim (Bool-cases (v == value)) [
  | inl hit ↦ rw hit (
    (retain_ne_lem value l).0 ∙ sym (drop_first_hit (occurrences value l) value v l hit),
    omega (arith, (retain_ne_lem value l).1),
  )
  | inr miss ↦ rw miss (
    ap (◌∷◌ v) (retain_ne_lem value l).0
        ∙ sym (drop_first_miss (occurrences value l) value v l miss),
    omega (arith, (retain_ne_lem value l).1),
  )
]

-- The list that LREM leaves: with a positive count the first occurrences go, with a negative count
-- the last ones, with 0 all.
abbrev pub left_after : ℤ → String → List String → List String
left_after (pos zero) value l = drop_first (occurrences value l) value l
left_after (pos (suc count)) value l = drop_first (suc count) value l
left_after (negsuc count) value l = reverse (drop_first (suc count) value (reverse l))

-- How many occurrences it removes.
abbrev pub removed_count : ℤ → ℕ → ℕ
removed_count (pos zero) n = n
removed_count (pos (suc count)) n = min (suc count) n
removed_count (negsuc count) n = min (suc count) n

occurrences-append :
    (value : String) (xs ys : List String)
    → occurrences value (xs ++ ys) ≡ occurrences value xs + occurrences value ys
unfolding occurrences
occurrences-append value [] ys = omega arith
occurrences-append value (x ∷ xs) ys = ground (arith, occurrences-append value xs ys)

occurrences-reverse :
    (value : String) (l : List String) → occurrences value (reverse l) ≡ occurrences value l
unfolding occurrences
occurrences-reverse value [] = refl
occurrences-reverse value (x ∷ l) =
    ap (occurrences value) (reverse-append (x ∷ []) l)
    ∙ occurrences-append value (reverse l) (x ∷ [])
    ∙ ground (arith, occurrences-reverse value l)

lrem_list_lem :
    (count : ℤ) (value : String) (l : List String)
    → lrem_list count value l
      ≡ (left_after count value l, removed_count count (occurrences value l))
unfolding lrem_list
lrem_list_lem (pos zero) value l = ground (arith, retain_ne_lem value l)
lrem_list_lem (pos (suc count)) value l =
    retain_head_lem (suc count) value (suc count) 0 l (omega arith) ∙ ground arith
lrem_list_lem (negsuc count) value l =
    ap (remove_indices (tail_indices (suc count) value (length l) 0 0 (reverse l)) 0)
      (sym (reverse-reverse l) ∙ sym (append-nil (reverse (reverse l))))
    ∙ tail_indices_lem count value (suc count) (length l) 0 0 0 (reverse l) []
        (omega (arith, length-reverse l)) (omega arith)
    ∙ ground (
      arith,
      append-nil (reverse (drop_first (suc count) value (reverse l))),
      occurrences-reverse value l,
    )

-- LREM takes out the first occurrences of the value up to the count if the count is positive, the
-- last ones up to its absolute value if it is negative, and all if it is 0, and returns how many
-- it took out.
pub lrem_lem :
    {F : Type 0} (count : ℤ) (value : String) (l : List String)
    → lrem {F = F} count value (list l)
      ≡ (ok (removed_count count (occurrences value l)), list (left_after count value l))
unfolding lrem
lrem_lem count value l = rw (lrem_list_lem count value l)
