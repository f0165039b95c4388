-- ===== src/Value/Range/Laws.antt =====
-- What Redis says that a pair of indices selects, and that `clamp_range` selects it.
use kvasm.Common.{
  ℕ, zero, suc, ◌+◌, ◌-◌, ◌<◌, ◌≤◌, ◌≡◌, refl, sym, ap, ◌∙◌, Bool, true, false, Option, none, some,
  List, [], ◌∷◌, ◌&&◌, ltb, leb, if◌then◌else◌, take, length, arith, Option-cases, inl, inr,
}
use kvasm.Common.Int.{ℤ, pos, negsuc, pos_part, neg_part, leb_ℤ, ◌+ℤ◌}
use kvasm.Value.Range.{clamp_range, clamp_start, clamp_stop, slice, slice_clamped}

-- An index counts from the front, or from the back if it is negative.
abbrev pub resolve : ℕ → ℤ → ℤ
resolve len (pos n) = pos n
resolve len (negsuc n) = pos len +ℤ negsuc n

-- Both ends of the range are included.
abbrev pub selected : ℕ → ℤ → ℤ → ℕ → Bool
selected len start stop i =
    ltb i len && (leb_ℤ (resolve len start) (pos i) && leb_ℤ (pos i) (resolve len stop))

abbrev pub covers : Option (ℕ × ℕ) → ℕ → Bool
covers none i = false
covers (some (s, e)) i = leb s i && ltb i e

clamp_start_lem :
    (len : ℕ) (start : ℤ) (i : ℕ)
    → i < len
    → leb_ℤ (clamp_start len start) (pos i) ≡ leb_ℤ (resolve len start) (pos i)
unfolding clamp_start ◌+ℤ◌
clamp_start_lem len (pos a) i h = ground arith
clamp_start_lem len (negsuc a) i h = ground arith

clamp_start_nonneg : (len : ℕ) (start : ℤ) → neg_part (clamp_start len start) ≡ 0
unfolding clamp_start
clamp_start_nonneg len (pos a) = ground arith
clamp_start_nonneg len (negsuc a) = ground arith

clamp_stop_lem :
    (len : ℕ) (stop : ℤ) (i : ℕ)
    → i < len
    → leb_ℤ (pos i) (clamp_stop len stop) ≡ leb_ℤ (pos i) (resolve len stop)
unfolding clamp_stop ◌+ℤ◌
clamp_stop_lem len (pos a) i h = ground arith
clamp_stop_lem len (negsuc a) i h = ground arith

clamp_stop_lt :
    (len : ℕ) (stop : ℤ)
    → 0 < len
    → (pos_part (clamp_stop len stop) < len) × (neg_part (clamp_stop len stop) ≤ 1)
unfolding clamp_stop ◌+ℤ◌
clamp_stop_lt len (pos a) h = ground arith
clamp_stop_lt len (negsuc a) h = ground arith

-- A position lies in the clamped range exactly if the two indices select it.
covers-clamp_range :
    (len : ℕ) (start stop : ℤ) (i : ℕ)
    → covers (clamp_range len start stop) i ≡ selected len start stop i
unfolding clamp_range
covers-clamp_range len start stop i = ground (
  arith,
  clamp_start_lem len start i,
  clamp_stop_lem len stop i,
  clamp_start_nonneg len start,
  clamp_stop_lt len stop,
)

-- A clamped range is not empty and lies within the length.
pub clamp_range_bounds :
    (len : ℕ) (start stop : ℤ) {s e : ℕ}
    → clamp_range len start stop ≡ some (s, e)
    → (s < e) × (e ≤ len)
unfolding clamp_range
clamp_range_bounds len start stop h =
    ground (arith, clamp_start_nonneg len start, clamp_stop_lt len stop)

-- The elements, from position `i` on, whose position passes a test.
abbrev pub select_from {ℓ} : {A : Type ℓ} → ℕ → (ℕ → Bool) → List A → List A
select_from i p [] = []
select_from i p (x ∷ xs) = if p i then x ∷ select_from (suc i) p xs else select_from (suc i) p xs

shift : (i j : ℕ) → suc i + j ≡ i + suc j
shift i j = omega arith

module _ {ℓ} {A : Type ℓ} where
  select_none :
      (p : ℕ → Bool) (i : ℕ) (xs : List A) → ((j : ℕ) → p (i + j) ≡ false) → select_from i p xs ≡ []
  select_none p i [] h = refl
  select_none p i (x ∷ xs) h =
      let here : p i ≡ false = ap p (omega arith) ∙ h 0 in
      rw here (select_none p (suc i) xs (λ j. ap p (shift i j) ∙ h (suc j)))

  take-select :
      (p : ℕ → Bool) (i n : ℕ) (xs : List A)
      → ((j : ℕ) → p (i + j) ≡ ltb j n)
      → take n xs ≡ select_from i p xs
  take-select p i zero xs h = sym (select_none p i xs (λ j. h j ∙ ground arith))
  take-select p i (suc n) [] h = refl
  take-select p i (suc n) (x ∷ xs) h =
      let here : p i ≡ true = ap p (omega arith) ∙ h 0 ∙ ground arith in
      let later : (j : ℕ) → p (suc i + j) ≡ ltb j n =
        λ j. ap p (shift i j) ∙ h (suc j) ∙ ground arith in
      rw here (ap (◌∷◌ x) (take-select p (suc i) n xs later))

  slice-select :
      (p : ℕ → Bool) (i s e : ℕ) (xs : List A)
      → ((j : ℕ) → p (i + j) ≡ (leb s j && ltb j e))
      → slice s e xs ≡ select_from i p xs
  slice-select p i zero e xs h =
      let width : e - 0 ≡ e = omega arith in
      rw width (take-select p i e xs (λ j. h j ∙ ground arith))
  slice-select p i (suc s) e [] h = take_nil (e - suc s)
    where
      take_nil : (n : ℕ) → take {A = A} n [] ≡ []
      take_nil zero = refl
      take_nil (suc n) = refl
  slice-select p i (suc s) e (x ∷ xs) h =
      let here : p i ≡ false = ap p (omega arith) ∙ h 0 ∙ ground arith in
      let later : (j : ℕ) → p (suc i + j) ≡ (leb s j && ltb j (e - 1)) =
        λ j. ap p (shift i j) ∙ h (suc j) ∙ ground arith in
      let width : e - suc s ≡ (e - 1) - s = omega arith in
      rw (here, width) (slice-select p (suc i) s (e - 1) xs later)

  -- The slice of a clamped range is the selection of the elements in the range.
  pub slice_clamped-select :
      (xs : List A) (start stop : ℤ)
      → slice_clamped xs (clamp_range (length xs) start stop)
        ≡ select_from 0 (selected (length xs) start stop) xs
  unfolding slice_clamped
  slice_clamped-select xs start stop = elim (Option-cases (clamp_range (length xs) start stop)) [
    | inl empty ↦
        rw empty (sym (select_none _ 0 xs (λ j. clamped j ∙ ap (λ o. covers o (0 + j)) empty)))
    | inr ((s, e), range) ↦ rw range (
        slice-select _ 0 s e xs (λ j.
          clamped j ∙ ap (λ o. covers o (0 + j)) range ∙ ap (covers (some (s, e))) (omega arith)))
  ]
    where
      clamped :
          (j : ℕ)
          → selected (length xs) start stop (0 + j)
            ≡ covers (clamp_range (length xs) start stop) (0 + j)
      clamped j = sym (covers-clamp_range (length xs) start stop (0 + j))
