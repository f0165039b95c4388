-- ===== src/Value/Lists/Laws.antt =====
-- What the list operations do, against the plain list functions.
use mathlib.Core.List.{append-nil, append_assoc, reverse-append, reverse-reverse}
use kvasm.Common.{
  ℕ, zero, suc, ◌+◌, ◌-◌, ◌≤◌, min, String, ◌≡◌, refl, sym, ap, ◌∙◌, none, some, List, [], ◌∷◌,
  ◌++◌, ok, err, ltb, leb, if◌then◌else◌, length, take, drop, set, get_elem?, reverse, arith,
  length-append, length-reverse, take_of_length-le, drop_of_length-le, Bool-cases, Option-cases,
  get_elem?_none, inl, inr,
}
use kvasm.Common.Int.{ℤ, pos, negsuc}
use kvasm.Value.{list, index_out_of_range}
use kvasm.Value.Range.{clamp_range, slice_clamped}
use kvasm.Value.Range.Laws.{
  selected, select_from, slice_clamped-select, clamp_range_bounds, resolve,
}
use kvasm.Value.Lists.{
  push_front_all, push_back_all, pop_front, pop_back, pop_loop, lpush, rpush, lpop, rpop, lrange,
  lindex, lset, ltrim, trim,
}

push_front_all_lem : (vs l : List String) → push_front_all vs l ≡ reverse vs ++ l
unfolding push_front_all
push_front_all_lem [] l = refl
push_front_all_lem (v ∷ vs) l =
    push_front_all_lem vs (v ∷ l)
    ∙ rw (reverse-append (v ∷ []) vs) (sym (append_assoc (reverse vs) (v ∷ []) l))

pub push_back_all_lem : (vs l : List String) → push_back_all vs l ≡ l ++ vs
unfolding push_back_all
push_back_all_lem [] l = sym (append-nil l)
push_back_all_lem (v ∷ vs) l = push_back_all_lem vs (l ++ v ∷ []) ∙ append_assoc l (v ∷ []) vs

pop_back_snoc : (l : List String) (x : String) → pop_back (l ++ x ∷ []) ≡ some (x, l)
unfolding pop_back
pop_back_snoc [] x = refl
pop_back_snoc (y ∷ l) x = rw (pop_back_snoc l x)

pop_front_loop :
    (n : ℕ) (acc l : List String)
    → n ≤ length l
    → pop_loop pop_front n acc l ≡ (acc ++ take n l, drop n l)
unfolding pop_loop pop_front
pop_front_loop zero acc l h = rw (append-nil acc)
pop_front_loop (suc n) acc [] h = absurd (omega arith)
pop_front_loop (suc n) acc (x ∷ l) h =
    pop_front_loop n (acc ++ x ∷ []) l (omega arith) ∙ rw (append_assoc acc (x ∷ []) (take n l))

-- `r` is the list from its tail end.
pop_back_loop :
    (n : ℕ) (acc r : List String)
    → n ≤ length r
    → pop_loop pop_back n acc (reverse r) ≡ (acc ++ take n r, reverse (drop n r))
unfolding pop_loop
pop_back_loop zero acc r h = rw (append-nil acc)
pop_back_loop (suc n) acc [] h = absurd (omega arith)
pop_back_loop (suc n) acc (x ∷ r) h =
    rw (reverse-append (x ∷ []) r, pop_back_snoc (reverse r) x, pop_loop)
      (pop_back_loop n (acc ++ x ∷ []) r (omega arith) ∙ rw (append_assoc acc (x ∷ []) (take n r)))

take_capped {ℓ} : {A : Type ℓ} (n : ℕ) (l : List A) → take (min n (length l)) l ≡ take n l
take_capped n l = elim (Bool-cases (leb n (length l))) [
  | inl fits ↦ let e : min n (length l) ≡ n = ground arith in rw e
  | inr over ↦
      let e : min n (length l) ≡ length l = ground arith in
      rw e
        (take_of_length-le (length l) l (omega arith) ∙ sym (take_of_length-le n l (ground arith)))
]

drop_capped {ℓ} : {A : Type ℓ} (n : ℕ) (l : List A) → drop (min n (length l)) l ≡ drop n l
drop_capped n l = elim (Bool-cases (leb n (length l))) [
  | inl fits ↦ let e : min n (length l) ≡ n = ground arith in rw e
  | inr over ↦
      let e : min n (length l) ≡ length l = ground arith in
      rw e
        (drop_of_length-le (length l) l (omega arith) ∙ sym (drop_of_length-le n l (ground arith)))
]

rpop_loop :
    (n : ℕ) (l : List String)
    → pop_loop pop_back (min n (length l)) [] l ≡ (take n (reverse l), reverse (drop n (reverse l)))
rpop_loop n l =
    let r = reverse l in
    let size : length r ≡ length l = length-reverse l in
    let e : min n (length l) ≡ min n (length r) = omega (arith, size) in
    ap (pop_loop pop_back (min n (length l)) []) (sym (reverse-reverse l))
    ∙ pop_back_loop (min n (length l)) [] r (omega (arith, size))
    ∙ rw (e, take_capped n r, drop_capped n r)

module _ {F : Type 0} where
  -- LPUSH puts the values in front one by one, so that the last comes first, RPUSH puts them at
  -- the end in order, and both return the new length.
  push_lem :
      (values l : List String)
      → (lpush {F = F} values (list l)
          ≡ (ok (length values + length l), list (reverse values ++ l)))
        × (rpush {F = F} values (list l) ≡ (ok (length l + length values), list (l ++ values)))
  unfolding lpush rpush
  push_lem values l = (
    rw (push_front_all_lem values l, length-append (reverse values) l, length-reverse values),
    rw (push_back_all_lem values l, length-append l values),
  )

  -- LPOP takes up to `count` elements from the front and RPOP from the end, each in the order in
  -- which it meets them, and what is not returned stays in the list in its order.
  pub pop_lem :
      (count : ℕ) (l : List String)
      → (lpop {F = F} count (list l) ≡ (ok (take count l), list (drop count l)))
        × (rpop {F = F} count (list l)
            ≡ (ok (take count (reverse l)), list (reverse (drop count (reverse l)))))
  unfolding lpop rpop
  pop_lem count l = (
    rw (
      pop_front_loop (min count (length l)) [] l (omega arith),
      take_capped count l,
      drop_capped count l,
    ),
    rw (rpop_loop count l),
  )

  -- LSET out of range fails and leaves the list, in range writes one element.
  pub lset_lem :
      (index : ℤ) (value : String) (l : List String)
      → lset {F = F} index value (list l) ≡ elim (resolve (length l) index) [
        | pos i ↦
            if ltb i (length l)
            then (ok tt, list (set l i value))
            else (err index_out_of_range, list l)
        | negsuc _ ↦ (err index_out_of_range, list l)
      ]
  unfolding lset
  lset_lem (pos i) value l = ground arith
  lset_lem (negsuc i) value l = ground arith

trim-slice : (l : List String) (s e : ℕ) → s ≤ e → drop s (take e l) ≡ take (e - s) (drop s l)
trim-slice l zero e h = let w : e - 0 ≡ e = omega arith in rw w
trim-slice l (suc s) zero h = absurd (omega arith)
trim-slice [] (suc s) (suc e) h = sym (take_nil (suc e - suc s))
  where
    take_nil : (n : ℕ) → take {A = String} n [] ≡ []
    take_nil zero = refl
    take_nil (suc n) = refl
trim-slice (x ∷ l) (suc s) (suc e) h =
    let w : suc e - suc s ≡ e - s = omega arith in rw w (trim-slice l s e (omega arith))

trim-slice_clamped :
    (l : List String) (start stop : ℤ)
    → trim l (clamp_range (length l) start stop)
      ≡ slice_clamped l (clamp_range (length l) start stop)
unfolding trim slice_clamped
trim-slice_clamped l start stop = elim (Option-cases (clamp_range (length l) start stop)) [
  | inl empty ↦ rw empty
  | inr ((s, e), range) ↦
      let bounds = clamp_range_bounds (length l) start stop range in
      rw range (trim-slice l s e (omega (arith, bounds.0)))
]

-- LTRIM keeps the elements that LRANGE with the same indices returns, which are those that the two
-- indices select.
pub ltrim-lrange :
    {F : Type 0} (l : List String) (start stop : ℤ)
    → let kept = select_from 0 (selected (length l) start stop) l in
      (ltrim {F = F} start stop (list l) ≡ (ok tt, list kept))
      × (lrange {F = F} start stop (list l) ≡ ok kept)
unfolding ltrim lrange trim
ltrim-lrange l start stop =
    let cut = slice_clamped-select l start stop in
    (ap (λ r. (ok tt, list r)) (trim-slice_clamped l start stop ∙ cut), ap ok cut)

-- LINDEX returns the element at an index, counted from the end if it is negative, and `none` out
-- of range.
pub lindex_lem :
    (F : Type 0) (index : ℤ) (l : List String)
    → lindex {F = F} index (list l)
      ≡ ok (elim (resolve (length l) index) [ pos i ↦ get_elem? l i | negsuc _ ↦ none ])
unfolding lindex
lindex_lem F (pos i) l = ground (arith, get_elem?_none l i)
lindex_lem F (negsuc i) l = ground arith
