-- ===== src/Value/Strings/Laws.antt =====
-- What the string operations do to the bytes.
use kvasm.Common.{
  leb, Bool-cases, inl, inr, ℕ, ◌+◌, ◌-◌, ◌<◌, ◌≤◌, max, ◌≡◌, sym, ap, ◌∙◌, Option, some, List, [],
  ◌∷◌, ◌++◌, ok, err, ltb, if◌then◌else◌, length, take, drop, replicate, get_elem?, arith,
  length-append, length-take, length-drop, length-replicate, get_elem?-take, get_elem?-drop,
  get_elem?-append_left, get_elem?-append_right, get_elem?_none, get_elem?-replicate, Bool-cases,
  ltb→lt, inl, inr,
}
use kvasm.Common.Int.{ℤ}
use kvasm.Value.{string, string_too_large}
use kvasm.Value.Range.Laws.{selected, select_from, slice_clamped-select}
use kvasm.Value.Strings.{
  max_string_size, capped_add, resize, copy_from_slice, append, get_range, set_range,
}

pub capped_add_ok : (a b : ℕ) → a + b ≤ max_string_size → capped_add a b ≡ ok (a + b)
unfolding capped_add
capped_add_ok a b h = ground arith

pub capped_add_err : (a b : ℕ) → max_string_size < a + b → capped_add a b ≡ err string_too_large
unfolding capped_add
capped_add_err a b h = ground arith

length-resize : (s : List ℕ) (end : ℕ) → length (resize s end) ≡ max (length s) end
unfolding resize
length-resize s end = ground (
  arith,
  length-append s (replicate (end - length s) 0),
  length-replicate {A = ℕ} (end - length s) 0,
)

-- The byte at a position: the old one, or 0 in the gap.
get_elem?-resize :
    (s : List ℕ) (end i : ℕ)
    → i < end
    → get_elem? (resize s end) i ≡ (if ltb i (length s) then get_elem? s i else some 0)
unfolding resize
get_elem?-resize s end i h = elim (Bool-cases (ltb (length s) end)) [
  | inl grows ↦ rw grows (elim (Bool-cases (ltb i (length s))) [
    | inl old ↦ rw old (get_elem?-append_left s _ i (ltb→lt _ _ old))
    | inr gap ↦
        let split : i ≡ length s + (i - length s) = ground arith in
        rw gap (
          ap (get_elem? (s ++ replicate (end - length s) 0)) split
          ∙ get_elem?-append_right s _ (i - length s)
          ∙ get_elem?-replicate (end - length s) (i - length s) 0 (ground arith))
  ])
  | inr fits ↦ rw fits (ground arith)
]

get_elem?-resize_beyond :
    (s : List ℕ) (end i : ℕ) → end ≤ i → get_elem? (resize s end) i ≡ get_elem? s i
unfolding resize
get_elem?-resize_beyond s end i h = elim (Bool-cases (ltb (length s) end)) [
  | inl grows ↦
      let short : length s < end = ltb→lt _ _ grows in
      let full : length (s ++ replicate (end - length s) 0) ≤ i = omega (
        arith,
        length-append s (replicate (end - length s) 0),
        length-replicate {A = ℕ} (end - length s) 0,
      ) in
      rw grows (get_elem?_none _ i full ∙ sym (get_elem?_none s i (omega arith)))
  | inr fits ↦ rw fits
]

length-copy :
    (s value : List ℕ) (offset : ℕ)
    → offset + length value ≤ length s
    → length (copy_from_slice s offset value) ≡ length s
unfolding copy_from_slice
length-copy s value offset h = omega (
  arith,
  length-append (take offset s) (value ++ drop (offset + length value) s),
  length-append value (drop (offset + length value) s),
  length-take offset s,
  length-drop (offset + length value) s,
)

-- The byte at a position: one of the value inside its range, the old one outside.
get_elem?-copy :
    (s value : List ℕ) (offset i : ℕ)
    → offset + length value ≤ length s
    → get_elem? (copy_from_slice s offset value) i ≡ (
        if ltb i offset
        then get_elem? s i
        else if ltb i (offset + length value)
        then get_elem? value (i - offset)
        else get_elem? s i)
unfolding copy_from_slice
get_elem?-copy s value offset i h = elim (Bool-cases (ltb i offset)) [
  | inl before ↦
      let bound : i < offset = ltb→lt _ _ before in
      rw before (
        get_elem?-append_left (take offset s) rest i (omega (arith, head))
        ∙ get_elem?-take offset i s bound)
  | inr after ↦ rw after (
      let split : i ≡ length (take offset s) + (i - offset) = ground (arith, head) in
      ap (get_elem? (take offset s ++ rest)) split
      ∙ get_elem?-append_right (take offset s) rest (i - offset)
      ∙ elim (Bool-cases (ltb i (offset + length value))) [
        | inl inside ↦ rw inside (get_elem?-append_left value tail (i - offset) (ground arith))
        | inr beyond ↦ rw beyond (
            let over : i - offset ≡ length value + (i - offset - length value) = ground arith in
            let place : offset + length value + (i - offset - length value) ≡ i = ground arith in
            ap (get_elem? rest) over
            ∙ get_elem?-append_right value tail (i - offset - length value)
            ∙ get_elem?-drop (offset + length value) (i - offset - length value) s
            ∙ ap (get_elem? s) place)
      ])
]
  where
    tail : List ℕ
    tail = drop (offset + length value) s

    rest : List ℕ
    rest = value ++ tail

    head : length (take offset s) ≡ offset
    head = omega (arith, length-take offset s)

-- What SETRANGE leaves at a position: the value in its range, the old bytes outside, and 0 in the
-- gap between the old end and the offset.
abbrev pub written : List ℕ → ℕ → List ℕ → ℕ → Option ℕ
written s offset value i =
    if ltb i offset
    then (if ltb i (length s) then get_elem? s i else some 0)
    else if ltb i (offset + length value)
    then get_elem? value (i - offset)
    else get_elem? s i

splice : List ℕ → ℕ → List ℕ → List ℕ
splice s offset value = copy_from_slice (resize s (offset + length value)) offset value

length-splice :
    (s : List ℕ) (offset : ℕ) (value : List ℕ)
    → length (splice s offset value) ≡ max (length s) (offset + length value)
unfolding splice
length-splice s offset value =
    let size = length-resize s (offset + length value) in
    omega (arith, size, length-copy (resize s (offset + length value)) value offset (omega arith))

splice-written :
    (s : List ℕ) (offset : ℕ) (value : List ℕ) (i : ℕ)
    → get_elem? (splice s offset value) i ≡ written s offset value i
unfolding splice
splice-written s offset value i =
    let end = offset + length value in
    let size = length-resize s end in
    ground (
      arith,
      get_elem?-copy (resize s end) value offset i (omega arith),
      get_elem?-resize s end i,
      get_elem?-resize_beyond s end i,
    )

module _ {F : Type 0} where
  -- SETRANGE of a value that is not empty, on a string that it does not make too large, leaves at
  -- each position what `written` says, at the length of the old string or up to the end of the
  -- value, and returns the new length.
  pub set_range_lem :
      (s : List ℕ) (offset : ℕ) (value : List ℕ)
      → 0 < length value
      → offset + length value ≤ max_string_size
      → (s' : List ℕ) × (set_range {F = F} offset value (string s) ≡ (ok (length s'), string s'))
        × (length s' ≡ max (length s) (offset + length value))
        × ((i : ℕ) → get_elem? s' i ≡ written s offset value i)
  unfolding set_range splice
  set_range_lem s offset [] h k = absurd (omega arith)
  set_range_lem s offset (b ∷ value) h k = (
    splice s offset (b ∷ value),
    rw (capped_add_ok offset (length (b ∷ value)) k, set_range),
    length-splice s offset (b ∷ value),
    splice-written s offset (b ∷ value),
  )

  -- SETRANGE of a value that is not empty, where it would make the string larger than the limit,
  -- fails and leaves the string as it was.
  set_range_too_large :
      (s : List ℕ) (offset : ℕ) (value : List ℕ)
      → 0 < length value
      → max_string_size < offset + length value
      → set_range {F = F} offset value (string s) ≡ (err string_too_large, string s)
  unfolding set_range
  set_range_too_large s offset [] h k = absurd (omega arith)
  set_range_too_large s offset (b ∷ value) h k =
      rw (capped_add_err offset (length (b ∷ value)) k, set_range)

  -- APPEND within the size limit adds the suffix and returns the sum of the two lengths, and past
  -- the limit fails and leaves the string as it was.
  append_lem :
      (s suffix : List ℕ)
      → append {F = F} suffix (string s) ≡ (
          if leb (length s + length suffix) max_string_size
          then (ok (length s + length suffix), string (s ++ suffix))
          else (err string_too_large, string s))
  unfolding append
  append_lem s suffix = elim (Bool-cases (leb (length s + length suffix) max_string_size)) [
    | inl e ↦
        rw (
          e,
          capped_add_ok (length s) (length suffix) (ground arith),
          append,
          length-append s suffix,
        )
    | inr e ↦ rw (e, capped_add_err (length s) (length suffix) (ground arith), append)
  ]

-- GETRANGE returns the bytes that its two indices select, in order.
get_range-select :
    (F : Type 0) (s : List ℕ) (start end : ℤ)
    → get_range {F = F} start end (string s) ≡ ok (select_from 0 (selected (length s) start end) s)
unfolding get_range
get_range-select F s start end = ap ok (slice_clamped-select s start end)
