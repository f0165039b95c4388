-- ===== src/Db/Strings/Number.antt =====
-- `str::parse::<i64>` and `i64::to_string` of the standard library, on bytes.
use kvasm.Common.{
  ℕ, zero, suc, ◌+◌, ◌-◌, ◌*◌, ◌/◌, ◌%◌, ◌^◌, Bool, Option, none, some, List, [], ◌∷◌, ◌&&◌, ltb,
  leb, eqb, if◌then◌else◌,
}
use kvasm.Common.Int.{ℤ, pos, negsuc}

-- The range of `i64`.
unfoldable pub in_i64 : ℤ → Bool
in_i64 (pos n) = ltb n (2 ^ 63)
in_i64 (negsuc n) = ltb n (2 ^ 63)

-- A run of digits, at least one after those that `acc` stands for.
unfoldable pub parse_digits : ℕ → List ℕ → Option ℕ
parse_digits acc [] = some acc
parse_digits acc (b ∷ bs) =
    let rest = parse_digits (acc * 10 + (b - 48)) bs in if leb 48 b && leb b 57 then rest else none

unfoldable pub parse_magnitude : List ℕ → Option ℕ
unfolding parse_digits
parse_magnitude [] = none
parse_magnitude (b ∷ bs) = parse_digits 0 (b ∷ bs)

unfoldable pub checked : ℤ → Option ℤ
unfolding in_i64
checked n = if in_i64 n then some n else none

abbrev pub negate : ℕ → ℤ
negate zero = pos 0
negate (suc n) = negsuc n

-- A sign, then digits; `None` also for what is not in the range.
unfoldable pub parse_i64 : List ℕ → Option ℤ
unfolding parse_magnitude checked
parse_i64 [] = none
parse_i64 (b ∷ bs) =
    if eqb b b'-'
    then elim (parse_magnitude bs) [ none ↦ none | some n ↦ checked (negate n) ]
    else if eqb b b'+'
    then elim (parse_magnitude bs) [ none ↦ none | some n ↦ checked (pos n) ]
    else elim (parse_magnitude (b ∷ bs)) [ none ↦ none | some n ↦ checked (pos n) ]

-- The decimal digits in front of `acc`; a number below 10 ^ fuel needs no more than `fuel`.
unfoldable pub digits : ℕ → ℕ → List ℕ → List ℕ
digits zero n acc = acc
digits (suc fuel) n acc =
    let acc' = (48 + n % 10) ∷ acc in
    let rest = digits fuel (n / 10) acc' in if ltb n 10 then acc' else rest

-- `new_value.to_string().into_bytes()`
unfoldable pub i64_bytes : ℤ → List ℕ
unfolding digits
i64_bytes (pos n) = digits 20 n []
i64_bytes (negsuc n) = b'-' ∷ digits 20 (suc n) []
