-- ===== src/Db/Strings/RoundTrip.antt =====
-- The decimal text that the increments of crates/redis-wasm-core/src/db.rs write, read again.
use kvasm.Common.{
  ℕ, zero, suc, ◌+◌, ◌-◌, ◌*◌, ◌/◌, ◌%◌, ◌^◌, ◌<◌, ◌≡◌, refl, ap, ◌∙◌, Bool, true, false, ◌&&◌,
  none, some, ok, err, List, [], ◌∷◌, leb, ltb, if◌then◌else◌, arith, Bool-cases, inl, inr,
}
use kvasm.Common.Int.{ℤ, pos, negsuc, ◌+ℤ◌}
use kvasm.Value.{string}
use kvasm.Db.{not_an_integer}
use kvasm.Db.Strings.{incr_value}
use kvasm.Db.Strings.Number.{
  parse_digits, parse_magnitude, parse_i64, checked, digits, i64_bytes, in_i64,
}

starts_digit : List ℕ → Bool
starts_digit [] = false
starts_digit (c ∷ cs) = leb 48 c && leb c 57

digits-starts_digit :
    (fuel n : ℕ) (acc : List ℕ) → starts_digit acc ≡ true → starts_digit (digits fuel n acc) ≡ true
unfolding starts_digit digits
digits-starts_digit zero n acc h = h
digits-starts_digit (suc fuel) n acc h =
    ground (arith, digits-starts_digit fuel (n / 10) ((48 + n % 10) ∷ acc))

all_digits : (n : ℕ) → starts_digit (digits 20 n []) ≡ true
unfolding starts_digit digits
all_digits n = ground (arith, digits-starts_digit 19 (n / 10) ((48 + n % 10) ∷ []))

one_digit :
    (n : ℕ) (acc : List ℕ) → n < 10 → parse_digits 0 ((48 + n % 10) ∷ acc) ≡ parse_digits n acc
unfolding parse_digits
one_digit n acc h =
    let digit : 0 * 10 + ((48 + n % 10) - 48) ≡ n = omega arith in rw digit (ground arith)

next_digit :
    (n : ℕ) (acc : List ℕ) → parse_digits (n / 10) ((48 + n % 10) ∷ acc) ≡ parse_digits n acc
unfolding parse_digits
next_digit n acc =
    let digit : (n / 10) * 10 + ((48 + n % 10) - 48) ≡ n = omega arith in rw digit (ground arith)

parse_digits-digits :
    (fuel n : ℕ) (acc : List ℕ)
    → n < 10 ^ fuel
    → parse_digits 0 (digits fuel n acc) ≡ parse_digits n acc
unfolding parse_digits digits
parse_digits-digits zero n acc h = ap (λ k. parse_digits k acc) (omega arith)
parse_digits-digits (suc fuel) n acc h = elim (Bool-cases (ltb n 10)) [
  | inl e ↦ rw e (one_digit n acc (ground arith))
  | inr e ↦
      let shorter : n / 10 < 10 ^ fuel = omega arith in
      rw e (parse_digits-digits fuel (n / 10) ((48 + n % 10) ∷ acc) shorter ∙ next_digit n acc)
]

parse_magnitude-digit :
    (bs : List ℕ) → starts_digit bs ≡ true → parse_magnitude bs ≡ parse_digits 0 bs
unfolding starts_digit parse_magnitude
parse_magnitude-digit [] h = cc
parse_magnitude-digit (b ∷ bs) h = refl

parse_magnitude-digits : (n : ℕ) → n < 10 ^ 20 → parse_magnitude (digits 20 n []) ≡ some n
unfolding parse_digits
parse_magnitude-digits n h =
    parse_magnitude-digit (digits 20 n []) (all_digits n) ∙ parse_digits-digits 20 n [] h

parse_i64-digit :
    (bs : List ℕ)
    → starts_digit bs ≡ true
    → parse_i64 bs ≡ elim (parse_magnitude bs) [ none ↦ none | some n ↦ checked (pos n) ]
unfolding starts_digit parse_i64
parse_i64-digit [] h = cc
parse_i64-digit (b ∷ bs) h = ground arith

-- The text that the increments write for an integer in the range of `i64` reads back as that
-- integer.
parse_i64-i64_bytes : (n : ℤ) → in_i64 n ≡ true → parse_i64 (i64_bytes n) ≡ some n
unfolding i64_bytes in_i64 checked parse_i64
parse_i64-i64_bytes (pos n) h =
    parse_i64-digit (digits 20 n []) (all_digits n)
    ∙ rw (parse_magnitude-digits n (ground arith), h) refl
parse_i64-i64_bytes (negsuc n) h = rw (parse_magnitude-digits (suc n) (ground arith), h) refl

incr_value-parse_i64 :
    {F : Type 0} (s : List ℕ) (n delta : ℤ)
    → parse_i64 s ≡ some n
    → incr_value {F = F} delta (string s) ≡ (
        if in_i64 (n +ℤ delta)
        then (ok (n +ℤ delta), string (i64_bytes (n +ℤ delta)))
        else (err not_an_integer, string s))
unfolding incr_value
incr_value-parse_i64 [] n delta h = absurd (nothing h)
  where
    nothing : {n : ℤ} → parse_i64 [] ≡ some n → ⊥
    nothing e = cc
incr_value-parse_i64 (b ∷ bs) n delta h = rw (h, incr_value) refl

-- INCRBY of the text of an integer in the range of `i64` writes the text of the sum and returns it
-- if the sum is in the range, and otherwise fails and leaves the text.
pub incr_value-i64_bytes :
    {F : Type 0} (n delta : ℤ)
    → in_i64 n ≡ true
    → incr_value {F = F} delta (string (i64_bytes n)) ≡ (
        if in_i64 (n +ℤ delta)
        then (ok (n +ℤ delta), string (i64_bytes (n +ℤ delta)))
        else (err not_an_integer, string (i64_bytes n)))
incr_value-i64_bytes n delta h =
    incr_value-parse_i64 (i64_bytes n) n delta (parse_i64-i64_bytes n h)
