-- ===== src/Common/Order.antt =====
-- The order of Rust's `String` is that of the code points; the facts that a sorted set needs.
use Prim.Native.Nat.{Ordering}
use text.Mathlib.Text.{◌==◌}
use text.Mathlib.TextPositions.{compare_refl, eq_refl}
use text.Mathlib.TextEquality.{codes_equal, eq_iff}
use Prim.Native.String.compare
use Prim.Native.String.{String, [], ◌∷◌, compare}
use mathlib.Core.Path.{◌≡◌}
use mathlib.Core.Bool.{Bool, true, false}
use native.Mathlib.Omega.{arith}

-- `a < b` on strings
abbrev pub str_lt : String → String → Bool
str_lt a b = elim (compare a b) [ Ordering.lt ↦ true | _ ↦ false ]

pub str_lt_trans : (a b c : String) → str_lt a b ≡ true → str_lt b c ≡ true → str_lt a c ≡ true
str_lt_trans [] [] c h k = k
str_lt_trans [] (y ∷ b) [] h k = ground (arith, compare.cons-nil y b)
str_lt_trans [] (y ∷ b) (z ∷ c) h k = ground (arith, compare.nil-cons z c)
str_lt_trans (x ∷ a) [] c h k = ground (arith, compare.cons-nil x a)
str_lt_trans (x ∷ a) (y ∷ b) [] h k = ground (arith, compare.cons-nil y b)
str_lt_trans (x ∷ a) (y ∷ b) (z ∷ c) h k = ground (
  arith,
  compare.cons-cons x y a b,
  compare.cons-cons y z b c,
  compare.cons-cons x z a c,
  str_lt_trans a b c,
)

-- Of two strings one is smaller, or they are equal.
pub str_lt_total : (a b : String) → str_lt a b ≡ false → (a == b) ≡ false → str_lt b a ≡ true
str_lt_total [] [] h k = ground (arith, eq_refl "")
str_lt_total [] (y ∷ b) h k = ground (arith, compare.nil-cons y b)
str_lt_total (x ∷ a) [] h k = ground (arith, compare.nil-cons x a)
str_lt_total (x ∷ a) (y ∷ b) h k = ground (
  arith,
  compare.cons-cons x y a b,
  compare.cons-cons y x b a,
  str_lt_total a b,
  eq_iff a b,
  eq_iff (x ∷ a) (y ∷ b),
  codes_equal x y,
)

pub str_lt_irrefl : (a : String) → str_lt a a ≡ false
str_lt_irrefl a = ground (arith, compare_refl a)
