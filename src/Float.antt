-- ===== src/Float.antt =====
-- `f64` and the ordered_float crate, which the repository only uses: a type of floats with the
-- operations that the source calls, taken as a parameter of everything that keeps scores.
use kvasm.Common.{ℕ, Bool, String, Option, List}

-- `OrderedFloat` orders every value, NaN last, and calls 0.0 and -0.0 equal: `position` is the
-- place of a value in that order, so equal places are what `==` of `OrderedFloat` calls equal.
pub record Float64 (F : Type 0) : Type 0 where
  pub position : F → ℕ
  -- `a <= b` of `f64`
  pub le : F → F → Bool
  -- `0.0`, `a + b`, `v.is_finite()`
  pub zero : F
  pub plus : F → F → F
  pub is_finite : F → Bool
  -- `v.to_string()`, as text and as bytes
  pub to_string : F → String
  pub to_bytes : F → List ℕ
  -- `std::str::from_utf8(bytes).ok().and_then(|s| s.parse().ok())`
  pub parse : List ℕ → Option F
