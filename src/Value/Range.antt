-- ===== src/Value/Range.antt =====
-- `clamp_range` of crates/redis-wasm-core/src/types/mod.rs, and the slices that are cut by it. An
-- `isize` is an integer: no sum of a length and a negative index leaves the range of `isize`.
pub mod Laws
use kvasm.Common.{
  ℕ, ◌+◌, ◌-◌, Bool, Option, none, some, List, [], ◌||◌, ltb, leb, eqb, if◌then◌else◌, take, drop,
}
use kvasm.Common.Int.{ℤ, pos, negsuc, ◌+ℤ◌, ltb_ℤ, leb_ℤ, min_ℤ, max_ℤ, to_ℕ}

-- `let start = ...` and `let stop = ...`, at a length that is not 0
unfoldable pub clamp_start : ℕ → ℤ → ℤ
unfolding ◌+ℤ◌ min_ℤ max_ℤ
clamp_start len start =
    if ltb_ℤ start (pos 0) then max_ℤ (pos len +ℤ start) (pos 0) else min_ℤ start (pos len)

unfoldable pub clamp_stop : ℕ → ℤ → ℤ
unfolding ◌+ℤ◌ min_ℤ max_ℤ
clamp_stop len stop =
    if ltb_ℤ stop (pos 0)
    then max_ℤ (pos len +ℤ stop) (negsuc 0)
    else min_ℤ stop (pos len +ℤ negsuc 0)

-- `None` when the range is empty
unfoldable pub clamp_range : ℕ → ℤ → ℤ → Option (ℕ × ℕ)
clamp_range len start stop =
    if eqb len 0
    then none
    else let start' = clamp_start len start in
      let stop' = clamp_stop len stop in
      if ltb_ℤ stop' start' || leb_ℤ (pos len) start'
      then none
      else some (to_ℕ start', to_ℕ stop' + 1)

-- `s[start..end]`
abbrev pub slice {ℓ} : {A : Type ℓ} → ℕ → ℕ → List A → List A
slice start end xs = take (end - start) (drop start xs)

-- `let Some((start, end)) = clamp_range(..) else { return Ok(Vec::new()) }`, then the slice
unfoldable pub slice_clamped {ℓ} : {A : Type ℓ} → List A → Option (ℕ × ℕ) → List A
slice_clamped xs none = []
slice_clamped xs (some (start, end)) = slice start end xs
