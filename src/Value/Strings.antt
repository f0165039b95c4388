-- ===== src/Value/Strings.antt =====
-- The string operations of `Value` in crates/redis-wasm-core/src/types/mod.rs.
pub mod Laws
use kvasm.Common.{
  ℕ, ◌+◌, ◌-◌, ◌*◌, ◌^◌, Option, none, some, List, [], ◌∷◌, ◌++◌, Result, ok, err, ok_or, ltb, leb,
  if◌then◌else◌, take, drop, replicate, length, map_err,
}
use kvasm.Common.Int.{ℤ}
use kvasm.Value.{Value, TypeError, Read, Write, string, wrong_type, string_too_large, as_bytes}
use kvasm.Value.Range.{clamp_range, slice_clamped}

-- `MAX_STRING_SIZE`
abbrev pub max_string_size : ℕ
max_string_size = 512 * 1024 * 1024

-- The `usize` of wasm32, for which the repository builds.
abbrev pub usize_limit : ℕ
usize_limit = 2 ^ 32

-- `usize::checked_add`
unfoldable pub checked_add : ℕ → ℕ → Option ℕ
checked_add a b = if ltb (a + b) usize_limit then some (a + b) else none

-- `.checked_add(..).filter(|&len| len <= MAX_STRING_SIZE).ok_or(TypeError::StringTooLarge)`
unfoldable pub capped_add : ℕ → ℕ → Result TypeError ℕ
unfolding checked_add
capped_add a b = elim (checked_add a b) [
  | none ↦ err string_too_large
  | some len ↦ if leb len max_string_size then ok len else err string_too_large
]

-- `s.resize(end, 0)` where it grows the vector
unfoldable pub resize : List ℕ → ℕ → List ℕ
resize s end = if ltb (length s) end then s ++ replicate (end - length s) 0 else s

-- `s[offset..end].copy_from_slice(value)`, with `end` the offset and the length of the value
unfoldable pub copy_from_slice : List ℕ → ℕ → List ℕ → List ℕ
copy_from_slice s offset value = take offset s ++ (value ++ drop (offset + length value) s)

module _ {F : Type 0} where
  unfoldable pub append : List ℕ → Write F ℕ
  append suffix (string s) = elim (capped_add (length s) (length suffix)) [
    | err e ↦ (err e, string s)
    | ok _ ↦ (ok (length (s ++ suffix)), string (s ++ suffix))
  ]
  append suffix v = (err wrong_type, v)

  unfoldable pub get_range : ℤ → ℤ → Read F (List ℕ)
  get_range start end (string s) = ok (slice_clamped s (clamp_range (length s) start end))
  get_range start end _ = err wrong_type

  unfoldable pub set_range : ℕ → List ℕ → Write F ℕ
  set_range offset [] (string s) = (ok (length s), string s)
  set_range offset (b ∷ value) (string s) = elim (capped_add offset (length (b ∷ value))) [
    | err e ↦ (err e, string s)
    | ok end ↦
        let s' = copy_from_slice (resize s end) offset (b ∷ value) in (ok (length s'), string s')
  ]
  set_range offset value v = (err wrong_type, v)

  unfoldable pub str_len : Read F ℕ
  str_len (string s) = ok (length s)
  str_len _ = err wrong_type
