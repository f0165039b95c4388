-- ===== src/Value/Lists.antt =====
-- The list operations of `Value` in crates/redis-wasm-core/src/types/mod.rs.
pub mod Laws
pub mod Remove
use kvasm.Common.{
  ℕ, zero, suc, ◌+◌, ◌-◌, String, Bool, true, false, Option, none, some, List, [], ◌∷◌, ◌++◌,
  Result, ok, err, ltb, eqb, ◌==◌, ◌&&◌, ◌||◌, not, if◌then◌else◌, take, drop, set, length,
  get_elem?, min, reverse,
}
use kvasm.Common.Int.{ℤ, pos, negsuc, ◌+ℤ◌, ltb_ℤ, leb_ℤ, to_ℕ, neg_part}
use kvasm.Value.{Value, TypeError, Read, Write, list, wrong_type, index_out_of_range}
use kvasm.Value.Range.{clamp_range, slice_clamped}

-- `for v in values { list.push_front(v.clone()); }`
unfoldable pub push_front_all : List String → List String → List String
push_front_all [] l = l
push_front_all (v ∷ vs) l = push_front_all vs (v ∷ l)

-- `for v in values { list.push_back(v.clone()); }`
unfoldable pub push_back_all : List String → List String → List String
push_back_all [] l = l
push_back_all (v ∷ vs) l = push_back_all vs (l ++ v ∷ [])

-- `VecDeque::pop_front` and `VecDeque::pop_back`
unfoldable pub pop_front : List String → Option (String × List String)
pop_front [] = none
pop_front (x ∷ l) = some (x, l)

unfoldable pub pop_back : List String → Option (String × List String)
pop_back [] = none
pop_back (x ∷ l) = elim (pop_back l) [ none ↦ some (x, []) | some (y, r) ↦ some (y, x ∷ r) ]

-- The loop of `lpop` and of `rpop` over `rounds`: what is popped is pushed on `result`.
unfoldable pub pop_loop :
    (List String → Option (String × List String))
    → ℕ
    → List String
    → List String
    → List String × List String
pop_loop pop zero result l = (result, l)
pop_loop pop (suc rounds) result l = elim (pop l) [
  | none ↦ pop_loop pop rounds result l
  | some (v, l') ↦ pop_loop pop rounds (result ++ v ∷ []) l'
]

-- `let idx = if index < 0 { len + index } else { index }`
unfoldable pub resolve_index : ℕ → ℤ → ℤ
unfolding ◌+ℤ◌
resolve_index len index = if ltb_ℤ index (pos 0) then pos len +ℤ index else index

-- The closure of `retain` in `lrem` with a positive count, with its counter `removed`.
unfoldable pub retain_head : ℕ → String → ℕ → List String → List String × ℕ
retain_head count value removed [] = ([], removed)
retain_head count value removed (v ∷ l) =
    let hit = ltb removed count && v == value in
    let (kept, removed') = retain_head count value (if hit then suc removed else removed) l in
    (if hit then kept else v ∷ kept, removed')

-- The loop of `lrem` with a negative count over `list.iter().rev().enumerate()`: `pushed` is
-- `indices.len()`, and `len` the length of the list.
unfoldable pub tail_indices : ℕ → String → ℕ → ℕ → ℕ → List String → List ℕ
tail_indices count value len i pushed [] = []
tail_indices count value len i pushed (v ∷ l) =
    let rest = tail_indices count value len (suc i) (suc pushed) l in
    let skip = tail_indices count value len (suc i) pushed l in
    if v == value then (len - 1 - i) ∷ (if eqb (suc pushed) count then [] else rest) else skip

-- `VecDeque::remove` at an index
unfoldable pub remove_at : ℕ → List String → List String
remove_at i [] = []
remove_at zero (x ∷ l) = l
remove_at (suc i) (x ∷ l) = x ∷ remove_at i l

-- `for &idx in &indices { list.remove(idx); removed += 1; }`
unfoldable pub remove_indices : List ℕ → ℕ → List String → List String × ℕ
remove_indices [] removed l = (l, removed)
remove_indices (i ∷ is) removed l = remove_indices is (suc removed) (remove_at i l)

-- `list.retain(|v| v != value)`
unfoldable pub retain_ne : String → List String → List String
retain_ne value [] = []
retain_ne value (v ∷ l) = let rest = retain_ne value l in if v == value then rest else v ∷ rest

-- The body of `lrem` on the list: the list that is left, and `removed`. For a negative count it takes
-- `(-count) as usize`, which is the absolute value for every `isize` where the negation wraps, as it
-- does in a release build; a debug build panics at the least `isize`.
unfoldable pub lrem_list : ℤ → String → List String → List String × ℕ
lrem_list (pos (suc count)) value l = retain_head (suc count) value 0 l
lrem_list (negsuc count) value l =
    remove_indices (tail_indices (suc count) value (length l) 0 0 (reverse l)) 0 l
lrem_list (pos zero) value l = (retain_ne value l, length l - length (retain_ne value l))

-- `list.truncate(end); list.drain(..start);`, or `list.clear()`
unfoldable pub trim : List String → Option (ℕ × ℕ) → List String
trim l none = []
trim l (some (start, end)) = drop start (take end l)

module _ {F : Type 0} where
  unfoldable pub lpush : List String → Write F ℕ
  lpush values (list l) = let l' = push_front_all values l in (ok (length l'), list l')
  lpush values v = (err wrong_type, v)

  unfoldable pub rpush : List String → Write F ℕ
  rpush values (list l) = let l' = push_back_all values l in (ok (length l'), list l')
  rpush values v = (err wrong_type, v)

  unfoldable pub lpop : ℕ → Write F (List String)
  lpop count (list l) =
      let (result, l') = pop_loop pop_front (min count (length l)) [] l in (ok result, list l')
  lpop count v = (err wrong_type, v)

  unfoldable pub rpop : ℕ → Write F (List String)
  rpop count (list l) =
      let (result, l') = pop_loop pop_back (min count (length l)) [] l in (ok result, list l')
  rpop count v = (err wrong_type, v)

  unfoldable pub lrange : ℤ → ℤ → Read F (List String)
  lrange start stop (list l) = ok (slice_clamped l (clamp_range (length l) start stop))
  lrange start stop _ = err wrong_type

  unfoldable pub llen : Read F ℕ
  llen (list l) = ok (length l)
  llen _ = err wrong_type

  unfoldable pub lindex : ℤ → Read F (Option String)
  unfolding resolve_index
  lindex index (list l) =
      let idx = resolve_index (length l) index in
      if ltb_ℤ idx (pos 0) || leb_ℤ (pos (length l)) idx
      then ok none
      else ok (get_elem? l (to_ℕ idx))
  lindex index _ = err wrong_type

  unfoldable pub lset : ℤ → String → Write F Unit
  unfolding resolve_index
  lset index value (list l) =
      let idx = resolve_index (length l) index in
      if ltb_ℤ idx (pos 0) || leb_ℤ (pos (length l)) idx
      then (err index_out_of_range, list l)
      else (ok tt, list (set l (to_ℕ idx) value))
  lset index value v = (err wrong_type, v)

  unfoldable pub lrem : ℤ → String → Write F ℕ
  lrem count value (list l) = let (l', removed) = lrem_list count value l in (ok removed, list l')
  lrem count value v = (err wrong_type, v)

  unfoldable pub ltrim : ℤ → ℤ → Write F Unit
  ltrim start stop (list l) = (ok tt, list (trim l (clamp_range (length l) start stop)))
  ltrim start stop v = (err wrong_type, v)
