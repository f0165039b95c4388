-- ===== src/Db/Glob.antt =====
-- KEYS of crates/redis-wasm-core/src/db.rs: `glob_to_regex` and the loop of `keys`. The regex crate
-- is a parameter.
pub mod Pieces
pub mod Translation
pub mod Live
use Prim.Native.Char.{Char, code}
use Prim.Native.String.{[], ◌∷◌, ◌++◌, count}
use kvasm.Common.{
  ℕ, zero, suc, String, Bool, true, false, List, ◌&&◌, Result, ok, err, map_err, eqb, not,
  if◌then◌else◌,
}
use kvasm.HashMap.{HashMap}
use kvasm.Value.{Value}
use kvasm.Db.{Db, DbError, invalid_pattern, expired}

-- `regex::escape`, `Regex::new` with its error as a text, `is_match`
pub record RegexCrate (R : Type 0) : Type 0 where
  pub escape : String → String
  pub compile : String → Result String R
  pub is_match : R → String → Bool

-- The local variables of `glob_to_regex`: what is left of `chars`, `literal` and `out`.
pub record Glob : Type 0 where
  pub chars : String
  pub literal : String
  pub out : String

-- The class that `[` opens, up to its `^`, and the characters after it.
unfoldable pub class_start : String → String × String
class_start [] = ("[", [])
class_start (c ∷ cs) = if eqb (code c) b'^' then ("[^", cs) else ("[", c ∷ cs)

-- The inner loop: whether the class was closed, the class, and the characters after it.
unfoldable pub class_loop : String → String → Bool × String × String
class_loop class [] = (false, class, [])
class_loop class (cc ∷ cs) =
    let class' = class ++ cc ∷ [] in
    let rest = class_loop class' cs in if eqb (code cc) b']' then (true, class', cs) else rest

module _ (escape : String → String) where
  unfoldable pub flush : Glob → Glob
  flush g = elim g.literal [
    | [] ↦ g
    | _ ∷ _ ↦ record g { literal = []; out = g.out ++ escape g.literal }
  ]

  -- `out.push_str` behind a `flush`
  unfoldable pub flush_then : String → Glob → Glob
  unfolding flush
  flush_then s g = let g' = flush g in record g' { out = g'.out ++ s }

  -- The branch of `[`.
  unfoldable pub open_class : Glob → Glob
  unfolding flush_then class_start class_loop
  open_class g =
      let (opened, cs) = class_start g.chars in
      let (closed, class, rest) = class_loop opened cs in
      let g' = record g { chars = rest } in
      if closed then flush_then class g' else record g' { literal = g.literal ++ class }

  -- The body of the loop, on the character that `chars.next()` gave.
  unfoldable pub glob_char : Char → Glob → Glob
  unfolding flush_then open_class
  glob_char c g =
      if eqb (code c) b'*'
      then flush_then ".*" g
      else if eqb (code c) b'?'
      then flush_then "." g
      else if eqb (code c) 92
      then elim g.chars [
        | [] ↦ g
        | next ∷ rest ↦ record g { chars = rest; literal = g.literal ++ next ∷ [] }
      ]
      else if eqb (code c) b'['
      then open_class g
      else record g { literal = g.literal ++ c ∷ [] }

  -- The loop, on fuel: each turn takes a character at least.
  unfoldable pub glob_loop : ℕ → Glob → Glob
  unfolding glob_char
  glob_loop zero g = g
  glob_loop (suc fuel) g = elim g.chars [
    | [] ↦ g
    | c ∷ cs ↦ glob_loop fuel (glob_char c (record g { chars = cs }))
  ]

  unfoldable pub glob_to_regex : String → String
  unfolding glob_loop flush
  glob_to_regex pattern =
      (flush (glob_loop (count pattern) (record { chars = pattern; literal = []; out = [] }))).out

module _ {F W R : Type 0} (regex : RegexCrate R) where
  -- The loop of `keys`.
  unfoldable pub keys_loop : R → Db F W → HashMap (Value F) → List String
  unfolding expired
  keys_loop r db List.[] = List.[]
  keys_loop r db (List.◌∷◌ (key, _) entries) =
      let result = keys_loop r db entries in
      if not (expired key db) && regex.is_match r key then List.◌∷◌ key result else result

  unfoldable pub keys : String → Db F W → Result DbError (List String)
  unfolding glob_to_regex keys_loop
  keys pattern db = elim (regex.compile ("^" ++ glob_to_regex regex.escape pattern ++ "$")) [
    | ok r ↦ ok (keys_loop r db db.data_map)
    | err e ↦ err (invalid_pattern e)
  ]
