-- ===== src/Db/Glob/Pieces.antt =====
-- What `glob_to_regex` of crates/redis-wasm-core/src/db.rs makes of a pattern, piece by piece.
use Prim.Native.Char.{Char, code}
use Prim.Native.String.{[], ◌∷◌, ◌++◌, count}
use Prim.Native.String.append
use Prim.Native.String.count
use text.Mathlib.TextLemmas.{append_assoc, length-append}
use kvasm.Common.{
  ℕ, suc, String, Bool, true, false, List, ◌&&◌, ◌||◌, ◌≡◌, ◌<◌, refl, arith, eqb, not,
}
use kvasm.Db.Glob.{class_start, class_loop}

-- A piece of a pattern.
pub data Piece : Type 0 where
  plain escaped : Char → Piece
  any_char any_chars : Piece
  one_of none_of : String → Piece

-- A pattern has the piece in front of the rest.
abbrev pub written : Piece → String → String
written (plain c) rest = c ∷ rest
written (escaped c) rest = "\\" ∷ c ∷ rest
written any_char rest = "?" ∷ rest
written any_chars rest = "*" ∷ rest
written (one_of body) rest = "[" ∷ (body ++ "]" ∷ rest)
written (none_of body) rest = "[" ∷ "^" ∷ (body ++ "]" ∷ rest)

abbrev pub pattern_of : List Piece → String
pattern_of List.[] = []
pattern_of (List.◌∷◌ p ps) = written p (pattern_of ps)

abbrev pub is_special : ℕ → Bool
is_special c = eqb c b'*' || eqb c b'?' || eqb c 92 || eqb c b'['

abbrev pub has : ℕ → String → Bool
has a [] = false
has a (c ∷ cs) = eqb (code c) a || has a cs

abbrev pub starts : ℕ → String → Bool
starts a [] = false
starts a (c ∷ cs) = eqb (code c) a

-- The piece reads back as itself: a plain character means itself, and a class ends at its own `]`.
abbrev pub well_written : Piece → Bool
well_written (plain c) = not (is_special (code c))
well_written (one_of body) = not (has b']' body) && not (starts b'^' body)
well_written (none_of body) = not (has b']' body)
well_written _ = true

abbrev pub all_well_written : List Piece → Bool
all_well_written List.[] = true
all_well_written (List.◌∷◌ p ps) = well_written p && all_well_written ps

pub nil-append : (t : String) → [] ++ t ≡ t
nil-append t i = append.nil t i

pub cons-append : (c : Char) (s t : String) → (c ∷ s) ++ t ≡ c ∷ (s ++ t)
cons-append c s t i = append.cons c s t i

pub class_loop_lem :
    (class body rest : String)
    → has b']' body ≡ false
    → class_loop class (body ++ "]" ∷ rest) ≡ (true, class ++ body ++ "]", rest)
unfolding class_loop
class_loop_lem class [] rest h = rw (nil-append ("]" ∷ rest), class_loop, nil-append "]") refl
class_loop_lem class (c ∷ body) rest h =
    let k : eqb (code c) b']' ≡ false = ground arith in
    let j : has b']' body ≡ false = ground arith in
    rw
      (
        cons-append c body ("]" ∷ rest),
        class_loop,
        k,
        class_loop_lem (class ++ c ∷ []) body rest j,
        append_assoc class (c ∷ []) (body ++ "]"),
        cons-append c [] (body ++ "]"),
        nil-append (body ++ "]"),
        cons-append c body "]",
      )
      refl

pub class_start_lem :
    (body rest : String)
    → starts b'^' body ≡ false
    → class_start (body ++ "]" ∷ rest) ≡ ("[", body ++ "]" ∷ rest)
unfolding class_start
class_start_lem [] rest h = rw (nil-append ("]" ∷ rest)) refl
class_start_lem (c ∷ body) rest h = rw (cons-append c body ("]" ∷ rest), class_start, h) refl

pub negated_start_lem : (rest : String) → class_start ("^" ∷ rest) ≡ ("[^", rest)
unfolding class_start
negated_start_lem rest = refl

-- `regex::escape` works character by character.
pub record EscapeLaws (escape : String → String) : Type 0 where
  pub nothing : escape [] ≡ []
  pub append : (s t : String) → escape (s ++ t) ≡ escape s ++ escape t

-- The regular expression of a piece, by itself.
abbrev pub regex_of_piece : (String → String) → Piece → String
regex_of_piece escape (plain c) = escape (c ∷ [])
regex_of_piece escape (escaped c) = escape (c ∷ [])
regex_of_piece escape any_char = "."
regex_of_piece escape any_chars = ".*"
regex_of_piece escape (one_of body) = "[" ++ body ++ "]"
regex_of_piece escape (none_of body) = "[^" ++ body ++ "]"

abbrev pub regex_of : (String → String) → List Piece → String
regex_of escape List.[] = []
regex_of escape (List.◌∷◌ p ps) = regex_of_piece escape p ++ regex_of escape ps

count-cons : (c : Char) (s : String) → count (c ∷ s) ≡ suc (count s)
count-cons c s i = count.cons c s i

count-class :
    (body rest : String)
    → (count rest < count ("[" ∷ (body ++ "]" ∷ rest)))
      × (count rest < count ("[" ∷ "^" ∷ (body ++ "]" ∷ rest)))
count-class body rest = ground (
  arith,
  count-cons "[" (body ++ "]" ∷ rest),
  length-append body ("]" ∷ rest),
  count-cons "]" rest,
  count-cons "[" ("^" ∷ (body ++ "]" ∷ rest)),
  count-cons "^" (body ++ "]" ∷ rest),
)

pub count-written : (p : Piece) (rest : String) → count rest < count (written p rest)
count-written (plain c) rest = ground (arith, count-cons c rest)
count-written (escaped c) rest = ground (arith, count-cons "\\" (c ∷ rest), count-cons c rest)
count-written any_char rest = ground (arith, count-cons "?" rest)
count-written any_chars rest = ground (arith, count-cons "*" rest)
count-written (one_of body) rest = (count-class body rest).0
count-written (none_of body) rest = (count-class body rest).1
