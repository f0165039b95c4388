-- ===== src/Db/Glob/Translation.antt =====
-- `glob_to_regex` of crates/redis-wasm-core/src/db.rs, on a pattern that was put together from pieces.
use Prim.Native.Char.{Char, code}
use Prim.Native.String.{[], ◌∷◌, ◌++◌, count}
use text.Mathlib.TextLemmas.{append-nil, append_assoc}
use kvasm.Common.{ℕ, zero, suc, String, true, false, List, ◌≡◌, ◌≤◌, refl, ap, arith, ◌∙◌}
use kvasm.Db.Glob.{
  Glob, class_start, flush, flush_then, open_class, glob_char, glob_loop, glob_to_regex,
}
use kvasm.Db.Glob.Pieces.{
  Piece, plain, escaped, any_char, any_chars, one_of, none_of, written, pattern_of, is_special, has,
  starts, well_written, all_well_written, nil-append, class_loop_lem, class_start_lem,
  negated_start_lem, count-written, EscapeLaws, regex_of_piece, regex_of,
}

module _ (escape : String → String) (laws : EscapeLaws escape) where
  flush_lem :
      (cs literal out : String)
      → (flush escape (record { chars = cs; literal = literal; out = out })).out
        ≡ out ++ escape literal
  unfolding flush
  flush_lem cs [] out = rw (laws.nothing, append-nil out) refl
  flush_lem cs (_ ∷ _) out = refl

  flush_then_lem :
      (s cs literal out : String)
      → flush_then escape s (record { chars = cs; literal = literal; out = out })
        ≡ record { chars = cs; literal = []; out = out ++ escape literal ++ s }
  unfolding flush_then flush
  flush_then_lem s cs [] out = rw (laws.nothing, nil-append s) refl
  flush_then_lem s cs (c ∷ l) out = rw (append_assoc out (escape (c ∷ l)) s) refl

  plain_lem :
      (c : Char) (g : Glob)
      → is_special (code c) ≡ false
      → glob_char escape c g ≡ record g { literal = g.literal ++ c ∷ [] }
  unfolding glob_char
  plain_lem c g h = ground arith

  open_class_lem :
      (cs opened body rest literal out : String)
      → class_start cs ≡ (opened, body ++ "]" ∷ rest)
      → has b']' body ≡ false
      → open_class escape (record { chars = cs; literal = literal; out = out }) ≡ record {
        chars = rest;
        literal = [];
        out = out ++ escape literal ++ opened ++ body ++ "]";
      }
  unfolding open_class
  open_class_lem cs opened body rest literal out e h =
      rw
        (
          e,
          open_class,
          class_loop_lem opened body rest h,
          flush_then_lem (opened ++ body ++ "]") rest literal out,
        )
        refl

  -- What the loop has made in the end, with a text in front of it.
  abbrev made : ℕ → String → String → String → String
  made fuel cs literal out =
      (flush escape
        (glob_loop escape fuel (record { chars = cs; literal = literal; out = out }))).out

  push_lem :
      (c : Char) (literal out more : String)
      → out ++ escape (literal ++ c ∷ []) ++ more ≡ out ++ escape literal ++ escape (c ∷ []) ++ more
  push_lem c literal out more =
      rw (laws.append literal (c ∷ []), append_assoc (escape literal) (escape (c ∷ [])) more) refl

  flushed_lem :
      (s literal out more : String)
      → (out ++ escape literal ++ s) ++ escape [] ++ more ≡ out ++ escape literal ++ s ++ more
  flushed_lem s literal out more =
      rw
        (
          laws.nothing,
          nil-append more,
          append_assoc out (escape literal ++ s) more,
          append_assoc (escape literal) s more,
        )
        refl

  module _ (fuel : ℕ) (rest more : String)
      (ih : (literal out : String)
        → made fuel rest literal out ≡ out ++ escape literal ++ more) where
    emit_lem :
        (s literal out : String) (g : Glob)
        → g ≡ record { chars = rest; literal = []; out = out ++ escape literal ++ s }
        → (flush escape (glob_loop escape fuel g)).out ≡ out ++ escape literal ++ s ++ more
    emit_lem s literal out g turn =
        ap (λ g. (flush escape (glob_loop escape fuel g)).out) turn
        ∙ ih [] (out ++ escape literal ++ s)
        ∙ flushed_lem s literal out more

    -- A turn of the loop adds the regular expression of a piece.
    piece_lem :
        (p : Piece) (literal out : String)
        → well_written p ≡ true
        → made (suc fuel) (written p rest) literal out
          ≡ out ++ escape literal ++ regex_of_piece escape p ++ more
    unfolding glob_loop glob_char
    piece_lem (plain c) literal out w =
        let k : is_special (code c) ≡ false = ground arith in
        let turn = plain_lem c (record { chars = rest; literal = literal; out = out }) k in
        ap (λ g. (flush escape (glob_loop escape fuel g)).out) turn
        ∙ ih (literal ++ c ∷ []) out
        ∙ push_lem c literal out more
    piece_lem (escaped c) literal out w = ih (literal ++ c ∷ []) out ∙ push_lem c literal out more
    piece_lem any_char literal out w =
        emit_lem "." literal out _ (flush_then_lem "." rest literal out)
    piece_lem any_chars literal out w =
        emit_lem ".*" literal out _ (flush_then_lem ".*" rest literal out)
    piece_lem (one_of body) literal out w =
        let j : starts b'^' body ≡ false = ground arith in
        let k : has b']' body ≡ false = ground arith in
        let start = class_start_lem body rest j in
        emit_lem ("[" ++ body ++ "]") literal out _
          (open_class_lem (body ++ "]" ∷ rest) "[" body rest literal out start k)
    piece_lem (none_of body) literal out w =
        let k : has b']' body ≡ false = ground arith in
        let start = negated_start_lem (body ++ "]" ∷ rest) in
        emit_lem ("[^" ++ body ++ "]") literal out _
          (open_class_lem ("^" ∷ (body ++ "]" ∷ rest)) "[^" body rest literal out start k)

  glob_loop_lem :
      (ps : List Piece) (fuel : ℕ) (literal out : String)
      → all_well_written ps ≡ true
      → count (pattern_of ps) ≤ fuel
      → made fuel (pattern_of ps) literal out ≡ out ++ escape literal ++ regex_of escape ps
  unfolding glob_loop
  glob_loop_lem List.[] zero literal out w h =
      rw (flush_lem [] literal out, append-nil (escape literal)) refl
  glob_loop_lem List.[] (suc fuel) literal out w h =
      rw (flush_lem [] literal out, append-nil (escape literal)) refl
  glob_loop_lem (List.◌∷◌ p ps) zero literal out w h =
      absurd (ground (arith, count-written p (pattern_of ps)))
  glob_loop_lem (List.◌∷◌ p ps) (suc fuel) literal out w h =
      let v : well_written p ≡ true = ground arith in
      let w' : all_well_written ps ≡ true = ground arith in
      let h' : count (pattern_of ps) ≤ fuel = ground (arith, count-written p (pattern_of ps)) in
      piece_lem fuel (pattern_of ps) (regex_of escape ps)
        (λ literal out. glob_loop_lem ps fuel literal out w' h') p literal out v

  -- Where `regex::escape` works character by character, `glob_to_regex` translates each piece of a
  -- pattern by itself, and puts what it makes together in the pattern's order: `*` is `.*`, `?` is
  -- `.`, a class that closes is copied, a plain character and one behind a backslash are escaped.
  pub glob_to_regex_lem :
      (ps : List Piece)
      → all_well_written ps ≡ true
      → glob_to_regex escape (pattern_of ps) ≡ regex_of escape ps
  unfolding glob_to_regex
  glob_to_regex_lem ps w =
      rw
        (
          glob_loop_lem ps (count (pattern_of ps)) [] [] w (ground arith),
          laws.nothing,
          nil-append (regex_of escape ps),
          nil-append (regex_of escape ps),
        )
        refl
