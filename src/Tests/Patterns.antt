-- ===== src/Tests/Patterns.antt =====
-- The theorems on KEYS at concrete patterns, with an escape of the metacharacters.
use Prim.Native.Char.{code}
use Prim.Native.String.{[], ◌∷◌, ◌++◌}
use kvasm.Common.{
  ℕ, String, List, Bool, ◌≡◌, refl, ok, leb, ◌&&◌, ◌||◌, ◌==◌, if◌then◌else◌, ap, sym, ◌∙◌,
  Bool-cases, inl, inr,
}
use kvasm.HashMap.{lookup}
use kvasm.Expiry.{is_expired}
use kvasm.Db.Keys.{exists}
use kvasm.Db.Glob.{RegexCrate, glob_to_regex, keys}
use kvasm.Db.Glob.Pieces.{
  plain, escaped, any_char, any_chars, none_of, EscapeLaws, nil-append, cons-append,
}
use kvasm.Db.Glob.Translation.{glob_to_regex_lem}
use kvasm.Db.Glob.Live.{exists-keys}
use kvasm.Tests.{one_list}

-- The characters that stand for themselves are letters and digits here.
abbrev is_word : ℕ → Bool
is_word c = leb b'0' c && leb c b'9' || leb b'A' c && leb c b'Z' || leb b'a' c && leb c b'z'

abbrev escape_text : String → String
escape_text [] = []
escape_text (c ∷ s) =
    let rest = escape_text s in if is_word (code c) then c ∷ rest else "\\" ∷ c ∷ rest

escape_text-append : (s t : String) → escape_text (s ++ t) ≡ escape_text s ++ escape_text t
escape_text-append [] t = ap escape_text (nil-append t) ∙ sym (nil-append (escape_text t))
escape_text-append (c ∷ s) t = elim (Bool-cases (is_word (code c))) [
  | inl e ↦
      rw
        (
          cons-append c s t,
          e,
          cons-append c (escape_text s) (escape_text t),
          escape_text-append s t,
        )
        refl
  | inr e ↦
      rw
        (
          cons-append c s t,
          e,
          cons-append "\\" (c ∷ escape_text s) (escape_text t),
          cons-append c (escape_text s) (escape_text t),
          escape_text-append s t,
        )
        refl
]

escape_text-EscapeLaws : EscapeLaws escape_text
escape_text-EscapeLaws = record { nothing = refl; append = escape_text-append }

-- A matcher that knows the pattern of all keys only.
abbrev every_key : RegexCrate String
every_key = record { escape = escape_text; compile = λ r. ok r; is_match = λ r key. r == "^.*$" }

glob_to_regex_lem_example : glob_to_regex escape_text "u*[^0-9].\\*?" ≡ "u.*[^0-9]\\.\\*."
glob_to_regex_lem_example =
    glob_to_regex_lem escape_text escape_text-EscapeLaws
      (List.◌∷◌ (plain "u") (
        List.◌∷◌ any_chars (
          List.◌∷◌ (none_of "0-9")
            (List.◌∷◌ (plain ".") (List.◌∷◌ (escaped "*") (List.◌∷◌ any_char List.[]))))))
      refl

-- A class ends at its first bracket, also behind a backslash.
class_with_escape : glob_to_regex escape_text "[\\]x]" ≡ "[\\]x\\]"
unfolding glob_to_regex
class_with_escape = refl

exists-keys_example : exists (List.◌∷◌ "k" List.[]) (one_list 2) ≡ (ok 1, one_list 2)
unfolding keys is_expired lookup
exists-keys_example = exists-keys every_key "*" (one_list 2) (List.◌∷◌ "k" List.[]) refl
