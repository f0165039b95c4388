-- ===== src/Bindings/Pairs.antt =====
-- The lists of members and scores of `zadd` and `zrangebyscore` in
-- crates/redis-wasm-bindings/src/lib.rs.
use kvasm.Common.{ℕ, ◌%◌, String, ◌≡◌, refl, true, List, [], ◌∷◌, ok, eqb, length, arith}
use kvasm.Float.{Float64}
use kvasm.Wal.{WalWriterTrait}
use kvasm.Db.{Db}
use kvasm.Db.Zsets
use kvasm.Bindings.{call, parse_pairs, flatten, zadd}

module _ {F : Type 0} where
  parse_pairs-flatten : (ms : List (String × F)) → parse_pairs (flatten ms) ≡ ok ms
  unfolding parse_pairs flatten
  parse_pairs-flatten [] = refl
  parse_pairs-flatten ((member, score) ∷ ms) =
      rw (parse_pairs-flatten ms, parse_pairs, flatten) refl

  length-flatten : (ms : List (String × F)) → length (flatten ms) % 2 ≡ 0
  unfolding flatten
  length-flatten [] = refl
  length-flatten ((member, score) ∷ ms) = omega (arith, length-flatten ms)

-- A list in the form in which `zrangebyscore` returns members with their scores is one that `zadd`
-- takes, and it adds these members with these scores.
pub zadd-flatten :
    {F W : Type 0} (f : Float64 F) (writer : WalWriterTrait W F) (time : ℕ) (key : String)
    (ms : List (String × F)) (db : Db F W)
    → zadd f writer time key (flatten ms) db ≡ call time (Zsets.zadd f writer key ms) db
unfolding zadd
zadd-flatten f writer time key ms db =
    let even : eqb (length (flatten ms) % 2) 0 ≡ true = ground (arith, length-flatten ms) in
    rw (even, zadd, parse_pairs-flatten ms) refl
