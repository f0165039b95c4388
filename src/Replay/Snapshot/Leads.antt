-- ===== src/Replay/Snapshot/Leads.antt =====
-- Replays of crates/redis-wasm-core/src/wal/replayer.rs that succeed, one after the other.
use kvasm.Common.{ℕ, suc, ◌≡◌, refl, ◌∙◌, List, [], ◌∷◌, ◌++◌, ok, arith}
use kvasm.Float.{Float64}
use kvasm.Wal.{WalEntry}
use kvasm.Replay.{Tables, apply_entry, replay}

-- The replay of the entries succeeds, and leads from the tables `a` to the tables `b`.
pub record Leads {F : Type 0} (f : Float64 F) (es : List (WalEntry F)) (a b : Tables F)
    : Type 0 where
  pub at : (n : ℕ) → (m : ℕ) × (replay f es n a ≡ (ok m, b))

module _ {F : Type 0} (f : Float64 F) where
  pub refl-Leads : (t : Tables F) → Leads f [] t t
  unfolding replay
  refl-Leads t = record { at = λ n. (n, refl) }

  pub cons-Leads :
      (e : WalEntry F) (es : List (WalEntry F)) {a b c : Tables F}
      → apply_entry f e a ≡ (ok tt, b)
      → Leads f es b c
      → Leads f (e ∷ es) a c
  unfolding replay
  cons-Leads e es {a} {b} {c} h k = record {
    at = λ n. let (m, r) = k.at (suc n) in (m, ground (arith, r));
  }

  replay-append :
      (xs ys : List (WalEntry F)) (n m : ℕ) (a b : Tables F)
      → replay f xs n a ≡ (ok m, b)
      → replay f (xs ++ ys) n a ≡ replay f ys m b
  unfolding replay
  replay-append [] ys n m a b h = ground arith
  replay-append (x ∷ xs) ys n m a b h =
      ground (arith, replay-append xs ys (suc n) m (apply_entry f x a).1 b)

  pub append-Leads :
      (xs ys : List (WalEntry F)) {a b c : Tables F}
      → Leads f xs a b
      → Leads f ys b c
      → Leads f (xs ++ ys) a c
  append-Leads xs ys {a} {b} h k = record {
    at = λ n. let (m, r) = h.at n in let (p, q) = k.at m in (p, replay-append xs ys n m a b r ∙ q);
  }
