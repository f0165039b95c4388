-- ===== src/Wal.antt =====
-- crates/redis-wasm-core/src/wal/log.rs and the trait of wal/writer.rs.
pub mod Native
use kvasm.Common.{ℕ, String, Bool, true, false, Option, List, [], ◌∷◌, Result}
use kvasm.Common.Int.{ℤ}

pub data WalEntry (F : Type 0) : Type 0 where
  set : String → List ℕ → Option ℕ → WalEntry F
  del : List String → WalEntry F
  expire : String → ℕ → WalEntry F
  l_push : String → List String → WalEntry F
  r_push : String → List String → WalEntry F
  l_pop : String → ℕ → WalEntry F
  r_pop : String → ℕ → WalEntry F
  l_set : String → ℤ → String → WalEntry F
  l_rem : String → ℤ → String → WalEntry F
  l_trim : String → ℤ → ℤ → WalEntry F
  s_add : String → List String → WalEntry F
  s_rem : String → List String → WalEntry F
  z_add : String → List (String × F) → WalEntry F
  z_rem : String → List String → WalEntry F
  h_set : String → String → String → WalEntry F
  h_del : String → List String → WalEntry F
  persist : String → WalEntry F

module _ {F : Type 0} where
  -- `WalEntry::key`
  unfoldable pub key : WalEntry F → String
  key (set k _ _) = k
  key (del []) = ""
  key (del (k ∷ _)) = k
  key (expire k _) = k
  key (l_push k _) = k
  key (r_push k _) = k
  key (l_pop k _) = k
  key (r_pop k _) = k
  key (l_set k _ _) = k
  key (l_rem k _ _) = k
  key (l_trim k _ _) = k
  key (s_add k _) = k
  key (s_rem k _) = k
  key (z_add k _) = k
  key (z_rem k _) = k
  key (h_set k _ _) = k
  key (h_del k _) = k
  key (persist k) = k

  unfoldable pub is_mutating : WalEntry F → Bool
  is_mutating (expire _ _) = false
  is_mutating (persist _) = false
  is_mutating _ = true

-- The causes that bincode and the file system give are left out.
pub data WalError : Type 0 where
  serialization deserialization io : WalError
  indexed_db : String → WalError

-- `WalWriterTrait`: an implementation keeps a state `W`.
pub record WalWriterTrait (W F : Type 0) : Type 0 where
  pub append : WalEntry F → W → Result WalError (Unit {0}) × W
  pub flush : W → Result WalError (Unit {0}) × W
  pub size : W → Result WalError ℕ × W
  pub rewrite : List (WalEntry F) → W → Result WalError (Unit {0}) × W
