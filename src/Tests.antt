-- ===== src/Tests.antt =====
-- Concrete data for the tests: natural numbers for floats, a list of entries for a log, and small
-- databases.
pub mod Values
pub mod Databases
pub mod Files
pub mod Stores
pub mod Channels
pub mod Patterns
pub mod Disk
use kvasm.Common.{ℕ, ◌+◌, true, false, none, some, List, [], ◌∷◌, ◌++◌, leb, refl, ok, length}
use kvasm.Float.{Float64}
use kvasm.SortedSet
use kvasm.SortedSet.{SortedSet}
use kvasm.Value.{list}
use kvasm.Wal.{WalEntry, WalWriterTrait}
use kvasm.Db.{Db}

abbrev pub floats : Float64 ℕ
floats = record {
  position = λ x. x;
  le = leb;
  zero = 0;
  plus = λ x y. x + y;
  is_finite = λ x. true;
  to_string = λ x. "";
  to_bytes = λ x. x ∷ [];
  parse = λ bytes. elim bytes [ [] ↦ none | x ∷ _ ↦ some x ];
}

-- The same, where only the numbers below 10 are finite.
abbrev pub small_floats : Float64 ℕ
small_floats = record floats { is_finite = λ x. leb x 9 }

abbrev pub two_scores : SortedSet ℕ
two_scores = (SortedSet.insert floats "b" 2 (SortedSet.insert floats "a" 1 SortedSet.empty).1).1

abbrev pub list_writer : WalWriterTrait (List (WalEntry ℕ)) ℕ
list_writer = record {
  append = λ entry w. (ok tt, w ++ entry ∷ []);
  flush = λ w. (ok tt, w);
  size = λ w. (ok (length w), w);
  rewrite = λ entries w. (ok tt, entries);
}

-- A list "k" whose time is 5, at a time, with the log that made it.
abbrev pub one_list : ℕ → Db ℕ (List (WalEntry ℕ))
one_list now = record {
  data_map = ("k", list ("old" ∷ [])) ∷ [];
  expiry = ("k", 5) ∷ [];
  wal = some (WalEntry.r_push "k" ("old" ∷ []) ∷ WalEntry.expire "k" 5 ∷ []);
  wal_len = 2;
  compaction_threshold = 0;
  last_compact_len = 0;
  compacting = false;
  now = now;
}
