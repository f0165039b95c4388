-- ===== src/Tests/Databases.antt =====
-- The theorems on the database, its expiry times and its log at small databases.
use kvasm.Common.{ℕ, ◌^◌, ◌≡◌, refl, none, some, List, [], ◌∷◌, ok, err, if◌then◌else◌, arith, ◌==◌}
use kvasm.Common.Int.{pos, negsuc}
use kvasm.HashMap.{lookup, contains_key}
use kvasm.Value.{string}
use kvasm.Expiry.{is_expired}
use kvasm.Expiry.Laws.{live}
use kvasm.Wal.{WalEntry}
use kvasm.Db.{Db, not_a_float, build, expired, purge_expired}
use kvasm.Db.Persist.{set_compaction_threshold}
use kvasm.Db.Strings.{incr_by_float}
use kvasm.Db.Failures.{incr_by_float_missing}
use kvasm.Db.Keys.{get_bytes, set}
use kvasm.Db.Lists.{rpush}
use kvasm.Db.Expire.{clean, pexpire, persist, pttl}
use kvasm.Db.Valid.{IsValid}
use kvasm.Db.Valid.Steps.{Step, Reach, Reach-IsValid}
use kvasm.Db.Ttl.{
  visible, clean_lem, purge_expired_lem, set_lem, pttl-pexpire, pttl-pexpire_huge, persist_lem,
}
use kvasm.Tests.{floats, small_floats, list_writer, one_list}

abbrev new_db : Db ℕ (List (WalEntry ℕ))
new_db = build (some []) 0

abbrev unlimited : Db ℕ (List (WalEntry ℕ))
unlimited = set_compaction_threshold 0 new_db

-- A tick, a command and a run of the cleaner.
Reach-IsValid_example :
    IsValid floats (clean (rpush list_writer "k" ("a" ∷ []) (record new_db { now = 9 })).1)
unfolding build
Reach-IsValid_example = Reach-IsValid floats list_writer (
    Reach.next
      (Reach.next (Reach.next (Reach.opened (some []) 0) (Step.tick 9 (omega arith)))
        (Step.rpush "k" ("a" ∷ [])))
      Step.clean)

pub one_list-IsValid : (now : ℕ) → IsValid floats (one_list now)
unfolding lookup
one_list-IsValid now = record {
  distinct = (refl, tt);
  expiry_distinct = (refl, tt);
  covered = λ j h. ground arith;
  healthy = (tt, tt);
}

clean_lem_example :
    (lookup "k" (clean (one_list 6)).data_map ≡ visible "k" (one_list 6))
    × (lookup "k" (clean (one_list 6)).expiry ≡ live 6 (lookup "k" (one_list 6).expiry))
    × (visible "k" (clean (one_list 6)) ≡ visible "k" (one_list 6))
clean_lem_example = clean_lem floats (one_list 6) "k" (one_list-IsValid 6)

purge_expired_lem_example :
    (lookup "k" (purge_expired "k" (one_list 6)).1.data_map
      ≡ (if "k" == "k" then visible "k" (one_list 6) else lookup "k" (one_list 6).data_map))
    × (lookup "k" (purge_expired "k" (one_list 6)).1.expiry ≡ (
        if "k" == "k"
        then live 6 (lookup "k" (one_list 6).expiry)
        else lookup "k" (one_list 6).expiry))
purge_expired_lem_example = purge_expired_lem floats "k" "k" (one_list 6) (one_list-IsValid 6)

set_lem_example :
    ((get_bytes "k" (set list_writer "k" (7 ∷ []) (one_list 6)).1).0 ≡ ok (some (7 ∷ [])))
    × (lookup "k" (set list_writer "k" (7 ∷ []) (one_list 6)).1.expiry ≡ none)
    × (visible "j" (set list_writer "k" (7 ∷ []) (one_list 6)).1
        ≡ (if "k" == "j" then some (string (7 ∷ [])) else visible "j" (one_list 6)))
set_lem_example = set_lem list_writer "k" "j" (7 ∷ []) (one_list 6)

pttl-pexpire_example : (pttl "k" (pexpire list_writer "k" 40 (one_list 2)).1).0 ≡ ok (pos 40)
unfolding contains_key lookup expired is_expired
pttl-pexpire_example =
    pttl-pexpire list_writer "k" 40 (one_list 2) refl refl (omega arith) (omega arith)

pttl-pexpire_huge_example :
    (n : ℕ) × ((pttl "k" (pexpire list_writer "k" (2 ^ 63) (one_list 2)).1).0 ≡ ok (negsuc n))
unfolding contains_key lookup expired is_expired
pttl-pexpire_huge_example =
    pttl-pexpire_huge list_writer "k" (2 ^ 63) (one_list 2) refl refl (omega arith) (omega arith)
      (omega arith)

persist_lem_example :
    ((pttl "k" (persist list_writer "k" (one_list 2)).1).0 ≡ ok (negsuc 0))
    × (visible "k" (persist list_writer "k" (one_list 2)).1 ≡ visible "k" (one_list 2))
unfolding contains_key lookup expired is_expired
persist_lem_example = persist_lem list_writer "k" "k" (one_list 2) refl refl

-- RPUSH as the first command.
incr_by_float_missing_example :
    ((incr_by_float list_writer small_floats "x" 50 (one_list 2)).0 ≡ err not_a_float)
    × ((incr_by_float list_writer small_floats "x" 50 (one_list 2)).1.wal ≡ (one_list 2).wal)
    × (lookup "x" (incr_by_float list_writer small_floats "x" 50 (one_list 2)).1.data_map
        ≡ (if "x" == "x" then some (string []) else lookup "x" (one_list 2).data_map))
unfolding lookup expired is_expired
incr_by_float_missing_example =
    incr_by_float_missing list_writer small_floats "x" "x" 50 (one_list 2) refl refl refl
