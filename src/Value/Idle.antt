-- ===== src/Value/Idle.antt =====
-- The operations of crates/redis-wasm-core/src/types/mod.rs whose count the log goes by, where they
-- count nothing.
use kvasm.Common.{
  ℕ, zero, suc, ◌≤◌, min, String, ◌≡◌, ◌≢◌, refl, true, Option, List, [], ◌∷◌, ◌++◌, ok,
  if◌then◌else◌, length, length-append, arith, inl, inr, Option-cases,
}
use kvasm.Common.Int.{ℤ, pos, negsuc}
use kvasm.HashMap
use kvasm.HashMap.{HashMap, HashSet, contains, add, discard, lookup, contains_key}
use kvasm.HashMap.Laws.{remove_absent, discard_absent}
use kvasm.SortedSet
use kvasm.SortedSet.{SortedSet}
use kvasm.Float.{Float64}
use kvasm.Value.{Value, new_set, list, set, sorted_set, hash}
use kvasm.Value.Lists.{
  pop_loop, pop_front, pop_back, lpop, rpop, lrem, lrem_list, retain_head, retain_ne,
  remove_indices, remove_at,
}
use kvasm.Value.Sets.{add_all, discard_all, sadd, srem}
use kvasm.Value.Zsets
use kvasm.Value.Zsets.{zrem}
use kvasm.Value.Hashes
use kvasm.Value.Hashes.{hdel}

add_known : (a : String) (s : HashSet) → contains a s ≡ true → add a s ≡ s
unfolding contains add
add_known a [] h = cc
add_known a (x ∷ s) h = ground (arith, add_known a s)

add_all_idle :
    (ms : List String) (n : ℕ) (s : HashSet)
    → (n ≤ (add_all ms n s).1) × ((add_all ms n s).1 ≡ n → (add_all ms n s).0 ≡ s)
unfolding add_all
add_all_idle [] n s = ground arith
add_all_idle (m ∷ ms) n s =
    ground (arith, add_all_idle ms (if contains m s then n else suc n) (add m s), add_known m s)

discard_all_idle :
    (ms : List String) (n : ℕ) (s : HashSet)
    → (n ≤ (discard_all ms n s).1) × ((discard_all ms n s).1 ≡ n → (discard_all ms n s).0 ≡ s)
unfolding discard_all
discard_all_idle [] n s = ground arith
discard_all_idle (m ∷ ms) n s = ground (
  arith,
  discard_all_idle ms (if contains m s then suc n else n) (discard m s),
  discard_absent m s,
)

remove_all_idle :
    (ks : List String) (n : ℕ) (h : HashMap String)
    → (n ≤ (Hashes.remove_all ks n h).1)
      × ((Hashes.remove_all ks n h).1 ≡ n → (Hashes.remove_all ks n h).0 ≡ h)
unfolding Hashes.remove_all contains_key
remove_all_idle [] n h = ground arith
remove_all_idle (k ∷ ks) n h = ground (
  arith,
  remove_all_idle ks (if contains_key k h then suc n else n) (HashMap.remove k h),
  remove_absent k h,
)

zremove_all_idle :
    {F : Type 0} (f : Float64 F) (ms : List String) (n : ℕ) (z : SortedSet F)
    → (n ≤ (Zsets.remove_all f ms n z).1)
      × ((Zsets.remove_all f ms n z).1 ≡ n → (Zsets.remove_all f ms n z).0 ≡ z)
unfolding Zsets.remove_all SortedSet.remove
zremove_all_idle f [] n z = ground arith
zremove_all_idle f (m ∷ ms) n z = elim (Option-cases (lookup m z.scores)) [
  | inl e ↦ rw (e, Zsets.remove_all, SortedSet.remove) (zremove_all_idle f ms n z)
  | inr (score, e) ↦
      let rest = zremove_all_idle f ms (suc n) (SortedSet.remove f m z).1 in ground (arith, rest)
]

pop_loop_idle :
    (pop : List String → Option (String × List String)) (rounds : ℕ) (result l : List String)
    → (length result ≤ length (pop_loop pop rounds result l).0)
      × ((pop_loop pop rounds result l).0 ≡ [] → (pop_loop pop rounds result l).1 ≡ l)
unfolding pop_loop
pop_loop_idle pop zero result l = ground arith
pop_loop_idle pop (suc rounds) result l = elim (Option-cases (pop l)) [
  | inl e ↦ rw (e, pop_loop) (pop_loop_idle pop rounds result l)
  | inr ((v, l'), e) ↦
      ground (arith, pop_loop_idle pop rounds (result ++ v ∷ []) l', length-append result (v ∷ []))
]

retain_head_idle :
    (count : ℕ) (value : String) (removed : ℕ) (l : List String)
    → (removed ≤ (retain_head count value removed l).1)
      × ((retain_head count value removed l).1 ≡ removed
          → (retain_head count value removed l).0 ≡ l)
unfolding retain_head
retain_head_idle count value removed [] = ground arith
retain_head_idle count value removed (v ∷ l) =
    ground
      (arith, retain_head_idle count value (suc removed) l, retain_head_idle count value removed l)

retain_ne_idle :
    (value : String) (l : List String)
    → (length (retain_ne value l) ≤ length l)
      × (length (retain_ne value l) ≡ length l → retain_ne value l ≡ l)
unfolding retain_ne
retain_ne_idle value [] = ground arith
retain_ne_idle value (v ∷ l) = ground (arith, retain_ne_idle value l)

remove_indices_idle :
    (is : List ℕ) (removed : ℕ) (l : List String)
    → (removed ≤ (remove_indices is removed l).1)
      × ((remove_indices is removed l).1 ≡ removed → (remove_indices is removed l).0 ≡ l)
unfolding remove_indices
remove_indices_idle [] removed l = ground arith
remove_indices_idle (i ∷ is) removed l =
    ground (arith, remove_indices_idle is (suc removed) (remove_at i l))

lrem_list_idle :
    (count : ℤ) (value : String) (l : List String)
    → (lrem_list count value l).1 ≡ 0
    → (lrem_list count value l).0 ≡ l
unfolding lrem_list
lrem_list_idle (pos (suc count)) value l = (retain_head_idle (suc count) value 0 l).1
lrem_list_idle (negsuc count) value l = (remove_indices_idle _ 0 l).1
lrem_list_idle (pos zero) value l = λ e. ground (arith, retain_ne_idle value l)

-- The value after an operation that counts, when it counts 0.
module _ {F : Type 0} where
  pub sadd_idle :
      (members : List String) (v : Value F) → (sadd members v).0 ≡ ok 0 → (sadd members v).1 ≡ v
  unfolding sadd
  sadd_idle members (set s) e = ground (arith, add_all_idle members 0 s)
  sadd_idle members _ e = refl

  pub srem_idle :
      (members : List String) (v : Value F) → (srem members v).0 ≡ ok 0 → (srem members v).1 ≡ v
  unfolding srem
  srem_idle members (set s) e = ground (arith, discard_all_idle members 0 s)
  srem_idle members _ e = refl

  pub hdel_idle :
      (fields : List String) (v : Value F) → (hdel fields v).0 ≡ ok 0 → (hdel fields v).1 ≡ v
  unfolding hdel
  hdel_idle fields (hash h) e = ground (arith, remove_all_idle fields 0 h)
  hdel_idle fields _ e = refl

  pub zrem_idle :
      (f : Float64 F) (members : List String) (v : Value F)
      → (zrem f members v).0 ≡ ok 0
      → (zrem f members v).1 ≡ v
  unfolding zrem
  zrem_idle f members (sorted_set z) e = ground (arith, zremove_all_idle f members 0 z)
  zrem_idle f members _ e = refl

  pub lrem_idle :
      (count : ℤ) (value : String) (v : Value F)
      → (lrem count value v).0 ≡ ok 0
      → (lrem count value v).1 ≡ v
  unfolding lrem
  lrem_idle count value (list l) e = ground (arith, lrem_list_idle count value l)
  lrem_idle count value _ e = refl

  pub lpop_idle : (count : ℕ) (v : Value F) → (lpop count v).0 ≡ ok [] → (lpop count v).1 ≡ v
  unfolding lpop
  lpop_idle count (list l) e = ground (arith, pop_loop_idle pop_front (min count (length l)) [] l)
  lpop_idle count _ e = refl

  pub rpop_idle : (count : ℕ) (v : Value F) → (rpop count v).0 ≡ ok [] → (rpop count v).1 ≡ v
  unfolding rpop
  rpop_idle count (list l) e = ground (arith, pop_loop_idle pop_back (min count (length l)) [] l)
  rpop_idle count _ e = refl

-- A set that is made for SADD takes at least one member in.
pub sadd_fresh :
    (F : Type 0) (member : String) (members : List String)
    → (sadd (member ∷ members) (new_set {F = F})).0 ≢ ok 0
unfolding sadd add_all contains add
sadd_fresh F member members e = absurd (ground (arith, add_all_idle members 1 (member ∷ [])))
