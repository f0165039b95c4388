-- ===== src/Value/Sets/Laws.antt =====
-- What the set operations leave in the set, and what they count.
use kvasm.Common.{
  ℕ, suc, ◌+◌, String, ◌≡◌, refl, List, [], ◌∷◌, ◌++◌, ◌||◌, ◌&&◌, not, ok, eq_iff, if◌then◌else◌,
  length, arith,
}
use kvasm.HashMap.{HashSet, contains, add, discard}
use kvasm.HashMap.Laws.{
  contains-add, contains-discard, length-add, length-discard, IsSetLike, add-IsSetLike,
  discard-IsSetLike,
}
use kvasm.Value.{set}
use kvasm.Value.Sets.{add_all, discard_all, retain_in, difference, sadd, srem}

contains-add_all :
    (ms : List String) (n : ℕ) (b : String) (s : HashSet)
    → contains b (add_all ms n s).0 ≡ (contains b ms || contains b s)
unfolding add_all contains
contains-add_all [] n b s = refl
contains-add_all (m ∷ ms) n b s =
    ground (
      arith,
      contains-add_all ms (if contains m s then n else suc n) b (add m s),
      contains-add m b s,
    )

length-add_all :
    (ms : List String) (n : ℕ) (s : HashSet)
    → length (add_all ms n s).0 + n ≡ length s + (add_all ms n s).1
unfolding add_all
length-add_all [] n s = refl
length-add_all (m ∷ ms) n s =
    ground (arith, length-add_all ms (if contains m s then n else suc n) (add m s), length-add m s)

pub add_all-IsSetLike :
    (ms : List String) (n : ℕ) (s : HashSet) → IsSetLike s → IsSetLike (add_all ms n s).0
unfolding add_all
add_all-IsSetLike [] n s h = h
add_all-IsSetLike (m ∷ ms) n s h = add_all-IsSetLike ms _ (add m s) (add-IsSetLike m s h)

contains-discard_all :
    (ms : List String) (n : ℕ) (b : String) (s : HashSet)
    → contains b (discard_all ms n s).0 ≡ (not (contains b ms) && contains b s)
unfolding discard_all contains
contains-discard_all [] n b s = refl
contains-discard_all (m ∷ ms) n b s = ground (
  arith,
  contains-discard_all ms (if contains m s then suc n else n) b (discard m s),
  contains-discard m b s,
)

length-discard_all :
    (ms : List String) (n : ℕ) (s : HashSet)
    → IsSetLike s
    → length (discard_all ms n s).0 + (discard_all ms n s).1 ≡ length s + n
unfolding discard_all
length-discard_all [] n s h = refl
length-discard_all (m ∷ ms) n s h = ground (
  arith,
  length-discard_all ms (if contains m s then suc n else n) (discard m s) (discard-IsSetLike m s h),
  length-discard m s h,
)

pub discard_all-IsSetLike :
    (ms : List String) (n : ℕ) (s : HashSet) → IsSetLike s → IsSetLike (discard_all ms n s).0
unfolding discard_all
discard_all-IsSetLike [] n s h = h
discard_all-IsSetLike (m ∷ ms) n s h =
    discard_all-IsSetLike ms _ (discard m s) (discard-IsSetLike m s h)

module _ {F : Type 0} where
  -- SADD to a set that holds no member twice leaves the union with the given members, still with
  -- no member twice, and returns by how many the set has grown.
  pub sadd_lem :
      (members : List String) (s : HashSet)
      → IsSetLike s
      → (s' : HashSet) × (added : ℕ) × (sadd {F = F} members (set s) ≡ (ok added, set s'))
        × (length s' ≡ length s + added)
        × ((b : String) → contains b s' ≡ (contains b members || contains b s))
        × IsSetLike s'
  unfolding sadd
  sadd_lem members s h = (
    (add_all members 0 s).0,
    (add_all members 0 s).1,
    refl,
    omega (arith, length-add_all members 0 s),
    λ b. contains-add_all members 0 b s,
    add_all-IsSetLike members 0 s h,
  )

  -- SREM from a set that holds no member twice leaves the members that are not given, still with
  -- no member twice, and returns by how many the set has shrunk.
  srem_lem :
      (members : List String) (s : HashSet)
      → IsSetLike s
      → (s' : HashSet) × (removed : ℕ) × (srem {F = F} members (set s) ≡ (ok removed, set s'))
        × (length s' + removed ≡ length s)
        × ((b : String) → contains b s' ≡ (not (contains b members) && contains b s))
        × IsSetLike s'
  unfolding srem
  srem_lem members s h = (
    (discard_all members 0 s).0,
    (discard_all members 0 s).1,
    refl,
    omega (arith, length-discard_all members 0 s h),
    λ b. contains-discard_all members 0 b s,
    discard_all-IsSetLike members 0 s h,
  )

pub contains-retain_in :
    (other s : HashSet) (b : String)
    → contains b (retain_in other s) ≡ (contains b s && contains b other)
unfolding retain_in contains
contains-retain_in other [] b = refl
contains-retain_in other (x ∷ s) b = ground (arith, contains-retain_in other s b, eq_iff x b)

pub contains-difference :
    (s other : HashSet) (b : String)
    → contains b (difference s other) ≡ (contains b s && not (contains b other))
unfolding difference contains
contains-difference [] other b = refl
contains-difference (x ∷ s) other b = ground (arith, contains-difference s other b, eq_iff x b)

contains-append :
    (s t : HashSet) (b : String) → contains b (s ++ t) ≡ (contains b s || contains b t)
unfolding contains
contains-append [] t b = refl
contains-append (x ∷ s) t b = ground (arith, contains-append s t b)
