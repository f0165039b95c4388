-- ===== src/Value/Hashes/Laws.antt =====
-- What the hash operations leave in the hash, and what they count.
use kvasm.Common.{
  ℕ, suc, ◌+◌, String, ◌≡◌, refl, none, some, List, [], ◌∷◌, ok, ◌==◌, if◌then◌else◌, length, arith,
  not,
}
use kvasm.HashMap.{HashMap, lookup, insert, remove, contains_key, contains}
use kvasm.HashMap.Laws.{
  lookup-insert, lookup-remove, length-insert, length-remove, IsDistinct, insert-IsDistinct,
  remove-IsDistinct,
}
use kvasm.Value.{hash}
use kvasm.Value.Hashes.{remove_all, hset, hdel}

lookup-remove_all :
    (ks : List String) (n : ℕ) (j : String) (h : HashMap String)
    → lookup j (remove_all ks n h).0 ≡ (if contains j ks then none else lookup j h)
unfolding remove_all contains
lookup-remove_all [] n j h = refl
lookup-remove_all (k ∷ ks) n j h = ground (
  arith,
  lookup-remove_all ks (if contains_key k h then suc n else n) j (remove k h),
  lookup-remove k j h,
)

length-remove_all :
    (ks : List String) (n : ℕ) (h : HashMap String)
    → IsDistinct h
    → length (remove_all ks n h).0 + (remove_all ks n h).1 ≡ length h + n
unfolding remove_all
length-remove_all [] n h d = refl
length-remove_all (k ∷ ks) n h d = ground (
  arith,
  length-remove_all ks (if contains_key k h then suc n else n) (remove k h)
      (remove-IsDistinct k h d),
  length-remove k h d,
)

pub remove_all-IsDistinct :
    (ks : List String) (n : ℕ) (h : HashMap String)
    → IsDistinct h
    → IsDistinct (remove_all ks n h).0
unfolding remove_all
remove_all-IsDistinct [] n h d = d
remove_all-IsDistinct (k ∷ ks) n h d =
    remove_all-IsDistinct ks _ (remove k h) (remove-IsDistinct k h d)

module _ {F : Type 0} where
  -- HSET on a hash that holds no field twice writes one field and leaves the others, still with no
  -- field twice, and returns by how many the hash has grown.
  hset_lem :
      (field value : String) (h : HashMap String)
      → IsDistinct h
      → (h' : HashMap String) × (added : ℕ) × (hset {F = F} field value (hash h)
          ≡ (ok added, hash h'))
        × (length h' ≡ length h + added)
        × ((j : String) → lookup j h' ≡ (if field == j then some value else lookup j h))
        × IsDistinct h'
  unfolding hset
  hset_lem field value h d = (
    insert field value h,
    (if not (contains_key field h) then 1 else 0),
    refl,
    ground (arith, length-insert field value h),
    λ j. lookup-insert field j value h,
    insert-IsDistinct field value h d,
  )

  -- HDEL on a hash that holds no field twice drops the given fields and no other, still with no
  -- field twice, and returns by how many the hash has shrunk.
  hdel_lem :
      (fields : List String) (h : HashMap String)
      → IsDistinct h
      → (h' : HashMap String) × (deleted : ℕ) × (hdel {F = F} fields (hash h)
          ≡ (ok deleted, hash h'))
        × (length h' + deleted ≡ length h)
        × ((j : String) → lookup j h' ≡ (if contains j fields then none else lookup j h))
        × IsDistinct h'
  unfolding hdel
  hdel_lem fields h d = (
    (remove_all fields 0 h).0,
    (remove_all fields 0 h).1,
    refl,
    ground (arith, length-remove_all fields 0 h d),
    λ j. lookup-remove_all fields 0 j h,
    remove_all-IsDistinct fields 0 h d,
  )
