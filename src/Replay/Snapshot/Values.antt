-- ===== src/Replay/Snapshot/Values.antt =====
-- The entries of a snapshot for one value of crates/redis-wasm-core/src/db.rs, and what their replay
-- makes of them.
use mathlib.Core.Path.{subst}
use mathlib.Core.List.{append_assoc, append-nil}
use mathlib.Core.Option
use kvasm.Common.{
  ℕ, String, ◌≡◌, refl, sym, ap, ◌∙◌, false, Option, none, some, List, [], ◌∷◌, ◌++◌, ◌==◌, eq_iff,
  ok, if◌then◌else◌, arith, map,
}
use kvasm.HashMap.{HashMap, HashSet, lookup, insert}
use kvasm.HashMap.Laws.{
  IsDistinct, IsSetLike, insert_fresh, add_fresh, remove_absent, lookup-insert_self,
}
use kvasm.Float.{Float64}
use kvasm.SortedSet.{SortedSet, iter, score, empty}
use kvasm.SortedSet.Order.{find, IsUnique}
use kvasm.SortedSet.Synced.{IsSynced, Agree, empty-IsSynced}
use kvasm.Value.{Value, string, list, set, sorted_set, hash, new_hash, is_empty}
use kvasm.Value.WellFormed.{IsWellFormed}
use kvasm.Value.Lists
use kvasm.Value.Lists.{push_back_all}
use kvasm.Value.Lists.Laws.{push_back_all_lem}
use kvasm.Value.Sets
use kvasm.Value.Sets.{add_all}
use kvasm.Value.Zsets
use kvasm.Value.Zsets.{insert_all}
use kvasm.Value.Zsets.Laws.{assigned, insert_all-IsSynced, score-insert_all}
use kvasm.Value.Hashes
use kvasm.Expiry.{ExpiryManager, set_expiry_at}
use kvasm.Wal.{WalEntry}
use kvasm.Db.{or_insert_with}
use kvasm.Db.Persist.{expire_entry, field_entries, value_entries, is_empty_collection}
use kvasm.Replay.{Tables, on_entry, put_string, apply_entry}
use kvasm.HashMap.Append.{contains-middle, insert-insert, insert_same, lookup-middle}
use kvasm.Replay.Snapshot.Leads.{Leads, refl-Leads, cons-Leads, append-Leads}

-- What a replay gives back for a value: the value, or for a sorted set one whose halves are in step
-- and that has each member at a score that `OrderedFloat` calls equal.
abbrev pub SameValue : {F : Type 0} → Float64 F → Value F → Value F → Type 0
SameValue f (Value.sorted_set z) w =
    (z' : SortedSet _) × (w ≡ sorted_set z')
    × IsSynced f z'
    × ((m : String) → Agree f (score m z') (score m z))
SameValue f (Value.string s) w = w ≡ string s
SameValue f (Value.list l) w = w ≡ list l
SameValue f (Value.set s) w = w ≡ set s
SameValue f (Value.hash h) w = w ≡ hash h

add_all-append :
    (ms : List String) (n : ℕ) (acc : HashSet)
    → IsSetLike (acc ++ ms)
    → (add_all ms n acc).0 ≡ acc ++ ms
unfolding add_all
add_all-append [] n acc h = sym (append-nil acc)
add_all-append (m ∷ ms) n acc h =
    let split = append_assoc acc (m ∷ []) ms in
    rw (add_fresh m acc (contains-middle acc m ms h), add_all)
      (add_all-append ms _ (acc ++ m ∷ []) (subst IsSetLike (sym split) h) ∙ split)

-- The time of a key goes in if it has one.
abbrev pub timed : String → Option ℕ → ExpiryManager → ExpiryManager
timed key none m = m
timed key (some ms) m = insert key ms m

module _ {F : Type 0} where
  -- Tables with one more value, and with the expiry time of its key if it has one.
  abbrev pub with_expiry : String → Option ℕ → Tables F → Tables F
  with_expiry key e t = record t { expiry = timed key e t.expiry }

  abbrev pub with_value : String → Value F → Tables F → Tables F
  with_value key v t = record t { data_map = insert key v t.data_map }

module _ {F : Type 0} (f : Float64 F) where
  expire_entry-Leads :
      (key : String) (expiry : Option ℕ) (t : Tables F)
      → Leads f (expire_entry key expiry) t (with_expiry key expiry t)
  unfolding expire_entry apply_entry set_expiry_at
  expire_entry-Leads key none t = refl-Leads f t
  expire_entry-Leads key (some ms) t =
      cons-Leads f (WalEntry.expire key ms) [] refl (refl-Leads f _)

  string-Leads :
      (key : String) (bytes : List ℕ) (expiry : Option ℕ) (t : Tables F)
      → lookup key t.expiry ≡ none
      → Leads f
          (WalEntry.set key bytes expiry ∷ [])
          t
          (with_expiry key expiry (with_value key (string bytes) t))
  unfolding apply_entry put_string set_expiry_at
  string-Leads key bytes none t h =
      cons-Leads f (WalEntry.set key bytes none) [] (rw (remove_absent key t.expiry h) refl)
        (refl-Leads f _)
  string-Leads key bytes (some ms) t h =
      cons-Leads f (WalEntry.set key bytes (some ms)) [] (rw (remove_absent key t.expiry h) refl)
        (refl-Leads f _)

  list-Leads :
      (key : String) (l : List String) (t : Tables F)
      → lookup key t.data_map ≡ none
      → apply_entry f (WalEntry.r_push key l) t ≡ (ok tt, with_value key (list l) t)
  unfolding apply_entry on_entry Lists.rpush
  list-Leads key l t h = rw (h, push_back_all_lem l []) refl

  set-Leads :
      (key : String) (s : HashSet) (t : Tables F)
      → lookup key t.data_map ≡ none
      → IsSetLike s
      → apply_entry f (WalEntry.s_add key s) t ≡ (ok tt, with_value key (set s) t)
  unfolding apply_entry on_entry Sets.sadd
  set-Leads key s t h k = rw (h, add_all-append s 0 [] k) refl

  zset-Leads :
      (key : String) (members : List (String × F)) (t : Tables F)
      → lookup key t.data_map ≡ none
      → apply_entry f (WalEntry.z_add key members) t
        ≡ (ok tt, with_value key (sorted_set (insert_all f members 0 empty).0) t)
  unfolding apply_entry on_entry Zsets.zadd
  zset-Leads key members t h = rw h refl

  field-Leads :
      (key field value : String) (acc : HashMap String) (t : Tables F)
      → or_insert_with new_hash (lookup key t.data_map) ≡ hash acc
      → lookup field acc ≡ none
      → apply_entry f (WalEntry.h_set key field value) t
        ≡ (ok tt, with_value key (hash (acc ++ (field, value) ∷ [])) t)
  unfolding apply_entry on_entry Hashes.hset
  field-Leads key field value acc t h k = rw (h, insert_fresh field value acc k) refl

  fields-Leads :
      (key : String) (h acc : HashMap String) (t : Tables F)
      → lookup key t.data_map ≡ some (hash acc)
      → IsDistinct (acc ++ h)
      → Leads f (field_entries key h) t (with_value key (hash (acc ++ h)) t)
  unfolding field_entries
  fields-Leads key [] acc t e d =
      subst (Leads f [] t) (rw (append-nil acc, insert_same key (hash acc) t.data_map e) refl)
        (refl-Leads f t)
  fields-Leads key ((field, value) ∷ h) acc t e d =
      let acc' = acc ++ (field, value) ∷ [] in
      let split = append_assoc acc ((field, value) ∷ []) h in
      let t' = with_value key (hash acc') t in
      cons-Leads f (WalEntry.h_set key field value) (field_entries key h)
        (field-Leads key field value acc t (ap (or_insert_with new_hash) e)
          (lookup-middle acc field value h d))
        (subst (Leads f (field_entries key h) t')
          (rw (insert-insert key (hash (acc' ++ h)) (hash acc') t.data_map, split) refl)
          (fields-Leads key h acc' t' (lookup-insert_self key (hash acc') t.data_map)
            (subst IsDistinct (sym split) d)))

  hash-Leads :
      (key field value : String) (h : HashMap String) (t : Tables F)
      → lookup key t.data_map ≡ none
      → IsDistinct ((field, value) ∷ h)
      → Leads f
          (field_entries key ((field, value) ∷ h))
          t
          (with_value key (hash ((field, value) ∷ h)) t)
  unfolding field_entries lookup
  hash-Leads key field value h t e d =
      let first : HashMap String = (field, value) ∷ [] in
      let t' = with_value key (hash first) t in
      cons-Leads f (WalEntry.h_set key field value) (field_entries key h)
        (field-Leads key field value [] t (ap (or_insert_with new_hash) e) refl)
        (subst (Leads f (field_entries key h) t')
          (rw (insert-insert key (hash (first ++ h)) (hash first) t.data_map) refl)
          (fields-Leads key h first t' (lookup-insert_self key (hash first) t.data_map) d))

  assigned-find :
      (j : String) (xs : List (F × String)) (old : Option F)
      → IsUnique f xs
      → assigned f j (map {B = String × F} (λ e. (e.1, e.0)) xs) old
        ≡ elim (find j xs) [ none ↦ old | some s ↦ some s ]
  unfolding find
  assigned-find j [] old u = refl
  assigned-find j ((s, m) ∷ xs) old u =
      assigned-find j xs (if m == j then some s else old) u.1 ∙ ground (arith, eq_iff m j)

  zset-SameValue :
      (z : SortedSet F)
      → IsSynced f z
      → SameValue f (sorted_set z) (sorted_set (insert_all f (iter z) 0 empty).0)
  unfolding lookup score
  zset-SameValue z h = (
    (insert_all f (iter z) 0 empty).0,
    refl,
    insert_all-IsSynced f (iter z) 0 empty (empty-IsSynced f),
    λ m.
        ap (Option.map f.position) (
          score-insert_all f (iter z) 0 m empty
          ∙ assigned-find m z.order none h.unique
          ∙ own (find m z.order))
        ∙ sym (h.agree m),
  )
    where
      own : (o : Option F) → elim o [ none ↦ none | some s ↦ some s ] ≡ o
      own none = refl
      own (some s) = refl

  -- The entries of a value that the snapshot does not skip, at a key that the tables do not have.
  pub value_entries-Leads :
      (key : String) (expiry : Option ℕ) (v : Value F) (t : Tables F)
      → lookup key t.data_map ≡ none
      → lookup key t.expiry ≡ none
      → IsWellFormed f v
      → is_empty_collection v ≡ false
      → (w : Value F) × SameValue f v w
        × Leads f (value_entries key expiry v) t (with_expiry key expiry (with_value key w t))
  unfolding value_entries is_empty_collection is_empty field_entries
  value_entries-Leads key expiry (Value.string bytes) t a x h e =
      (string bytes, refl, string-Leads key bytes expiry t x)
  value_entries-Leads key expiry (Value.list l) t a x h e = (
    list l,
    refl,
    cons-Leads f (WalEntry.r_push key l) _ (list-Leads key l t a) (expire_entry-Leads key expiry _),
  )
  value_entries-Leads key expiry (Value.set s) t a x h e = (
    set s,
    refl,
    cons-Leads f (WalEntry.s_add key s) _ (set-Leads key s t a h) (expire_entry-Leads key expiry _),
  )
  value_entries-Leads key expiry (Value.sorted_set z) t a x h e = (
    sorted_set (insert_all f (iter z) 0 empty).0,
    zset-SameValue z h,
    cons-Leads f (WalEntry.z_add key (iter z)) _ (zset-Leads key (iter z) t a)
        (expire_entry-Leads key expiry _),
  )
  value_entries-Leads key expiry (Value.hash []) t a x h e = absurd (ground arith)
  value_entries-Leads key expiry (Value.hash ((field, value) ∷ fs)) t a x h e = (
    hash ((field, value) ∷ fs),
    refl,
    append-Leads f (field_entries key ((field, value) ∷ fs)) (expire_entry key expiry)
        (hash-Leads key field value fs t a h) (expire_entry-Leads key expiry _),
  )
