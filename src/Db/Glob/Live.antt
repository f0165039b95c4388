-- ===== src/Db/Glob/Live.antt =====
-- The keys that KEYS of crates/redis-wasm-core/src/db.rs answers.
use mathlib.Core.Path.{subst}
use Prim.Native.String
use mathlib.Core.List.{append_assoc}
use kvasm.Common.{
  ℕ, suc, ◌+◌, String, true, false, List, [], ◌∷◌, ◌++◌, ◌≡◌, refl, sym, ap, ◌∙◌, arith, ok, length,
  Result-cases, inl, inr, eq_refl, Bool-cases, not, ◌&&◌,
}
use kvasm.HashMap.{HashMap, contains_key, lookup}
use kvasm.Value.{Value}
use kvasm.Db.{Db, expired}
use kvasm.Db.Keys.{exists_loop, exists}
use kvasm.Db.Glob.{RegexCrate, glob_to_regex, keys_loop, keys}

contains_key-middle :
    {V : Type 0} (before after : HashMap V) (k : String) (v : V)
    → contains_key k (before ++ (k, v) ∷ after) ≡ true
unfolding contains_key lookup
contains_key-middle [] after k v = rw (contains_key, lookup, eq_refl k) refl
contains_key-middle ((i, x) ∷ before) after k v =
    ground (arith, contains_key-middle before after k v)

module _ {F W R : Type 0} (regex : RegexCrate R) where
  exists_loop-live :
      (key : String) (ks : List String) (count : ℕ) (db : Db F W)
      → expired key db ≡ false
      → contains_key key db.data_map ≡ true
      → exists_loop (key ∷ ks) count db ≡ exists_loop ks (suc count) db
  unfolding exists_loop
  exists_loop-live key ks count db live found = rw (live, exists_loop, found) refl

  -- The loop of EXISTS on what the loop of KEYS makes of the last entries.
  exists-keys_loop :
      (r : R) (db : Db F W) (before entries : HashMap (Value F)) (count : ℕ)
      → db.data_map ≡ before ++ entries
      → exists_loop (keys_loop regex r db entries) count db
        ≡ (count + length (keys_loop regex r db entries), db)
  unfolding keys_loop exists_loop
  exists-keys_loop r db before [] count e = ap (λ n. (n, db)) (omega arith)
  exists-keys_loop r db before ((k, v) ∷ entries) count e =
      let found =
        subst (λ m. contains_key k m ≡ true) (sym e) (contains_key-middle before entries k v) in
      let e' = e ∙ sym (append_assoc before ((k, v) ∷ []) entries) in
      elim (Bool-cases (not (expired k db) && regex.is_match r k)) [
        | inl t ↦
            let live : expired k db ≡ false = ground arith in
            rw (t, exists_loop-live k (keys_loop regex r db entries) count db live found)
              (exists-keys_loop r db (before ++ (k, v) ∷ []) entries (suc count) e'
                ∙ ap (λ n. (n, db)) (omega arith))
        | inr t ↦ rw (t) (exists-keys_loop r db (before ++ (k, v) ∷ []) entries count e')
      ]

  keys_ok :
      (pattern : String) (db : Db F W) (ks : List String)
      → keys regex pattern db ≡ ok ks
      → (r : R) × (keys_loop regex r db db.data_map ≡ ks)
  unfolding keys
  keys_ok pattern db ks h =
      elim (Result-cases
        (regex.compile (String.◌++◌ "^" (String.◌++◌ (glob_to_regex regex.escape pattern) "$")))) [
          | inl (r, e) ↦ (r, ground arith)
          | inr (x, e) ↦ absurd (ground arith)
        ]

  -- EXISTS on the keys that KEYS answers counts each of them, and changes nothing: each is there
  -- and has not expired.
  pub exists-keys :
      (pattern : String) (db : Db F W) (ks : List String)
      → keys regex pattern db ≡ ok ks
      → exists ks db ≡ (ok (length ks), db)
  unfolding exists
  exists-keys pattern db ks h =
      let (r, e) = keys_ok pattern db ks h in
      let counted = exists-keys_loop r db [] db.data_map 0 refl in
      subst (λ ks. exists ks db ≡ (ok (length ks), db)) e
        (ap (λ p. (ok p.0, p.1)) counted ∙ ap (λ n. (ok n, db)) (omega arith))
