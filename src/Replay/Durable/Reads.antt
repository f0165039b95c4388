-- ===== src/Replay/Durable/Reads.antt =====
-- The commands of crates/redis-wasm-core/src/db.rs that read several keys, where none has expired.
use kvasm.Common.{
  ℕ, String, Option, none, some, List, [], ◌∷◌, ◌≡◌, refl, ap, ◌∙◌, false, pure, ◌>>=◌,
  Option-cases, Result-cases, inl, inr,
}
use kvasm.HashMap.{HashSet, lookup}
use kvasm.Db.{Db, Command, expired}
use kvasm.Db.Keys.{exists_loop, exists}
use kvasm.Db.Sets.{set_at, sinter_loop, sinter, sunion_loop, sunion, sdiff_loop, sdiff}

module _ {F W : Type 0} where
  -- None of the keys has expired.
  abbrev pub AllLive : List String → Db F W → Type 0
  AllLive [] db = Unit
  AllLive (key ∷ ks) db = (expired key db ≡ false) × AllLive ks db

  exists_loop_live :
      (ks : List String) (count : ℕ) (db : Db F W)
      → AllLive ks db
      → (exists_loop ks count db).1 ≡ db
  unfolding exists_loop
  exists_loop_live [] count db h = refl
  exists_loop_live (key ∷ ks) count db h = rw (h.0, exists_loop) (exists_loop_live ks _ db h.1)

  pub exists_live : (ks : List String) (db : Db F W) → AllLive ks db → (exists ks db).1 ≡ db
  unfolding exists
  exists_live ks db h = exists_loop_live ks 0 db h

  set_at_live : (key : String) (db : Db F W) → expired key db ≡ false → (set_at key db).1 ≡ db
  unfolding set_at
  set_at_live key db h = rw h (elim (Option-cases (lookup key db.data_map)) [
    | inl e ↦ rw (e, set_at) refl
    | inr (v, e) ↦ rw (e, set_at) refl
  ])

  -- A command that goes on with what it read at a live key.
  then_live :
      {A : Type 0} (key : String) (next : Option HashSet → Command F W A) (db : Db F W)
      → expired key db ≡ false
      → ((found : Option HashSet) → (next found db).1 ≡ db)
      → ((set_at key >>= next) db).1 ≡ db
  then_live key next db h k = elim (Result-cases (set_at key db).0) [
    | inl (found, e) ↦ rw (e) (ap (λ d. (next found d).1) (set_at_live key db h) ∙ k found)
    | inr (x, e) ↦ rw (e) (set_at_live key db h)
  ]

  none_or_live :
      {A : Type 0} (next : Option HashSet → Command F W A) (db : Db F W)
      → (next none db).1 ≡ db
      → ((s : HashSet) → (next (some s) db).1 ≡ db)
      → (found : Option HashSet) → (next found db).1 ≡ db
  none_or_live next db h k none = h
  none_or_live next db h k (some s) = k s

  -- The same where a key without a set ends the command.
  then_found_live :
      {A : Type 0} (key : String) (answer : A) (next : HashSet → Command F W A) (db : Db F W)
      → expired key db ≡ false
      → ((s : HashSet) → (next s db).1 ≡ db)
      → ((set_at key >>= (λ found. elim found [ none ↦ pure answer | some s ↦ next s ])) db).1 ≡ db
  then_found_live {A} key answer next db h k = then_live key _ db h (
      none_or_live {A = A} (λ found. elim found [ none ↦ pure answer | some s ↦ next s ]) db refl k)

  sinter_loop_live :
      (ks : List String) (result : HashSet) (db : Db F W)
      → AllLive ks db
      → (sinter_loop ks result db).1 ≡ db
  unfolding sinter_loop
  sinter_loop_live [] result db h = refl
  sinter_loop_live (key ∷ ks) result db h =
      then_found_live key [] _ db h.0 (λ other. sinter_loop_live ks _ db h.1)

  pub sinter_live : (ks : List String) (db : Db F W) → AllLive ks db → (sinter ks db).1 ≡ db
  unfolding sinter
  sinter_live [] db h = refl
  sinter_live (key ∷ ks) db h = then_found_live key [] _ db h.0 (λ s. sinter_loop_live ks _ db h.1)

  sunion_loop_live :
      (ks : List String) (result : HashSet) (db : Db F W)
      → AllLive ks db
      → (sunion_loop ks result db).1 ≡ db
  unfolding sunion_loop
  sunion_loop_live [] result db h = refl
  sunion_loop_live (key ∷ ks) result db h =
      then_live key _ db h.0 (λ found. sunion_loop_live ks _ db h.1)

  pub sunion_live : (ks : List String) (db : Db F W) → AllLive ks db → (sunion ks db).1 ≡ db
  unfolding sunion
  sunion_live ks db h = sunion_loop_live ks [] db h

  sdiff_loop_live :
      (ks : List String) (result : HashSet) (db : Db F W)
      → AllLive ks db
      → (sdiff_loop ks result db).1 ≡ db
  unfolding sdiff_loop
  sdiff_loop_live [] result db h = refl
  sdiff_loop_live (key ∷ ks) result db h =
      then_live key _ db h.0 (λ found. sdiff_loop_live ks _ db h.1)

  pub sdiff_live :
      (key : String) (ks : List String) (db : Db F W)
      → AllLive (key ∷ ks) db
      → (sdiff key ks db).1 ≡ db
  unfolding sdiff
  sdiff_live key ks db h = then_found_live key [] _ db h.0 (λ s. sdiff_loop_live ks _ db h.1)
