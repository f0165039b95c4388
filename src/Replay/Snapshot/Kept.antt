-- ===== src/Replay/Snapshot/Kept.antt =====
-- The snapshot of all the tables of crates/redis-wasm-core/src/db.rs, replayed into empty tables.
use mathlib.Core.Path.{subst}
use kvasm.Common.{
  ℕ, String, ◌≡◌, refl, sym, ap, ◌∙◌, ok, true, false, Option, none, some, [], ◌∷◌, ◌++◌, ◌==◌,
  eq_iff, eq_refl, ◌⊎◌, if◌then◌else◌, arith, Bool-cases, inl, inr,
}
use kvasm.HashMap.{HashMap, lookup, insert}
use kvasm.HashMap.Laws.{IsDistinct, AllValues, lookup-insert, lookup-insert_self}
use kvasm.Float.{Float64}
use kvasm.Value.{Value}
use kvasm.Value.WellFormed.{IsWellFormed}
use kvasm.Expiry.{ExpiryManager, is_expired, get_expiry_ms}
use kvasm.Db.{Db}
use kvasm.Db.Persist.{value_entries, is_empty_collection, snapshot_loop, snapshot_entries}
use kvasm.Db.Valid.{IsValid}
use kvasm.Replay.{Tables, empty_tables, replay}
use kvasm.Replay.Snapshot.Leads.{Leads, refl-Leads, append-Leads}
use kvasm.Replay.Snapshot.Values.{SameValue, timed, with_expiry, with_value, value_entries-Leads}

module _ {F : Type 0} where
  -- What a snapshot keeps: the values of keys that have not expired, but no empty collection.
  abbrev pub keeps : String → ℕ → ExpiryManager → Value F → Option (Value F)
  keeps key now expiry v =
      if is_expired key now expiry then none else if is_empty_collection v then none else some v

  abbrev pub keeps_found : String → ℕ → ExpiryManager → Option (Value F) → Option (Value F)
  keeps_found key now expiry none = none
  keeps_found key now expiry (some v) = keeps key now expiry v

  abbrev pub kept : String → ℕ → ExpiryManager → HashMap (Value F) → Option (Value F)
  kept key now expiry data_map = keeps_found key now expiry (lookup key data_map)

same_key : (key j : String) → (key == j) ≡ true → key ≡ j
same_key key j h = ground (arith, eq_iff key j)

insert_other :
    {V : Type 0} (key j : String) (v : V) (m : HashMap V)
    → (key == j) ≡ false
    → lookup j (insert key v m) ≡ lookup j m
insert_other key j v m h = ground (arith, lookup-insert key j v m)

timed_other :
    (key j : String) (e : Option ℕ) (m : ExpiryManager)
    → (key == j) ≡ false
    → lookup j (timed key e m) ≡ lookup j m
timed_other key j none m h = refl
timed_other key j (some ms) m h = insert_other key j ms m h

timed_self :
    (key : String) (e : Option ℕ) (m : ExpiryManager)
    → lookup key m ≡ none
    → lookup key (timed key e m) ≡ e
timed_self key none m h = h
timed_self key (some ms) m h = lookup-insert_self key ms m

-- What is found after a replay, where a value was kept and where none was.
abbrev pub IsRestored :
    {F : Type 0} → Float64 F → Option (Value F) → Option (Value F) → Option (Value F) → Type 0
IsRestored f none before after = after ≡ before
IsRestored f (some v) before after = (w : Value _) × (after ≡ some w) × SameValue f v w

abbrev pub time_restored : {V : Type 0} → Option V → Option ℕ → Option ℕ → Option ℕ
time_restored none before time = before
time_restored (some v) before time = time

module _ {F : Type 0} (f : Float64 F) (expiry : ExpiryManager) where
  -- The tables `b` after the replay of a snapshot that starts from `a`, at one key, of which the
  -- snapshot kept `k`.
  pub record At (a b : Tables F) (j : String) (k : Option (Value F)) : Type 0 where
    pub value : IsRestored f k (lookup j a.data_map) (lookup j b.data_map)
    pub time : lookup j b.expiry ≡ time_restored k (lookup j a.expiry) (lookup j expiry)

  -- The key that was written first.
  At-here :
      (key : String) (v w : Value F) (a b : Tables F)
      → SameValue f v w
      → lookup key a.expiry ≡ none
      → At (with_expiry key (get_expiry_ms key expiry) (with_value key w a)) b key none
      → At a b key (some v)
  unfolding get_expiry_ms
  At-here key v w a b r x h = record {
    value = (w, h.value ∙ lookup-insert_self key w a.data_map, r);
    time = h.time ∙ timed_self key (lookup key expiry) a.expiry x;
  }

  At-there :
      (key j : String) (w : Value F) (k : Option (Value F)) (e : Option ℕ) (a b : Tables F)
      → (key == j) ≡ false
      → At (with_expiry key e (with_value key w a)) b j k
      → At a b j k
  At-there key j w k e a b other h = record {
    value =
        subst (λ o. IsRestored f k o (lookup j b.data_map)) (insert_other key j w a.data_map other)
          h.value;
    time =
        subst (λ o. lookup j b.expiry ≡ time_restored k o (lookup j expiry))
          (timed_other key j e a.expiry other) h.time;
  }

module _ {F : Type 0} (f : Float64 F) (now : ℕ) (expiry : ExpiryManager) where
  lookup_head :
      (key : String) (v : Value F) (m : HashMap (Value F)) → lookup key ((key, v) ∷ m) ≡ some v
  unfolding lookup
  lookup_head key v m = rw (eq_refl key) refl

  lookup_other :
      (key j : String) (v : Value F) (m : HashMap (Value F))
      → (key == j) ≡ false
      → lookup j ((key, v) ∷ m) ≡ lookup j m
  unfolding lookup
  lookup_other key j v m h = rw h refl

  kept_absent :
      (j : String) (m : HashMap (Value F)) → lookup j m ≡ none → kept j now expiry m ≡ none
  kept_absent j m h = ap (keeps_found j now expiry) h

  kept_head :
      (key : String) (v : Value F) (m : HashMap (Value F))
      → kept key now expiry ((key, v) ∷ m) ≡ keeps key now expiry v
  kept_head key v m = ap (keeps_found key now expiry) (lookup_head key v m)

  kept_tail :
      (key j : String) (v : Value F) (m : HashMap (Value F))
      → (key == j) ≡ false
      → kept j now expiry ((key, v) ∷ m) ≡ kept j now expiry m
  kept_tail key j v m h = ap (keeps_found j now expiry) (lookup_other key j v m h)

  keeps-cases :
      (key : String) (v : Value F) (data' : HashMap (Value F))
      → ((keeps key now expiry v ≡ none)
          × (snapshot_loop now expiry ((key, v) ∷ data') ≡ snapshot_loop now expiry data'))
        ⊎ ((keeps key now expiry v ≡ some v)
            × (is_empty_collection v ≡ false)
            × (snapshot_loop now expiry ((key, v) ∷ data')
                ≡ value_entries key (get_expiry_ms key expiry) v ++ snapshot_loop now expiry data'))
  unfolding snapshot_loop
  keeps-cases key v data' = elim (Bool-cases (is_expired key now expiry)) [
    | inl e ↦ rw e (inl (refl, refl))
    | inr e ↦ elim (Bool-cases (is_empty_collection v)) [
      | inl k ↦ rw (e, k) (inl (refl, refl))
      | inr k ↦ rw (e, k) (inr (refl, refl, refl))
    ]
  ]

  lookup_tail :
      (key j : String) (v w : Value F) (m : HashMap (Value F))
      → lookup key m ≡ none
      → lookup j m ≡ some w
      → ((key == j) ≡ false) × (lookup j ((key, v) ∷ m) ≡ some w)
  unfolding lookup
  lookup_tail key j v w m h k = ground (arith, eq_iff key j)

  snapshot_loop-Leads :
      (data_map : HashMap (Value F)) (a : Tables F)
      → IsDistinct data_map
      → AllValues (IsWellFormed f) data_map
      → ((j : String) (v : Value F) → lookup j data_map ≡ some v → lookup j a.data_map ≡ none)
      → ((j : String) (v : Value F) → lookup j data_map ≡ some v → lookup j a.expiry ≡ none)
      → (b : Tables F) × Leads f (snapshot_loop now expiry data_map) a b
        × ((j : String) → At f expiry a b j (kept j now expiry data_map))
  snapshot_loop-Leads [] a d h p q = (
    a,
    (unfold snapshot_loop in refl-Leads f a),
    λ j. (unfold lookup in record { value = refl; time = refl }),
  )
  snapshot_loop-Leads ((key, v) ∷ data') a d h p q = elim (keeps-cases key v data') [
    | inl (skipped, loop) ↦
        let (b, leads, at) =
          snapshot_loop-Leads data' a d.1 h.1 (λ j w e. p j w (lookup_tail key j v w data' d.0 e).1)
            (λ j w e. q j w (lookup_tail key j v w data' d.0 e).1) in
        (
          b,
          subst (λ es. Leads f es a b) (sym loop) leads,
          λ j. elim (Bool-cases (key == j)) [
            | inl e ↦
                subst (λ i. At f expiry a b i (kept i now expiry ((key, v) ∷ data')))
                  (same_key key j e)
                  (subst (At f expiry a b key)
                    (kept_absent key data' d.0 ∙ sym skipped ∙ sym (kept_head key v data'))
                    (at key))
            | inr e ↦ subst (At f expiry a b j) (sym (kept_tail key j v data' e)) (at j)
          ],
        )
    | inr (keep, full, loop) ↦
        let time = get_expiry_ms key expiry in
        let (w, same, first) =
          value_entries-Leads f key time v a (p key v (lookup_head key v data'))
            (q key v (lookup_head key v data')) h.0 full in
        let a' = with_expiry key time (with_value key w a) in
        let (b, leads, at) =
          snapshot_loop-Leads data' a' d.1 h.1
            (λ j x e.
              let (other, found) = lookup_tail key j v x data' d.0 e in
              insert_other key j w a.data_map other ∙ p j x found)
            (λ j x e.
              let (other, found) = lookup_tail key j v x data' d.0 e in
              timed_other key j time a.expiry other ∙ q j x found) in
        (
          b,
          subst (λ es. Leads f es a b) (sym loop)
              (append-Leads f (value_entries key time v) (snapshot_loop now expiry data') first
                leads),
          λ j. elim (Bool-cases (key == j)) [
            | inl e ↦
                subst (λ i. At f expiry a b i (kept i now expiry ((key, v) ∷ data')))
                  (same_key key j e)
                  (subst (At f expiry a b key) (sym (kept_head key v data' ∙ keep)) (
                    At-here f expiry key v w a b same (q key v (lookup_head key v data'))
                      (subst (At f expiry a' b key) (kept_absent key data' d.0) (at key))))
            | inr e ↦
                subst (At f expiry a b j) (sym (kept_tail key j v data' e))
                  (At-there f expiry key j w _ time a b e (at j))
          ],
        )
  ]

-- The tables that hold what a snapshot of the database keeps, and nothing else.
pub record Restores {F W : Type 0} (f : Float64 F) (db : Db F W) (t : Tables F) : Type 0 where
  pub value :
      (j : String) → IsRestored f (kept j db.now db.expiry db.data_map) none (lookup j t.data_map)
  pub time :
      (j : String)
      → lookup j t.expiry
        ≡ time_restored (kept j db.now db.expiry db.data_map) none (lookup j db.expiry)

-- The snapshot of valid tables replays into empty tables without an error. It gives at each key that
-- has not expired and whose value is not an empty collection the same value, and the same expiry
-- time if any; at the other keys it gives nothing. A sorted set comes back with its halves in step,
-- and with the same members at scores that OrderedFloat calls equal.
pub snapshot_entries_lem :
    {F W : Type 0} (f : Float64 F) (db : Db F W)
    → IsValid f db
    → (count : ℕ) × (t : Tables F) × (replay f (snapshot_entries db) 0 empty_tables ≡ (ok count, t))
      × Restores f db t
unfolding snapshot_entries lookup
snapshot_entries_lem f db h =
    let (t, leads, at) =
      snapshot_loop-Leads f db.now db.expiry db.data_map empty_tables h.distinct h.healthy
        (λ j v e. refl) (λ j v e. refl) in
    let (count, run) = leads.at 0 in
    (count, t, run, record { value = λ j. (at j).value; time = λ j. (at j).time })
