-- ===== src/Replay/Durable/Expired.antt =====
-- RPUSH of crates/redis-wasm-core/src/db.rs on a key that has expired, and its log.
use kvasm.Common.{
  ℕ, ◌≤◌, String, ◌≡◌, refl, ap, ◌∙◌, true, none, some, List, [], ◌∷◌, ◌++◌, ok, pure, ◌>>◌, arith,
}
use kvasm.HashMap
use kvasm.HashMap.{HashMap, lookup, insert, contains_key}
use kvasm.HashMap.Laws.{lookup-remove_self, lookup-insert_self}
use kvasm.Float.{Float64}
use kvasm.Value.{list}
use kvasm.Value.Lists
use kvasm.Wal.{WalEntry, WalWriterTrait}
use kvasm.Expiry.{is_expired}
use kvasm.Db.{Db, upsert, purge_expired, expired, del, del_loop}
use kvasm.Db.Persist.{write_wal}
use kvasm.Db.Lists.{rpush}
use kvasm.Replay.{Tables, on_entry, apply_entry, replay, empty_tables}
use kvasm.Replay.Durable.{Log, IsDurable}
use kvasm.Replay.Durable.{write_wal-append}
use kvasm.Replay.Agree.{replay-snoc}
use kvasm.Db.Frame.{write_wal-SameTables}
use kvasm.Value.Lists.{push_back_all}

module _ {F W : Type 0} (f : Float64 F) {writer : WalWriterTrait W F} (log : Log writer) where
  -- What RPUSH of one value leaves in memory when the key has expired.
  abbrev pub pushed : String → String → Db F W → Db F W
  pushed key value db = record db {
    data_map = insert key (list (value ∷ [])) (HashMap.remove key db.data_map);
    expiry = HashMap.remove key db.expiry;
  }

  del_known :
      (key : String) (db : Db F W)
      → contains_key key db.data_map ≡ true
      → (del (key ∷ []) db).1 ≡ record db {
        data_map = HashMap.remove key db.data_map;
        expiry = HashMap.remove key db.expiry;
      }
  unfolding del del_loop
  del_known key db c = rw c refl

  late_expired :
      (key : String) (ms : ℕ) (db : Db F W)
      → lookup key db.expiry ≡ some ms
      → ms ≤ db.now
      → expired key db ≡ true
  unfolding expired is_expired
  late_expired key ms db x late = ground arith

  known :
      (key : String) (old : List String) (db : Db F W)
      → lookup key db.data_map ≡ some (list old)
      → contains_key key db.data_map ≡ true
  unfolding contains_key
  known key old db d = rw (d, contains_key) refl

  rpush-pushed :
      (key value : String) (db : Db F W)
      → expired key db ≡ true
      → contains_key key db.data_map ≡ true
      → rpush writer key (value ∷ []) db
        ≡ (write_wal writer (WalEntry.r_push key (value ∷ [])) >> pure 1) (pushed key value db)
  unfolding rpush purge_expired upsert Lists.rpush push_back_all
  rpush-pushed key value db e c =
      rw (e, del_known key db c, lookup-remove_self key db.data_map) refl

  -- RPUSH of one value to a list whose time has run out, in a database without compaction whose log
  -- gives its tables, and where the log takes the entry: the key then holds just the new value and
  -- has no expiry time, but the log holds entries that replay into the old list with the new value at
  -- its end, under the expiry time that has passed.
  pub rpush_expired_lem :
      (key value : String) (old : List String) (ms : ℕ) (db : Db F W)
      → lookup key db.data_map ≡ some (list old)
      → lookup key db.expiry ≡ some ms
      → ms ≤ db.now
      → (write_wal writer (WalEntry.r_push key (value ∷ [])) (pushed key value db)).0 ≡ ok tt
      → IsDurable f log db
      → (w : W) × (es : List (WalEntry F)) × ((rpush writer key (value ∷ []) db).1.wal ≡ some w)
        × log.Holds es w
        × (lookup key (rpush writer key (value ∷ []) db).1.data_map ≡ some (list (value ∷ [])))
        × (lookup key (rpush writer key (value ∷ []) db).1.expiry ≡ none)
        × (lookup key (replay f es 0 empty_tables).1.data_map ≡ some (list (old ++ value ∷ [])))
        × (lookup key (replay f es 0 empty_tables).1.expiry ≡ some ms)
  unfolding apply_entry on_entry Lists.rpush push_back_all
  rpush_expired_lem key value old ms db d x late r h =
      let entry = WalEntry.r_push key (value ∷ []) in
      let b = pushed key value db in
      let (fine, wal, _) = write_wal-append writer entry b h.w h.attached h.uncompacted r in
      let same = write_wal-SameTables writer entry b in
      let w' = (writer.append entry h.w).1 in
      let after : (rpush writer key (value ∷ []) db).1 ≡ (write_wal writer entry b).1 =
        ap (λ p. p.1)
          (rpush-pushed key value db (late_expired key ms db x late) (known key old db d))
        ∙ rw r refl in
      let held : lookup key h.replayed.data_map ≡ some (list old) = h.agree.data_map key ∙ d in
      let t : Tables F = record h.replayed {
        data_map = insert key (list (old ++ value ∷ [])) h.replayed.data_map;
      } in
      let applied : apply_entry f entry h.replayed ≡ (ok tt, t) = rw held refl in
      let run =
        replay-snoc f h.entries entry 0 h.count empty_tables h.replayed t h.replays applied in
      (
        w',
        h.entries ++ entry ∷ [],
        ap (λ d. d.wal) after ∙ wal,
        log.appended entry h.w h.holds fine,
        ap (λ d. lookup key d.data_map) after
            ∙ ap (lookup key) same.data_map
            ∙ lookup-insert_self key (list (value ∷ [])) (HashMap.remove key db.data_map),
        ap (λ d. lookup key d.expiry) after
            ∙ ap (lookup key) same.expiry
            ∙ lookup-remove_self key db.expiry,
        ap (λ p. lookup key p.1.data_map) run
            ∙ lookup-insert_self key (list (old ++ value ∷ [])) h.replayed.data_map,
        ap (λ p. lookup key p.1.expiry) run ∙ h.agree.expiry key ∙ x,
      )
