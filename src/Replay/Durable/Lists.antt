-- ===== src/Replay/Durable/Lists.antt =====
-- The commands of crates/redis-wasm-core/src/db.rs that change lists in place or take from them,
-- against their log entries.
use mathlib.Core.Path.{subst}
use kvasm.Common.{
  ℕ, String, ◌≡◌, refl, sym, ap, ◌∙◌, false, List, [], ◌∷◌, ok, err, pure, ◌>>=◌, ◌>>◌, bind_ok,
}
use kvasm.Common.Int.{ℤ}
use kvasm.Float.{Float64}
use kvasm.Value.{Value, Write}
use kvasm.Value.Lists
use kvasm.Wal.{WalEntry, WalWriterTrait}
use kvasm.Db.{Db, typed, update, key_not_found, expired}
use kvasm.Db.Persist.{write_wal}
use kvasm.Db.Lists.{lpop, rpop, lset, ltrim, log_popped}
use kvasm.Replay.{Tables, on_existing, apply_entry}
use kvasm.Replay.Durable.{Log, IsDurable}
use kvasm.Value.Idle.{lpop_idle, rpop_idle}
use kvasm.Replay.Durable.Parts.{
  update_log-IsDurable, update_idle-IsDurable, on_live-IsDurable, update_write-IsDurable,
}

module _ {F W : Type 0} (f : Float64 F) {writer : WalWriterTrait W F} (log : Log writer) where
  pub lset-IsDurable :
      (key : String) (index : ℤ) (value : String) (y : Unit) (db : Db F W)
      → expired key db ≡ false
      → (lset writer key index value db).0 ≡ ok y
      → IsDurable f log db
      → IsDurable f log (lset writer key index value db).1
  unfolding lset apply_entry
  lset-IsDurable key index value y db e r h =
      on_live-IsDurable f log key (err key_not_found)
        (update key (typed (Lists.lset index value))
          >> write_wal writer (WalEntry.l_set key index value))
        y db e
        (λ k.
          update_write-IsDurable f log key (Lists.lset index value) (WalEntry.l_set key index value)
            y db (λ t. refl) k h)
        r

  pub ltrim-IsDurable :
      (key : String) (start : ℤ) (stop : ℤ) (y : Unit) (db : Db F W)
      → expired key db ≡ false
      → (ltrim writer key start stop db).0 ≡ ok y
      → IsDurable f log db
      → IsDurable f log (ltrim writer key start stop db).1
  unfolding ltrim apply_entry
  ltrim-IsDurable key start stop y db e r h =
      on_live-IsDurable f log key (ok tt)
        (update key (typed (Lists.ltrim start stop))
          >> write_wal writer (WalEntry.l_trim key start stop))
        y db e
        (λ k.
          update_write-IsDurable f log key (Lists.ltrim start stop) (WalEntry.l_trim key start stop)
            y db (λ t. refl) k h)
        r

  -- What was popped is logged if it is anything.
  log_popped-IsDurable :
      (popped : List String) (entry : WalEntry F) (y : List String) (b : Db F W)
      → (popped ≡ [] → IsDurable f log b)
      → (((write_wal writer entry >> pure popped) b).0 ≡ ok y
          → IsDurable f log ((write_wal writer entry >> pure popped) b).1)
      → (log_popped writer popped entry b).0 ≡ ok y
      → IsDurable f log (log_popped writer popped entry b).1
  unfolding log_popped
  log_popped-IsDurable [] entry y b h k r = h refl
  log_popped-IsDurable (x ∷ xs) entry y b h k r = k r

  pop-IsDurable :
      (key : String) (op : Write F (List String)) (entry : WalEntry F) (y : List String)
      (db : Db F W)
      → ((t : Tables F) → apply_entry f entry t ≡ on_existing key op t)
      → ((v : Value F) → (op v).0 ≡ ok [] → (op v).1 ≡ v)
      → ((update key (typed op) >>= λ popped. log_popped writer popped entry) db).0 ≡ ok y
      → IsDurable f log db
      → IsDurable f log ((update key (typed op) >>= λ popped. log_popped writer popped entry) db).1
  pop-IsDurable key op entry y db same idle r h =
      let (popped, p, r', q) =
        bind_ok (update key (typed op)) (λ popped. log_popped writer popped entry) db y r in
      subst (IsDurable f log) (sym q) (
        log_popped-IsDurable popped entry y (update key (typed op) db).1
          (λ z. update_idle-IsDurable f log key op [] db idle (p ∙ ap ok z) h)
          (λ k. update_log-IsDurable f log key op entry popped y db same p k h) r')

  pub lpop-IsDurable :
      (key : String) (count : ℕ) (y : List String) (db : Db F W)
      → expired key db ≡ false
      → (lpop writer key count db).0 ≡ ok y
      → IsDurable f log db
      → IsDurable f log (lpop writer key count db).1
  unfolding lpop apply_entry
  lpop-IsDurable key count y db e r h =
      on_live-IsDurable f log key (ok [])
        (update key (typed (Lists.lpop count)) >>= λ popped.
          log_popped writer popped (WalEntry.l_pop key count))
        y db e
        (λ k.
          pop-IsDurable key (Lists.lpop count) (WalEntry.l_pop key count) y db (λ t. refl)
            (lpop_idle count) k h)
        r

  pub rpop-IsDurable :
      (key : String) (count : ℕ) (y : List String) (db : Db F W)
      → expired key db ≡ false
      → (rpop writer key count db).0 ≡ ok y
      → IsDurable f log db
      → IsDurable f log (rpop writer key count db).1
  unfolding rpop apply_entry
  rpop-IsDurable key count y db e r h =
      on_live-IsDurable f log key (ok [])
        (update key (typed (Lists.rpop count)) >>= λ popped.
          log_popped writer popped (WalEntry.r_pop key count))
        y db e
        (λ k.
          pop-IsDurable key (Lists.rpop count) (WalEntry.r_pop key count) y db (λ t. refl)
            (rpop_idle count) k h)
        r
