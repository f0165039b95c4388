-- ===== src/Persistence/Flushed.antt =====
-- What the IndexedDB log of crates/redis-wasm-bindings/src/persistence/indexed_db.rs holds when a flush
-- of `WasmWalWriter` is answered without an error.
use mathlib.Core.List.{append_assoc, append-nil}
use kvasm.Common.{
  ◌≡◌, sym, ap, ◌∙◌, String, List, [], ◌∷◌, ◌++◌, ok, err, Exec, ◌>>◌, arith, bind_ok, Result-cases,
  inl, inr,
}
use kvasm.Wal.{WalEntry}
use kvasm.Persistence.{
  Json, IndexedDb, wal_entry_to_js_value, to_js_all, add_all, append_batch, rewrite_entries,
}

-- What IndexedDB promises: a transaction that fails changes nothing, one that succeeds does what its
-- block did, an object goes in under the next key, and `get_all` reads in the order of the keys.
pub record IndexedDbLaws {S T J : Type 0} (idb : IndexedDb S T J) : Type 0 where
  pub rows : S → List J
  pub inside : T → List J
  pub committed :
      (block : Exec T String (Unit {0})) (s : S)
      → (idb.run block s).0 ≡ ok tt
      → (t : T) × (inside t ≡ rows s)
        × ((block t).0 ≡ ok tt)
        × (rows (idb.run block s).1 ≡ inside (block t).1)
  pub aborted :
      (block : Exec T String (Unit {0})) (s : S) (x : String)
      → (idb.run block s).0 ≡ err x
      → rows (idb.run block s).1 ≡ rows s
  pub added :
      (j : J) (t : T) → (idb.add j t).0 ≡ ok tt → inside (idb.add j t).1 ≡ inside t ++ j ∷ []
  pub cleared : (t : T) → (idb.clear t).0 ≡ ok tt → inside (idb.clear t).1 ≡ []
  pub read : (s : S) (js : List J) → idb.get_all s ≡ ok js → js ≡ rows s

module _ {S T J : Type 0} {idb : IndexedDb S T J} (laws : IndexedDbLaws idb) where
  add_all_ok :
      (js : List J) (t : T)
      → (add_all idb js t).0 ≡ ok tt
      → laws.inside (add_all idb js t).1 ≡ laws.inside t ++ js
  unfolding add_all
  add_all_ok [] t h = sym (append-nil (laws.inside t))
  add_all_ok (j ∷ js) t h =
      let (_, first, more, same) = bind_ok (idb.add j) _ t tt h in
      ap laws.inside same
      ∙ add_all_ok js (idb.add j t).1 more
      ∙ ap (λ x. x ++ js) (laws.added j t first)
      ∙ append_assoc (laws.inside t) (j ∷ []) js

module _ {F J V S T : Type 0} (json : Json F J V) {idb : IndexedDb S T J}
    (laws : IndexedDbLaws idb) where
  -- The rows of the store are these entries, in order.
  abbrev pub IsStored : List (WalEntry F) → S → Type 0
  IsStored log s = to_js_all json log ≡ ok (laws.rows s)

  to_js_all-append :
      (xs ys : List (WalEntry F)) (a b : List J)
      → to_js_all json xs ≡ ok a
      → to_js_all json ys ≡ ok b
      → to_js_all json (xs ++ ys) ≡ ok (a ++ b)
  unfolding to_js_all
  to_js_all-append [] ys a b h k = ground arith
  to_js_all-append (x ∷ xs) ys a b h k = elim (Result-cases (wal_entry_to_js_value json x)) [
    | inl (j, e) ↦ elim (Result-cases (to_js_all json xs)) [
      | inl (js, e') ↦
          let all : j ∷ js ≡ a = ground arith in
          let rest = to_js_all-append xs ys js b e' k in
          rw (e, to_js_all, rest) (ap (λ l. ok (l ++ b)) all)
      | inr (z, e') ↦ absurd (ground arith)
    ]
    | inr (z, e) ↦ absurd (ground arith)
  ]

  pub append_batch_ok :
      (log batch : List (WalEntry F)) (s : S)
      → IsStored log s
      → (append_batch json idb batch s).0 ≡ ok tt
      → IsStored (log ++ batch) (append_batch json idb batch s).1
  unfolding append_batch
  append_batch_ok log batch s h r = elim (Result-cases (to_js_all json batch)) [
    | inl (js, e) ↦
        let (t, start, fine, done) = laws.committed (add_all idb js) s (ground arith) in
        let all = done ∙ add_all_ok laws js t fine ∙ ap (λ x. x ++ js) start in
        rw (e, append_batch) (to_js_all-append log batch (laws.rows s) js h e ∙ ap ok (sym all))
    | inr (x, e) ↦ absurd (ground arith)
  ]

  append_batch_err :
      (log batch : List (WalEntry F)) (s : S) (x : String)
      → IsStored log s
      → (append_batch json idb batch s).0 ≡ err x
      → IsStored log (append_batch json idb batch s).1
  unfolding append_batch
  append_batch_err log batch s x h r = elim (Result-cases (to_js_all json batch)) [
    | inl (js, e) ↦
        rw (e, append_batch) (h ∙ ap ok (sym (laws.aborted (add_all idb js) s x (ground arith))))
    | inr (y, e) ↦ rw (e, append_batch) h
  ]

  pub rewrite_entries_ok :
      (entries : List (WalEntry F)) (s : S)
      → (rewrite_entries json idb entries s).0 ≡ ok tt
      → IsStored entries (rewrite_entries json idb entries s).1
  unfolding rewrite_entries
  rewrite_entries_ok entries s r = elim (Result-cases (to_js_all json entries)) [
    | inl (js, e) ↦
        let (t, start, fine, done) =
          laws.committed (idb.clear >> add_all idb js) s (ground arith) in
        let (_, wiped, more, same) = bind_ok idb.clear _ t tt fine in
        let all =
          done
          ∙ ap laws.inside same
          ∙ add_all_ok laws js (idb.clear t).1 more
          ∙ ap (λ x. x ++ js) (laws.cleared t wiped) in
        rw (e, rewrite_entries) (ap ok (sym all))
    | inr (x, e) ↦ absurd (ground arith)
  ]

  pub rewrite_entries_err :
      (log entries : List (WalEntry F)) (s : S) (x : String)
      → IsStored log s
      → (rewrite_entries json idb entries s).0 ≡ err x
      → IsStored log (rewrite_entries json idb entries s).1
  unfolding rewrite_entries
  rewrite_entries_err log entries s x h r = elim (Result-cases (to_js_all json entries)) [
    | inl (js, e) ↦
        rw (e, rewrite_entries)
          (h ∙ ap ok (sym (laws.aborted (idb.clear >> add_all idb js) s x (ground arith))))
    | inr (y, e) ↦ rw (e, rewrite_entries) h
  ]
