-- ===== src/Persistence/Queue.antt =====
-- The queue of `WasmWalWriter` in crates/redis-wasm-bindings/src/persistence/indexed_db.rs: in which
-- order its task takes the commands, and that it takes all of them.
use kvasm.Common.{
  ℕ, suc, zero, ◌≤◌, ◌≡◌, refl, sym, ap, ◌∙◌, Option, none, some, List, [], ◌∷◌, ◌++◌, map, length,
  length-append, arith, Option-cases, Result-cases, inl, inr,
}
use kvasm.Wal.{WalEntry}
use kvasm.Persistence.{
  Json, IndexedDb, WalCommand, Writer, take_batch, next_command, append_batch, write_batch,
  rewrite_entries, handle, turn,
}

module _ {F : Type 0} where
  abbrev pub one : Option (WalCommand F) → List (WalCommand F)
  one none = []
  one (some c) = c ∷ []

  -- The commands that were sent and not yet taken, the oldest first.
  abbrev pub pending : {S : Type 0} → Writer F S → List (WalCommand F)
  pending w = one w.deferred ++ w.queue

  abbrev pub appends : List (WalEntry F) → List (WalCommand F)
  appends batch = map WalCommand.append batch

  take_batch_lem :
      (cs : List (WalCommand F))
      → appends (take_batch cs).0 ++ (one (take_batch cs).1 ++ (take_batch cs).2) ≡ cs
  unfolding take_batch
  take_batch_lem [] = refl
  take_batch_lem (WalCommand.append e ∷ cs) = ap (λ x. WalCommand.append e ∷ x) (take_batch_lem cs)
  take_batch_lem (WalCommand.flush ∷ cs) = refl
  take_batch_lem (WalCommand.count ∷ cs) = refl
  take_batch_lem (WalCommand.rewrite es ∷ cs) = refl

  -- What one turn takes off the queue, given the command with which it starts.
  abbrev pub taken_with : {S : Type 0} → WalCommand F → Writer F S → List (WalCommand F)
  taken_with (WalCommand.append e) w = WalCommand.append e ∷ appends (take_batch w.queue).0
  taken_with WalCommand.flush w = WalCommand.flush ∷ []
  taken_with WalCommand.count w = WalCommand.count ∷ []
  taken_with (WalCommand.rewrite es) w = WalCommand.rewrite es ∷ []

  abbrev pub taken : {S : Type 0} → Writer F S → List (WalCommand F)
  taken w = elim (next_command w) [ none ↦ [] | some p ↦ taken_with p.0 p.1 ]

module _ {F J V S T : Type 0} (json : Json F J V) (idb : IndexedDb S T J) where
  write_batch-pending :
      (batch : List (WalEntry F)) (w : Writer F S)
      → pending (write_batch json idb batch w) ≡ pending w
  unfolding write_batch
  write_batch-pending batch w = elim (Result-cases (append_batch json idb batch w.store).0) [
    | inl (x, e) ↦ rw (e, write_batch) refl
    | inr (x, e) ↦ rw (e, write_batch) refl
  ]

  -- A turn that starts with a command, and has no other command put aside.
  handle-pending :
      (c : WalCommand F) (w : Writer F S)
      → w.deferred ≡ none
      → taken_with c w ++ pending (handle json idb c w) ≡ c ∷ w.queue
  unfolding handle
  handle-pending (WalCommand.append e) w h =
      ap (λ x. WalCommand.append e ∷ (appends (take_batch w.queue).0 ++ x))
        (write_batch-pending (e ∷ (take_batch w.queue).0)
          (record w { queue = (take_batch w.queue).2; deferred = (take_batch w.queue).1 }))
      ∙ ap (λ x. WalCommand.append e ∷ x) (take_batch_lem w.queue)
  handle-pending WalCommand.flush w h = rw h refl
  handle-pending WalCommand.count w h = rw h refl
  handle-pending (WalCommand.rewrite es) w h =
      elim (Result-cases (rewrite_entries json idb es w.store).0) [
        | inl (x, e) ↦ rw (e, handle, h) refl
        | inr (x, e) ↦ rw (e, handle, h) refl
      ]

  next_command_found :
      (w : Writer F S) (p : WalCommand F × Writer F S)
      → next_command w ≡ some p
      → (p.1.deferred ≡ none) × (p.0 ∷ p.1.queue ≡ pending w)
  unfolding next_command
  next_command_found w p h = ground arith

  next_command_idle : (w : Writer F S) → next_command w ≡ none → pending w ≡ []
  unfolding next_command
  next_command_idle w h = ground arith

  -- The commands are taken in the order in which they were sent, and none is lost: what a turn of the
  -- task takes, and behind it what it leaves, is what was there before the turn.
  pub turn_takes : (w : Writer F S) → taken w ++ pending (turn json idb w) ≡ pending w
  unfolding turn
  turn_takes w = elim (Option-cases (next_command w)) [
    | inl e ↦ rw (e, turn, taken) refl
    | inr (p, e) ↦
        let (clear, all) = next_command_found w p e in
        rw (e, turn, taken) (handle-pending p.0 p.1 clear ∙ all)
  ]

  abbrev pub turns : ℕ → Writer F S → Writer F S
  turns zero w = w
  turns (suc n) w = turns n (turn json idb w)

  turn_idle : (w : Writer F S) → next_command w ≡ none → turn json idb w ≡ w
  unfolding turn
  turn_idle w e = rw (e, turn) refl

  taken_one :
      (w : Writer F S) (p : WalCommand F × Writer F S)
      → next_command w ≡ some p
      → (n : ℕ) × (length (taken w) ≡ suc n)
  taken_one w (WalCommand.append x, w') e =
      rw (e, taken) (length (appends (take_batch w'.queue).0), refl)
  taken_one w (WalCommand.flush, w') e = rw (e, taken) (0, refl)
  taken_one w (WalCommand.count, w') e = rw (e, taken) (0, refl)
  taken_one w (WalCommand.rewrite es, w') e = rw (e, taken) (0, refl)

  turn_shorter :
      (w : Writer F S) (n : ℕ) → length (pending w) ≤ suc n → length (pending (turn json idb w)) ≤ n
  turn_shorter w n h = elim (Option-cases (next_command w)) [
    | inl e ↦
        let settled = ap pending (turn_idle w e) ∙ next_command_idle w e in
        omega (arith, ap length settled)
    | inr (p, e) ↦
        let (m, some_taken) = taken_one w p e in
        let split =
          sym (length-append (taken w) (pending (turn json idb w))) ∙ ap length (turn_takes w) in
        omega arith
  ]

  -- As many turns as there are commands in the queue leave none there.
  pub turns_settle : (n : ℕ) (w : Writer F S) → length (pending w) ≤ n → pending (turns n w) ≡ []
  turns_settle zero w h = empty (pending w) h
    where
      empty : (cs : List (WalCommand F)) → length cs ≤ 0 → cs ≡ []
      empty [] k = refl
      empty (c ∷ cs) k = absurd (omega arith)
  turns_settle (suc n) w h = turns_settle n (turn json idb w) (turn_shorter w n h)
