-- ===== src/PubSub/Counts.antt =====
-- The subscriber counts of crates/redis-wasm-core/src/pubsub/mod.rs against the receivers.
use mathlib.Core.Path.{subst}
use kvasm.Common.{
  ◌+◌, ◌-◌, ◌^◌, ◌<◌, String, ◌≡◌, refl, sym, ap, ◌∙◌, none, some, [], ◌∷◌, eq_iff, eqb, arith,
  Option-cases, Bool-cases, inl, inr,
}
use kvasm.HashMap.{lookup, insert}
use kvasm.HashMap.Laws.{
  AllValues, insert-AllValues, AllValues-lookup, lookup-insert, lookup-insert_self,
}
use kvasm.HashMap.Append.{insert-insert}
use kvasm.PubSub.{
  Broadcast, Channel, PubSubManager, new_channel, publish_to, subscribe_to, get_or_create, publish,
  subscribe, unsubscribe, drop_receiver, subscriber_count, cleanup_empty,
}

-- What tokio promises: a new channel has no receiver, a subscription adds one and a drop takes one
-- away, and a message changes nothing of that.
pub record BroadcastLaws {B : Type 0} (broadcast : Broadcast B) : Type 0 where
  pub fresh : broadcast.receiver_count broadcast.channel ≡ 0
  pub joined :
      (b : B) → broadcast.receiver_count (broadcast.subscribe b) ≡ broadcast.receiver_count b + 1
  pub left : (b : B) → broadcast.receiver_count (broadcast.leave b) ≡ broadcast.receiver_count b - 1
  pub sent :
      (message : String) (b : B)
      → broadcast.receiver_count (broadcast.send message b) ≡ broadcast.receiver_count b

module _ {B : Type 0} {broadcast : Broadcast B} (laws : BroadcastLaws broadcast) where
  -- The count of a channel is that of its receivers.
  abbrev pub IsCounted : Channel B → Type 0
  IsCounted c = c.subscriber_count ≡ broadcast.receiver_count c.tx

  -- What can happen to a registry, where whoever drops a receiver calls `unsubscribe` next. A
  -- subscription to a channel with 2^62 receivers panics in tokio.
  pub data Run : PubSubManager B → Type 0 where
    new : Run []
    published :
        {m : PubSubManager B} (name message : String)
        → Run m
        → Run (publish broadcast name message m).1
    subscribed :
        {m : PubSubManager B} (name : String)
        → broadcast.receiver_count (get_or_create broadcast name m).0.tx < 2 ^ 62
        → Run m
        → Run (subscribe broadcast name m)
    left :
        {m : PubSubManager B} (name : String)
        → Run m
        → Run (unsubscribe broadcast name (drop_receiver broadcast name m))
    cleaned : {m : PubSubManager B} → Run m → Run (cleanup_empty m)

  publish-AllCounted :
      (name message : String) (m : PubSubManager B)
      → AllValues IsCounted m
      → AllValues IsCounted (publish broadcast name message m).1
  unfolding publish publish_to
  publish-AllCounted name message m h = elim (Option-cases (lookup name m)) [
    | inl e ↦ rw (e, publish) h
    | inr (c, e) ↦
        let counted = AllValues-lookup IsCounted name c m h e in
        rw (e, publish)
          (insert-AllValues IsCounted name _ m (counted ∙ sym (laws.sent message c.tx)) h)
  ]

  get_or_create-AllCounted :
      (name : String) (m : PubSubManager B)
      → AllValues IsCounted m
      → IsCounted (get_or_create broadcast name m).0
        × AllValues IsCounted (get_or_create broadcast name m).1
  unfolding get_or_create new_channel
  get_or_create-AllCounted name m h = elim (Option-cases (lookup name m)) [
    | inl e ↦
        rw (e, get_or_create)
          (sym laws.fresh, insert-AllValues IsCounted name _ m (sym laws.fresh) h)
    | inr (c, e) ↦ rw (e, get_or_create) (AllValues-lookup IsCounted name c m h e, h)
  ]

  subscribe-AllCounted :
      (name : String) (m : PubSubManager B)
      → broadcast.receiver_count (get_or_create broadcast name m).0.tx < 2 ^ 62
      → AllValues IsCounted m
      → AllValues IsCounted (subscribe broadcast name m)
  unfolding subscribe subscribe_to
  subscribe-AllCounted name m few h =
      let (counted, all) = get_or_create-AllCounted name m h in
      let c = (get_or_create broadcast name m).0 in
      insert-AllValues IsCounted name _ _ (omega (arith, counted, laws.joined c.tx, few)) all

  leave_known :
      (name : String) (m : PubSubManager B) (c : Channel B)
      → lookup name m ≡ some c
      → unsubscribe broadcast name (drop_receiver broadcast name m)
        ≡ insert name
            (record { tx = broadcast.leave c.tx; subscriber_count = c.subscriber_count - 1 })
            m
  unfolding unsubscribe drop_receiver
  leave_known name m c e =
      let c' : Channel B = record c { tx = broadcast.leave c.tx } in
      let dropped : drop_receiver broadcast name m ≡ insert name c' m =
        rw (e, drop_receiver) refl in
      ap (unsubscribe broadcast name) dropped
      ∙ rw (lookup-insert_self name c' m, unsubscribe) (insert-insert name _ c' m)

  leave_unknown :
      (name : String) (m : PubSubManager B)
      → lookup name m ≡ none
      → unsubscribe broadcast name (drop_receiver broadcast name m) ≡ m
  unfolding unsubscribe drop_receiver
  leave_unknown name m e =
      let dropped : drop_receiver broadcast name m ≡ m = rw (e, drop_receiver) refl in
      ap (unsubscribe broadcast name) dropped ∙ rw (e, unsubscribe) refl

  leave-AllCounted :
      (name : String) (m : PubSubManager B)
      → AllValues IsCounted m
      → AllValues IsCounted (unsubscribe broadcast name (drop_receiver broadcast name m))
  leave-AllCounted name m h = elim (Option-cases (lookup name m)) [
    | inl e ↦ subst (AllValues IsCounted) (sym (leave_unknown name m e)) h
    | inr (c, e) ↦
        let counted = AllValues-lookup IsCounted name c m h e in
        subst (AllValues IsCounted) (sym (leave_known name m c e))
          (insert-AllValues IsCounted name _ m (omega (arith, counted, laws.left c.tx)) h)
  ]

  cleanup-AllCounted :
      (m : PubSubManager B) → AllValues IsCounted m → AllValues IsCounted (cleanup_empty m)
  unfolding cleanup_empty
  cleanup-AllCounted [] h = tt
  cleanup-AllCounted ((name, c) ∷ m) h = elim (Bool-cases (eqb c.subscriber_count 0)) [
    | inl e ↦ rw (e, cleanup_empty) (cleanup-AllCounted m h.1)
    | inr e ↦ rw (e, cleanup_empty) (h.0, cleanup-AllCounted m h.1)
  ]

  Run-AllCounted : {m : PubSubManager B} → Run m → AllValues IsCounted m
  Run-AllCounted Run.new = tt
  Run-AllCounted (Run.published name message r) =
      publish-AllCounted name message _ (Run-AllCounted r)
  Run-AllCounted (Run.subscribed name few r) = subscribe-AllCounted name _ few (Run-AllCounted r)
  Run-AllCounted (Run.left name r) = leave-AllCounted name _ (Run-AllCounted r)
  Run-AllCounted (Run.cleaned r) = cleanup-AllCounted _ (Run-AllCounted r)

  -- In a registry that is used so that `unsubscribe` follows each drop of a receiver, and in which no
  -- channel gets more than 2^62 receivers, a message
  -- reaches as many receivers as the channel counts subscribers, and it changes no count.
  pub publish-subscriber_count :
      {m : PubSubManager B} (name other message : String)
      → Run m
      → ((publish broadcast name message m).0 ≡ subscriber_count name m)
        × (subscriber_count other (publish broadcast name message m).1 ≡ subscriber_count other m)
  unfolding publish publish_to subscriber_count
  publish-subscriber_count {m} name other message r = elim (Option-cases (lookup name m)) [
    | inl e ↦ rw (e, publish, subscriber_count) (refl, refl)
    | inr (c, e) ↦
        let counted = AllValues-lookup IsCounted name c m (Run-AllCounted r) e in
        (
          (rw (e, publish, subscriber_count) (sym counted)),
          ground (
            arith,
            e,
            eq_iff name other,
            lookup-insert name other (record c { tx = broadcast.send message c.tx }) m,
          ),
        )
  ]
