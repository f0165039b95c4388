-- ===== src/PubSub/Tabs/Delivery.antt =====
-- What `publish` of crates/redis-wasm-bindings/src/pubsub.rs delivers.
use kvasm.Common.{
  ℕ, suc, String, ◌≡◌, refl, ap, ◌∙◌, false, some, List, [], ◌∷◌, Result, ok, err, length, arith,
  Bool-cases, inl, inr,
}
use kvasm.HashMap.{lookup, insert}
use kvasm.HashMap.Laws.{lookup-insert_self}
use kvasm.PubSub.Tabs.{
  Sender, Browser, Hub, retain_open, count_sent, send_all, deliver_local, channel_state,
  post_and_deliver, publish, subscriber_count,
}

-- What futures promises: a send to an open queue succeeds and leaves it open.
pub record SenderLaws {X : Type 0} (sender : Sender X) : Type 0 where
  pub delivered :
      (message : String) (x : X)
      → sender.is_closed x ≡ false
      → ((sender.unbounded_send message x).0 ≡ ok tt)
        × (sender.is_closed (sender.unbounded_send message x).1 ≡ false)

module _ {X : Type 0} {sender : Sender X} (laws : SenderLaws sender) where
  -- Every open subscriber gets the message, in order, and the others are forgotten.
  abbrev pub with_message : String → List X → List X
  with_message message [] = []
  with_message message (x ∷ xs) = (sender.unbounded_send message x).1 ∷ with_message message xs

  abbrev AllOpen : List X → Type 0
  AllOpen [] = Unit
  AllOpen (x ∷ xs) = (sender.is_closed x ≡ false) × AllOpen xs

  retain-AllOpen : (xs : List X) → AllOpen (retain_open sender xs)
  unfolding retain_open
  retain-AllOpen [] = tt
  retain-AllOpen (x ∷ xs) = elim (Bool-cases (sender.is_closed x)) [
    | inl e ↦ rw (e, retain_open) (retain-AllOpen xs)
    | inr e ↦ rw (e, retain_open) (e, retain-AllOpen xs)
  ]

  count_sent_ok :
      (p : Result String (Unit {0}) × X) (q : ℕ × List X)
      → p.0 ≡ ok tt
      → count_sent sender p q ≡ (suc q.0, p.1 ∷ q.1)
  count_sent_ok (ok _, x) q e = refl
  count_sent_ok (err y, x) q e = absurd (ground arith)

  send_all_open :
      (message : String) (xs : List X)
      → AllOpen xs
      → send_all sender message xs ≡ (length xs, with_message message xs)
  unfolding send_all
  send_all_open message [] h = refl
  send_all_open message (x ∷ xs) h =
      ap (count_sent sender (sender.unbounded_send message x)) (send_all_open message xs h.1)
      ∙ count_sent_ok (sender.unbounded_send message x) _ (laws.delivered message x h.0).0

  retain-with_message :
      (message : String) (xs : List X)
      → retain_open sender (with_message message (retain_open sender xs))
        ≡ with_message message (retain_open sender xs)
  unfolding retain_open
  retain-with_message message [] = refl
  retain-with_message message (x ∷ xs) = elim (Bool-cases (sender.is_closed x)) [
    | inl e ↦ rw (e, retain_open) (retain-with_message message xs)
    | inr e ↦
        let (_, still) = laws.delivered message x e in
        rw (e, retain_open, still, retain-with_message message xs) refl
  ]

  length-with_message :
      (message : String) (xs : List X) → length (with_message message xs) ≡ length xs
  length-with_message message [] = refl
  length-with_message message (x ∷ xs) = ap suc (length-with_message message xs)

  post_and_deliver_lem :
      {P : Type 0} (browser : Browser P) (name message : String) (h : Hub X P) (subs : List X)
      → (browser.post name message h.browser).0 ≡ ok tt
      → post_and_deliver sender browser name message (ok subs, h) ≡ (
        ok (length (retain_open sender subs)),
        record {
          channels = insert name (with_message message (retain_open sender subs)) h.channels;
          browser = (browser.post name message h.browser).1;
        },
      )
  unfolding post_and_deliver deliver_local
  post_and_deliver_lem browser name message h subs posted =
      let sent = send_all_open message (retain_open sender subs) (retain-AllOpen subs) in
      rw (posted, post_and_deliver, sent) refl

  subscriber_count_known :
      {P : Type 0} (browser : Browser P) (name : String) (h : Hub X P) (subs : List X)
      → lookup name h.channels ≡ some subs
      → (subscriber_count sender browser name h).0 ≡ length (retain_open sender subs)
  unfolding subscriber_count
  subscriber_count_known browser name h subs e = rw (e, subscriber_count) refl

  -- A message to a known channel that the browser posts goes to each subscriber whose receiver is still
  -- there, in order; the others are forgotten. The reply is the number of the former, which is also
  -- what the subscriber count reads right after.
  pub publish-subscribers :
      {P : Type 0} (browser : Browser P) (name message : String) (h : Hub X P) (subs : List X)
      → lookup name h.channels ≡ some subs
      → (browser.post name message h.browser).0 ≡ ok tt
      → ((publish sender browser name message h).0 ≡ ok (length (retain_open sender subs)))
        × (lookup name (publish sender browser name message h).1.channels
            ≡ some (with_message message (retain_open sender subs)))
        × ((subscriber_count sender browser name (publish sender browser name message h).1).0
            ≡ length (retain_open sender subs))
  unfolding publish channel_state
  publish-subscribers browser name message h subs e posted =
      let known : channel_state sender browser name h ≡ (ok subs, h) = rw (e, channel_state) refl in
      let all =
        ap (post_and_deliver sender browser name message) known
        ∙ post_and_deliver_lem browser name message h subs posted in
      let subs' = with_message message (retain_open sender subs) in
      let stored =
        ap (λ p. lookup name p.1.channels) all ∙ lookup-insert_self name subs' h.channels in
      (
        ap (λ p. p.0) all,
        stored,
        subscriber_count_known browser name _ subs' stored
            ∙ ap length (retain-with_message message subs)
            ∙ length-with_message message (retain_open sender subs),
      )
