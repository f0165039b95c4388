-- ===== src/PubSub/Tabs.antt =====
-- crates/redis-wasm-bindings/src/pubsub.rs: the subscribers of one tab, and the messages of others.
pub mod Delivery
use kvasm.Common.{
  ℕ, suc, String, Bool, true, false, not, Option, none, some, List, [], ◌∷◌, ◌++◌, Result, ok, err,
  if◌then◌else◌, length,
}
use kvasm.HashMap.{HashMap, lookup, insert, contains_key}

-- An `mpsc::UnboundedSender`, with the queue that its receiver reads.
pub record Sender (X : Type 0) : Type 0 where
  pub unbounded : X
  pub is_closed : X → Bool
  pub unbounded_send : String → X → Result String (Unit {0}) × X

-- The browser: `open` makes a `BroadcastChannel`, `post` puts an envelope around a message and posts
-- it to the other tabs.
pub record Browser (P : Type 0) : Type 0 where
  pub open_channel : String → P → Result String (Unit {0}) × P
  pub post : String → String → P → Result String (Unit {0}) × P

-- `WasmPubSub`: the subscribers of each channel, and the browser.
pub record Hub (X P : Type 0) : Type 0 where
  pub channels : HashMap (List X)
  pub browser : P

module _ {X : Type 0} (sender : Sender X) where
  open sender use {is_closed, unbounded_send}

  -- `subs.retain(|tx| !tx.is_closed())`
  unfoldable pub retain_open : List X → List X
  retain_open [] = []
  retain_open (x ∷ xs) = let rest = retain_open xs in if is_closed x then rest else x ∷ rest

  -- `if tx.unbounded_send(..).is_ok() { delivered += 1; }`
  abbrev pub count_sent : Result String (Unit {0}) × X → ℕ × List X → ℕ × List X
  count_sent (ok _, x) (delivered, rest) = (suc delivered, x ∷ rest)
  count_sent (err _, x) (delivered, rest) = (delivered, x ∷ rest)

  -- `for tx in subs.iter()`
  unfoldable pub send_all : String → List X → ℕ × List X
  send_all message [] = (0, [])
  send_all message (x ∷ xs) = count_sent (unbounded_send message x) (send_all message xs)

  unfoldable pub deliver_local : String → List X → ℕ × List X
  unfolding retain_open send_all
  deliver_local message subs = send_all message (retain_open subs)

module _ {X P : Type 0} (sender : Sender X) (browser : Browser P) where
  -- `channel_state`
  unfoldable pub channel_state : String → Hub X P → Result String (List X) × Hub X P
  channel_state name h = elim (lookup name h.channels) [
    | some subs ↦ (ok subs, h)
    | none ↦
        let (r, p) = browser.open_channel name h.browser in
        elim r [
          | err e ↦ (err e, record h { browser = p })
          | ok _ ↦ (ok [], record { channels = insert name [] h.channels; browser = p })
        ]
  ]

  -- The post to the other tabs, and the delivery in this one.
  unfoldable pub post_and_deliver :
      String → String → Result String (List X) × Hub X P → Result String ℕ × Hub X P
  unfolding deliver_local
  post_and_deliver name message (err e, h) = (err e, h)
  post_and_deliver name message (ok subs, h) =
      let (posted, p) = browser.post name message h.browser in
      elim posted [
        | err e ↦ (err e, record h { browser = p })
        | ok _ ↦
            let (delivered, subs') = deliver_local sender message subs in
            (ok delivered, record { channels = insert name subs' h.channels; browser = p })
      ]

  unfoldable pub publish : String → String → Hub X P → Result String ℕ × Hub X P
  unfolding channel_state post_and_deliver
  publish name message h = post_and_deliver name message (channel_state name h)

  -- The new subscriber is the last of the channel.
  unfoldable pub subscribe : String → Hub X P → Result String (Unit {0}) × Hub X P
  unfolding channel_state
  subscribe name h =
      let (r, h') = channel_state name h in
      elim r [
        | err e ↦ (err e, h')
        | ok subs ↦ (
          ok tt,
          record h' { channels = insert name (subs ++ sender.unbounded ∷ []) h'.channels },
        )
      ]

  -- It forgets the subscribers that are gone.
  unfoldable pub subscriber_count : String → Hub X P → ℕ × Hub X P
  unfolding retain_open
  subscriber_count name h = elim (lookup name h.channels) [
    | none ↦ (0, h)
    | some subs ↦
        let subs' = retain_open sender subs in
        (length subs', record h { channels = insert name subs' h.channels })
  ]

  -- The callback `onmessage` of a channel, for an envelope that could be read.
  unfoldable pub on_message : String → String → Hub X P → Hub X P
  unfolding deliver_local
  on_message name message h = elim (lookup name h.channels) [
    | none ↦ h
    | some subs ↦ record h {
      channels = insert name (deliver_local sender message subs).1 h.channels;
    }
  ]
