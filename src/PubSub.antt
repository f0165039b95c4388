-- ===== src/PubSub.antt =====
-- crates/redis-wasm-core/src/pubsub/mod.rs, as it is built with the feature `native`.
pub mod Counts
pub mod Tabs
use kvasm.Common.{ℕ, ◌+◌, ◌-◌, ◌%◌, String, Option, none, some, List, [], ◌∷◌, eqb, if◌then◌else◌}
use kvasm.HashMap.{HashMap, lookup, insert}
use kvasm.Expiry.{u64_limit}

-- `tokio::sync::broadcast::Sender`, with the receivers that it feeds; `leave` is the drop of a
-- receiver.
pub record Broadcast (B : Type 0) : Type 0 where
  pub channel : B
  pub subscribe : B → B
  pub leave : B → B
  pub send : String → B → B
  pub receiver_count : B → ℕ

pub record Channel (B : Type 0) : Type 0 where
  pub tx : B
  pub subscriber_count : ℕ

-- `PubSubManager`: the registry, whose channels are shared by all who hold them.
abbrev pub PubSubManager : Type 0 → Type 0
PubSubManager B = HashMap (Channel B)

module _ {B : Type 0} (broadcast : Broadcast B) where
  open broadcast use {receiver_count}

  -- `Channel::new`, and its methods
  unfoldable pub new_channel : Channel B
  new_channel = record { tx = broadcast.channel; subscriber_count = 0 }

  unfoldable pub publish_to : String → Channel B → ℕ × Channel B
  publish_to message c = (receiver_count c.tx, record c { tx = broadcast.send message c.tx })

  unfoldable pub subscribe_to : Channel B → Channel B
  subscribe_to c = record c {
    tx = broadcast.subscribe c.tx;
    subscriber_count = (c.subscriber_count + 1) % u64_limit;
  }

  -- `get_or_create`: the channel, and the registry with it
  unfoldable pub get_or_create : String → PubSubManager B → Channel B × PubSubManager B
  unfolding new_channel
  get_or_create name m = elim (lookup name m) [
    | some c ↦ (c, m)
    | none ↦ (new_channel, insert name new_channel m)
  ]

  unfoldable pub publish : String → String → PubSubManager B → ℕ × PubSubManager B
  unfolding publish_to
  publish name message m = elim (lookup name m) [
    | none ↦ (0, m)
    | some c ↦ let (count, c') = publish_to message c in (count, insert name c' m)
  ]

  unfoldable pub subscribe : String → PubSubManager B → PubSubManager B
  unfolding get_or_create subscribe_to
  subscribe name m = let (c, m') = get_or_create name m in insert name (subscribe_to c) m'

  -- `fetch_update(|n| n.checked_sub(1))`: 0 stays.
  unfoldable pub unsubscribe : String → PubSubManager B → PubSubManager B
  unsubscribe name m = elim (lookup name m) [
    | none ↦ m
    | some c ↦ insert name (record c { subscriber_count = c.subscriber_count - 1 }) m
  ]

  -- The drop of a receiver of a channel, which the registry does not notice.
  unfoldable pub drop_receiver : String → PubSubManager B → PubSubManager B
  drop_receiver name m = elim (lookup name m) [
    | none ↦ m
    | some c ↦ insert name (record c { tx = broadcast.leave c.tx }) m
  ]

module _ {B : Type 0} where
  unfoldable pub channels : PubSubManager B → List String
  channels [] = []
  channels ((name, c) ∷ m) = name ∷ channels m

  unfoldable pub subscriber_count : String → PubSubManager B → ℕ
  subscriber_count name m = elim (lookup name m) [ none ↦ 0 | some c ↦ c.subscriber_count ]

  unfoldable pub cleanup_empty : PubSubManager B → PubSubManager B
  cleanup_empty [] = []
  cleanup_empty ((name, c) ∷ m) =
      let rest = cleanup_empty m in if eqb c.subscriber_count 0 then rest else (name, c) ∷ rest
