-- ===== src/Tests/Channels.antt =====
-- The theorems on publish and subscribe, at channels that are numbers, and the snapshot of a database.
use kvasm.Common.{
  ℕ, ◌+◌, ◌-◌, ◌≡◌, refl, String, Bool, true, false, some, [], ◌∷◌, ok, err, if◌then◌else◌, length,
  arith,
}
use kvasm.HashMap.{lookup, insert}
use kvasm.Db.Persist.{snapshot_entries}
use kvasm.Replay.{Tables, empty_tables, replay}
use kvasm.Replay.Snapshot.Kept.{Restores, snapshot_entries_lem}
use kvasm.PubSub.{
  Broadcast, PubSubManager, new_channel, subscribe_to, get_or_create, publish, subscribe,
  unsubscribe, drop_receiver, subscriber_count,
}
use kvasm.PubSub.Counts.{BroadcastLaws, Run, publish-subscriber_count}
use kvasm.PubSub.Tabs.{Sender, Browser, Hub, retain_open}
use kvasm.PubSub.Tabs
use kvasm.PubSub.Tabs.Delivery.{SenderLaws, with_message, publish-subscribers}
use kvasm.Tests.{floats, one_list}
use kvasm.Tests.Databases.{one_list-IsValid}

snapshot_entries_lem_example :
    (count : ℕ) × (t : Tables ℕ) × (replay floats (snapshot_entries (one_list 2)) 0 empty_tables
      ≡ (ok count, t))
    × Restores floats (one_list 2) t
snapshot_entries_lem_example = snapshot_entries_lem floats (one_list 2) (one_list-IsValid 2)

-- A broadcast channel is its number of receivers.
abbrev counter : Broadcast ℕ
counter = record {
  channel = 0;
  subscribe = λ b. b + 1;
  leave = λ b. b - 1;
  send = λ message b. b;
  receiver_count = λ b. b;
}

abbrev counter_laws : BroadcastLaws counter
counter_laws = record {
  fresh = refl;
  joined = λ b. refl;
  left = λ b. refl;
  sent = λ message b. refl;
}

-- Two subscribe, and one leaves.
abbrev one_left : PubSubManager ℕ
one_left =
    unsubscribe counter "news"
      (drop_receiver counter "news" (subscribe counter "news" (subscribe counter "news" [])))

one_left-Run : Run counter_laws one_left
unfolding subscribe get_or_create lookup insert subscribe_to new_channel
one_left-Run =
    Run.left "news"
      (Run.subscribed "news" (omega arith) (Run.subscribed "news" (omega arith) Run.new))

publish-subscriber_count_example :
    ((publish counter "news" "hello" one_left).0 ≡ subscriber_count "news" one_left)
    × (subscriber_count "other" (publish counter "news" "hello" one_left).1
        ≡ subscriber_count "other" one_left)
publish-subscriber_count_example =
    publish-subscriber_count counter_laws "news" "other" "hello" one_left-Run

-- A sender is whether its receiver is gone.
abbrev flags : Sender Bool
flags = record {
  unbounded = false;
  is_closed = λ x. x;
  unbounded_send = λ message x. (if x then err "closed" else ok tt, x);
}

flag_open :
    (message : String) (x : Bool)
    → x ≡ false
    → ((flags.unbounded_send message x).0 ≡ ok tt) × (x ≡ false)
flag_open message x h = rw h (refl, refl)

abbrev flags_laws : SenderLaws flags
flags_laws = record { delivered = flag_open }

abbrev quiet : Browser (Unit {0})
quiet = record { open_channel = λ name p. (ok tt, p); post = λ name message p. (ok tt, p) }

-- Of three subscribers, one is gone.
abbrev three : Hub Bool (Unit {0})
three = record { channels = ("news", false ∷ true ∷ false ∷ []) ∷ []; browser = tt }

publish-subscribers_example :
    ((Tabs.publish flags quiet "news" "hello" three).0
      ≡ ok (length (retain_open flags (false ∷ true ∷ false ∷ []))))
    × (lookup "news" (Tabs.publish flags quiet "news" "hello" three).1.channels
        ≡ some (with_message flags_laws "hello" (retain_open flags (false ∷ true ∷ false ∷ []))))
    × ((Tabs.subscriber_count flags quiet "news"
          (Tabs.publish flags quiet "news" "hello" three).1).0
        ≡ length (retain_open flags (false ∷ true ∷ false ∷ [])))
unfolding lookup
publish-subscribers_example =
    publish-subscribers flags_laws quiet "news" "hello" three (false ∷ true ∷ false ∷ []) refl refl
