-- ===== src/Pubsub/Heartbeat.antt =====
-- `heartBeatCallBack` of iot/subscribe.go on one bucket. What it starts as goroutines (the billing
-- errors, the usage of the topics and the unsubscribes to the level above) is done in turn here.
pub mod Sweep
pub mod Table
use knotfreeiot.Base.{
  ℕ, ◌+◌, ◌*◌, Bytes, Bool, true, false, not, ◌&&◌, ◌||◌, List, [], ◌∷◌, ◌++◌, length, Option, none,
  some, ascii, ltb, ◌==◌, if◌then◌else◌,
}
use knotfreeiot.Base.Keys.{TreeMap, bytes_eq, nat_eq, without}
use knotfreeiot.Billing.{
  Floats, Stats, BillingAccumulator, zero_stats, usage_added, are_under_max, add32, sub32,
}
use knotfreeiot.Packets.Address.{AddressUnion, binary_address, from_bytes}
use knotfreeiot.Packets.Options.{set_option}
use knotfreeiot.Packets.Packet.{Packet, send}
use knotfreeiot.Pubsub.Hash.{HashType, hash_eq, get_bytes}
use knotfreeiot.Pubsub.Topic.{WatchedTopic, WatcherItem, Contact, Contacts, items, get_size}
use knotfreeiot.Pubsub.Table.{Event, Subscriptions, set_watcher}
use knotfreeiot.Pubsub.Subscribe.{Looker, push_up_unless_guru, write_to_open}
use knotfreeiot.Pubsub.Publish.{remove_all, unsubscribe_packet}

-- `unsubsNeeded`: the contacts that are closed, or all if the topic has expired.
unfoldable pub unsubs_needed : Contacts → Bool → List (ℕ × WatcherItem) → List Contact
unsubs_needed contacts expire_all [] = []
unsubs_needed contacts expire_all ((key, item) ∷ rest) =
    let more = unsubs_needed contacts expire_all rest in
    if expire_all || contacts.is_closed item.contact_interface
    then item.contact_interface ∷ more
    else more

-- The binary address of a topic.
abbrev pub topic_address : HashType → AddressUnion
topic_address h = record { address_type = binary_address; bytes = get_bytes h }

module _ {P T F : Type 0} (opts : TreeMap P Bytes Bytes) (tree : TreeMap T ℕ WatcherItem)
    (f : Floats F) where
  -- What is sent down where a billing topic is over its maxima. The text comes from outside.
  unfoldable pub error_packet : HashType → Bytes → Packet P
  error_packet h msg = record {
    body = send (topic_address h) (from_bytes (ascii "ping")) msg;
    options = set_option opts (ascii "error") msg none;
    backing = none;
  }

  unfoldable pub billing_errors :
      (BillingAccumulator F → ℕ → Bytes)
      → Contacts
      → ℕ
      → HashType
      → WatchedTopic T F
      → List (Event P)
  billing_errors message contacts now h wt = elim wt.bill [
    | none ↦ []
    | some ba ↦
        if are_under_max f now ba
        then []
        else write_to_open opts tree f contacts (error_packet h (message ba now)) (items tree wt)
  ]

  -- Is the usage of the topic due, at a server with nobody above?
  unfoldable pub usage_due : Looker F → ℕ → WatchedTopic T F → Bool
  usage_due me now wt =
      ltb 0 (length wt.jwtid) && length me.router.channels == 0 && ltb wt.next_billing_time now

  unfoldable pub next_times : Looker F → ℕ → WatchedTopic T F → WatchedTopic T F
  next_times me now wt =
      if usage_due me now wt
      then record wt {
        last_billing_time = wt.next_billing_time;
        next_billing_time = add32 wt.next_billing_time 60;
      }
      else wt

  -- `me.ex.Billing.AddUsage`, where it returns
  unfoldable pub topic_usage :
      Looker F → ℕ → WatchedTopic T F → BillingAccumulator F → BillingAccumulator F
  topic_usage me now wt total =
      let delta = sub32 wt.next_billing_time wt.last_billing_time in
      if usage_due me now wt
      then usage_added f (record (zero_stats f) { subscriptions = f.of_nat delta }) now delta total
      else total

  -- The watchers that stay.
  unfoldable pub swept : Contacts → ℕ → WatchedTopic T F → WatchedTopic T F
  swept contacts now wt =
      remove_all opts tree f contacts (unsubs_needed contacts (ltb wt.expires now) (items tree wt))
        wt

  -- One round of the loop on the topic itself; an empty topic is left at once.
  unfoldable pub beat_topic : Looker F → Contacts → ℕ → WatchedTopic T F → WatchedTopic T F
  beat_topic me contacts now wt =
      if get_size tree wt == 0 then wt else next_times me now (swept contacts now wt)

  -- The loop: the topics, the empty ones among them, the usage of the server, what is sent.
  unfoldable pub beat_loop :
      (BillingAccumulator F → ℕ → Bytes)
      → Looker F
      → Contacts
      → ℕ
      → Subscriptions T F
      → BillingAccumulator F
      → Subscriptions T F × List (WatchedTopic T F) × BillingAccumulator F × List (Event P)
  beat_loop message me contacts now [] total = ([], [], total, [])
  beat_loop message me contacts now ((h, wt) ∷ s) total =
      let wt' = beat_topic me contacts now wt in
      let left = swept contacts now wt in
      let total' = if get_size tree wt == 0 then total else topic_usage me now left total in
      let errors =
        if get_size tree wt == 0 then [] else billing_errors message contacts now h left in
      let (s', empty, total'', events) = beat_loop message me contacts now s total' in
      (
        (h, wt') ∷ s',
        (if get_size tree wt' == 0 then wt' ∷ empty else empty),
        total'',
        errors ++ events,
      )

  -- `delete(bucket.mySubscriptions, emptyBucket.Name)`
  unfoldable pub delete_empty : List (WatchedTopic T F) → Subscriptions T F → Subscriptions T F
  delete_empty [] s = s
  delete_empty (wt ∷ empty) s = delete_empty empty (set_watcher wt.name none s)

  -- The unsubscribes for the level above.
  unfoldable pub unsubscribe_empty : Looker F → List (WatchedTopic T F) → List (Event P)
  unsubscribe_empty me [] = []
  unsubscribe_empty me (wt ∷ empty) =
      push_up_unless_guru opts me (unsubscribe_packet opts tree f (topic_address wt.name)) wt.name
      ++ unsubscribe_empty me empty

  unfoldable pub heart_beat :
      (BillingAccumulator F → ℕ → Bytes)
      → Looker F
      → Contacts
      → ℕ
      → Subscriptions T F
      → BillingAccumulator F
      → Subscriptions T F × BillingAccumulator F × List (Event P)
  heart_beat message me contacts now s total =
      let (s', empty, total', events) = beat_loop message me contacts now s total in
      (delete_empty empty s', total', events ++ unsubscribe_empty me empty)
