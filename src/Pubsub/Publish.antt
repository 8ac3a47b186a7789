-- ===== src/Pubsub/Publish.antt =====
-- `processPublish` and `processPublishDown` of iot/publish.go, without counters and what is printed.
-- A use that locks the mutex of its account twice stops the bucket; that is not here but in Billing.
pub mod Delivery
use knotfreeiot.Base.{
  ℕ, ◌+◌, ◌*◌, Bytes, Bool, true, false, not, ◌&&◌, List, [], ◌∷◌, ◌++◌, length, Option, none, some,
  ascii, ◌==◌, if◌then◌else◌,
}
use knotfreeiot.Base.Keys.{TreeMap, bytes_eq, nat_eq}
use knotfreeiot.Billing.{Floats, Stats, BillingAccumulator, usage_added, add32}
use knotfreeiot.Packets.Address.{AddressUnion}
use knotfreeiot.Packets.Packet.{Packet, unsubscribe}
use knotfreeiot.Pubsub.Hash.{HashType, hash_eq}
use knotfreeiot.Pubsub.Topic.{WatchedTopic, WatcherItem, Contact, Contacts, remove, items}
use knotfreeiot.Pubsub.Table.{
  Router, Event, write_downstream, to_any_aide, Subscriptions, get_watcher, set_watcher,
}
use knotfreeiot.Pubsub.Subscribe.{Looker, option_of, push_up_unless_guru, write_to_open}

module _ {P T F : Type 0} (opts : TreeMap P Bytes Bytes) (tree : TreeMap T ℕ WatcherItem)
    (f : Floats F) where
  -- The loop over the watchers: what is written down, and the contacts found bad.
  unfoldable pub publish_loop :
      Contacts → ℕ → Packet P → List (ℕ × WatcherItem) → List (Event P) × List Contact
  publish_loop contacts pub_key p [] = ([], [])
  publish_loop contacts pub_key p ((key, item) ∷ rest) =
      let (events, bad) = publish_loop contacts pub_key p rest in
      let ci = item.contact_interface in
      if item.pub2self
      then (if contacts.is_closed ci then (events, bad) else (write_downstream ci p ∷ events, bad))
      else if key == pub_key
      then (events, bad)
      else if contacts.is_closed ci
      then (events, ci ∷ bad)
      else (write_downstream ci p ∷ events, bad)

  unfoldable pub remove_all : Contacts → List Contact → WatchedTopic T F → WatchedTopic T F
  remove_all contacts [] wt = wt
  remove_all contacts (ci ∷ bad) wt = remove_all contacts bad (remove tree (contacts.get_key ci) wt)

  -- `deltat`: ten seconds, unless the option holds a number.
  unfoldable pub stats_deltat : Looker F → Packet P → ℕ
  stats_deltat me p =
      let (text, ok) = option_of opts p (ascii "stats-deltat") in
      if ok then elim (me.parse_int text) [ none ↦ 10 | some n ↦ n ] else 10

  -- `AddUsage`, where it returns, if the option was well-formed JSON.
  unfoldable pub add_stats_of :
      Looker F → ℕ → Packet P → Option (Stats F) → BillingAccumulator F → BillingAccumulator F
  add_stats_of me now p none ba = ba
  add_stats_of me now p (some stats) ba = usage_added f stats now (stats_deltat me p) ba

  -- A publish to a billing topic. `serve_billing_command` is that of iot/billing-command.go.
  unfoldable pub publish_billing :
      (Packet P → BillingAccumulator F → ℕ → Packet P)
      → Looker F
      → ℕ
      → Packet P
      → BillingAccumulator F
      → BillingAccumulator F × List (Event P)
  publish_billing serve_billing_command me now p ba =
      let (billstr, has_stats) = option_of opts p (ascii "add-stats") in
      if has_stats && not me.is_guru
      then (add_stats_of me now p (me.unmarshal_stats billstr) ba, [])
      else if not me.is_guru && not has_stats
      then (ba, to_any_aide (serve_billing_command p ba now) ∷ [])
      else (ba, [])

  unfoldable pub publish_topic :
      (Packet P → BillingAccumulator F → ℕ → Packet P)
      → Looker F
      → Contacts
      → ℕ
      → ℕ
      → Packet P
      → WatchedTopic T F
      → WatchedTopic T F × List (Event P)
  publish_topic serve_billing_command me contacts now pub_key p wt = elim wt.bill [
    | some ba ↦
        let (ba', events) = publish_billing serve_billing_command me now p ba in
        (record wt { bill = some ba'; expires = add32 (60 * 60) now }, events)
    | none ↦
        let (events, bad) = publish_loop contacts pub_key p (items tree wt) in
        (remove_all contacts bad (record wt { expires = add32 (25 * 60) now }), events)
  ]

  unfoldable pub process_publish :
      (Packet P → BillingAccumulator F → ℕ → Packet P)
      → Looker F
      → Contacts
      → ℕ
      → Contact
      → HashType
      → Packet P
      → Subscriptions T F
      → Subscriptions T F × List (Event P)
  process_publish serve_billing_command me contacts now ss h p s = elim (get_watcher h s) [
    | none ↦ (s, push_up_unless_guru opts me p h)
    | some wt ↦
        let (wt', events) =
          publish_topic serve_billing_command me contacts now (contacts.get_key ss) p wt in
        (set_watcher h (some wt') s, events ++ push_up_unless_guru opts me p h)
  ]

  -- An unsubscribe of the address, with no options.
  abbrev pub unsubscribe_packet : AddressUnion → Packet P
  unsubscribe_packet address = record { body = unsubscribe address; options = none; backing = none }

  -- `address` is that of the packet, made binary.
  unfoldable pub process_publish_down :
      Looker F
      → Contacts
      → ℕ
      → HashType
      → AddressUnion
      → Packet P
      → Subscriptions T F
      → Subscriptions T F × List (Event P)
  process_publish_down me contacts now h address p s = elim (get_watcher h s) [
    | none ↦ (s, push_up_unless_guru opts me (unsubscribe_packet address) h)
    | some wt ↦ (
      set_watcher h (some (record wt { expires = add32 (25 * 60) now })) s,
      write_to_open opts tree f contacts p (items tree wt),
    )
  ]
