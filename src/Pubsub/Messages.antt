-- ===== src/Pubsub/Messages.antt =====
-- The messages of a bucket, in iot/lookup-table.go: how a packet becomes one (`sendPublishMessage`
-- and its siblings), and the switch that handles it (`processMessages`). `processLookup` of
-- iot/lookmsg.go is a parameter, and callbacks are not messages here.
pub mod Invariant
pub mod Queue
use knotfreeiot.Base.{ℕ, Bytes, Bool, List, [], ◌∷◌, ◌++◌, Option, none, some}
use knotfreeiot.Base.Keys.{TreeMap, bytes_eq, nat_eq}
use knotfreeiot.Billing.{Floats, BillingAccumulator}
use knotfreeiot.Packets.Address.{AddressUnion, Codecs, new_address_union, ensure_address_is_binary}
use knotfreeiot.Packets.Packet.{Packet, Body, send, subscribe, unsubscribe, lookup}
use knotfreeiot.Pubsub.Hash.{HashType, init_from_bytes, get_fractional_bits}
use knotfreeiot.Pubsub.Topic.{WatcherItem, Contact, Contacts}
use knotfreeiot.Pubsub.Table.{Event, Subscriptions}
use knotfreeiot.Pubsub.Subscribe.{Looker, process_subscribe, process_subscribe_down}
use knotfreeiot.Pubsub.Publish.{process_publish, process_publish_down}
use knotfreeiot.Pubsub.Unsubscribe.{process_unsubscribe}

pub data Message (P : Type 0) : Type 0 where
  subscription_message unsubscribe_message lookup_message publish_message :
      Contact → HashType → Packet P → Message P
  subscription_message_down publish_message_down : HashType → Packet P → Message P

-- `p.Address`; the types without one are never sent to a bucket.
unfoldable pub address_of : Body → AddressUnion
address_of (send address _ _) = address
address_of (subscribe address) = address
address_of (unsubscribe address) = address
address_of (lookup address _) = address
address_of _ = new_address_union []

unfoldable pub set_address : AddressUnion → Body → Body
set_address a (send _ source payload) = send a source payload
set_address a (subscribe _) = subscribe a
set_address a (unsubscribe _) = unsubscribe a
set_address a (lookup _ source) = lookup a source
set_address a body = body

module _ {P : Type 0} (c : Codecs) (log2 : ℕ) where
  -- The address is made binary in place; then the bucket and the message, where `none` is the panic
  -- of `InitFromBytes`.
  unfoldable pub queued : (HashType → Packet P → Message P) → Packet P → Option (ℕ × Message P)
  queued make p =
      let address = ensure_address_is_binary c (address_of p.body) in
      elim (init_from_bytes address.bytes) [
        | none ↦ none
        | some h ↦
            some
              (get_fractional_bits log2 h, make h (record p { body = set_address address p.body }))
      ]

  abbrev pub send_subscription_message : Contact → Packet P → Option (ℕ × Message P)
  send_subscription_message ss p = queued (subscription_message ss) p

  abbrev pub send_unsubscribe_message : Contact → Packet P → Option (ℕ × Message P)
  send_unsubscribe_message ss p = queued (unsubscribe_message ss) p

  abbrev pub send_lookup_message : Contact → Packet P → Option (ℕ × Message P)
  send_lookup_message ss p = queued (lookup_message ss) p

  abbrev pub send_publish_message : Contact → Packet P → Option (ℕ × Message P)
  send_publish_message ss p = queued (publish_message ss) p

  abbrev pub send_publish_message_down : Packet P → Option (ℕ × Message P)
  send_publish_message_down p = queued publish_message_down p

  abbrev pub send_subscription_message_down : Packet P → Option (ℕ × Message P)
  send_subscription_message_down p = queued subscription_message_down p

module _ {P T F : Type 0} (opts : TreeMap P Bytes Bytes) (tree : TreeMap T ℕ WatcherItem)
    (f : Floats F) where
  -- What a bucket takes from elsewhere in the program.
  pub record Services : Type 0 where
    pub serve_billing_command : Packet P → BillingAccumulator F → ℕ → Packet P
    pub process_lookup :
        Looker F
        → Contacts
        → ℕ
        → Contact
        → HashType
        → Packet P
        → Subscriptions T F
        → Subscriptions T F × List (Event P)

  -- The switch of `processMessages`.
  unfoldable pub process_message :
      Services
      → Codecs
      → Looker F
      → Contacts
      → ℕ
      → Message P
      → Subscriptions T F
      → Subscriptions T F × List (Event P)
  process_message v c me contacts now (subscription_message ss h p) s =
      process_subscribe opts tree f me contacts now ss h p s
  process_message v c me contacts now (subscription_message_down h p) s =
      (s, process_subscribe_down opts tree f contacts h p s)
  process_message v c me contacts now (lookup_message ss h p) s =
      v.process_lookup me contacts now ss h p s
  process_message v c me contacts now (publish_message ss h p) s =
      process_publish opts tree f v.serve_billing_command me contacts now ss h p s
  process_message v c me contacts now (publish_message_down h p) s =
      process_publish_down opts tree f me contacts now h
        (ensure_address_is_binary c (address_of p.body)) p s
  process_message v c me contacts now (unsubscribe_message ss h p) s =
      process_unsubscribe opts tree me contacts ss h p s

  -- `processMessages`: one message after the other. The contacts that are closed and the clock may
  -- be different for each, the keys of the contacts are not.
  unfoldable pub process_messages :
      Services
      → Codecs
      → Looker F
      → (Contact → ℕ)
      → List ((Contact → Bool) × ℕ × Message P)
      → Subscriptions T F
      → Subscriptions T F × List (Event P)
  process_messages v c me get_key [] s = (s, [])
  process_messages v c me get_key ((is_closed, now, msg) ∷ queue) s =
      let (s1, events) =
        process_message v c me (record { get_key = get_key; is_closed = is_closed }) now msg s in
      let (s2, more) = process_messages v c me get_key queue s1 in (s2, events ++ more)
