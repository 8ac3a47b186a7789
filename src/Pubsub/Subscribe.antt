-- ===== src/Pubsub/Subscribe.antt =====
-- `processSubscribe` and `processSubscribeDown` of iot/subscribe.go. The branch behind `if false`
-- cannot run and is left out, and so are the counters and what is printed.
pub mod Watches
use knotfreeiot.Base.{
  ℕ, ◌+◌, ◌*◌, Bytes, Bool, true, false, not, List, [], ◌∷◌, ◌++◌, length, take, Option, none, some,
  ascii, ◌==◌, if◌then◌else◌,
}
use knotfreeiot.Base.Keys.{TreeMap, bytes_eq, nat_eq}
use knotfreeiot.Billing.{Floats, Stats, BillingAccumulator, new_accumulator, add32}
use knotfreeiot.Packets.Options.{get_option}
use knotfreeiot.Packets.Packet.{Packet}
use knotfreeiot.Pubsub.Hash.{HashType, hash_eq}
use knotfreeiot.Pubsub.Topic.{WatchedTopic, WatcherItem, Contact, Contacts, put, get, items}
use knotfreeiot.Pubsub.Table.{
  Router, Event, write_downstream, push_up, Subscriptions, get_watcher, set_watcher,
}

-- What a handler knows of its lookup table. From outside come the parsers of JSON and of
-- numbers (a parsed number is given as the uint32 that `AddUsage` makes of it), and the base64 text of
-- a hash.
pub record Looker (F : Type 0) : Type 0 where
  pub is_guru : Bool
  pub router : Router
  pub unmarshal_stats : Bytes → Option (Stats F)
  pub parse_int : Bytes → Option ℕ
  pub hash_string : HashType → Bytes

module _ {P : Type 0} (opts : TreeMap P Bytes Bytes) where
  abbrev pub option_of : Packet P → Bytes → Bytes × Bool
  option_of p key = get_option opts p.options key

  -- `!me.isGuru` and then `PushUp`
  abbrev pub push_up_unless_guru : {F : Type 0} → Looker F → Packet P → HashType → List (Event P)
  push_up_unless_guru me p h = if me.is_guru then [] else push_up me.router p h

  unfoldable pub new_watcher_item : Contact → Packet P → WatcherItem
  new_watcher_item ss p = record {
    contact_interface = ss;
    pub2self = (option_of p (ascii "pub2self")).1;
  }

  -- A suback goes down from a guru unless it is not wanted, and from an aide that has nobody above.
  unfoldable pub suback : {F : Type 0} → Looker F → Contact → Packet P → List (Event P)
  suback me ss p =
      if me.is_guru
      then (if (option_of p (ascii "noack")).1 then [] else write_downstream ss p ∷ [])
      else (if length me.router.channels == 0 then write_downstream ss p ∷ [] else [])

  module _ {T F : Type 0} (tree : TreeMap T ℕ WatcherItem) (f : Floats F) where
    unfoldable pub new_watched_topic : ℕ → HashType → Packet P → WatchedTopic T F
    new_watched_topic now h p = record {
      name = h;
      expires = add32 (20 * 60) now;
      thetree = tree.empty;
      bill = none;
      next_billing_time = add32 now 30;
      last_billing_time = now;
      jwtid = (option_of p (ascii "jwtid")).0;
      owner = [];
      name_str = [];
      optional_key_values = none;
    }

    -- The topic that is there, or a new one.
    unfoldable pub watcher_for : ℕ → HashType → Packet P → Subscriptions T F → WatchedTopic T F
    watcher_for now h p s = elim (get_watcher h s) [
      | none ↦ new_watched_topic now h p
      | some wt ↦ wt
    ]

    -- The branch on the option "statsmax": the maxima of a billing topic, if it has none yet.
    unfoldable pub add_bill :
        Looker F → HashType → Bytes → Option (BillingAccumulator F) → Option (BillingAccumulator F)
    add_bill me h val (some ba) = some ba
    add_bill me h val none = elim (me.unmarshal_stats val) [
      | none ↦ none
      | some stats ↦ some (new_accumulator f (take 4 (me.hash_string h)) stats)
    ]

    unfoldable pub with_bill : Looker F → HashType → Packet P → WatchedTopic T F → WatchedTopic T F
    with_bill me h p wt =
        let (val, ok) = option_of p (ascii "statsmax") in
        if ok then record wt { bill = add_bill me h val wt.bill } else wt

    -- Remember the caller, unless it is known already.
    unfoldable pub add_watcher : ℕ → WatcherItem → WatchedTopic T F → WatchedTopic T F
    add_watcher key wi wt = elim (get tree key wt) [ some found ↦ wt | none ↦ put tree key wi wt ]

    unfoldable pub process_subscribe :
        Looker F
        → Contacts
        → ℕ
        → Contact
        → HashType
        → Packet P
        → Subscriptions T F
        → Subscriptions T F × List (Event P)
    process_subscribe me contacts now ss h p s =
        let wt = record (with_bill me h p (watcher_for now h p s)) {
          expires = add32 (26 * 60) now;
        } in
        (
          set_watcher h (some (add_watcher (contacts.get_key ss) (new_watcher_item ss p) wt)) s,
          suback me ss p ++ push_up_unless_guru me p h,
        )

    -- `WriteDownstream` to every watcher that is not closed.
    unfoldable pub write_to_open : Contacts → Packet P → List (ℕ × WatcherItem) → List (Event P)
    write_to_open contacts p [] = []
    write_to_open contacts p ((key, item) ∷ rest) =
        let more = write_to_open contacts p rest in
        if contacts.is_closed item.contact_interface
        then more
        else write_downstream item.contact_interface p ∷ more

    unfoldable pub process_subscribe_down :
        Contacts → HashType → Packet P → Subscriptions T F → List (Event P)
    process_subscribe_down contacts h p s = elim (get_watcher h s) [
      | none ↦ []
      | some wt ↦ write_to_open contacts p (items tree wt)
    ]
