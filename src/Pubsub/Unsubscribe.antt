-- ===== src/Pubsub/Unsubscribe.antt =====
-- `processUnsubscribe` of iot/subscribe.go.
use knotfreeiot.Base.{
  ℕ, Bytes, Bool, true, false, not, ◌&&◌, List, [], length, none, some, ltb, ◌==◌, if◌then◌else◌,
}
use knotfreeiot.Base.Keys.{TreeMap, bytes_eq, nat_eq}
use knotfreeiot.Packets.Packet.{Packet}
use knotfreeiot.Pubsub.Hash.{HashType, hash_eq}
use knotfreeiot.Pubsub.Topic.{WatchedTopic, WatcherItem, Contact, Contacts, remove, get_size}
use knotfreeiot.Pubsub.Table.{Event, Subscriptions, get_watcher, set_watcher}
use knotfreeiot.Pubsub.Subscribe.{Looker, push_up_unless_guru}

-- `IsBilling`
abbrev pub is_billing : {T F : Type 0} → WatchedTopic T F → Bool
is_billing wt = elim wt.bill [ none ↦ false | some ba ↦ true ]

module _ {P T F : Type 0} (opts : TreeMap P Bytes Bytes) (tree : TreeMap T ℕ WatcherItem) where
  unfoldable pub process_unsubscribe :
      Looker F
      → Contacts
      → Contact
      → HashType
      → Packet P
      → Subscriptions T F
      → Subscriptions T F × List (Event P)
  process_unsubscribe me contacts ss h p s = elim (get_watcher h s) [
    | none ↦ (s, [])
    | some wt ↦
        let wt' = remove tree (contacts.get_key ss) wt in
        if ltb 0 (length wt.owner)
        then (set_watcher h (some wt') s, push_up_unless_guru opts me p h)
        else if get_size tree wt' == 0 && not (is_billing wt')
        then (set_watcher h none s, push_up_unless_guru opts me p h)
        else (set_watcher h (some wt') s, [])
  ]
