-- ===== src/Pubsub/Tests/Handlers.antt =====
-- The theorems on subscribe, unsubscribe and publish at concrete inputs.
use knotfreeiot.Base.{ℕ, ◌≡◌, ◌↔◌, refl, true, none, some, arith}
use knotfreeiot.Base.Keys.{bytes_eq, nat_eq}
use knotfreeiot.Packets.Options.{get_option}
use knotfreeiot.Pubsub.Hash.{HashType, hash_eq}
use knotfreeiot.Pubsub.Topic.{WatcherItem, get}
use knotfreeiot.Pubsub.Table.{get_watcher}
use knotfreeiot.Pubsub.Watchers.{Sent}
use knotfreeiot.Pubsub.Subscribe.{
  push_up_unless_guru, new_watched_topic, watcher_for, process_subscribe,
}
use knotfreeiot.Pubsub.Publish.{process_publish}
use knotfreeiot.Pubsub.Publish.Delivery.{wanted}
use knotfreeiot.Pubsub.Unsubscribe.{process_unsubscribe}
use knotfreeiot.Pubsub.Reach.{process_publish_reaches, process_unsubscribe_stops}
use knotfreeiot.Pubsub.Reach.Delivers.{IsNew, subscribe_delivers, subscribe-unsubscribe}
use knotfreeiot.Pubsub.Tests.{
  opts, tree, whole, aide, people, news, topic, table, nothing, hello, join, leave, reply,
  table-found, table-IsTable,
}

process_publish_reaches_example :
    Sent 5 hello (process_publish opts tree whole reply aide people 100 7 news hello table).1 ↔ (
      (k : ℕ) × (item : WatcherItem) × (get tree k topic ≡ some item)
      × (item.contact_interface ≡ 5)
      × (wanted people 7 (k, item) ≡ true))
process_publish_reaches_example =
    process_publish_reaches opts tree whole reply aide people 100 7 5 news hello table topic
      table-found refl

process_unsubscribe_stops_example :
    ¬ Sent 5 hello
      (process_publish opts tree whole reply aide people 100 7 news hello
        (process_unsubscribe opts tree aide people 5 news leave table).0).1
process_unsubscribe_stops_example =
    process_unsubscribe_stops opts tree whole reply aide people 100 5 7 5 news leave hello table
      table-IsTable refl

join-IsNew : IsNew opts tree whole aide people 100 5 news join nothing
unfolding get get_option watcher_for new_watched_topic get_watcher
join-IsNew = record { no_statsmax = refl; not_watched = refl; no_bill = refl }

subscribe_delivers_example :
    Sent 5 hello
      (process_publish opts tree whole reply aide people 200 7 news hello
        (process_subscribe opts tree whole aide people 100 5 news join nothing).0).1
subscribe_delivers_example =
    subscribe_delivers opts tree whole aide people 100 5 news join nothing reply 200 7 hello
      join-IsNew refl (omega arith)

nothing-absent : get_watcher news nothing ≡ none
unfolding get_watcher
nothing-absent = refl

subscribe-unsubscribe_example :
    let r =
      process_unsubscribe opts tree aide people 5 news leave
        (process_subscribe opts tree whole aide people 100 5 news join nothing).0 in
    ((j : HashType) → get_watcher j r.0 ≡ get_watcher j nothing)
    × (r.1 ≡ push_up_unless_guru opts aide leave news)
subscribe-unsubscribe_example =
    subscribe-unsubscribe opts tree whole aide people 100 5 news join nothing nothing-absent leave
      (join-IsNew.no_statsmax)
