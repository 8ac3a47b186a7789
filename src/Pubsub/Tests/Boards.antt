-- ===== src/Pubsub/Tests/Boards.antt =====
-- The theorems on what a bucket promises, at concrete inputs.
use knotfreeiot.Base.{◌≡◌, ◌↔◌, ℕ, refl, true, false, [], ◌∷◌, some}
use knotfreeiot.Base.Keys.{bytes_eq, nat_eq}
use knotfreeiot.Pubsub.Topic.{WatcherItem}
use knotfreeiot.Pubsub.Table.{get_watcher}
use knotfreeiot.Pubsub.Watchers.{Sent}
use knotfreeiot.Pubsub.Publish.Delivery.{wanted}
use knotfreeiot.Pubsub.Messages.{
  process_message, process_messages, subscription_message, unsubscribe_message, publish_message,
}
use knotfreeiot.Pubsub.Spec.{Board, steps}
use knotfreeiot.Pubsub.Spec.Topics.{watching, billing}
use knotfreeiot.Pubsub.Spec.Refines.{Agrees, process_messages-Agrees, publish-Agrees-Sent}
use knotfreeiot.Pubsub.Tests.{
  opts, tree, whole, blank, aide, people, news, table, hello, join, leave, services, table-IsTable,
}

-- What the table shows at first.
abbrev board : Board
board = record {
  watches = λ j k. watching opts tree whole (get_watcher j table) k;
  bills = λ j. billing opts tree whole (get_watcher j table);
}

board-Agrees : Agrees opts tree whole table board
board-Agrees = record { watched = λ j k. refl; billed = λ j. refl }

process_messages-Agrees_example :
    Agrees opts tree whole
      (process_messages opts tree whole services blank aide people.get_key
        ((people.is_closed, 100, subscription_message 6 news join)
          ∷ ((λ c. true), 200, unsubscribe_message 5 news leave)
          ∷ (people.is_closed, 300, publish_message 6 news hello)
          ∷ [])
        table).0
      (steps opts aide people.get_key
        ((people.is_closed, 100, subscription_message 6 news join)
          ∷ ((λ c. true), 200, unsubscribe_message 5 news leave)
          ∷ (people.is_closed, 300, publish_message 6 news hello)
          ∷ [])
        board)
process_messages-Agrees_example =
    process_messages-Agrees opts tree whole services blank aide people.get_key people.is_closed
      ((people.is_closed, 100, subscription_message 6 news join)
        ∷ ((λ c. true), 200, unsubscribe_message 5 news leave)
        ∷ (people.is_closed, 300, publish_message 6 news hello)
        ∷ [])
      table board ((λ l. l), ((λ l. l), ((λ l. l), tt))) table-IsTable board-Agrees

publish-Agrees-Sent_example :
    Sent 5 hello
      (process_message opts tree whole services blank aide people 100
        (publish_message 7 news hello)
        table).1
    ↔ ((board.bills news ≡ false)
        × (k : ℕ) × (item : WatcherItem) × (board.watches news k ≡ some item)
        × (item.contact_interface ≡ 5)
        × (wanted people 7 (k, item) ≡ true))
publish-Agrees-Sent_example =
    publish-Agrees-Sent opts tree whole services blank aide people 100 7 5 news hello table board
      board-Agrees
