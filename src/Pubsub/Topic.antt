-- ===== src/Pubsub/Topic.antt =====
-- `WatchedTopic` and `watcherItem` of iot/lookup-table.go. Left out are the fields that the message
-- handlers do not touch. `T` is the tree of watchers, keyed by the half hash of a contact, and `F`
-- stands for float64. The tree of the options is given by the list of its entries.
pub mod Options
use knotfreeiot.Base.{ℕ, Bytes, Bool, List, Option}
use knotfreeiot.Base.Keys.{TreeMap, nat_eq}
use knotfreeiot.Billing.{BillingAccumulator}
use knotfreeiot.Pubsub.Hash.{HashType}

-- A contact interface is a handle; what it answers is in `Contacts` below.
abbrev pub Contact : Type 0
Contact = ℕ

pub record WatcherItem : Type 0 where
  pub contact_interface : Contact
  pub pub2self : Bool

-- What a `MyRedblacktree` holds: the options of a topic.
abbrev pub MyRedblacktree : Type 0
MyRedblacktree = List (Bytes × Bytes)

pub record WatchedTopic (T F : Type 0) : Type 0 where
  pub name : HashType
  pub expires : ℕ
  pub thetree : T
  pub bill : Option (BillingAccumulator F)
  pub next_billing_time : ℕ
  pub last_billing_time : ℕ
  pub jwtid : Bytes
  pub owner : Bytes
  pub name_str : Bytes
  pub optional_key_values : Option MyRedblacktree

-- What the contacts answer to `GetKey` and `IsClosed` while a message is handled.
pub record Contacts : Type 0 where
  pub get_key : Contact → ℕ
  pub is_closed : Contact → Bool

module _ {T F : Type 0} (tree : TreeMap T ℕ WatcherItem) where
  unfoldable pub put : ℕ → WatcherItem → WatchedTopic T F → WatchedTopic T F
  put key item wt = record wt { thetree = tree.put key item wt.thetree }

  unfoldable pub get : ℕ → WatchedTopic T F → Option WatcherItem
  get key wt = tree.get key wt.thetree

  unfoldable pub remove : ℕ → WatchedTopic T F → WatchedTopic T F
  remove key wt = record wt { thetree = tree.remove key wt.thetree }

  unfoldable pub get_size : WatchedTopic T F → ℕ
  get_size wt = tree.size wt.thetree

  -- What `Iterator`, `Next` and `KeyValue` go through.
  unfoldable pub items : WatchedTopic T F → List (ℕ × WatcherItem)
  items wt = tree.entries wt.thetree
