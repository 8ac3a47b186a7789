-- ===== src/Pubsub/Reach/Delivers.antt =====
-- A subscribe followed by a publish, and a subscribe followed by an unsubscribe.
use knotfreeiot.Base.{
  ℕ, ◌≡◌, ◌≢◌, refl, ◌∙◌, Bytes, false, [], none, some, inl, inr, Option-cases, ascii, arith,
}
use knotfreeiot.Base.Keys.{TreeMap, bytes_eq, nat_eq}
use knotfreeiot.Billing.{Floats, BillingAccumulator}
use knotfreeiot.Packets.Packet.{Packet}
use knotfreeiot.Pubsub.Hash.{HashType, hash_beq_iff, hash_eq}
use knotfreeiot.Pubsub.Topic.{
  WatchedTopic, WatcherItem, Contact, Contacts, get, put, remove, get_size,
}
use knotfreeiot.Pubsub.Table.{Subscriptions, get_watcher, set_watcher}
use knotfreeiot.Pubsub.Watchers.{Sent, get-remove, get_size-zero, get_watcher-set_watcher}
use knotfreeiot.Pubsub.Subscribe.{
  Looker, option_of, push_up_unless_guru, new_watcher_item, new_watched_topic, watcher_for,
  with_bill, add_watcher, process_subscribe,
}
use knotfreeiot.Pubsub.Subscribe.Watches.{
  subscribed_topic, get_watcher-process_subscribe, process_subscribe-topic,
}
use knotfreeiot.Pubsub.Publish.{process_publish}
use knotfreeiot.Pubsub.Unsubscribe.{process_unsubscribe}
use knotfreeiot.Pubsub.Reach.{process_publish_reaches}

-- The topic is not there, or does not bill and is not watched by the contact.
abbrev pub Unwatched :
    {T F : Type 0}
    → TreeMap T ℕ WatcherItem
    → Contacts
    → Contact
    → HashType
    → Subscriptions T F
    → Type 0
Unwatched {T} {F} tree contacts ss h s =
    (wt : WatchedTopic T F)
    → get_watcher h s ≡ some wt
    → (wt.bill ≡ none) × (get tree (contacts.get_key ss) wt ≡ none)

module _ {P T F : Type 0} (opts : TreeMap P Bytes Bytes) (tree : TreeMap T ℕ WatcherItem)
    (f : Floats F) (me : Looker F) (contacts : Contacts) (now : ℕ) (ss : Contact) (h : HashType)
    (p : Packet P) (s : Subscriptions T F) where
  -- The subscribe has no option statsmax, and the topic is not there, or does not bill and is not
  -- watched by the contact yet.
  pub record IsNew : Type 0 where
    pub no_statsmax : (option_of opts p (ascii "statsmax")).1 ≡ false
    pub not_watched : get tree (contacts.get_key ss) (watcher_for opts tree f now h p s) ≡ none
    pub no_bill : (watcher_for opts tree f now h p s).bill ≡ none

  bill-add_watcher :
      (key : ℕ) (item : WatcherItem) (wt : WatchedTopic T F)
      → (add_watcher opts tree f key item wt).bill ≡ wt.bill
  unfolding add_watcher put
  bill-add_watcher key item wt = elim (Option-cases (get tree key wt)) [
    | inl e ↦ rw (e, add_watcher) refl
    | inr (old, e) ↦ rw (e, add_watcher) refl
  ]

  subscribed-bill : IsNew → (subscribed_topic opts tree f me contacts now ss h p s).bill ≡ none
  unfolding with_bill
  subscribed-bill new =
      bill-add_watcher (contacts.get_key ss) (new_watcher_item opts ss p) _
      ∙ rw new.no_statsmax new.no_bill

  -- A contact that subscribes to a topic, and is open, is written to by the publish of another
  -- contact that follows, where the topic does not bill, before or by the subscribe, the contact did
  -- not watch it before and the two have different keys.
  pub subscribe_delivers :
      (serve : Packet P → BillingAccumulator F → ℕ → Packet P) (later : ℕ) (ss' : Contact)
      (q : Packet P)
      → IsNew
      → contacts.is_closed ss ≡ false
      → contacts.get_key ss ≢ contacts.get_key ss'
      → Sent ss q
          (process_publish opts tree f serve me contacts later ss' h q
            (process_subscribe opts tree f me contacts now ss h p s).0).1
  unfolding new_watcher_item
  subscribe_delivers serve later ss' q new open_ other =
      let after = (process_subscribe opts tree f me contacts now ss h p s).0 in
      let topic = subscribed_topic opts tree f me contacts now ss h p s in
      let there : get_watcher h after ≡ some topic = ground (
        arith,
        get_watcher-process_subscribe opts tree f me contacts now ss h p s h,
        hash_beq_iff h h,
      ) in
      let (_, _, _, watches, _) = process_subscribe-topic opts tree f me contacts now ss h p s in
      let watching : get tree (contacts.get_key ss) topic ≡ some (new_watcher_item opts ss p) =
        ground (arith, watches (contacts.get_key ss), new.not_watched) in
      (process_publish_reaches opts tree f serve me contacts later ss' ss h q after topic there
          (subscribed-bill new)).1
        (contacts.get_key ss, new_watcher_item opts ss p, watching, refl, ground arith)

  owner-add_watcher :
      (key : ℕ) (item : WatcherItem) (wt : WatchedTopic T F)
      → (add_watcher opts tree f key item wt).owner ≡ wt.owner
  unfolding add_watcher put
  owner-add_watcher key item wt = elim (Option-cases (get tree key wt)) [
    | inl e ↦ rw (e, add_watcher) refl
    | inr (old, e) ↦ rw (e, add_watcher) refl
  ]

  module _ (absent : get_watcher h s ≡ none) where
    fresh : watcher_for opts tree f now h p s ≡ new_watched_topic opts tree f now h p
    unfolding watcher_for
    fresh = rw (absent, watcher_for) refl

    get-fresh : (k : ℕ) → get tree k (watcher_for opts tree f now h p s) ≡ none
    unfolding get new_watched_topic
    get-fresh k = rw fresh (tree.get_empty k)

    fresh-IsNew : (option_of opts p (ascii "statsmax")).1 ≡ false → IsNew
    unfolding new_watched_topic
    fresh-IsNew unset = record {
      no_statsmax = unset;
      not_watched = get-fresh (contacts.get_key ss);
      no_bill = rw fresh refl;
    }

    subscribed-owner :
        (option_of opts p (ascii "statsmax")).1 ≡ false
        → (subscribed_topic opts tree f me contacts now ss h p s).owner ≡ []
    unfolding with_bill new_watched_topic
    subscribed-owner unset =
        owner-add_watcher (contacts.get_key ss) (new_watcher_item opts ss p) _
        ∙ rw unset (rw fresh refl)

    -- The topic is empty after its only watcher is removed.
    emptied :
        get_size tree (
          remove tree (contacts.get_key ss) (subscribed_topic opts tree f me contacts now ss h p s))
        ≡ 0
    emptied =
        let topic = subscribed_topic opts tree f me contacts now ss h p s in
        let (wt, found, _, watches, _) =
          process_subscribe-topic opts tree f me contacts now ss h p s in
        get_size-zero tree (remove tree (contacts.get_key ss) topic) (λ k. ground (
          arith,
          get-remove tree (contacts.get_key ss) k topic,
          watches k,
          get-fresh k,
          found,
          get_watcher-process_subscribe opts tree f me contacts now ss h p s h,
          hash_beq_iff h h,
        ))

    -- A contact that subscribes to a topic that is not there, without the option statsmax, and
    -- unsubscribes leaves every topic as it was; and the unsubscribe sends what `PushUp` sends,
    -- which is nothing at a guru.
    pub subscribe-unsubscribe :
        (u : Packet P)
        → (option_of opts p (ascii "statsmax")).1 ≡ false
        → let r =
            process_unsubscribe opts tree me contacts ss h u
              (process_subscribe opts tree f me contacts now ss h p s).0 in
          ((j : HashType) → get_watcher j r.0 ≡ get_watcher j s)
          × (r.1 ≡ push_up_unless_guru opts me u h)
    unfolding process_unsubscribe remove get_size
    subscribe-unsubscribe u unset =
        let after = (process_subscribe opts tree f me contacts now ss h p s).0 in
        let topic = subscribed_topic opts tree f me contacts now ss h p s in
        let there : get_watcher h after ≡ some topic = ground (
          arith,
          get_watcher-process_subscribe opts tree f me contacts now ss h p s h,
          hash_beq_iff h h,
        ) in
        let unowned = subscribed-owner unset in
        let unbilled = subscribed-bill (fresh-IsNew unset) in
        let result : process_unsubscribe opts tree me contacts ss h u after
            ≡ (set_watcher h none after, push_up_unless_guru opts me u h) =
          rw (there, process_unsubscribe) (rw unowned (rw unbilled (rw emptied refl))) in
        rw result (
          (λ j. ground (
            arith,
            get_watcher-set_watcher h j none after,
            get_watcher-process_subscribe opts tree f me contacts now ss h p s j,
            hash_beq_iff h j,
            absent,
          )),
          refl,
        )

  pub Unwatched-IsNew :
      Unwatched tree contacts ss h s → (option_of opts p (ascii "statsmax")).1 ≡ false → IsNew
  unfolding watcher_for
  Unwatched-IsNew free unset = elim (Option-cases (get_watcher h s)) [
    | inl absent ↦ fresh-IsNew absent unset
    | inr (wt, there) ↦ record {
      no_statsmax = unset;
      not_watched = rw (there, watcher_for) (free wt there).1;
      no_bill = rw (there, watcher_for) (free wt there).0;
    }
  ]
