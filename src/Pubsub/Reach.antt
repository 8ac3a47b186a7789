-- ===== src/Pubsub/Reach.antt =====
-- Who gets a message: the handlers of subscribe, unsubscribe and publish one after the other.
pub mod Delivers
use knotfreeiot.Base.{
  ℕ, ◌≡◌, ◌≢◌, refl, sym, ap, ◌∙◌, Bytes, Bool, true, false, not, ◌&&◌, List, [], ◌∷◌, ◌++◌, length,
  map, Option, none, some, ◌⊎◌, ◌↔◌, inl, inr, ltb, ◌==◌, Bool-cases, Option-cases, if◌then◌else◌,
  ascii, arith,
}
use knotfreeiot.Base.Keys.{TreeMap, bytes_eq, nat_eq, lookup}
use knotfreeiot.Billing.{Floats, BillingAccumulator}
use knotfreeiot.Packets.Packet.{Packet}
use knotfreeiot.Pubsub.Hash.{HashType, hash_beq, hash_beq_iff}
use knotfreeiot.Pubsub.Topic.{
  WatchedTopic, WatcherItem, Contact, Contacts, get, put, remove, get_size, items,
}
use knotfreeiot.Pubsub.Table.{Event, write_downstream, Subscriptions, get_watcher, set_watcher}
use knotfreeiot.Pubsub.Watchers.{
  Sent, Sent-append, Sent-append_left, push_up-Sent, get-items, items-Distinct, get-put, get-remove,
  get_watcher-set_watcher, IsKeyed, IsTable,
}
use knotfreeiot.Pubsub.Subscribe.{
  Looker, option_of, push_up_unless_guru, new_watched_topic, new_watcher_item, watcher_for,
  with_bill, add_watcher, process_subscribe,
}
use knotfreeiot.Pubsub.Publish.{publish_loop, publish_billing, publish_topic, process_publish}
use knotfreeiot.Pubsub.Publish.Delivery.{
  wanted, chosen, publish_loop_lem, chosen-Sent, chosen-Reached,
}
use knotfreeiot.Pubsub.Messages.Invariant.{process_unsubscribe-IsTable}
use knotfreeiot.Pubsub.Unsubscribe.{is_billing, process_unsubscribe}

module _ {P T F : Type 0} (opts : TreeMap P Bytes Bytes) (tree : TreeMap T ℕ WatcherItem)
    (f : Floats F) (serve : Packet P → BillingAccumulator F → ℕ → Packet P) (me : Looker F)
    (contacts : Contacts) (now : ℕ) where
  -- What an unsubscribe leaves of the topic, if anything.
  unsubscribed-get :
      (ss : Contact) (h : HashType) (u : Packet P) (s : Subscriptions T F) (wt' : WatchedTopic T F)
      → get_watcher h (process_unsubscribe opts tree me contacts ss h u s).0 ≡ some wt'
      → get tree (contacts.get_key ss) wt' ≡ none
  unfolding process_unsubscribe
  unsubscribed-get ss h u s wt' found = elim (Option-cases (get_watcher h s)) [
    | inl e ↦ absurd (cc (rw (e, process_unsubscribe) at found, e))
    | inr (wt, e) ↦
        let left = remove tree (contacts.get_key ss) wt in
        let removed = get-remove tree (contacts.get_key ss) (contacts.get_key ss) wt in
        let kept : get_watcher h (set_watcher h (some left) s) ≡ some wt'
            → get tree (contacts.get_key ss) wt' ≡ none =
          λ there.
            ground (arith, removed, hash_beq_iff h h, get_watcher-set_watcher h h (some left) s) in
        elim (Bool-cases (ltb 0 (length wt.owner))) [
          | inl owned ↦ kept (rw owned at (rw (e, process_unsubscribe) at found))
          | inr free ↦ elim (Bool-cases (get_size tree left == 0 && not (is_billing left))) [
            | inl gone ↦ absurd (
                ground (
                  arith,
                  rw gone at (rw free at (rw (e, process_unsubscribe) at found)),
                  hash_beq_iff h h,
                  get_watcher-set_watcher h h none s,
                ))
            | inr stays ↦ kept (rw stays at (rw free at (rw (e, process_unsubscribe) at found)))
          ]
        ]
  ]

  push_up_unless_guru-Sent :
      (c : Contact) (p q : Packet P) (h : HashType) → ¬ Sent c p (push_up_unless_guru opts me q h)
  push_up_unless_guru-Sent c p q h sent = elim (Bool-cases me.is_guru) [
    | inl e ↦ rw e at sent
    | inr e ↦ push_up-Sent c p me.router q h (rw e at sent)
  ]

  -- What a publish on a topic that is there sends.
  process_publish-found :
      (ss : Contact) (h : HashType) (p : Packet P) (s : Subscriptions T F) (wt : WatchedTopic T F)
      → get_watcher h s ≡ some wt
      → wt.bill ≡ none
      → (process_publish opts tree f serve me contacts now ss h p s).1
        ≡ (publish_loop opts tree f contacts (contacts.get_key ss) p (items tree wt)).0
          ++ push_up_unless_guru opts me p h
  unfolding process_publish publish_topic items
  process_publish-found ss h p s wt found plain =
      rw (found, process_publish) (rw (plain, publish_topic) refl)

  -- On a topic that does not bill, a publish is written to a contact exactly if the contact watches
  -- the topic, is open, and is not the publisher itself unless it asked for its own publishes.
  pub process_publish_reaches :
      (ss c : Contact) (h : HashType) (p : Packet P) (s : Subscriptions T F) (wt : WatchedTopic T F)
      → get_watcher h s ≡ some wt
      → wt.bill ≡ none
      → Sent c p (process_publish opts tree f serve me contacts now ss h p s).1 ↔ (
          (k : ℕ) × (item : WatcherItem) × (get tree k wt ≡ some item)
          × (item.contact_interface ≡ c)
          × (wanted contacts (contacts.get_key ss) (k, item) ≡ true))
  process_publish_reaches ss c h p s wt found plain =
      let key = contacts.get_key ss in
      let loop = publish_loop_lem opts tree f contacts key p (items tree wt) in
      let sends = process_publish-found ss h p s wt found plain ∙ rw loop refl in
      (
        (λ sent. elim (Sent-append c p _ (push_up_unless_guru opts me p h) (rw sends at sent)) [
          | inl down ↦
              let (k, item, there, same, want) =
                chosen-Reached opts tree f contacts key p c (items tree wt) (items-Distinct tree wt)
                  down in
              (k, item, get-items tree k wt ∙ there, same, want)
          | inr gone ↦ absurd (push_up_unless_guru-Sent c p p h gone)
        ]),
        (λ (k, item, there, same, want). rw sends (
            Sent-append_left c p _ (push_up_unless_guru opts me p h) (
              rw same at (
                chosen-Sent opts tree f contacts key p k item (items tree wt)
                  (sym (get-items tree k wt) ∙ there) want)))),
      )

  publish_billing-Sent :
      (c : Contact) (q p : Packet P) (ba : BillingAccumulator F)
      → ¬ Sent c q (publish_billing opts tree f serve me now p ba).1
  unfolding publish_billing
  publish_billing-Sent c q p ba sent = elim (Bool-cases (option_of opts p (ascii "add-stats")).1) [
    | inl e ↦ elim (Bool-cases me.is_guru) [
      | inl g ↦ rw g at (rw e at sent)
      | inr g ↦ rw g at (rw e at sent)
    ]
    | inr e ↦ elim (Bool-cases me.is_guru) [
      | inl g ↦ rw g at (rw e at sent)
      | inr g ↦ elim (rw g at (rw e at sent)) [ inl other ↦ cc other | inr none_left ↦ none_left ]
    ]
  ]

  -- What a publish to a billing topic sends.
  process_publish-bills :
      (ss : Contact) (h : HashType) (p : Packet P) (s : Subscriptions T F) (wt : WatchedTopic T F)
      (ba : BillingAccumulator F)
      → get_watcher h s ≡ some wt
      → wt.bill ≡ some ba
      → (process_publish opts tree f serve me contacts now ss h p s).1
        ≡ (publish_billing opts tree f serve me now p ba).1 ++ push_up_unless_guru opts me p h
  unfolding process_publish publish_topic
  process_publish-bills ss h p s wt ba found bills =
      rw (found, process_publish) (rw (bills, publish_topic) refl)

  -- A contact that a publish is written to stands among the watchers of the topic, which does not
  -- bill.
  pub process_publish-Sent :
      (ss c : Contact) (h : HashType) (p : Packet P) (s : Subscriptions T F)
      → Sent c p (process_publish opts tree f serve me contacts now ss h p s).1
      → (wt : WatchedTopic T F) × (k : ℕ) × (item : WatcherItem) × (get_watcher h s ≡ some wt)
        × (get tree k wt ≡ some item)
        × (item.contact_interface ≡ c)
        × (wt.bill ≡ none)
  unfolding process_publish
  process_publish-Sent ss c h p s sent = elim (Option-cases (get_watcher h s)) [
    | inl e ↦ absurd (push_up_unless_guru-Sent c p p h (rw (e, process_publish) at sent))
    | inr (wt, e) ↦ elim (Option-cases wt.bill) [
      | inl plain ↦
          let (k, item, there, same, want) =
            (process_publish_reaches ss c h p s wt e plain).0 sent in
          (wt, k, item, e, there, same, plain)
      | inr (ba, bills) ↦
          absurd
            (elim (Sent-append c p _ (push_up_unless_guru opts me p h)
              (rw (process_publish-bills ss h p s wt ba e bills) at sent)) [
                | inl down ↦ publish_billing-Sent c p p ba down
                | inr gone ↦ push_up_unless_guru-Sent c p p h gone
              ])
    ]
  ]

  -- On a table in order, a contact that has unsubscribed is not written to by the publish on the
  -- topic that follows, whoever publishes and even if the topic is still there for others; nor is
  -- any contact with the same key.
  pub process_unsubscribe_stops :
      (ss ss' c : Contact) (h : HashType) (u p : Packet P) (s : Subscriptions T F)
      → IsTable tree contacts s
      → contacts.get_key c ≡ contacts.get_key ss
      → ¬ Sent c p
          (process_publish opts tree f serve me contacts now ss' h p
            (process_unsubscribe opts tree me contacts ss h u s).0).1
  process_unsubscribe_stops ss ss' c h u p s t same_key sent =
      let after = (process_unsubscribe opts tree me contacts ss h u s).0 in
      let (wt, k, item, found, there, same, _) = process_publish-Sent ss' c h p after sent in
      let keyed =
        (process_unsubscribe-IsTable opts tree f contacts me ss h u s t).keys h wt found in
      let at_key : k ≡ contacts.get_key ss = cc (keyed.keyed k item there, same, same_key) in
      cc (there, at_key, unsubscribed-get ss h u s wt found)
