-- ===== src/Pubsub/Spec/Refines.antt =====
-- The handlers of a bucket do what `Board` says.
use knotfreeiot.Base.{
  ℕ, ◌≡◌, ◌↔◌, refl, sym, ◌∙◌, Bytes, Bool, true, false, not, ◌&&◌, List, [], ◌∷◌, none, some, inl,
  inr, Bool-cases, Option-cases, if◌then◌else◌, arith,
}
use knotfreeiot.Base.Keys.{TreeMap, bytes_eq, nat_eq}
use knotfreeiot.Billing.{Floats}
use knotfreeiot.Packets.Address.{Codecs, ensure_address_is_binary}
use knotfreeiot.Packets.Packet.{Packet}
use knotfreeiot.Pubsub.Hash.{HashType, hash_beq, hash_beq_iff, hash_eq}
use knotfreeiot.Pubsub.Topic.{WatchedTopic, WatcherItem, Contact, Contacts, get}
use knotfreeiot.Pubsub.Table.{Subscriptions, get_watcher, set_watcher}
use knotfreeiot.Pubsub.Watchers.{IsTable, Sent, get_watcher-set_watcher}
use knotfreeiot.Pubsub.Subscribe.{Looker, process_subscribe}
use knotfreeiot.Pubsub.Subscribe.Watches.{subscribed_topic}
use knotfreeiot.Pubsub.Publish.{publish_topic, process_publish, process_publish_down}
use knotfreeiot.Pubsub.Publish.Delivery.{wanted}
use knotfreeiot.Pubsub.Reach.{process_publish-Sent, process_publish_reaches}
use knotfreeiot.Pubsub.Unsubscribe.{process_unsubscribe}
use knotfreeiot.Pubsub.Messages.{
  Message, Services, address_of, process_message, process_messages, subscription_message,
  unsubscribe_message, lookup_message, publish_message, subscription_message_down,
  publish_message_down,
}
use knotfreeiot.Pubsub.Messages.Invariant.{
  process_subscribe-IsTable, process_unsubscribe-IsTable, process_publish-IsTable,
  process_publish_down-IsTable, same_keys-IsTable,
}
use knotfreeiot.Pubsub.Spec.{Board, unless_stale, step, steps, IsLookup, NoLookup}
use knotfreeiot.Pubsub.Spec.Topics.{
  watching, billing, watching-subscribed, billing-subscribed, watching-published, billing-published,
  watching-unsubscribed, billing-unsubscribed,
}

module _ {P T F : Type 0} (opts : TreeMap P Bytes Bytes) (tree : TreeMap T ℕ WatcherItem)
    (f : Floats F) where
  -- The table shows what the board says.
  pub record Agrees (s : Subscriptions T F) (b : Board) : Type 0 where
    pub watched : (j : HashType) (k : ℕ) → watching opts tree f (get_watcher j s) k ≡ b.watches j k
    pub billed : (j : HashType) → billing opts tree f (get_watcher j s) ≡ b.bills j

  module _ (v : Services opts tree f) (c : Codecs) (me : Looker F) (contacts : Contacts)
      (now : ℕ) where
    -- One topic is replaced, and the board changes there only.
    set-Agrees :
        (h : HashType) (wt : WatchedTopic T F) (s : Subscriptions T F) (b b' : Board)
        → ((k : ℕ) → get tree k wt ≡ b'.watches h k)
        → billing opts tree f (some wt) ≡ b'.bills h
        → ((j : HashType)
            → hash_beq h j ≡ false
            → ((k : ℕ) → b.watches j k ≡ b'.watches j k) × (b.bills j ≡ b'.bills j))
        → Agrees s b
        → Agrees (set_watcher h (some wt) s) b'
    set-Agrees h wt s b b' same_watches same_bill others a = record {
      watched = λ j k. elim (Bool-cases (hash_beq h j)) [
        | inl e ↦
            let here : h ≡ j = ground (arith, hash_beq_iff h j) in
            rw (get_watcher-set_watcher h j (some wt) s) (rw e (rw here at (same_watches k)))
        | inr e ↦
            rw (get_watcher-set_watcher h j (some wt) s) (rw e (a.watched j k ∙ (others j e).0 k))
      ];
      billed = λ j. elim (Bool-cases (hash_beq h j)) [
        | inl e ↦
            let here : h ≡ j = ground (arith, hash_beq_iff h j) in
            rw (get_watcher-set_watcher h j (some wt) s) (rw e (rw here at same_bill))
        | inr e ↦ rw (get_watcher-set_watcher h j (some wt) s) (rw e (a.billed j ∙ (others j e).1))
      ];
    }

    hash_beq_refl : (h : HashType) → hash_beq h h ≡ true
    hash_beq_refl h = ground (arith, hash_beq_iff h h)

    subscribe-Agrees :
        (ss : Contact) (h : HashType) (p : Packet P) (s : Subscriptions T F) (b : Board)
        → Agrees s b
        → Agrees
            (process_subscribe opts tree f me contacts now ss h p s).0
            (step opts me contacts (subscription_message ss h p) b)
    unfolding step process_subscribe
    subscribe-Agrees ss h p s b a =
        set-Agrees h (subscribed_topic opts tree f me contacts now ss h p s) s b _
          (λ k.
            watching-subscribed opts tree f me contacts now ss h p s k
            ∙ rw (a.watched h k) (rw (hash_beq_refl h) refl))
          (billing-subscribed opts tree f me contacts now ss h p s
            ∙ rw (a.billed h) (rw (hash_beq_refl h) refl))
          (λ j other. rw other ((λ k. refl), ground arith)) a

    unsubscribe-Agrees :
        (ss : Contact) (h : HashType) (p : Packet P) (s : Subscriptions T F) (b : Board)
        → Agrees s b
        → Agrees
            (process_unsubscribe opts tree me contacts ss h p s).0
            (step opts me contacts (unsubscribe_message ss h p) b)
    unfolding step
    unsubscribe-Agrees ss h p s b a = record {
      watched = λ j k.
          watching-unsubscribed opts tree f me contacts ss h j p s k ∙ rw (a.watched j k) refl;
      billed = λ j. billing-unsubscribed opts tree f me contacts ss h j p s ∙ a.billed j;
    }

    -- Nobody watches a topic that is not there, so a publish on it takes out nobody.
    absent-Agrees :
        (ss : Contact) (h j : HashType) (k : ℕ) (s : Subscriptions T F) (b : Board)
        → Agrees s b
        → get_watcher h s ≡ none
        → watching opts tree f (get_watcher j s) k ≡ (
            if hash_beq h j && not (b.bills j)
            then unless_stale contacts (contacts.get_key ss) k (b.watches j k)
            else b.watches j k)
    unfolding unless_stale
    absent-Agrees ss h j k s b a e = elim (Bool-cases (hash_beq h j)) [
      | inl same ↦
          let here : h ≡ j = ground (arith, hash_beq_iff h j) in
          let nobody : none ≡ b.watches j k = rw (rw here at e) at (a.watched j k) in
          ground (arith, a.watched j k)
      | inr other ↦ rw other (a.watched j k)
    ]

    publish-Agrees :
        (ss : Contact) (h : HashType) (p : Packet P) (s : Subscriptions T F) (b : Board)
        → IsTable tree contacts s
        → Agrees s b
        → Agrees
            (process_publish opts tree f v.serve_billing_command me contacts now ss h p s).0
            (step opts me contacts (publish_message ss h p) b)
    unfolding step process_publish
    publish-Agrees ss h p s b t a = elim (Option-cases (get_watcher h s)) [
      | inl e ↦
          rw (e, process_publish)
            (record { watched = λ j k. absent-Agrees ss h j k s b a e; billed = a.billed })
      | inr (wt, e) ↦
          let key = contacts.get_key ss in
          let bills = rw e at (a.billed h) in
          let watches : (k : ℕ) → get tree k wt ≡ b.watches h k = λ k. rw e at (a.watched h k) in
          rw (e, process_publish)
            (set-Agrees h
              (publish_topic opts tree f v.serve_billing_command me contacts now key p wt).0 s b _
              (λ k.
                watching-published opts tree f v.serve_billing_command me contacts now key k p wt
                  (t.keys h wt e)
                ∙ rw (hash_beq_refl h) (rw (watches k) (rw bills (ground arith))))
              (billing-published opts tree f v.serve_billing_command me contacts now key p wt
                ∙ bills)
              (λ j other. rw other ((λ k. refl), refl)) a)
    ]

    down-Agrees :
        (h : HashType) (p : Packet P) (s : Subscriptions T F) (b : Board)
        → Agrees s b
        → Agrees
            (process_publish_down opts tree f me contacts now h
              (ensure_address_is_binary c (address_of p.body))
              p
              s).0
            b
    unfolding process_publish_down get
    down-Agrees h p s b a = elim (Option-cases (get_watcher h s)) [
      | inl e ↦ rw (e, process_publish_down) a
      | inr (wt, e) ↦
          rw (e, process_publish_down)
            (set-Agrees h _ s b b (λ k. rw e at (a.watched h k)) (rw e at (a.billed h))
              (λ j other. ((λ k. refl), refl)) a)
    ]

    step-Agrees :
        (msg : Message P) (s : Subscriptions T F) (b : Board)
        → ¬ IsLookup msg
        → IsTable tree contacts s
        → Agrees s b
        → IsTable tree contacts (process_message opts tree f v c me contacts now msg s).0
          × Agrees
              (process_message opts tree f v c me contacts now msg s).0
              (step opts me contacts msg b)
    unfolding process_message step
    step-Agrees (subscription_message ss h p) s b plain t a = (
      process_subscribe-IsTable opts tree f contacts me now ss h p s t,
      subscribe-Agrees ss h p s b a,
    )
    step-Agrees (unsubscribe_message ss h p) s b plain t a = (
      process_unsubscribe-IsTable opts tree f contacts me ss h p s t,
      unsubscribe-Agrees ss h p s b a,
    )
    step-Agrees (lookup_message ss h p) s b plain t a = absurd (plain tt)
    step-Agrees (publish_message ss h p) s b plain t a = (
      process_publish-IsTable opts tree f contacts v.serve_billing_command me now ss h p s t,
      publish-Agrees ss h p s b t a,
    )
    step-Agrees (subscription_message_down h p) s b plain t a = (t, a)
    step-Agrees (publish_message_down h p) s b plain t a =
        (process_publish_down-IsTable opts tree f contacts me now h _ p s t, down-Agrees h p s b a)

  -- A bucket does what its board says, message by message: if at first the board says who watches
  -- each topic and which topics bill, it does so after any number of messages, however contacts
  -- close and time passes between them. This is on a table in order, for messages other than
  -- lookups.
  pub process_messages-Agrees :
      (v : Services opts tree f) (c : Codecs) (me : Looker F) (get_key : Contact → ℕ)
      (closed : Contact → Bool) (queue : List ((Contact → Bool) × ℕ × Message P))
      (s : Subscriptions T F) (b : Board)
      → NoLookup queue
      → IsTable tree (record { get_key = get_key; is_closed = closed }) s
      → Agrees s b
      → Agrees
          (process_messages opts tree f v c me get_key queue s).0
          (steps opts me get_key queue b)
  unfolding process_messages steps
  process_messages-Agrees v c me get_key closed [] s b plain t a = a
  process_messages-Agrees v c me get_key closed ((is_closed, now, msg) ∷ queue) s b (one, plain) t
        a =
      let contacts : Contacts = record { get_key = get_key; is_closed = is_closed } in
      let before =
        same_keys-IsTable opts tree f v c me (record { get_key = get_key; is_closed = closed })
          contacts s refl t in
      let (t', a') = step-Agrees v c me contacts now msg s b one before a in
      process_messages-Agrees v c me get_key is_closed queue _ _ plain t' a'

  -- On what the board says, a publish is written to a contact exactly if the topic does not bill and
  -- the contact watches it, is open, and is not the publisher itself unless it asked for that.
  pub publish-Agrees-Sent :
      (v : Services opts tree f) (c : Codecs) (me : Looker F) (contacts : Contacts) (now : ℕ)
      (ss to : Contact) (h : HashType) (p : Packet P) (s : Subscriptions T F) (b : Board)
      → Agrees s b
      → Sent to p (process_message opts tree f v c me contacts now (publish_message ss h p) s).1 ↔ (
          (b.bills h ≡ false)
          × (k : ℕ) × (item : WatcherItem) × (b.watches h k ≡ some item)
          × (item.contact_interface ≡ to)
          × (wanted contacts (contacts.get_key ss) (k, item) ≡ true))
  unfolding process_message
  publish-Agrees-Sent v c me contacts now ss to h p s b a = (
    (λ sent.
        let (wt, k, item, found, there, same, plain) =
          process_publish-Sent opts tree f v.serve_billing_command me contacts now ss to h p s
            sent in
        let bills = rw found at (a.billed h) in
        let watches : (j : ℕ) → get tree j wt ≡ b.watches h j = λ j. rw found at (a.watched h j) in
        let (k', item', there', same', want) =
          (process_publish_reaches opts tree f v.serve_billing_command me contacts now ss to h p s
              wt found plain).0
            sent in
        (sym bills ∙ ground arith, k', item', sym (watches k') ∙ there', same', want)),
    (λ (plain, k, item, there, same, want). elim (Option-cases (get_watcher h s)) [
      | inl e ↦ absurd (cc (rw e at (a.watched h k), there))
      | inr (wt, e) ↦ elim (Option-cases wt.bill) [
        | inl free ↦
            (process_publish_reaches opts tree f v.serve_billing_command me contacts now ss to h p s
                wt e free).1
              (k, item, rw e at (a.watched h k) ∙ there, same, want)
        | inr (ba, bills) ↦ absurd (ground (arith, a.billed h))
      ]
    ]),
  )
