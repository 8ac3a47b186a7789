-- ===== src/Pubsub/Spec/Topics.antt =====
-- What each handler does to the watchers of a topic and to its bill.
use knotfreeiot.Base.{
  ℕ, ◌*◌, ◌≡◌, refl, sym, ap, ◌∙◌, Bytes, Bool, false, not, ◌&&◌, ◌||◌, List, [], ◌∷◌, length,
  Option, none, some, inl, inr, ltb, ◌==◌, Bool-cases, Option-cases, if◌then◌else◌, arith,
}
use knotfreeiot.Base.Keys.{TreeMap, bytes_eq, nat_eq, lookup, Distinct}
use knotfreeiot.Billing.{Floats, BillingAccumulator, add32}
use knotfreeiot.Packets.Packet.{Packet}
use knotfreeiot.Pubsub.Hash.{HashType, hash_beq, hash_beq_iff, hash_eq}
use knotfreeiot.Pubsub.Topic.{
  WatchedTopic, WatcherItem, Contact, Contacts, get, put, remove, get_size, items,
}
use knotfreeiot.Pubsub.Table.{Subscriptions, get_watcher, set_watcher}
use knotfreeiot.Pubsub.Watchers.{
  IsKeyed, get-remove, get-items, items-Distinct, get_watcher-set_watcher,
}
use knotfreeiot.Pubsub.Subscribe.{
  Looker, new_watched_topic, new_watcher_item, watcher_for, with_bill, add_bill, add_watcher,
}
use knotfreeiot.Pubsub.Subscribe.Watches.{or_else, get-add_watcher, get-with_bill, subscribed_topic}
use knotfreeiot.Pubsub.Publish.{remove_all, publish_loop, publish_topic}
use knotfreeiot.Pubsub.Publish.Delivery.{stale, chosen, publish_loop_lem}
use knotfreeiot.Pubsub.Unsubscribe.{is_billing, process_unsubscribe}
use knotfreeiot.Pubsub.Heartbeat.Sweep.{holds, get-remove_all, AllKeyed, lookup-AllKeyed, size-get}
use knotfreeiot.Pubsub.Spec.{has_maxima, unless_stale}

module _ {P T F : Type 0} (opts : TreeMap P Bytes Bytes) (tree : TreeMap T ℕ WatcherItem)
    (f : Floats F) where
  -- Who watches a topic that may be there, and does it bill?
  abbrev pub watching : Option (WatchedTopic T F) → ℕ → Option WatcherItem
  watching none k = none
  watching (some wt) k = get tree k wt

  abbrev pub billing : Option (WatchedTopic T F) → Bool
  billing none = false
  billing (some wt) = is_billing wt

  watching-watcher_for :
      (now : ℕ) (h : HashType) (p : Packet P) (s : Subscriptions T F) (k : ℕ)
      → get tree k (watcher_for opts tree f now h p s) ≡ watching (get_watcher h s) k
  unfolding watcher_for new_watched_topic get
  watching-watcher_for now h p s k = ground (arith, tree.get_empty k)

  billing-watcher_for :
      (now : ℕ) (h : HashType) (p : Packet P) (s : Subscriptions T F)
      → is_billing (watcher_for opts tree f now h p s) ≡ billing (get_watcher h s)
  unfolding watcher_for new_watched_topic
  billing-watcher_for now h p s = ground arith

  billing-with_bill :
      (me : Looker F) (h : HashType) (p : Packet P) (wt : WatchedTopic T F)
      → is_billing (with_bill opts tree f me h p wt) ≡ (is_billing wt || has_maxima opts me p)
  unfolding with_bill add_bill has_maxima
  billing-with_bill me h p wt = ground arith

  billing-add_watcher :
      (key : ℕ) (item : WatcherItem) (wt : WatchedTopic T F)
      → is_billing (add_watcher opts tree f key item wt) ≡ is_billing wt
  unfolding add_watcher put
  billing-add_watcher key item wt = ground arith

  module _ (me : Looker F) (contacts : Contacts) (now : ℕ) (ss : Contact) (h : HashType)
      (p : Packet P) (s : Subscriptions T F) where
    pub watching-subscribed :
        (k : ℕ)
        → get tree k (subscribed_topic opts tree f me contacts now ss h p s) ≡ (
            if contacts.get_key ss == k
            then some (or_else (watching (get_watcher h s) k) (new_watcher_item opts ss p))
            else watching (get_watcher h s) k)
    watching-subscribed k = ground (
      arith,
      get-add_watcher opts tree f (contacts.get_key ss) k (new_watcher_item opts ss p)
          (record (with_bill opts tree f me h p (watcher_for opts tree f now h p s)) {
            expires = add32 (26 * 60) now;
          }),
      get-with_bill opts tree f me h p (watcher_for opts tree f now h p s) (add32 (26 * 60) now) k,
      watching-watcher_for now h p s k,
    )

    pub billing-subscribed :
        is_billing (subscribed_topic opts tree f me contacts now ss h p s)
        ≡ (billing (get_watcher h s) || has_maxima opts me p)
    billing-subscribed =
        billing-add_watcher (contacts.get_key ss) (new_watcher_item opts ss p) _
        ∙ (billing-with_bill me h p (watcher_for opts tree f now h p s)
            ∙ ap (λ (b : Bool). b || has_maxima opts me p) (billing-watcher_for now h p s))

  abbrev stale_at : Contacts → ℕ → ℕ → Option WatcherItem → Bool
  stale_at contacts pub_key k none = false
  stale_at contacts pub_key k (some item) = stale contacts pub_key (k, item)

  holds-stale :
      (contacts : Contacts) (pub_key k : ℕ) (l : List (ℕ × WatcherItem))
      → AllKeyed opts tree f contacts l
      → Distinct l
      → holds contacts k (chosen (stale contacts pub_key) l)
        ≡ stale_at contacts pub_key k (lookup k l)
  holds-stale contacts pub_key k [] keyed d = refl
  holds-stale contacts pub_key k ((j, item) ∷ l) (here, keyed) (once, d) =
      ground (arith, holds-stale contacts pub_key k l keyed d)

  unless-stale_at :
      (contacts : Contacts) (pub_key k : ℕ) (o : Option WatcherItem)
      → (if stale_at contacts pub_key k o then none else o) ≡ unless_stale contacts pub_key k o
  unfolding unless_stale
  unless-stale_at contacts pub_key k none = refl
  unless-stale_at contacts pub_key k (some item) = refl

  -- Taking out the contacts found bad.
  get-removed :
      (contacts : Contacts) (pub_key k : ℕ) (p : Packet P) (wt : WatchedTopic T F)
      → IsKeyed tree contacts wt
      → get tree k (
          remove_all opts tree f contacts
            (publish_loop opts tree f contacts pub_key p (items tree wt)).1
            wt)
        ≡ unless_stale contacts pub_key k (get tree k wt)
  get-removed contacts pub_key k p wt keyed =
      let l = items tree wt in
      let bad : (publish_loop opts tree f contacts pub_key p l).1
          ≡ chosen (stale contacts pub_key) l =
        ap (λ r. r.1) (publish_loop_lem opts tree f contacts pub_key p l) in
      let all_keyed =
        lookup-AllKeyed opts tree f contacts l
          (λ j other found. keyed.keyed j other (get-items tree j wt ∙ found))
          (items-Distinct tree wt) in
      let held = holds-stale contacts pub_key k l all_keyed (items-Distinct tree wt) in
      let at_key : holds contacts k (chosen (stale contacts pub_key) l)
          ≡ stale_at contacts pub_key k (get tree k wt) =
        rw (← get-items tree k wt) at held in
      rw bad (
        get-remove_all opts tree f contacts (chosen (stale contacts pub_key) l) k wt
        ∙ rw at_key (unless-stale_at contacts pub_key k (get tree k wt)))

  -- What a publish leaves of the watchers of a topic that does not bill.
  pub watching-published :
      (serve : Packet P → BillingAccumulator F → ℕ → Packet P) (me : Looker F) (contacts : Contacts)
      (now pub_key k : ℕ) (p : Packet P) (wt : WatchedTopic T F)
      → IsKeyed tree contacts wt
      → get tree k (publish_topic opts tree f serve me contacts now pub_key p wt).0
        ≡ (if is_billing wt then get tree k wt else unless_stale contacts pub_key k (get tree k wt))
  unfolding publish_topic get items
  watching-published serve me contacts now pub_key k p wt keyed = elim (Option-cases wt.bill) [
    | inr (ba, e) ↦ rw (e, publish_topic) refl
    | inl e ↦
        rw (e, publish_topic)
          (get-removed contacts pub_key k p (record wt { expires = add32 (25 * 60) now })
            (record { keyed = keyed.keyed }))
  ]

  billing-remove_all :
      (contacts : Contacts) (bad : List Contact) (wt : WatchedTopic T F)
      → is_billing (remove_all opts tree f contacts bad wt) ≡ is_billing wt
  unfolding remove_all remove
  billing-remove_all contacts [] wt = refl
  billing-remove_all contacts (ci ∷ bad) wt =
      billing-remove_all contacts bad (remove tree (contacts.get_key ci) wt)

  pub billing-published :
      (serve : Packet P → BillingAccumulator F → ℕ → Packet P) (me : Looker F) (contacts : Contacts)
      (now pub_key : ℕ) (p : Packet P) (wt : WatchedTopic T F)
      → is_billing (publish_topic opts tree f serve me contacts now pub_key p wt).0 ≡ is_billing wt
  unfolding publish_topic
  billing-published serve me contacts now pub_key p wt = elim (Option-cases wt.bill) [
    | inr (ba, e) ↦ rw (e, publish_topic) refl
    | inl e ↦ rw (e, publish_topic) (billing-remove_all contacts _ _ ∙ rw e refl)
  ]

  module _ (me : Looker F) (contacts : Contacts) (ss : Contact) (h j : HashType) (p : Packet P)
      (s : Subscriptions T F) where
    stays-watching :
        (k : ℕ) (wt : WatchedTopic T F)
        → get_watcher h s ≡ some wt
        → watching (get_watcher j (set_watcher h (some (remove tree (contacts.get_key ss) wt)) s)) k
          ≡ (if hash_beq h j && contacts.get_key ss == k
              then none
              else watching (get_watcher j s) k)
    stays-watching k wt e =
        let wt' = remove tree (contacts.get_key ss) wt in
        elim (Bool-cases (hash_beq h j)) [
          | inl same ↦
              let here : h ≡ j = ground (arith, hash_beq_iff h j) in
              let there : get_watcher j s ≡ some wt = rw here at e in
              rw (get_watcher-set_watcher h j (some wt') s)
                (rw same (rw there (get-remove tree (contacts.get_key ss) k wt)))
          | inr other ↦ rw (get_watcher-set_watcher h j (some wt') s) (rw other refl)
        ]

    goes-watching :
        (k : ℕ) (wt : WatchedTopic T F)
        → get_watcher h s ≡ some wt
        → get_size tree (remove tree (contacts.get_key ss) wt) ≡ 0
        → watching (get_watcher j (set_watcher h none s)) k ≡ (
            if hash_beq h j && contacts.get_key ss == k then none else watching (get_watcher j s) k)
    goes-watching k wt e empty =
        let wt' = remove tree (contacts.get_key ss) wt in
        elim (Bool-cases (hash_beq h j)) [
          | inl same ↦
              let here : h ≡ j = ground (arith, hash_beq_iff h j) in
              let there : get_watcher j s ≡ some wt = rw here at e in
              let gone = size-get opts tree f contacts me 0 wt' empty k in
              rw (get_watcher-set_watcher h j none s)
                (rw same (rw there (sym gone ∙ get-remove tree (contacts.get_key ss) k wt)))
          | inr other ↦ rw (get_watcher-set_watcher h j none s) (rw other refl)
        ]

    -- Whether the topic stays or goes, an unsubscribe takes out one watcher.
    pub watching-unsubscribed :
        (k : ℕ)
        → watching (get_watcher j (process_unsubscribe opts tree me contacts ss h p s).0) k ≡ (
            if hash_beq h j && contacts.get_key ss == k then none else watching (get_watcher j s) k)
    unfolding process_unsubscribe
    watching-unsubscribed k = elim (Option-cases (get_watcher h s)) [
      | inl e ↦ rw (e, process_unsubscribe) (ground (arith, hash_beq_iff h j))
      | inr (wt, e) ↦
          let wt' = remove tree (contacts.get_key ss) wt in
          elim (Bool-cases (ltb 0 (length wt.owner))) [
            | inl owned ↦ rw (e, process_unsubscribe) (rw owned (stays-watching k wt e))
            | inr free ↦ elim (Bool-cases (get_size tree wt' == 0 && not (is_billing wt'))) [
              | inl gone ↦
                  rw (e, process_unsubscribe)
                    (rw free (rw gone (goes-watching k wt e (ground arith))))
              | inr stays ↦ rw (e, process_unsubscribe) (rw free (rw stays (stays-watching k wt e)))
            ]
          ]
    ]

    -- And it leaves the bill.
    pub billing-unsubscribed :
        billing (get_watcher j (process_unsubscribe opts tree me contacts ss h p s).0)
        ≡ billing (get_watcher j s)
    unfolding process_unsubscribe remove
    billing-unsubscribed = elim (Option-cases (get_watcher h s)) [
      | inl e ↦ rw (e, process_unsubscribe) refl
      | inr (wt, e) ↦
          let wt' = remove tree (contacts.get_key ss) wt in
          let kept : billing (get_watcher j (set_watcher h (some wt') s))
              ≡ billing (get_watcher j s) =
            ground (arith, get_watcher-set_watcher h j (some wt') s, hash_beq_iff h j) in
          elim (Bool-cases (ltb 0 (length wt.owner))) [
            | inl owned ↦ rw (e, process_unsubscribe) (rw owned kept)
            | inr free ↦ elim (Bool-cases (get_size tree wt' == 0 && not (is_billing wt'))) [
              | inl gone ↦
                  rw (e, process_unsubscribe)
                    (rw free (
                      rw gone
                        (ground (arith, get_watcher-set_watcher h j none s, hash_beq_iff h j))))
              | inr stays ↦ rw (e, process_unsubscribe) (rw free (rw stays kept))
            ]
          ]
    ]
