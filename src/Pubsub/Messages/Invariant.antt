-- ===== src/Pubsub/Messages/Invariant.antt =====
-- Every message keeps the table in order: topics under their names, watchers under their keys.
use knotfreeiot.Base.{
  ℕ, ◌≡◌, refl, sym, ap, ◌∙◌, Bytes, Bool, not, ◌&&◌, List, [], ◌∷◌, length, some, inl, inr, ltb,
  ◌==◌, Bool-cases, Option-cases, ascii, arith,
}
use knotfreeiot.Base.Keys.{TreeMap, bytes_eq, nat_eq}
use knotfreeiot.Billing.{Floats, BillingAccumulator}
use knotfreeiot.Packets.Address.{AddressUnion, Codecs}
use knotfreeiot.Packets.Packet.{Packet}
use knotfreeiot.Pubsub.Hash.{HashType, hash_eq}
use knotfreeiot.Pubsub.Topic.{
  WatchedTopic, WatcherItem, Contact, Contacts, get, put, remove, get_size,
}
use knotfreeiot.Pubsub.Table.{Subscriptions, get_watcher, set_watcher}
use knotfreeiot.Pubsub.Watchers.{
  IsKeyed, IsTable, put-IsKeyed, remove-IsKeyed, set_watcher-IsTable, unset_watcher-IsTable,
}
use knotfreeiot.Pubsub.Subscribe.{
  Looker, option_of, new_watcher_item, new_watched_topic, watcher_for, with_bill, add_watcher,
  process_subscribe,
}
use knotfreeiot.Pubsub.Publish.{remove_all, publish_topic, process_publish, process_publish_down}
use knotfreeiot.Pubsub.Unsubscribe.{is_billing, process_unsubscribe}
use knotfreeiot.Pubsub.Messages.{
  Message, Services, process_message, process_messages, subscription_message, unsubscribe_message,
  lookup_message, publish_message, subscription_message_down, publish_message_down,
}

module _ {P T F : Type 0} (opts : TreeMap P Bytes Bytes) (tree : TreeMap T ℕ WatcherItem)
    (f : Floats F) (contacts : Contacts) where
  -- A topic under the right name, with its watchers under their keys.
  abbrev IsTopic : HashType → WatchedTopic T F → Type 0
  IsTopic h wt = (wt.name ≡ h) × IsKeyed tree contacts wt

  same_tree-IsKeyed :
      (wt wt' : WatchedTopic T F)
      → wt'.thetree ≡ wt.thetree
      → IsKeyed tree contacts wt
      → IsKeyed tree contacts wt'
  unfolding get
  same_tree-IsKeyed wt wt' e k = record { keyed = λ j item found. k.keyed j item (rw e at found) }

  found-IsTopic :
      (h : HashType) (wt : WatchedTopic T F) (s : Subscriptions T F)
      → IsTable tree contacts s
      → get_watcher h s ≡ some wt
      → IsTopic h wt
  found-IsTopic h wt s t e = (t.named h wt e, t.keys h wt e)

  new_watched_topic-IsTopic :
      (now : ℕ) (h : HashType) (p : Packet P) → IsTopic h (new_watched_topic opts tree f now h p)
  unfolding new_watched_topic get
  new_watched_topic-IsTopic now h p =
      (refl, record { keyed = λ j item found. absurd (ground (arith, tree.get_empty j)) })

  watcher_for-IsTopic :
      (now : ℕ) (h : HashType) (p : Packet P) (s : Subscriptions T F)
      → IsTable tree contacts s
      → IsTopic h (watcher_for opts tree f now h p s)
  unfolding watcher_for
  watcher_for-IsTopic now h p s t = elim (Option-cases (get_watcher h s)) [
    | inl e ↦ rw (e, watcher_for) (new_watched_topic-IsTopic now h p)
    | inr (wt, e) ↦ rw (e, watcher_for) (found-IsTopic h wt s t e)
  ]

  with_bill-IsTopic :
      (me : Looker F) (h : HashType) (p : Packet P) (wt : WatchedTopic T F)
      → IsTopic h wt
      → IsTopic h (with_bill opts tree f me h p wt)
  unfolding with_bill
  with_bill-IsTopic me h p wt (n, k) = elim (Bool-cases (option_of opts p (ascii "statsmax")).1) [
    | inl e ↦ rw e (n, same_tree-IsKeyed wt _ refl k)
    | inr e ↦ rw e (n, k)
  ]

  add_watcher-IsTopic :
      (item : WatcherItem) (h : HashType) (wt : WatchedTopic T F)
      → IsTopic h wt
      → IsTopic h (add_watcher opts tree f (contacts.get_key item.contact_interface) item wt)
  unfolding add_watcher put
  add_watcher-IsTopic item h wt (n, k) =
      elim (Option-cases (get tree (contacts.get_key item.contact_interface) wt)) [
        | inl e ↦ rw (e, add_watcher) (n, put-IsKeyed tree contacts _ item wt refl k)
        | inr (old, e) ↦ rw (e, add_watcher) (n, k)
      ]

  remove-IsTopic :
      (k : ℕ) (h : HashType) (wt : WatchedTopic T F) → IsTopic h wt → IsTopic h (remove tree k wt)
  unfolding remove
  remove-IsTopic k h wt (n, keyed) = (n, remove-IsKeyed tree contacts k wt keyed)

  remove_all-IsTopic :
      (bad : List Contact) (h : HashType) (wt : WatchedTopic T F)
      → IsTopic h wt
      → IsTopic h (remove_all opts tree f contacts bad wt)
  unfolding remove_all
  remove_all-IsTopic [] h wt i = i
  remove_all-IsTopic (ci ∷ bad) h wt i =
      remove_all-IsTopic bad h _ (remove-IsTopic (contacts.get_key ci) h wt i)

  publish_topic-IsTopic :
      (serve : Packet P → BillingAccumulator F → ℕ → Packet P) (me : Looker F) (now key : ℕ)
      (p : Packet P) (h : HashType) (wt : WatchedTopic T F)
      → IsTopic h wt
      → IsTopic h (publish_topic opts tree f serve me contacts now key p wt).0
  unfolding publish_topic
  publish_topic-IsTopic serve me now key p h wt (n, k) = elim (Option-cases wt.bill) [
    | inl e ↦ rw (e, publish_topic) (remove_all-IsTopic _ h _ (n, same_tree-IsKeyed wt _ refl k))
    | inr (ba, e) ↦ rw (e, publish_topic) (n, same_tree-IsKeyed wt _ refl k)
  ]

  set_topic :
      (h : HashType) (wt : WatchedTopic T F) (s : Subscriptions T F)
      → IsTopic h wt
      → IsTable tree contacts s
      → IsTable tree contacts (set_watcher h (some wt) s)
  set_topic h wt s (n, k) t = set_watcher-IsTable tree contacts h wt s n k t

  pub process_subscribe-IsTable :
      (me : Looker F) (now : ℕ) (ss : Contact) (h : HashType) (p : Packet P) (s : Subscriptions T F)
      → IsTable tree contacts s
      → IsTable tree contacts (process_subscribe opts tree f me contacts now ss h p s).0
  unfolding process_subscribe new_watcher_item
  process_subscribe-IsTable me now ss h p s t =
      let (n, k) = with_bill-IsTopic me h p _ (watcher_for-IsTopic now h p s t) in
      set_topic h _ s
        (add_watcher-IsTopic (new_watcher_item opts ss p) h _ (n, same_tree-IsKeyed _ _ refl k)) t

  pub process_publish-IsTable :
      (serve : Packet P → BillingAccumulator F → ℕ → Packet P) (me : Looker F) (now : ℕ)
      (ss : Contact) (h : HashType) (p : Packet P) (s : Subscriptions T F)
      → IsTable tree contacts s
      → IsTable tree contacts (process_publish opts tree f serve me contacts now ss h p s).0
  unfolding process_publish
  process_publish-IsTable serve me now ss h p s t = elim (Option-cases (get_watcher h s)) [
    | inl e ↦ rw (e, process_publish) t
    | inr (wt, e) ↦
        rw (e, process_publish)
          (set_topic h _ s
            (publish_topic-IsTopic serve me now (contacts.get_key ss) p h wt
              (found-IsTopic h wt s t e))
            t)
  ]

  pub process_publish_down-IsTable :
      (me : Looker F) (now : ℕ) (h : HashType) (a : AddressUnion) (p : Packet P)
      (s : Subscriptions T F)
      → IsTable tree contacts s
      → IsTable tree contacts (process_publish_down opts tree f me contacts now h a p s).0
  unfolding process_publish_down
  process_publish_down-IsTable me now h a p s t = elim (Option-cases (get_watcher h s)) [
    | inl e ↦ rw (e, process_publish_down) t
    | inr (wt, e) ↦
        rw (e, process_publish_down)
          (set_topic h _ s (t.named h wt e, same_tree-IsKeyed wt _ refl (t.keys h wt e)) t)
  ]

  pub process_unsubscribe-IsTable :
      (me : Looker F) (ss : Contact) (h : HashType) (p : Packet P) (s : Subscriptions T F)
      → IsTable tree contacts s
      → IsTable tree contacts (process_unsubscribe opts tree me contacts ss h p s).0
  unfolding process_unsubscribe
  process_unsubscribe-IsTable me ss h p s t = elim (Option-cases (get_watcher h s)) [
    | inl e ↦ rw (e, process_unsubscribe) t
    | inr (wt, e) ↦
        let wt' = remove tree (contacts.get_key ss) wt in
        let kept =
          set_topic h wt' s (remove-IsTopic (contacts.get_key ss) h wt (found-IsTopic h wt s t e))
            t in
        elim (Bool-cases (ltb 0 (length wt.owner))) [
          | inl owned ↦ rw (e, process_unsubscribe) (rw owned kept)
          | inr free ↦ elim (Bool-cases (get_size tree wt' == 0 && not (is_billing wt'))) [
            | inl gone ↦
                rw (e, process_unsubscribe)
                  (rw free (rw gone (unset_watcher-IsTable tree contacts h s t)))
            | inr stays ↦ rw (e, process_unsubscribe) (rw free (rw stays kept))
          ]
        ]
  ]

module _ {P T F : Type 0} (opts : TreeMap P Bytes Bytes) (tree : TreeMap T ℕ WatcherItem)
    (f : Floats F) (v : Services opts tree f) (c : Codecs) (me : Looker F) where
  -- A lookup keeps the table in order.
  pub record LookupKeeps : Type 0 where
    pub keeps :
        (contacts : Contacts) (now : ℕ) (ss : Contact) (h : HashType) (p : Packet P)
        (s : Subscriptions T F)
        → IsTable tree contacts s
        → IsTable tree contacts (v.process_lookup me contacts now ss h p s).0

  process_message-IsTable :
      (contacts : Contacts) (now : ℕ) (msg : Message P) (s : Subscriptions T F)
      → LookupKeeps
      → IsTable tree contacts s
      → IsTable tree contacts (process_message opts tree f v c me contacts now msg s).0
  unfolding process_message
  process_message-IsTable contacts now (subscription_message ss h p) s look t =
      process_subscribe-IsTable opts tree f contacts me now ss h p s t
  process_message-IsTable contacts now (unsubscribe_message ss h p) s look t =
      process_unsubscribe-IsTable opts tree f contacts me ss h p s t
  process_message-IsTable contacts now (lookup_message ss h p) s look t =
      look.keeps contacts now ss h p s t
  process_message-IsTable contacts now (publish_message ss h p) s look t =
      process_publish-IsTable opts tree f contacts v.serve_billing_command me now ss h p s t
  process_message-IsTable contacts now (subscription_message_down h p) s look t = t
  process_message-IsTable contacts now (publish_message_down h p) s look t =
      process_publish_down-IsTable opts tree f contacts me now h _ p s t

  pub same_keys-IsTable :
      (a b : Contacts) (s : Subscriptions T F)
      → a.get_key ≡ b.get_key
      → IsTable tree a s
      → IsTable tree b s
  same_keys-IsTable a b s e t = record {
    named = t.named;
    once = t.once;
    keys = λ h wt there. record {
      keyed = λ k item found.
          ap (λ g. g item.contact_interface) (sym e) ∙ (t.keys h wt there).keyed k item found;
    };
  }

  -- However contacts close and time passes between the messages of a bucket, a table in order stays
  -- so: every topic stands once, under its name, and every watcher under the key of its contact.
  -- Lookups are assumed to keep that order.
  pub process_messages-IsTable :
      (get_key : Contact → ℕ) (closed : Contact → Bool)
      (queue : List ((Contact → Bool) × ℕ × Message P)) (s : Subscriptions T F)
      → LookupKeeps
      → IsTable tree (record { get_key = get_key; is_closed = closed }) s
      → IsTable tree
          (record { get_key = get_key; is_closed = closed })
          (process_messages opts tree f v c me get_key queue s).0
  unfolding process_messages
  process_messages-IsTable get_key closed [] s look t = t
  process_messages-IsTable get_key closed ((is_closed, now, msg) ∷ queue) s look t =
      let contacts : Contacts = record { get_key = get_key; is_closed = is_closed } in
      let before =
        same_keys-IsTable (record { get_key = get_key; is_closed = closed }) contacts s refl t in
      let after = process_message-IsTable contacts now msg s look before in
      process_messages-IsTable get_key closed queue _ look
        (same_keys-IsTable contacts _ _ refl after)
