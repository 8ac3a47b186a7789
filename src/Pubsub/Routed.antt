-- ===== src/Pubsub/Routed.antt =====
-- A router whose lookup stays within its channels, and what the handlers then never do.
use knotfreeiot.Base.{
  ℕ, zero, suc, ◌<◌, ◌≡◌, refl, Bytes, Bool, true, false, not, ◌&&◌, List, [], ◌∷◌, ◌++◌, length,
  some, inl, inr, ltb, ◌==◌, Bool-cases, Option-cases, ascii, arith,
}
use knotfreeiot.Base.Keys.{TreeMap, bytes_eq, nat_eq}
use knotfreeiot.Billing.{Floats, BillingAccumulator}
use knotfreeiot.Packets.Address.{AddressUnion, Codecs}
use knotfreeiot.Packets.Packet.{Packet}
use knotfreeiot.Pubsub.Hash.{HashType, hash_eq}
use knotfreeiot.Pubsub.Topic.{WatchedTopic, WatcherItem, Contact, Contacts, items, remove, get_size}
use knotfreeiot.Pubsub.Table.{
  Router, Event, write_downstream, up, to_any_aide, crash, channel_at, get_upper_channel, push_up,
  Subscriptions, get_watcher, IsRouted, NoCrash,
}
use knotfreeiot.Pubsub.Subscribe.{
  Looker, option_of, push_up_unless_guru, suback, process_subscribe, write_to_open,
  process_subscribe_down,
}
use knotfreeiot.Pubsub.Publish.{
  publish_loop, publish_billing, publish_topic, process_publish, process_publish_down,
}
use knotfreeiot.Pubsub.Unsubscribe.{is_billing, process_unsubscribe}
use knotfreeiot.Pubsub.Messages.{
  Message, Services, process_message, process_messages, subscription_message, unsubscribe_message,
  lookup_message, publish_message, subscription_message_down, publish_message_down,
}

channel_at-lt : (cs : List Bool) (i : ℕ) → i < length cs → (c : Bool) × (channel_at cs i ≡ some c)
unfolding channel_at
channel_at-lt [] i h = absurd (omega arith)
channel_at-lt (c ∷ cs) zero h = (c, refl)
channel_at-lt (c ∷ cs) (suc i) h = channel_at-lt cs i (omega arith)

module _ {P : Type 0} where
  NoCrash-append : (es fs : List (Event P)) → NoCrash es → NoCrash fs → NoCrash (es ++ fs)
  NoCrash-append [] fs a b = b
  NoCrash-append (write_downstream c p ∷ es) fs a b = NoCrash-append es fs a b
  NoCrash-append (up i p ∷ es) fs a b = NoCrash-append es fs a b
  NoCrash-append (to_any_aide p ∷ es) fs a b = NoCrash-append es fs a b
  NoCrash-append (crash ∷ es) fs a b = elim a [ ]

  reached-NoCrash : (p : Packet P) (c : Bool) (i : ℕ) → NoCrash (get_upper_channel p i (some c))
  unfolding get_upper_channel
  reached-NoCrash p true i = tt
  reached-NoCrash p false i = tt

  push_up-NoCrash :
      (r : Router) (p : Packet P) (h : HashType) → IsRouted r → NoCrash (push_up r p h)
  unfolding push_up get_upper_channel
  push_up-NoCrash r p h routed = elim (Option-cases r.maglev) [
    | inl e ↦ rw (e, push_up) tt
    | inr (index, e) ↦ elim (Bool-cases (length r.channels == 0)) [
      | inl closed ↦ rw (e, push_up) (rw closed tt)
      | inr open_ ↦
          let (c, there) = channel_at-lt r.channels (index h.h0) (routed.in_range index e h.h0) in
          rw (e, push_up)
            (rw open_ (rw (there, get_upper_channel) (reached-NoCrash p c (index h.h0))))
    ]
  ]

module _ {P T F : Type 0} (opts : TreeMap P Bytes Bytes) (tree : TreeMap T ℕ WatcherItem)
    (f : Floats F) (me : Looker F) (routed : IsRouted me.router) (contacts : Contacts) where
  up-NoCrash : (p : Packet P) (h : HashType) → NoCrash (push_up_unless_guru opts me p h)
  up-NoCrash p h = elim (Bool-cases me.is_guru) [
    | inl e ↦ rw e tt
    | inr e ↦ rw e (push_up-NoCrash me.router p h routed)
  ]

  suback-NoCrash : (ss : Contact) (p : Packet P) → NoCrash (suback opts me ss p)
  unfolding suback
  suback-NoCrash ss p = elim (Bool-cases me.is_guru) [
    | inl g ↦ elim (Bool-cases (option_of opts p (ascii "noack")).1) [
      | inl e ↦ rw g (rw e tt)
      | inr e ↦ rw g (rw e tt)
    ]
    | inr g ↦ elim (Bool-cases (length me.router.channels == 0)) [
      | inl e ↦ rw g (rw e tt)
      | inr e ↦ rw g (rw e tt)
    ]
  ]

  publish_loop-NoCrash :
      (key : ℕ) (p : Packet P) (l : List (ℕ × WatcherItem))
      → NoCrash (publish_loop opts tree f contacts key p l).0
  unfolding publish_loop
  publish_loop-NoCrash key p [] = tt
  publish_loop-NoCrash key p ((k, item) ∷ l) = ground (arith, publish_loop-NoCrash key p l)

  write_to_open-NoCrash :
      (p : Packet P) (l : List (ℕ × WatcherItem)) → NoCrash (write_to_open opts tree f contacts p l)
  unfolding write_to_open
  write_to_open-NoCrash p [] = tt
  write_to_open-NoCrash p ((k, item) ∷ l) = ground (arith, write_to_open-NoCrash p l)

  publish_billing-NoCrash :
      (serve : Packet P → BillingAccumulator F → ℕ → Packet P) (now : ℕ) (p : Packet P)
      (ba : BillingAccumulator F)
      → NoCrash (publish_billing opts tree f serve me now p ba).1
  unfolding publish_billing
  publish_billing-NoCrash serve now p ba =
      elim (Bool-cases (option_of opts p (ascii "add-stats")).1) [
        | inl e ↦ elim (Bool-cases me.is_guru) [ inl g ↦ rw e (rw g tt) | inr g ↦ rw e (rw g tt) ]
        | inr e ↦ elim (Bool-cases me.is_guru) [ inl g ↦ rw e (rw g tt) | inr g ↦ rw e (rw g tt) ]
      ]

  publish_topic-NoCrash :
      (serve : Packet P → BillingAccumulator F → ℕ → Packet P) (now key : ℕ) (p : Packet P)
      (wt : WatchedTopic T F)
      → NoCrash (publish_topic opts tree f serve me contacts now key p wt).1
  unfolding publish_topic
  publish_topic-NoCrash serve now key p wt = elim (Option-cases wt.bill) [
    | inl e ↦ rw (e, publish_topic) (publish_loop-NoCrash key p (items tree wt))
    | inr (ba, e) ↦ rw (e, publish_topic) (publish_billing-NoCrash serve now p ba)
  ]

  process_publish-NoCrash :
      (serve : Packet P → BillingAccumulator F → ℕ → Packet P) (now : ℕ) (ss : Contact)
      (h : HashType) (p : Packet P) (s : Subscriptions T F)
      → NoCrash (process_publish opts tree f serve me contacts now ss h p s).1
  unfolding process_publish
  process_publish-NoCrash serve now ss h p s = elim (Option-cases (get_watcher h s)) [
    | inl e ↦ rw (e, process_publish) (up-NoCrash p h)
    | inr (wt, e) ↦
        rw (e, process_publish)
          (NoCrash-append
            (publish_topic opts tree f serve me contacts now (contacts.get_key ss) p wt).1
            (push_up_unless_guru opts me p h)
            (publish_topic-NoCrash serve now (contacts.get_key ss) p wt) (up-NoCrash p h))
  ]

  process_publish_down-NoCrash :
      (now : ℕ) (h : HashType) (a : AddressUnion) (p : Packet P) (s : Subscriptions T F)
      → NoCrash (process_publish_down opts tree f me contacts now h a p s).1
  unfolding process_publish_down
  process_publish_down-NoCrash now h a p s = elim (Option-cases (get_watcher h s)) [
    | inl e ↦ rw (e, process_publish_down) (up-NoCrash _ h)
    | inr (wt, e) ↦ rw (e, process_publish_down) (write_to_open-NoCrash p (items tree wt))
  ]

  process_subscribe_down-NoCrash :
      (h : HashType) (p : Packet P) (s : Subscriptions T F)
      → NoCrash (process_subscribe_down opts tree f contacts h p s)
  unfolding process_subscribe_down
  process_subscribe_down-NoCrash h p s = elim (Option-cases (get_watcher h s)) [
    | inl e ↦ rw (e, process_subscribe_down) tt
    | inr (wt, e) ↦ rw (e, process_subscribe_down) (write_to_open-NoCrash p (items tree wt))
  ]

  process_unsubscribe-NoCrash :
      (ss : Contact) (h : HashType) (p : Packet P) (s : Subscriptions T F)
      → NoCrash (process_unsubscribe opts tree me contacts ss h p s).1
  unfolding process_unsubscribe
  process_unsubscribe-NoCrash ss h p s = elim (Option-cases (get_watcher h s)) [
    | inl e ↦ rw (e, process_unsubscribe) tt
    | inr (wt, e) ↦
        let left = remove tree (contacts.get_key ss) wt in
        elim (Bool-cases (ltb 0 (length wt.owner))) [
          | inl owned ↦ rw (e, process_unsubscribe) (rw owned (up-NoCrash p h))
          | inr free ↦ elim (Bool-cases (get_size tree left == 0 && not (is_billing left))) [
            | inl gone ↦ rw (e, process_unsubscribe) (rw free (rw gone (up-NoCrash p h)))
            | inr stays ↦ rw (e, process_unsubscribe) (rw free (rw stays tt))
          ]
        ]
  ]

module _ {P T F : Type 0} (opts : TreeMap P Bytes Bytes) (tree : TreeMap T ℕ WatcherItem)
    (f : Floats F) (v : Services opts tree f) (c : Codecs) (me : Looker F)
    (routed : IsRouted me.router) where
  -- A lookup does not crash.
  pub record LookupRuns : Type 0 where
    pub runs :
        (contacts : Contacts) (now : ℕ) (ss : Contact) (h : HashType) (p : Packet P)
        (s : Subscriptions T F)
        → NoCrash (v.process_lookup me contacts now ss h p s).1

  process_message-NoCrash :
      (contacts : Contacts) (now : ℕ) (msg : Message P) (s : Subscriptions T F)
      → LookupRuns
      → NoCrash (process_message opts tree f v c me contacts now msg s).1
  unfolding process_message process_subscribe
  process_message-NoCrash contacts now (subscription_message ss h p) s look =
      NoCrash-append (suback opts me ss p) (push_up_unless_guru opts me p h)
        (suback-NoCrash opts tree f me routed contacts ss p)
        (up-NoCrash opts tree f me routed contacts p h)
  process_message-NoCrash contacts now (unsubscribe_message ss h p) s look =
      process_unsubscribe-NoCrash opts tree f me routed contacts ss h p s
  process_message-NoCrash contacts now (lookup_message ss h p) s look =
      look.runs contacts now ss h p s
  process_message-NoCrash contacts now (publish_message ss h p) s look =
      process_publish-NoCrash opts tree f me routed contacts v.serve_billing_command now ss h p s
  process_message-NoCrash contacts now (subscription_message_down h p) s look =
      process_subscribe_down-NoCrash opts tree f me routed contacts h p s
  process_message-NoCrash contacts now (publish_message_down h p) s look =
      process_publish_down-NoCrash opts tree f me routed contacts now h _ p s

  -- Where the lookup of the router stays within its channels, no message of a bucket makes an index
  -- go out of range, whatever the table holds; lookups are assumed not to.
  pub process_messages-NoCrash :
      (get_key : Contact → ℕ) (queue : List ((Contact → Bool) × ℕ × Message P))
      (s : Subscriptions T F)
      → LookupRuns
      → NoCrash (process_messages opts tree f v c me get_key queue s).1
  unfolding process_messages
  process_messages-NoCrash get_key [] s look = tt
  process_messages-NoCrash get_key ((is_closed, now, msg) ∷ queue) s look =
      let contacts : Contacts = record { get_key = get_key; is_closed = is_closed } in
      let (s1, events) = process_message opts tree f v c me contacts now msg s in
      NoCrash-append events (process_messages opts tree f v c me get_key queue s1).1
        (process_message-NoCrash contacts now msg s look)
        (process_messages-NoCrash get_key queue s1 look)
