-- ===== src/Pubsub/Subscribe/Watches.antt =====
-- What a subscribe does to the table.
use knotfreeiot.Base.{
  ℕ, ◌*◌, ◌≡◌, ◌≢◌, refl, Bytes, Option, none, some, inl, inr, ◌==◌, Bool-cases, Option-cases,
  if◌then◌else◌, ascii, arith,
}
use knotfreeiot.Base.Keys.{TreeMap, bytes_eq, nat_eq}
use knotfreeiot.Billing.{Floats, add32}
use knotfreeiot.Packets.Packet.{Packet}
use knotfreeiot.Pubsub.Hash.{HashType, hash_beq, hash_beq_iff, hash_eq}
use knotfreeiot.Pubsub.Topic.{WatchedTopic, WatcherItem, Contact, Contacts, get, put}
use knotfreeiot.Pubsub.Table.{Subscriptions, get_watcher}
use knotfreeiot.Pubsub.Watchers.{get_watcher-set_watcher, get-put}
use knotfreeiot.Pubsub.Subscribe.{
  Looker, option_of, new_watcher_item, watcher_for, with_bill, add_watcher, process_subscribe,
}

abbrev pub or_else : Option WatcherItem → WatcherItem → WatcherItem
or_else none item = item
or_else (some old) item = old

-- Who watches a topic of the table under a key.
abbrev pub watched :
    {T F : Type 0} (tree : TreeMap T ℕ WatcherItem)
    → HashType
    → ℕ
    → Subscriptions T F
    → Option WatcherItem
watched tree h k s = elim (get_watcher h s) [ none ↦ none | some wt ↦ get tree k wt ]

module _ {P T F : Type 0} (opts : TreeMap P Bytes Bytes) (tree : TreeMap T ℕ WatcherItem)
    (f : Floats F) where
  pub get-add_watcher :
      (key k : ℕ) (item : WatcherItem) (wt : WatchedTopic T F)
      → get tree k (add_watcher opts tree f key item wt)
        ≡ (if key == k then some (or_else (get tree k wt) item) else get tree k wt)
  unfolding add_watcher
  get-add_watcher key k item wt = elim (Option-cases (get tree key wt)) [
    | inl e ↦ rw (e, add_watcher) (ground (arith, get-put tree key k item wt))
    | inr (old, e) ↦ rw (e, add_watcher) (ground arith)
  ]

  pub get-with_bill :
      (me : Looker F) (h : HashType) (p : Packet P) (wt : WatchedTopic T F) (expires k : ℕ)
      → get tree k (record (with_bill opts tree f me h p wt) { expires = expires }) ≡ get tree k wt
  unfolding get with_bill
  get-with_bill me h p wt expires k = elim (Bool-cases (option_of opts p (ascii "statsmax")).1) [
    | inl e ↦ rw e refl
    | inr e ↦ rw e refl
  ]

  expires-add_watcher :
      (key : ℕ) (item : WatcherItem) (wt : WatchedTopic T F)
      → (add_watcher opts tree f key item wt).expires ≡ wt.expires
  unfolding add_watcher put
  expires-add_watcher key item wt = elim (Option-cases (get tree key wt)) [
    | inl e ↦ rw (e, add_watcher) refl
    | inr (old, e) ↦ rw (e, add_watcher) refl
  ]

  module _ (me : Looker F) (contacts : Contacts) (now : ℕ) (ss : Contact) (h : HashType)
      (p : Packet P) (s : Subscriptions T F) where
    -- The topic as the subscribe leaves it.
    abbrev pub subscribed_topic : WatchedTopic T F
    subscribed_topic =
        add_watcher opts tree f (contacts.get_key ss) (new_watcher_item opts ss p)
          (record (with_bill opts tree f me h p (watcher_for opts tree f now h p s)) {
            expires = add32 (26 * 60) now;
          })

    pub get_watcher-process_subscribe :
        (j : HashType)
        → get_watcher j (process_subscribe opts tree f me contacts now ss h p s).0
          ≡ (if hash_beq h j then some subscribed_topic else get_watcher j s)
    unfolding process_subscribe
    get_watcher-process_subscribe j = get_watcher-set_watcher h j (some subscribed_topic) s

    pub process_subscribe-topic :
        (wt : WatchedTopic T F) × (get_watcher h
            (process_subscribe opts tree f me contacts now ss h p s).0
          ≡ some wt)
        × (wt.expires ≡ add32 (26 * 60) now)
        × ((k : ℕ)
            → get tree k wt ≡ (
                let before = get tree k (watcher_for opts tree f now h p s) in
                if contacts.get_key ss == k
                then some (or_else before (new_watcher_item opts ss p))
                else before))
        × ((j : HashType)
            → j ≢ h
            → get_watcher j (process_subscribe opts tree f me contacts now ss h p s).0
              ≡ get_watcher j s)
    process_subscribe-topic = (
      subscribed_topic,
      ground (arith, get_watcher-process_subscribe h, hash_beq_iff h h),
      expires-add_watcher (contacts.get_key ss) (new_watcher_item opts ss p) _,
      (λ k. ground (
        arith,
        get-add_watcher (contacts.get_key ss) k (new_watcher_item opts ss p)
            (record (with_bill opts tree f me h p (watcher_for opts tree f now h p s)) {
              expires = add32 (26 * 60) now;
            }),
        get-with_bill me h p (watcher_for opts tree f now h p s) (add32 (26 * 60) now) k,
      )),
      (λ j other. ground (arith, get_watcher-process_subscribe j, hash_beq_iff h j)),
    )
