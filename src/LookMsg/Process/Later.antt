-- ===== src/LookMsg/Process/Later.antt =====
-- A lookup whose topic has to be read from the database: what the bucket does at first, what the
-- goroutine queues, and what the bucket does then.
use knotfreeiot.Base.{
  inl, inr, ascii, Option-cases, List, ℕ, ◌≡◌, refl, sym, ap, ◌∙◌, Bytes, true, ◌==◌, [], ◌∷◌, none,
  some, arith,
}
use knotfreeiot.Base.Keys.{TreeMap, bytes_eq, nat_eq, without}
use knotfreeiot.Billing.{Floats}
use knotfreeiot.Packets.Packet.{Packet}
use knotfreeiot.Pubsub.Hash.{HashType, hash_eq, hash_beq, hash_beq_iff}
use knotfreeiot.Pubsub.Topic.{WatchedTopic, WatcherItem, MyRedblacktree, Contact, Contacts, get}
use knotfreeiot.Pubsub.Table.{Subscriptions, get_watcher, set_watcher}
use knotfreeiot.Pubsub.Watchers.{get_watcher-set_watcher}
use knotfreeiot.Pubsub.Subscribe.{Looker, process_subscribe, watcher_for, new_watcher_item}
use knotfreeiot.Pubsub.Subscribe.Watches.{or_else, process_subscribe-topic}
use knotfreeiot.LookMsg.{
  send_reply, Effect, Libraries, Database, Finish, finish_with, loads, requeues, to_base64,
}
use knotfreeiot.LookMsg.OnTopic.{finish, get_and_set_watcher, load_watcher}
use knotfreeiot.LookMsg.Process.{look_back}
use knotfreeiot.LookMsg.Process.Keeps.{finish_keeps}

module _ {T F : Type 0} where
  without-without : (h : HashType) (s : Subscriptions T F) → without h (without h s) ≡ without h s
  without-without h [] = refl
  without-without h ((j, wt) ∷ s) = ground (arith, without-without h s)

  -- The later write counts.
  set_watcher-set_watcher :
      (h : HashType) (wt wt' : WatchedTopic T F) (s : Subscriptions T F)
      → set_watcher h (some wt') (set_watcher h (some wt) s) ≡ set_watcher h (some wt') s
  unfolding set_watcher
  set_watcher-set_watcher h wt wt' s =
      let same : hash_beq h h ≡ true = (hash_beq_iff h h).1 refl in
      rw same (rw (without-without h s) refl)

module _ {P T F : Type 0} (opts : TreeMap P Bytes Bytes) (kv : TreeMap MyRedblacktree Bytes Bytes)
    (tree : TreeMap T ℕ WatcherItem) (libs : Libraries T F) where
  abbrev pub unwatched : WatchedTopic T F → WatchedTopic T F
  unwatched wt = record wt { thetree = tree.empty }

  get_and_set-found :
      (h : HashType) (p : Packet P) (pubk : Bytes) (fin : Finish) (wt : WatchedTopic T F)
      (s : Subscriptions T F)
      → get_watcher h s ≡ some wt
      → let r = finish opts kv tree libs p pubk fin wt in
        get_and_set_watcher opts kv tree libs h p pubk fin s ≡ (set_watcher h (some r.0) s, r.1)
  unfolding get_and_set_watcher
  get_and_set-found h p pubk fin wt s e = rw (e, get_and_set_watcher) refl

  get_and_set-missing :
      (h : HashType) (p : Packet P) (pubk : Bytes) (fin : Finish) (s : Subscriptions T F)
      → get_watcher h s ≡ none
      → get_and_set_watcher opts kv tree libs h p pubk fin s ≡ (s, loads fin ∷ [])
  unfolding get_and_set_watcher
  get_and_set-missing h p pubk fin s e = rw (e, get_and_set_watcher) refl

  -- What comes of the goroutine that a command starts: it reads the database, and either replies
  -- itself or queues a command, which finds the table `later`.
  unfoldable pub settled :
      Database T F
      → HashType
      → Packet P
      → Bytes
      → List (Effect P T F)
      → Subscriptions T F
      → Subscriptions T F × List (Effect P T F)
  settled db h p pubk (loads fin ∷ es) later = elim (load_watcher opts kv tree libs db h p fin) [
    | requeues back ↦ look_back opts kv tree libs h p pubk back later
    | reply ↦ (later, reply ∷ es)
  ]
  settled db h p pubk es later = (later, es)

  -- A command that goes through `get_and_set_watcher`, on a name that is not in the bucket, leaves the
  -- bucket as it is at first. What comes of it is, where the database does not have the name either,
  -- the reply that it is not found; and else what the command does on the table of then with the topic
  -- of the database, without watchers, put into it.
  pub load_watcher-look_back :
      (db : Database T F) (h : HashType) (p : Packet P) (pubk : Bytes) (fin : Finish)
      (s later : Subscriptions T F)
      → get_watcher h s ≡ none
      → let r = get_and_set_watcher opts kv tree libs h p pubk fin s in
        (r.0 ≡ s)
        × (settled db h p pubk r.1 later ≡ elim (db.get_subscription (to_base64 libs h)) [
          | none ↦ (later, send_reply opts p (ascii "error: topic not found") ∷ [])
          | some wt ↦
              get_and_set_watcher opts kv tree libs h p pubk fin
                (set_watcher h (some (unwatched wt)) later)
        ])
  unfolding settled look_back load_watcher
  load_watcher-look_back db h p pubk fin s later missing =
      let first = get_and_set-missing h p pubk fin s missing in
      elim (Option-cases (db.get_subscription (to_base64 libs h))) [
        | inl unknown ↦ rw first (refl, rw (settled, load_watcher, unknown) refl)
        | inr (wt, stored) ↦
            let here = set_watcher h (some (unwatched wt)) later in
            let there : get_watcher h here ≡ some (unwatched wt) =
              get_watcher-set_watcher h h (some (unwatched wt)) later
              ∙ rw ((hash_beq_iff h h).1 refl) refl in
            let wt' = (finish opts kv tree libs p pubk fin (unwatched wt)).0 in
            rw first (
              refl,
              rw (settled, load_watcher, stored)
                  (sym (
                    get_and_set-found h p pubk fin (unwatched wt) here there
                    ∙ rw (set_watcher-set_watcher h (unwatched wt) wt' later) refl)),
            )
      ]

  -- A subscribe that is handled between the read of the database and the command that it queues is
  -- lost: before the command the subscriber is a watcher of the topic, after it the topic has none.
  pub process_subscribe-look_back :
      (f : Floats F) (me : Looker F) (contacts : Contacts) (now : ℕ) (ss : Contact) (h : HashType)
      (joins p : Packet P) (pubk : Bytes) (fin : Finish) (wt : WatchedTopic T F)
      (s : Subscriptions T F)
      → let s' = (process_subscribe opts tree f me contacts now ss h joins s).0 in
        let r = look_back opts kv tree libs h p pubk (finish_with fin (unwatched wt)) s' in
        (before : WatchedTopic T F) × (after : WatchedTopic T F) × (item : WatcherItem)
        × (get_watcher h s' ≡ some before)
        × (get tree (contacts.get_key ss) before ≡ some item)
        × (get_watcher h r.0 ≡ some after)
        × ((key : ℕ) → get tree key after ≡ none)
  unfolding look_back get
  process_subscribe-look_back f me contacts now ss h joins p pubk fin wt s =
      let s' = (process_subscribe opts tree f me contacts now ss h joins s).0 in
      let after = (finish opts kv tree libs p pubk fin (unwatched wt)).0 in
      let (st, opt) = finish_keeps opts kv tree libs p pubk fin (unwatched wt) in
      let (before, there, expires, watches, others) =
        process_subscribe-topic opts tree f me contacts now ss h joins s in
      let same : (contacts.get_key ss == contacts.get_key ss) ≡ true = ground arith in
      (
        before,
        after,
        or_else (get tree (contacts.get_key ss) (watcher_for opts tree f now h joins s))
            (new_watcher_item opts ss joins),
        there,
        watches (contacts.get_key ss) ∙ rw same refl,
        get_watcher-set_watcher h h (some after) s' ∙ rw ((hash_beq_iff h h).1 refl) refl,
        λ key. ap (tree.get key) st.thetree ∙ tree.get_empty key,
      )
