-- ===== src/LookMsg/Reserve.antt =====
-- Whose name "reserve" writes, and what "delete" removes (iot/nameServices.go).
use knotfreeiot.Base.{ℕ, ◌+◌, ◌≤◌, ◌≡◌, ◌⊎◌, Bytes, List, [], ◌∷◌, Option, none, some}
use knotfreeiot.Base.Keys.{TreeMap, bytes_eq, nat_eq}
use knotfreeiot.Packets.Packet.{Packet}
use knotfreeiot.Tokens.{TokenPayload}
use knotfreeiot.Pubsub.Hash.{HashType}
use knotfreeiot.Pubsub.Topic.{WatchedTopic, WatcherItem}
use knotfreeiot.Pubsub.Table.{crash}
use knotfreeiot.LookMsg.{
  Libraries, Database, LookBack, set_and_reply, keep_and_reply, Effect, sends, saves, requeues,
  to_base64, send_reply,
}
use knotfreeiot.LookMsg.Names.{hash_string}

module _ {P T F : Type 0} (opts : TreeMap P Bytes Bytes) (tree : TreeMap T ℕ WatcherItem)
    (libs : Libraries T F) where
  -- The command that puts the topic into the bucket: by itself, or as the topic that is there.
  abbrev pub Puts : WatchedTopic T F → LookBack T F → Type 0
  Puts wt (set_and_reply (some wt')) = wt' ≡ wt
  Puts wt (keep_and_reply wt') = wt' ≡ wt
  Puts wt back = ⊥

  -- A refusal: one reply, and nothing changes.
  abbrev pub Refused :
      Packet P
      → Option (WatchedTopic T F)
      → Option (WatchedTopic T F) × List (Effect P T F)
      → Type 0
  Refused p found r = (text : Bytes) × (r ≡ (found, send_reply opts p text ∷ []))

  -- The topic is written for an owner: to the database, and then to the bucket. It is the old one but
  -- for the expiry and the id of the token, or, where there is none, a new one.
  abbrev pub Reserved :
      Bytes
      → TokenPayload F
      → WatchedTopic T F
      → Option (WatchedTopic T F) × List (Effect P T F)
      → Type 0
  Reserved pubk payload old r =
      (wt : WatchedTopic T F) × (back : LookBack T F) × (r.1 ≡ saves wt ∷ requeues back ∷ [])
      × Puts wt back
      × (wt.owner ≡ pubk)
      × (wt ≡ record old { owner = pubk; expires = payload.expiration_time; jwtid = payload.jwtid })

  -- A topic of this name that nobody watches and that says nothing yet.
  abbrev pub blank_topic : HashType → Bytes → WatchedTopic T F
  blank_topic h name = record {
    name = h;
    expires = 0;
    thetree = tree.empty;
    bill = none;
    next_billing_time = 0;
    last_billing_time = 0;
    jwtid = [];
    owner = [];
    name_str = name;
    optional_key_values = none;
  }

  -- The topic that is there before: that of the bucket or else, without watchers, that of the
  -- database, which has to be the owner's; or, where neither has one, a blank one.
  abbrev pub OwnedBy :
      Database T F
      → HashType
      → Bytes
      → Bytes
      → Option (WatchedTopic T F)
      → WatchedTopic T F
      → Type 0
  OwnedBy db h pubk name (some wt) old = (wt.owner ≡ pubk) × (old ≡ wt)
  OwnedBy db h pubk name none old =
      ((db.get_subscription (to_base64 libs h) ≡ none) × (old ≡ blank_topic h name))
      ⊎ ((wt : WatchedTopic T F) × (db.get_subscription (to_base64 libs h) ≡ some wt)
          × (wt.owner ≡ pubk)
          × (old ≡ record wt { thetree = tree.empty }))

  module _ (db : Database T F) (h : HashType) (p : Packet P) (pubk name : Bytes) where
    -- What allows a name to be written.
    abbrev pub Allowed :
        TokenPayload F
        → Option (WatchedTopic T F)
        → Option (WatchedTopic T F) × List (Effect P T F)
        → Type 0
    Allowed payload found r =
        (count : ℕ) × (db.get_subscription_list_count payload.pubk ≡ some count)
        × (count + 1 ≤ libs.int_of payload.stats.subscriptions)
        × (old : WatchedTopic T F) × OwnedBy db h pubk name found old
        × Reserved pubk payload old r

    -- One reply to the packet, or the crash where the hash of the name is too short.
    abbrev pub Declined : List (Effect P T F) → Type 0
    Declined es =
        ((text : Bytes) × (es ≡ send_reply opts p text ∷ []))
        ⊎ ((hash_string opts tree libs name ≡ none) × (es ≡ sends crash ∷ []))

    -- The topic that "delete" looks at: that of the bucket, or else of the database.
    abbrev pub Looked : Option (WatchedTopic T F) → WatchedTopic T F → Type 0
    Looked (some there) wt = there ≡ wt
    Looked none wt = db.get_subscription (to_base64 libs h) ≡ some wt
