-- ===== src/LookMsg/Names.antt =====
-- "reserve" and "delete", `createNameFunc` and `deleteNameFunc` of iot/nameServices.go. They read the
-- database while they hold the bucket; what they print of a failed write is left out.
use knotfreeiot.Base.{
  ℕ, ◌+◌, Bytes, not, ◌||◌, List, [], ◌∷◌, Option, none, some, take, ltb, if◌then◌else◌, ascii,
}
use knotfreeiot.Base.Keys.{TreeMap, bytes_beq, bytes_eq, nat_eq}
use knotfreeiot.Packets.Packet.{Packet}
use knotfreeiot.Tokens.{good, bad, TokenPayload}
use knotfreeiot.Pubsub.Hash.{HashType, hash_beq, init_from_bytes}
use knotfreeiot.Pubsub.Topic.{WatchedTopic, WatcherItem}
use knotfreeiot.Pubsub.Table.{crash}
use knotfreeiot.LookMsg.{
  Libraries, Server, Database, set_and_reply, keep_and_reply, Effect, sends, saves, deletes,
  requeues, to_base64, send_reply,
}

module _ {P T F : Type 0} (opts : TreeMap P Bytes Bytes) (tree : TreeMap T ℕ WatcherItem)
    (libs : Libraries T F) where
  abbrev pub Effects : Type 0
  Effects = List (Effect P T F)

  abbrev pub says : Packet P → Bytes → Effects
  says p text = send_reply opts p text ∷ []

  -- The topic of a new name.
  unfoldable pub new_name : HashType → Bytes → TokenPayload F → WatchedTopic T F
  new_name h name payload = record {
    name = h;
    expires = payload.expiration_time;
    thetree = tree.empty;
    bill = none;
    next_billing_time = 0;
    last_billing_time = 0;
    jwtid = payload.jwtid;
    owner = payload.pubk;
    name_str = name;
    optional_key_values = none;
  }

  abbrev pub renewed : TokenPayload F → WatchedTopic T F → WatchedTopic T F
  renewed payload wt = record wt { expires = payload.expiration_time; jwtid = payload.jwtid }

  -- What is left of the topic in the bucket, if there is one, and the effects.
  abbrev pub Outcome : Type 0
  Outcome = Option (WatchedTopic T F) × Effects

  abbrev pub refused : Packet P → Bytes → Option (WatchedTopic T F) → Outcome
  refused p text found = (found, says p text)

  -- The name is in the bucket, where it is changed in place, or in the database, or new.
  unfoldable pub reserve_name :
      Database T F
      → HashType
      → Packet P
      → Bytes
      → Bytes
      → TokenPayload F
      → Option (WatchedTopic T F)
      → Outcome
  reserve_name db h p pubk name payload (some wt) =
      let wt' = record (renewed payload wt) { owner = payload.pubk } in
      if bytes_beq wt.owner payload.pubk
      then (some wt', saves wt' ∷ requeues (keep_and_reply wt') ∷ [])
      else refused p (ascii "add name error: not owner") (some wt)
  reserve_name db h p pubk name payload none = elim (db.get_subscription (to_base64 libs h)) [
    | none ↦
        let wt' = new_name h name payload in
        (none, saves wt' ∷ requeues (set_and_reply (some wt')) ∷ [])
    | some wt ↦
        let wt' = renewed payload (record wt { thetree = tree.empty }) in
        if bytes_beq wt.owner pubk
        then (none, saves wt' ∷ requeues (set_and_reply (some wt')) ∷ [])
        else refused p (ascii "add name error: not owner") none
  ]

  unfoldable pub reserve_allowed :
      Database T F
      → HashType
      → Packet P
      → Bytes
      → Bytes
      → TokenPayload F
      → Option (WatchedTopic T F)
      → Outcome
  reserve_allowed db h p pubk name payload found =
      elim (db.get_subscription_list_count payload.pubk) [
        | none ↦ refused p (ascii "error GetSubscriptionList") found
        | some count ↦
            if ltb (libs.int_of payload.stats.subscriptions) (count + 1)
            then refused p (ascii "add name error: you own more names than allowed by your token")
                found
            else reserve_name db h p pubk name payload found
      ]

  unfoldable pub create_name :
      Server F
      → Database T F
      → HashType
      → Packet P
      → Bytes
      → List Bytes
      → Option (WatchedTopic T F)
      → Outcome
  create_name server db h p pubk (name ∷ token ∷ rest) found = elim (server.validate_token token) [
    | bad e ↦ refused p (ascii "add name error: invalid token") found
    | good payload ↦
        if bytes_beq payload.pubk pubk
        then reserve_allowed db h p pubk name payload found
        else refused p (ascii "add name error: not owner") found
  ]
  create_name server db h p pubk args found = refused p (ascii "add name error: too few args") found

  -- `HashString`: the first 24 bytes of the hash of the name.
  unfoldable pub hash_string : Bytes → Option HashType
  hash_string text = init_from_bytes (take 24 (libs.sha256 text))

  -- The name has to be that of the packet and of the topic.
  unfoldable pub delete_owned : HashType → Packet P → Bytes → WatchedTopic T F → Effects
  delete_owned h p name wt = elim (hash_string name) [
    | none ↦ sends crash ∷ []
    | some hashed ↦
        if not (hash_beq hashed h) || not (hash_beq hashed wt.name)
        then says p (ascii "delete name error: hash mismatch")
        else deletes (to_base64 libs hashed) ∷ requeues (set_and_reply none) ∷ []
  ]

  unfoldable pub delete_found :
      Database T F → HashType → Packet P → Bytes → Bytes → Option (WatchedTopic T F) → Effects
  delete_found db h p pubk name (some wt) =
      if bytes_beq wt.owner pubk
      then delete_owned h p name wt
      else says p (ascii "delete name error: not owner")
  delete_found db h p pubk name none = elim (db.get_subscription (to_base64 libs h)) [
    | none ↦ says p (ascii "delete name error: not found")
    | some wt ↦
        if bytes_beq wt.owner pubk
        then delete_owned h p name wt
        else says p (ascii "delete name error: not owner")
  ]

  unfoldable pub delete_name :
      Database T F → HashType → Packet P → Bytes → List Bytes → Option (WatchedTopic T F) → Effects
  delete_name db h p pubk [] found = says p (ascii "delete name error: too few args")
  delete_name db h p pubk (name ∷ rest) found = delete_found db h p pubk name found
