-- ===== src/LookMsg/OnTopic/SetGet.antt =====
-- What "set option" writes, "get option" reads.
use knotfreeiot.Base.{
  ℕ, ◌≡◌, inl, inr, refl, ap, ◌∙◌, Bytes, Bool, true, ◌&&◌, [], ◌∷◌, ◌++◌, Option, none, some,
  Option-cases, if◌then◌else◌, ascii, arith,
}
use knotfreeiot.Base.Keys.{
  TreeMap, bytes_beq, bytes_beq_iff, bytes_eq, nat_eq, lookup, without, lookup-without,
}
use knotfreeiot.Packets.Packet.{Packet}
use knotfreeiot.Pubsub.Hash.{HashType, hash_eq, hash_beq, hash_beq_iff}
use knotfreeiot.Pubsub.Topic.{WatchedTopic, WatcherItem, MyRedblacktree}
use knotfreeiot.Pubsub.Topic.Options
use knotfreeiot.Pubsub.Table.{Subscriptions, get_watcher, set_watcher}
use knotfreeiot.Pubsub.Watchers.{get_watcher-set_watcher}
use knotfreeiot.LookMsg.Maps.{GoMap, assign, string_to_map, map_to_string}
use knotfreeiot.LookMsg.Maps.Split.{IsWord, Trims}
use knotfreeiot.LookMsg.Maps.RoundTrip.{
  IsPlainMap, without-IsPlainMap, assign-Distinct, string_to_map-Distinct,
  string_to_map-map_to_string,
}
use knotfreeiot.LookMsg.{Libraries, Finish, Effect, saves, send_reply}
use knotfreeiot.LookMsg.OnTopic.{
  option_map, finish_get_option, store_map, change_map, finish, get_and_set_watcher,
}

module _ {T F : Type 0} (kv : TreeMap MyRedblacktree Bytes Bytes) where
  -- An option that is set is got.
  pub get_option-set_option :
      (key val : Bytes) (wt : WatchedTopic T F)
      → Options.get_option kv (Options.set_option kv key val wt) key ≡ (val, true)
  unfolding Options.get_option Options.set_option
  get_option-set_option key val wt = elim (Option-cases wt.optional_key_values) [
    | inl e ↦ ground (arith, kv.get_put key key val kv.empty, bytes_beq_iff key key)
    | inr (t, e) ↦ ground (arith, kv.get_put key key val t, bytes_beq_iff key key)
  ]

module _ {P T F : Type 0} (opts : TreeMap P Bytes Bytes) (kv : TreeMap MyRedblacktree Bytes Bytes)
    (tree : TreeMap T ℕ WatcherItem) (libs : Libraries T F) where
  -- The reply to "get option", for what the map holds under the second key.
  abbrev pub answer : Packet P → Bytes → Bytes → Option Bytes → Effect P T F
  answer p key sub_key (some val) = send_reply opts p val
  answer p key sub_key none =
      if bytes_beq key (ascii "A") && bytes_beq sub_key (ascii "@")
      then send_reply opts p (ascii "216.128.128.195")
      else send_reply opts p (ascii "error: not found" ++ (key ++ b' ' ∷ sub_key))

  finish_get_option-answer :
      (p : Packet P) (key sub_key : Bytes) (wt : WatchedTopic T F) (m : GoMap)
      → option_map opts kv tree libs key wt ≡ some m
      → (finish_get_option opts kv tree libs p key sub_key wt).1
        ≡ answer p key sub_key (lookup sub_key m) ∷ []
  unfolding finish_get_option
  finish_get_option-answer p key sub_key wt m e = ground arith

  change_map-stored :
      (p : Packet P) (key text : Bytes) (change : GoMap → GoMap) (wt : WatchedTopic T F) (m : GoMap)
      → libs.to_upper key ≡ key
      → option_map opts kv tree libs key wt ≡ some m
      → map_to_string (change m) ≡ some text
      → change_map opts kv tree libs p key change wt ≡ (
        Options.set_option kv key text wt,
        saves (Options.set_option kv key text wt) ∷ send_reply opts p (ascii "ok") ∷ [],
      )
  unfolding change_map store_map
  change_map-stored p key text change wt m upper e wrote =
      rw (upper, change_map) (rw (e, change_map) (rw (wrote, store_map) refl))

  -- The topic after "set option" by its owner.
  stored :
      (p : Packet P) (key sub_key val : Bytes) (wt : WatchedTopic T F) (m : GoMap)
      → Trims libs.trim_space
      → libs.to_upper key ≡ key
      → option_map opts kv tree libs key wt ≡ some m
      → IsPlainMap m
      → IsWord sub_key
      → IsWord val
      → (wt' : WatchedTopic T F) × (change_map opts kv tree libs p key (assign sub_key val) wt
          ≡ (wt', saves wt' ∷ send_reply opts p (ascii "ok") ∷ []))
        × (m' : GoMap) × (option_map opts kv tree libs key wt' ≡ some m')
        × IsPlainMap m'
        × ((j : Bytes) → lookup j m' ≡ lookup j (assign sub_key val m))
  unfolding option_map
  stored p key sub_key val wt m trims upper e plain hk hv =
      let d = string_to_map-Distinct libs.trim_space (Options.get_option kv wt key).0 m e in
      let (text, wrote, m', read, plain', all) =
        string_to_map-map_to_string libs.trim_space sub_key val (without sub_key m) trims
          (assign-Distinct sub_key val m d) (hk, hv, without-IsPlainMap sub_key m plain) in
      let wt' = Options.set_option kv key text wt in
      (
        wt',
        change_map-stored p key text (assign sub_key val) wt m upper e wrote,
        m',
        ap (λ (o : Bytes × Bool). string_to_map libs.trim_space o.0)
              (get_option-set_option kv key text wt)
            ∙ read,
        plain',
        all,
      )

  -- On a topic in the bucket, whose option, read as a map, has only words for keys and values, "set
  -- option" by the owner saves the topic and replies "ok". After that "get option" by anybody finds
  -- the new value under the second key, and under any other what was there, with the default and the
  -- error that are replied for a key that is missing. The option is again such a map. This is for a
  -- first key in upper case, a second key and a value that are words, and a TrimSpace that takes only
  -- blanks.
  pub set_option-get_option :
      (h : HashType) (p q : Packet P) (pubk other key sub_key val : Bytes) (wt : WatchedTopic T F)
      (m : GoMap) (s : Subscriptions T F)
      → get_watcher h s ≡ some wt
      → pubk ≡ wt.owner
      → Trims libs.trim_space
      → libs.to_upper key ≡ key
      → option_map opts kv tree libs key wt ≡ some m
      → IsPlainMap m
      → IsWord sub_key
      → IsWord val
      → let after =
          get_and_set_watcher opts kv tree libs h p pubk (Finish.set_option key sub_key val) s in
        (wt' : WatchedTopic T F) × (get_watcher h after.0 ≡ some wt')
        × (after.1 ≡ saves wt' ∷ send_reply opts p (ascii "ok") ∷ [])
        × (m' : GoMap) × (option_map opts kv tree libs key wt' ≡ some m')
        × IsPlainMap m'
        × ((j : Bytes)
            → (get_and_set_watcher opts kv tree libs h q other (Finish.get_option key j) after.0).1
              ≡ answer q key j (if bytes_beq sub_key j then some val else lookup j m) ∷ [])
  unfolding get_and_set_watcher finish
  set_option-get_option h p q pubk other key sub_key val wt m s found own trims upper e plain hk
        hv =
      let (wt', changed, m', read, plain', all) =
        stored p key sub_key val wt m trims upper e plain hk hv in
      let owns : bytes_beq pubk wt.owner ≡ true = (bytes_beq_iff pubk wt.owner).1 own in
      let first : get_and_set_watcher opts kv tree libs h p pubk (Finish.set_option key sub_key val)
            s
          ≡ (set_watcher h (some wt') s, saves wt' ∷ send_reply opts p (ascii "ok") ∷ []) =
        rw (found, get_and_set_watcher) (rw owns (rw changed refl)) in
      let hit : hash_beq h h ≡ true = (hash_beq_iff h h).1 refl in
      let there : get_watcher h (set_watcher h (some wt') s) ≡ some wt' =
        rw (get_watcher-set_watcher h h (some wt') s) (rw hit refl) in
      (
        wt',
        rw first there,
        rw first refl,
        m',
        read,
        plain',
        λ j. rw first (
            rw (there, get_and_set_watcher)
              (rw upper (
                finish_get_option-answer q key j wt' m' read
                ∙ ap (λ (o : Option Bytes). answer q key j o ∷ [])
                    (all j ∙ ground (arith, lookup-without sub_key j m))))),
      )
