-- ===== src/LookMsg/OnTopic.antt =====
-- The commands of iot/lookmsg.go that work on the topic of the name: what the functions given to
-- `getAndSetWatcher` do with it, and `getAndSetWatcher` itself.
pub mod SetGet
use knotfreeiot.Base.{
  ℕ, Bytes, Bool, true, false, not, ◌&&◌, List, [], ◌∷◌, ◌++◌, Option, none, some, ◌==◌,
  if◌then◌else◌, ascii,
}
use knotfreeiot.Base.Keys.{TreeMap, bytes_beq, bytes_eq, nat_eq, lookup}
use knotfreeiot.Packets.Packet.{Packet}
use knotfreeiot.Tokens.{OrError, good, bad}
use knotfreeiot.Pubsub.Hash.{HashType}
use knotfreeiot.Pubsub.Topic.{WatchedTopic, WatcherItem, MyRedblacktree, get_size}
use knotfreeiot.Pubsub.Topic.Options
use knotfreeiot.Pubsub.Table.{Event, crash, Subscriptions, get_watcher, set_watcher}
use knotfreeiot.LookMsg.Maps.{GoMap, assign, string_to_map, map_to_string}
use knotfreeiot.LookMsg.{
  Libraries, Database, Finish, details, proxy_status, get_option, get_txt, set_option, bulk_option,
  replace_options, LookBack, finish_with, Effect, sends, saves, loads, requeues, to_base64,
  send_reply,
}

-- The loop of "bulk option" over pairs; a value without its pair is left out.
unfoldable pub assign_pairs : List Bytes → GoMap → GoMap
assign_pairs (sub_key ∷ val ∷ rest) m = assign_pairs rest (assign sub_key val m)
assign_pairs _ m = m

module _ {P T F : Type 0} (opts : TreeMap P Bytes Bytes) (kv : TreeMap MyRedblacktree Bytes Bytes)
    (tree : TreeMap T ℕ WatcherItem) (libs : Libraries T F) where
  abbrev pub Outcome : Type 0
  Outcome = WatchedTopic T F × List (Effect P T F)

  abbrev pub replied : Packet P → Bytes → WatchedTopic T F → Outcome
  replied p text wt = (wt, send_reply opts p text ∷ [])

  abbrev pub crashed : WatchedTopic T F → Outcome
  crashed wt = (wt, sends crash ∷ [])

  -- The map in an option; a missing option is the empty text.
  unfoldable pub option_map : Bytes → WatchedTopic T F → Option GoMap
  option_map key wt = string_to_map libs.trim_space (Options.get_option kv wt key).0

  unfoldable pub sub_value : GoMap → Bytes → Bytes
  sub_value m sub_key = elim (lookup sub_key m) [ none ↦ [] | some val ↦ val ]

  -- The default of `A @` is knotfree.io.
  unfoldable pub finish_get_option : Packet P → Bytes → Bytes → WatchedTopic T F → Outcome
  finish_get_option p key sub_key wt = elim (option_map key wt) [
    | none ↦ crashed wt
    | some m ↦ elim (lookup sub_key m) [
      | some val ↦ replied p val wt
      | none ↦
          if bytes_beq key (ascii "A") && bytes_beq sub_key (ascii "@")
          then replied p (ascii "216.128.128.195") wt
          else replied p (ascii "error: not found" ++ (key ++ b' ' ∷ sub_key)) wt
    ]
  ]

  unfoldable pub finish_get_txt : Packet P → Bytes → WatchedTopic T F → Outcome
  finish_get_txt p sub_key wt = elim (option_map (libs.to_upper (ascii "TXT")) wt) [
    | none ↦ crashed wt
    | some m ↦ elim (lookup sub_key m) [
      | some val ↦ replied p val wt
      | none ↦ replied p (ascii "error: get txt not found" ++ sub_key) wt
    ]
  ]

  -- The end of "set option" and of "bulk option": the map is written, put into the topic, saved.
  unfoldable pub store_map : Packet P → Bytes → GoMap → WatchedTopic T F → Outcome
  store_map p key m wt = elim (map_to_string m) [
    | none ↦ crashed wt
    | some text ↦
        let wt' = Options.set_option kv key text wt in
        (wt', saves wt' ∷ send_reply opts p (ascii "ok") ∷ [])
  ]

  unfoldable pub change_map : Packet P → Bytes → (GoMap → GoMap) → WatchedTopic T F → Outcome
  change_map p key change wt = elim (option_map (libs.to_upper key) wt) [
    | none ↦ crashed wt
    | some m ↦ store_map p key (change m) wt
  ]

  unfoldable pub finish_replace_options : Packet P → Bytes → WatchedTopic T F → Outcome
  finish_replace_options p text wt = elim (libs.unmarshal_map text) [
    | bad e ↦ replied p (ascii "replace options error: " ++ e) wt
    | good amap ↦
        let wt' = Options.replace_options kv amap wt in
        (wt', saves wt' ∷ send_reply opts p (ascii "ok") ∷ [])
  ]

  unfoldable pub finish_details : Packet P → WatchedTopic T F → Outcome
  finish_details p wt = elim (libs.marshal_topic wt) [
    | bad e ↦ replied p (ascii "json error: " ++ e) wt
    | good text ↦ replied p text wt
  ]

  -- The path behind `@` in an option of its own, if the option is there. `none` is a panic.
  unfoldable pub path_of : Bytes → WatchedTopic T F → Option Bytes
  path_of key wt =
      if (Options.get_option kv wt key).1
      then elim (option_map key wt) [ none ↦ none | some m ↦ some (sub_value m (ascii "@")) ]
      else some []

  abbrev pub is_online : WatchedTopic T F → Bool
  is_online wt = not (get_size tree wt == 0)

  unfoldable pub finish_proxy_status : Packet P → WatchedTopic T F → Outcome
  finish_proxy_status p wt = elim (path_of (ascii "STATIC") wt) [
    | none ↦ crashed wt
    | some static ↦ elim (path_of (ascii "PROXY") wt) [
      | none ↦ crashed wt
      | some proxy ↦ replied p (libs.marshal_proxy_status true (is_online wt) static proxy) wt
    ]
  ]

  -- Only the owner goes on.
  abbrev pub if_owner : Packet P → Bytes → Outcome → WatchedTopic T F → Outcome
  if_owner p pubk outcome wt =
      if bytes_beq pubk wt.owner then outcome else replied p (ascii "error: not owner") wt

  unfoldable pub finish : Packet P → Bytes → Finish → WatchedTopic T F → Outcome
  finish p pubk details wt = if_owner p pubk (finish_details p wt) wt
  finish p pubk proxy_status wt = finish_proxy_status p wt
  finish p pubk (get_option key sub_key) wt = finish_get_option p (libs.to_upper key) sub_key wt
  finish p pubk (get_txt sub_key) wt = finish_get_txt p sub_key wt
  finish p pubk (set_option key sub_key val) wt =
      if_owner p pubk (change_map p key (assign sub_key val) wt) wt
  finish p pubk (bulk_option key vals) wt =
      if_owner p pubk (change_map p key (assign_pairs vals) wt) wt
  finish p pubk (replace_options text) wt = if_owner p pubk (finish_replace_options p text wt) wt

  -- `getAndSetWatcher`, as every command calls it, without `makeName`.
  unfoldable pub get_and_set_watcher :
      HashType
      → Packet P
      → Bytes
      → Finish
      → Subscriptions T F
      → Subscriptions T F × List (Effect P T F)
  get_and_set_watcher h p pubk fin s = elim (get_watcher h s) [
    | none ↦ (s, loads fin ∷ [])
    | some wt ↦ let (wt', effects) = finish p pubk fin wt in (set_watcher h (some wt') s, effects)
  ]

  -- The goroutine of `getAndSetWatcher`. A topic from the database has no tree of watchers.
  unfoldable pub load_watcher : Database T F → HashType → Packet P → Finish → Effect P T F
  load_watcher db h p fin = elim (db.get_subscription (to_base64 libs h)) [
    | none ↦ send_reply opts p (ascii "error: topic not found")
    | some wt ↦ requeues (finish_with fin (record wt { thetree = tree.empty }))
  ]
