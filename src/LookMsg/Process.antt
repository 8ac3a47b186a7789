-- ===== src/LookMsg/Process.antt =====
-- `processLookup` of iot/lookmsg.go: the command of a lookup is found, unsealed and run; and the
-- `lookBackCommand` that a command may leave for later.
pub mod Keeps
pub mod Sealed
pub mod Rewrites
pub mod Owner
pub mod Later
use knotfreeiot.Base.{
  ℕ, zero, suc, leb, ◌+◌, ◌-◌, ◌%◌, ◌^◌, Bytes, Bool, true, false, not, ◌&&◌, ◌||◌, List, [], ◌∷◌,
  ◌++◌, map, Option, none, some, length, take, ltb, ◌==◌, if◌then◌else◌, ascii,
}
use knotfreeiot.Base.Keys.{TreeMap, bytes_beq, bytes_eq, nat_eq}
use knotfreeiot.Packets.Packet.{Packet}
use knotfreeiot.Tokens.{OrError, good, bad}
use knotfreeiot.Pubsub.Hash.{HashType}
use knotfreeiot.Pubsub.Topic.{WatchedTopic, WatcherItem, MyRedblacktree}
use knotfreeiot.Pubsub.Table.{Event, crash, Subscriptions, get_watcher, set_watcher}
use knotfreeiot.Pubsub.Subscribe.{Looker, option_of, push_up_unless_guru}
use knotfreeiot.LookMsg.Maps.{split}
use knotfreeiot.LookMsg.Commands.{
  Command, requires_encryption, find_command, command_names, help_lines,
}
use knotfreeiot.LookMsg.{
  Libraries, Server, Database, Finish, LookBack, finish_with, exists_with, set_and_reply,
  keep_and_reply, Effect, sends, loads_exists, to_base64, send_reply, requeues,
}
use knotfreeiot.LookMsg.OnTopic.{finish, get_and_set_watcher, is_online}
use knotfreeiot.LookMsg.Names.{create_name, delete_name}

-- `copy` into an array of `n` zeros.
unfoldable pub copied : ℕ → Bytes → Bytes
copied zero bs = []
copied (suc n) [] = 0 ∷ copied n []
copied (suc n) (b ∷ bs) = b ∷ copied n bs

-- `diff` in 64 bits, its sign turned if it is not above 0, and the test `diff > 10`.
unfoldable pub is_late : ℕ → ℕ → Bool
is_late now t =
    let diff = (now + (2 ^ 64 - t)) % 2 ^ 64 in
    let turned = if diff == 0 || leb (2 ^ 63) diff then (2 ^ 64 - diff) % 2 ^ 64 else diff in
    ltb turned (2 ^ 63) && ltb 10 turned

unfoldable pub first_entry : List Bytes → Bytes
first_entry [] = []
first_entry (part ∷ parts) = part

unfoldable pub last_entry : List Bytes → Bytes
last_entry [] = []
last_entry (part ∷ []) = part
last_entry (part ∷ second ∷ parts) = last_entry (second ∷ parts)

module _ {P T F : Type 0} (opts : TreeMap P Bytes Bytes) (kv : TreeMap MyRedblacktree Bytes Bytes)
    (tree : TreeMap T ℕ WatcherItem) (libs : Libraries T F) where
  -- The payload of the box: the command, `#`, and the time at which it was sealed.
  unfoldable pub check_payload : ℕ → Bytes → Bytes → Bool
  unfolding first_entry last_entry
  check_payload now command payload =
      let parts = split payload b'#' in
      if ltb (length parts) 2 then false else elim (libs.parse_int (last_entry parts)) [
        | none ↦ false
        | some t ↦ if is_late now t then false else bytes_beq command (first_entry parts)
      ]

  unfoldable pub decrypt_command : ℕ → Packet P → Bytes → Bool
  decrypt_command now p command =
      let (sealed, has_sealed) = option_of opts p (ascii "sealed") in
      let (nonce, has_nonce) = option_of opts p (ascii "nonc") in
      let (pubk, has_pubk) = option_of opts p (ascii "pubk") in
      if not (has_sealed && (has_nonce && has_pubk))
      then false
      else elim (libs.base64_decode pubk) [
        | bad e ↦ false
        | good pubk_bytes ↦ elim (libs.box_open sealed (copied 24 nonce) (copied 32 pubk_bytes)) [
          | none ↦ false
          | some payload ↦ check_payload now command payload
        ]
      ]

  abbrev pub Done : Type 0
  Done = Subscriptions T F × List (Effect P T F)

  abbrev pub only : Subscriptions T F → Packet P → Bytes → Done
  only s p text = (s, send_reply opts p text ∷ [])

  unfoldable pub run_exists : HashType → Packet P → Subscriptions T F → Done
  run_exists h p s = elim (get_watcher h s) [
    | some wt ↦ only s p (libs.marshal_exists true (is_online opts kv tree libs wt))
    | none ↦ (s, loads_exists ∷ [])
  ]

  -- The goroutine of "exists".
  unfoldable pub load_exists : Database T F → HashType → Packet P → Effect P T F
  load_exists db h p = elim (db.get_subscription (to_base64 libs h)) [
    | none ↦ send_reply opts p (libs.marshal_exists false false)
    | some wt ↦ requeues (exists_with (record wt { thetree = tree.empty }))
  ]

  -- A topic that "reserve" has changed in place.
  unfoldable pub left_in :
      HashType → Option (WatchedTopic T F) → Subscriptions T F → Subscriptions T F
  left_in h none s = s
  left_in h (some wt) s = set_watcher h (some wt) s

  module _ (server : Server F) (db : Database T F) (h : HashType) (p : Packet P) (pubk : Bytes)
      (s : Subscriptions T F) where
    abbrev on_topic : Finish → Done
    on_topic fin = get_and_set_watcher opts kv tree libs h p pubk fin s

    abbrev not_enough : Done
    not_enough = only s p (ascii "error: not enough arguments")

    unfoldable pub run_get_option : List Bytes → Done
    run_get_option [] = (s, [])
    run_get_option (key ∷ []) = on_topic (Finish.get_option key (ascii "@"))
    run_get_option (key ∷ sub_key ∷ more) = on_topic (Finish.get_option key sub_key)

    unfoldable pub run_get_txt : List Bytes → Done
    run_get_txt [] = on_topic (Finish.get_txt (ascii "@"))
    run_get_txt (sub_key ∷ more) = on_topic (Finish.get_txt sub_key)

    -- After the reply on missing arguments the code goes on, to an index out of range.
    unfoldable pub run_set_option : List Bytes → Done
    run_set_option (key ∷ val ∷ []) =
        on_topic (Finish.set_option (libs.to_upper key) (ascii "@") val)
    run_set_option (key ∷ sub_key ∷ val ∷ more) =
        on_topic (Finish.set_option (libs.to_upper key) sub_key val)
    run_set_option args =
        (s, send_reply opts p (ascii "error: not enough arguments") ∷ sends crash ∷ [])

    unfoldable pub run_bulk_option : List Bytes → Done
    run_bulk_option (key ∷ val ∷ vals) =
        on_topic (Finish.bulk_option (libs.to_upper key) (val ∷ vals))
    run_bulk_option args = not_enough

    unfoldable pub run_replace_options : List Bytes → Done
    run_replace_options [] = not_enough
    run_replace_options (text64 ∷ more) = elim (libs.base64_decode text64) [
      | bad e ↦ only s p (ascii "replace options error: " ++ e)
      | good text ↦ on_topic (Finish.replace_options text)
    ]

    -- `Execute` of a command. The clock is read in seconds, and there is a random uint32.
    unfoldable pub execute : ℕ → ℕ → Command → List Bytes → Done
    execute now random Command.details args = on_topic Finish.details
    execute now random Command.get_option args = run_get_option args
    execute now random Command.get_txt args = run_get_txt args
    execute now random Command.set_option args = run_set_option args
    execute now random Command.bulk_option args = run_bulk_option args
    execute now random Command.replace_options args = run_replace_options args
    execute now random Command.proxy_status args = on_topic Finish.proxy_status
    execute now random Command.exists args = run_exists h p s
    execute now random Command.get_time args = only s p (libs.format_int now)
    execute now random Command.get_random args = only s p (libs.format_int random)
    execute now random Command.get_pubk args = only s p (libs.base64_encode server.public_key_temp)
    execute now random Command.version args = only s p (ascii "v0.1.7")
    execute now random Command.help args = only s p (help_lines (libs.sort_strings command_names))
    execute now random Command.reserve args =
        let (left, effects) =
          create_name opts tree libs server db h p pubk args (get_watcher h s) in
        (left_in h left s, effects)
    execute now random Command.delete args =
        (s, delete_name opts tree libs db h p pubk args (get_watcher h s))

  -- The text of the command.
  unfoldable pub command_text : Packet P → Bytes
  command_text p = libs.trim_space (option_of opts p (ascii "cmd")).0

  -- What a guru does with a lookup.
  unfoldable pub serve_lookup :
      Server F → Database T F → ℕ → ℕ → HashType → Packet P → Subscriptions T F → Done
  serve_lookup server db now random h p s =
      let cmd = command_text p in
      let (c, args) = find_command libs.to_lower (split cmd b' ') in
      if not (requires_encryption c) || decrypt_command now p cmd
      then execute server db h p (option_of opts p (ascii "pubk")).0 s now random c args
      else only s p (ascii "error: decryption failed")

  unfoldable pub sent_up : List (Event P) → List (Effect P T F)
  sent_up events = map (λ (e : Event P). sends e) events

  unfoldable pub process_lookup :
      Server F → Database T F → Looker F → ℕ → ℕ → HashType → Packet P → Subscriptions T F → Done
  process_lookup server db me now random h p s =
      if me.is_guru
      then serve_lookup server db now random h p s
      else (s, sent_up (push_up_unless_guru opts me p h))

  -- `Run` of a `lookBackCommand`.
  unfoldable pub look_back : HashType → Packet P → Bytes → LookBack T F → Subscriptions T F → Done
  look_back h p pubk (finish_with fin wt) s =
      let (wt', effects) = finish opts kv tree libs p pubk fin wt in
      (set_watcher h (some wt') s, effects)
  look_back h p pubk (exists_with wt) s =
      only (set_watcher h (some wt) s) p (libs.marshal_exists true false)
  look_back h p pubk (set_and_reply found) s = only (set_watcher h found s) p (ascii "ok")
  look_back h p pubk (keep_and_reply wt) s = elim (get_watcher h s) [
    | some there ↦ only s p (ascii "ok")
    | none ↦ only (set_watcher h (some wt) s) p (ascii "ok")
  ]
