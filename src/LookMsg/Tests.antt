-- ===== src/LookMsg/Tests.antt =====
-- A name in a bucket of a guru, and a server on the texts of whose libraries little is done: the
-- inputs at which the theorems on lookups are applied.
use knotfreeiot.Base.{
  ℕ, ◌≡◌, refl, Bytes, Bool, true, false, List, [], ◌∷◌, ◌++◌, none, some, ascii, if◌then◌else◌,
  arith,
}
use knotfreeiot.Base.Keys.{TreeMap, bytes_eq, nat_eq, bytes_beq, lookup}
use knotfreeiot.Base.Assoc.{assoc_map}
use knotfreeiot.Packets.Address.{new_address_union}
use knotfreeiot.Packets.Packet.{Packet, Body}
use knotfreeiot.Tokens.{good, bad}
use knotfreeiot.Tokens.Tests.{payload}
use knotfreeiot.Pubsub.Hash.{hash_beq}
use knotfreeiot.Pubsub.Topic.{WatchedTopic, WatcherItem, MyRedblacktree, get}
use knotfreeiot.Pubsub.Topic.Options
use knotfreeiot.Pubsub.Table.{Subscriptions, get_watcher, set_watcher}
use knotfreeiot.Pubsub.Watchers.{IsTable}
use knotfreeiot.Pubsub.Subscribe.{Looker, process_subscribe}
use knotfreeiot.Pubsub.Messages.{Message, lookup_message, publish_message, process_messages}
use knotfreeiot.Pubsub.Tests.{
  Opts, Tree, opts, tree, whole, zeros, blank, aide, people, news, topic, table, hello, reply, join,
  table-IsTable,
}
use knotfreeiot.LookMsg.Maps.{GoMap, string_to_map, map_to_string}
use knotfreeiot.LookMsg.Maps.Split.{Trims}
use knotfreeiot.LookMsg.Maps.RoundTrip.{IsPlainMap}
use knotfreeiot.LookMsg.Commands.{find_command, requires_encryption}
use knotfreeiot.LookMsg.Commands
use knotfreeiot.LookMsg.{Libraries, Server, Database, Finish, saves, finish_with, send_reply}
use knotfreeiot.LookMsg.OnTopic.{option_map, get_and_set_watcher}
use knotfreeiot.LookMsg.OnTopic.SetGet.{answer, set_option-get_option}
use knotfreeiot.LookMsg.Process.{is_late, process_lookup, look_back}
use knotfreeiot.LookMsg.Process.Sealed.{ParsesInt64}
use knotfreeiot.LookMsg.Process.Later.{settled, load_watcher-look_back, process_subscribe-look_back}
use knotfreeiot.LookMsg.Process.Owner.{Keeps, Unsealed, process_lookup-Keeps}
use knotfreeiot.LookMsg.InBucket.{with_lookups, with_lookups-IsTable}

abbrev options : TreeMap MyRedblacktree Bytes Bytes
options = assoc_map

abbrev texts : Libraries Tree ℕ
texts = record {
  trim_space = λ bs. bs;
  to_lower = λ bs. bs;
  to_upper = λ bs. bs;
  base64_decode = λ bs. good bs;
  base64_encode = λ bs. bs;
  box_open = λ sealed nonce pubk. some sealed;
  parse_int = λ bs. some 1000;
  format_int = λ n. n ∷ [];
  marshal_topic = λ wt. good wt.owner;
  marshal_exists = λ exists online. [];
  marshal_proxy_status = λ exists online static proxy. static;
  unmarshal_map = λ bs. bad bs;
  sort_strings = λ names. names;
  int_of = λ n. n;
  sha256 = λ bs. zeros 32;
}

texts-Trims : Trims texts.trim_space
texts-Trims = record { keeps = λ s first last. refl }

texts-ParsesInt64 : ParsesInt64 texts
texts-ParsesInt64 = record { in_range = λ text t e. ground arith }

abbrev cluster : Server ℕ
cluster = record { validate_token = λ text. good payload; public_key_temp = zeros 32 }

abbrev stored : Database Tree ℕ
stored = record { get_subscription = λ name. none; get_subscription_list_count = λ owner. some 0 }

abbrev guru : Looker ℕ
guru = record aide { is_guru = true }

abbrev home : Bytes
home = ascii "1.2.3.4"

abbrev name : WatchedTopic Tree ℕ
name = record topic {
  owner = ascii "pk";
  optional_key_values = some ((ascii "A", ascii "@ 10.0.0.1 www 10.0.0.2") ∷ []);
}

abbrev names : Subscriptions Tree ℕ
names = (news, name) ∷ []

-- A lookup with a sealed command.
abbrev asks : Bytes → Packet Opts
asks command = record {
  body = Body.lookup (new_address_union (ascii "news")) (new_address_union (ascii "me"));
  options = some (
      (ascii "cmd", command)
      ∷ (ascii "pubk", ascii "pk")
      ∷ (ascii "nonc", ascii "n")
      ∷ (ascii "sealed", command ++ ascii "#1000")
      ∷ []);
  backing = none;
}

-- The commands are found by two words or by one, and an unknown one is "help".
two_words :
    find_command (λ w. w) (ascii "set" ∷ ascii "option" ∷ ascii "A" ∷ [])
    ≡ (Commands.Command.set_option, ascii "A" ∷ [])
unfolding find_command Commands.find_in_map bytes_beq
two_words = refl

one_word :
    find_command (λ w. w) (ascii "delete" ∷ ascii "x" ∷ [])
    ≡ (Commands.Command.delete, ascii "x" ∷ [])
unfolding find_command Commands.find_in_map Commands.find_one_word bytes_beq
one_word = refl

unknown : find_command (λ w. w) (ascii "x" ∷ []) ≡ (Commands.Command.help, [])
unfolding find_command Commands.find_in_map Commands.find_one_word bytes_beq
unknown = refl

sealed_only :
    (requires_encryption Commands.Command.reserve ≡ true)
    × (requires_encryption Commands.Command.get_option ≡ false)
    × (requires_encryption Commands.Command.help ≡ false)
unfolding requires_encryption
sealed_only = (refl, refl, refl)

-- Ten seconds before and after are in time; so is the time that is half of 2 ^ 64 away.
in_time :
    (is_late 1000 990 ≡ false)
    × (is_late 1000 989 ≡ true)
    × (is_late 1000 1010 ≡ false)
    × (is_late 1000 1011 ≡ true)
    × (is_late 1000 9223372036854776808 ≡ false)
unfolding is_late
in_time = (refl, refl, refl, refl, refl)

-- A map with an empty value is not read back, and three entries are a panic.
empty_value : string_to_map (λ bs. bs) (ascii "a b @") ≡ none
unfolding string_to_map bytes_beq
empty_value = refl

empty_map : map_to_string [] ≡ none
unfolding map_to_string
empty_map = refl

set_option-get_option_example :
    let after =
      get_and_set_watcher opts options tree texts news
        (asks [])
        (ascii "pk")
        (Finish.set_option (ascii "A") (ascii "@") home)
        names in
    (wt' : WatchedTopic Tree ℕ) × (get_watcher news after.0 ≡ some wt')
    × (after.1 ≡ saves wt' ∷ send_reply opts (asks []) (ascii "ok") ∷ [])
    × (m' : GoMap) × (option_map opts options tree texts (ascii "A") wt' ≡ some m')
    × IsPlainMap m'
    × ((j : Bytes)
        → (get_and_set_watcher opts options tree texts news
            (asks [])
            []
            (Finish.get_option (ascii "A") j)
            after.0).1
          ≡ answer opts options tree texts (asks []) (ascii "A") j (
              if bytes_beq (ascii "@") j
              then some home
              else lookup j ((ascii "www", ascii "10.0.0.2") ∷ (ascii "@", ascii "10.0.0.1") ∷ []))
            ∷ [])
unfolding get_watcher option_map string_to_map Options.get_option bytes_beq hash_beq
set_option-get_option_example =
    set_option-get_option opts options tree texts news (asks []) (asks []) (ascii "pk") []
      (ascii "A") (ascii "@") home name
      ((ascii "www", ascii "10.0.0.2") ∷ (ascii "@", ascii "10.0.0.1") ∷ []) names refl refl
      texts-Trims refl refl (omega arith) (omega arith) (omega arith)

process_lookup-Keeps_example :
    let p = asks (ascii "set option A @ 1.2.3.4") in
    Keeps
      (λ j wt. (true ≡ true) × Unsealed opts options tree texts 1000 news p j wt)
      names
      (process_lookup opts options tree texts cluster stored guru 1000 0 news p names).0
process_lookup-Keeps_example =
    process_lookup-Keeps opts options tree texts cluster stored guru 1000 0 news
      (asks (ascii "set option A @ 1.2.3.4")) names texts-ParsesInt64 (omega arith) (omega arith)

-- A lookup of contact 7, and a publish of contact 5 after it.
abbrev two_messages : List ((ℕ → Bool) × ℕ × Message Opts)
two_messages =
    (people.is_closed, 1000, lookup_message 7 news (asks (ascii "get time")))
    ∷ (people.is_closed, 1001, publish_message 5 news hello)
    ∷ []

with_lookups-IsTable_example :
    IsTable tree people
      (process_messages opts tree whole
        (with_lookups opts options tree whole texts cluster stored 0 reply)
        blank
        guru
        people.get_key
        two_messages
        table).0
with_lookups-IsTable_example =
    with_lookups-IsTable opts options tree whole texts cluster stored 0 reply blank guru
      people.get_key people.is_closed two_messages table table-IsTable

load_watcher-look_back_example :
    let from_db = record stored { get_subscription = λ key. some name } in
    let fin = Finish.get_option (ascii "A") (ascii "www") in
    let r = get_and_set_watcher opts options tree texts news (asks []) [] fin [] in
    (r.0 ≡ [])
    × (settled opts options tree texts from_db news (asks []) [] r.1 names
        ≡ get_and_set_watcher opts options tree texts news
            (asks [])
            []
            fin
            (set_watcher news (some (record name { thetree = tree.empty })) names))
unfolding get_watcher
load_watcher-look_back_example =
    load_watcher-look_back opts options tree texts
      (record stored { get_subscription = λ key. some name }) news (asks []) []
      (Finish.get_option (ascii "A") (ascii "www")) [] names refl

process_subscribe-look_back_example :
    let s' = (process_subscribe opts tree whole guru people 100 6 news join []).0 in
    let fin = Finish.get_option (ascii "A") (ascii "www") in
    let r =
      look_back opts options tree texts news
        (asks [])
        []
        (finish_with fin (record name { thetree = tree.empty }))
        s' in
    (before : WatchedTopic Tree ℕ) × (after : WatchedTopic Tree ℕ) × (item : WatcherItem)
    × (get_watcher news s' ≡ some before)
    × (get tree (people.get_key 6) before ≡ some item)
    × (get_watcher news r.0 ≡ some after)
    × ((key : ℕ) → get tree key after ≡ none)
process_subscribe-look_back_example =
    process_subscribe-look_back opts options tree texts whole guru people 100 6 news join (asks [])
      [] (Finish.get_option (ascii "A") (ascii "www")) name []
