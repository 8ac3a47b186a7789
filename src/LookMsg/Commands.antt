-- ===== src/LookMsg/Commands.antt =====
-- The commands on names: `setupCommands` of iot/lookmsg.go as far as it fills the table of commands,
-- and how `processLookup` finds one and sees whether it wants a sealed box.
use knotfreeiot.Base.{Bytes, Bool, not, ◌||◌, List, [], ◌∷◌, ◌++◌, Option, none, some, map, ascii}
use knotfreeiot.Base.Keys.{bytes_eq, lookup}
use knotfreeiot.Tokens.{has_prefix}

pub data Command : Type 0 where
  details get_option get_txt set_option bulk_option replace_options proxy_status exists get_time
        get_random get_pubk version help reserve delete :
      Command

-- The open lock, U+1F513, in UTF-8.
abbrev pub open_lock : Bytes
open_lock = 0xf0 ∷ 0x9f ∷ 0x94 ∷ 0x93 ∷ []

unfoldable pub description : Command → Bytes
description details = ascii "A serialization of the name record"
description get_option = ascii "get key val. eg A 12.34.56.78 " ++ open_lock
description get_txt = ascii "get key val. eg A 12.34.56.78 " ++ open_lock
description set_option = ascii "add key subkey value. eg A @ 12.34.56.78 "
description bulk_option = ascii "add key kv pairs"
description replace_options = ascii "Replace all the options. Arg is json map in base64."
description proxy_status = ascii "returns ProxyStatusReturnType " ++ open_lock
description exists = ascii "returns true if the name exists " ++ open_lock
description get_time = ascii "seconds since 1970" ++ open_lock
description get_random = ascii "returns a random integer"
description get_pubk = ascii "device public key " ++ open_lock
description version = ascii "info about this thing"
description help =
    ascii "lists all commands. " ++ (open_lock ++ ascii " means no encryption required")
description reserve = ascii "assign a public key to a name, create"
description delete = ascii "delete a name"

-- `CommandMap`; no command has an argument count.
abbrev pub command_map : List (Bytes × Command)
command_map =
    (ascii "details", details)
    ∷ (ascii "get option", get_option)
    ∷ (ascii "get txt", get_txt)
    ∷ (ascii "set option", set_option)
    ∷ (ascii "bulk option", bulk_option)
    ∷ (ascii "replace options", replace_options)
    ∷ (ascii "proxy-status", proxy_status)
    ∷ (ascii "exists", exists)
    ∷ (ascii "get time", get_time)
    ∷ (ascii "get random", get_random)
    ∷ (ascii "get pubk", get_pubk)
    ∷ (ascii "version", version)
    ∷ (ascii "help", help)
    ∷ (ascii "reserve", reserve)
    ∷ (ascii "delete", delete)
    ∷ []

unfoldable pub find_in_map : Bytes → Option Command
find_in_map name = lookup name command_map

-- `strings.Contains`, with the text last.
unfoldable pub contains : Bytes → Bytes → Bool
contains part [] = has_prefix part []
contains part (b ∷ bs) = has_prefix part (b ∷ bs) || contains part bs

unfoldable pub requires_encryption : Command → Bool
unfolding contains description has_prefix
requires_encryption c = not (contains open_lock (description c))

module _ (to_lower : Bytes → Bytes) where
  -- The command with its arguments: two words, or one, or else "help".
  unfoldable pub find_one_word : Bytes → List Bytes → Command × List Bytes
  find_one_word word args = elim (find_in_map (to_lower word)) [
    | some c ↦ (c, args)
    | none ↦ (help, args)
  ]

  unfoldable pub find_command : List Bytes → Command × List Bytes
  find_command [] = (help, [])
  find_command (word ∷ []) = find_one_word word []
  find_command (word ∷ second ∷ args) = elim (find_in_map (to_lower (word ++ b' ' ∷ second))) [
    | some c ↦ (c, args)
    | none ↦ find_one_word word (second ∷ args)
  ]

-- The lines of "help", for keys that are sorted.
unfoldable pub help_lines : List Bytes → Bytes
help_lines [] = []
help_lines (k ∷ ks) = elim (find_in_map k) [
  | none ↦ help_lines ks
  | some c ↦ b'[' ∷ (k ++ (ascii "] " ++ (description c ++ 10 ∷ help_lines ks)))
]

abbrev pub command_names : List Bytes
command_names = map (λ (entry : Bytes × Command). entry.0) command_map
