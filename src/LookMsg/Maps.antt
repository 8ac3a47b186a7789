-- ===== src/LookMsg/Maps.antt =====
-- `StringToMap` and `MapToString` of iot/lookmsg.go: the value of an option is a map written with
-- spaces. A Go map is the list of its entries, in the order in which a loop meets them.
pub mod Split
pub mod RoundTrip
use knotfreeiot.Base.{
  ℕ, zero, suc, ◌-◌, Bytes, Bool, true, false, List, [], ◌∷◌, ◌++◌, Option, none, some, length,
  take, ◌==◌, if◌then◌else◌, ascii,
}
use knotfreeiot.Base.Keys.{bytes_eq, without}

-- `strings.Split` with a separator of one byte.
unfoldable pub split_from : ℕ → Bytes → Bytes → List Bytes
split_from sep cur [] = cur ∷ []
split_from sep cur (b ∷ bs) = elim (b == sep) [
  | true ↦ cur ∷ split_from sep [] bs
  | false ↦ split_from sep (cur ++ b ∷ []) bs
]

unfoldable pub split : Bytes → ℕ → List Bytes
split text sep = split_from sep [] text

abbrev pub GoMap : Type 0
GoMap = List (Bytes × Bytes)

-- `m[key] = val`
abbrev pub assign : Bytes → Bytes → GoMap → GoMap
assign key val m = (key, val) ∷ without key m

-- The loop over pairs; `none` is the panic of `entries[i+1]` behind the last entry.
unfoldable pub pairs_loop : List Bytes → GoMap → Option GoMap
pairs_loop [] m = some m
pairs_loop (key ∷ []) m = none
pairs_loop (key ∷ val ∷ rest) m = pairs_loop rest (assign key val m)

-- The `switch` on the number of entries.
unfoldable pub entries_map : List Bytes → Option GoMap
entries_map (entry ∷ []) = some (assign (ascii "@") entry [])
entries_map entries = pairs_loop entries []

-- `trim_space` is strings.TrimSpace.
module _ (trim_space : Bytes → Bytes) where
  unfoldable pub string_to_map : Bytes → Option GoMap
  unfolding split split_from entries_map pairs_loop
  string_to_map str =
      let tmp = trim_space str in if length tmp == 0 then some [] else entries_map (split tmp b' ')

unfoldable pub written : GoMap → Bytes
written [] = []
written ((key, value) ∷ m) = key ++ b' ' ∷ (value ++ b' ' ∷ written m)

-- `none` is the panic of the slice that ends at -1.
unfoldable pub map_to_string : GoMap → Option Bytes
unfolding written
map_to_string m =
    let str = written m in if length str == 0 then none else some (take (length str - 1) str)
