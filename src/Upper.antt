-- ===== src/Upper.antt =====
-- `SetUpstreamNames` of iot/upper-channels.go: how the channels of a server to those above it change
-- with the list of their names. Goroutines that are started are effects, and so are closed channels.
pub mod Names
pub mod Calls
mod Tests
use knotfreeiot.Base.{
  ℕ, ◌+◌, Bytes, Bool, true, false, not, List, [], ◌∷◌, ◌++◌, map, length, Option, none, some, ◌==◌,
  if◌then◌else◌, ◌||◌,
}
use knotfreeiot.Base.Keys.{bytes_eq, bytes_beq, lookup, without}
use knotfreeiot.Pubsub.Table.{Router}

-- A pointer to an upperChannel is its number in the order of allocation.
pub record UpperChannel : Type 0 where
  pub number : ℕ
  pub name : Bytes
  pub address : Bytes
  pub index : ℕ

-- upstreamRouterStruct, with the number of the next channel.
pub record UpstreamRouter : Type 0 where
  pub channels : List UpperChannel
  pub name2channel : List (Bytes × UpperChannel)
  pub maglev : Option (ℕ → ℕ)
  pub previousmaglev : Option (ℕ → ℕ)
  pub next : ℕ

-- What the goroutines of a channel have made of it by now: `isRunning`, and can it be closed, which
-- wants a `stopped` that is made and not closed, and a connection.
pub record Dialed : Type 0 where
  pub is_running : ℕ → Bool
  pub is_closable : ℕ → Bool

-- `go upc.dialGuru()`, the closing of a channel, and the two callbacks that are queued to every bucket.
pub data UpperEffect : Type 0 where
  dial_guru : UpperChannel → UpperEffect
  forget : ℕ → UpperEffect
  re_subscribe_remapped_topics : UpperEffect
  guru_delete_remapped_and_gone_topics : Option ℕ → UpperEffect

-- The router of a new table of subscriptions.
abbrev pub new_router : UpstreamRouter
new_router = record {
  channels = [];
  name2channel = [];
  maglev = none;
  previousmaglev = none;
  next = 0;
}

-- What a push up sees of the router; no channel is nil.
abbrev pub router_of : UpstreamRouter → Router
router_of r = record { maglev = r.maglev; channels = map (λ upc. true) r.channels }

unfoldable pub differs : List Bytes → List UpperChannel → Bool
differs (name ∷ names) (c ∷ cs) = not (bytes_beq name c.name) || differs names cs
differs names cs = false

unfoldable pub had_change : List Bytes → List UpperChannel → Bool
had_change names cs = if length names == length cs then differs names cs else true

-- `theNamesThisTime[name]`
unfoldable pub has_name : Bytes → List Bytes → Bool
has_name name [] = false
has_name name (n ∷ names) = bytes_beq n name || has_name name names

abbrev pub addressed : List Bytes → List Bytes → List (Bytes × Bytes)
addressed (name ∷ names) (address ∷ addresses) = (name, address) ∷ addressed names addresses
addressed names addresses = []

-- The channel of the name, where it runs.
unfoldable pub running_channel : Dialed → List (Bytes × UpperChannel) → Bytes → Option UpperChannel
running_channel dialed name2channel name = elim (lookup name name2channel) [
  | none ↦ none
  | some upc ↦ if dialed.is_running upc.number then some upc else none
]

abbrev pub new_channel : Bytes → Bytes → ℕ → ℕ → UpperChannel
new_channel name address i next = record {
  number = next;
  name = name;
  address = address;
  index = i;
}

-- The loop over the names: the new list, the goroutines, and the next number.
unfoldable pub channels_loop :
    Dialed
    → List (Bytes × UpperChannel)
    → List (Bytes × Bytes)
    → ℕ
    → ℕ
    → List UpperChannel × List UpperEffect × ℕ
channels_loop dialed m [] i next = ([], [], next)
channels_loop dialed m ((name, address) ∷ names) i next = elim (running_channel dialed m name) [
  | some upc ↦
      let (cs, effects, next') = channels_loop dialed m names (i + 1) next in
      (upc ∷ cs, effects, next')
  | none ↦
      let upc = new_channel name address i next in
      let (cs, effects, next') = channels_loop dialed m names (i + 1) (next + 1) in
      (upc ∷ cs, dial_guru upc ∷ effects, next')
]

-- The loop over the old channels; `none` is the panic of a close.
unfoldable pub forget_loop :
    Dialed
    → List Bytes
    → List UpperChannel
    → List (Bytes × UpperChannel)
    → Option (List (Bytes × UpperChannel) × List UpperEffect)
forget_loop dialed names [] m = some (m, [])
forget_loop dialed names (upc ∷ cs) m = elim (has_name upc.name names) [
  | true ↦ forget_loop dialed names cs m
  | false ↦ elim (dialed.is_closable upc.number) [
    | false ↦ none
    | true ↦ elim (forget_loop dialed names cs (without upc.name m)) [
      | none ↦ none
      | some (m', effects) ↦ some (m', forget upc.number ∷ effects)
    ]
  ]
]

-- The index of the last name that is the server's own; `none` is -1.
unfoldable pub my_index : Bytes → List Bytes → ℕ → Option ℕ → Option ℕ
my_index myname [] i found = found
my_index myname (n ∷ names) i found =
    my_index myname names (i + 1) (if bytes_beq n myname then some i else found)

-- `maglev_new` is `maglev.New` of github.com/dgryski/go-maglev with the size that is used, and gives
-- the function Lookup of the table.
module _ (maglev_new : List Bytes → ℕ → ℕ) where
  unfoldable pub set_guru_upstream_names :
      Bytes → List Bytes → UpstreamRouter → UpstreamRouter × List UpperEffect
  set_guru_upstream_names myname names r = (
    record r { previousmaglev = r.maglev; maglev = some (maglev_new names) },
    guru_delete_remapped_and_gone_topics (my_index myname names 0 none) ∷ [],
  )

  -- The change of an aide.
  unfoldable pub set_aide_upstream_names :
      Dialed → List Bytes → List Bytes → UpstreamRouter → Option (UpstreamRouter × List UpperEffect)
  set_aide_upstream_names dialed names addresses r =
      let (cs, dials, next) =
        channels_loop dialed r.name2channel (addressed names addresses) 0 r.next in
      elim (forget_loop dialed names r.channels r.name2channel) [
        | none ↦ none
        | some (m, forgets) ↦ some (
          record {
            channels = cs;
            name2channel = m;
            maglev = some (maglev_new names);
            previousmaglev = r.maglev;
            next = next;
          },
          dials ++ (forgets ++ re_subscribe_remapped_topics ∷ []),
        )
      ]

  -- `none` is a panic, of a close or where the lists are not as long as each other.
  unfoldable pub set_upstream_names :
      Bool
      → Bytes
      → Dialed
      → List Bytes
      → List Bytes
      → UpstreamRouter
      → Option (UpstreamRouter × List UpperEffect)
  set_upstream_names is_guru myname dialed names addresses r =
      if not (length names == length addresses)
      then none
      else if not (had_change names r.channels)
      then some (r, [])
      else if is_guru
      then some (set_guru_upstream_names myname names r)
      else set_aide_upstream_names dialed names addresses r
