-- ===== src/Packets/Options.antt =====
-- `PacketCommon` of packets/packets.go: the options of a packet, as a map from key to value that is
-- created by the first write. `T` is the red-black tree of the container package.
pub mod Unpack
use knotfreeiot.Base.{
  ℕ, suc, ◌+◌, ◌%◌, Bytes, List, [], ◌∷◌, ◌++◌, Bool, true, false, not, ◌&&◌, Option, none, some,
  length, ◌==◌, if◌then◌else◌,
}
use knotfreeiot.Base.Keys.{TreeMap, bytes_beq, bytes_eq}

-- The entries of a map, key and value in turn.
abbrev pub flat : List (Bytes × Bytes) → List Bytes
flat [] = []
flat ((k, v) ∷ es) = k ∷ v ∷ flat es

module _ {T : Type 0} (m : TreeMap T Bytes Bytes) where
  unfoldable pub option_size : Option T → ℕ
  option_size none = 0
  option_size (some t) = m.size t

  -- The value with `ok`; a nil slice and an empty one are both `[]`.
  unfoldable pub get_option : Option T → Bytes → Bytes × Bool
  get_option none key = ([], false)
  get_option (some t) key = elim (m.get key t) [ none ↦ ([], false) | some v ↦ (v, true) ]

  unfoldable pub get_option_keys : Option T → List (Bytes × Bytes)
  get_option_keys none = []
  get_option_keys (some t) = m.entries t

  unfoldable pub delete_option : Bytes → Option T → Option T
  delete_option key none = none
  delete_option key (some t) = some (m.remove key t)

  unfoldable pub set_option : Bytes → Bytes → Option T → Option T
  set_option key val none = some (m.put key val m.empty)
  set_option key val (some t) = some (m.put key val t)

  -- The loop of `CopyOptions`.
  unfoldable pub copy_entries : List (Bytes × Bytes) → Option T → Option T
  copy_entries [] o = o
  copy_entries ((k, v) ∷ es) o = copy_entries es (set_option k v o)

  unfoldable pub created : Option T → Option T
  created none = some m.empty
  created (some t) = some t

  unfoldable pub copy_options : Option T → Option T → Option T
  copy_options none o = created o
  copy_options (some source) o = copy_entries (m.entries source) (created o)

  -- The loop over `args` with its index and the string before.
  unfoldable pub unpack_loop : List Bytes → ℕ → Bytes → Option T → Option T
  unpack_loop [] i key o = o
  unpack_loop (arg ∷ args) i key o =
      unpack_loop args (i + 1) arg
        (if i % 2 == 1 && not (bytes_beq key []) then set_option key arg o else o)

  -- `key := "none"`
  unfoldable pub unpack_options : List Bytes → Option T → Option T
  unpack_options args o = unpack_loop args 0 (b'n' ∷ b'o' ∷ b'n' ∷ b'e' ∷ []) o

  unfoldable pub pack_options : Option T → List Bytes → List Bytes
  unfolding option_size get_option_keys
  pack_options o args = if option_size o == 0 then args else args ++ flat (get_option_keys o)
