-- ===== src/Packets/Packet.antt =====
-- The packet types of packets/packets.go: `Fill` and `Write` of each, `FillPacket`, `ReadPacket`.
pub mod RoundTrip
pub mod Accepts
use knotfreeiot.Base.{ℕ, Bytes, List, [], ◌∷◌, Option, none, some, ◌==◌, if◌then◌else◌}
use knotfreeiot.Base.Keys.{TreeMap, bytes_eq}
use knotfreeiot.Packets.Io.{
  Result, ok, err, too_few_args_send, too_few_args_subscribe, too_few_args_unsubscribe,
  too_few_args_lookup, unknown_command, ◌>>=◌, Writer,
}
use knotfreeiot.Packets.Address.{AddressUnion, from_bytes, to_bytes}
use knotfreeiot.Packets.Options.{unpack_options, pack_options}
use knotfreeiot.Packets.Wire.{Universal, write_universal, read_universal}

-- What each type has beside `PacketCommon`: the address, then the source.
pub data Body : Type 0 where
  send : AddressUnion → AddressUnion → Bytes → Body
  subscribe unsubscribe : AddressUnion → Body
  lookup : AddressUnion → AddressUnion → Body
  connect disconnect ping : Body

-- `backing` is `backingUniversal`: the marshalled form, kept by the first write.
pub record Packet (T : Type 0) : Type 0 where
  pub body : Body
  pub options : Option T
  pub backing : Option Universal

unfoldable pub command : Body → ℕ
command (send _ _ _) = b'P'
command (subscribe _) = b'S'
command (unsubscribe _) = b'U'
command (lookup _ _) = b'L'
command connect = b'C'
command disconnect = b'D'
command ping = b'H'

unfoldable pub arguments : Body → List Bytes
arguments (send address source payload) = to_bytes address ∷ to_bytes source ∷ payload ∷ []
arguments (subscribe address) = to_bytes address ∷ []
arguments (unsubscribe address) = to_bytes address ∷ []
arguments (lookup address source) = to_bytes address ∷ to_bytes source ∷ []
arguments _ = []

module _ {T : Type 0} (m : TreeMap T Bytes Bytes) where
  -- What `Write` builds where `backingUniversal` is nil.
  unfoldable pub to_universal : Body → Option T → Universal
  to_universal body options = record {
    cmd = command body;
    args = pack_options m options (arguments body);
  }

  unfoldable pub backed : Packet T → Universal
  backed p = elim p.backing [ none ↦ to_universal p.body p.options | some u ↦ u ]

  -- `Write` of every type; it changes the packet too.
  unfoldable pub write_packet :
      {W : Type 0} → Writer W → Packet T → Option W → Packet T × Result (Option W)
  write_packet writer p w =
      (record p { backing = some (backed p) }, write_universal writer (backed p) w)

  unfoldable pub filled : Body → List Bytes → Packet T
  filled body args = record { body = body; options = unpack_options m args none; backing = none }

  unfoldable pub fill_send : List Bytes → Result (Packet T)
  fill_send (address ∷ source ∷ payload ∷ rest) =
      ok (filled (send (from_bytes address) (from_bytes source) payload) rest)
  fill_send _ = err too_few_args_send

  unfoldable pub fill_subscribe : List Bytes → Result (Packet T)
  fill_subscribe (address ∷ rest) = ok (filled (subscribe (from_bytes address)) rest)
  fill_subscribe _ = err too_few_args_subscribe

  unfoldable pub fill_unsubscribe : List Bytes → Result (Packet T)
  fill_unsubscribe (address ∷ rest) = ok (filled (unsubscribe (from_bytes address)) rest)
  fill_unsubscribe _ = err too_few_args_unsubscribe

  unfoldable pub fill_lookup : List Bytes → Result (Packet T)
  fill_lookup (address ∷ source ∷ rest) =
      ok (filled (lookup (from_bytes address) (from_bytes source)) rest)
  fill_lookup _ = err too_few_args_lookup

  unfoldable pub fill_packet : Universal → Result (Packet T)
  fill_packet u =
      if u.cmd == b'P'
      then fill_send u.args
      else if u.cmd == b'S'
      then fill_subscribe u.args
      else if u.cmd == b'U'
      then fill_unsubscribe u.args
      else if u.cmd == b'L'
      then fill_lookup u.args
      else if u.cmd == b'C'
      then ok (filled connect u.args)
      else if u.cmd == b'D'
      then ok (filled disconnect u.args)
      else if u.cmd == b'H'
      then ok (filled ping u.args)
      else err (unknown_command u.cmd)

  unfoldable pub read_packet : Bytes → Result (Packet T × Bytes)
  read_packet input = do (u, rest) ← read_universal input; p ← fill_packet u; ok (p, rest)
