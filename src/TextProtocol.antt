-- ===== src/TextProtocol.antt =====
-- `Text2Packet` of iot/text-protocol.go: a line of text becomes a packet.
pub mod Lines
mod Tests
use knotfreeiot.Base.{
  ℕ, zero, suc, ◌*◌, Bytes, Bool, List, [], ◌∷◌, Option, none, some, length, take,
}
use knotfreeiot.Base.Keys.{TreeMap, bytes_eq}
use knotfreeiot.Packets.Io.{Result}
use knotfreeiot.Packets.Wire.{Universal}
use knotfreeiot.Packets.Packet.{Packet, fill_packet}
use knotfreeiot.Badjson.{Segments, last, next, Run, gives, ◌>>=◌, ChopError}
use knotfreeiot.Badjson.Chop.{chop}
use knotfreeiot.Badjson.Print.{Texts, raw}

-- The error of the parser, "too little data", or what `FillPacket` returns.
pub data Texted (P : Type 0) : Type 0 where
  not_parsed : ChopError → Texted P
  too_little_data : Texted P
  from_fill : Result (Packet P) → Texted P

-- The slice of nil that the arguments are put into.
unfoldable pub padded : ℕ → List Bytes → List Bytes
padded zero args = args
padded (suc n) [] = [] ∷ padded n []
padded (suc n) (a ∷ args) = a ∷ padded n args

module _ {P : Type 0} (opts : TreeMap P Bytes Bytes) (decode_rune : Bytes → ℕ × ℕ) (t : Texts) where
  unfoldable pub raws : Segments → List Bytes
  raws last = []
  raws (next s more) = raw t s ∷ raws more

  -- The first byte is the command; at most eleven segments are taken as arguments.
  unfoldable pub packet_of : Bytes → Segments → Texted P
  packet_of [] rest = too_little_data
  packet_of (cmd ∷ _) rest =
      from_fill (fill_packet opts (record { cmd = cmd; args = padded 64 (take 11 (raws rest)) }))

  unfoldable pub text2_packet : Bytes → Run (Texted P)
  text2_packet text = chop decode_rune text >>= λ (segments, err). elim err [
    | some e ↦ gives (not_parsed e)
    | none ↦ elim segments [
      | last ↦ gives too_little_data
      | next first rest ↦ gives (packet_of (raw t first) rest)
    ]
  ]
