-- ===== src/Packets/Packet/RoundTrip.antt =====
-- A packet that is written is read back with the same body and options.
use knotfreeiot.Base.{◌≡◌, ◌≢◌, refl, Bytes, [], ◌++◌, Option, none, some}
use knotfreeiot.Base.Keys.{TreeMap, bytes_eq}
use knotfreeiot.Packets.Io.{ok, Writer}
use knotfreeiot.Packets.Address.Canonical.{IsCanonical, from_bytes-to_bytes}
use knotfreeiot.Packets.Options.{flat, get_option, get_option_keys, set_option}
use knotfreeiot.Packets.Options.Unpack.{pack-flat, get-unpack-pack}
use knotfreeiot.Packets.Wire.Encoding.{encode, Fits, written-write_universal}
use knotfreeiot.Packets.Wire.RoundTrip.{read_universal-encode}
use knotfreeiot.Packets.Packet.{
  Body, send, subscribe, unsubscribe, lookup, connect, disconnect, ping, Packet, command, arguments,
  to_universal, backed, write_packet, filled, fill_send, fill_subscribe, fill_unsubscribe,
  fill_lookup, fill_packet, read_packet,
}

-- The addresses of a packet are canonical.
abbrev pub HasCanonical : Body → Type 0
HasCanonical (send a s _) = IsCanonical a × IsCanonical s
HasCanonical (subscribe a) = IsCanonical a
HasCanonical (unsubscribe a) = IsCanonical a
HasCanonical (lookup a s) = IsCanonical a × IsCanonical s
HasCanonical _ = Unit {0}

module _ {T : Type 0} (m : TreeMap T Bytes Bytes) where
  fill-to_universal :
      (b : Body) (o : Option T)
      → HasCanonical b
      → fill_packet m (to_universal m b o) ≡ ok (filled m b (flat (get_option_keys m o)))
  unfolding fill_packet to_universal command arguments fill_send fill_subscribe fill_unsubscribe
      fill_lookup
  fill-to_universal (send a s p) o (h, k) =
      rw pack-flat (rw (from_bytes-to_bytes h) (rw (from_bytes-to_bytes k)))
  fill-to_universal (subscribe a) o h = rw pack-flat (rw (from_bytes-to_bytes h))
  fill-to_universal (unsubscribe a) o h = rw pack-flat (rw (from_bytes-to_bytes h))
  fill-to_universal (lookup a s) o (h, k) =
      rw pack-flat (rw (from_bytes-to_bytes h) (rw (from_bytes-to_bytes k)))
  fill-to_universal connect o h = rw pack-flat
  fill-to_universal disconnect o h = rw pack-flat
  fill-to_universal ping o h = rw pack-flat

  -- A packet read from the bytes of another: the same body, nothing kept back, and every option
  -- with a key that is not empty.
  pub record SamePacket (p q : Packet T) : Type 0 where
    pub same_body : q.body ≡ p.body
    pub no_backing : q.backing ≡ none
    pub same_options : (j : Bytes) → j ≢ [] → get_option m q.options j ≡ get_option m p.options j

  same_filled : (p : Packet T) → SamePacket p (filled m p.body (flat (get_option_keys m p.options)))
  unfolding filled
  same_filled p = record {
    same_body = refl;
    no_backing = refl;
    same_options = λ j ne. rw pack-flat at (get-unpack-pack m p.options j ne);
  }

  -- A fresh packet with canonical addresses, within the bounds of the format, is written as some
  -- bytes, and those are read back, whatever follows them, as a packet with the same body and the same value
  -- for every option whose key is not empty.
  pub read_packet-write_packet :
      {W : Type 0} (writer : Writer W) (p : Packet T) (w w' : W) (rest : Bytes)
      → p.backing ≡ none
      → HasCanonical p.body
      → Fits (to_universal m p.body p.options)
      → (write_packet m writer p (some w)).1 ≡ ok (some w')
      → (q : Packet T) × (bytes : Bytes) × (writer.written w' ≡ writer.written w ++ bytes)
        × (read_packet m (bytes ++ rest) ≡ ok (q, rest))
        × SamePacket p q
  unfolding write_packet backed read_packet
  read_packet-write_packet writer p w w' rest fresh canonical fits e =
      let u = to_universal m p.body p.options in
      (
        filled m p.body (flat (get_option_keys m p.options)),
        encode u,
        written-write_universal writer u w w' fits (rw fresh at e),
        rw (read_universal-encode u rest fits) (rw (fill-to_universal p.body p.options canonical)),
        same_filled p,
      )

  -- The marshalled form is kept by the first write: an option set after it is not written.
  pub write_packet-set_option :
      {W V : Type 0} (writer : Writer W) (later : Writer V) (p : Packet T) (w : Option W)
      (v : Option V) (key val : Bytes)
      → let p' = (write_packet m writer p w).0 in
        (write_packet m later (record p' { options = set_option m key val p'.options }) v).1
        ≡ (write_packet m later p v).1
  unfolding write_packet backed
  write_packet-set_option writer later p w v key val = refl
