-- ===== src/MqttProtocol/Down.antt =====
-- `WriteDownstream` of an MQTT contact.
use knotfreeiot.Base.{
  ℕ, Bytes, List, [], ◌∷◌, Option, none, some, length, ◌==◌, if◌then◌else◌, ascii,
}
use knotfreeiot.Base.Keys.{TreeMap, bytes_beq, bytes_eq}
use knotfreeiot.Packets.Address.{AddressUnion, Codecs, address_string}
use knotfreeiot.Packets.Options.{get_option, get_option_keys}
use knotfreeiot.Packets.Packet.{Packet, Body}
use knotfreeiot.MqttProtocol.{Props, LibPacket, disconn}

-- `UserProps` of libmqtt. Its `Add`, one more value under a key, comes from outside.
abbrev pub UserProps : Type 0
UserProps = List (Bytes × List Bytes)

unfoldable pub add_props :
    (Bytes → Bytes → UserProps → UserProps) → List (Bytes × Bytes) → UserProps → UserProps
add_props add [] props = props
add_props add ((k, v) ∷ more) props = add_props add more (add k v props)

-- The options but the one that has a place of its own.
unfoldable pub without_correlation : List (Bytes × Bytes) → List (Bytes × Bytes)
without_correlation [] = []
without_correlation ((k, v) ∷ more) =
    let rest = without_correlation more in
    if bytes_beq k (ascii "CorrelationData") then rest else (k, v) ∷ rest

abbrev pub or_text : Bytes → Bytes → Bytes
or_text text fallback = if length text == 0 then fallback else text

module _ {P : Type 0} (opts : TreeMap P Bytes Bytes) (c : Codecs)
    (add : Bytes → Bytes → UserProps → UserProps) where
  -- Version 5 has properties.
  unfoldable pub lookup_props : ℕ → AddressUnion → Packet P → Option Props
  unfolding add_props
  lookup_props version source p =
      if version == 5
      then some (record {
        resp_topic = address_string c source;
        correlation_data = [];
        user_props =
            add (ascii "lookup") (ascii "lookup") (
              add (ascii "atw") (ascii "test1")
                (add_props add (get_option_keys opts p.options) []));
      })
      else none

  unfoldable pub send_props : ℕ → AddressUnion → Packet P → Option Props
  unfolding add_props without_correlation
  send_props version source p =
      if version == 5
      then some (record {
        resp_topic = address_string c source;
        correlation_data = (get_option opts p.options (ascii "CorrelationData")).0;
        user_props = add_props add (without_correlation (get_option_keys opts p.options)) [];
      })
      else none

  -- A Send that says an error is followed by a disconnect.
  unfoldable pub write_downstream : ℕ → Packet P → List LibPacket
  write_downstream version p = elim p.body [
    | Body.disconnect ↦ disconn (get_option opts p.options (ascii "error")).0 ∷ []
    | Body.lookup address source ↦
        LibPacket.publish (or_text (address_string c address) (ascii "fixme_need_topic always"))
          (ascii "had lookup") (lookup_props version source p)
        ∷ []
    | Body.send address source payload ↦
        LibPacket.publish (or_text (address_string c address) (ascii "fixme_need_topic")) payload
          (send_props version source p)
        ∷ (if (get_option opts p.options (ascii "error")).1 then disconn [] ∷ [] else [])
    | _ ↦ []
  ]
