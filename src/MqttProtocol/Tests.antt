-- ===== src/MqttProtocol/Tests.antt =====
-- MQTT packets and packets of this program as they are read and written: the inputs at which the
-- theorems on MQTT are applied.
use knotfreeiot.Base.{
  ◌+◌, ◌≡◌, refl, Bytes, true, false, [], ◌∷◌, ◌++◌, none, some, length, ltb, ◌==◌, if◌then◌else◌,
  ◌||◌, ascii, arith,
}
use knotfreeiot.Base.Keys.{bytes_beq, bytes_eq}
use knotfreeiot.Packets.Address.{from_bytes}
use knotfreeiot.Packets.Options.{get_option, set_option}
use knotfreeiot.Packets.Packet.{Body}
use knotfreeiot.Pubsub.Tests.{opts, zeros}
use knotfreeiot.MqttProtocol.{Props, Control, push, Action}
use knotfreeiot.MqttProtocol.Up.{
  send_of, handle_publish, is_ping, returned, copy_props, sprint, mqtt_handle_packet, add_all,
  added, send_up,
}
use knotfreeiot.MqttProtocol.Down.{UserProps}
use knotfreeiot.MqttProtocol.Whole.{is_whole_mqtt_packet, read_message, web_socket_loop, panics}
use knotfreeiot.MqttProtocol.Whole.Framed.{value, is_whole_mqtt_packet-exactly}
use knotfreeiot.MqttProtocol.Whole.Stream.{concat, web_socket_loop-concat}

-- A ping is two bytes, and is not seen alone.
ping_alone : is_whole_mqtt_packet (0xc0 ∷ 0 ∷ []) ≡ (false, 0)
unfolding is_whole_mqtt_packet
ping_alone = refl

-- A length of ten bytes that is negative.
too_long :
    read_message []
      (0x30 ∷ 0x80 ∷ 0x80 ∷ 0x80 ∷ 0x80 ∷ 0x80 ∷ 0x80 ∷ 0x80 ∷ 0x80 ∷ 0x80 ∷ 1 ∷ 0 ∷ [])
    ≡ panics
unfolding read_message is_whole_mqtt_packet
too_long = refl

is_whole_mqtt_packet-exactly_example :
    is_whole_mqtt_packet (0x30 ∷ ((0x81 ∷ 1 ∷ []) ++ zeros 130)) ≡ (
      if length (zeros 130) == 0 || ltb (length (zeros 130)) (value (0x81 ∷ 1 ∷ []))
      then (false, 0)
      else (true, 1 + 2 + value (0x81 ∷ 1 ∷ [])))
is_whole_mqtt_packet-exactly_example =
    is_whole_mqtt_packet-exactly 0x30 (0x81 ∷ 1 ∷ []) (zeros 130) (omega arith) (omega arith)

-- Two pings in three messages, and the first byte of a third one.
web_socket_loop-concat_example :
    concat ((0xc0 ∷ 0 ∷ []) ∷ (0xc0 ∷ 0 ∷ []) ∷ []) ++ 0xc0 ∷ []
    ≡ [] ++ concat ((0xc0 ∷ []) ∷ (0 ∷ 0xc0 ∷ []) ∷ (0 ∷ 0xc0 ∷ []) ∷ [])
unfolding web_socket_loop read_message is_whole_mqtt_packet
web_socket_loop-concat_example =
    web_socket_loop-concat ((0xc0 ∷ []) ∷ (0 ∷ 0xc0 ∷ []) ∷ (0 ∷ 0xc0 ∷ []) ∷ []) []
      ((0xc0 ∷ 0 ∷ []) ∷ (0xc0 ∷ 0 ∷ []) ∷ []) (0xc0 ∷ []) refl

abbrev appended : Bytes → Bytes → UserProps → UserProps
appended key val props = props ++ (key, val ∷ []) ∷ []

abbrev answer_me : Props
answer_me = record {
  resp_topic = ascii "me";
  correlation_data = 1 ∷ 2 ∷ [];
  user_props = (ascii "color", ascii "red" ∷ ascii "blue" ∷ []) ∷ [];
}

-- A ping to "anonymous" without a nonce goes to the sender as it is.
no_nonce :
    handle_publish opts
      (ascii "anonymous")
      (ascii "hello")
      (some (record answer_me { user_props = (ascii "api1", ascii "ping" ∷ []) ∷ [] }))
    ≡ push
        (record (send_of opts
          (ascii "anonymous")
          (ascii "hello")
          (some (record answer_me { user_props = (ascii "api1", ascii "ping" ∷ []) ∷ [] }))) {
            body = Body.send (from_bytes (ascii "me")) (from_bytes (ascii "me")) (ascii "hello");
          })
unfolding handle_publish send_up is_ping returned send_of copy_props sprint set_option get_option
    bytes_beq
no_nonce = refl

-- A web socket has no map for its subscriptions.
no_map :
    (mqtt_handle_packet opts [] false
      (Control.subscribe (ascii "a" ∷ []) none)
      (record { proto_version = 5; subscriptions = none })).1
    ≡ Action.panics ∷ []
unfolding mqtt_handle_packet add_all added
no_map = refl
