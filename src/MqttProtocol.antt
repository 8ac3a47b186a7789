-- ===== src/MqttProtocol.antt =====
-- MQTT clients, iot/mqtt-protocol.go: where a packet ends in a stream, what a packet of theirs becomes,
-- and what they are sent. The packets are those of the package github.com/awootton/libmqtt, as far as
-- they are read or written here.
pub mod Whole
pub mod Up
pub mod Down
pub mod Publish
mod Tests
use knotfreeiot.Base.{ℕ, Bytes, Bool, List, [], ◌∷◌, ◌++◌, Option, ascii}
use knotfreeiot.Packets.Packet.{Packet}

-- The properties of a publish, a subscribe or an unsubscribe; the last have only `user_props`.
pub record Props : Type 0 where
  pub resp_topic : Bytes
  pub correlation_data : Bytes
  pub user_props : List (Bytes × List Bytes)

-- What a client sends. `other` is a packet of a type that is not handled.
pub data Control : Type 0 where
  conn : Bytes → Bytes → ℕ → Control
  publish : Bytes → Bytes → Option Props → Control
  subscribe unsub : List Bytes → Option Props → Control
  ping_req other : Control

-- What a client is sent; a disconnect has its reason, a suback the time.
pub data LibPacket : Type 0 where
  conn_ack ping_resp : LibPacket
  sub_ack : Bytes → LibPacket
  publish : Bytes → Bytes → Option Props → LibPacket
  disconn : Bytes → LibPacket

-- `mqttContact` beside the contact that it stands on. A Go map to true is the list of its keys;
-- `none` is the nil map that the contact of a web socket has.
pub record MqttContact : Type 0 where
  pub proto_version : ℕ
  pub subscriptions : Option (List Bytes)

-- What is done for a client: a packet that is pushed up, one that is written to it, the closing, the
-- panic of an assignment to a nil map.
pub data Action (P : Type 0) : Type 0 where
  push : Packet P → Action P
  write_lib_packet : LibPacket → Action P
  do_close panics : Action P
