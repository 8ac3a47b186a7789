-- ===== src/MqttProtocol/Up.antt =====
-- `MQTTHandlePacket`. The method DoClosingWork of the contact is never called, and is left out.
use knotfreeiot.Base.{
  Bytes, Bool, not, ◌&&◌, List, [], ◌∷◌, ◌++◌, Option, none, some, length, map, ◌==◌, if◌then◌else◌,
  ascii,
}
use knotfreeiot.Base.Keys.{TreeMap, bytes_beq, bytes_eq}
use knotfreeiot.Packets.Address.{AddressUnion, binary_address, from_bytes}
use knotfreeiot.Packets.Options.{set_option, get_option}
use knotfreeiot.Packets.Packet.{Packet, Body}
use knotfreeiot.LookMsg.Maps.Split.{joined}
use knotfreeiot.MqttProtocol.{
  Props, Control, conn_ack, ping_resp, sub_ack, MqttContact, Action, push, write_lib_packet,
  do_close, panics,
}

-- `fmt.Sprint` of a list of texts.
unfoldable pub sprint : List Bytes → Bytes
sprint values = b'[' ∷ (joined values ++ b']' ∷ [])

-- `delete`, and the assignment of true, on the keys of a map.
unfoldable pub deleted : Bytes → List Bytes → List Bytes
deleted topic [] = []
deleted topic (t ∷ ts) = let rest = deleted topic ts in if bytes_beq t topic then rest else t ∷ rest

unfoldable pub added : Bytes → List Bytes → List Bytes
unfolding deleted
added topic ts = topic ∷ deleted topic ts

-- An address that is not set.
abbrev pub no_address : AddressUnion
no_address = record { address_type = binary_address; bytes = [] }

module _ {P : Type 0} (opts : TreeMap P Bytes Bytes) where
  -- The loop over the user properties.
  unfoldable pub copy_props : List (Bytes × List Bytes) → Option P → Option P
  unfolding sprint
  copy_props [] o = o
  copy_props ((k, v) ∷ more) o = copy_props more (set_option opts k (sprint v) o)

  unfoldable pub user_options : Option Props → Option P
  user_options none = none
  user_options (some props) = copy_props props.user_props none

  abbrev pub with_options : Body → Option P → Packet P
  with_options body o = record { body = body; options = o; backing = none }

  unfoldable pub connect_packet : Bytes → Bytes → Packet P
  connect_packet username password =
      with_options Body.connect
        (set_option opts (ascii "token") (if length password == 0 then username else password) none)

  -- The publish as a Send.
  unfoldable pub send_of : Bytes → Bytes → Option Props → Packet P
  unfolding copy_props
  send_of topic payload none = with_options (Body.send (from_bytes topic) no_address payload) none
  send_of topic payload (some props) =
      let o = copy_props props.user_props none in
      with_options (Body.send (from_bytes topic) (from_bytes props.resp_topic) payload) (
        if length props.correlation_data == 0
        then o
        else set_option opts (ascii "CorrelationData") props.correlation_data o)

  abbrev pub resp_topic_of : Option Props → Bytes
  resp_topic_of none = []
  resp_topic_of (some props) = props.resp_topic

  -- A ping of the api to the topic "anonymous" goes back to the sender.
  unfoldable pub is_ping : Bytes → Packet P → Bool
  is_ping topic p =
      let (bytes, ok) = get_option opts p.options (ascii "api1") in
      (ok && bytes_beq bytes (ascii "[ping]")) && bytes_beq topic (ascii "anonymous")

  -- The change of the address, which is made before the nonce is looked for.
  unfoldable pub returned : Bytes → Option Props → Packet P → Packet P
  returned payload props p = record p {
    body = Body.send (from_bytes (resp_topic_of props)) (from_bytes (resp_topic_of props)) payload;
  }

  abbrev pub with_api : Bytes → Packet P → Packet P
  with_api nonce p = record p { options = set_option opts (ascii "api1") nonce p.options }

  -- The options go to the Send, which is not pushed then.
  unfoldable pub lookup_of : Bytes → Option Props → Packet P
  lookup_of topic none = with_options (Body.lookup (from_bytes topic) no_address) none
  lookup_of topic (some props) =
      with_options (Body.lookup (from_bytes topic) (from_bytes props.resp_topic)) none

  unfoldable pub send_up : Bytes → Option Props → Packet P → Action P
  send_up topic props p =
      let (bytes, ok) = get_option opts p.options (ascii "lookup") in
      if ok && bytes_beq bytes (ascii "lookup") then push (lookup_of topic props) else push p

  unfoldable pub handle_publish : Bytes → Bytes → Option Props → Action P
  handle_publish topic payload props =
      let p = send_of topic payload props in
      let back = returned payload props p in
      let (nonce, has_nonce) = get_option opts p.options (ascii "nonc") in
      if not (is_ping topic p)
      then send_up topic props p
      else if has_nonce
      then push (with_api nonce back)
      else send_up topic props back

  unfoldable pub subscribe_packet : Option Props → Bytes → Packet P
  subscribe_packet props topic =
      with_options (Body.subscribe (from_bytes topic)) (user_options props)

  unfoldable pub unsubscribe_packet : Option Props → Bytes → Packet P
  unsubscribe_packet props topic =
      with_options (Body.unsubscribe (from_bytes topic)) (user_options props)

  -- The loop over the topics of a subscribe, with the packet of each; on a nil map it panics.
  unfoldable pub add_all :
      Option Props
      → List Bytes
      → Option (List Bytes)
      → Option (Option (List Bytes) × List (Action P))
  unfolding added
  add_all props [] subs = some (subs, [])
  add_all props (t ∷ ts) none = none
  add_all props (t ∷ ts) (some subs) = elim (add_all props ts (some (added t subs))) [
    | none ↦ none
    | some (subs', actions) ↦ some (subs', push (subscribe_packet props t) ∷ actions)
  ]

  -- `delete` does nothing on a nil map.
  unfoldable pub delete_all : List Bytes → Option (List Bytes) → Option (List Bytes)
  delete_all ts none = none
  delete_all [] (some subs) = some subs
  delete_all (t ∷ ts) (some subs) = delete_all ts (some (deleted t subs))

  -- `time` is the text of the clock. `push_fails` is whether the push of a Connect returns an error.
  unfoldable pub mqtt_handle_packet :
      Bytes → Bool → Control → MqttContact → MqttContact × List (Action P)
  mqtt_handle_packet time push_fails (Control.conn username password version) con =
      let con' = record con { proto_version = version } in
      (
        con',
        push (connect_packet username password)
            ∷ (if push_fails then do_close ∷ [] else write_lib_packet conn_ack ∷ []),
      )
  mqtt_handle_packet time push_fails (Control.publish topic payload props) con =
      (con, handle_publish topic payload props ∷ [])
  mqtt_handle_packet time push_fails (Control.subscribe topics props) con =
      elim (add_all props topics con.subscriptions) [
        | none ↦ (con, panics ∷ [])
        | some (subs, actions) ↦
            (record con { subscriptions = subs }, actions ++ write_lib_packet (sub_ack time) ∷ [])
      ]
  mqtt_handle_packet time push_fails (Control.unsub topics props) con = (
    record con { subscriptions = delete_all topics con.subscriptions },
    map (λ (t : Bytes). push (unsubscribe_packet props t)) topics,
  )
  mqtt_handle_packet time push_fails Control.ping_req con = (con, write_lib_packet ping_resp ∷ [])
  mqtt_handle_packet time push_fails Control.other con = (con, do_close ∷ [])
