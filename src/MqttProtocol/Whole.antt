-- ===== src/MqttProtocol/Whole.antt =====
-- `IsWholeMqttPacket`, and the buffer of `WebSocketLoop`. An `int` is its 64 bits.
pub mod Framed
pub mod Stream
use knotfreeiot.Base.{
  ℕ, zero, suc, ◌+◌, ◌*◌, ◌%◌, ◌^◌, Bytes, Bool, true, false, ◌&&◌, List, [], ◌∷◌, ◌++◌, Option,
  none, some, length, take, drop, ltb, if◌then◌else◌,
}

-- The loop that gets the length, from the byte at `i` on: where it stops, and the length. `none` is
-- the return in the loop, where no byte follows the one that was read.
unfoldable pub length_loop : Bytes → ℕ → ℕ → ℕ → Option (ℕ × ℕ)
length_loop (tmp ∷ next ∷ rest) i len shift =
    let len' = (len + tmp % 128 * 2 ^ shift) % 2 ^ 64 in
    let more = length_loop (next ∷ rest) (i + 1) len' (shift + 7) in
    if ltb tmp 128 then some (i + 1, len') else more
length_loop _ i len shift = none

-- The end of the packet, and whether the data go so far. An end from 2 ^ 63 on is negative.
unfoldable pub has_all : Bytes → Option (ℕ × ℕ) → Bool × ℕ
has_all data_ none = (false, 0)
has_all data_ (some (i, len)) =
    let end = (i + len) % 2 ^ 64 in
    if ltb end (2 ^ 63) && ltb (length data_) end then (false, 0) else (true, end)

unfoldable pub is_whole_mqtt_packet : Bytes → Bool × ℕ
unfolding length_loop has_all
is_whole_mqtt_packet (command ∷ first ∷ rest) =
    has_all (command ∷ first ∷ rest) (length_loop (first ∷ rest) 1 0 0)
is_whole_mqtt_packet _ = (false, 0)

-- What a message of the socket leads to: nothing yet, a packet, or the panic of a slice whose end is
-- negative.
pub data Read : Type 0 where
  waits : Bytes → Read
  packet : Bytes → Bytes → Read
  panics : Read

-- A message comes behind what is in `wsBuffer`. A packet is cut off, and the rest stays there.
unfoldable pub read_message : Bytes → Bytes → Read
read_message ws_buffer message =
    let current_bytes = ws_buffer ++ message in
    let (ok, plen) = is_whole_mqtt_packet current_bytes in
    if ok
    then (if ltb plen (2 ^ 63)
        then packet (take plen current_bytes) (drop plen current_bytes)
        else panics)
    else waits current_bytes

-- The loop over the messages, for packets that libmqtt decodes: the packets that are handled, and what
-- is left in the buffer. `none` is the panic.
unfoldable pub web_socket_loop : Bytes → List Bytes → Option (List Bytes × Bytes)
web_socket_loop ws_buffer [] = some ([], ws_buffer)
web_socket_loop ws_buffer (message ∷ messages) = elim (read_message ws_buffer message) [
  | waits buffer ↦ web_socket_loop buffer messages
  | packet p buffer ↦ elim (web_socket_loop buffer messages) [
    | none ↦ none
    | some (packets, left) ↦ some (p ∷ packets, left)
  ]
  | panics ↦ none
]
