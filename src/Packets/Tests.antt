-- ===== src/Packets/Tests.antt =====
-- Runs of the code of packets/packets.go, and the theorems at concrete inputs.
use knotfreeiot.Base.{
  ascii, ℕ, zero, suc, ◌/◌, ◌≡◌, ◌^◌, refl, Bytes, List, [], ◌∷◌, ◌++◌, Option, none, some, true,
  ltb, if◌then◌else◌, arith,
}
use knotfreeiot.Base.Keys.{TreeMap, bytes_eq, bytes_beq, nat_eq}
use knotfreeiot.Base.Assoc.{assoc_map}
use knotfreeiot.Packets.Io.{ok, err, too_many_strings, read_error, buffer}
use native.Mathlib.Decide.{dec_lt}
use knotfreeiot.Packets.VarInt.{
  lt_wf, write_var_len_int_acc, write_var_len_int, read_loop, read_var_len_int,
}
use knotfreeiot.Packets.VarInt.Encoding.{var_len_int}
use knotfreeiot.Packets.VarInt.RoundTrip.{read-var_len_int}
use knotfreeiot.Packets.Wire.{
  Universal, write_universal, write_array_of_byte_array, write_lengths, write_bytes, read_universal,
  read_array_of_byte_array, read_lengths, slices,
}
use knotfreeiot.Packets.Wire.Encoding.{Fits, encode}
use knotfreeiot.Packets.Wire.RoundTrip.{read_universal-encode, read_universal-Fits}
use knotfreeiot.Packets.Address.{Codecs, from_bytes, to_bytes, new_address_union}
use knotfreeiot.Packets.Address.Canonical.{IsCanonical, plain}
use knotfreeiot.Packets.Address.Binary.{FillsHash}
use knotfreeiot.Packets.Options.{get_option, set_option, get_option_keys, pack_options, flat}
use knotfreeiot.Packets.Options.Unpack.{get_option-set_option}
use knotfreeiot.Packets.Packet.{
  send, Packet, command, arguments, to_universal, backed, write_packet, read_packet, fill_packet,
}
use knotfreeiot.Packets.Packet.RoundTrip.{SamePacket, read_packet-write_packet}
use knotfreeiot.Packets.Packet.Accepts.{least_args, Outcome, fill_packet-Outcome}

abbrev Assoc : Type 0
Assoc = List (Bytes × Bytes)

abbrev tree : TreeMap Assoc Bytes Bytes
tree = assoc_map

-- "P topic msg" with a return address, as the comment on the protocol spells it
abbrev topic_msg : Universal
topic_msg = record { cmd = b'P'; args = ascii "topic" ∷ ascii "me" ∷ ascii "msg" ∷ [] }

abbrev topic_bytes : Bytes
topic_bytes = b'P' ∷ 3 ∷ 5 ∷ 2 ∷ 3 ∷ ascii "topicmemsg"

topic_msg-Fits : Fits topic_msg
topic_msg-Fits = record { is_byte = omega arith; few = omega arith; short = omega arith }

encode-topic : encode topic_msg ≡ topic_bytes
unfolding var_len_int
encode-topic = refl

read-topic : read_universal topic_bytes ≡ ok (topic_msg, [])
unfolding read_universal read_array_of_byte_array read_lengths slices read_var_len_int read_loop
read-topic = refl

-- A length in a longer form than it needs is accepted.
read_padded :
    read_universal (b'S' ∷ 1 ∷ 0x80 ∷ 1 ∷ b'x' ∷ 9 ∷ [])
    ≡ ok (record { cmd = b'S'; args = ascii "x" ∷ [] }, 9 ∷ [])
unfolding read_universal read_array_of_byte_array read_lengths slices read_var_len_int read_loop
read_padded = refl

read_too_many : read_universal (b'S' ∷ 128 ∷ []) ≡ err too_many_strings
unfolding read_universal read_array_of_byte_array
read_too_many = refl

read_partial : read_universal (b'S' ∷ 1 ∷ 4 ∷ b'x' ∷ []) ≡ err read_error
unfolding read_universal read_array_of_byte_array read_lengths read_var_len_int read_loop
read_partial = refl

abbrev topic_packet : Packet Assoc
topic_packet = record {
  body = send (new_address_union (ascii "topic")) (new_address_union (ascii "me")) (ascii "msg");
  options = none;
  backing = none;
}

write-topic : write_universal buffer topic_msg (some (7 ∷ [])) ≡ ok (some (7 ∷ topic_bytes))
unfolding write_universal write_array_of_byte_array write_lengths write_bytes write_var_len_int
    write_var_len_int_acc lt_wf dec_lt
write-topic = refl

read_universal-encode_example : read_universal (encode topic_msg ++ 9 ∷ []) ≡ ok (topic_msg, 9 ∷ [])
read_universal-encode_example = read_universal-encode topic_msg (9 ∷ []) topic_msg-Fits

read_universal-Fits_example : Fits topic_msg
read_universal-Fits_example = read_universal-Fits topic_bytes topic_msg [] (omega arith) read-topic

read-var_len_int_example :
    read_var_len_int (var_len_int 300 ++ 9 ∷ [])
    ≡ ok ((if ltb 300 (2 ^ 28) then 300 else 300 / 128), 9 ∷ [])
read-var_len_int_example = read-var_len_int 300 (9 ∷ []) (omega arith)

write_300 : write_var_len_int buffer 300 0 [] ≡ ok (130 ∷ 44 ∷ [])
unfolding write_var_len_int write_var_len_int_acc lt_wf dec_lt
write_300 = refl

fill_packet-Outcome_example :
    Outcome tree topic_msg.cmd topic_msg.args
      (least_args topic_msg.cmd)
      (fill_packet tree topic_msg)
fill_packet-Outcome_example = fill_packet-Outcome tree topic_msg

-- stand-ins of the right lengths for the codecs
abbrev zeros : ℕ → Bytes
zeros zero = []
zeros (suc n) = 0 ∷ zeros n

abbrev blank : Codecs
blank = record {
  sha256 = λ bs. zeros 32;
  hex_decode = λ bs. zeros 24;
  base64_decode = λ bs. zeros 24;
  base64_encode = λ bs. zeros 32;
}

blank-FillsHash : FillsHash blank
blank-FillsHash = record {
  sha256_length = λ bs. refl;
  hex_length = λ bs. refl;
  base64_length = λ bs. refl;
}

-- A text that begins with a space loses it on the way.
from_bytes_loses_space :
    from_bytes (to_bytes (new_address_union (ascii " x"))) ≡ new_address_union (ascii "x")
unfolding from_bytes to_bytes new_address_union
from_bytes_loses_space = refl

abbrev some_options : Option Assoc
some_options = some ((ascii "jwtid", ascii "123") ∷ (ascii "noack", ascii "y") ∷ [])

get_option-set_option_example :
    get_option tree (set_option tree (ascii "a") (ascii "1") some_options) (ascii "noack") ≡ (
      if bytes_beq (ascii "a") (ascii "noack")
      then (ascii "1", true)
      else get_option tree some_options (ascii "noack"))
get_option-set_option_example =
    get_option-set_option tree (ascii "a") (ascii "noack") (ascii "1") some_options

write-topic_packet : (write_packet tree buffer topic_packet (some [])).1 ≡ ok (some topic_bytes)
unfolding write_packet backed to_universal command arguments pack_options to_bytes new_address_union
    write_universal write_array_of_byte_array write_lengths write_bytes write_var_len_int
    write_var_len_int_acc lt_wf dec_lt
write-topic_packet = refl

topic_packet-IsCanonical :
    IsCanonical (new_address_union (ascii "topic")) × IsCanonical (new_address_union (ascii "me"))
unfolding new_address_union
topic_packet-IsCanonical = (plain (omega arith), plain (omega arith))

topic_packet-Fits : Fits (to_universal tree topic_packet.body topic_packet.options)
unfolding to_universal command arguments pack_options to_bytes new_address_union
topic_packet-Fits = record { is_byte = omega arith; few = omega arith; short = omega arith }

-- The packet with an option.
abbrev traced : Packet Assoc
traced = record topic_packet { options = some ((ascii "debg", ascii "1") ∷ []) }

abbrev traced_bytes : Bytes
traced_bytes = b'P' ∷ 5 ∷ 5 ∷ 2 ∷ 3 ∷ 4 ∷ 1 ∷ ascii "topicmemsgdebg1"

write-traced : (write_packet tree buffer traced (some [])).1 ≡ ok (some traced_bytes)
unfolding write_packet backed to_universal command arguments pack_options get_option_keys flat
    to_bytes new_address_union write_universal write_array_of_byte_array write_lengths write_bytes
    write_var_len_int write_var_len_int_acc lt_wf dec_lt
write-traced = refl

traced-Fits : Fits (to_universal tree traced.body traced.options)
unfolding to_universal command arguments pack_options get_option_keys flat to_bytes
    new_address_union
traced-Fits = record { is_byte = omega arith; few = omega arith; short = omega arith }

read_packet-write_packet_example :
    (q : Packet Assoc) × (bytes : Bytes) × (traced_bytes ≡ [] ++ bytes)
    × (read_packet tree (bytes ++ 9 ∷ []) ≡ ok (q, 9 ∷ []))
    × SamePacket tree traced q
read_packet-write_packet_example =
    read_packet-write_packet tree buffer traced [] traced_bytes (9 ∷ []) refl
      topic_packet-IsCanonical traced-Fits write-traced
