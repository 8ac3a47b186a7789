-- ===== src/TextProtocol/Tests.antt =====
-- The theorem on lines of words at a concrete input.
use knotfreeiot.Base.{◌≡◌, Bytes, List, [], ◌∷◌, ◌++◌, take, ascii, arith}
use knotfreeiot.Base.Keys.{bytes_eq}
use knotfreeiot.Packets.Packet.{fill_packet}
use knotfreeiot.Pubsub.Tests.{opts}
use knotfreeiot.Badjson.{gives, is_one_of}
use knotfreeiot.Badjson.Spaced.{spaced}
use knotfreeiot.Badjson.Tests.{decode_ascii, decode_ascii-Decodes, texts}
use knotfreeiot.TextProtocol.{from_fill, text2_packet}
use knotfreeiot.TextProtocol.Lines.{filled_up, text2_packet-words}

-- A publish, as it is typed.
abbrev typed : List Bytes
typed = ascii "news" ∷ ascii "me" ∷ ascii "hello" ∷ []

text2_packet-words_example :
    text2_packet opts decode_ascii texts (b'P' ∷ [] ++ spaced typed)
    ≡ gives
        (from_fill (fill_packet opts (record { cmd = b'P'; args = filled_up 64 (take 11 typed) })))
unfolding spaced is_one_of
text2_packet-words_example =
    text2_packet-words opts decode_ascii decode_ascii-Decodes texts b'P' [] typed (ground arith)
      (ground arith) (omega arith)
