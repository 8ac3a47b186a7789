-- ===== src/Packets/Address.antt =====
-- `AddressUnion` of packets/packets.go. The hash, hex and base64 codecs come from outside.
pub mod Canonical
pub mod Binary
use knotfreeiot.Base.{
  ℕ, ◌+◌, ◌*◌, ◌/◌, Bytes, [], ◌∷◌, ◌++◌, ◌&&◌, length, take, ◌==◌, if◌then◌else◌,
}

-- The values of `AddressType`.
abbrev pub binary_address : ℕ
binary_address = 0

abbrev pub hex_address : ℕ
hex_address = b'$'

abbrev pub base64_address : ℕ
base64_address = b'='

abbrev pub utf8_address : ℕ
utf8_address = b' '

abbrev pub hash_type_len : ℕ
hash_type_len = 24

pub record AddressUnion : Type 0 where
  pub address_type : ℕ
  pub bytes : Bytes

-- `NewAddressUnion`
unfoldable pub new_address_union : Bytes → AddressUnion
new_address_union str = record { address_type = utf8_address; bytes = str }

-- `FromBytes`, and `FromString` on the bytes of the string.
unfoldable pub from_bytes : Bytes → AddressUnion
from_bytes [] = record { address_type = utf8_address; bytes = [] }
from_bytes (first ∷ more) =
    if first == binary_address && length more == 24
    then record { address_type = binary_address; bytes = more }
    else if first == hex_address && length more == 48
    then record { address_type = hex_address; bytes = more }
    else if first == base64_address && length more == 32
    then record { address_type = base64_address; bytes = more }
    else if first == utf8_address
    then record { address_type = utf8_address; bytes = more }
    else record { address_type = utf8_address; bytes = first ∷ more }

unfoldable pub to_bytes : AddressUnion → Bytes
to_bytes a = if a.address_type == utf8_address then a.bytes else a.address_type ∷ a.bytes

-- crypto/sha256, encoding/hex and encoding/base64 (the raw URL encoding): what is put into the
-- 24 bytes of the destination, which starts as zeros.
pub record Codecs : Type 0 where
  pub sha256 : Bytes → Bytes
  pub hex_decode : Bytes → Bytes
  pub base64_decode : Bytes → Bytes
  pub base64_encode : Bytes → Bytes

module _ (c : Codecs) where
  -- `String`
  unfoldable pub address_string : AddressUnion → Bytes
  address_string a =
      if a.address_type == binary_address && length a.bytes == 24
      then base64_address ∷ c.base64_encode a.bytes
      else a.address_type ∷ a.bytes

  -- The code behind the `switch`: the address is a string, and is hashed.
  unfoldable pub hash_address : AddressUnion → AddressUnion
  hash_address a = record { address_type = binary_address; bytes = take 24 (c.sha256 a.bytes) }

  unfoldable pub ensure_address_is_binary : AddressUnion → AddressUnion
  unfolding hash_address
  ensure_address_is_binary a =
      if length a.bytes == hash_type_len && a.address_type == binary_address
      then a
      else if a.address_type == hex_address && length a.bytes == hash_type_len * 2
      then record { address_type = binary_address; bytes = c.hex_decode a.bytes }
      else if a.address_type == base64_address && length a.bytes == hash_type_len * 8 / 6
      then record { address_type = binary_address; bytes = c.base64_decode a.bytes }
      else hash_address a
