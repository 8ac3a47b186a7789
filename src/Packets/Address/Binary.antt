-- ===== src/Packets/Address/Binary.antt =====
-- What `ensure_address_is_binary` promises.
use knotfreeiot.Base.{◌≡◌, Bytes, ◌∷◌, length, take, length-take, arith}
use knotfreeiot.Packets.Address.{
  AddressUnion, Codecs, binary_address, utf8_address, new_address_union, from_bytes,
  ensure_address_is_binary,
}

-- The codecs fill 24 bytes, and a SHA-256 sum has 32.
pub record FillsHash (c : Codecs) : Type 0 where
  pub sha256_length : (bs : Bytes) → length (c.sha256 bs) ≡ 32
  pub hex_length : (bs : Bytes) → length (c.hex_decode bs) ≡ 24
  pub base64_length : (bs : Bytes) → length (c.base64_decode bs) ≡ 24

module _ (c : Codecs) where
  ensure-binary_lem :
      (a : AddressUnion)
      → a.address_type ≡ binary_address
      → length a.bytes ≡ 24
      → ensure_address_is_binary c a ≡ a
  unfolding ensure_address_is_binary
  ensure-binary_lem a t l = ground arith

module _ (c : Codecs) (fills : FillsHash c) where
  ensure_shape :
      (a : AddressUnion)
      → ((ensure_address_is_binary c a).address_type ≡ binary_address)
        × (length (ensure_address_is_binary c a).bytes ≡ 24)
  unfolding ensure_address_is_binary
  ensure_shape a = ground (
    arith,
    fills.hex_length a.bytes,
    fills.base64_length a.bytes,
    fills.sha256_length a.bytes,
    length-take 24 (c.sha256 a.bytes),
  )

  -- Whatever the address was, it is then binary and 24 bytes long, and a second call changes
  -- nothing.
  pub ensure_binary :
      (a : AddressUnion)
      → ((ensure_address_is_binary c a).address_type ≡ binary_address)
        × (length (ensure_address_is_binary c a).bytes ≡ 24)
        × (ensure_address_is_binary c (ensure_address_is_binary c a) ≡ ensure_address_is_binary c a)
  ensure_binary a =
      let (t, l) = ensure_shape a in (t, l, ensure-binary_lem c (ensure_address_is_binary c a) t l)

module _ (c : Codecs) where
  -- A text is hashed: it becomes the first 24 bytes of the SHA-256 sum of its bytes, and a text
  -- given with the escaping space in front becomes the same.
  pub ensure_text :
      (str : Bytes)
      → (ensure_address_is_binary c (new_address_union str)
          ≡ record { address_type = binary_address; bytes = take 24 (c.sha256 str) })
        × (ensure_address_is_binary c (from_bytes (utf8_address ∷ str))
            ≡ ensure_address_is_binary c (new_address_union str))
  unfolding ensure_address_is_binary new_address_union from_bytes
  ensure_text str = (ground arith, ground arith)
