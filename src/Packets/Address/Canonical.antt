-- ===== src/Packets/Address/Canonical.antt =====
-- Which addresses survive a trip over the wire.
use knotfreeiot.Base.{
  ℕ, ◌≡◌, ◌≢◌, inl, inr, refl, Bytes, [], ◌∷◌, length, ◌&&◌, ◌==◌, false, Bool-cases, if◌then◌else◌,
  arith,
}
use knotfreeiot.Packets.Address.{
  AddressUnion, binary_address, hex_address, base64_address, utf8_address, from_bytes, to_bytes,
}

-- Text that is not taken for a coded address, and does not begin with a space.
abbrev pub IsPlain : Bytes → Type 0
IsPlain [] = Unit {0}
IsPlain (first ∷ more) =
    (first ≢ utf8_address)
    × ¬ ((first ≡ binary_address) × (length more ≡ 24))
    × ¬ ((first ≡ hex_address) × (length more ≡ 48))
    × ¬ ((first ≡ base64_address) × (length more ≡ 32))

pub data IsCanonical : AddressUnion → Type 0 where
  binary :
      {bs : Bytes}
      → length bs ≡ 24
      → IsCanonical (record { address_type = binary_address; bytes = bs })
  hex :
      {bs : Bytes}
      → length bs ≡ 48
      → IsCanonical (record { address_type = hex_address; bytes = bs })
  base64 :
      {bs : Bytes}
      → length bs ≡ 32
      → IsCanonical (record { address_type = base64_address; bytes = bs })
  plain :
      {bs : Bytes} → IsPlain bs → IsCanonical (record { address_type = utf8_address; bytes = bs })

from_bytes-plain :
    (bs : Bytes) → IsPlain bs → from_bytes bs ≡ record { address_type = utf8_address; bytes = bs }
unfolding from_bytes
from_bytes-plain [] h = refl
from_bytes-plain (first ∷ more) h = ground arith

-- A canonical address is read back from its bytes.
pub from_bytes-to_bytes : {a : AddressUnion} → IsCanonical a → from_bytes (to_bytes a) ≡ a
unfolding from_bytes to_bytes
from_bytes-to_bytes (binary h) = ground arith
from_bytes-to_bytes (hex h) = ground arith
from_bytes-to_bytes (base64 h) = ground arith
from_bytes-to_bytes (plain {bs} h) = from_bytes-plain bs h

-- `from_bytes` gives a canonical address for all input that does not begin with a space.
pub from_bytes-IsCanonical :
    (first : ℕ) (more : Bytes) → first ≢ utf8_address → IsCanonical (from_bytes (first ∷ more))
unfolding from_bytes
from_bytes-IsCanonical first more h =
    elim (Bool-cases (first == binary_address && length more == 24)) [
      | inl e ↦ rw e (binary (ground arith))
      | inr n₁ ↦ rw n₁ (elim (Bool-cases (first == hex_address && length more == 48)) [
        | inl e ↦ rw e (hex (ground arith))
        | inr n₂ ↦ rw n₂ (elim (Bool-cases (first == base64_address && length more == 32)) [
          | inl e ↦ rw e (base64 (ground arith))
          | inr n₃ ↦ rw n₃ (rest n₁ n₂ n₃)
        ])
      ])
    ]
  where
    rest :
        (first == binary_address && length more == 24) ≡ false
        → (first == hex_address && length more == 48) ≡ false
        → (first == base64_address && length more == 32) ≡ false
        → IsCanonical (
            if first == utf8_address
            then record { address_type = utf8_address; bytes = more }
            else record { address_type = utf8_address; bytes = first ∷ more })
    rest n₁ n₂ n₃ =
        let text : (first == utf8_address) ≡ false = ground arith in
        rw text (plain (h, ground arith, ground arith, ground arith))
