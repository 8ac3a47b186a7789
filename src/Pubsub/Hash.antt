-- ===== src/Pubsub/Hash.antt =====
-- `HashType` of iot/hashes.go: 24 bytes as three words. A word is kept as the uint64 that the int64
-- of the source is converted from and to.
pub mod Bytes24
use knotfreeiot.Base.{
  ℕ, zero, suc, ◌+◌, ◌-◌, ◌*◌, ◌/◌, ◌%◌, ◌^◌, ◌≡◌, ◌↔◌, refl, Bytes, [], ◌∷◌, ◌++◌, Option, none,
  some, Bool, true, ◌&&◌, length, take, drop, ltb, ◌==◌, ==_iff, if◌then◌else◌, arith,
}
use knotfreeiot.Base.Keys.{Eq}

abbrev pub hash_type_len : ℕ
hash_type_len = 24

pub record HashType : Type 0 where
  pub h0 : ℕ
  pub h1 : ℕ
  pub h2 : ℕ

-- `binary.BigEndian.Uint64` and `PutUint64`, over any number of bytes.
unfoldable pub be_fold : ℕ → Bytes → ℕ
be_fold acc [] = acc
be_fold acc (b ∷ bs) = be_fold (acc * 256 + b) bs

unfoldable pub be_bytes : ℕ → ℕ → Bytes
be_bytes zero v = []
be_bytes (suc n) v = v / 256 ^ n % 256 ∷ be_bytes n v

-- `InitFromBytes`; `none` is its panic.
unfoldable pub init_from_bytes : Bytes → Option HashType
init_from_bytes bytes =
    if length bytes == hash_type_len
    then some (record {
      h0 = be_fold 0 (take 8 bytes);
      h1 = be_fold 0 (take 8 (drop 8 bytes));
      h2 = be_fold 0 (take 8 (drop 16 bytes));
    })
    else none

-- `GetBytes` into 24 bytes.
unfoldable pub get_bytes : HashType → Bytes
get_bytes h = be_bytes 8 h.h0 ++ (be_bytes 8 h.h1 ++ be_bytes 8 h.h2)

-- `GetHalfHash` and `GetUint64`
abbrev pub get_half_hash : HashType → ℕ
get_half_hash h = h.h0

-- `GetFractionalBits`
unfoldable pub get_fractional_bits : ℕ → HashType → ℕ
get_fractional_bits n h = if ltb n 64 then get_half_hash h / 2 ^ (64 - n) else 0

-- Go's `==` on the arrays.
unfoldable pub hash_beq : HashType → HashType → Bool
hash_beq g h = g.h0 == h.h0 && (g.h1 == h.h1 && g.h2 == h.h2)

pub hash_beq_iff : (g h : HashType) → (hash_beq g h ≡ true) ↔ (g ≡ h)
unfolding hash_beq
hash_beq_iff g h = ground arith

instance abbrev pub hash_eq : Eq HashType
hash_eq = record { beq = hash_beq; beq_iff = hash_beq_iff }
