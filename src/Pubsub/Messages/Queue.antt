-- ===== src/Pubsub/Messages/Queue.antt =====
-- Every packet with an address reaches a bucket.
use knotfreeiot.Base.{
  ℕ, zero, suc, ◌<◌, ◌≤◌, ◌≡◌, refl, ◌^◌, Bytes, [], ◌∷◌, length, take, drop, length-take,
  length-drop, All, some, arith,
}
use knotfreeiot.Packets.Address.{AddressUnion, Codecs, ensure_address_is_binary}
use knotfreeiot.Packets.Address.Binary.{FillsHash, ensure_binary}
use knotfreeiot.Packets.Packet.{Packet}
use knotfreeiot.Pubsub.Hash.{HashType, be_fold, init_from_bytes, get_fractional_bits}
use knotfreeiot.Pubsub.Hash.Bytes24.{IsWords}
use knotfreeiot.Pubsub.Table.{the_buckets_size, the_buckets_size_log2, bucket_index-lt}
use knotfreeiot.Pubsub.Messages.{Message, address_of, set_address, queued}

-- A byte is below 256.
abbrev pub IsBytes : Bytes → Type 0
IsBytes bs = All (λ b. b < 256) bs

be_fold-lt : (bs : Bytes) → IsBytes bs → length bs ≡ 8 → be_fold 0 bs < 2 ^ 64
unfolding be_fold
be_fold-lt (a ∷ b ∷ c ∷ d ∷ e ∷ f ∷ g ∷ h ∷ []) all l = omega arith
be_fold-lt _ all l = absurd (omega arith)

take-IsBytes : (n : ℕ) (bs : Bytes) → IsBytes bs → IsBytes (take n bs)
take-IsBytes zero bs all = tt
take-IsBytes (suc n) [] all = tt
take-IsBytes (suc n) (b ∷ bs) (hb, hs) = (hb, take-IsBytes n bs hs)

drop-IsBytes : (n : ℕ) (bs : Bytes) → IsBytes bs → IsBytes (drop n bs)
drop-IsBytes zero bs all = all
drop-IsBytes (suc n) [] all = tt
drop-IsBytes (suc n) (b ∷ bs) (hb, hs) = drop-IsBytes n bs hs

-- 24 bytes make a hash of three uint64s.
init_from_bytes-IsWords :
    (bs : Bytes)
    → IsBytes bs
    → length bs ≡ 24
    → (h : HashType) × (init_from_bytes bs ≡ some h) × IsWords h
unfolding init_from_bytes
init_from_bytes-IsWords bs all l =
    let eight : (n : ℕ) → n ≤ 16 → be_fold 0 (take 8 (drop n bs)) < 2 ^ 64 = λ n le.
      be_fold-lt (take 8 (drop n bs)) (take-IsBytes 8 _ (drop-IsBytes n bs all))
        (omega (arith, length-take 8 (drop n bs), length-drop n bs)) in
    (
      _,
      rw l refl,
      record {
        w0 = eight 0 (omega arith);
        w1 = eight 8 (omega arith);
        w2 = eight 16 (omega arith);
      },
    )

-- What the codecs give are bytes.
pub record GivesBytes (c : Codecs) : Type 0 where
  pub sha256_bytes : (bs : Bytes) → IsBytes (c.sha256 bs)
  pub hex_bytes : (bs : Bytes) → IsBytes (c.hex_decode bs)
  pub base64_bytes : (bs : Bytes) → IsBytes (c.base64_decode bs)

pub ensure-IsBytes :
    (c : Codecs) (a : AddressUnion)
    → GivesBytes c
    → IsBytes a.bytes
    → IsBytes (ensure_address_is_binary c a).bytes
unfolding ensure_address_is_binary
ensure-IsBytes c a gives all = ground (
  arith,
  gives.hex_bytes a.bytes,
  gives.base64_bytes a.bytes,
  take-IsBytes 24 (c.sha256 a.bytes) (gives.sha256_bytes a.bytes),
)

module _ {P : Type 0} (c : Codecs) where
  -- Whatever its address, a packet is put into a bucket that there is, as a message under the hash
  -- of its address, which is now the 24 bytes of that hash: no panic.
  pub queued-bucket :
      (topics : ℕ) (make : HashType → Packet P → Message P) (p : Packet P)
      → FillsHash c
      → GivesBytes c
      → IsBytes (address_of p.body).bytes
      → (h : HashType) × IsWords h
        × (init_from_bytes (ensure_address_is_binary c (address_of p.body)).bytes ≡ some h)
        × (queued c (the_buckets_size_log2 topics) make p
            ≡ some (
              get_fractional_bits (the_buckets_size_log2 topics) h,
              make h (record p {
                body = set_address (ensure_address_is_binary c (address_of p.body)) p.body;
              }),
            ))
        × (get_fractional_bits (the_buckets_size_log2 topics) h < the_buckets_size topics)
  unfolding queued
  queued-bucket topics make p fills gives bytes =
      let a = address_of p.body in
      let (_, length24, _) = ensure_binary c fills a in
      let (h, e, words) =
        init_from_bytes-IsWords (ensure_address_is_binary c a).bytes
          (ensure-IsBytes c a gives bytes) length24 in
      (h, words, e, rw (e, queued) refl, bucket_index-lt topics h words)
