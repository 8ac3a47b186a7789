-- ===== src/Pubsub/Hash/Bytes24.antt =====
-- The 24 bytes of a hash and its three words, and the range of the bucket index.
use knotfreeiot.Base.{ℕ, ◌^◌, ◌<◌, ◌≡◌, Bytes, ◌↔◌, ◌≢◌, none, some, length, arith}
use knotfreeiot.Pubsub.Hash.{HashType, be_fold, be_bytes, init_from_bytes, get_bytes}

word : (v : ℕ) → v < 2 ^ 64 → be_fold 0 (be_bytes 8 v) ≡ v
unfolding be_fold be_bytes
word v h = omega arith

-- The words of a hash are uint64s.
pub record IsWords (h : HashType) : Type 0 where
  pub w0 : h.h0 < 2 ^ 64
  pub w1 : h.h1 < 2 ^ 64
  pub w2 : h.h2 < 2 ^ 64

-- A hash is read back from its bytes.
pub init_from_bytes-get_bytes : (h : HashType) → IsWords h → init_from_bytes (get_bytes h) ≡ some h
unfolding init_from_bytes get_bytes be_fold be_bytes
init_from_bytes-get_bytes h w = ground (arith, word h.h0 w.w0, word h.h1 w.w1, word h.h2 w.w2)

-- Only 24 bytes make a hash.
pub init_from_bytes_total : (bytes : Bytes) → (init_from_bytes bytes ≡ none) ↔ (length bytes ≢ 24)
unfolding init_from_bytes
init_from_bytes_total bytes = ground arith
