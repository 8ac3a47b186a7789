-- ===== src/Packets/VarInt.antt =====
-- `WriteVarLenInt` and `ReadVarLenInt` of packets/packets.go: big-endian groups of seven bits, the
-- top bit set on all but the last.
pub mod Encoding
pub mod RoundTrip
use Prim.Native.Nat.{bit_or}
use mathlib.Core.Logic.{dite}
use mathlib.Core.WellFounded.{Acc, WellFounded}
use native.Mathlib.Decide.{dec_lt}
use knotfreeiot.Base.{
  ℕ, zero, suc, ◌+◌, ◌*◌, ◌/◌, ◌%◌, ◌<◌, Bytes, [], ◌∷◌, leb, if◌then◌else◌, arith,
}
use knotfreeiot.Packets.Io.{Result, ok, ◌>>=◌, Writer, read_byte}

acc_below : (k n : ℕ) → n < k → Acc ◌<◌ n
acc_below zero n h = absurd (omega arith)
acc_below (suc k) n h = Acc.intro n (λ m hm. acc_below k m (omega arith))

unfoldable pub lt_wf : WellFounded ◌<◌
unfolding acc_below
lt_wf = record { apply = λ n. acc_below (suc n) n (omega arith) }

pub shift_shrinks : (v : ℕ) → 127 < v → v / 128 < v
shift_shrinks v h = omega arith

module _ {W : Type 0} (writer : Writer W) where
  -- `uintvalue>>7` is `v / 128`, and `uintvalue & 0x7F` is `v % 128`.
  unfoldable pub write_var_len_int_acc : (v mask : ℕ) → Acc ◌<◌ v → W → Result W
  write_var_len_int_acc v mask (Acc.intro _ smaller) w =
      dite (dec_lt 127 v)
        (λ more. write_var_len_int_acc (v / 128) 0x80 (smaller _ (shift_shrinks v more)) w)
        (λ _. ok w)
      >>= λ w'. writer.write w' (bit_or (v % 128) mask ∷ [])

  unfoldable pub write_var_len_int : (v mask : ℕ) → W → Result W
  write_var_len_int v mask w = write_var_len_int_acc v mask (lt_wf.apply v) w

-- The loop, over `remaining`, the byte last read, `aval` and the input. `aval <<= 7` and then `|=`
-- of seven bits is `aval * 128 + …`.
unfoldable pub read_loop : ℕ → ℕ → ℕ → Bytes → Result (ℕ × Bytes)
read_loop zero b aval input = ok (aval, input)
read_loop (suc remaining) b aval input =
    let next =
      read_byte input >>= λ (b', input'). read_loop remaining b' (aval * 128 + b % 128) input' in
    if leb 128 b then next else ok (aval * 128 + b, input)

unfoldable pub read_var_len_int : Bytes → Result (ℕ × Bytes)
read_var_len_int input = read_byte input >>= λ (b, input'). read_loop 4 b 0 input'
