-- ===== src/Packets/Wire.antt =====
-- The `Universal` packet and its binary form: a command byte, the number of strings, their lengths,
-- and their bytes (packets/packets.go).
pub mod Encoding
pub mod RoundTrip
use knotfreeiot.Base.{
  ℕ, zero, suc, ◌+◌, ◌%◌, ◌^◌, Bytes, List, [], ◌∷◌, Option, none, some, length, take, drop, sum,
  leb, if◌then◌else◌,
}
use knotfreeiot.Packets.Io.{
  Result, ok, err, too_many_args, too_many_strings, packet_too_long, ◌>>=◌, Writer, read_byte,
  read_full,
}
use knotfreeiot.Packets.VarInt.{write_var_len_int, read_var_len_int}

-- A command is the code of its letter.
pub record Universal : Type 0 where
  pub cmd : ℕ
  pub args : List Bytes

module _ {W : Type 0} (writer : Writer W) where
  -- `uint32(len(args[i]))` is the length modulo 2^32.
  unfoldable pub write_lengths : List Bytes → W → Result W
  write_lengths [] w = ok w
  write_lengths (a ∷ args) w =
      write_var_len_int writer (length a % 2 ^ 32) 0x00 w >>= λ w'. write_lengths args w'

  unfoldable pub write_bytes : List Bytes → W → Result W
  write_bytes [] w = ok w
  write_bytes (a ∷ args) w = writer.write w a >>= λ w'. write_bytes args w'

  unfoldable pub write_array_of_byte_array : List Bytes → W → Result W
  write_array_of_byte_array args w = if leb 128 (length args) then err too_many_args else (do
    w₁ ← writer.write w (length args % 256 ∷ [])
    w₂ ← write_lengths args w₁
    write_bytes args w₂)

  -- `none` is the nil writer.
  unfoldable pub write_universal : Universal → Option W → Result (Option W)
  write_universal u none = ok none
  write_universal u (some w) = do
    w₁ ← writer.write w (u.cmd % 256 ∷ [])
    w₂ ← write_array_of_byte_array u.args w₁
    ok (some w₂)

-- The first loop of `ReadArrayOfByteArray`; `total` is the sum of what it returns.
unfoldable pub read_lengths : ℕ → Bytes → Result (List ℕ × Bytes)
read_lengths zero input = ok ([], input)
read_lengths (suc n) input = do
  (len, input') ← read_var_len_int input
  (lengths, input'') ← read_lengths n input'
  ok (len ∷ lengths, input'')

-- The last loop: `bytes[position : position+lengths[i]]`.
unfoldable pub slices : List ℕ → ℕ → Bytes → List Bytes
slices [] position bytes = []
slices (len ∷ lengths) position bytes =
    take len (drop position bytes) ∷ slices lengths (position + len) bytes

-- `argsLen&0x80 != 0` is `128 <= argsLen` for a byte. `io.ReadFull` returns `total` bytes or an
-- error, so the test `n != total` behind it is never true.
unfoldable pub read_array_of_byte_array : Bytes → Result (List Bytes × Bytes)
read_array_of_byte_array input = do
  (args_len, input₁) ← read_byte input
  if leb 128 args_len then err too_many_strings else do
    (lengths, input₂) ← read_lengths args_len input₁
    if leb 8000000 (sum lengths) then err packet_too_long else do
      (bytes, input₃) ← read_full (sum lengths) input₂
      ok (slices lengths 0 bytes, input₃)

unfoldable pub read_universal : Bytes → Result (Universal × Bytes)
read_universal input = do
  (cmd, input₁) ← read_byte input
  (args, input₂) ← read_array_of_byte_array input₁
  ok (record { cmd = cmd; args = args }, input₂)
