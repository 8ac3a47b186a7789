-- ===== src/Packets/VarInt/RoundTrip.antt =====
-- `read_var_len_int` on what `write_var_len_int` writes.
use knotfreeiot.Base.{ℕ, ◌/◌, ◌^◌, ◌<◌, ◌≡◌, Bytes, ◌++◌, ltb, if◌then◌else◌, arith}
use knotfreeiot.Packets.Io.{ok}
use knotfreeiot.Packets.VarInt.{read_loop, read_var_len_int}
use knotfreeiot.Packets.VarInt.Encoding.{var_len_int}

-- Numbers below 2 ^ 28 are read back; of a larger uint32 the last seven bits are lost, and
-- nothing that follows the number is touched in either case.
pub read-var_len_int :
    (v : ℕ) (rest : Bytes)
    → v < 2 ^ 32
    → read_var_len_int (var_len_int v ++ rest) ≡ ok ((if ltb v (2 ^ 28) then v else v / 128), rest)
unfolding read_var_len_int read_loop var_len_int
read-var_len_int v rest h = ground arith
