-- ===== src/Packets/Wire/Encoding.antt =====
-- The bytes that a packet becomes, and that the writers write exactly those.
use knotfreeiot.Base.{
  ◌%◌, ◌^◌, ◌<◌, ◌≡◌, refl, ◌∙◌, Bytes, List, [], ◌∷◌, ◌++◌, some, length, sum, map, leb, false,
  append-nil, append_assoc, arith,
}
use knotfreeiot.Packets.Io.{ok, bind-eq-ok, Writer}
use knotfreeiot.Packets.VarInt.{write_var_len_int}
use knotfreeiot.Packets.VarInt.Encoding.{
  var_len_int, written-write_var_len_int, write_var_len_int-total,
}
use knotfreeiot.Packets.Wire.{
  Universal, write_lengths, write_bytes, write_array_of_byte_array, write_universal,
}

abbrev pub lengths_of : List Bytes → Bytes
lengths_of [] = []
lengths_of (a ∷ args) = var_len_int (length a) ++ lengths_of args

abbrev pub bytes_of : List Bytes → Bytes
bytes_of [] = []
bytes_of (a ∷ args) = a ++ bytes_of args

-- The whole packet.
abbrev pub encode : Universal → Bytes
encode u = u.cmd ∷ length u.args ∷ (lengths_of u.args ++ bytes_of u.args)

-- What `ReadArrayOfByteArray` accepts: a byte for the command, at most 127 strings, and less than
-- eight million bytes of them.
pub record Fits (u : Universal) : Type 0 where
  pub is_byte : u.cmd < 256
  pub few : length u.args < 128
  pub short : sum (map length u.args) < 8000000

module _ {W : Type 0} (writer : Writer W) where
  written-lengths :
      (args : List Bytes) (w w' : W)
      → sum (map length args) < 8000000
      → write_lengths writer args w ≡ ok w'
      → writer.written w' ≡ writer.written w ++ lengths_of args
  unfolding write_lengths
  written-lengths [] w w' h e = cc (append-nil (writer.written w))
  written-lengths (a ∷ args) w w' h e =
      let (u, e1, e2) = bind-eq-ok (write_var_len_int writer (length a % 2 ^ 32) 0x00 w) _ e in
      let fits : length a % 2 ^ 32 ≡ length a = omega arith in
      written-lengths args u w' (omega arith) e2
      ∙ rw (written-write_var_len_int writer (length a) w u (omega arith) (rw fits at e1))
          (append_assoc (writer.written w) (var_len_int (length a)) (lengths_of args))

  written-bytes :
      (args : List Bytes) (w w' : W)
      → write_bytes writer args w ≡ ok w'
      → writer.written w' ≡ writer.written w ++ bytes_of args
  unfolding write_bytes
  written-bytes [] w w' e = cc (append-nil (writer.written w))
  written-bytes (a ∷ args) w w' e =
      let (u, e1, e2) = bind-eq-ok (writer.write w a) _ e in
      written-bytes args u w' e2
      ∙ rw (writer.write_appends w u a e1) (append_assoc (writer.written w) a (bytes_of args))

  written-array :
      (args : List Bytes) (w w' : W)
      → length args < 128
      → sum (map length args) < 8000000
      → write_array_of_byte_array writer args w ≡ ok w'
      → writer.written w' ≡ writer.written w ++ (length args ∷ (lengths_of args ++ bytes_of args))
  unfolding write_array_of_byte_array
  written-array args w w' few short e =
      let small : leb 128 (length args) ≡ false = ground arith in
      let (w₁, e₁, r₁) = bind-eq-ok (writer.write w (length args % 256 ∷ [])) _ (rw small at e) in
      let (w₂, e₂, r₂) = bind-eq-ok (write_lengths writer args w₁) _ r₁ in
      let fits : length args % 256 ≡ length args = omega arith in
      let count = rw fits at (writer.write_appends w w₁ _ e₁) in
      written-bytes args w₂ w' r₂
      ∙ rw (written-lengths args w₁ w₂ short e₂) (rw count (simp append_assoc))

  -- A write that reports no error has appended the whole packet.
  pub written-write_universal :
      (u : Universal) (w w' : W)
      → Fits u
      → write_universal writer u (some w) ≡ ok (some w')
      → writer.written w' ≡ writer.written w ++ encode u
  unfolding write_universal
  written-write_universal u w w' h e =
      let (w₁, e₁, r₁) = bind-eq-ok (writer.write w (u.cmd % 256 ∷ [])) _ e in
      let (w₂, e₂, r₂) = bind-eq-ok (write_array_of_byte_array writer u.args w₁) _ r₁ in
      let same : w₂ ≡ w' = cc r₂ in
      let fits : u.cmd % 256 ≡ u.cmd = omega arith in
      let cmd = rw fits at (writer.write_appends w w₁ _ e₁) in
      rw (← same) (written-array u.args w₁ w₂ h.few h.short e₂ ∙ rw cmd (simp append_assoc))

module _ {W : Type 0} (writer : Writer W)
    (never_fails : (w : W) (bs : Bytes) → (w' : W) × (writer.write w bs ≡ ok w')) where
  total-lengths : (args : List Bytes) (w : W) → (w' : W) × (write_lengths writer args w ≡ ok w')
  unfolding write_lengths
  total-lengths [] w = (w, refl)
  total-lengths (a ∷ args) w =
      let (u, e) = write_var_len_int-total writer never_fails (length a % 2 ^ 32) 0x00 w in
      let (w', e') = total-lengths args u in (w', rw e e')

  total-bytes : (args : List Bytes) (w : W) → (w' : W) × (write_bytes writer args w ≡ ok w')
  unfolding write_bytes
  total-bytes [] w = (w, refl)
  total-bytes (a ∷ args) w =
      let (u, e) = never_fails w a in let (w', e') = total-bytes args u in (w', rw e e')

  pub write_universal-total :
      (u : Universal) (w : W)
      → length u.args < 128
      → (w' : W) × (write_universal writer u (some w) ≡ ok (some w'))
  unfolding write_universal write_array_of_byte_array
  write_universal-total u w h =
      let (w₁, e₁) = never_fails w (u.cmd % 256 ∷ []) in
      let (w₂, e₂) = never_fails w₁ (length u.args % 256 ∷ []) in
      let (w₃, e₃) = total-lengths u.args w₂ in
      let (w₄, e₄) = total-bytes u.args w₃ in
      let few : leb 128 (length u.args) ≡ false = ground arith in
      (w₄, rw e₁ (rw few (rw e₂ (rw e₃ (rw e₄)))))
