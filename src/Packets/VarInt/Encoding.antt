-- ===== src/Packets/VarInt/Encoding.antt =====
-- What `write_var_len_int` writes, in plain arithmetic, for every uint32.
use Prim.Native.Nat.{bit_or}
use mathlib.Core.Logic.{dif_pos, dif_neg}
use mathlib.Core.WellFounded.{Acc}
use native.Mathlib.Bridge.{le_prop}
use native.Mathlib.Decide.{dec_lt}
use knotfreeiot.Base.{
  ℕ, zero, suc, ◌+◌, ◌/◌, ◌%◌, ◌^◌, ◌<◌, ◌≡◌, ◌∙◌, Bytes, [], ◌∷◌, ◌++◌, ltb, if◌then◌else◌, inl,
  inr, Bool-cases, append_assoc, arith,
}
use knotfreeiot.Base.Bits.{bit_or-top, bit_or-zero}
use knotfreeiot.Packets.Io.{ok, ◌>>=◌, bind-eq-ok, Writer}
use knotfreeiot.Packets.VarInt.{lt_wf, shift_shrinks, write_var_len_int_acc, write_var_len_int}

-- The group of seven bits that starts at bit `7 * k`, with the top bit set.
abbrev pub group : ℕ → ℕ → ℕ
group k v = v / 128 ^ k % 128 + 128

-- One to five bytes, by the size of the number.
unfoldable pub var_len_int : ℕ → Bytes
var_len_int v =
    if ltb v (128 ^ 1)
    then v ∷ []
    else if ltb v (128 ^ 2)
    then group 1 v ∷ v % 128 ∷ []
    else if ltb v (128 ^ 3)
    then group 2 v ∷ group 1 v ∷ v % 128 ∷ []
    else if ltb v (128 ^ 4)
    then group 3 v ∷ group 2 v ∷ group 1 v ∷ v % 128 ∷ []
    else group 4 v ∷ group 3 v ∷ group 2 v ∷ group 1 v ∷ v % 128 ∷ []

-- The groups in front of the last: `k` levels of the recursion.
abbrev front : ℕ → ℕ → Bytes
front zero v = []
front (suc k) v =
    let rest = front k (v / 128) in if ltb 127 v then rest ++ (v / 128 % 128 + 128) ∷ [] else []

module _ {W : Type 0} (writer : Writer W) where
  write_small :
      (v mask : ℕ) (a : Acc ◌<◌ v) (w : W)
      → v < 128
      → write_var_len_int_acc writer v mask a w ≡ writer.write w (bit_or (v % 128) mask ∷ [])
  unfolding write_var_len_int_acc
  write_small v mask (Acc.intro _ smaller) w h = grind arith

  write_large :
      (v mask : ℕ) (a : Acc ◌<◌ v) (w : W)
      → 127 < v
      → (b : Acc ◌<◌ (v / 128)) × (write_var_len_int_acc writer v mask a w ≡ (
          write_var_len_int_acc writer (v / 128) 0x80 b w >>= λ w'.
          writer.write w' (bit_or (v % 128) mask ∷ [])))
  unfolding write_var_len_int_acc
  write_large v mask (Acc.intro _ smaller) w h =
      (smaller _ (shift_shrinks v h), rw (dif_pos _ le_prop h))

  written-acc :
      (k v mask : ℕ) (a : Acc ◌<◌ v) (w w' : W)
      → v < 128 ^ suc k
      → write_var_len_int_acc writer v mask a w ≡ ok w'
      → writer.written w' ≡ writer.written w ++ (front k v ++ (bit_or (v % 128) mask ∷ []))
  written-acc zero v mask a w w' h e =
      writer.write_appends w w' _ (rw (write_small v mask a w (omega arith)) at e)
  written-acc (suc k) v mask a w w' h e = elim (Bool-cases (ltb 127 v)) [
    | inl big ↦
        let (b, split) = write_large v mask a w (ground arith) in
        let (u, e1, e2) = bind-eq-ok _ _ (rw split at e) in
        rw big (
          writer.write_appends u w' _ e2
          ∙ rw (written-acc k (v / 128) 0x80 b w u (omega arith) e1)
              (rw (bit_or-top (v / 128 % 128) (omega arith)) (simp append_assoc)))
    | inr small ↦
        rw small (writer.write_appends w w' _ (rw (write_small v mask a w (ground arith)) at e))
  ]

  front-var_len_int : (v : ℕ) → v < 2 ^ 32 → front 4 v ++ (bit_or (v % 128) 0 ∷ []) ≡ var_len_int v
  unfolding var_len_int
  front-var_len_int v h = rw (bit_or-zero (v % 128) (omega arith)) (ground arith)

  -- A write of a uint32 that reports no error has appended exactly the bytes of `var_len_int`.
  pub written-write_var_len_int :
      (v : ℕ) (w w' : W)
      → v < 2 ^ 32
      → write_var_len_int writer v 0 w ≡ ok w'
      → writer.written w' ≡ writer.written w ++ var_len_int v
  unfolding write_var_len_int
  written-write_var_len_int v w w' h e =
      rw (← front-var_len_int v h) (written-acc 4 v 0 _ w w' (omega arith) e)

-- On a writer that never fails, as a buffer is, the write of a number ends without an error.
module _ {W : Type 0} (writer : Writer W)
    (never_fails : (w : W) (bs : Bytes) → (w' : W) × (writer.write w bs ≡ ok w')) where
  total-acc :
      (v mask : ℕ) (a : Acc ◌<◌ v) (w : W)
      → (w' : W) × (write_var_len_int_acc writer v mask a w ≡ ok w')
  unfolding write_var_len_int_acc
  total-acc v mask (Acc.intro _ smaller) w = elim (dec_lt 127 v) [
    | yes big ↦
        let (u, e) = total-acc (v / 128) 0x80 (smaller _ (shift_shrinks v big)) w in
        let (w', e') = never_fails u (bit_or (v % 128) mask ∷ []) in
        (w', rw (dif_pos _ le_prop big) (rw e e'))
    | no small ↦
        let (w', e') = never_fails w (bit_or (v % 128) mask ∷ []) in (w', rw (dif_neg _ small) e')
  ]

  pub write_var_len_int-total :
      (v mask : ℕ) (w : W) → (w' : W) × (write_var_len_int writer v mask w ≡ ok w')
  unfolding write_var_len_int
  write_var_len_int-total v mask w = total-acc v mask (lt_wf.apply v) w
