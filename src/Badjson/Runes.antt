-- ===== src/Badjson/Runes.antt =====
-- ASCII text as the runes that `chop` scans.
use knotfreeiot.Base.{
  ℕ, suc, ◌+◌, ◌-◌, ◌<◌, ◌≡◌, refl, ap, Bytes, Bool, true, false, [], ◌∷◌, ◌++◌, length,
  take-length_append, ◌==◌, arith,
}
use knotfreeiot.Badjson.{gives, rune_error, Scan, current_string}
use knotfreeiot.Badjson.Chop.{scan_at, pop, pass_while, is_space}
use knotfreeiot.Badjson.Steps.{pass_while_stop}

-- An ASCII byte is a rune of one byte.
pub record Decodes (decode_rune : Bytes → ℕ × ℕ) : Type 0 where
  pub ascii_rune : (b : ℕ) (bs : Bytes) → b < 128 → decode_rune (b ∷ bs) ≡ (b, 1)

abbrev pub IsAscii : Bytes → Type 0
IsAscii [] = Unit {0}
IsAscii (b ∷ bs) = (b < 128) × IsAscii bs

-- The scan of ASCII text.
abbrev pub at : ℕ → ℕ → Bytes → Scan
at closer i [] = record { i = i; rest = []; r = closer; rune_length = 1 }
at closer i (b ∷ bs) = record { i = i; rest = b ∷ bs; r = b; rune_length = 1 }

abbrev pub is_over : Bytes → Bool
is_over [] = true
is_over (b ∷ bs) = false

pub append-IsAscii : (a b : Bytes) → IsAscii a → IsAscii b → IsAscii (a ++ b)
append-IsAscii [] b one two = two
append-IsAscii (x ∷ a) b (h, one) two = (h, append-IsAscii a b one two)

module _ (decode_rune : Bytes → ℕ × ℕ) (d : Decodes decode_rune) where
  pub scan_at-at :
      (closer i b : ℕ) (bs : Bytes)
      → b < 128
      → scan_at decode_rune i (b ∷ bs) ≡ at closer i (b ∷ bs)
  unfolding scan_at
  scan_at-at closer i b bs small = rw (d.ascii_rune b bs small) refl

  pub pop-at :
      (closer i b : ℕ) (bs : Bytes)
      → IsAscii bs
      → pop decode_rune closer (at closer i (b ∷ bs)) ≡ (is_over bs, at closer (i + 1) bs)
  unfolding pop
  pop-at closer i b [] all = refl
  pop-at closer i b (c ∷ bs) (small, all) =
      rw (scan_at-at closer (i + 1) c bs small) (rw (d.ascii_rune c bs small) refl)

  pub at-i : (closer i : ℕ) (t : Bytes) → (at closer i t).i ≡ i
  at-i closer i [] = refl
  at-i closer i (b ∷ t) = refl

  pub current_string-at :
      (closer i b : ℕ) (w t : Bytes)
      → current_string (at closer i (b ∷ w ++ t)) (at closer (i + length (b ∷ w)) t) ≡ b ∷ w
  unfolding current_string
  current_string-at closer i b w t =
      let count : i + length (b ∷ w) - i ≡ length (b ∷ w) = omega arith in
      rw (at-i closer (i + length (b ∷ w)) t) (rw count (take-length_append (b ∷ w) t))

  pub no_spaces :
      (fuel i b : ℕ) (t : Bytes)
      → (b == b' ') ≡ false
      → pass_while decode_rune rune_error
          (suc fuel)
          (is_space decode_rune rune_error)
          (at rune_error i (b ∷ t))
        ≡ gives (false, at rune_error i (b ∷ t))
  no_spaces fuel i b t ne =
      pass_while_stop decode_rune rune_error fuel (is_space decode_rune rune_error)
        (at rune_error i (b ∷ t)) (ap (λ (x : Bool). gives x) ne)
