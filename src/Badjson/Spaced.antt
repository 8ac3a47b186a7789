-- ===== src/Badjson/Spaced.antt =====
-- Words with a space before each, and `Chop` inside a word (badjson/parse.go).
use knotfreeiot.Base.{
  ℕ, zero, suc, ◌+◌, ◌<◌, ◌≡◌, refl, ◌∙◌, Bytes, false, List, [], ◌∷◌, ◌++◌, length, if◌then◌else◌,
  arith,
}
use knotfreeiot.Badjson.Runes.{Decodes, IsAscii, at, is_over, append-IsAscii, pop-at}
use knotfreeiot.Badjson.Steps.{unquoted_go}
use knotfreeiot.Badjson.{Segments, rune_array, last, next, gives, rune_error, is_one_of}
use knotfreeiot.Badjson.Chop.{pass_unquoted}

-- A byte that stands for itself in an unquoted text.
abbrev pub IsPlain : ℕ → Type 0
IsPlain b =
    (b < 128)
    × (is_one_of (b' ' ∷ b':' ∷ b',' ∷ rune_error ∷ []) b ≡ false)
    × (is_one_of (b'"' ∷ b'\\' ∷ []) b ≡ false)

abbrev pub AllPlain : Bytes → Type 0
AllPlain [] = Unit {0}
AllPlain (b ∷ bs) = IsPlain b × AllPlain bs

-- A word: not empty, plain, and not begun by a byte that means something else.
abbrev pub IsWord : Bytes → Type 0
IsWord [] = ⊥
IsWord (b ∷ bs) =
    AllPlain (b ∷ bs) × (is_one_of (b'$' ∷ b'"' ∷ b'\'' ∷ b'=' ∷ b'{' ∷ b'[' ∷ []) b ≡ false)

abbrev pub AllWords : List Bytes → Type 0
AllWords [] = Unit {0}
AllWords (w ∷ ws) = IsWord w × AllWords ws

-- The words, with a space before each.
unfoldable pub spaced : List Bytes → Bytes
spaced [] = []
spaced (w ∷ ws) = b' ' ∷ (w ++ spaced ws)

unfoldable pub words : List Bytes → Segments
words [] = last
words (w ∷ ws) = next (rune_array 0 false w) (words ws)

pub plain-IsAscii : (w : Bytes) → AllPlain w → IsAscii w
plain-IsAscii [] plain = tt
plain-IsAscii (b ∷ w) ((small, _, _), plain) = (small, plain-IsAscii w plain)

word-AllPlain : (w : Bytes) → IsWord w → AllPlain w
word-AllPlain [] word = elim word [ ]
word-AllPlain (b ∷ w) (plain, _) = plain

pub spaced-IsAscii : (ws : List Bytes) → AllWords ws → IsAscii (spaced ws)
unfolding spaced
spaced-IsAscii [] all = tt
spaced-IsAscii (w ∷ ws) (word, all) = (
  omega arith,
  append-IsAscii w (spaced ws) (plain-IsAscii w (word-AllPlain w word)) (spaced-IsAscii ws all),
)

module _ (decode_rune : Bytes → ℕ × ℕ) (d : Decodes decode_rune) where
  unquoted_step :
      (fuel i b : ℕ) (bs : Bytes)
      → IsPlain b
      → IsAscii bs
      → pass_unquoted decode_rune rune_error (suc fuel) false (at rune_error i (b ∷ bs)) ≡ (
          if is_over bs
          then gives (false, at rune_error (i + 1) bs)
          else pass_unquoted decode_rune rune_error fuel false (at rune_error (i + 1) bs))
  unquoted_step fuel i b bs (small, stays, unquoted) ascii =
      unquoted_go decode_rune rune_error fuel false (is_over bs) (at rune_error i (b ∷ bs))
        (at rune_error (i + 1) bs) stays (pop-at decode_rune d rune_error i b bs ascii)
      ∙ rw unquoted refl

  pub pass_unquoted-AllPlain :
      (fuel i : ℕ) (w : Bytes) (ws : List Bytes)
      → length w < fuel
      → AllPlain w
      → AllWords ws
      → pass_unquoted decode_rune rune_error fuel false (at rune_error i (w ++ spaced ws))
        ≡ gives (false, at rune_error (i + length w) (spaced ws))
  unfolding pass_unquoted spaced is_one_of
  pass_unquoted-AllPlain zero i w ws lt plain all = absurd (omega arith)
  pass_unquoted-AllPlain (suc fuel) i [] [] lt plain all =
      let same : i + 0 ≡ i = omega arith in rw same refl
  pass_unquoted-AllPlain (suc fuel) i [] (v ∷ ws) lt plain all =
      let same : i + 0 ≡ i = omega arith in rw same refl
  pass_unquoted-AllPlain (suc fuel) i (b ∷ []) [] lt (here, plain) all =
      unquoted_step fuel i b [] here tt
  pass_unquoted-AllPlain (suc fuel) i (b ∷ []) (v ∷ ws) lt (here, plain) all =
      let same : i + 1 + 0 ≡ i + 1 = omega arith in
      unquoted_step fuel i b (spaced (v ∷ ws)) here (spaced-IsAscii (v ∷ ws) all)
      ∙ (pass_unquoted-AllPlain fuel (i + 1) [] (v ∷ ws) (omega arith) tt all ∙ rw same refl)
  pass_unquoted-AllPlain (suc fuel) i (b ∷ c ∷ w) ws lt (here, plain) all =
      let same : i + 1 + length (c ∷ w) ≡ i + length (b ∷ c ∷ w) = omega arith in
      unquoted_step fuel i b (c ∷ w ++ spaced ws) here
        (append-IsAscii (c ∷ w) (spaced ws) (plain-IsAscii (c ∷ w) plain) (spaced-IsAscii ws all))
      ∙ (pass_unquoted-AllPlain fuel (i + 1) (c ∷ w) ws (omega arith) plain all ∙ rw same refl)
