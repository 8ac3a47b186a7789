-- ===== src/TextProtocol/Lines.antt =====
-- Lines of words as packets.
use knotfreeiot.Base.{
  ℕ, zero, suc, ◌-◌, arith, ◌∙◌, ◌*◌, ◌≤◌, ◌≡◌, refl, ap, Bytes, List, [], ◌∷◌, ◌++◌, length, take,
}
use knotfreeiot.Base.Keys.{TreeMap, bytes_eq}
use knotfreeiot.Packets.Packet.{fill_packet}
use knotfreeiot.Badjson.{gives}
use knotfreeiot.Badjson.Print.{Texts, raw, raw_runes}
use knotfreeiot.Badjson.Runes.{Decodes}
use knotfreeiot.Badjson.Spaced.{IsWord, AllWords, spaced, words}
use knotfreeiot.Badjson.Words.{chop-words}
use knotfreeiot.TextProtocol.{from_fill, padded, raws, packet_of, text2_packet}

abbrev pub empties : ℕ → List Bytes
empties zero = []
empties (suc n) = [] ∷ empties n

-- The arguments, and empty ones up to `n`.
abbrev pub filled_up : ℕ → List Bytes → List Bytes
filled_up n args = args ++ empties (n - length args)

take-few : (n : ℕ) (ws : List Bytes) → length (take n ws) ≤ n
take-few zero ws = omega arith
take-few (suc n) [] = omega arith
take-few (suc n) (w ∷ ws) = let less = take-few n ws in omega arith

padded-empties : (n : ℕ) → padded n [] ≡ empties n
unfolding padded
padded-empties zero = refl
padded-empties (suc n) = ap (λ (l : List Bytes). [] ∷ l) (padded-empties n)

padded-filled_up : (args : List Bytes) (n : ℕ) → length args ≤ n → padded n args ≡ filled_up n args
unfolding padded
padded-filled_up [] n h = let whole : n - 0 ≡ n = omega arith in padded-empties n ∙ rw whole refl
padded-filled_up (a ∷ args) zero h = absurd (omega arith)
padded-filled_up (a ∷ args) (suc n) h =
    let left : suc n - suc (length args) ≡ n - length args = omega arith in
    ap (λ (l : List Bytes). a ∷ l) (padded-filled_up args n (omega arith)) ∙ rw left refl

module _ {P : Type 0} (opts : TreeMap P Bytes Bytes) (decode_rune : Bytes → ℕ × ℕ)
    (d : Decodes decode_rune) (t : Texts) where
  raws-words : (ws : List Bytes) → raws opts decode_rune t (words ws) ≡ ws
  unfolding raws words raw raw_runes
  raws-words [] = refl
  raws-words (w ∷ ws) = ap (λ l. w ∷ l) (raws-words ws)

  -- A line of words becomes what `fill_packet` makes of the command that its first byte names, with the
  -- other words as its arguments: the first eleven at most, and then empty ones up to 64. This is for single spaces
  -- between the words, plain words and 16 kilobytes at most.
  pub text2_packet-words :
      (cmd : ℕ) (more : Bytes) (ws : List Bytes)
      → IsWord (cmd ∷ more)
      → AllWords ws
      → length (cmd ∷ more ++ spaced ws) ≤ 16 * 1024
      → text2_packet opts decode_rune t (cmd ∷ more ++ spaced ws)
        ≡ gives
            (from_fill (fill_packet opts (record { cmd = cmd; args = filled_up 64 (take 11 ws) })))
  unfolding text2_packet packet_of words raw raw_runes
  text2_packet-words cmd more ws word all short =
      let few : length (take 11 ws) ≤ 64 = omega (arith, take-few 11 ws) in
      rw (chop-words decode_rune d (cmd ∷ more) ws word all short, text2_packet)
        (rw (raws-words ws) (rw (padded-filled_up (take 11 ws) 64 few) refl))
