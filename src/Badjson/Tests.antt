-- ===== src/Badjson/Tests.antt =====
-- The theorems on the text parser at concrete inputs.
use knotfreeiot.Base.{
  ◌≢◌, ℕ, ◌≡◌, refl, Bytes, [], ◌∷◌, false, none, some, ltb, if◌then◌else◌, ascii, arith,
}
use knotfreeiot.Badjson.{Segment, rune_array, last, next, gives, out_of_fuel, rune_error}
use knotfreeiot.Badjson.Chop.{chop}
use knotfreeiot.Badjson.Chop.Total.{Forward}
use knotfreeiot.Badjson.Chop.Total.Fuel.{chop-total}
use knotfreeiot.Badjson.Runes.{Decodes}
use knotfreeiot.Badjson.Print.{Texts, make_escaped, quoted, quoted_runes, get_quoted, raw}
use knotfreeiot.Badjson.Quoted.{chop-get_quoted}
use knotfreeiot.Badjson.Inside.{WritesAscii}

-- Every byte that is not ASCII is taken for an error.
abbrev pub decode_ascii : Bytes → ℕ × ℕ
decode_ascii [] = (rune_error, 0)
decode_ascii (b ∷ bs) = if ltb b 128 then (b, 1) else (rune_error, 1)

pub decode_ascii-Decodes : Decodes decode_ascii
decode_ascii-Decodes = record { ascii_rune = λ b bs small. ground arith }

abbrev pub texts : Texts
texts = record {
  hex_decode = λ bs. bs;
  hex_encode = λ bs. bs;
  base64_decode = some;
  base64_encode = λ bs. bs;
  runes = λ bs. bs;
  text = λ rs. rs;
}

texts-WritesAscii : WritesAscii texts
texts-WritesAscii = record { runes_ascii = λ bs all. refl; text_ascii = λ bs all. refl }

abbrev saying : Bytes
saying = ascii "say \"hi\" \\ twice"

chop-get_quoted_example :
    (seg : Segment) × (chop decode_ascii (get_quoted texts (rune_array 0 false saying))
      ≡ gives (next seg last, none))
    × (raw texts seg ≡ raw texts (rune_array 0 false saying))
unfolding get_quoted quoted_runes quoted make_escaped
chop-get_quoted_example =
    chop-get_quoted decode_ascii decode_ascii-Decodes texts saying texts-WritesAscii (ground arith)
      (omega arith)

decode_ascii-Forward : Forward decode_ascii
decode_ascii-Forward = record { rune_size = λ b bs. ground arith; no_rune = refl }

-- Brackets that are not closed, and delimiters in a row.
chop-total_example : chop decode_ascii (ascii "$41 [a,,{b:'c") ≢ out_of_fuel
chop-total_example = chop-total decode_ascii decode_ascii-Forward (ascii "$41 [a,,{b:'c")
