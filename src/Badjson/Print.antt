-- ===== src/Badjson/Print.antt =====
-- `Raw` and `GetQuoted` of the segments of badjson/parse.go, and the escapes.
pub mod Escapes
use knotfreeiot.Base.{
  ℕ, suc, ◌+◌, ◌*◌, ◌%◌, Bytes, Bool, true, false, not, ◌&&◌, ◌||◌, List, [], ◌∷◌, ◌++◌, Option,
  none, some, length, ltb, ◌==◌, if◌then◌else◌, ascii,
}
use knotfreeiot.Badjson.{Segment, Segments, hex_bytes, base64_bytes, rune_array, parent, last, next}

-- The hex and base64 packages (the hex decoder gives what it has got up to an error), the loop over the
-- runes of a string, and a strings.Builder with `WriteRune`.
pub record Texts : Type 0 where
  pub hex_decode : Bytes → Bytes
  pub hex_encode : Bytes → Bytes
  pub base64_decode : Bytes → Option Bytes
  pub base64_encode : Bytes → Bytes
  pub runes : Bytes → List ℕ
  pub text : List ℕ → Bytes

-- `MakeEscaped`, on runes.
unfoldable pub make_escaped : List ℕ → List ℕ
make_escaped [] = []
make_escaped (r ∷ rs) =
    let rest = make_escaped rs in if r == b'\\' || r == b'"' then b'\\' ∷ r ∷ rest else r ∷ rest

-- The loop of `MakeUnescaped`, with its flag `passedSlash`.
unfoldable pub unescape_from : ℕ → Bool → List ℕ → List ℕ
unescape_from quote passed_slash [] = []
unescape_from quote passed_slash (r ∷ rs) =
    let after_slash = unescape_from quote true rs in
    let rest = r ∷ unescape_from quote false rs in
    if r == b'\\' && not passed_slash
    then after_slash
    else if passed_slash && (not (r == b'\\') && not (r == quote))
    then b'\\' ∷ rest
    else rest

unfoldable pub make_unescaped : List ℕ → ℕ → List ℕ
make_unescaped rs quote = unescape_from quote false rs

-- Is the number odd? (`len(in)&1 == 1`)
abbrev pub is_odd : ℕ → Bool
is_odd n = n % 2 == 1

module _ (t : Texts) where
  -- `GetBytes` of the two kinds.
  unfoldable pub get_bytes_hex : Bytes → Bytes
  get_bytes_hex input = t.hex_decode (if is_odd (length input) then input ++ b'0' ∷ [] else input)

  unfoldable pub get_bytes_base64 : Bytes → Bytes
  get_bytes_base64 input = elim (t.base64_decode input) [ none ↦ [] | some bs ↦ bs ]

  unfoldable pub quoted : Bytes → Bytes
  quoted bs = b'"' ∷ (bs ++ b'"' ∷ [])

  -- `RuneArray.GetQuoted`
  unfoldable pub quoted_runes : ℕ → Bool → Bytes → Bytes
  unfolding quoted make_escaped make_unescaped
  quoted_runes quote had input =
      if quote == b'"'
      then quoted (if had then input else t.text (make_escaped (t.runes input)))
      else if quote == b'\''
      then quoted (t.text (make_escaped (make_unescaped (t.runes input) b'\'')))
      else quoted (t.text (make_escaped (t.runes input)))

  -- `RuneArray.Raw`
  unfoldable pub raw_runes : ℕ → Bool → Bytes → Bytes
  raw_runes quote had input =
      if had && (quote == b'"' || quote == b'\'')
      then t.text (make_unescaped (t.runes input) quote)
      else input

  abbrev pub delimiter : Bool → ℕ → Bytes
  delimiter is_array i =
      if i == 0
      then []
      else if not (is_odd i)
      then b',' ∷ []
      else if is_array
      then b',' ∷ []
      else b':' ∷ []

  -- `GetQuoted`, and the loop of `getJSONinternal`.
  unfoldable mutual
    pub get_quoted : Segment → Bytes
    get_quoted (hex_bytes input) = quoted (b'$' ∷ t.hex_encode (get_bytes_hex input))
    get_quoted (base64_bytes input) = quoted (b'=' ∷ t.base64_encode (get_bytes_base64 input))
    get_quoted (rune_array quote had input) = quoted_runes quote had input
    get_quoted (parent children was_array) =
        (if was_array then b'[' else b'{')
        ∷ (items_json was_array 0 children ++ (if was_array then b']' else b'}') ∷ [])

    pub items_json : Bool → ℕ → Segments → Bytes
    items_json is_array i last = []
    items_json is_array i (next s more) =
        delimiter is_array i ++ (get_quoted s ++ items_json is_array (suc i) more)

  -- `getJSONinternal`
  unfoldable pub get_json_internal : Segments → Bool → Bytes
  get_json_internal segments is_array =
      (if is_array then b'[' else b'{')
      ∷ (items_json is_array 0 segments ++ (if is_array then b']' else b'}') ∷ [])

  -- `Raw`
  unfoldable pub raw : Segment → Bytes
  raw (hex_bytes input) = b'$' ∷ t.hex_encode (get_bytes_hex input)
  raw (base64_bytes input) = b'=' ∷ t.base64_encode (get_bytes_base64 input)
  raw (rune_array quote had input) = raw_runes quote had input
  raw (parent children was_array) = get_json_internal children was_array

  -- `ToString`
  unfoldable pub to_string : Segments → Bytes
  to_string segments = get_json_internal segments true

-- The delimiters after which `IsASCII` says that quotes are needed.
abbrev has_first_delimiter : ℕ → Bool
has_first_delimiter r =
    (r == b'"' || r == b',' || r == b':' || r == b' ')
    || (r == b'$' || r == b'=' || r == b'[' || r == b'{')

-- The loop of `IsASCII` over the bytes.
unfoldable pub ascii_loop : Bytes → Bool × Bool
ascii_loop [] = (true, false)
ascii_loop (b ∷ bs) =
    let (is_ascii, has_delimiters) = ascii_loop bs in
    if ltb b 32 || ltb 127 b
    then (false, has_delimiters)
    else (is_ascii, (b == b' ' || b == b':' || b == b',') || has_delimiters)

-- `IsASCII`, with utf8.DecodeRune.
unfoldable pub is_ascii : (Bytes → ℕ × ℕ) → Bytes → Bool × Bool
is_ascii decode_rune bs =
    let (r, rune_length) = decode_rune bs in
    let (all_ascii, has_delimiters) = ascii_loop bs in
    (all_ascii, (rune_length == 1 && has_first_delimiter r) || has_delimiters)
