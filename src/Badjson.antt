-- ===== src/Badjson.antt =====
-- The segments of badjson/parse.go, its tables of bytes, and the state of its parser.
pub mod Chop
pub mod Runes
pub mod Print
pub mod Steps
pub mod Spaced
pub mod Words
pub mod Inside
pub mod Quoted
pub mod Tests
use knotfreeiot.Base.{
  ℕ, zero, suc, ◌+◌, ◌-◌, ◌*◌, Bytes, Bool, true, false, not, ◌&&◌, ◌||◌, List, [], ◌∷◌, Option,
  none, some, length, take, drop, ltb, leb, ◌==◌, if◌then◌else◌,
}

-- `HexBytes`, `Base64Bytes` and `RuneArray` (its quote, and whether it had a quote or a slash) have
-- their input; a `Parent` its children and whether it was an array.
mutual
  pub data Segment : Type 0 where
    hex_bytes : Bytes → Segment
    base64_bytes : Bytes → Segment
    rune_array : ℕ → Bool → Bytes → Segment
    parent : Segments → Bool → Segment

  pub data Segments : Type 0 where
    last : Segments
    next : Segment → Segments → Segments

-- `linktoTail`
unfoldable pub link_to_tail : Segments → Segment → Segments
link_to_tail last s = next s last
link_to_tail (next t front) s = next t (link_to_tail front s)

-- An index of HexMap or B64DecodeMap may be out of range.
pub data Run (A : Type 0) : Type 0 where
  gives : A → Run A
  panics : Run A
  out_of_fuel : Run A

infixl 1 ◌>>=◌
abbrev pub ◌>>=◌ : {A B : Type 0} → Run A → (A → Run B) → Run B
gives a >>= k = k a
panics >>= k = panics
out_of_fuel >>= k = out_of_fuel

pub data ChopError : Type 0 where
  is_longer_than_16k : ChopError
  recursed_16_deep : ChopError

-- utf8.RuneError
abbrev pub rune_error : ℕ
rune_error = 65533

-- The working variables: `rest` is what stands at `i`.
pub record Scan : Type 0 where
  pub i : ℕ
  pub rest : Bytes
  pub r : ℕ
  pub rune_length : ℕ

-- HexMap is not 0xFF: `init` also sets `:`, `g` and `G`.
unfoldable pub is_hex : ℕ → Bool
is_hex r = (leb b'0' r && leb r b':') || (leb b'a' r && leb r b'g') || (leb b'A' r && leb r b'G')

-- An index into a table of 256 bytes, where the rune is one byte long.
unfoldable pub in_table : (ℕ → Bool) → Scan → Run Bool
in_table test sc =
    if sc.rune_length == 1
    then (if ltb sc.r 256 then gives (test sc.r) else panics)
    else gives false

unfoldable pub current_string : Scan → Scan → Bytes
current_string start sc = take (sc.i - start.i) start.rest

unfoldable pub is_one_of : List ℕ → ℕ → Bool
is_one_of [] r = false
is_one_of (x ∷ xs) r = r == x || is_one_of xs r
