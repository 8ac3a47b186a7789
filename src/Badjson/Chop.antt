-- ===== src/Badjson/Chop.antt =====
-- `chop` of badjson/parse.go, the parser of a line of text.
pub mod Total
use knotfreeiot.Base.{
  ℕ, zero, suc, ◌+◌, ◌*◌, Bytes, Bool, true, false, ◌||◌, [], ◌∷◌, Option, none, some, length, drop,
  ltb, ◌==◌, if◌then◌else◌,
}
use knotfreeiot.Tokens.{is_b64}
use knotfreeiot.Badjson.{
  Segment, Segments, hex_bytes, base64_bytes, rune_array, parent, last, next, link_to_tail, Run,
  gives, out_of_fuel, ◌>>=◌, ChopError, is_longer_than_16k, recursed_16_deep, rune_error, Scan,
  is_hex, in_table, current_string, is_one_of,
}

-- `decode_rune` is utf8.DecodeRuneInString.
module _ (decode_rune : Bytes → ℕ × ℕ) where
  unfoldable pub scan_at : ℕ → Bytes → Scan
  scan_at i rest =
      let (r, n) = decode_rune rest in record { i = i; rest = rest; r = r; rune_length = n }

  -- What a call of `chop` gives: the head, the count, and the error.
  abbrev pub Chopped : Type 0
  Chopped = Segments × ℕ × Option ChopError

  module _ (closer : ℕ) where
    -- Advance, and tell whether that was the end.
    unfoldable pub pop : Scan → Bool × Scan
    unfolding scan_at
    pop sc =
        let rest = drop sc.rune_length sc.rest in
        elim rest [
          | [] ↦ (true, record sc { i = sc.i + sc.rune_length; rest = []; r = closer })
          | b ∷ bs ↦
              let sc' = scan_at (sc.i + sc.rune_length) (b ∷ bs) in (sc'.rune_length == 0, sc')
        ]

    -- `for test() { if pop() { break } }`, and whether it was left by that.
    unfoldable pub pass_while : ℕ → (Scan → Run Bool) → Scan → Run (Bool × Scan)
    pass_while zero test sc = out_of_fuel
    pass_while (suc fuel) test sc = test sc >>= λ go. elim go [
      | false ↦ gives (false, sc)
      | true ↦
          (let (ended, sc') = pop sc in
            elim ended [ true ↦ gives (true, sc') | false ↦ pass_while fuel test sc' ])
    ]

    abbrev pub runes_of : Scan → ℕ
    runes_of sc = suc (length sc.rest)

    abbrev pub is_space : Scan → Run Bool
    is_space sc = gives (sc.r == b' ')

    -- Spaces, one comma or colon, spaces.
    unfoldable pub pass_delimiters : Scan → Run (Bool × Scan)
    pass_delimiters sc = pass_while (runes_of sc) is_space sc >>= λ (ended, a).
        if ended
        then gives (true, a)
        else (let (over, b) = (if is_one_of (b',' ∷ b':' ∷ []) a.r then pop a else (false, a)) in
            if over then gives (true, b) else pass_while (runes_of b) is_space b)

    unfoldable pub chop_hex : Scan → Run (Segment × Scan)
    chop_hex sc =
        let (ended, start) = pop sc in
        if ended
        then gives (hex_bytes [], start)
        else (pass_while (runes_of start) (in_table is_hex) start >>= λ (_, sc').
            gives (hex_bytes (current_string start sc'), sc'))

    -- A slash takes the next rune along.
    unfoldable pub skip_slash : Scan → Bool × Scan
    skip_slash sc = if sc.r == b'\\' then pop sc else (false, sc)

    -- The inside of a quoted text, and whether it had a quote or a slash.
    unfoldable pub pass_quoted : ℕ → ℕ → Bool → Scan → Run (Bool × Scan)
    pass_quoted zero quote had sc = out_of_fuel
    pass_quoted (suc fuel) quote had sc =
        let had' = had || is_one_of (b'\\' ∷ b'"' ∷ []) sc.r in
        elim (sc.r == quote) [
          | true ↦ gives (had, sc)
          | false ↦
              let (ended, sc') = skip_slash sc in
              elim ended [
                | true ↦ gives (had', sc')
                | false ↦
                    (let (over, sc2) = pop sc' in
                      elim over [
                        | true ↦ gives (had', sc2)
                        | false ↦ pass_quoted fuel quote had' sc2
                      ])
              ]
        ]

    unfoldable pub chop_quoted : Scan → Run (Option Segment × Scan)
    chop_quoted sc =
        let (ended, start) = pop sc in
        if ended
        then gives (none, start)
        else (pass_quoted (runes_of start) sc.r false start >>= λ (had, sc').
            gives (some (rune_array sc.r had (current_string start sc')), (pop sc').1))

    -- The text of the segment includes the `=` at its end.
    unfoldable pub chop_base64 : Scan → Run (Segment × Scan)
    chop_base64 sc =
        let (ended, start) = pop sc in
        if ended
        then gives (base64_bytes (current_string sc start), start)
        else (pass_while (runes_of start) (in_table is_b64) start >>= λ (_, a).
            pass_while (runes_of a) (λ b. gives (b.r == b'=')) a >>= λ (_, b).
            gives (base64_bytes (current_string start b), b))

    unfoldable pub pass_unquoted : ℕ → Bool → Scan → Run (Bool × Scan)
    pass_unquoted zero had sc = out_of_fuel
    pass_unquoted (suc fuel) had sc =
        let had' = had || is_one_of (b'"' ∷ b'\\' ∷ []) sc.r in
        elim (is_one_of (b' ' ∷ b':' ∷ b',' ∷ closer ∷ []) sc.r) [
          | true ↦ gives (had, sc)
          | false ↦
              (let (ended, sc') = pop sc in
                elim ended [ true ↦ gives (had', sc') | false ↦ pass_unquoted fuel had' sc' ])
        ]

    unfoldable pub chop_unquoted : Scan → Run (Segment × Scan)
    chop_unquoted sc = pass_unquoted (runes_of sc) false sc >>= λ (had, sc').
        gives (rune_array 0 had (current_string sc sc'), sc')

    abbrev pub with_segment : Run (Segment × Scan) → Run (Option Segment × Scan)
    with_segment run = run >>= λ (s, sc). gives (some s, sc)

    -- The cases of the `switch` but the brackets.
    unfoldable pub chop_segment : Scan → Run (Option Segment × Scan)
    chop_segment sc =
        if sc.r == b'$'
        then with_segment (chop_hex sc)
        else if is_one_of (b'"' ∷ b'\'' ∷ []) sc.r
        then chop_quoted sc
        else if sc.r == b'='
        then with_segment (chop_base64 sc)
        else with_segment (chop_unquoted sc)

  abbrev pub link_some : Segments → Option Segment → Segments
  link_some front none = front
  link_some front (some s) = link_to_tail front s

  -- `chop`, with its loop given.
  unfoldable pub start_chop : (Scan → Run Chopped) → ℕ → Bytes → Run Chopped
  start_chop loop depth text =
      if ltb (16 * 1024) (length text)
      then gives (last, 0, some is_longer_than_16k)
      else if ltb 16 depth
      then gives (last, 0, some recursed_16_deep)
      else loop (scan_at 0 text)

  -- One round of the loop behind the delimiters, where `again` goes on with it. After a bracket `pop`
  -- goes on by the length of the rune that stood first in it.
  unfoldable pub chop_round :
      (ℕ → ℕ → Segments → Scan → Run Chopped) → ℕ → ℕ → Segments → Bool → Scan → Run Chopped
  chop_round again closer depth front ended a = elim (ended || a.r == closer) [
    | true ↦ gives (front, a.i, none)
    | false ↦ elim (is_one_of (b'{' ∷ b'[' ∷ []) a.r) [
      | false ↦ chop_segment closer a >>= λ (s, b). again closer depth (link_some front s) b
      | true ↦
          let (over, b) = pop closer a in
          elim over [
            | true ↦ again closer depth front b
            | false ↦
                start_chop (again (if a.r == b'{' then b'}' else b']') (suc depth) last) (suc depth)
                  b.rest
                >>= λ (children, newi, err). elim err [
                  | some e ↦ gives (front, b.i + newi, some e)
                  | none ↦
                      let front' = link_to_tail front (parent children (a.r == b'[')) in
                      let after = record b { i = b.i + newi; rest = drop newi b.rest } in
                      elim after.rest [
                        | [] ↦ gives (front', b.i + length b.rest, none)
                        | _ ∷ _ ↦ again closer depth front' (pop closer after).1
                      ]
                ]
          ]
    ]
  ]

  -- The loop of `chop`.
  unfoldable pub chop_loop : ℕ → ℕ → ℕ → Segments → Scan → Run Chopped
  chop_loop zero closer depth front sc = out_of_fuel
  chop_loop (suc fuel) closer depth front sc = pass_delimiters closer sc >>= λ (ended, a).
      chop_round (chop_loop fuel) closer depth front ended a

  -- `Chop`, for the list that was parsed: nothing becomes an empty text, and one array its content.
  unfoldable pub unwrap : Segments → Segments
  unwrap last = next (rune_array 0 false []) last
  unwrap (next (parent (next c more) true) last) = next c more
  unwrap s = s

  -- For every byte there are two rounds of the loop at most.
  unfoldable pub chop : Bytes → Run (Segments × Option ChopError)
  chop text =
      start_chop (chop_loop (2 * length text + 3) rune_error 0 last) 0 text >>= λ (s, _, err).
      elim err [ some e ↦ gives (s, some e) | none ↦ gives (unwrap s, none) ]
