-- ===== src/Badjson/Words.antt =====
-- `Chop` on words between single spaces, as a user types them.
use knotfreeiot.Base.{
  ℕ, zero, suc, ◌+◌, ◌*◌, ◌<◌, ◌≤◌, ◌≡◌, refl, ap, ◌∙◌, Bytes, false, List, [], ◌∷◌, ◌++◌, none,
  some, length, length-append, ltb, ◌==◌, arith,
}
use knotfreeiot.Badjson.Runes.{
  Decodes, IsAscii, at, append-IsAscii, scan_at-at, pop-at, current_string-at, no_spaces,
}
use knotfreeiot.Badjson.Steps.{
  pass_while_go, delimiters_none, chop_segment_unquoted, chop_loop_segment,
}
use knotfreeiot.Badjson.{
  Segment, Segments, rune_array, last, next, link_to_tail, gives, rune_error, Scan, is_one_of,
}
use knotfreeiot.Badjson.Chop.{
  scan_at, pass_while, is_space, pass_delimiters, chop_segment, start_chop, chop_round, chop_loop,
  unwrap, chop,
}
use knotfreeiot.Badjson.Spaced.{
  IsPlain, IsWord, AllWords, spaced, words, plain-IsAscii, spaced-IsAscii, pass_unquoted-AllPlain,
}

module _ (decode_rune : Bytes → ℕ × ℕ) (d : Decodes decode_rune) where
  -- The first byte of a word is no delimiter, and begins an unquoted text.
  first_byte :
      (b : ℕ)
      → IsPlain b
      → is_one_of (b'$' ∷ b'"' ∷ b'\'' ∷ b'=' ∷ b'{' ∷ b'[' ∷ []) b ≡ false
      → ((b == b'$') ≡ false)
        × (is_one_of (b'"' ∷ b'\'' ∷ []) b ≡ false)
        × ((b == b'=') ≡ false)
        × ((b == b' ') ≡ false)
        × (is_one_of (b',' ∷ b':' ∷ []) b ≡ false)
        × ((b == rune_error) ≡ false)
        × (is_one_of (b'{' ∷ b'[' ∷ []) b ≡ false)
  unfolding is_one_of
  first_byte b (small, stays, unquoted) first = (
    ground arith,
    ground arith,
    ground arith,
    ground arith,
    ground arith,
    ground arith,
    ground arith,
  )

  -- A word becomes a segment of its own.
  chop_segment-IsWord :
      (i : ℕ) (w : Bytes) (ws : List Bytes)
      → IsWord w
      → AllWords ws
      → chop_segment decode_rune rune_error (at rune_error i (w ++ spaced ws))
        ≡ gives (some (rune_array 0 false w), at rune_error (i + length w) (spaced ws))
  chop_segment-IsWord i [] ws word all = elim word [ ]
  chop_segment-IsWord i (b ∷ w) ws ((here, plain), first) all =
      let (dollar, quotes, equal, _, _, _, _) = first_byte b here first in
      let enough : length (b ∷ w) < suc (length (b ∷ w ++ spaced ws)) =
        omega (arith, length-append w (spaced ws)) in
      let passed =
        pass_unquoted-AllPlain decode_rune d (suc (length (b ∷ w ++ spaced ws))) i (b ∷ w) ws enough
          (here, plain) all in
      let after = at rune_error (i + length (b ∷ w)) (spaced ws) in
      chop_segment_unquoted decode_rune rune_error false (at rune_error i (b ∷ w ++ spaced ws))
        after dollar quotes equal passed
      ∙ ap (λ (text : Bytes). gives (some (rune_array 0 false text), after))
          (current_string-at decode_rune d rune_error i b w (spaced ws))

  one_space :
      (fuel i b : ℕ) (t : Bytes)
      → (b == b' ') ≡ false
      → IsAscii (b ∷ t)
      → pass_while decode_rune rune_error
          (suc (suc fuel))
          (is_space decode_rune rune_error)
          (at rune_error i (b' ' ∷ b ∷ t))
        ≡ gives (false, at rune_error (i + 1) (b ∷ t))
  one_space fuel i b t ne ascii =
      pass_while_go decode_rune rune_error (suc fuel) (is_space decode_rune rune_error)
        (at rune_error i (b' ' ∷ b ∷ t)) (at rune_error (i + 1) (b ∷ t)) refl
        (pop-at decode_rune d rune_error i b' ' (b ∷ t) ascii)
      ∙ no_spaces decode_rune d fuel (i + 1) b t ne

  -- In front of a word there are no delimiters but one space.
  pass_delimiters-IsWord :
      (i : ℕ) (w : Bytes) (ws : List Bytes)
      → IsWord w
      → pass_delimiters decode_rune rune_error (at rune_error i (w ++ spaced ws))
        ≡ gives (false, at rune_error i (w ++ spaced ws))
  pass_delimiters-IsWord i [] ws word = elim word [ ]
  pass_delimiters-IsWord i (b ∷ w) ws ((here, plain), first) =
      let (_, _, _, space, comma, _, _) = first_byte b here first in
      let sc = at rune_error i (b ∷ w ++ spaced ws) in
      let passed =
        no_spaces decode_rune d (length (b ∷ w ++ spaced ws)) i b (w ++ spaced ws) space in
      delimiters_none decode_rune rune_error sc sc passed comma passed

  pass_delimiters-spaced :
      (i : ℕ) (w : Bytes) (ws : List Bytes)
      → IsWord w
      → AllWords ws
      → pass_delimiters decode_rune rune_error (at rune_error i (b' ' ∷ (w ++ spaced ws)))
        ≡ gives (false, at rune_error (i + 1) (w ++ spaced ws))
  pass_delimiters-spaced i [] ws word all = elim word [ ]
  pass_delimiters-spaced i (b ∷ w) ws ((here, plain), first) all =
      let t = w ++ spaced ws in
      let (_, _, _, space, comma, _, _) = first_byte b here first in
      let (small, _, _) = here in
      let ascii = append-IsAscii w (spaced ws) (plain-IsAscii w plain) (spaced-IsAscii ws all) in
      delimiters_none decode_rune rune_error (at rune_error i (b' ' ∷ b ∷ t))
        (at rune_error (i + 1) (b ∷ t)) (one_space (length (b ∷ t)) i b t space (small, ascii))
        comma (no_spaces decode_rune d (length (b ∷ t)) (i + 1) b t space)

  -- The loop from a word on.
  chop_loop-IsWord :
      (fuel depth i : ℕ) (front : Segments) (w : Bytes) (ws : List Bytes) (sc : Scan)
      → IsWord w
      → AllWords ws
      → pass_delimiters decode_rune rune_error sc ≡ gives (false, at rune_error i (w ++ spaced ws))
      → chop_loop decode_rune (suc fuel) rune_error depth front sc
        ≡ chop_loop decode_rune fuel rune_error depth
            (link_to_tail front (rune_array 0 false w))
            (at rune_error (i + length w) (spaced ws))
  chop_loop-IsWord fuel depth i front [] ws sc word all passed = elim word [ ]
  chop_loop-IsWord fuel depth i front (b ∷ w) ws sc ((here, plain), first) all passed =
      let (_, _, _, _, _, other, bracket) = first_byte b here first in
      chop_loop_segment decode_rune rune_error fuel depth front sc
        (at rune_error i (b ∷ w ++ spaced ws)) (at rune_error (i + length (b ∷ w)) (spaced ws))
        (some (rune_array 0 false (b ∷ w))) passed other bracket
        (chop_segment-IsWord i (b ∷ w) ws ((here, plain), first) all)

  abbrev pub link_words : Segments → List Bytes → Segments
  link_words front [] = front
  link_words front (w ∷ ws) = link_words (link_to_tail front (rune_array 0 false w)) ws

  pub chop_loop-spaced :
      (fuel depth i : ℕ) (front : Segments) (ws : List Bytes)
      → length ws < fuel
      → AllWords ws
      → chop_loop decode_rune fuel rune_error depth front (at rune_error i (spaced ws))
        ≡ gives (link_words front ws, i + length (spaced ws), none)
  unfolding spaced chop_loop chop_round pass_delimiters pass_while is_one_of
  chop_loop-spaced zero depth i front ws lt all = absurd (omega arith)
  chop_loop-spaced (suc fuel) depth i front [] lt all =
      let same : i ≡ i + 0 = omega arith in ap (λ (k : ℕ). gives (front, k, none)) same
  chop_loop-spaced (suc fuel) depth i front (w ∷ ws) lt (word, all) =
      let count : i + 1 + length w + length (spaced ws) ≡ i + suc (length (w ++ spaced ws)) =
        omega (arith, length-append w (spaced ws)) in
      chop_loop-IsWord fuel depth (i + 1) front w ws (at rune_error i (b' ' ∷ (w ++ spaced ws)))
        word all (pass_delimiters-spaced i w ws word all)
      ∙ (chop_loop-spaced fuel depth (i + 1 + length w) (link_to_tail front (rune_array 0 false w))
            ws (omega arith) all
          ∙ rw count refl)

  link_words-next :
      (s : Segment) (front : Segments) (ws : List Bytes)
      → link_words (next s front) ws ≡ next s (link_words front ws)
  unfolding link_to_tail
  link_words-next s front [] = refl
  link_words-next s front (w ∷ ws) =
      link_words-next s (link_to_tail front (rune_array 0 false w)) ws

  link_words-words : (ws : List Bytes) → link_words last ws ≡ words ws
  unfolding link_to_tail words
  link_words-words [] = refl
  link_words-words (w ∷ ws) =
      link_words-next (rune_array 0 false w) last ws
      ∙ ap (λ s. next (rune_array 0 false w) s) (link_words-words ws)

  length-spaced : (ws : List Bytes) → length ws ≤ length (spaced ws)
  unfolding spaced
  length-spaced [] = omega arith
  length-spaced (w ∷ ws) = omega (arith, length-spaced ws, length-append w (spaced ws))

  loop_words :
      (w : Bytes) (ws : List Bytes)
      → IsWord w
      → AllWords ws
      → (n : ℕ) × (chop_loop decode_rune
            (2 * length (w ++ spaced ws) + 3)
            rune_error
            0
            last
            (scan_at decode_rune 0 (w ++ spaced ws))
          ≡ gives (words (w ∷ ws), n, none))
  loop_words [] ws word all = elim word [ ]
  loop_words (b ∷ w) ws ((here, plain), first) all =
      let text = b ∷ w ++ spaced ws in
      let (small, _, _) = here in
      let fuel : 2 * length text + 3 ≡ suc (2 * length text + 2) = omega arith in
      let n = 0 + length (b ∷ w) + length (spaced ws) in
      (
        n,
        rw (scan_at-at decode_rune d rune_error 0 b (w ++ spaced ws) small) (
            rw fuel (
              chop_loop-IsWord (2 * length text + 2) 0 0 last (b ∷ w) ws (at rune_error 0 text)
                ((here, plain), first) all
                (pass_delimiters-IsWord 0 (b ∷ w) ws ((here, plain), first))
              ∙ (chop_loop-spaced (2 * length text + 2) 0 (0 + length (b ∷ w))
                    (link_to_tail last (rune_array 0 false (b ∷ w))) ws
                    (omega (arith, length-spaced ws, length-append w (spaced ws))) all
                  ∙ ap (λ (s : Segments). gives (s, n, none)) (link_words-words ((b ∷ w) ∷ ws))))),
      )

  -- A line of words with single spaces between them, of 16 kilobytes at most, is parsed to the list of
  -- these words. A word is not empty, has only plain ASCII bytes (no space, comma, colon, quote or
  -- slash), and does not begin with one of `$'={[`.
  pub chop-words :
      (w : Bytes) (ws : List Bytes)
      → IsWord w
      → AllWords ws
      → length (w ++ spaced ws) ≤ 16 * 1024
      → chop decode_rune (w ++ spaced ws) ≡ gives (words (w ∷ ws), none)
  unfolding chop start_chop unwrap words
  chop-words w ws word all short =
      let (n, e) = loop_words w ws word all in
      let fits : ltb (16 * 1024) (length (w ++ spaced ws)) ≡ false = ground (arith, short) in
      rw (fits, start_chop, chop) (rw e refl)
