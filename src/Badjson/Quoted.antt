-- ===== src/Badjson/Quoted.antt =====
-- What is printed in quotes is parsed again.
use knotfreeiot.Base.{
  ℕ, suc, ◌+◌, ◌*◌, ◌<◌, ◌≤◌, ◌≡◌, refl, ap, ◌∙◌, Bytes, false, [], ◌∷◌, ◌++◌, none, some, length,
  length-append, ltb, Bool-cases, inl, inr, arith,
}
use knotfreeiot.Badjson.{
  link_to_tail, Segment, rune_array, last, next, gives, rune_error, is_one_of,
}
use knotfreeiot.Badjson.Chop.{scan_at, pop, chop_segment, start_chop, chop_loop, unwrap, chop}
use knotfreeiot.Badjson.Steps.{chop_segment_quoted, delimiters_none, chop_loop_segment}
use knotfreeiot.Badjson.Runes.{Decodes, IsAscii, at, append-IsAscii, scan_at-at, pop-at, no_spaces}
use knotfreeiot.Badjson.Words.{chop_loop-spaced}
use knotfreeiot.Badjson.Spaced.{spaced}
use knotfreeiot.Badjson.Print.{
  Texts, make_escaped, quoted, quoted_runes, raw_runes, get_quoted, raw,
}
use knotfreeiot.Badjson.Print.Escapes.{make_unescaped-make_escaped}
use knotfreeiot.Badjson.Inside.{
  has_special, escaped-IsAscii, escaped_same, end, WritesAscii, pop_to, end_more,
  pass_quoted-escaped, current_inside, at_rest,
}

module _ (decode_rune : Bytes → ℕ × ℕ) (d : Decodes decode_rune) where
  -- One quoted text is one segment.
  segment-quoted :
      (s : Bytes)
      → IsAscii s
      → chop_segment decode_rune rune_error (at rune_error 0 (b'"' ∷ (make_escaped s ++ end)))
        ≡ gives (
          some (rune_array b'"' (has_special s) (make_escaped s)),
          at rune_error (0 + 1 + length (make_escaped s) + 1) [],
        )
  unfolding is_one_of
  segment-quoted s all =
      let inside = make_escaped s ++ end in
      let ascii : IsAscii inside =
        append-IsAscii (make_escaped s) end (escaped-IsAscii s all) (omega arith, tt) in
      let start = at rune_error (0 + 1) inside in
      let sc' = at rune_error (0 + 1 + length (make_escaped s)) end in
      let enough : length (make_escaped s) < suc (length start.rest) = omega (
        arith,
        ap (λ (l : Bytes). length l) (at_rest decode_rune d (0 + 1) inside),
        length-append (make_escaped s) end,
      ) in
      let passed =
        pass_quoted-escaped decode_rune d (suc (length start.rest)) (0 + 1) false s enough all in
      let over = pop-at decode_rune d rune_error (0 + 1 + length (make_escaped s)) b'"' [] tt in
      chop_segment_quoted decode_rune rune_error (has_special s) (at rune_error 0 (b'"' ∷ inside))
        start sc' refl refl
        (pop_to decode_rune d 0 b'"' inside (end_more decode_rune d (make_escaped s)) ascii) passed
      ∙ (ap
            (λ (text : Bytes).
              gives
                (some (rune_array b'"' (has_special s) text), (pop decode_rune rune_error sc').1))
            (current_inside decode_rune d (0 + 1) (make_escaped s) end)
          ∙ ap (λ x. gives (some (rune_array b'"' (has_special s) (make_escaped s)), x.1)) over)

  loop_quoted :
      (s : Bytes)
      → IsAscii s
      → (n : ℕ) × (chop_loop decode_rune
            (2 * length (b'"' ∷ (make_escaped s ++ end)) + 3)
            rune_error
            0
            last
            (scan_at decode_rune 0 (b'"' ∷ (make_escaped s ++ end)))
          ≡ gives (next (rune_array b'"' (has_special s) (make_escaped s)) last, n, none))
  unfolding spaced link_to_tail is_one_of
  loop_quoted s all =
      let inside = make_escaped s ++ end in
      let sc = at rune_error 0 (b'"' ∷ inside) in
      let n = 0 + 1 + length (make_escaped s) + 1 in
      let rounds = 2 * length (b'"' ∷ inside) + 2 in
      let fuel : 2 * length (b'"' ∷ inside) + 3 ≡ suc rounds = omega arith in
      let seg = rune_array b'"' (has_special s) (make_escaped s) in
      let spaces = no_spaces decode_rune d (length (b'"' ∷ inside)) 0 b'"' inside refl in
      (
        n + 0,
        rw (scan_at-at decode_rune d rune_error 0 b'"' inside (omega arith)) (
            rw fuel (
              chop_loop_segment decode_rune rune_error rounds 0 last sc sc (at rune_error n [])
                (some seg) (delimiters_none decode_rune rune_error sc sc spaces refl spaces) refl
                refl (segment-quoted s all)
              ∙ chop_loop-spaced decode_rune d rounds 0 n (next seg last) [] (omega arith) tt)),
      )

  chop-quoted :
      (s : Bytes)
      → IsAscii s
      → length (b'"' ∷ (make_escaped s ++ end)) ≤ 16 * 1024
      → chop decode_rune (b'"' ∷ (make_escaped s ++ end))
        ≡ gives (next (rune_array b'"' (has_special s) (make_escaped s)) last, none)
  unfolding chop start_chop unwrap
  chop-quoted s all short =
      let (n, e) = loop_quoted s all in
      let fits : ltb (16 * 1024) (length (b'"' ∷ (make_escaped s ++ end))) ≡ false =
        ground (arith, short) in
      rw (fits, start_chop, chop) (rw e refl)

  raw-quoted :
      (t : Texts) (s : Bytes)
      → WritesAscii t
      → IsAscii s
      → raw t (rune_array b'"' (has_special s) (make_escaped s)) ≡ s
  unfolding raw raw_runes
  raw-quoted t s writes all = elim (Bool-cases (has_special s)) [
    | inl e ↦ rw e (
        rw (writes.runes_ascii (make_escaped s) (escaped-IsAscii s all))
          (rw (make_unescaped-make_escaped s) (writes.text_ascii s all)))
    | inr e ↦ rw e (escaped_same s e)
  ]

  get_quoted-ascii :
      (t : Texts) (s : Bytes)
      → WritesAscii t
      → IsAscii s
      → get_quoted t (rune_array 0 false s) ≡ b'"' ∷ (make_escaped s ++ end)
  unfolding get_quoted quoted_runes quoted
  get_quoted-ascii t s writes all =
      rw (writes.runes_ascii s all)
        (rw (writes.text_ascii (make_escaped s) (escaped-IsAscii s all)) refl)

  -- Text that is printed in quotes by `GetQuoted` is parsed to one segment, whose `Raw` is the text,
  -- whatever quotes and slashes it has. This is for ASCII text whose printed form has at most 16
  -- kilobytes.
  pub chop-get_quoted :
      (t : Texts) (s : Bytes)
      → WritesAscii t
      → IsAscii s
      → length (get_quoted t (rune_array 0 false s)) ≤ 16 * 1024
      → (seg : Segment) × (chop decode_rune (get_quoted t (rune_array 0 false s))
          ≡ gives (next seg last, none))
        × (raw t seg ≡ raw t (rune_array 0 false s))
  unfolding raw raw_runes
  chop-get_quoted t s writes all short =
      let printed = get_quoted-ascii t s writes all in
      (
        rune_array b'"' (has_special s) (make_escaped s),
        rw printed (chop-quoted s all (rw printed at short)),
        raw-quoted t s writes all,
      )
