-- ===== src/Badjson/Steps.antt =====
-- One step of each loop of `chop`.
use knotfreeiot.Base.{
  ℕ, suc, ◌≡◌, refl, ap, ◌∙◌, Bool, true, false, ◌||◌, List, [], ◌∷◌, Option, some, ◌==◌,
  if◌then◌else◌, arith,
}
use knotfreeiot.Badjson.{Segment, Segments, rune_array, Run, gives, Scan, current_string, is_one_of}
use knotfreeiot.Badjson.Chop.{
  pop, pass_while, runes_of, is_space, pass_delimiters, pass_unquoted, chop_unquoted, skip_slash,
  pass_quoted, chop_quoted, chop_segment, link_some, Chopped, chop_round, chop_loop,
}

module _ (decode_rune : List ℕ → ℕ × ℕ) (closer : ℕ) where
  pub pass_while_go :
      (fuel : ℕ) (test : Scan → Run Bool) (sc sc' : Scan)
      → test sc ≡ gives true
      → pop decode_rune closer sc ≡ (false, sc')
      → pass_while decode_rune closer (suc fuel) test sc
        ≡ pass_while decode_rune closer fuel test sc'
  unfolding pass_while
  pass_while_go fuel test sc sc' t p = ground arith

  pub pass_while_stop :
      (fuel : ℕ) (test : Scan → Run Bool) (sc : Scan)
      → test sc ≡ gives false
      → pass_while decode_rune closer (suc fuel) test sc ≡ gives (false, sc)
  unfolding pass_while
  pass_while_stop fuel test sc t = rw (t, pass_while) refl

  pub unquoted_go :
      (fuel : ℕ) (had : Bool) (ended : Bool) (sc sc' : Scan)
      → is_one_of (b' ' ∷ b':' ∷ b',' ∷ closer ∷ []) sc.r ≡ false
      → pop decode_rune closer sc ≡ (ended, sc')
      → let had' = had || is_one_of (b'"' ∷ b'\\' ∷ []) sc.r in
        pass_unquoted decode_rune closer (suc fuel) had sc
        ≡ (if ended then gives (had', sc') else pass_unquoted decode_rune closer fuel had' sc')
  unfolding pass_unquoted
  unquoted_go fuel had true sc sc' stays p =
      let had' = had || is_one_of (b'"' ∷ b'\\' ∷ []) sc.r in
      rw (stays, pass_unquoted) (rw (ap (λ x. x.0) p) (ap (λ x. gives (had', x.1)) p))
  unquoted_go fuel had false sc sc' stays p =
      let had' = had || is_one_of (b'"' ∷ b'\\' ∷ []) sc.r in
      rw (stays, pass_unquoted)
        (rw (ap (λ x. x.0) p) (ap (λ x. pass_unquoted decode_rune closer fuel had' x.1) p))

  pub unquoted_stop :
      (fuel : ℕ) (had : Bool) (sc : Scan)
      → is_one_of (b' ' ∷ b':' ∷ b',' ∷ closer ∷ []) sc.r ≡ true
      → pass_unquoted decode_rune closer (suc fuel) had sc ≡ gives (had, sc)
  unfolding pass_unquoted
  unquoted_stop fuel had sc stops = rw (stops, pass_unquoted) refl

  pub delimiters_none :
      (sc a : Scan)
      → pass_while decode_rune closer
          (runes_of decode_rune closer sc)
          (is_space decode_rune closer)
          sc
        ≡ gives (false, a)
      → is_one_of (b',' ∷ b':' ∷ []) a.r ≡ false
      → pass_while decode_rune closer
          (runes_of decode_rune closer a)
          (is_space decode_rune closer)
          a
        ≡ gives (false, a)
      → pass_delimiters decode_rune closer sc ≡ gives (false, a)
  unfolding pass_delimiters
  delimiters_none sc a one comma two = rw (one, pass_delimiters) (rw comma two)

  pub chop_segment_unquoted :
      (had : Bool) (sc sc' : Scan)
      → (sc.r == b'$') ≡ false
      → is_one_of (b'"' ∷ b'\'' ∷ []) sc.r ≡ false
      → (sc.r == b'=') ≡ false
      → pass_unquoted decode_rune closer (runes_of decode_rune closer sc) false sc
        ≡ gives (had, sc')
      → chop_segment decode_rune closer sc
        ≡ gives (some (rune_array 0 had (current_string sc sc')), sc')
  unfolding chop_segment chop_unquoted
  chop_segment_unquoted had sc sc' dollar quote equal passed =
      rw (dollar, chop_segment) (rw quote (rw equal (rw (passed, chop_unquoted) refl)))

  chop_round_segment :
      (again : ℕ → ℕ → Segments → Scan → Run (Chopped decode_rune)) (depth : ℕ) (front : Segments)
      (a b : Scan) (s : Option Segment)
      → (a.r == closer) ≡ false
      → is_one_of (b'{' ∷ b'[' ∷ []) a.r ≡ false
      → chop_segment decode_rune closer a ≡ gives (s, b)
      → chop_round decode_rune again closer depth front false a
        ≡ again closer depth (link_some decode_rune front s) b
  unfolding chop_round
  chop_round_segment again depth front a b s other bracket found =
      rw (other, chop_round) (rw bracket (rw found refl))

  pub chop_loop_segment :
      (fuel depth : ℕ) (front : Segments) (sc a b : Scan) (s : Option Segment)
      → pass_delimiters decode_rune closer sc ≡ gives (false, a)
      → (a.r == closer) ≡ false
      → is_one_of (b'{' ∷ b'[' ∷ []) a.r ≡ false
      → chop_segment decode_rune closer a ≡ gives (s, b)
      → chop_loop decode_rune (suc fuel) closer depth front sc
        ≡ chop_loop decode_rune fuel closer depth (link_some decode_rune front s) b
  unfolding chop_loop
  chop_loop_segment fuel depth front sc a b s passed other bracket found =
      rw (passed, chop_loop)
        (chop_round_segment (chop_loop decode_rune fuel) depth front a b s other bracket found)

  pub quoted_stop :
      (fuel quote : ℕ) (had : Bool) (sc : Scan)
      → (sc.r == quote) ≡ true
      → pass_quoted decode_rune closer (suc fuel) quote had sc ≡ gives (had, sc)
  unfolding pass_quoted
  quoted_stop fuel quote had sc stops = rw (stops, pass_quoted) refl

  pub quoted_go :
      (fuel quote : ℕ) (had : Bool) (sc a b : Scan)
      → (sc.r == quote) ≡ false
      → skip_slash decode_rune closer sc ≡ (false, a)
      → pop decode_rune closer a ≡ (false, b)
      → pass_quoted decode_rune closer (suc fuel) quote had sc
        ≡ pass_quoted decode_rune closer fuel quote (had || is_one_of (b'\\' ∷ b'"' ∷ []) sc.r) b
  unfolding pass_quoted
  quoted_go fuel quote had sc a b stays p q =
      let had' = had || is_one_of (b'\\' ∷ b'"' ∷ []) sc.r in
      let again : pop decode_rune closer (skip_slash decode_rune closer sc).1 ≡ (false, b) =
        ap (λ x. pop decode_rune closer x.1) p ∙ q in
      rw (stays, pass_quoted)
        (rw (ap (λ x. x.0) p) (
          rw (ap (λ x. x.0) again)
            (ap (λ x. pass_quoted decode_rune closer fuel quote had' x.1) again)))

  pub chop_segment_quoted :
      (had : Bool) (sc start sc' : Scan)
      → (sc.r == b'$') ≡ false
      → is_one_of (b'"' ∷ b'\'' ∷ []) sc.r ≡ true
      → pop decode_rune closer sc ≡ (false, start)
      → pass_quoted decode_rune closer (runes_of decode_rune closer start) sc.r false start
        ≡ gives (had, sc')
      → chop_segment decode_rune closer sc
        ≡ gives
            (some (rune_array sc.r had (current_string start sc')), (pop decode_rune closer sc').1)
  unfolding chop_segment chop_quoted
  chop_segment_quoted had sc start sc' dollar quote p passed =
      rw (dollar, chop_segment) (rw quote (ground (arith, p, passed)))
