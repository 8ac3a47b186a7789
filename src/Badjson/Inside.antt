-- ===== src/Badjson/Inside.antt =====
-- The inside of a quoted text that `MakeEscaped` made (badjson/parse.go).
use knotfreeiot.Base.{
  ℕ, zero, suc, ◌+◌, ◌-◌, ◌<◌, ◌≡◌, refl, ap, ◌∙◌, Bytes, Bool, true, false, ◌||◌, [], ◌∷◌, ◌++◌,
  length, ◌==◌, Bool-cases, inl, inr, arith,
}
use knotfreeiot.Badjson.{gives, rune_error, Scan, current_string, is_one_of}
use knotfreeiot.Badjson.Chop.{pop, skip_slash, pass_quoted}
use knotfreeiot.Badjson.Steps.{quoted_stop, quoted_go}
use knotfreeiot.Badjson.Runes.{
  Decodes, IsAscii, at, is_over, append-IsAscii, at-i, pop-at, current_string-at,
}
use knotfreeiot.Badjson.Print.{Texts, make_escaped}

-- Is there a quote or a slash in the text?
unfoldable pub has_special : Bytes → Bool
has_special [] = false
has_special (r ∷ rs) = (r == b'\\' || r == b'"') || has_special rs

pub escaped-IsAscii : (s : Bytes) → IsAscii s → IsAscii (make_escaped s)
unfolding make_escaped
escaped-IsAscii [] all = tt
escaped-IsAscii (r ∷ rs) (small, all) = elim (Bool-cases (r == b'\\' || r == b'"')) [
  | inl e ↦ rw e (omega arith, (small, escaped-IsAscii rs all))
  | inr e ↦ rw e (small, escaped-IsAscii rs all)
]

-- A text without them is escaped to itself.
pub escaped_same : (s : Bytes) → has_special s ≡ false → make_escaped s ≡ s
unfolding make_escaped has_special
escaped_same [] none_there = refl
escaped_same (r ∷ rs) none_there =
    let here : (r == b'\\' || r == b'"') ≡ false = ground arith in
    rw here (ap (λ l. r ∷ l) (escaped_same rs (ground arith)))

abbrev pub end : Bytes
end = b'"' ∷ []

-- The runes of ASCII text are its bytes, and are written as these.
pub record WritesAscii (t : Texts) : Type 0 where
  pub runes_ascii : (bs : Bytes) → IsAscii bs → t.runes bs ≡ bs
  pub text_ascii : (bs : Bytes) → IsAscii bs → t.text bs ≡ bs

module _ (decode_rune : Bytes → ℕ × ℕ) (d : Decodes decode_rune) where
  pub pop_to :
      (i b : ℕ) (t : Bytes)
      → is_over t ≡ false
      → IsAscii t
      → pop decode_rune rune_error (at rune_error i (b ∷ t)) ≡ (false, at rune_error (i + 1) t)
  pop_to i b t more all =
      pop-at decode_rune d rune_error i b t all
      ∙ ap (λ (o : Bool). (o, at rune_error (i + 1) t)) more

  skip_none :
      (sc : Scan) → (sc.r == b'\\') ≡ false → skip_slash decode_rune rune_error sc ≡ (false, sc)
  unfolding skip_slash
  skip_none sc plain = rw plain refl

  skip_to :
      (i : ℕ) (t : Bytes)
      → is_over t ≡ false
      → IsAscii t
      → skip_slash decode_rune rune_error (at rune_error i (b'\\' ∷ t))
        ≡ (false, at rune_error (i + 1) t)
  unfolding skip_slash
  skip_to i t more all = pop_to i b'\\' t more all

  -- One escaped rune is passed.
  pass_escaped :
      (fuel i r : ℕ) (had : Bool) (t : Bytes)
      → is_over t ≡ false
      → r < 128
      → IsAscii t
      → pass_quoted decode_rune rune_error (suc fuel) b'"' had (at rune_error i (b'\\' ∷ r ∷ t))
        ≡ pass_quoted decode_rune rune_error fuel b'"' true (at rune_error (i + 1 + 1) t)
  unfolding is_one_of
  pass_escaped fuel i r had t more small all =
      let sc = at rune_error i (b'\\' ∷ r ∷ t) in
      let same : (had || is_one_of (b'\\' ∷ b'"' ∷ []) b'\\') ≡ true = ground arith in
      quoted_go decode_rune rune_error fuel b'"' had sc (at rune_error (i + 1) (r ∷ t))
        (at rune_error (i + 1 + 1) t) refl (skip_to i (r ∷ t) refl (small, all))
        (pop_to (i + 1) r t more all)
      ∙ ap
          (λ (h : Bool).
            pass_quoted decode_rune rune_error fuel b'"' h (at rune_error (i + 1 + 1) t))
          same

  pass_plain :
      (fuel i r : ℕ) (had : Bool) (t : Bytes)
      → (r == b'\\' || r == b'"') ≡ false
      → is_over t ≡ false
      → IsAscii t
      → pass_quoted decode_rune rune_error (suc fuel) b'"' had (at rune_error i (r ∷ t))
        ≡ pass_quoted decode_rune rune_error fuel b'"' had (at rune_error (i + 1) t)
  unfolding is_one_of
  pass_plain fuel i r had t plain more all =
      let slash : (r == b'\\') ≡ false = ground arith in
      let quote : (r == b'"') ≡ false = ground arith in
      let sc = at rune_error i (r ∷ t) in
      let same : (had || is_one_of (b'\\' ∷ b'"' ∷ []) r) ≡ had = ground arith in
      quoted_go decode_rune rune_error fuel b'"' had sc sc (at rune_error (i + 1) t) quote
        (skip_none sc slash) (pop_to i r t more all)
      ∙ ap (λ (h : Bool). pass_quoted decode_rune rune_error fuel b'"' h (at rune_error (i + 1) t))
          same

  pub end_more : (e : Bytes) → is_over (e ++ end) ≡ false
  end_more [] = refl
  end_more (b ∷ e) = refl

  -- The whole inside, up to the quote at the end.
  pub pass_quoted-escaped :
      (fuel i : ℕ) (had : Bool) (s : Bytes)
      → length (make_escaped s) < fuel
      → IsAscii s
      → pass_quoted decode_rune rune_error fuel b'"' had (at rune_error i (make_escaped s ++ end))
        ≡ gives (had || has_special s, at rune_error (i + length (make_escaped s)) end)
  unfolding make_escaped has_special
  pass_quoted-escaped zero i had s lt all = absurd (omega arith)
  pass_quoted-escaped (suc fuel) i had [] lt all =
      let zero_more : i ≡ i + 0 = omega arith in
      let same : had ≡ (had || false) = ground arith in
      quoted_stop decode_rune rune_error fuel b'"' had (at rune_error i end) refl
      ∙ (ap (λ (h : Bool). gives (h, at rune_error i end)) same
          ∙ ap (λ (k : ℕ). gives (had || false, at rune_error k end)) zero_more)
  pass_quoted-escaped (suc fuel) i had (r ∷ rs) lt (small, all) =
      let t = make_escaped rs ++ end in
      let ascii : IsAscii t =
        append-IsAscii (make_escaped rs) end (escaped-IsAscii rs all) (omega arith, tt) in
      let more = end_more (make_escaped rs) in
      elim (Bool-cases (r == b'\\' || r == b'"')) [
        | inl e ↦
            let n = length (make_escaped rs) in
            let count : i + 1 + 1 + n ≡ i + suc (suc n) = omega arith in
            let same : true ≡ (had || true) = ground arith in
            let bound : suc (suc n) < suc fuel = rw e at lt in
            rw e (
              pass_escaped fuel i r had t more small ascii
              ∙ (pass_quoted-escaped fuel (i + 1 + 1) true rs (omega arith) all
                  ∙ (ap (λ (k : ℕ). gives (true, at rune_error k end)) count
                      ∙ ap (λ (h : Bool). gives (h, at rune_error (i + suc (suc n)) end)) same)))
        | inr e ↦
            let n = length (make_escaped rs) in
            let count : i + 1 + n ≡ i + suc n = omega arith in
            let bound : suc n < suc fuel = rw e at lt in
            rw e (
              pass_plain fuel i r had t e more ascii
              ∙ (pass_quoted-escaped fuel (i + 1) had rs (omega arith) all
                  ∙ ap (λ (k : ℕ). gives (had || has_special rs, at rune_error k end)) count))
      ]

  pub current_inside :
      (i : ℕ) (w t : Bytes)
      → current_string (at rune_error i (w ++ t)) (at rune_error (i + length w) t) ≡ w
  unfolding current_string
  current_inside i [] t =
      let nothing : i + 0 - i ≡ 0 = omega arith in
      rw (at-i decode_rune d rune_error (i + 0) t, at-i decode_rune d rune_error i t)
        (rw nothing refl)
  current_inside i (b ∷ w) t = current_string-at decode_rune d rune_error i b w t

  pub at_rest : (i : ℕ) (t : Bytes) → (at rune_error i t).rest ≡ t
  at_rest i [] = refl
  at_rest i (b ∷ t) = refl
