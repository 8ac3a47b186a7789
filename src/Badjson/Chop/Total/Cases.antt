-- ===== src/Badjson/Chop/Total/Cases.antt =====
-- On the cases of the `switch` of `chop` (badjson/parse.go): how far each goes on.
use knotfreeiot.Base.{
  ℕ, zero, suc, ◌-◌, ◌<◌, ◌≤◌, ◌≡◌, ◌⊎◌, refl, ap, ◌∙◌, Bytes, Bool, true, false, ◌||◌, [], ◌∷◌,
  none, some, ltb, ◌==◌, Bool-cases, inl, inr, arith,
}
use knotfreeiot.Tokens.{is_b64}
use knotfreeiot.Badjson.{
  Segment, hex_bytes, base64_bytes, rune_array, Run, gives, ◌>>=◌, Scan, is_hex, in_table,
  current_string, is_one_of,
}
use knotfreeiot.Badjson.Chop.{
  pop, pass_while, runes_of, chop_hex, skip_slash, pass_quoted, chop_quoted, chop_base64,
  pass_unquoted, chop_unquoted, with_segment, chop_segment,
}
use knotfreeiot.Badjson.Chop.Total.{
  Ends, Ends-map, bind-Ends, Forward, left, IsValid, pop-IsValid, pop-Ends, pop_if-Ends, Passed,
  pass_while-Ends, is_delimiter,
}

module _ (decode_rune : Bytes → ℕ × ℕ) (fw : Forward decode_rune) (closer : ℕ) where
  -- A segment goes on, or stays before a delimiter.
  abbrev pub Chopping : Scan → Scan → Type 0
  Chopping sc b =
      IsValid decode_rune fw closer b
      × (left decode_rune fw closer b ≤ left decode_rune fw closer sc)
      × ((left decode_rune fw closer b < left decode_rune fw closer sc)
          ⊎ (is_delimiter decode_rune fw closer b ≡ true))

  abbrev pub Segmented : {A : Type 0} → Scan → A × Scan → Type 0
  Segmented sc (s, b) = Chopping sc b

  in_table-Ends : (test : ℕ → Bool) (x : Scan) → Ends (λ _. Unit {0}) (in_table test x)
  unfolding in_table
  in_table-Ends test x = elim (Bool-cases (x.rune_length == 1)) [
    | inr e ↦ rw e tt
    | inl e ↦ elim (Bool-cases (ltb x.r 256)) [ inl t ↦ rw e (rw t tt) | inr t ↦ rw e (rw t tt) ]
  ]

  pass_table-Ends :
      (test : Scan → Run Bool) (sc : Scan)
      → ((x : Scan) → Ends (λ _. Unit {0}) (test x))
      → IsValid decode_rune fw closer sc
      → Ends
          (Passed decode_rune fw closer test sc)
          (pass_while decode_rune closer (runes_of decode_rune closer sc) test sc)
  pass_table-Ends test sc ends valid =
      pass_while-Ends decode_rune fw closer (runes_of decode_rune closer sc) test sc ends
        (omega arith) valid

  chop_hex-Ends :
      (sc : Scan)
      → IsValid decode_rune fw closer sc
      → 1 ≤ left decode_rune fw closer sc
      → Ends (Segmented sc) (chop_hex decode_rune closer sc)
  unfolding chop_hex
  chop_hex-Ends sc valid some_left =
      pop_if-Ends decode_rune fw closer (Segmented sc) sc (λ a. gives (hex_bytes [], a))
        (λ a.
          pass_while decode_rune closer (runes_of decode_rune closer a) (in_table is_hex) a
          >>= λ (_, b). gives (hex_bytes (current_string a b), b))
        valid.sized (λ a ok le. (ok, omega (arith, le), inl (omega (arith, le, some_left))))
        (λ a ok le more.
          bind-Ends (Passed decode_rune fw closer (in_table is_hex) a) (Segmented sc) _ _
            (pass_table-Ends (in_table is_hex) a (in_table-Ends is_hex) ok)
            λ (_, b) (okb, leb, _).
              (okb, omega (arith, le, leb), inl (omega (arith, le, leb, some_left))))

  chop_base64-Ends :
      (sc : Scan)
      → IsValid decode_rune fw closer sc
      → 1 ≤ left decode_rune fw closer sc
      → Ends (Segmented sc) (chop_base64 decode_rune closer sc)
  unfolding chop_base64
  chop_base64-Ends sc valid some_left =
      pop_if-Ends decode_rune fw closer (Segmented sc) sc
        (λ a. gives (base64_bytes (current_string sc a), a))
        (λ a.
          pass_while decode_rune closer (runes_of decode_rune closer a) (in_table is_b64) a
          >>= λ (_, b).
              pass_while decode_rune closer (runes_of decode_rune closer b)
                (λ x. gives (x.r == b'=')) b
              >>= λ (_, c). gives (base64_bytes (current_string a c), c))
        valid.sized (λ a ok le. (ok, omega (arith, le), inl (omega (arith, le, some_left))))
        (λ a ok le more.
          bind-Ends (Passed decode_rune fw closer (in_table is_b64) a) (Segmented sc) _ _
            (pass_table-Ends (in_table is_b64) a (in_table-Ends is_b64) ok)
            λ (_, b) (okb, leb, _).
              bind-Ends (Passed decode_rune fw closer (λ x. gives (x.r == b'=')) b) (Segmented sc) _
                _ (pass_table-Ends (λ x. gives (x.r == b'=')) b (λ x. tt) okb)
                λ (_, c) (okc, lec, _).
                  (okc, omega (arith, le, leb, lec), inl (omega (arith, le, leb, lec, some_left))))

  abbrev Inside : Scan → Bool × Scan → Type 0
  Inside sc (had, b) =
      IsValid decode_rune fw closer b
      × (left decode_rune fw closer b ≤ left decode_rune fw closer sc)

  Inside-later :
      (sc a : Scan)
      → left decode_rune fw closer a ≤ left decode_rune fw closer sc
      → (x : Bool × Scan) → Inside a x
      → Inside sc x
  Inside-later sc a le (had, b) (ok, le') = (ok, omega (arith, le, le'))

  skip-IsValid :
      (sc : Scan)
      → IsValid decode_rune fw closer sc
      → IsValid decode_rune fw closer (skip_slash decode_rune closer sc).1
        × (left decode_rune fw closer (skip_slash decode_rune closer sc).1
            ≤ left decode_rune fw closer sc)
  unfolding skip_slash
  skip-IsValid sc valid = elim (Bool-cases (sc.r == b'\\')) [
    | inl e ↦ rw e (
        let (ok, le, _) = pop-IsValid decode_rune fw closer sc valid.sized in
        (ok, omega (arith, le)))
    | inr e ↦ rw e (valid, omega arith)
  ]

  pass_quoted-Ends :
      (fuel quote : ℕ) (had : Bool) (sc : Scan)
      → left decode_rune fw closer sc < fuel
      → IsValid decode_rune fw closer sc
      → Ends (Inside sc) (pass_quoted decode_rune closer fuel quote had sc)
  unfolding pass_quoted
  pass_quoted-Ends zero quote had sc lt valid = absurd (omega arith)
  pass_quoted-Ends (suc fuel) quote had sc lt valid =
      let had' = had || is_one_of (b'\\' ∷ b'"' ∷ []) sc.r in
      let on : (a b : Scan)
          → left decode_rune fw closer a ≤ left decode_rune fw closer sc
          → IsValid decode_rune fw closer b
          → left decode_rune fw closer b ≤ left decode_rune fw closer a - 1
          → 1 ≤ left decode_rune fw closer b
          → Ends (Inside sc) (pass_quoted decode_rune closer fuel quote had' b) =
        λ a b le ok le' more.
          Ends-map (Inside b) (Inside sc) (pass_quoted decode_rune closer fuel quote had' b)
            (Inside-later sc b (omega (arith, le, le')))
            (pass_quoted-Ends fuel quote had' b (omega (arith, le, le', lt, more)) ok) in
      elim (Bool-cases (sc.r == quote)) [
        | inl e ↦ rw (e, pass_quoted) (valid, omega arith)
        | inr e ↦
            let (oka, lea) = skip-IsValid sc valid in
            let a = (skip_slash decode_rune closer sc).1 in
            rw (e, pass_quoted)
              (elim (Bool-cases (skip_slash decode_rune closer sc).0) [
                | inl over ↦ rw over (oka, lea)
                | inr more ↦ rw more (
                    pop-Ends decode_rune fw closer (Inside sc) a (λ b. gives (had', b))
                      (pass_quoted decode_rune closer fuel quote had') oka.sized
                      (λ b ok le. (ok, omega (arith, le, lea)))
                      (λ b ok le nonempty. on a b lea ok le nonempty))
              ])
      ]

  chop_quoted-Ends :
      (sc : Scan)
      → IsValid decode_rune fw closer sc
      → 1 ≤ left decode_rune fw closer sc
      → Ends (Segmented sc) (chop_quoted decode_rune closer sc)
  unfolding chop_quoted
  chop_quoted-Ends sc valid some_left =
      pop_if-Ends decode_rune fw closer (Segmented sc) sc (λ a. gives (none, a))
        (λ a.
          pass_quoted decode_rune closer (runes_of decode_rune closer a) sc.r false a
          >>= λ (had, b).
              gives (some (rune_array sc.r had (current_string a b)), (pop decode_rune closer b).1))
        valid.sized (λ a ok le. (ok, omega (arith, le), inl (omega (arith, le, some_left))))
        (λ a ok le more.
          bind-Ends (Inside a) (Segmented sc) _ _
            (pass_quoted-Ends (runes_of decode_rune closer a) sc.r false a (omega arith) ok)
            λ (had, b) (okb, leb).
              let (okc, lec, _) = pop-IsValid decode_rune fw closer b okb.sized in
              (okc, omega (arith, le, leb, lec), inl (omega (arith, le, leb, lec, some_left))))

  abbrev stops : Scan → Bool
  stops sc = is_one_of (b' ' ∷ b':' ∷ b',' ∷ closer ∷ []) sc.r

  abbrev Unquoted : Scan → Bool × Scan → Type 0
  Unquoted sc (had, b) =
      IsValid decode_rune fw closer b
      × (left decode_rune fw closer b ≤ left decode_rune fw closer sc)
      × ((left decode_rune fw closer b < left decode_rune fw closer sc)
          ⊎ ((b ≡ sc) × (stops sc ≡ true)))

  goes_on :
      (sc : Scan)
      → IsValid decode_rune fw closer sc
      → stops sc ≡ false
      → 1 ≤ left decode_rune fw closer sc
  unfolding is_one_of
  goes_on sc valid go = elim (Bool-cases (left decode_rune fw closer sc == 0)) [
    | inl z ↦ let same : sc.r ≡ closer = valid.at_end (ground arith) in absurd (ground arith)
    | inr n ↦ ground arith
  ]

  pass_unquoted-Ends :
      (fuel : ℕ) (had : Bool) (sc : Scan)
      → left decode_rune fw closer sc < fuel
      → IsValid decode_rune fw closer sc
      → Ends (Unquoted sc) (pass_unquoted decode_rune closer fuel had sc)
  unfolding pass_unquoted
  pass_unquoted-Ends zero had sc lt valid = absurd (omega arith)
  pass_unquoted-Ends (suc fuel) had sc lt valid =
      let had' = had || is_one_of (b'"' ∷ b'\\' ∷ []) sc.r in
      elim (Bool-cases (stops sc)) [
        | inl e ↦ rw (e, pass_unquoted) (valid, omega arith, inr (refl, e))
        | inr e ↦
            let some_left = goes_on sc valid e in
            rw (e, pass_unquoted)
              (pop-Ends decode_rune fw closer (Unquoted sc) sc (λ b. gives (had', b))
                (pass_unquoted decode_rune closer fuel had') valid.sized
                (λ b ok le. (ok, omega (arith, le), inl (omega (arith, le, some_left))))
                (λ b ok le more.
                  Ends-map (Unquoted b) (Unquoted sc) (pass_unquoted decode_rune closer fuel had' b)
                    (λ (_, c) (okc, lec, _).
                      (okc, omega (arith, le, lec), inl (omega (arith, le, lec, some_left))))
                    (pass_unquoted-Ends fuel had' b (omega (arith, le, lt, some_left)) ok)))
      ]

  unquoted_delimiter :
      (sc : Scan)
      → (sc.r == closer) ≡ false
      → stops sc ≡ true
      → is_delimiter decode_rune fw closer sc ≡ true
  unfolding is_one_of
  unquoted_delimiter sc other stop = ground arith

  chop_unquoted-Ends :
      (sc : Scan)
      → IsValid decode_rune fw closer sc
      → (sc.r == closer) ≡ false
      → Ends (Segmented sc) (chop_unquoted decode_rune closer sc)
  unfolding chop_unquoted
  chop_unquoted-Ends sc valid other =
      bind-Ends (Unquoted sc) (Segmented sc) _ _
        (pass_unquoted-Ends (runes_of decode_rune closer sc) false sc (omega arith) valid)
        λ (had, b) (ok, le, moves). (
          ok,
          le,
          elim moves [
            | inl lt ↦ inl lt
            | inr (same, stop) ↦ inr (
                ap (λ (x : Scan). is_delimiter decode_rune fw closer x) same
                ∙ unquoted_delimiter sc other stop)
          ],
        )

  with_segment-Ends :
      (sc : Scan) (run : Run (Segment × Scan))
      → Ends (Segmented sc) run
      → Ends (Segmented sc) (with_segment decode_rune closer run)
  with_segment-Ends sc run ends = bind-Ends (Segmented sc) (Segmented sc) run _ ends λ (s, b) q. q

  pub chop_segment-Ends :
      (sc : Scan)
      → IsValid decode_rune fw closer sc
      → (sc.r == closer) ≡ false
      → 1 ≤ left decode_rune fw closer sc
      → Ends (Segmented sc) (chop_segment decode_rune closer sc)
  unfolding chop_segment
  chop_segment-Ends sc valid other some_left = elim (Bool-cases (sc.r == b'$')) [
    | inl e ↦ rw (e, chop_segment) (with_segment-Ends sc _ (chop_hex-Ends sc valid some_left))
    | inr e ↦ elim (Bool-cases (is_one_of (b'"' ∷ b'\'' ∷ []) sc.r)) [
      | inl q ↦ rw (e, chop_segment) (rw q (chop_quoted-Ends sc valid some_left))
      | inr q ↦ elim (Bool-cases (sc.r == b'=')) [
        | inl b ↦
            rw (e, chop_segment)
              (rw q (rw b (with_segment-Ends sc _ (chop_base64-Ends sc valid some_left))))
        | inr b ↦
            rw (e, chop_segment)
              (rw q (rw b (with_segment-Ends sc _ (chop_unquoted-Ends sc valid other))))
      ]
    ]
  ]
