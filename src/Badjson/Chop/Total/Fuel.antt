-- ===== src/Badjson/Chop/Total/Fuel.antt =====
-- On the rounds that `chop` takes (badjson/parse.go).
use knotfreeiot.Base.{
  ℕ, zero, suc, ◌+◌, ◌*◌, ◌<◌, ◌≤◌, ◌≡◌, ◌≢◌, refl, ap, Bytes, Bool, true, false, ◌||◌, [], ◌∷◌,
  Option, none, some, length, drop, length-drop, ltb, ◌==◌, Bool-cases, inl, inr, if◌then◌else◌,
  arith,
}
use knotfreeiot.Badjson.{
  Segments, parent, last, link_to_tail, Run, gives, out_of_fuel, ◌>>=◌, ChopError, rune_error, Scan,
  is_one_of,
}
use knotfreeiot.Badjson.Chop.{
  scan_at, Chopped, pop, pass_delimiters, chop_segment, link_some, start_chop, chop_round,
  chop_loop, chop,
}
use knotfreeiot.Badjson.Chop.Total.{
  Ends, bind-Ends, Forward, IsValid, pop-IsValid, IsCloser, is_delimiter, Delimited,
  pass_delimiters-Ends,
}
use knotfreeiot.Badjson.Chop.Total.Cases.{Segmented, chop_segment-Ends}

module _ (decode_rune : Bytes → ℕ × ℕ) (fw : Forward decode_rune) where
  abbrev Any : {A : Type 0} → A → Type 0
  Any a = Unit {0}

  -- Two for every byte that is left, and one more unless a delimiter comes first.
  unfoldable weight : Scan → ℕ
  weight sc = 2 * length sc.rest + (if is_delimiter decode_rune fw rune_error sc then 0 else 1)

  weight-le : (sc : Scan) → weight sc ≤ 2 * length sc.rest + 1
  unfolding weight
  weight-le sc = elim (Bool-cases (is_delimiter decode_rune fw rune_error sc)) [
    | inl e ↦ rw e (omega arith)
    | inr e ↦ rw e (omega arith)
  ]

  weight_delimiter :
      (sc : Scan)
      → is_delimiter decode_rune fw rune_error sc ≡ true
      → weight sc ≤ 2 * length sc.rest
  unfolding weight
  weight_delimiter sc e = rw e (omega arith)

  weight_other :
      (sc : Scan)
      → is_delimiter decode_rune fw rune_error sc ≡ false
      → 2 * length sc.rest + 1 ≤ weight sc
  unfolding weight
  weight_other sc e = rw e (omega arith)

  le-weight : (sc : Scan) → 2 * length sc.rest ≤ weight sc
  unfolding weight
  le-weight sc = omega arith

  scan_at-IsValid :
      (closer : ℕ) (text : Bytes)
      → 1 ≤ length text
      → IsValid decode_rune fw closer (scan_at decode_rune 0 text)
  unfolding scan_at
  scan_at-IsValid closer [] some_left = absurd (omega arith)
  scan_at-IsValid closer (b ∷ bs) some_left = record {
    at_end = λ h. absurd (omega (arith, h));
    sized = λ h. fw.rune_size b bs;
  }

  start_chop-Ends :
      (loop : Scan → Run (Chopped decode_rune)) (depth : ℕ) (text : Bytes)
      → Ends Any (loop (scan_at decode_rune 0 text))
      → Ends Any (start_chop decode_rune loop depth text)
  unfolding start_chop
  start_chop-Ends loop depth text ends = elim (Bool-cases (ltb (16 * 1024) (length text))) [
    | inl e ↦ rw (e, start_chop) tt
    | inr e ↦ elim (Bool-cases (ltb 16 depth)) [
      | inl d ↦ rw (e, start_chop) (rw d tt)
      | inr d ↦ rw (e, start_chop) (rw d ends)
    ]
  ]

  -- The loop ends on every text of a smaller weight.
  abbrev Again : ℕ → (ℕ → ℕ → Segments → Scan → Run (Chopped decode_rune)) → Type 0
  Again fuel again =
      (closer depth : ℕ) (front : Segments) (sc : Scan)
      → IsCloser decode_rune fw closer
      → IsValid decode_rune fw closer sc
      → weight sc < fuel
      → Ends Any (again closer depth front sc)

  open_left :
      (closer : ℕ) (a : Scan)
      → IsValid decode_rune fw closer a
      → (a.r == closer) ≡ false
      → 1 ≤ length a.rest
  open_left closer a valid other = elim (Bool-cases (length a.rest == 0)) [
    | inl z ↦ let same : a.r ≡ closer = valid.at_end (ground arith) in absurd (ground arith)
    | inr n ↦ ground arith
  ]

  bracket-IsCloser : (b : Bool) → IsCloser decode_rune fw (if b then b'}' else b']')
  unfolding is_one_of
  bracket-IsCloser true = refl
  bracket-IsCloser false = refl

  segment_round :
      (fuel : ℕ) (again : ℕ → ℕ → Segments → Scan → Run (Chopped decode_rune)) (closer depth : ℕ)
      (front : Segments) (a : Scan)
      → Again fuel again
      → IsCloser decode_rune fw closer
      → IsValid decode_rune fw closer a
      → (a.r == closer) ≡ false
      → 2 * length a.rest + 1 ≤ fuel
      → Ends Any (
          chop_segment decode_rune closer a >>= λ (s, b).
          again closer depth (link_some decode_rune front s) b)
  segment_round fuel again closer depth front a ends close valid other enough =
      bind-Ends (Segmented decode_rune fw closer a) Any (chop_segment decode_rune closer a) _
        (chop_segment-Ends decode_rune fw closer a valid other (open_left closer a valid other))
        λ (s, b) (ok, le, moves).
          ends closer depth (link_some decode_rune front s) b close ok (elim moves [
            | inl lt ↦ omega (arith, weight-le b, lt, enough)
            | inr d ↦ omega (arith, weight_delimiter b d, le, enough)
          ])

  either_list :
      {A : Type 0} (l : Bytes) (x y : Run A)
      → Ends Any x
      → Ends Any y
      → Ends Any (elim l [ [] ↦ x | _ ∷ _ ↦ y ])
  either_list [] x y one two = one
  either_list (b ∷ bs) x y one two = two

  either_option :
      {A E : Type 0} (o : Option E) (x : E → Run A) (y : Run A)
      → ((e : E) → Ends Any (x e))
      → Ends Any y
      → Ends Any (elim o [ some e ↦ x e | none ↦ y ])
  either_option none x y one two = two
  either_option (some e) x y one two = one e

  scan_at-rest : (text : Bytes) → (scan_at decode_rune 0 text).rest ≡ text
  unfolding scan_at
  scan_at-rest text = refl

  -- What follows when the inside of a bracket was parsed.
  after_bracket :
      (fuel : ℕ) (again : ℕ → ℕ → Segments → Scan → Run (Chopped decode_rune)) (closer depth : ℕ)
      (front front' : Segments) (b : Scan) (newi : ℕ) (err : Option ChopError)
      → Again fuel again
      → IsCloser decode_rune fw closer
      → IsValid decode_rune fw closer b
      → 2 * length b.rest + 3 ≤ fuel
      → let after = record b { i = b.i + newi; rest = drop newi b.rest } in
        Ends Any (elim err as (λ _. Run (Chopped decode_rune)) [
          | some e ↦ gives (front, b.i + newi, some e)
          | none ↦ elim (drop newi b.rest) [
            | [] ↦ gives (front', b.i + length b.rest, none)
            | _ ∷ _ ↦ again closer depth front' (pop decode_rune closer after).1
          ]
        ])
  after_bracket fuel again closer depth front front' b newi (some e) ends close valid enough = tt
  after_bracket fuel again closer depth front front' b newi none ends close valid enough =
      let after = record b { i = b.i + newi; rest = drop newi b.rest } in
      let short = length-drop newi b.rest in
      let (ok, le, _) =
        pop-IsValid decode_rune fw closer after (λ h. valid.sized (omega (arith, h, short))) in
      either_list (drop newi b.rest) (gives (front', b.i + length b.rest, none))
        (again closer depth front' (pop decode_rune closer after).1) tt
        (ends closer depth front' (pop decode_rune closer after).1 close ok
          (omega (arith, weight-le (pop decode_rune closer after).1, le, short, enough)))

  chop_round-Ends :
      (fuel : ℕ) (again : ℕ → ℕ → Segments → Scan → Run (Chopped decode_rune)) (closer depth : ℕ)
      (front : Segments) (ended : Bool) (a : Scan)
      → Again fuel again
      → IsCloser decode_rune fw closer
      → IsValid decode_rune fw closer a
      → 2 * length a.rest + 1 ≤ fuel
      → Ends Any (chop_round decode_rune again closer depth front ended a)
  unfolding chop_round
  chop_round-Ends fuel again closer depth front ended a ends close valid enough =
      elim (Bool-cases (ended || a.r == closer)) [
        | inl e ↦ rw (e, chop_round) tt
        | inr e ↦
            let other : (a.r == closer) ≡ false = ground arith in
            let some_left = open_left closer a valid other in
            let b = (pop decode_rune closer a).1 in
            let (ok, le, nonempty) = pop-IsValid decode_rune fw closer a valid.sized in
            elim (Bool-cases (is_one_of (b'{' ∷ b'[' ∷ []) a.r)) [
              | inr plain ↦
                  rw (e, chop_round)
                    (rw plain
                      (segment_round fuel again closer depth front a ends close valid other enough))
              | inl bracket ↦ elim (Bool-cases (pop decode_rune closer a).0) [
                | inl over ↦
                    rw (e, chop_round)
                      (rw bracket (
                        rw over (
                          ends closer depth front b close ok
                            (omega (arith, weight-le b, le, some_left, enough)))))
                | inr more ↦
                    let closer' : ℕ = (if a.r == b'{' then b'}' else b']') in
                    let inner = scan_at decode_rune 0 b.rest in
                    let room : 2 * length b.rest + 3 ≤ fuel =
                      omega (arith, le, some_left, enough) in
                    let size = ap (λ (l : Bytes). length l) (scan_at-rest b.rest) in
                    let nested =
                      start_chop-Ends (again closer' (suc depth) last) (suc depth) b.rest (
                        ends closer' (suc depth) last inner (bracket-IsCloser (a.r == b'{'))
                          (scan_at-IsValid closer' b.rest (nonempty more))
                          (omega (arith, weight-le inner, size, le, some_left, enough))) in
                    rw (e, chop_round)
                      (rw bracket (
                        rw more (
                          bind-Ends Any Any
                            (start_chop decode_rune (again closer' (suc depth) last) (suc depth)
                              b.rest)
                            _ nested
                            λ (children, newi, err) _.
                              after_bracket fuel again closer depth front
                                (link_to_tail front (parent children (a.r == b'['))) b newi err ends
                                close ok room)))
              ]
            ]
      ]

  chop_loop-Ends : (fuel : ℕ) → Again fuel (chop_loop decode_rune fuel)
  unfolding chop_loop chop_round
  chop_loop-Ends zero closer depth front sc close valid lt = absurd (omega arith)
  chop_loop-Ends (suc fuel) closer depth front sc close valid lt =
      bind-Ends (Delimited decode_rune fw closer sc) Any (pass_delimiters decode_rune closer sc) _
        (pass_delimiters-Ends decode_rune fw closer sc valid)
        λ (ended, a) (ok, le, moves). elim (Bool-cases ended) [
          | inl over ↦ rw over tt
          | inr more ↦
              let room : 2 * length a.rest + 1 ≤ fuel =
                elim (Bool-cases (is_delimiter decode_rune fw closer sc)) [
                  | inl d ↦ omega (arith, moves more d, lt, le-weight sc)
                  | inr d ↦ omega (arith, le, lt, weight_other sc d)
                ] in
              chop_round-Ends fuel (chop_loop decode_rune fuel) closer depth front ended a
                (chop_loop-Ends fuel) close ok room
        ]

  start-IsValid : (text : Bytes) → IsValid decode_rune fw rune_error (scan_at decode_rune 0 text)
  unfolding scan_at
  start-IsValid [] = record { at_end = λ h. fw.no_rune; sized = λ h. absurd (omega (arith, h)) }
  start-IsValid (b ∷ bs) = record {
    at_end = λ h. absurd (omega (arith, h));
    sized = λ h. fw.rune_size b bs;
  }

  chop-Ends : (text : Bytes) → Ends Any (chop decode_rune text)
  unfolding chop is_one_of
  chop-Ends text =
      let fuel = 2 * length text + 3 in
      let start = scan_at decode_rune 0 text in
      let size = ap (λ (l : Bytes). length l) (scan_at-rest text) in
      bind-Ends Any Any
        (start_chop decode_rune (chop_loop decode_rune fuel rune_error 0 last) 0 text) _
        (start_chop-Ends (chop_loop decode_rune fuel rune_error 0 last) 0 text (
          chop_loop-Ends fuel rune_error 0 last start refl (start-IsValid text)
            (omega (arith, weight-le start, size))))
        λ (s, _, err) _. either_option err _ _ (λ e. tt) tt

  -- For no text `Chop` runs out of the fuel that it is given: it parses the text, or panics. This is
  -- for decoders of UTF-8 that give runes of at least one byte, and RuneError for no text.
  pub chop-total : (text : Bytes) → chop decode_rune text ≢ out_of_fuel
  chop-total text same = rw same at (chop-Ends text)
