-- ===== src/Badjson/Chop/Total.antt =====
-- On the fuel of `chop` (badjson/parse.go): runs that end, and the loops over delimiters.
pub mod Cases
pub mod Fuel
use knotfreeiot.Base.{
  ℕ, zero, suc, ◌+◌, ◌-◌, ◌*◌, ◌<◌, ◌≤◌, ◌≡◌, ◌≢◌, ◌⊎◌, refl, sym, ap, ◌∙◌, Bytes, Bool, true,
  false, not, ◌&&◌, ◌||◌, List, [], ◌∷◌, Option, none, some, length, drop, length-drop, ltb, ◌==◌,
  Bool-cases, inl, inr, if◌then◌else◌, arith,
}
use knotfreeiot.Tokens.{is_b64}
use knotfreeiot.Badjson.{
  Segment, Segments, hex_bytes, base64_bytes, rune_array, parent, last, next, link_to_tail, Run,
  gives, panics, out_of_fuel, ◌>>=◌, ChopError, rune_error, Scan, is_hex, in_table, current_string,
  is_one_of,
}
use knotfreeiot.Badjson.Chop.{
  scan_at, Chopped, pop, pass_while, runes_of, is_space, pass_delimiters, chop_hex, skip_slash,
  pass_quoted, chop_quoted, chop_base64, pass_unquoted, chop_unquoted, with_segment, chop_segment,
  link_some, start_chop, chop_round, chop_loop, chop,
}

-- A run that does not end for want of fuel, and what it gives.
abbrev pub Ends : {A : Type 0} → (A → Type 0) → Run A → Type 0
Ends Q (gives a) = Q a
Ends Q panics = Unit {0}
Ends Q out_of_fuel = ⊥

pub List-cases : (l : Bytes) → (l ≡ []) ⊎ ((b : ℕ) × (bs : Bytes) × (l ≡ b ∷ bs))
List-cases [] = inl refl
List-cases (b ∷ bs) = inr (b, bs, refl)

Ends-gives : {A : Type 0} (run : Run A) → Ends (λ _. Unit {0}) run → Ends (λ a. run ≡ gives a) run
Ends-gives (gives a) ends = refl
Ends-gives panics ends = tt
Ends-gives out_of_fuel ends = elim ends [ ]

pub Ends-map :
    {A : Type 0} (Q R : A → Type 0) (run : Run A) → ((a : A) → Q a → R a) → Ends Q run → Ends R run
Ends-map Q R (gives a) f q = f a q
Ends-map Q R panics f q = tt
Ends-map Q R out_of_fuel f q = elim q [ ]

pub bind-Ends :
    {A B : Type 0} (Q : A → Type 0) (R : B → Type 0) (run : Run A) (k : A → Run B)
    → Ends Q run
    → ((a : A) → Q a → Ends R (k a))
    → Ends R (run >>= k)
bind-Ends Q R (gives a) k q next_ends = next_ends a q
bind-Ends Q R panics k q next_ends = tt
bind-Ends Q R out_of_fuel k q next_ends = elim q [ ]

-- A rune has at least one byte, and no text gives RuneError.
pub record Forward (decode_rune : Bytes → ℕ × ℕ) : Type 0 where
  pub rune_size : (b : ℕ) (bs : Bytes) → 1 ≤ (decode_rune (b ∷ bs)).1
  pub no_rune : (decode_rune []).0 ≡ rune_error

module _ (decode_rune : Bytes → ℕ × ℕ) (fw : Forward decode_rune) (closer : ℕ) where
  abbrev pub left : Scan → ℕ
  left sc = length sc.rest

  -- At the end stands the closer; before it every rune has a byte.
  pub record IsValid (sc : Scan) : Type 0 where
    pub at_end : left sc ≡ 0 → sc.r ≡ closer
    pub sized : 1 ≤ left sc → 1 ≤ sc.rune_length

  pub pop-IsValid :
      (sc : Scan)
      → (1 ≤ left sc → 1 ≤ sc.rune_length)
      → IsValid (pop decode_rune closer sc).1
        × (left (pop decode_rune closer sc).1 ≤ left sc - 1)
        × ((pop decode_rune closer sc).0 ≡ false → 1 ≤ left (pop decode_rune closer sc).1)
  unfolding pop scan_at
  pop-IsValid sc sized = elim (List-cases (drop sc.rune_length sc.rest)) [
    | inl e ↦
        rw (e, pop)
          (
            record { at_end = λ h. refl; sized = λ h. absurd (omega (arith, h)) },
            omega arith,
            λ h. absurd (cc h),
          )
    | inr (b, bs, e) ↦
        let size : length (b ∷ bs) ≡ length sc.rest - sc.rune_length =
          ap (λ (l : Bytes). length l) (sym e) ∙ length-drop sc.rune_length sc.rest in
        let shorter : length (b ∷ bs) ≤ left sc - 1 =
          omega (arith, size, sized (omega (arith, size))) in
        rw (e, pop)
          (
            record { at_end = λ h. absurd (omega (arith, h)); sized = λ h. fw.rune_size b bs },
            shorter,
            λ h. omega arith,
          )
  ]

  pub pop-Ends :
      {A : Type 0} (Q : A → Type 0) (sc : Scan) (done more : Scan → Run A)
      → (1 ≤ left sc → 1 ≤ sc.rune_length)
      → ((a : Scan) → IsValid a → left a ≤ left sc - 1 → Ends Q (done a))
      → ((a : Scan) → IsValid a → left a ≤ left sc - 1 → 1 ≤ left a → Ends Q (more a))
      → Ends Q (elim ((pop decode_rune closer sc).0) [
        | true ↦ done (pop decode_rune closer sc).1
        | false ↦ more (pop decode_rune closer sc).1
      ])
  pop-Ends Q sc done more sized one two =
      let (ok, le, nonempty) = pop-IsValid sc sized in
      elim (Bool-cases (pop decode_rune closer sc).0) [
        | inl e ↦ rw e (one _ ok le)
        | inr e ↦ rw e (two _ ok le (nonempty e))
      ]

  pub pop_if-Ends :
      {A : Type 0} (Q : A → Type 0) (sc : Scan) (done more : Scan → Run A)
      → (1 ≤ left sc → 1 ≤ sc.rune_length)
      → ((a : Scan) → IsValid a → left a ≤ left sc - 1 → Ends Q (done a))
      → ((a : Scan) → IsValid a → left a ≤ left sc - 1 → 1 ≤ left a → Ends Q (more a))
      → Ends Q (
          if (pop decode_rune closer sc).0
          then done (pop decode_rune closer sc).1
          else more (pop decode_rune closer sc).1)
  pop_if-Ends Q sc done more sized one two =
      let (ok, le, nonempty) = pop-IsValid sc sized in
      elim (Bool-cases (pop decode_rune closer sc).0) [
        | inl e ↦ rw e (one _ ok le)
        | inr e ↦ rw e (two _ ok le (nonempty e))
      ]

  shorter :
      (sc a c : Scan)
      → left a ≤ left sc - 1
      → 1 ≤ left a
      → (c ≡ a) ⊎ (left c < left a)
      → left c < left sc
  shorter sc a c le more (inl e) = omega (arith, le, more, ap (λ (x : Scan). left x) e)
  shorter sc a c le more (inr lt) = omega (arith, le, more, lt)

  -- What a loop over the text leaves.
  abbrev pub Passed : (Scan → Run Bool) → Scan → Bool × Scan → Type 0
  Passed test sc (e, a) =
      IsValid a
      × (left a ≤ left sc)
      × (e ≡ false → (test a ≡ gives false) × ((a ≡ sc) ⊎ (left a < left sc)))

  pub pass_while-Ends :
      (fuel : ℕ) (test : Scan → Run Bool) (sc : Scan)
      → ((x : Scan) → Ends (λ _. Unit {0}) (test x))
      → left sc < fuel
      → IsValid sc
      → Ends (Passed test sc) (pass_while decode_rune closer fuel test sc)
  unfolding pass_while
  pass_while-Ends zero test sc ends lt valid = absurd (omega arith)
  pass_while-Ends (suc fuel) test sc ends lt valid =
      bind-Ends (λ go. test sc ≡ gives go) (Passed test sc) (test sc) _
        (Ends-gives (test sc) (ends sc))
        λ go same.
          elim go
              as (λ g.
                test sc ≡ gives g
                → Ends (Passed test sc) (elim g as (λ _. Run (Bool × Scan)) [
                  | false ↦ gives (false, sc)
                  | true ↦
                      (let (ended, sc') = pop decode_rune closer sc in
                        elim ended [
                          | true ↦ gives (true, sc')
                          | false ↦ pass_while decode_rune closer fuel test sc'
                        ])
                ])) [
                  | false ↦ λ same. (valid, omega arith, λ h. (same, inl refl))
                  | true ↦ λ same.
                      pop-Ends (Passed test sc) sc (λ a. gives (true, a))
                        (pass_while decode_rune closer fuel test) valid.sized
                        (λ a ok le. (ok, omega (arith, le), λ h. absurd (cc h)))
                        (λ a ok le more.
                          Ends-map (Passed test a) (Passed test sc)
                            (pass_while decode_rune closer fuel test a)
                            (λ (e, c) (ok', le', rest). (
                              ok',
                              omega (arith, le, le'),
                              λ h. ((rest h).0, inr (shorter sc a c le more (rest h).1)),
                            ))
                            (pass_while-Ends fuel test a ends (omega (arith, le, lt, more)) ok))
                ]
            same

  -- The closer is no delimiter.
  abbrev pub IsCloser : Type 0
  IsCloser = is_one_of (b' ' ∷ b':' ∷ b',' ∷ []) closer ≡ false

  abbrev pub is_delimiter : Scan → Bool
  is_delimiter sc = is_one_of (b' ' ∷ b':' ∷ b',' ∷ []) sc.r

  abbrev pub Delimited : Scan → Bool × Scan → Type 0
  Delimited sc (e, a) =
      IsValid a × (left a ≤ left sc) × (e ≡ false → is_delimiter sc ≡ true → left a < left sc)

  is_space-Ends : (x : Scan) → Ends (λ _. Unit {0}) (is_space decode_rune closer x)
  is_space-Ends x = tt

  pass_spaces-Ends :
      (sc : Scan)
      → IsValid sc
      → Ends (Passed (is_space decode_rune closer) sc) (
          pass_while decode_rune closer
            (runes_of decode_rune closer sc)
            (is_space decode_rune closer)
            sc)
  pass_spaces-Ends sc valid =
      pass_while-Ends (runes_of decode_rune closer sc) (is_space decode_rune closer) sc
        is_space-Ends (omega arith) valid

  no_delimiter :
      (a : Scan)
      → is_space decode_rune closer a ≡ gives false
      → is_one_of (b',' ∷ b':' ∷ []) a.r ≡ false
      → is_delimiter a ≡ false
  unfolding is_one_of
  no_delimiter a space other = ground arith

  -- Behind a delimiter something was passed.
  moved :
      (sc a c : Scan)
      → is_delimiter sc ≡ true
      → (is_space decode_rune closer a ≡ gives false) × ((a ≡ sc) ⊎ (left a < left sc))
      → is_one_of (b',' ∷ b':' ∷ []) a.r ≡ false
      → left c ≤ left a
      → left c < left sc
  moved sc a c delimiter (space, inl e) other le =
      absurd (cc (no_delimiter a space other, ap (λ (x : Scan). is_delimiter x) e, delimiter))
  moved sc a c delimiter (space, inr lt) other le = omega (arith, lt, le)

  pub pass_delimiters-Ends :
      (sc : Scan) → IsValid sc → Ends (Delimited sc) (pass_delimiters decode_rune closer sc)
  unfolding pass_delimiters
  pass_delimiters-Ends sc valid =
      bind-Ends (Passed (is_space decode_rune closer) sc) (Delimited sc) _ _
        (pass_spaces-Ends sc valid)
        λ (e, a) (ok, le, rest). elim (Bool-cases e) [
          | inl ended ↦ rw ended (ok, le, λ h. absurd (cc h))
          | inr goes_on ↦ rw goes_on (elim (Bool-cases (is_one_of (b',' ∷ b':' ∷ []) a.r)) [
            | inl comma ↦ rw comma (
                pop_if-Ends (Delimited sc) a (λ b. gives (true, b))
                  (λ b.
                    pass_while decode_rune closer (runes_of decode_rune closer b)
                      (is_space decode_rune closer) b)
                  ok.sized (λ b ok' le'. (ok', omega (arith, le, le'), λ h. absurd (cc h)))
                  (λ b ok' le' more.
                    Ends-map (Passed (is_space decode_rune closer) b) (Delimited sc) _
                      (λ (_, c) (okc, lec, _). (
                        okc,
                        omega (arith, le, le', lec),
                        λ h t. omega (arith, le, le', more, lec),
                      ))
                      (pass_spaces-Ends b ok')))
            | inr other ↦ rw other (
                Ends-map (Passed (is_space decode_rune closer) a) (Delimited sc) _
                  (λ (_, c) (okc, lec, _).
                    (okc, omega (arith, le, lec), λ h t. moved sc a c t (rest goes_on) other lec))
                  (pass_spaces-Ends a ok))
          ])
        ]
