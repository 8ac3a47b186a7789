-- ===== src/Tokens/Trim.antt =====
-- `GetKnotFreePayload` finds a token within other text.
use knotfreeiot.Base.{
  ℕ, suc, ◌+◌, ◌≡◌, ◌≢◌, ◌⊎◌, refl, ap, ◌∙◌, Bytes, true, false, none, [], ◌∷◌, ◌++◌, append_assoc,
  some, inl, inr, length, take, drop, length-append, take-length_append, drop-length_append, ◌==◌,
  Bool-cases, ascii, arith,
}
use knotfreeiot.Tokens.{
  good, TokenPayload, TokenLibraries, has_prefix, index_of, first_part, first_part2, is_b64,
  b64_length, find_header, parse_claims, get_knot_free_payload,
}

-- The text has no dot.
abbrev pub NoDot : Bytes → Type 0
NoDot [] = Unit {0}
NoDot (b ∷ bs) = (b ≢ b'.') × NoDot bs

abbrev pub AllB64 : Bytes → Type 0
AllB64 [] = Unit {0}
AllB64 (b ∷ bs) = (is_b64 b ≡ true) × AllB64 bs

-- The text is over, or goes on with a byte that is not of base64.
abbrev pub EndsB64 : Bytes → Type 0
EndsB64 [] = Unit {0}
EndsB64 (b ∷ bs) = is_b64 b ≡ false

index_of-dot :
    (claims rest : Bytes)
    → NoDot claims
    → index_of (ascii ".") (claims ++ b'.' ∷ rest) ≡ some (length claims)
unfolding index_of has_prefix
index_of-dot [] rest none_there = refl
index_of-dot (b ∷ claims) rest (ne, none_there) =
    let later = index_of-dot claims rest none_there in
    elim (Bool-cases (b'.' == b)) [
      | inl e ↦ absurd (ne (ground arith))
      | inr e ↦ rw e (rw later refl)
    ]

b64_length-AllB64 :
    (sig after : Bytes) → AllB64 sig → EndsB64 after → b64_length (sig ++ after) ≡ length sig
unfolding b64_length
b64_length-AllB64 [] [] all ends = refl
b64_length-AllB64 [] (b ∷ after) all ends = rw ends refl
b64_length-AllB64 (b ∷ sig) after (one, all) ends =
    rw one (ap suc (b64_length-AllB64 sig after all ends))

take-past : (n : ℕ) (a b : Bytes) → take (length a + n) (a ++ b) ≡ a ++ take n b
take-past n [] b = ap (λ (k : ℕ). take k b) (omega arith)
take-past n (x ∷ a) b =
    let next : suc (length a) + n ≡ suc (length a + n) = omega arith in
    rw next (ap (λ l. x ∷ l) (take-past n a b))

drop-past : (a b c : Bytes) → drop (length a + length b) (a ++ (b ++ c)) ≡ c
drop-past a b c =
    rw (← length-append a b) (rw (← append_assoc a b c) (drop-length_append (a ++ b) c))

take-claims :
    (claims sig after : Bytes)
    → take (length claims + 1 + length sig) (claims ++ b'.' ∷ (sig ++ after)) ≡ claims ++ b'.' ∷ sig
take-claims claims sig after =
    let sum : length claims + 1 + length sig ≡ length claims + suc (length sig) = omega arith in
    rw sum (
      take-past (suc (length sig)) claims (b'.' ∷ (sig ++ after))
      ∙ ap (λ l. claims ++ b'.' ∷ l) (take-length_append sig after))

find_header-accepted :
    (before head text : Bytes)
    → (head ≡ first_part) ⊎ ((head ≡ first_part2) × (index_of first_part text ≡ none))
    → index_of head text ≡ some (length before)
    → find_header text ≡ some (length before, length head)
unfolding find_header
find_header-accepted before head text (inl first) start =
    let found = rw first at start in rw (found, find_header) (rw first refl)
find_header-accepted before head text (inr (second, none_there)) start =
    let found = rw second at start in rw (none_there, find_header) (rw found (rw second refl))

module _ {F : Type 0} (libs : TokenLibraries F) where
  parse_claims-found :
      (token claims sig after : Bytes) (decoded : Bytes) (payload : TokenPayload F)
      → NoDot claims
      → AllB64 sig
      → EndsB64 after
      → libs.base64_decode claims ≡ good decoded
      → libs.unmarshal_payload decoded ≡ good payload
      → parse_claims libs token (claims ++ b'.' ∷ (sig ++ after))
        ≡ good (length claims + 1 + length sig, payload.issuer)
  unfolding parse_claims
  parse_claims-found token claims sig after decoded payload nodot all ends d u =
      let tail : drop (length claims + 1) (claims ++ b'.' ∷ (sig ++ after)) ≡ sig ++ after =
        drop-past claims (b'.' ∷ []) (sig ++ after) in
      rw (index_of-dot claims (sig ++ after) nodot, parse_claims)
        (rw (take-length_append claims (b'.' ∷ (sig ++ after)))
          (rw d (rw u (rw tail (rw (b64_length-AllB64 sig after all ends) refl)))))

  -- The same for any header.
  payload-at :
      (before head claims sig after : Bytes) (decoded : Bytes) (payload : TokenPayload F)
      → find_header (before ++ (head ++ (claims ++ b'.' ∷ (sig ++ after))))
        ≡ some (length before, length head)
      → NoDot claims
      → AllB64 sig
      → EndsB64 after
      → libs.base64_decode claims ≡ good decoded
      → libs.unmarshal_payload decoded ≡ good payload
      → get_knot_free_payload libs (before ++ (head ++ (claims ++ b'.' ∷ (sig ++ after))))
        ≡ good (head ++ (claims ++ b'.' ∷ sig), payload.issuer)
  unfolding get_knot_free_payload
  payload-at before head claims sig after decoded payload start nodot all ends d u =
      let body = claims ++ b'.' ∷ (sig ++ after) in
      let token = before ++ (head ++ body) in
      let parsed = parse_claims-found token claims sig after decoded payload nodot all ends d u in
      let n = length claims + 1 + length sig in
      let cut : take (length head + n) (head ++ body) ≡ head ++ (claims ++ b'.' ∷ sig) =
        take-past n head body ∙ ap (λ l. head ++ l) (take-claims claims sig after) in
      rw (start, get_knot_free_payload)
        (rw (drop-past before head body)
          (rw parsed (rw (drop-length_append before (head ++ body)) (rw cut refl))))

  -- Whatever text stands around a token, it is cut out whole: its header, its claims, a dot and its
  -- signature, with the issuer that the claims name. This is where the header is one of the two that
  -- are accepted and is found first where the token starts, for the second one where the first one is
  -- nowhere in the text; the claims have no dot, are base64 and JSON of a payload, and the signature
  -- consists of the characters of base64 and ends where they do.
  pub get_knot_free_payload-found :
      (before head claims sig after : Bytes) (decoded : Bytes) (payload : TokenPayload F)
      → let text = before ++ (head ++ (claims ++ b'.' ∷ (sig ++ after))) in
        (head ≡ first_part) ⊎ ((head ≡ first_part2) × (index_of first_part text ≡ none))
        → index_of head text ≡ some (length before)
        → NoDot claims
        → AllB64 sig
        → EndsB64 after
        → libs.base64_decode claims ≡ good decoded
        → libs.unmarshal_payload decoded ≡ good payload
        → get_knot_free_payload libs (before ++ (head ++ (claims ++ b'.' ∷ (sig ++ after))))
          ≡ good (head ++ (claims ++ b'.' ∷ sig), payload.issuer)
  get_knot_free_payload-found before head claims sig after decoded payload accepted start nodot all
        ends d u =
      payload-at before head claims sig after decoded payload
        (find_header-accepted before head _ accepted start) nodot all ends d u
