-- ===== src/Tokens.antt =====
-- `GetKnotFreePayload`, `FindPublicKey` and `VerifyToken` of tokens/tokens.go. The base64, JSON and
-- JWT libraries come from outside; what they report as an error is the text of it.
pub mod Trim
pub mod Tests
use knotfreeiot.Base.{
  ◌≡◌, ◌⊎◌, refl, inl, inr, ℕ, zero, suc, ◌+◌, ◌/◌, Bytes, Bool, true, false, not, ◌&&◌, ◌||◌, List,
  [], ◌∷◌, ◌++◌, Option, none, some, length, take, drop, ltb, leb, ◌==◌, if◌then◌else◌, ascii,
}
use knotfreeiot.Base.Keys.{bytes_beq}
use knotfreeiot.Billing.{Stats}

-- A value, or the text of an error.
pub data OrError (A : Type 0) : Type 0 where
  good : A → OrError A
  bad : Bytes → OrError A

pub OrError-cases :
    {A : Type 0} (r : OrError A) → ((e : Bytes) × (r ≡ bad e)) ⊎ ((a : A) × (r ≡ good a))
OrError-cases (good a) = inr (a, refl)
OrError-cases (bad e) = inl (e, refl)

-- `KnotFreeTokenPayload`
pub record TokenPayload (F : Type 0) : Type 0 where
  pub expiration_time : ℕ
  pub issuer : Bytes
  pub jwtid : Bytes
  pub stats : Stats F
  pub url : Bytes
  pub pubk : Bytes

pub record TokenLibraries (F : Type 0) : Type 0 where
  -- base64.RawURLEncoding.DecodeString
  pub base64_decode : Bytes → OrError Bytes
  -- json.Unmarshal into a KnotFreeTokenPayload
  pub unmarshal_payload : Bytes → OrError (TokenPayload F)
  -- jwt.Verify with the Ed25519 public key
  pub jwt_verify : Bytes → Bytes → Option (TokenPayload F)

-- `strings.HasPrefix`, with the text last, and `strings.Index`.
unfoldable pub has_prefix : Bytes → Bytes → Bool
has_prefix [] text = true
has_prefix (p ∷ ps) [] = false
has_prefix (p ∷ ps) (b ∷ bs) = p == b && has_prefix ps bs

unfoldable pub index_of : Bytes → Bytes → Option ℕ
index_of part [] = if has_prefix part [] then some 0 else none
index_of part (b ∷ bs) =
    let rest = index_of part bs in
    if has_prefix part (b ∷ bs) then some 0 else elim rest [ none ↦ none | some n ↦ some (suc n) ]

abbrev pub first_part : Bytes
first_part = ascii "eyJhbGciOiJFZERTQSIsInR5cCI6IkpXVCJ9."

abbrev pub first_part2 : Bytes
first_part2 = ascii "eyJhbGciOiJFZDI1NTE5IiwidHlwIjoiSldUIn0."

-- badjson.B64DecodeMap is not 0xFF: the letters, the digits and `+/-_`.
unfoldable pub is_b64 : ℕ → Bool
is_b64 r =
    (leb b'A' r && leb r b'Z')
    || (leb b'a' r && leb r b'z')
    || (leb b'0' r && leb r b'9')
    || (r == b'+' || r == b'/')
    || (r == b'-' || r == b'_')

-- How far the scan of part 3 goes.
unfoldable pub b64_length : Bytes → ℕ
b64_length [] = 0
b64_length (r ∷ bs) = let rest = suc (b64_length bs) in if is_b64 r then rest else 0

-- Part 1: the start of the token and the length of its header.
unfoldable pub find_header : Bytes → Option (ℕ × ℕ)
find_header token = elim (index_of first_part token) [
  | some i ↦ some (i, length first_part)
  | none ↦ elim (index_of first_part2 token) [ some i ↦ some (i, length first_part2) | none ↦ none ]
]

module _ {F : Type 0} (libs : TokenLibraries F) where
  -- Parts 2 and 3, for the text behind the header: the length of the two, and the issuer.
  unfoldable pub parse_claims : Bytes → Bytes → OrError (ℕ × Bytes)
  parse_claims token rest = elim (index_of (ascii ".") rest) [
    | none ↦ bad (ascii "expected . got " ++ token)
    | some i ↦ elim (libs.base64_decode (take i rest)) [
      | bad e ↦ bad e
      | good claims ↦ elim (libs.unmarshal_payload claims) [
        | bad e ↦ bad e
        | good payload ↦ good (i + 1 + b64_length (drop (i + 1) rest), payload.issuer)
      ]
    ]
  ]

  -- The trimmed token and its issuer.
  unfoldable pub get_knot_free_payload : Bytes → OrError (Bytes × Bytes)
  get_knot_free_payload token = elim (find_header token) [
    | none ↦ bad (
        ascii "expected "
        ++ (first_part ++ (ascii " OR " ++ (first_part2 ++ (ascii " got " ++ token)))))
    | some (start, flen) ↦ elim (parse_claims token (drop (start + flen) token)) [
      | bad e ↦ bad e
      | good (n, issuer) ↦ good (take (flen + n) (drop start token), issuer)
    ]
  ]

  -- `VerifyToken`
  unfoldable pub verify_token : Bytes → Bytes → Option (TokenPayload F)
  verify_token ticket public_key = libs.jwt_verify ticket public_key

  -- Go's `>=` on strings.
  unfoldable pub bytes_ge : Bytes → Bytes → Bool
  bytes_ge a [] = true
  bytes_ge [] (y ∷ ys) = false
  bytes_ge (x ∷ xs) (y ∷ ys) = if x == y then bytes_ge xs ys else ltb y x

  unfoldable pub key_at : List Bytes → ℕ → Bytes
  key_at [] i = []
  key_at (k ∷ ks) zero = k
  key_at (k ∷ ks) (suc i) = key_at ks i

  -- `sort.Search`, its loop over `i` and `j` on fuel; `j - i` rounds are more than it takes.
  unfoldable pub search_loop : ℕ → (ℕ → Bool) → ℕ → ℕ → ℕ
  search_loop zero f i j = i
  search_loop (suc fuel) f i j =
      let h = (i + j) / 2 in
      let left = search_loop fuel f i h in
      let right = search_loop fuel f (h + 1) j in
      if ltb i j then (if f h then left else right) else i

  -- The key that has the prefix, and "" where there is none. `keys` are the known keys, sorted.
  unfoldable pub key_with_prefix : List Bytes → Bytes → Bytes
  unfolding search_loop key_at bytes_ge
  key_with_prefix keys prefix =
      let found =
        search_loop (length keys) (λ i. bytes_ge (take (length prefix) (key_at keys i)) prefix) 0
          (length keys) in
      if leb (length keys) found
      then []
      else if has_prefix prefix (key_at keys found)
      then key_at keys found
      else []

  unfoldable pub find_public_key : List Bytes → Bytes → Bytes
  find_public_key keys the_key =
      if bytes_beq the_key (ascii "1iVt") then [] else elim (libs.base64_decode the_key) [
        | bad e ↦ []
        | good prefix ↦
            if ltb (length prefix) 1 || leb 32 (length prefix)
            then []
            else key_with_prefix keys prefix
      ]

  -- `ValidateToken`
  unfoldable pub validate_token : List Bytes → Bytes → OrError (TokenPayload F)
  validate_token keys token = elim (get_knot_free_payload token) [
    | bad e ↦ bad e
    | good (trimmed, issuer) ↦
        let key = find_public_key keys issuer in
        if not (length key == 32)
        then bad (ascii "bad public key found")
        else elim (verify_token trimmed key) [
          | none ↦ bad (ascii "bad token")
          | some payload ↦ good payload
        ]
  ]
