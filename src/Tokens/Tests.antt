-- ===== src/Tokens/Tests.antt =====
-- The theorem on tokens within text at a concrete input.
use knotfreeiot.Base.{inr, ℕ, ◌≡◌, refl, [], ◌++◌, ◌∷◌, some, ascii, arith}
use knotfreeiot.Billing.{zero_stats}
use knotfreeiot.Pubsub.Tests.{whole}
use knotfreeiot.Tokens.{
  good, TokenPayload, TokenLibraries, has_prefix, index_of, first_part2, is_b64,
  get_knot_free_payload,
}
use knotfreeiot.Tokens.Trim.{get_knot_free_payload-found}

-- Every text decodes to itself, and stands for one payload.
abbrev pub payload : TokenPayload ℕ
payload = record {
  expiration_time = 2000;
  issuer = ascii "_9sh";
  jwtid = ascii "id";
  stats = zero_stats whole;
  url = ascii "knotfree.net";
  pubk = [];
}

abbrev pub libraries : TokenLibraries ℕ
libraries = record {
  base64_decode = good;
  unmarshal_payload = λ bs. good payload;
  jwt_verify = λ ticket key. some payload;
}

get_knot_free_payload-found_example :
    get_knot_free_payload libraries (
      ascii "my token: "
      ++ (first_part2 ++ (ascii "abc" ++ b'.' ∷ (ascii "d-_" ++ ascii " thanks"))))
    ≡ good (first_part2 ++ (ascii "abc" ++ b'.' ∷ ascii "d-_"), ascii "_9sh")
unfolding index_of has_prefix is_b64
get_knot_free_payload-found_example =
    get_knot_free_payload-found libraries (ascii "my token: ") first_part2 (ascii "abc")
      (ascii "d-_") (ascii " thanks") (ascii "abc") payload (inr (refl, refl)) refl (ground arith)
      (refl, (refl, (refl, tt))) refl refl refl
