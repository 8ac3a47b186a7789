-- ===== src/ContactStruct/Push.antt =====
-- What a push does to the token of a contact, and what it lets through.
use knotfreeiot.Base.{
  ℕ, ◌*◌, ◌≤◌, ◌≡◌, refl, sym, ◌∙◌, Bytes, Bool, true, false, List, Option, none, some, length, ◌⊎◌,
  inl, inr, Bool-cases, Option-cases, if◌then◌else◌, ascii, arith,
}
use knotfreeiot.Base.Keys.{TreeMap, bytes_eq}
use knotfreeiot.Billing.{Floats, add32}
use knotfreeiot.Packets.Options.{get_option}
use knotfreeiot.Packets.Packet.{Packet, Body, connect}
use knotfreeiot.Tokens.{
  OrError-cases, good, TokenPayload, get_knot_free_payload, find_public_key, verify_token,
}
use knotfreeiot.Pubsub.Topic.{Contact}
use knotfreeiot.ContactStruct.{
  ContactStruct, Action, pushed, Environment, set_token, check_token, accept_token, first_packet,
  expect_token, set_expires, push_by_type, push_packet_up_from_bottom2,
}

module _ {P F : Type 0} (opts : TreeMap P Bytes Bytes) (f : Floats F) (env : Environment F) where
  -- A token that holds: well-formed, signed by a key that is known, and not expired.
  pub record Holds (now : ℕ) (b64_token : Bytes) (payload : TokenPayload F) : Type 0 where
    pub trimmed : Bytes
    pub issuer : Bytes
    pub parsed : get_knot_free_payload env.libraries b64_token ≡ good (trimmed, issuer)
    pub known : length (find_public_key env.libraries env.public_keys issuer) ≡ 32
    pub signed :
        verify_token env.libraries trimmed (find_public_key env.libraries env.public_keys issuer)
        ≡ some payload
    pub in_time : now ≤ payload.expiration_time

  check_token-Holds :
      (now : ℕ) (b64_token : Bytes) (payload : TokenPayload F)
      → check_token opts f env now b64_token ≡ good payload
      → Holds now b64_token payload
  unfolding check_token
  check_token-Holds now b64_token payload h =
      elim (OrError-cases (get_knot_free_payload env.libraries b64_token)) [
        | inl (e, q) ↦ absurd (ground arith)
        | inr ((trimmed, issuer), q) ↦
            let key = find_public_key env.libraries env.public_keys issuer in
            elim (Option-cases (verify_token env.libraries trimmed key)) [
              | inl v ↦ absurd (ground arith)
              | inr (found, v) ↦ record {
                trimmed = trimmed;
                issuer = issuer;
                parsed = q;
                known = ground arith;
                signed = ground arith;
                in_time = ground arith;
              }
            ]
      ]

  accept_token-token :
      (payload : TokenPayload F) (con : ContactStruct F)
      → (accept_token opts f env payload con).0 ≡ set_token opts f payload con
  unfolding accept_token
  accept_token-token payload con = ground arith

  -- The Connect that gives the contact this token.
  abbrev pub GivenBy : ℕ → Packet P → ContactStruct F → TokenPayload F → Type 0
  GivenBy now p con t =
      (p.body ≡ connect)
      × (b64_token : Bytes) × (get_option opts p.options (ascii "token") ≡ (b64_token, true))
      × (payload : TokenPayload F) × Holds now b64_token payload
      × (some t ≡ (set_token opts f payload con).token)

  connect-GivenBy :
      (now : ℕ) (p : Packet P) (con : ContactStruct F) (t : TokenPayload F)
      → p.body ≡ connect
      → con.token ≡ none
      → (first_packet opts f env now p con).0.token ≡ some t
      → GivenBy now p con t
  unfolding first_packet
  connect-GivenBy now p con t b fresh h =
      let opened = rw (b, first_packet) at h in
      let text = (get_option opts p.options (ascii "token")).0 in
      elim (Bool-cases (get_option opts p.options (ascii "token")).1) [
        | inr missing ↦ absurd (ground (arith, rw missing at opened))
        | inl there ↦ elim (OrError-cases (check_token opts f env now text)) [
          | inl (e, q) ↦ absurd (ground (arith, rw q at (rw there at opened)))
          | inr (payload, q) ↦ (
            b,
            text,
            ground arith,
            payload,
            check_token-Holds now text payload q,
            sym (
                rw (accept_token-token payload con) at
                  (rw (q, first_packet) at (rw there at opened))),
          )
        ]
      ]

  first_packet-token :
      (now : ℕ) (p : Packet P) (con : ContactStruct F) (t : TokenPayload F) (body : Body)
      → p.body ≡ body
      → con.token ≡ none
      → (first_packet opts f env now p con).0.token ≡ some t
      → GivenBy now p con t
  unfolding first_packet
  first_packet-token now p con t connect b fresh h = connect-GivenBy now p con t b fresh h
  first_packet-token now p con t _ b fresh h = absurd (cc (rw (b, first_packet) at h, fresh))

  -- The token after a packet: the one that was there, or that of a Connect, or none.
  abbrev pub TokenAfter : ℕ → Packet P → ContactStruct F → Option (TokenPayload F) → Type 0
  TokenAfter now p con after =
      ((t : TokenPayload F) × (con.token ≡ some t) × (after ≡ some t))
      ⊎ ((con.token ≡ none)
          × ((after ≡ none) ⊎ ((t : TokenPayload F) × (after ≡ some t) × GivenBy now p con t)))

  expect_token-token :
      (now : ℕ) (p : Packet P) (con : ContactStruct F)
      → TokenAfter now p con (expect_token opts f env now p con).0.token
  unfolding expect_token
  expect_token-token now p con = elim (Option-cases con.token) [
    | inl fresh ↦ elim (Option-cases (expect_token opts f env now p con).0.token) [
      | inl still ↦ inr (fresh, inl still)
      | inr (t, given) ↦ inr (
        fresh,
        inr (
          t,
          given,
          first_packet-token now p con t p.body refl fresh (rw (fresh, expect_token) at given),
        ),
      )
    ]
    | inr (old, e) ↦ inl (old, e, ground arith)
  ]

  -- The contact when its token is checked.
  abbrev pub living : ℕ → Bool → ContactStruct F → ContactStruct F
  living now longer con = if longer then set_expires opts f (add32 (20 * 60) now) con else con

  pub living-token :
      (now : ℕ) (longer : Bool) (con : ContactStruct F) → (living now longer con).token ≡ con.token
  unfolding set_expires
  living-token now longer con = ground arith

  -- What a push that returns does.
  pub push_lem :
      (now : ℕ) (ssi : Contact) (p : Packet P) (longer : Bool) (con : ContactStruct F)
      → con.closed ≡ false
      → let r = expect_token opts f env now p (living now longer con) in
        push_packet_up_from_bottom2 opts f env now ssi p longer con
        ≡ pushed r.0 (push_by_type opts f env ssi p r.0) r.1
  unfolding push_packet_up_from_bottom2
  push_lem now ssi p longer con open_ = ground arith

  -- A push leaves the token of a contact that has one as it is. A contact that has none gets one only
  -- from a Connect whose option "token" holds: it is well-formed, signed by a known key and not
  -- expired.
  pub push-token :
      (now : ℕ) (ssi : Contact) (p : Packet P) (longer : Bool) (con con' : ContactStruct F)
      (actions started : List (Action P))
      → push_packet_up_from_bottom2 opts f env now ssi p longer con ≡ pushed con' actions started
      → TokenAfter now p con con'.token
  unfolding push_packet_up_from_bottom2 set_token
  push-token now ssi p longer con con' actions started h =
      let con1 = living now longer con in
      let same : (expect_token opts f env now p con1).0 ≡ con' = ground arith in
      let before = living-token now longer con in
      elim (expect_token-token now p con1) [
        | inl (t, kept, after) ↦ inl (t, sym before ∙ kept, rw same at after)
        | inr (fresh, inl still) ↦ inr (sym before ∙ fresh, inl (rw same at still))
        | inr (fresh, inr (t, after, connected)) ↦
            inr (sym before ∙ fresh, inr (t, rw same at after, connected))
      ]

  first_packet-expires :
      (now : ℕ) (p : Packet P) (con : ContactStruct F) (body : Body)
      → p.body ≡ body
      → (first_packet opts f env now p con).0.contact_expires ≡ con.contact_expires
  unfolding first_packet accept_token set_token
  first_packet-expires now p con connect b = rw (b, first_packet) (ground arith)
  first_packet-expires now p con _ b = rw (b, first_packet) refl

  -- The check of the token leaves the life of the contact as it is.
  pub expect_token-expires :
      (now : ℕ) (p : Packet P) (con : ContactStruct F)
      → (expect_token opts f env now p con).0.contact_expires ≡ con.contact_expires
  unfolding expect_token
  expect_token-expires now p con = ground (arith, first_packet-expires now p con p.body refl)
