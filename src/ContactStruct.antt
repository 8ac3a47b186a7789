-- ===== src/ContactStruct.antt =====
-- `ContactStruct` of iot/contacts.go: a connection from below, its check of a token, and how its
-- packets go up into the lookup table. A command of a contact runs with sole access to it.
pub mod Push
pub mod Beat
pub mod Keys
pub mod EndToEnd
mod Tests
use knotfreeiot.Base.{
  ℕ, ◌+◌, ◌*◌, ◌-◌, ◌/◌, ◌%◌, ◌^◌, Bytes, Bool, true, false, not, ◌&&◌, List, [], ◌∷◌, ◌++◌, Option,
  none, some, length, ltb, ◌==◌, if◌then◌else◌, ascii,
}
use knotfreeiot.Base.Keys.{TreeMap, bytes_eq}
use knotfreeiot.Billing.{Floats, Stats, add32}
use knotfreeiot.Packets.Address.{AddressUnion, Codecs, from_bytes, ensure_address_is_binary}
use knotfreeiot.Packets.Options.{get_option, set_option}
use knotfreeiot.Packets.Packet.{
  Packet, Body, send, subscribe, unsubscribe, lookup, connect, disconnect, ping,
}
use knotfreeiot.Tokens.{
  OrError, good, bad, TokenPayload, TokenLibraries, get_knot_free_payload, find_public_key,
  verify_token,
}
use knotfreeiot.Pubsub.Topic.{Contact}
use knotfreeiot.Pubsub.Messages.{
  Message, address_of, set_address, send_subscription_message, send_unsubscribe_message,
  send_lookup_message, send_publish_message, send_publish_message_down,
  send_subscription_message_down,
}

-- `input` and `output` count bytes since they were last reset.
pub record ContactStruct (F : Type 0) : Type 0 where
  pub key : ℕ
  pub token : Option (TokenPayload F)
  pub contact_expires : ℕ
  pub next_billing_time : ℕ
  pub last_billing_time : ℕ
  pub input : ℕ
  pub output : ℕ
  pub closed : Bool

-- What a contact makes others do: `WriteDownstream` and `DoClose` on itself, a message into a
-- bucket, a packet of its own that it pushes, with or without a longer life. `panics` is that of
-- `InitFromBytes`.
pub data Action (P : Type 0) : Type 0 where
  write : Packet P → Action P
  do_close : Action P
  queue : ℕ → Message P → Action P
  push_again : Bool → Packet P → Action P
  panics : Action P

-- A push on a closed contact waits for a command that never runs. Else there are the contact as it
-- is left, what the push itself does, in order, and what the goroutines do that it starts. Those of the
-- check of the token run from before the packet is put into a bucket, in any order with it.
pub data Pushed (P F : Type 0) : Type 0 where
  blocked : Pushed P F
  pushed : ContactStruct F → List (Action P) → List (Action P) → Pushed P F

-- What the push takes from elsewhere in the program: the clock, the known public keys, JSON.
pub record Environment (F : Type 0) : Type 0 where
  pub libraries : TokenLibraries F
  pub public_keys : List Bytes
  pub marshal_stats : Stats F → Option Bytes
  pub codecs : Codecs
  pub buckets_log2 : ℕ
  pub is_guru : Bool

module _ {P F : Type 0} (opts : TreeMap P Bytes Bytes) (f : Floats F) where
  abbrev pub bare : Body → Packet P
  bare body = record { body = body; options = none; backing = none }

  abbrev pub with_option : Bytes → Bytes → Packet P → Packet P
  with_option key val p = record p { options = set_option opts key val p.options }

  -- The goroutine of `makeErrorAndDisconnect`.
  unfoldable pub make_error_and_disconnect : Bytes → List (Action P)
  make_error_and_disconnect text =
      write (with_option (ascii "error") text (bare disconnect)) ∷ do_close ∷ []

  -- `SetToken`, and one more subscription for that of the billing topic.
  unfoldable pub set_token : TokenPayload F → ContactStruct F → ContactStruct F
  set_token t cc = record cc {
    token = some (record t {
      url = [];
      issuer = [];
      stats = record t.stats { subscriptions = f.add t.stats.subscriptions (f.of_nat 1) };
    });
  }

  -- The subscribe to the billing topic of the token.
  unfoldable pub billing_subscribe : Bytes → Bytes → Packet P
  billing_subscribe jwtid stats =
      with_option (ascii "noack") (ascii "1")
        (with_option (ascii "statsmax") stats (bare (subscribe (from_bytes jwtid))))

  -- Does the token hold, and for which payload?
  unfoldable pub check_token : Environment F → ℕ → Bytes → OrError (TokenPayload F)
  check_token env now b64_token = elim (get_knot_free_payload env.libraries b64_token) [
    | bad e ↦ bad e
    | good (trimmed, issuer) ↦
        let key = find_public_key env.libraries env.public_keys issuer in
        if not (length key == 32)
        then bad (ascii "token bad issuer " ++ issuer)
        else elim (verify_token env.libraries trimmed key) [
          | none ↦ bad (ascii "token not verified")
          | some payload ↦
              if ltb payload.expiration_time now then bad (ascii "token expired") else good payload
        ]
  ]

  -- A payload is taken: the contact, and what its goroutine does.
  unfoldable pub accept_token :
      Environment F → TokenPayload F → ContactStruct F → ContactStruct F × List (Action P)
  accept_token env payload cc =
      let cc' = set_token payload cc in
      elim (env.marshal_stats
        (record payload.stats { subscriptions = f.add payload.stats.subscriptions (f.of_nat 1) })) [
          | none ↦ (cc', make_error_and_disconnect [])
          | some stats ↦ (cc', push_again true (billing_subscribe payload.jwtid stats) ∷ [])
        ]

  -- A packet on a contact that has no token.
  unfoldable pub first_packet :
      Environment F → ℕ → Packet P → ContactStruct F → ContactStruct F × List (Action P)
  first_packet env now p cc = elim p.body [
    | connect ↦
        let (b64_token, ok) = get_option opts p.options (ascii "token") in
        if not ok
        then (cc, make_error_and_disconnect (ascii "expected token"))
        else elim (check_token env now b64_token) [
          | bad e ↦ (cc, make_error_and_disconnect e)
          | good payload ↦ accept_token env payload cc
        ]
    | _ ↦ (cc, make_error_and_disconnect (ascii "expected Connect packet"))
  ]

  -- `expectToken`. The caller shadows the error that it returns, so there is no other result.
  unfoldable pub expect_token :
      Environment F → ℕ → Packet P → ContactStruct F → ContactStruct F × List (Action P)
  expect_token env now p cc = elim cc.token [ some t ↦ (cc, []) | none ↦ first_packet env now p cc ]

  -- The command of `SetExpires`
  unfoldable pub set_expires : ℕ → ContactStruct F → ContactStruct F
  set_expires when cc =
      if ltb cc.contact_expires when then record cc { contact_expires = when } else cc

  unfoldable pub queued_action : Option (ℕ × Message P) → Action P
  queued_action none = panics
  queued_action (some (i, msg)) = queue i msg

  -- `v.Address.EnsureAddressIsBinary()`
  unfoldable pub binary_packet : Codecs → Packet P → Packet P
  binary_packet c p = record p {
    body = set_address (ensure_address_is_binary c (address_of p.body)) p.body;
  }

  -- Every subscribe but one for statistics gets the id of the token.
  unfoldable pub with_jwtid : Environment F → ContactStruct F → Packet P → Packet P
  with_jwtid env cc p =
      if not (get_option opts p.options (ascii "statsmax")).1 && not env.is_guru
      then elim cc.token [ none ↦ p | some t ↦ with_option (ascii "jwtid") t.jwtid p ]
      else p

  -- The `switch` of `PushPacketUpFromBottom2`. `ssi` is the handle of the contact.
  unfoldable pub push_by_type :
      Environment F → Contact → Packet P → ContactStruct F → List (Action P)
  push_by_type env ssi p cc =
      let v = binary_packet env.codecs p in
      elim p.body [
        | connect ↦ []
        | disconnect ↦ write p ∷ do_close ∷ []
        | subscribe a ↦
            queued_action
              (send_subscription_message env.codecs env.buckets_log2 ssi (with_jwtid env cc v))
            ∷ []
        | unsubscribe a ↦
            queued_action (send_unsubscribe_message env.codecs env.buckets_log2 ssi v) ∷ []
        | lookup a b ↦ queued_action (send_lookup_message env.codecs env.buckets_log2 ssi v) ∷ []
        | send a b payload ↦
            queued_action (send_publish_message env.codecs env.buckets_log2 ssi v) ∷ []
        | ping ↦ write p ∷ []
      ]

  unfoldable pub push_packet_up_from_bottom2 :
      Environment F → ℕ → Contact → Packet P → Bool → ContactStruct F → Pushed P F
  push_packet_up_from_bottom2 env now ssi p do_set_expires cc =
      if cc.closed
      then blocked
      else (let (cc', started) =
            expect_token env now p
              (if do_set_expires then set_expires (add32 (20 * 60) now) cc else cc) in
          pushed cc' (push_by_type env ssi p cc') started)

  unfoldable pub push_packet_up_from_bottom :
      Environment F → ℕ → Contact → Packet P → ContactStruct F → Pushed P F
  push_packet_up_from_bottom env now ssi p cc = push_packet_up_from_bottom2 env now ssi p true cc

  -- `PushDownFromTop`
  unfoldable pub push_down_from_top : Environment F → Packet P → List (Action P)
  push_down_from_top env p =
      let v = binary_packet env.codecs p in
      elim p.body [
        | subscribe a ↦
            queued_action (send_subscription_message_down env.codecs env.buckets_log2 v) ∷ []
        | send a b payload ↦
            queued_action (send_publish_message_down env.codecs env.buckets_log2 v) ∷ []
        | _ ↦ []
      ]

  -- `HasError`
  unfoldable pub has_error : Packet P → Option (Packet P)
  has_error p =
      let (text, ok) = get_option opts p.options (ascii "error") in
      if ok then some (with_option (ascii "error") text (bare disconnect)) else none
