-- ===== src/ContactStruct/Tests.antt =====
-- A contact of an aide, with and without a token: the inputs at which the theorems on contacts are
-- applied.
use knotfreeiot.Base.{ℕ, ◌≡◌, refl, true, false, List, [], ◌∷◌, ◌++◌, none, some, ascii, arith}
use knotfreeiot.Base.Keys.{bytes_eq, nat_eq, bytes_beq}
use knotfreeiot.Billing.{Stats}
use knotfreeiot.Packets.Address.{new_address_union, ensure_address_is_binary}
use knotfreeiot.Packets.Options.{get_option}
use knotfreeiot.Packets.Packet.{Packet, connect, ping, lookup}
use knotfreeiot.Tokens.{
  TokenPayload, first_part, get_knot_free_payload, find_header, index_of, has_prefix, parse_claims,
  b64_length, is_b64, find_public_key, key_with_prefix, search_loop, key_at, bytes_ge, verify_token,
}
use knotfreeiot.Tokens.Tests.{payload, libraries}
use knotfreeiot.Pubsub.Hash.{HashType}
use knotfreeiot.Pubsub.Table.{Subscriptions, the_buckets_size_log2}
use knotfreeiot.Pubsub.Watchers.{Sent}
use knotfreeiot.Pubsub.Messages.{Message, process_messages}
use knotfreeiot.Pubsub.Reach.Delivers.{Unwatched}
use knotfreeiot.Pubsub.Tests.{
  Opts, Tree, opts, tree, whole, zeros, blank, aide, people, services, blank-FillsHash,
  blank-GivesBytes,
}
use knotfreeiot.ContactStruct.{
  ContactStruct, set_expires, first_packet, check_token, accept_token, Action, queue, pushed,
  Environment, set_token, expect_token, push_by_type, push_packet_up_from_bottom,
}
use knotfreeiot.ContactStruct.Push.{TokenAfter, living, push_lem, push-token}
use knotfreeiot.ContactStruct.Beat.{count_read, count_write, heartbeat}
use knotfreeiot.ContactStruct.Beat.Life.{report, heartbeat-counters}
use knotfreeiot.ContactStruct.EndToEnd.{TopicOf, joined, sent, subscribe_then_send}
use knotfreeiot.ContactStruct.Keys.{Config, ConnectionEvent, opened, shut, run}
use knotfreeiot.ContactStruct.Keys.Distinct.{AllDifferent, openings, run-AllDifferent}

abbrev stranger : ContactStruct ℕ
stranger = record {
  key = 0;
  token = none;
  contact_expires = 1000;
  next_billing_time = 30;
  last_billing_time = 0;
  input = 0;
  output = 0;
  closed = false;
}

abbrev client : ContactStruct ℕ
client = record stranger { token = some payload }

abbrev surroundings : Environment ℕ
surroundings = record {
  libraries = libraries;
  public_keys = (ascii "_9sh" ++ zeros 28) ∷ [];
  marshal_stats = λ s. some [];
  codecs = blank;
  buckets_log2 = the_buckets_size_log2 100;
  is_guru = false;
}

abbrev a_ping : Packet Opts
a_ping = record { body = ping; options = none; backing = none }

abbrev asking : Packet Opts
asking = record {
  body = lookup (new_address_union (ascii "news")) (new_address_union (ascii "me"));
  options = none;
  backing = none;
}

-- The contact that a push leaves.
abbrev after : ℕ → Packet Opts → ContactStruct ℕ → ContactStruct ℕ
after now p con =
    (expect_token opts whole surroundings now p (living opts whole surroundings now true con)).0

abbrev done : ℕ → Packet Opts → ContactStruct ℕ → List (Action Opts)
done now p con =
    (expect_token opts whole surroundings now p (living opts whole surroundings now true con)).1

abbrev arriving : Packet Opts
arriving = record {
  body = connect;
  options = some ((ascii "token", first_part ++ ascii "abc.d") ∷ []);
  backing = none;
}

abbrev kept : TokenPayload ℕ
kept = record payload { issuer = []; url = []; stats = record payload.stats { subscriptions = 1 } }

push-token_example :
    TokenAfter opts whole surroundings 100 arriving stranger (after 100 arriving stranger).token
push-token_example =
    push-token opts whole surroundings 100 5 arriving true stranger (after 100 arriving stranger)
      (push_by_type opts whole surroundings 5 arriving (after 100 arriving stranger))
      (done 100 arriving stranger)
      (push_lem opts whole surroundings 100 5 arriving true stranger refl)

-- The token of the Connect is taken.
arriving-token : (after 100 arriving stranger).token ≡ some kept
unfolding expect_token set_expires first_packet check_token get_knot_free_payload find_header
    index_of has_prefix parse_claims b64_length is_b64 find_public_key key_with_prefix search_loop
    key_at bytes_ge verify_token accept_token set_token get_option bytes_beq
arriving-token = refl

heartbeat-counters_example :
    (report opts whole surroundings
        (heartbeat opts whole surroundings 100 (count_read 7 (count_write 8 client)))
      ≡ report opts whole surroundings (heartbeat opts whole surroundings 100 client))
    × ((s : Stats ℕ)
        → (report opts whole surroundings (heartbeat opts whole surroundings 100 client)).0 ≡ some s
        → (s.input ≡ 0) × (s.output ≡ 0))
heartbeat-counters_example = heartbeat-counters opts whole surroundings 100 7 8 client

subscribe_then_send_example :
    (i : ℕ) × (h : HashType) × (first second : Message Opts) × TopicOf blank
      (new_address_union (ascii "news"))
      h
    × (push_packet_up_from_bottom opts whole surroundings 100 5
          (joined (new_address_union (ascii "news")) none)
          client
        ≡ pushed (living opts whole surroundings 100 true client) (queue i first ∷ []) [])
    × (push_packet_up_from_bottom opts whole surroundings 110 7
          (sent
            (new_address_union (ascii "news"))
            (new_address_union (ascii "me"))
            (ascii "hello")
            none)
          client
        ≡ pushed (living opts whole surroundings 110 true client) (queue i second ∷ []) [])
    × ((s : Subscriptions Tree ℕ)
        → Unwatched tree people 5 h s
        → Sent 5
            (sent
              (ensure_address_is_binary blank (new_address_union (ascii "news")))
              (new_address_union (ascii "me"))
              (ascii "hello")
              none)
            (process_messages opts tree whole services blank aide people.get_key
              ((people.is_closed, 120, first) ∷ (people.is_closed, 130, second) ∷ [])
              s).1)
unfolding get_option new_address_union
subscribe_then_send_example =
    subscribe_then_send opts tree whole surroundings 100 refl blank-FillsHash blank-GivesBytes
      services aide people 100 110 120 130 5 7 (new_address_union (ascii "news"))
      (new_address_union (ascii "me")) (ascii "hello") none none client client payload payload
      (ground arith) (refl, refl) (refl, refl) refl refl (λ e. omega (arith, e))

abbrev config : Config ℕ
config = record { key = 1000; sequence = 3; list_of_ci = [] }

abbrev history : List (ConnectionEvent ℕ)
history =
    opened 100 stranger
    ∷ opened 110 client
    ∷ shut (record client { key = 1003 })
    ∷ opened 120 client
    ∷ []

run-AllDifferent_example : AllDifferent (run history config).list_of_ci
unfolding openings
run-AllDifferent_example =
    run-AllDifferent history config refl (refl, (refl, (refl, tt))) (omega arith)
