-- ===== src/BillingCommand/Tests.antt =====
-- Texts for the commands of a billing topic, and an account whose statistics are asked.
use knotfreeiot.Base.{ℕ, ◌≡◌, refl, [], ◌∷◌, some, ascii, arith}
use knotfreeiot.Base.Keys.{bytes_beq}
use knotfreeiot.Billing.{BillingAccumulator, new_accumulator}
use knotfreeiot.Packets.Address.{new_address_union}
use knotfreeiot.Tokens.{has_prefix, good}
use knotfreeiot.Pubsub.Tests.{opts, hello, whole}
use knotfreeiot.LookMsg.Maps.{split_from, split}
use knotfreeiot.BillingCommand.{
  Texts, unslashed, trim_prefix, path_command, is_http, command_of, marshalled, reply_to,
  serve_billing_command,
}
use knotfreeiot.BillingCommand.Http.{
  http_text, asks, answers, request, serve_billing_command-request,
}

abbrev texts : Texts ℕ
texts = record {
  marshal = λ stats. good (stats.input ∷ stats.output ∷ []);
  format_int = λ n. n ∷ [];
}

abbrev account : BillingAccumulator ℕ
account =
    new_accumulator whole (ascii "acct")
      (record { input = 10; output = 20; subscriptions = 1; connections = 1 })

-- Only a path of three parts is a command, and only one slash is taken off.
two_parts : command_of (ascii "GET /about") ≡ ascii "expected 3 parts to http request "
unfolding command_of is_http has_prefix split split_from path_command
two_parts = refl

two_slashes : command_of (ascii "GET //get/max?a=b HTTP/1.1") ≡ ascii " get max"
unfolding command_of is_http has_prefix split split_from path_command trim_prefix unslashed
two_slashes = refl

get_max : reply_to whole texts (ascii "get max") account 5000 ≡ 10 ∷ 20 ∷ []
unfolding reply_to marshalled new_accumulator bytes_beq
get_max = refl

serve_billing_command-request_example :
    let me = new_address_union (ascii "me") in
    let name = new_address_union (ascii "acct") in
    let plain = asks opts hello name me (ascii "get max") in
    let http =
      asks opts hello name me
        (request (ascii "get max") (some (ascii "x")) (ascii "HTTP/1.1") (ascii "Host: a")) in
    let reply = reply_to whole texts (ascii "get max") account 5000 in
    (serve_billing_command whole texts opts plain account 5000 ≡ answers opts hello name me reply)
    × (serve_billing_command whole texts opts http account 5000
        ≡ answers opts hello name me (http_text texts reply))
serve_billing_command-request_example =
    serve_billing_command-request whole texts opts hello (new_address_union (ascii "acct"))
      (new_address_union (ascii "me")) (ascii "get max") (ascii "HTTP/1.1") (ascii "Host: a")
      (some (ascii "x")) account 5000 (ground arith) (ground arith) (ground arith) (ground arith)
