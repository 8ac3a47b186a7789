-- ===== src/BillingCommand/Http.antt =====
-- A command that is asked with HTTP, in the path of a GET, and the same command as plain text.
use knotfreeiot.Base.{
  ℕ, ◌<◌, ◌≡◌, refl, ap, ◌∙◌, Bytes, true, false, List, [], ◌∷◌, ◌++◌, append-nil, length,
  append_assoc, ◌==◌, if◌then◌else◌, ascii, Option, none, some, arith,
}
use knotfreeiot.Base.Keys.{TreeMap, bytes_eq}
use knotfreeiot.Billing.{Floats, BillingAccumulator}
use knotfreeiot.Packets.Address.{AddressUnion}
use knotfreeiot.Packets.Options.{copy_options}
use knotfreeiot.Packets.Packet.{Packet, Body}
use knotfreeiot.Tokens.{has_prefix}
use knotfreeiot.LookMsg.Maps.{split_from, split}
use knotfreeiot.BillingCommand.{
  unslashed, trim_prefix, first_of, path_command, is_http, command_of, Texts, http_reply, reply_to,
  reply_text, serve_billing_command,
}

-- No byte of the text is `sep`.
abbrev pub Lacks : ℕ → Bytes → Type 0
Lacks sep [] = Unit {0}
Lacks sep (b ∷ bs) = ((b == sep) ≡ false) × Lacks sep bs

Lacks-append : (sep : ℕ) (xs ys : Bytes) → Lacks sep xs → Lacks sep ys → Lacks sep (xs ++ ys)
Lacks-append sep [] ys hx hy = hy
Lacks-append sep (x ∷ xs) ys (other, hx) hy = (other, Lacks-append sep xs ys hx hy)

split_from-Lacks :
    (sep : ℕ) (w rest cur : Bytes)
    → Lacks sep w
    → split_from sep cur (w ++ rest) ≡ split_from sep (cur ++ w) rest
unfolding split_from
split_from-Lacks sep [] rest cur h = rw append-nil refl
split_from-Lacks sep (b ∷ w) rest cur (other, h) =
    rw (other, split_from) (split_from-Lacks sep w rest (cur ++ b ∷ []) h ∙ rw append_assoc refl)

-- The part before the first separator is the first one, and the other parts are those of the rest.
split-cons :
    (sep : ℕ) (w rest : Bytes) → Lacks sep w → split (w ++ sep ∷ rest) sep ≡ w ∷ split rest sep
unfolding split split_from
split-cons sep w rest h =
    let same : (sep == sep) ≡ true = ground arith in
    split_from-Lacks sep w (sep ∷ rest) [] h ∙ rw (same, split_from) refl

split-whole : (sep : ℕ) (w : Bytes) → Lacks sep w → split w sep ≡ w ∷ []
unfolding split split_from
split-whole sep w h =
    let whole : w ≡ w ++ [] = rw append-nil refl in
    ap (split_from sep []) whole ∙ split_from-Lacks sep w [] [] h

-- Printable ASCII without `/` and `?`; the space is allowed.
abbrev pub IsCommand : Bytes → Type 0
IsCommand [] = Unit {0}
IsCommand (b ∷ bs) =
    (31 < b) × (b < 127) × ((b == b'/') ≡ false) × ((b == b'?') ≡ false) × IsCommand bs

-- The command as a path: with slashes for the spaces.
unfoldable pub slashed : Bytes → Bytes
slashed [] = []
slashed (b ∷ bs) = (if b == b' ' then b'/' else b) ∷ slashed bs

unslashed-slashed : (command : Bytes) → IsCommand command → unslashed (slashed command) ≡ command
unfolding unslashed slashed
unslashed-slashed [] h = refl
unslashed-slashed (b ∷ bs) (low, high, no_slash, no_query, h) =
    ground (arith, unslashed-slashed bs h)

-- The characters of a request that a path cannot have.
slashed-Lacks :
    (command : Bytes)
    → IsCommand command
    → Lacks b' ' (slashed command) × Lacks b'?' (slashed command) × Lacks 10 (slashed command)
unfolding slashed
slashed-Lacks [] h = (tt, tt, tt)
slashed-Lacks (b ∷ bs) (low, high, no_slash, no_query, h) =
    let (space, query, line) = slashed-Lacks bs h in
    ((ground arith, space), (ground arith, query), (ground arith, line))

-- A plain command has no slash, so it is no HTTP.
is_http-plain : (command : Bytes) → IsCommand command → is_http command ≡ false
unfolding is_http has_prefix
is_http-plain [] h = refl
is_http-plain (b ∷ []) h = ground arith
is_http-plain (b ∷ c ∷ []) h = ground arith
is_http-plain (b ∷ c ∷ d ∷ []) h = ground arith
is_http-plain (b ∷ c ∷ d ∷ e ∷ []) h = ground arith
is_http-plain (b ∷ c ∷ d ∷ e ∷ g ∷ bs) (l, m, n, o, h) = ground arith

abbrev pub query_text : Option Bytes → Bytes
query_text none = []
query_text (some query) = b'?' ∷ query

-- What is behind the `?` has no space and no newline.
abbrev pub IsQuery : Option Bytes → Type 0
IsQuery none = Unit {0}
IsQuery (some query) = Lacks b' ' query × Lacks 10 query

abbrev pub target : Bytes → Option Bytes → Bytes
target command query = b'/' ∷ slashed command ++ query_text query

-- A GET with the command as its path.
abbrev pub request : Bytes → Option Bytes → Bytes → Bytes → Bytes
request command query version rest =
    ascii "GET" ++ b' ' ∷ (target command query ++ b' ' ∷ version) ++ 10 ∷ rest

target-Lacks :
    (sep : ℕ) (command : Bytes) (query : Option Bytes)
    → (b'/' == sep) ≡ false
    → Lacks sep (slashed command)
    → Lacks sep (query_text query)
    → Lacks sep (target command query)
target-Lacks sep command query other h hq =
    (other, Lacks-append sep (slashed command) (query_text query) h hq)

query-Lacks :
    (query : Option Bytes)
    → IsQuery query
    → Lacks b' ' (query_text query) × Lacks 10 (query_text query)
query-Lacks none h = (tt, tt)
query-Lacks (some query) (space, line) = ((refl, space), (refl, line))

path-target :
    (command : Bytes) (query : Option Bytes)
    → IsCommand command
    → first_of (split (target command query) b'?') ≡ b'/' ∷ slashed command
path-target command none h =
    let (space, mark, line) = slashed-Lacks command h in
    let whole : slashed command ++ [] ≡ slashed command = rw append-nil refl in
    ap (λ (w : Bytes). first_of (split (b'/' ∷ w) b'?')) whole
    ∙ ap first_of (split-whole b'?' (b'/' ∷ slashed command) (refl, mark))
path-target command (some query) h =
    let (space, mark, line) = slashed-Lacks command h in
    ap first_of (split-cons b'?' (b'/' ∷ slashed command) query (refl, mark))

-- The three parts of the first line.
request_line :
    (command version : Bytes) (query : Option Bytes)
    → IsCommand command
    → IsQuery query
    → Lacks b' ' version
    → split (ascii "GET" ++ b' ' ∷ (target command query ++ b' ' ∷ version)) b' '
      ≡ ascii "GET" ∷ target command query ∷ version ∷ []
request_line command version query h hq hv =
    let (space, mark, line) = slashed-Lacks command h in
    let in_target = target-Lacks b' ' command query refl space (query-Lacks query hq).0 in
    split-cons b' ' (ascii "GET") (target command query ++ b' ' ∷ version)
      (refl, (refl, (refl, tt)))
    ∙ ap (λ (ws : List Bytes). ascii "GET" ∷ ws)
        (split-cons b' ' (target command query) version in_target
          ∙ ap (λ (ws : List Bytes). target command query ∷ ws) (split-whole b' ' version hv))

-- The command of the request is the plain command.
command_of-request :
    (command version rest : Bytes) (query : Option Bytes)
    → IsCommand command
    → IsQuery query
    → Lacks b' ' version
    → Lacks 10 version
    → command_of (request command query version rest) ≡ command
unfolding command_of is_http has_prefix path_command trim_prefix
command_of-request command version rest query h hq hv hl =
    let (space, mark, line) = slashed-Lacks command h in
    let in_target = target-Lacks 10 command query refl line (query-Lacks query hq).1 in
    let first = ascii "GET" ++ b' ' ∷ (target command query ++ b' ' ∷ version) in
    let in_first : Lacks 10 first = (
      refl,
      (
        refl,
        (
          refl,
          (refl, Lacks-append 10 (target command query) (b' ' ∷ version) in_target (refl, hl)),
        ),
      ),
    ) in
    ap (λ (ws : List Bytes). path_command (split (first_of ws) b' '))
      (split-cons 10 first rest in_first)
    ∙ ap path_command (request_line command version query h hq hv)
    ∙ ap (λ (w : Bytes). unslashed (trim_prefix w)) (path-target command query h)
    ∙ unslashed-slashed command h

request-is_http :
    (command version rest : Bytes) (query : Option Bytes)
    → is_http (request command query version rest) ≡ true
unfolding is_http has_prefix
request-is_http command version rest query = refl

command_of-plain : (command : Bytes) → IsCommand command → command_of command ≡ command
unfolding command_of
command_of-plain command h = rw (is_http-plain command h) refl

module _ {P : Type 0} (opts : TreeMap P Bytes Bytes) where
  abbrev pub asks : Packet P → AddressUnion → AddressUnion → Bytes → Packet P
  asks p address source payload = record p { body = Body.send address source payload }

  -- The reply: from the address that was asked to the source, with the options of the packet.
  abbrev pub answers : Packet P → AddressUnion → AddressUnion → Bytes → Packet P
  answers p address source reply = record {
    body = Body.send source address reply;
    options = copy_options opts p.options none;
    backing = none;
  }

abbrev pub ended : Bytes → Bytes
ended line = line ++ 13 ∷ 10 ∷ []

module _ {F : Type 0} (texts : Texts F) where
  -- The lines of a reply with this text: the status and the headers, an empty line, the text.
  abbrev pub http_text : Bytes → Bytes
  http_text text =
      ended (ascii "HTTP/1.1 200 OK")
      ++ (ended (ascii "Content-Length: " ++ texts.format_int (length text))
          ++ (ended (ascii "Content-Type: text/plain")
              ++ (ended (ascii "Access-Control-Allow-Origin: *")
                  ++ (ended (ascii "access-control-expose-headers: nonc")
                      ++ (ended (ascii "Connection: Closed") ++ (ended [] ++ text))))))

  http_reply-http_text : (text : Bytes) → http_reply texts text ≡ http_text text
  unfolding http_reply
  http_reply-http_text text = refl

module _ {F P : Type 0} (f : Floats F) (texts : Texts F) (opts : TreeMap P Bytes Bytes) where
  -- A command without `/`, `?` and control characters has one reply, which is sent back to who asks
  -- with plain text. Who asks with a GET of HTTP, with the command as path, slashes for its spaces and
  -- any query behind it, is sent the same reply behind the header lines of HTTP, whatever the lines
  -- after the first are; the version has no space and no newline.
  pub serve_billing_command-request :
      (p : Packet P) (address source : AddressUnion) (command version rest : Bytes)
      (query : Option Bytes) (ba : BillingAccumulator F) (seconds : ℕ)
      → IsCommand command
      → IsQuery query
      → Lacks b' ' version
      → Lacks 10 version
      → let plain = asks opts p address source command in
        let http = asks opts p address source (request command query version rest) in
        let reply = reply_to f texts command ba seconds in
        (serve_billing_command f texts opts plain ba seconds ≡ answers opts p address source reply)
        × (serve_billing_command f texts opts http ba seconds
            ≡ answers opts p address source (http_text texts reply))
  unfolding serve_billing_command reply_text
  serve_billing_command-request p address source command version rest query ba seconds h hq hv hl =
      (
        rw (is_http-plain command h, command_of-plain command h) refl,
        rw
            (
              request-is_http command version rest query,
              command_of-request command version rest query h hq hv hl,
              http_reply-http_text texts (reply_to f texts command ba seconds),
            )
            refl,
      )
