-- ===== src/BillingCommand.antt =====
-- `serveBillingCommand` of iot/billing-command.go: what is replied to a publish to a billing topic, as
-- text or as HTTP.
pub mod Http
mod Tests
use knotfreeiot.Base.{
  ℕ, Bytes, Bool, true, false, not, List, [], ◌∷◌, ◌++◌, length, drop, ◌==◌, if◌then◌else◌, ascii,
  none,
}
use knotfreeiot.Base.Keys.{TreeMap, bytes_beq, bytes_eq}
use knotfreeiot.Billing.{Floats, Stats, BillingAccumulator, get_stats}
use knotfreeiot.Packets.Address.{AddressUnion, new_address_union}
use knotfreeiot.Packets.Options.{copy_options}
use knotfreeiot.Packets.Packet.{Packet, Body}
use knotfreeiot.Pubsub.Messages.{address_of}
use knotfreeiot.Tokens.{OrError, good, bad, has_prefix}
use knotfreeiot.LookMsg.Maps.{split}
use knotfreeiot.LookMsg.Commands.{open_lock}

-- `strings.ReplaceAll(command, "/", " ")`
unfoldable pub unslashed : Bytes → Bytes
unslashed [] = []
unslashed (b ∷ bs) = (if b == b'/' then b' ' else b) ∷ unslashed bs

unfoldable pub trim_prefix : Bytes → Bytes
trim_prefix [] = []
trim_prefix (b ∷ bs) = if b == b'/' then bs else b ∷ bs

abbrev pub first_of : List Bytes → Bytes
first_of [] = []
first_of (part ∷ parts) = part

-- The command in the path of the first line of a request.
unfoldable pub path_command : List Bytes → Bytes
unfolding unslashed trim_prefix
path_command (method ∷ path ∷ version ∷ []) = unslashed (trim_prefix (first_of (split path b'?')))
path_command parts = ascii "expected 3 parts to http request "

unfoldable pub is_http : Bytes → Bool
unfolding has_prefix
is_http command = has_prefix (ascii "GET /") command

-- A split always has a first part, so there is always a first line.
unfoldable pub command_of : Bytes → Bytes
command_of command =
    if is_http command then path_command (split (first_of (split command 10)) b' ') else command

abbrev pub locked_line : Bytes → Bytes
locked_line text = text ++ (open_lock ++ 10 ∷ [])

unfoldable pub help_text : Bytes
help_text =
    locked_line (ascii "[get stats] current usage numbers")
    ++ (locked_line (ascii "[get max] maximum allowed numbers")
        ++ (locked_line (ascii "[get pubk] device public key")
            ++ (locked_line (ascii "[get admin hint] the first chars of the admin public keys")
                ++ (ascii "[about] info on this device"
                    ++ 10 ∷ locked_line (ascii "[help] lists all commands")))))

abbrev pub crlf : Bytes → Bytes
crlf text = text ++ 13 ∷ 10 ∷ []

-- `json.Marshal` of statistics, and `strconv.FormatInt` of a length.
pub record Texts (F : Type 0) : Type 0 where
  pub marshal : Stats F → OrError Bytes
  pub format_int : ℕ → Bytes

unfoldable pub marshalled : OrError Bytes → Bytes
marshalled (good bytes) = bytes
marshalled (bad e) = ascii "error fail " ++ e

module _ {F : Type 0} (texts : Texts F) where
  unfoldable pub http_reply : Bytes → Bytes
  http_reply reply =
      crlf (ascii "HTTP/1.1 200 OK")
      ++ (crlf (ascii "Content-Length: " ++ texts.format_int (length reply))
          ++ (crlf (ascii "Content-Type: text/plain")
              ++ (crlf (ascii "Access-Control-Allow-Origin: *")
                  ++ (crlf (ascii "access-control-expose-headers: nonc")
                      ++ (crlf (ascii "Connection: Closed") ++ (crlf [] ++ reply))))))

module _ {F : Type 0} (f : Floats F) (texts : Texts F) where
  unfoldable pub reply_to : Bytes → BillingAccumulator F → ℕ → Bytes
  reply_to command ba seconds =
      if bytes_beq command (ascii "get max")
      then marshalled (texts.marshal ba.max)
      else if bytes_beq command (ascii "get stats")
      then marshalled (texts.marshal (get_stats f seconds ba))
      else if bytes_beq command (ascii "about")
      then ascii "billing_v.0.1.2"
      else if bytes_beq command (ascii "get pubk")
      then ascii "-none"
      else if bytes_beq command (ascii "get admin hint")
      then ascii "-none"
      else help_text

  unfoldable pub reply_text : Bytes → BillingAccumulator F → ℕ → Bytes
  reply_text command ba seconds =
      let reply = reply_to (command_of command) ba seconds in
      if is_http command then http_reply texts reply else reply

  -- `p` is a Send: the reply goes to its source.
  unfoldable pub serve_billing_command :
      {P : Type 0} → TreeMap P Bytes Bytes → Packet P → BillingAccumulator F → ℕ → Packet P
  serve_billing_command opts p ba seconds = elim p.body [
    | Body.send address source payload ↦ record {
      body = Body.send source address (reply_text payload ba seconds);
      options = copy_options opts p.options none;
      backing = none;
    }
    | _ ↦ p
  ]
