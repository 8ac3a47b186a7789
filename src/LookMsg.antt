-- ===== src/LookMsg.antt =====
-- Commands on names, `processLookup` of iot/lookmsg.go: what they take from elsewhere, what they do
-- beside changing their bucket, and the reply.
pub mod Maps
pub mod Commands
pub mod OnTopic
pub mod Names
pub mod Process
pub mod InBucket
pub mod Reserve
pub mod Tests
use knotfreeiot.Base.{ℕ, Bytes, Bool, List, [], ◌∷◌, Option, none, some}
use knotfreeiot.Base.Keys.{TreeMap, bytes_eq}
use knotfreeiot.Packets.Address.{AddressUnion, new_address_union}
use knotfreeiot.Packets.Options.{copy_options}
use knotfreeiot.Packets.Packet.{Packet, Body, send}
use knotfreeiot.Tokens.{OrError, TokenPayload}
use knotfreeiot.Pubsub.Hash.{HashType, get_bytes}
use knotfreeiot.Pubsub.Topic.{WatchedTopic}
use knotfreeiot.Pubsub.Table.{Event, to_any_aide}
use knotfreeiot.Pubsub.Messages.{address_of}
use knotfreeiot.LookMsg.Maps.{GoMap}

-- The Go libraries: strings, base64 (the raw URL encoding), nacl/box with the private key of the
-- cluster, strconv (an int64 is its 64 bits), JSON, sort, and `int` of a float64 that is not negative.
-- What they report as an error is the text of it.
pub record Libraries (T F : Type 0) : Type 0 where
  pub trim_space : Bytes → Bytes
  pub to_lower : Bytes → Bytes
  pub to_upper : Bytes → Bytes
  pub base64_decode : Bytes → OrError Bytes
  pub base64_encode : Bytes → Bytes
  pub box_open : Bytes → Bytes → Bytes → Option Bytes
  pub parse_int : Bytes → Option ℕ
  pub format_int : ℕ → Bytes
  pub marshal_topic : WatchedTopic T F → OrError Bytes
  pub marshal_exists : Bool → Bool → Bytes
  pub marshal_proxy_status : Bool → Bool → Bytes → Bytes → Bytes
  pub unmarshal_map : Bytes → OrError GoMap
  pub sort_strings : List Bytes → List Bytes
  pub int_of : F → ℕ
  pub sha256 : Bytes → Bytes

-- The rest of the server: `ValidateToken`, and the public key of the cluster.
pub record Server (F : Type 0) : Type 0 where
  pub validate_token : Bytes → OrError (TokenPayload F)
  pub public_key_temp : Bytes

-- The database of iot/mongo.go as it answers: the topic under a name, and how many topics an owner
-- has.
pub record Database (T F : Type 0) : Type 0 where
  pub get_subscription : Bytes → Option (WatchedTopic T F)
  pub get_subscription_list_count : Bytes → Option ℕ

-- What is done with the topic of a lookup, once there is one. A key is in upper case already, but for
-- that of `get_option`.
pub data Finish : Type 0 where
  details proxy_status : Finish
  get_option : Bytes → Bytes → Finish
  get_txt : Bytes → Finish
  set_option : Bytes → Bytes → Bytes → Finish
  bulk_option : Bytes → List Bytes → Finish
  replace_options : Bytes → Finish

-- A `lookBackCommand`, which is queued in the bucket: remember a topic from the database and go on
-- with it; set the topic, or remove it, and reply "ok"; or set the topic that was in the bucket before,
-- which is the same object.
pub data LookBack (T F : Type 0) : Type 0 where
  finish_with : Finish → WatchedTopic T F → LookBack T F
  exists_with : WatchedTopic T F → LookBack T F
  set_and_reply : Option (WatchedTopic T F) → LookBack T F
  keep_and_reply : WatchedTopic T F → LookBack T F

-- What a lookup does beside changing its bucket: what a handler does, a topic written to the
-- database or deleted there, a goroutine that reads the database, and a command for the bucket.
pub data Effect (P T F : Type 0) : Type 0 where
  sends : Event P → Effect P T F
  saves : WatchedTopic T F → Effect P T F
  deletes : Bytes → Effect P T F
  loads : Finish → Effect P T F
  loads_exists : Effect P T F
  requeues : LookBack T F → Effect P T F

unfoldable pub source_of : Body → AddressUnion
source_of (Body.lookup address source) = source
source_of body = new_address_union []

-- `ToBase64`
abbrev pub to_base64 : {T F : Type 0} → Libraries T F → HashType → Bytes
to_base64 libs h = libs.base64_encode (get_bytes h)

module _ {P : Type 0} (opts : TreeMap P Bytes Bytes) where
  -- The packet of `sendReply`
  unfoldable pub reply_packet : Packet P → Bytes → Packet P
  unfolding source_of
  reply_packet p reply = record {
    body = send (source_of p.body) (address_of p.body) reply;
    options = copy_options opts p.options none;
    backing = none;
  }

  abbrev pub send_reply : {T F : Type 0} → Packet P → Bytes → Effect P T F
  send_reply p reply = sends (to_any_aide (reply_packet p reply))
