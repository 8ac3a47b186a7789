-- ===== src/Pubsub/Tests.antt =====
-- An aide with one server above it, and contacts numbered by their keys, of which 9 is closed: the
-- inputs at which the theorems on the buckets and their handlers are applied.
mod Handlers
mod Buckets
mod Boards
use knotfreeiot.Base.{
  ℕ, zero, suc, ◌+◌, ◌*◌, ◌/◌, ◌<◌, ◌≡◌, ◌≢◌, ◌↔◌, refl, Bytes, true, false, List, [], ◌∷◌, map,
  none, some, ltb, ◌==◌, if◌then◌else◌, ascii, arith,
}
use knotfreeiot.Base.Keys.{TreeMap, bytes_eq, nat_eq}
use knotfreeiot.Base.Assoc.{assoc_map}
use knotfreeiot.Billing.{Floats, new_accumulator, zero_stats, BillingAccumulator, add32}
use knotfreeiot.Packets.Address.{Codecs, new_address_union, ensure_address_is_binary}
use knotfreeiot.Packets.Address.Binary.{FillsHash}
use knotfreeiot.Packets.Packet.{Packet, send, subscribe, unsubscribe}
use knotfreeiot.Packets.Options.{get_option}
use knotfreeiot.Pubsub.Hash.{
  HashType, hash_eq, hash_beq, hash_beq_iff, init_from_bytes, get_bytes, get_fractional_bits,
}
use knotfreeiot.Pubsub.Hash.Bytes24.{IsWords, init_from_bytes-get_bytes}
use knotfreeiot.Pubsub.Topic.{WatchedTopic, WatcherItem, Contact, Contacts, get, get_size}
use knotfreeiot.Pubsub.Table.{
  IsRouted, NoCrash, write_downstream, Subscriptions, get_watcher, the_buckets_size,
  the_buckets_size_log2, bucket_index-lt,
}
use knotfreeiot.Pubsub.Watchers.{Sent, IsTable}
use knotfreeiot.Pubsub.Subscribe.{
  Looker, push_up_unless_guru, new_watcher_item, new_watched_topic, watcher_for, process_subscribe,
}
use knotfreeiot.Pubsub.Subscribe.Watches.{or_else}
use knotfreeiot.Pubsub.Publish.{publish_loop, process_publish}
use knotfreeiot.Pubsub.Publish.Delivery.{wanted, stale, chosen, publish_loop_lem}
use knotfreeiot.Pubsub.Unsubscribe.{process_unsubscribe}
use knotfreeiot.Pubsub.Messages.{
  Services, address_of, set_address, queued, publish_message, unsubscribe_message, process_messages,
}
use knotfreeiot.Pubsub.Messages.Queue.{GivesBytes}
use knotfreeiot.Pubsub.Messages.Invariant.{LookupKeeps, process_messages-IsTable}
use knotfreeiot.Pubsub.Routed.{process_messages-NoCrash}
use knotfreeiot.Pubsub.Heartbeat.{heart_beat}
use knotfreeiot.Pubsub.Heartbeat.Table.{Watching, heart_beat_lem, heart_beat-IsTable}
use knotfreeiot.Pubsub.Remap.{
  leads_to, guru_delete, resubscribe_remapped, get_watcher-guru_delete, resubscribe_remapped-same,
}
use knotfreeiot.Pubsub.Reach.{
  process_publish_reaches, process_publish-Sent, process_unsubscribe_stops,
}
use knotfreeiot.Pubsub.Reach.Delivers.{IsNew, subscribe_delivers, subscribe-unsubscribe}

abbrev pub Opts : Type 0
Opts = List (Bytes × Bytes)

abbrev pub Tree : Type 0
Tree = List (ℕ × WatcherItem)

abbrev pub opts : TreeMap Opts Bytes Bytes
opts = assoc_map

abbrev pub tree : TreeMap Tree ℕ WatcherItem
tree = assoc_map

abbrev pub whole : Floats ℕ
whole = record {
  of_nat = λ n. n;
  tenth = 0;
  add = ◌+◌;
  mul = ◌*◌;
  div = ◌/◌;
  floor = λ n. n;
  lt = ltb;
  eq = ◌==◌;
}

abbrev pub zeros : ℕ → Bytes
zeros zero = []
zeros (suc n) = 0 ∷ zeros n

abbrev pub blank : Codecs
blank = record {
  sha256 = λ bs. zeros 32;
  hex_decode = λ bs. zeros 24;
  base64_decode = λ bs. zeros 24;
  base64_encode = λ bs. zeros 32;
}

abbrev pub aide : Looker ℕ
aide = record {
  is_guru = false;
  router = record { maglev = some (λ h. 0); channels = true ∷ [] };
  unmarshal_stats = λ bs. none;
  parse_int = λ bs. none;
  hash_string = get_bytes;
}

abbrev pub people : Contacts
people = record { get_key = λ c. c; is_closed = λ c. c == 9 }

abbrev pub news : HashType
news = record { h0 = 1; h1 = 2; h2 = 3 }

abbrev pub watcher : Contact → WatcherItem
watcher c = record { contact_interface = c; pub2self = false }

abbrev pub topic : WatchedTopic Tree ℕ
topic = record {
  name = news;
  expires = 5000;
  thetree = (5, watcher 5) ∷ (7, watcher 7) ∷ (9, watcher 9) ∷ [];
  bill = none;
  next_billing_time = 30;
  last_billing_time = 0;
  jwtid = [];
  owner = [];
  name_str = [];
  optional_key_values = none;
}

abbrev pub table : Subscriptions Tree ℕ
table = (news, topic) ∷ []

abbrev pub nothing : Subscriptions Tree ℕ
nothing = []

abbrev pub hello : Packet Opts
hello = record {
  body = send (new_address_union (ascii "news")) (new_address_union (ascii "me")) (ascii "hello");
  options = none;
  backing = none;
}

abbrev pub join : Packet Opts
join = record {
  body = subscribe (new_address_union (ascii "news"));
  options = none;
  backing = none;
}

abbrev pub leave : Packet Opts
leave = record {
  body = unsubscribe (new_address_union (ascii "news"));
  options = none;
  backing = none;
}

abbrev pub reply : Packet Opts → BillingAccumulator ℕ → ℕ → Packet Opts
reply p ba now = p

abbrev pub services : Services opts tree whole
services = record {
  serve_billing_command = reply;
  process_lookup = λ me contacts now ss h p s. (s, []);
}

table-found : get_watcher news table ≡ some topic
unfolding get_watcher hash_beq
table-found = refl

pub table-IsTable : IsTable tree people table
unfolding get_watcher get hash_beq
table-IsTable = record {
  named = λ h wt found. ground (arith, hash_beq_iff news h);
  keys = λ h wt found. record { keyed = λ k item there. ground (arith, hash_beq_iff news h) };
  once = (refl, tt);
}

news-IsWords : IsWords news
news-IsWords = record { w0 = omega arith; w1 = omega arith; w2 = omega arith }

pub blank-FillsHash : FillsHash blank
blank-FillsHash = record {
  sha256_length = λ bs. refl;
  hex_length = λ bs. refl;
  base64_length = λ bs. refl;
}

pub blank-GivesBytes : GivesBytes blank
blank-GivesBytes = record {
  sha256_bytes = λ bs. ground arith;
  hex_bytes = λ bs. ground arith;
  base64_bytes = λ bs. ground arith;
}
