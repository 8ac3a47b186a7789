-- ===== src/Lib.antt =====
-- A model of knotfreeiot, a publish/subscribe server: its wire format, its billing and the tables of
-- subscriptions that its messages go through.
--
-- A client speaks packets. The servers form two levels: aides, which clients connect to, and gurus
-- above them. A server keeps its topics in buckets, each with a queue and one goroutine. A packet is
-- put into the bucket of its address, and the handler of its type changes the bucket and writes
-- packets down to contacts and up to a guru.
--
-- - Base: lists, bits and tests on the native numbers; Base/Keys is the ordered map of the package
--   github.com/emirpasic/gods as an interface (TreeMap), and Base/Assoc shows that it can be met.
-- - Packets (packets/packets.go). VarInt is WriteVarLenInt and ReadVarLenInt, Wire is Universal,
--   WriteArrayOfByteArray and ReadArrayOfByteArray, Address is AddressUnion, Options is PacketCommon,
--   Packet is Fill and Write of each type with FillPacket and ReadPacket. A writer is a state with a
--   function that takes bytes or fails; a reader is the bytes that are left. The recursion of
--   WriteVarLenInt is on the accessibility of its argument, the loop of ReadVarLenInt is bounded by
--   its own count of five. The hash, hex and base64 codecs are parameters (Codecs).
-- - Billing (iot/billing.go, and the statistics record of tokens/tokens.go). The ring of four buckets
--   of a BillingAccumulator: AddUsage, GetStats and AreUnderMax. float64 is a parameter (Floats),
--   uint32 times keep their wrap-around. Billing/Ring is about AddUsage, Billing/Window about
--   GetStats. AddUsage can lock its mutex twice (`locks_again`), which is a result of its own in
--   Billing; the handlers of Pubsub take `usage_added`, the uses that return.
-- - Pubsub (iot/hashes.go, iot/lookup-table.go, iot/subscribe.go, iot/publish.go, and the router of
--   iot/upper-channels.go). Hash is HashType, Topic is WatchedTopic, Table is the hash table of a
--   bucket with PushUp, Subscribe, Publish and Unsubscribe are the handlers, Messages puts a packet
--   into a bucket and is the loop of processMessages, Heartbeat is heartBeatCallBack, Remap is what
--   follows a change of the gurus. A handler gives the table that is left and the list of its events:
--   what it writes down to a contact, puts into a channel to a guru or to any aide, and `crash` where
--   an index is out of range.
--
-- - Tokens (tokens/tokens.go): GetKnotFreePayload, FindPublicKey, VerifyToken and ValidateToken.
--   Base64, JSON and the signatures are parameters (TokenLibraries). The loop of sort.Search is on as
--   much fuel as there are keys. The panic of FindPublicKey on a name that does not fit its array is
--   left out.
-- - Badjson (badjson/parse.go): the segments, Chop (Badjson/Chop), Raw and GetQuoted (Badjson/Print).
--   The fuel of Chop is two rounds for each byte and three more, since of two rounds one passes a
--   byte. What Go does with an index out of range is `panics`. UTF-8, hex and base64 are parameters.
--   TextProtocol is Text2Packet of iot/text-protocol.go.
-- - Pubsub/Spec is what a bucket promises without its table: who watches which topic, and which bill.
-- - ContactStruct (iot/contacts.go): a connection from below. A push gives the contact that is left
--   and the list of what it makes others do (Action): messages into buckets, packets written down,
--   the closing of the contact. The goroutines that the check of a token starts are a list of their
--   own, as they run in any order with the rest. Beat has its counters and its heartbeat, Keys the
--   list of open contacts, EndToEnd goes from one connection through a bucket to another. A command
--   of a contact is run with sole access to it, and the command of SetExpires is run at once.
--
-- - LookMsg (iot/lookmsg.go, iot/nameServices.go): the commands on names. Maps is StringToMap and
--   MapToString, Commands the table of commands, OnTopic what a command does with the topic of its
--   name, Names `reserve` and `delete`, Process is processLookup and the command that is queued for
--   later, InBucket puts lookups among the other messages. A lookup gives the table and a list of
--   effects: replies, writes to the database, goroutines that read it (`load_watcher`), commands for
--   the bucket (`look_back`). The options of a topic are in Pubsub/Topic/Options. A topic that is
--   removed and made again before such a command runs is taken for the same.
--
-- - Upper (iot/upper-channels.go): SetUpstreamNames, with the goroutines that it starts as effects.
--   The table of maglev.New is a parameter. The names are given by one goroutine, while no message is
--   handled.
--
-- - Executive (iot/executive.go): CalcExpansionDesired, with float64 as in Billing and its constants
--   as a parameter.
--
-- - BillingCommand (iot/billing-command.go): serveBillingCommand, the reply to a publish to a topic
--   that bills, which is a parameter of publish in Pubsub. A command that comes with HTTP is in
--   BillingCommand/Http.
--
-- - MqttProtocol (iot/mqtt-protocol.go): Whole is IsWholeMqttPacket with the buffer of WebSocketLoop,
--   Up is MQTTHandlePacket, Down is WriteDownstream. The packets are those that libmqtt gives and
--   takes.
--
-- In the handlers contacts are handles, and what GetKey and IsClosed answer while one message is
-- handled is a parameter. A handler reads the clock once. A packet is a value: a change that one
-- holder makes is not seen by another. The goroutines of the heartbeat are done in turn. The order of
-- a Go map is the order of the list that stands for it.
--
-- Not modelled: what is printed and counted; JSON, BSON and the database; sockets, dialers, HTTP and
-- the MQTT library; the making of tokens, key files and signatures; the goroutines of a contact and
-- of a channel; how the names of the servers above are found.
pub mod Base
pub mod Packets
pub mod Billing
pub mod Tokens
pub mod Badjson
pub mod Pubsub
pub mod ContactStruct
pub mod TextProtocol
pub mod LookMsg
pub mod BillingCommand
pub mod Upper
pub mod Executive
pub mod MqttProtocol
