-- ===== src/ContactStruct/EndToEnd.antt =====
-- From one connection to another: a Subscribe and a Send that two contacts push, and the bucket that
-- both get into.
use knotfreeiot.Base.{
  ℕ, ◌≡◌, ◌≢◌, refl, sym, ap, ◌∙◌, Bytes, true, false, [], ◌∷◌, Option, none, some, inl, inr,
  Bool-cases, if◌then◌else◌, ascii, arith,
}
use knotfreeiot.Base.Keys.{TreeMap, bytes_eq, nat_eq, bytes_beq}
use knotfreeiot.Billing.{Floats}
use knotfreeiot.Packets.Address.{AddressUnion, Codecs, ensure_address_is_binary}
use knotfreeiot.Packets.Address.Binary.{FillsHash, ensure_binary}
use knotfreeiot.Packets.Options.{get_option, set_option}
use knotfreeiot.Packets.Options.Unpack.{get_option-set_option}
use knotfreeiot.Packets.Packet.{Packet, send, subscribe}
use knotfreeiot.Tokens.{TokenPayload}
use knotfreeiot.Pubsub.Hash.{HashType, hash_eq, init_from_bytes, get_fractional_bits}
use knotfreeiot.Pubsub.Topic.{WatcherItem, Contact, Contacts}
use knotfreeiot.Pubsub.Table.{Subscriptions, the_buckets_size_log2}
use knotfreeiot.Pubsub.Watchers.{Sent, Sent-append_left, Sent-append_right}
use knotfreeiot.Pubsub.Subscribe.{Looker, process_subscribe}
use knotfreeiot.Pubsub.Messages.{
  Message, subscription_message, publish_message, queued, address_of, set_address, Services,
  process_message, process_messages,
}
use knotfreeiot.Pubsub.Messages.Queue.{IsBytes, GivesBytes, ensure-IsBytes, queued-bucket}
use knotfreeiot.Pubsub.Reach.Delivers.{Unwatched, Unwatched-IsNew, subscribe_delivers}
use knotfreeiot.ContactStruct.{
  ContactStruct, queue, pushed, Environment, expect_token, binary_packet, with_jwtid, queued_action,
  push_by_type, push_packet_up_from_bottom,
}
use knotfreeiot.ContactStruct.Push.{living, living-token, push_lem}

-- The address of a topic leads to one hash.
abbrev pub TopicOf : Codecs → AddressUnion → HashType → Type 0
TopicOf c a h = init_from_bytes (ensure_address_is_binary c a).bytes ≡ some h

abbrev pub bucket_of : ℕ → HashType → ℕ
bucket_of topics h = get_fractional_bits (the_buckets_size_log2 topics) h

abbrev pub sent : {P : Type 0} → AddressUnion → AddressUnion → Bytes → Option P → Packet P
sent a source payload options = record {
  body = send a source payload;
  options = options;
  backing = none;
}

abbrev pub joined : {P : Type 0} → AddressUnion → Option P → Packet P
joined a options = record { body = subscribe a; options = options; backing = none }

module _ {P F : Type 0} (opts : TreeMap P Bytes Bytes) (f : Floats F) (env : Environment F)
    (topics : ℕ) (log2 : env.buckets_log2 ≡ the_buckets_size_log2 topics)
    (fills : FillsHash env.codecs) (gives : GivesBytes env.codecs) where
  abbrev rebound : AddressUnion → Packet P → Packet P
  rebound a p = record p { body = set_address (ensure_address_is_binary env.codecs a) p.body }

  -- A packet with the address of a, made binary, gets into the bucket of a.
  queued-again :
      (a : AddressUnion) (p : Packet P) (make : HashType → Packet P → Message P)
      → IsBytes a.bytes
      → address_of p.body ≡ ensure_address_is_binary env.codecs a
      → (h : HashType) × (TopicOf env.codecs a h)
        × (queued env.codecs env.buckets_log2 make p
            ≡ some (bucket_of topics h, make h (rebound a p)))
  queued-again a p make bytes same =
      let (_, _, again) = ensure_binary env.codecs fills a in
      let bytes' : IsBytes (address_of p.body).bytes =
        rw same (ensure-IsBytes env.codecs a gives bytes) in
      let there : ensure_address_is_binary env.codecs (address_of p.body)
          ≡ ensure_address_is_binary env.codecs a =
        ap (ensure_address_is_binary env.codecs) same ∙ again in
      let (h, _, e, q, _) = queued-bucket env.codecs topics make p fills gives bytes' in
      (
        h,
        ap (λ (x : AddressUnion). init_from_bytes x.bytes) (sym there) ∙ e,
        ap (λ (n : ℕ). queued env.codecs n make p) log2
            ∙ (q
                ∙ ap
                    (λ (x : AddressUnion).
                      some (bucket_of topics h, make h (record p { body = set_address x p.body })))
                    there),
      )

  expect_token-some :
      (now : ℕ) (p : Packet P) (con : ContactStruct F) (t : TokenPayload F)
      → con.token ≡ some t
      → expect_token opts f env now p con ≡ (con, [])
  unfolding expect_token
  expect_token-some now p con t token = ground arith

  checked :
      (now : ℕ) (p : Packet P) (con : ContactStruct F) (t : TokenPayload F)
      → con.token ≡ some t
      → expect_token opts f env now p (living opts f env now true con)
        ≡ (living opts f env now true con, [])
  checked now p con t token =
      expect_token-some now p (living opts f env now true con) t
        (living-token opts f env now true con ∙ token)

  marked :
      (now : ℕ) (a : AddressUnion) (o : Option P) (con : ContactStruct F) (t : TokenPayload F)
      → con.token ≡ some t
      → (get_option opts o (ascii "statsmax")).1 ≡ false
      → with_jwtid opts f env
          (living opts f env now true con)
          (joined (ensure_address_is_binary env.codecs a) o)
        ≡ joined
            (ensure_address_is_binary env.codecs a)
            (if env.is_guru then o else set_option opts (ascii "jwtid") t.jwtid o)
  unfolding with_jwtid
  marked now a o con t token plain =
      let there : (living opts f env now true con).token ≡ some t =
        living-token opts f env now true con ∙ token in
      elim (Bool-cases env.is_guru) [
        | inl g ↦ rw plain (rw g refl)
        | inr g ↦ rw plain (rw g (rw there refl))
      ]

  unset_statsmax :
      (o : Option P) (id : Bytes)
      → (get_option opts o (ascii "statsmax")).1 ≡ false
      → (get_option opts
          (if env.is_guru then o else set_option opts (ascii "jwtid") id o)
          (ascii "statsmax")).1
        ≡ false
  unfolding bytes_beq
  unset_statsmax o id plain = elim (Bool-cases env.is_guru) [
    | inl g ↦ rw g plain
    | inr g ↦ rw g (rw (get_option-set_option opts (ascii "jwtid") (ascii "statsmax") id o) plain)
  ]

  -- A Send of a contact that has a token gets into the bucket of its address.
  pub push-send :
      (now : ℕ) (ssi : Contact) (a source : AddressUnion) (payload : Bytes) (o : Option P)
      (con : ContactStruct F) (t : TokenPayload F)
      → IsBytes a.bytes
      → con.closed ≡ false
      → con.token ≡ some t
      → (h : HashType) × (TopicOf env.codecs a h)
        × (push_packet_up_from_bottom opts f env now ssi (sent a source payload o) con
            ≡ pushed
                (living opts f env now true con)
                (queue (bucket_of topics h) (
                    publish_message ssi h
                      (sent (ensure_address_is_binary env.codecs a) source payload o))
                  ∷ [])
                [])
  unfolding push_packet_up_from_bottom push_by_type queued_action binary_packet address_of
      set_address
  push-send now ssi a source payload o con t bytes open_ token =
      let binary = ensure_address_is_binary env.codecs a in
      let (h, e, q) =
        queued-again a (sent binary source payload o) (publish_message ssi) bytes refl in
      (
        h,
        e,
        push_lem opts f env now ssi (sent a source payload o) true con open_
            ∙ rw (checked now (sent a source payload o) con t token) (rw (q, queued_action) refl),
      )

  -- A Subscribe gets there too, with the id of the token if this is no guru.
  pub push-subscribe :
      (now : ℕ) (ssi : Contact) (a : AddressUnion) (o : Option P) (con : ContactStruct F)
      (t : TokenPayload F)
      → IsBytes a.bytes
      → con.closed ≡ false
      → con.token ≡ some t
      → (get_option opts o (ascii "statsmax")).1 ≡ false
      → (h : HashType) × (TopicOf env.codecs a h)
        × (push_packet_up_from_bottom opts f env now ssi (joined a o) con
            ≡ pushed
                (living opts f env now true con)
                (queue (bucket_of topics h) (
                    subscription_message ssi h (
                      joined
                        (ensure_address_is_binary env.codecs a)
                        (if env.is_guru then o else set_option opts (ascii "jwtid") t.jwtid o)))
                  ∷ [])
                [])
  unfolding push_packet_up_from_bottom push_by_type queued_action binary_packet address_of
      set_address with_jwtid
  push-subscribe now ssi a o con t bytes open_ token plain =
      let binary = ensure_address_is_binary env.codecs a in
      let o' = if env.is_guru then o else set_option opts (ascii "jwtid") t.jwtid o in
      let (h, e, q) = queued-again a (joined binary o') (subscription_message ssi) bytes refl in
      let id : with_jwtid opts f env (living opts f env now true con) (joined binary o)
          ≡ joined binary o' =
        marked now a o con t token plain in
      (
        h,
        e,
        push_lem opts f env now ssi (joined a o) true con open_
            ∙ rw (checked now (joined a o) con t token) (rw id (rw (q, queued_action) refl)),
      )

module _ {P T F : Type 0} (opts : TreeMap P Bytes Bytes) (tree : TreeMap T ℕ WatcherItem)
    (f : Floats F) (env : Environment F) (topics : ℕ)
    (log2 : env.buckets_log2 ≡ the_buckets_size_log2 topics) (fills : FillsHash env.codecs)
    (gives : GivesBytes env.codecs) (v : Services opts tree f) (me : Looker F)
    (contacts : Contacts) where
  -- One contact with a token pushes a Subscribe to an address, then another one pushes a Send to it:
  -- both get into the same bucket, and when the bucket has handled the two messages the payload was
  -- written to the first contact. This is where the topic is new to that contact and does not bill,
  -- both connections are open, the Subscribe has no option statsmax and they have different keys.
  pub subscribe_then_send :
      (n m n' m' : ℕ) (ssi ssj : Contact) (a source : AddressUnion) (payload : Bytes)
      (o o' : Option P) (con con2 : ContactStruct F) (t t2 : TokenPayload F)
      → IsBytes a.bytes
      → (con.closed ≡ false) × (con.token ≡ some t)
      → (con2.closed ≡ false) × (con2.token ≡ some t2)
      → (get_option opts o (ascii "statsmax")).1 ≡ false
      → contacts.is_closed ssi ≡ false
      → contacts.get_key ssi ≢ contacts.get_key ssj
      → (i : ℕ) × (h : HashType) × (first second : Message P) × TopicOf env.codecs a h
        × (push_packet_up_from_bottom opts f env n ssi (joined a o) con
            ≡ pushed (living opts f env n true con) (queue i first ∷ []) [])
        × (push_packet_up_from_bottom opts f env m ssj (sent a source payload o') con2
            ≡ pushed (living opts f env m true con2) (queue i second ∷ []) [])
        × ((s : Subscriptions T F)
            → Unwatched tree contacts ssi h s
            → Sent ssi
                (sent (ensure_address_is_binary env.codecs a) source payload o')
                (process_messages opts tree f v env.codecs me contacts.get_key
                  ((contacts.is_closed, n', first) ∷ (contacts.is_closed, m', second) ∷ [])
                  s).1)
  unfolding process_messages process_message
  subscribe_then_send n m n' m' ssi ssj a source payload o o' con con2 t t2 bytes one two plain
        open_ other =
      let (h, e, first_pushed) =
        push-subscribe opts f env topics log2 fills gives n ssi a o con t bytes one.0 one.1 plain in
      let (h2, e2, second_pushed) =
        push-send opts f env topics log2 fills gives m ssj a source payload o' con2 t2 bytes two.0
          two.1 in
      let same : h2 ≡ h = cc (e, e2) in
      let binary = ensure_address_is_binary env.codecs a in
      let first_packet =
        joined binary (if env.is_guru then o else set_option opts (ascii "jwtid") t.jwtid o) in
      let second_packet = sent binary source payload o' in
      (
        bucket_of topics h,
        h,
        subscription_message ssi h first_packet,
        publish_message ssj h second_packet,
        e,
        first_pushed,
        rw same at second_pushed,
        λ s free.
            let new =
              Unwatched-IsNew opts tree f me contacts n' ssi h first_packet s free
                (unset_statsmax opts f env topics log2 fills gives o t.jwtid plain) in
            let delivered =
              subscribe_delivers opts tree f me contacts n' ssi h first_packet s
                v.serve_billing_command m' ssj second_packet new open_ other in
            Sent-append_right ssi second_packet
              (process_subscribe opts tree f me contacts n' ssi h first_packet s).1 _
              (Sent-append_left ssi second_packet _ [] delivered),
      )
