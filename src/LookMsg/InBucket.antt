-- ===== src/LookMsg/InBucket.antt =====
-- Lookups among the other messages of a bucket (iot/lookup-table.go and iot/lookmsg.go).
use knotfreeiot.Base.{ℕ, inl, inr, ◌∙◌, Bytes, Bool, List, [], ◌∷◌, Bool-cases}
use knotfreeiot.Base.Keys.{TreeMap, bytes_eq, nat_eq}
use knotfreeiot.Billing.{Floats, BillingAccumulator}
use knotfreeiot.Packets.Address.{Codecs}
use knotfreeiot.Packets.Packet.{Packet}
use knotfreeiot.Pubsub.Hash.{HashType, hash_eq}
use knotfreeiot.Pubsub.Topic.{WatchedTopic, WatcherItem, MyRedblacktree, Contact, Contacts, get}
use knotfreeiot.Pubsub.Table.{Event, Subscriptions}
use knotfreeiot.Pubsub.Watchers.{IsTable, IsKeyed, set_watcher-IsTable}
use knotfreeiot.Pubsub.Subscribe.{Looker}
use knotfreeiot.Pubsub.Messages.{Message, Services, process_messages}
use knotfreeiot.Pubsub.Messages.Invariant.{process_messages-IsTable}
use knotfreeiot.LookMsg.{Libraries, Server, Database, Effect, sends}
use knotfreeiot.LookMsg.Process.{process_lookup}
use knotfreeiot.LookMsg.Process.Keeps.{SameTopic}
use knotfreeiot.LookMsg.Process.Rewrites.{Rewrites, kept, rewritten}
use knotfreeiot.LookMsg.Process.Owner.{Accepted, serve_lookup-Rewrites}

-- What the handler itself does; the database and the commands queued for later are left to others.
unfoldable pub events_of : {P T F : Type 0} → List (Effect P T F) → List (Event P)
events_of [] = []
events_of (sends e ∷ es) = e ∷ events_of es
events_of (other ∷ es) = events_of es

module _ {P T F : Type 0} (opts : TreeMap P Bytes Bytes) (kv : TreeMap MyRedblacktree Bytes Bytes)
    (tree : TreeMap T ℕ WatcherItem) (f : Floats F) (libs : Libraries T F) (server : Server F)
    (db : Database T F) (random : ℕ) where
  abbrev pub with_lookups : (Packet P → BillingAccumulator F → ℕ → Packet P) → Services opts tree f
  with_lookups serve_billing_command = record {
    serve_billing_command = serve_billing_command;
    process_lookup = λ me contacts now ss h p s.
        let (s', effects) = process_lookup opts kv tree libs server db me now random h p s in
        (s', events_of effects);
  }

  same_watchers-IsKeyed :
      (contacts : Contacts) (wt wt' : WatchedTopic T F)
      → SameTopic wt wt'
      → IsKeyed tree contacts wt
      → IsKeyed tree contacts wt'
  unfolding get
  same_watchers-IsKeyed contacts wt wt' st k = record {
    keyed = λ j item found. k.keyed j item (rw st.thetree at found);
  }

  Rewrites-IsTable :
      (contacts : Contacts) (h : HashType) (A : HashType → WatchedTopic T F → Type 0)
      (s s' : Subscriptions T F)
      → Rewrites h A s s'
      → IsTable tree contacts s
      → IsTable tree contacts s'
  Rewrites-IsTable contacts h A s s' (kept e) t = rw e t
  Rewrites-IsTable contacts h A s s' (rewritten wt wt' found e st opt) t = rw e (
      set_watcher-IsTable tree contacts h wt' s (st.name ∙ t.named h wt found)
        (same_watchers-IsKeyed contacts wt wt' st (t.keys h wt found)) t)

  process_lookup-IsTable :
      (contacts : Contacts) (me : Looker F) (now : ℕ) (h : HashType) (p : Packet P)
      (s : Subscriptions T F)
      → IsTable tree contacts s
      → IsTable tree contacts (process_lookup opts kv tree libs server db me now random h p s).0
  unfolding process_lookup
  process_lookup-IsTable contacts me now h p s t = elim (Bool-cases me.is_guru) [
    | inr aide ↦ rw aide t
    | inl guru ↦ rw guru (
        Rewrites-IsTable contacts h (Accepted opts kv tree libs now h p) s _
          (serve_lookup-Rewrites opts kv tree libs server db now random h p s) t)
  ]

  -- The messages of a bucket, lookups among them, keep every topic once, under its name, and every
  -- watcher under the key of its contact.
  pub with_lookups-IsTable :
      (serve_billing_command : Packet P → BillingAccumulator F → ℕ → Packet P) (c : Codecs)
      (me : Looker F) (get_key : Contact → ℕ) (closed : Contact → Bool)
      (queue : List ((Contact → Bool) × ℕ × Message P)) (s : Subscriptions T F)
      → IsTable tree (record { get_key = get_key; is_closed = closed }) s
      → IsTable tree
          (record { get_key = get_key; is_closed = closed })
          (process_messages opts tree f (with_lookups serve_billing_command) c me get_key queue s).0
  with_lookups-IsTable serve_billing_command c me get_key closed queue s t =
      process_messages-IsTable opts tree f (with_lookups serve_billing_command) c me get_key closed
        queue s
        (record {
          keeps = λ contacts now ss h p s t. process_lookup-IsTable contacts me now h p s t;
        })
        t
