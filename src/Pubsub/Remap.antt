-- ===== src/Pubsub/Remap.antt =====
-- The callbacks of iot/lookup-table.go for a changed set of servers above: what a guru deletes, and
-- what an aide subscribes to again. `lookup` is the new table of the consistent hash, which is set
-- before a callback is queued.
use knotfreeiot.Base.{
  ℕ, ◌≡◌, refl, Bytes, Bool, false, List, [], ◌∷◌, ◌++◌, Option, none, some, ◌==◌, if◌then◌else◌,
  ascii, arith,
}
use knotfreeiot.Base.Keys.{TreeMap, bytes_eq, nat_eq}
use knotfreeiot.Billing.{Floats}
use knotfreeiot.Packets.Options.{set_option}
use knotfreeiot.Packets.Packet.{Packet, subscribe}
use knotfreeiot.Pubsub.Hash.{HashType, hash_eq, hash_beq_iff, get_half_hash}
use knotfreeiot.Pubsub.Topic.{WatcherItem}
use knotfreeiot.Pubsub.Table.{Router, Event, push_up, Subscriptions, get_watcher}
use knotfreeiot.Pubsub.Publish.{unsubscribe_packet}
use knotfreeiot.Pubsub.Heartbeat.{topic_address}

-- Does the lookup lead to this index? There is none (-1) where the name of the guru is not in the list.
unfoldable pub leads_to : (ℕ → ℕ) → Option ℕ → HashType → Bool
leads_to lookup none h = false
leads_to lookup (some index) h = lookup (get_half_hash h) == index

module _ {P T F : Type 0} (opts : TreeMap P Bytes Bytes) (tree : TreeMap T ℕ WatcherItem)
    (f : Floats F) where
  -- `guruDeleteRemappedAndGoneTopics`
  unfoldable pub guru_delete :
      (ℕ → ℕ) → Option ℕ → Router → Subscriptions T F → Subscriptions T F × List (Event P)
  guru_delete lookup index r [] = ([], [])
  guru_delete lookup index r ((h, wt) ∷ s) =
      let (kept, events) = guru_delete lookup index r s in
      if leads_to lookup index h
      then ((h, wt) ∷ kept, events)
      else (kept, push_up r (unsubscribe_packet opts tree f (topic_address h)) h ++ events)

  -- The packet of `reSubscribeRemappedTopics`, and with its option that of `reSubscribeMyTopics`.
  abbrev pub subscribe_packet : Option P → HashType → Packet P
  subscribe_packet options h = record {
    body = subscribe (topic_address h);
    options = options;
    backing = none;
  }

  -- `reSubscribeRemappedTopics`
  unfoldable pub resubscribe_remapped :
      (ℕ → ℕ) → Option (ℕ → ℕ) → Router → Subscriptions T F → List (Event P)
  resubscribe_remapped lookup previous r [] = []
  resubscribe_remapped lookup previous r ((h, wt) ∷ s) =
      let events = resubscribe_remapped lookup previous r s in
      let old : Option ℕ = elim previous [
        | none ↦ none
        | some before ↦ some (before (get_half_hash h))
      ] in
      if leads_to lookup old h then events else push_up r (subscribe_packet none h) h ++ events

  -- `reSubscribeMyTopics`, where the router has a table.
  unfoldable pub resubscribe_mine : (ℕ → ℕ) → ℕ → Router → Subscriptions T F → List (Event P)
  resubscribe_mine lookup index r [] = []
  resubscribe_mine lookup index r ((h, wt) ∷ s) =
      let events = resubscribe_mine lookup index r s in
      if leads_to lookup (some index) h
      then push_up r (subscribe_packet (set_option opts (ascii "noack") (ascii "y") none) h) h
        ++ events
      else events

  -- A guru keeps, as they were, exactly the topics for whose first word the new table gives its own
  -- index in the list of names; one whose name is not in the list keeps none.
  pub get_watcher-guru_delete :
      (lookup : ℕ → ℕ) (index : Option ℕ) (r : Router) (h : HashType) (s : Subscriptions T F)
      → get_watcher h (guru_delete lookup index r s).0 ≡ elim index [
        | none ↦ none
        | some own ↦ if lookup h.h0 == own then get_watcher h s else none
      ]
  unfolding guru_delete get_watcher leads_to
  get_watcher-guru_delete lookup none r h [] = refl
  get_watcher-guru_delete lookup (some own) r h [] = ground arith
  get_watcher-guru_delete lookup none r h ((j, wt) ∷ s) = get_watcher-guru_delete lookup none r h s
  get_watcher-guru_delete lookup (some own) r h ((j, wt) ∷ s) =
      ground (arith, get_watcher-guru_delete lookup (some own) r h s, hash_beq_iff j h)

  -- Where the table has not changed no topic is subscribed to again.
  pub resubscribe_remapped-same :
      (lookup : ℕ → ℕ) (r : Router) (s : Subscriptions T F)
      → resubscribe_remapped lookup (some lookup) r s ≡ []
  unfolding resubscribe_remapped leads_to
  resubscribe_remapped-same lookup r [] = refl
  resubscribe_remapped-same lookup r ((h, wt) ∷ s) =
      ground (arith, resubscribe_remapped-same lookup r s)
