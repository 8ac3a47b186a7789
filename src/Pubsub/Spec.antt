-- ===== src/Pubsub/Spec.antt =====
-- What a bucket of iot/lookup-table.go promises, without its table: who watches which topic, and
-- which topics bill. What expires, the statistics and the owners are forgotten.
pub mod Refines
pub mod Topics
use knotfreeiot.Base.{
  ℕ, Bytes, Bool, true, false, not, ◌&&◌, ◌||◌, List, [], ◌∷◌, Option, none, some, ◌==◌,
  if◌then◌else◌, ascii, ◌≡◌,
}
use knotfreeiot.Base.Keys.{TreeMap, bytes_eq}
use knotfreeiot.Packets.Packet.{Packet}
use knotfreeiot.Pubsub.Hash.{HashType, hash_beq}
use knotfreeiot.Pubsub.Topic.{WatcherItem, Contact, Contacts}
use knotfreeiot.Pubsub.Subscribe.{Looker, option_of, new_watcher_item}
use knotfreeiot.Pubsub.Subscribe.Watches.{or_else}
use knotfreeiot.Pubsub.Publish.Delivery.{stale}
use knotfreeiot.Pubsub.Messages.{
  Message, subscription_message, unsubscribe_message, lookup_message, publish_message,
  subscription_message_down, publish_message_down,
}

pub record Board : Type 0 where
  pub watches : HashType → ℕ → Option WatcherItem
  pub bills : HashType → Bool

-- What a publish by the contact with this key leaves of a watcher.
unfoldable pub unless_stale : Contacts → ℕ → ℕ → Option WatcherItem → Option WatcherItem
unless_stale contacts pub_key k none = none
unless_stale contacts pub_key k (some item) =
    if stale contacts pub_key (k, item) then none else some item

module _ {P F : Type 0} (opts : TreeMap P Bytes Bytes) (me : Looker F) where
  -- Does a subscribe carry maxima that can be read?
  unfoldable pub has_maxima : Packet P → Bool
  has_maxima p =
      let (val, ok) = option_of opts p (ascii "statsmax") in
      if ok then elim (me.unmarshal_stats val) [ none ↦ false | some stats ↦ true ] else false

  unfoldable pub step : Contacts → Message P → Board → Board
  step contacts (subscription_message ss h p) b = record {
    watches = λ j k.
        if hash_beq h j && contacts.get_key ss == k
        then some (or_else (b.watches j k) (new_watcher_item opts ss p))
        else b.watches j k;
    bills = λ j. b.bills j || (hash_beq h j && has_maxima p);
  }
  step contacts (unsubscribe_message ss h p) b = record b {
    watches = λ j k. if hash_beq h j && contacts.get_key ss == k then none else b.watches j k;
  }
  step contacts (publish_message ss h p) b = record b {
    watches = λ j k.
        if hash_beq h j && not (b.bills j)
        then unless_stale contacts (contacts.get_key ss) k (b.watches j k)
        else b.watches j k;
  }
  step contacts _ b = b

  unfoldable pub steps : (Contact → ℕ) → List ((Contact → Bool) × ℕ × Message P) → Board → Board
  steps get_key [] b = b
  steps get_key ((is_closed, now, msg) ∷ queue) b =
      steps get_key queue (step (record { get_key = get_key; is_closed = is_closed }) msg b)

-- Lookups may also reserve topics, and are left out.
abbrev pub IsLookup : {P : Type 0} → Message P → Type 0
IsLookup (lookup_message ss h p) = Unit {0}
IsLookup _ = ⊥

abbrev pub NoLookup : {P : Type 0} → List ((Contact → Bool) × ℕ × Message P) → Type 0
NoLookup [] = Unit {0}
NoLookup ((is_closed, now, msg) ∷ queue) = (¬ IsLookup msg) × NoLookup queue
