-- ===== src/Pubsub/Table.antt =====
-- The lookup table of iot/lookup-table.go: the buckets, the router to the level above, and what a
-- handler sends.
use knotfreeiot.Base.{
  ℕ, zero, suc, ◌<◌, ◌≡◌, Bool, true, false, List, [], ◌∷◌, length, Option, none, some, ltb, ◌==◌,
  if◌then◌else◌, Bool-cases, inl, inr, arith,
}
use knotfreeiot.Base.Keys.{nat_eq, lookup, without}
use knotfreeiot.Packets.Packet.{Packet}
use knotfreeiot.Pubsub.Hash.{HashType, hash_eq, get_half_hash, get_fractional_bits}
use knotfreeiot.Pubsub.Hash.Bytes24.{IsWords}
use knotfreeiot.Pubsub.Topic.{WatchedTopic, Contact}

-- `upstreamRouterStruct`: the lookup of the consistent hash, nil until names are set, and the
-- channels, each perhaps nil.
pub record Router : Type 0 where
  pub maglev : Option (ℕ → ℕ)
  pub channels : List Bool

-- What a handler does beside changing its bucket: `WriteDownstream` on a contact, a packet into the
-- channel of a server above, a packet to any aide. `crash` is an index out of range.
pub data Event (P : Type 0) : Type 0 where
  write_downstream : Contact → Packet P → Event P
  up : ℕ → Packet P → Event P
  to_any_aide : Packet P → Event P
  crash : Event P

-- `router.channels[index]`
unfoldable pub channel_at : List Bool → ℕ → Option Bool
channel_at [] i = none
channel_at (c ∷ cs) zero = some c
channel_at (c ∷ cs) (suc i) = channel_at cs i

-- `getUpperChannel` and the branch on its result: a nil channel is an error, which is only printed.
unfoldable pub get_upper_channel : {P : Type 0} → Packet P → ℕ → Option Bool → List (Event P)
get_upper_channel p index none = crash ∷ []
get_upper_channel p index (some true) = up index p ∷ []
get_upper_channel p index (some false) = []

-- `PushUp`; its callers print the error and go on.
unfoldable pub push_up : {P : Type 0} → Router → Packet P → HashType → List (Event P)
unfolding get_upper_channel channel_at
push_up r p h = elim r.maglev [
  | none ↦ []
  | some index ↦
      if length r.channels == 0
      then []
      else get_upper_channel p (index (get_half_hash h))
          (channel_at r.channels (index (get_half_hash h)))
]

-- `mySubscriptions` of a bucket, a Go map.
abbrev pub Subscriptions : (T F : Type 0) → Type 0
Subscriptions T F = List (HashType × WatchedTopic T F)

module _ {T F : Type 0} where
  unfoldable pub get_watcher : HashType → Subscriptions T F → Option (WatchedTopic T F)
  get_watcher h s = lookup h s

  -- `setWatcher` with a topic, whose tree is never nil here; and with nil.
  unfoldable pub set_watcher :
      HashType → Option (WatchedTopic T F) → Subscriptions T F → Subscriptions T F
  set_watcher h none s = without h s
  set_watcher h (some wt) s = (h, wt) ∷ without h s

-- The number of buckets and its logarithm, from `NewLookupTable`.
unfoldable pub the_buckets_size : ℕ → ℕ
the_buckets_size projected_topic_count = if ltb projected_topic_count 1000 then 4 else 64

unfoldable pub the_buckets_size_log2 : ℕ → ℕ
the_buckets_size_log2 projected_topic_count = if ltb projected_topic_count 1000 then 2 else 6

-- Every message goes to a bucket that there is.
pub bucket_index-lt :
    (projected_topic_count : ℕ) (h : HashType)
    → IsWords h
    → get_fractional_bits (the_buckets_size_log2 projected_topic_count) h
      < the_buckets_size projected_topic_count
unfolding the_buckets_size the_buckets_size_log2 get_fractional_bits
bucket_index-lt n h w = elim (Bool-cases (ltb n 1000)) [
  | inl small ↦ rw small (omega arith)
  | inr large ↦ rw large (omega arith)
]

-- The router leads to a channel: the lookup stays within the channels.
pub record IsRouted (r : Router) : Type 0 where
  pub in_range : (index : ℕ → ℕ) → r.maglev ≡ some index → (h : ℕ) → index h < length r.channels

abbrev pub NoCrash : {P : Type 0} → List (Event P) → Type 0
NoCrash [] = Unit {0}
NoCrash (crash ∷ es) = ⊥
NoCrash (e ∷ es) = NoCrash es
