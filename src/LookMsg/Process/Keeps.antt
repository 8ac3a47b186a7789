-- ===== src/LookMsg/Process/Keeps.antt =====
-- What a lookup leaves as it is in its bucket.
use knotfreeiot.Base.{ℕ, ◌≡◌, ◌⊎◌, inl, inr, refl, Bytes, Bool-cases, arith}
use knotfreeiot.Base.Keys.{TreeMap, bytes_beq, bytes_beq_iff, bytes_eq, nat_eq}
use knotfreeiot.Packets.Packet.{Packet}
use knotfreeiot.Pubsub.Hash.{hash_eq}
use knotfreeiot.Pubsub.Topic.{WatchedTopic, WatcherItem, MyRedblacktree}
use knotfreeiot.Pubsub.Topic.Options
use knotfreeiot.LookMsg.Maps.{GoMap}
use knotfreeiot.LookMsg.{Libraries, Finish}
use knotfreeiot.LookMsg.OnTopic.{
  finish_get_option, finish_get_txt, store_map, change_map, finish_replace_options, finish_details,
  finish_proxy_status, finish,
}

-- The name, the watchers, the account and the owner of a topic.
pub record SameTopic {T F : Type 0} (wt wt' : WatchedTopic T F) : Type 0 where
  pub name : wt'.name ≡ wt.name
  pub thetree : wt'.thetree ≡ wt.thetree
  pub bill : wt'.bill ≡ wt.bill
  pub owner : wt'.owner ≡ wt.owner

-- The commands that write options.
abbrev pub Writes : Finish → Type 0
Writes (Finish.set_option _ _ _) = Unit {0}
Writes (Finish.bulk_option _ _) = Unit {0}
Writes (Finish.replace_options _) = Unit {0}
Writes _ = ⊥

module _ {P T F : Type 0} (opts : TreeMap P Bytes Bytes) (kv : TreeMap MyRedblacktree Bytes Bytes)
    (tree : TreeMap T ℕ WatcherItem) (libs : Libraries T F) where
  pub same : (wt : WatchedTopic T F) → SameTopic wt wt
  same wt = record { name = refl; thetree = refl; bill = refl; owner = refl }

  finish_get_option-topic :
      (p : Packet P) (key sub_key : Bytes) (wt : WatchedTopic T F)
      → (finish_get_option opts kv tree libs p key sub_key wt).0 ≡ wt
  unfolding finish_get_option
  finish_get_option-topic p key sub_key wt = ground arith

  finish_get_txt-topic :
      (p : Packet P) (sub_key : Bytes) (wt : WatchedTopic T F)
      → (finish_get_txt opts kv tree libs p sub_key wt).0 ≡ wt
  unfolding finish_get_txt
  finish_get_txt-topic p sub_key wt = ground arith

  finish_details-topic :
      (p : Packet P) (wt : WatchedTopic T F) → (finish_details opts kv tree libs p wt).0 ≡ wt
  unfolding finish_details
  finish_details-topic p wt = ground arith

  finish_proxy_status-topic :
      (p : Packet P) (wt : WatchedTopic T F) → (finish_proxy_status opts kv tree libs p wt).0 ≡ wt
  unfolding finish_proxy_status
  finish_proxy_status-topic p wt = ground arith

  change_map-SameTopic :
      (p : Packet P) (key : Bytes) (change : GoMap → GoMap) (wt : WatchedTopic T F)
      → SameTopic wt (change_map opts kv tree libs p key change wt).0
  unfolding change_map store_map Options.set_option
  change_map-SameTopic p key change wt = ground arith

  finish_replace_options-SameTopic :
      (p : Packet P) (text : Bytes) (wt : WatchedTopic T F)
      → SameTopic wt (finish_replace_options opts kv tree libs p text wt).0
  unfolding finish_replace_options Options.replace_options
  finish_replace_options-SameTopic p text wt = ground arith

  -- A topic whose options change belongs to who asks.
  abbrev pub Unchanged : Finish → Bytes → WatchedTopic T F → WatchedTopic T F → Type 0
  Unchanged fin pubk wt wt' =
      SameTopic wt wt'
      × ((wt'.optional_key_values ≡ wt.optional_key_values) ⊎ (Writes fin × (pubk ≡ wt.owner)))

  unchanged :
      (fin : Finish) (pubk : Bytes) (wt wt' : WatchedTopic T F)
      → wt' ≡ wt
      → Unchanged fin pubk wt wt'
  unchanged fin pubk wt wt' e = rw e (same wt, inl refl)

  -- What is done with a topic leaves its name, watchers, account and owner, and writes options for the
  -- owner only.
  pub finish_keeps :
      (p : Packet P) (pubk : Bytes) (fin : Finish) (wt : WatchedTopic T F)
      → Unchanged fin pubk wt (finish opts kv tree libs p pubk fin wt).0
  unfolding finish
  finish_keeps p pubk Finish.details wt =
      unchanged Finish.details pubk wt _ (ground (arith, finish_details-topic p wt))
  finish_keeps p pubk Finish.proxy_status wt =
      unchanged Finish.proxy_status pubk wt _ (finish_proxy_status-topic p wt)
  finish_keeps p pubk (Finish.get_option key sub_key) wt =
      unchanged (Finish.get_option key sub_key) pubk wt _
        (finish_get_option-topic p (libs.to_upper key) sub_key wt)
  finish_keeps p pubk (Finish.get_txt sub_key) wt =
      unchanged (Finish.get_txt sub_key) pubk wt _ (finish_get_txt-topic p sub_key wt)
  finish_keeps p pubk (Finish.set_option key sub_key val) wt =
      elim (Bool-cases (bytes_beq pubk wt.owner)) [
        | inl own ↦
            rw own (change_map-SameTopic p key _ wt, inr (tt, (bytes_beq_iff pubk wt.owner).0 own))
        | inr other ↦ rw other (same wt, inl refl)
      ]
  finish_keeps p pubk (Finish.bulk_option key vals) wt =
      elim (Bool-cases (bytes_beq pubk wt.owner)) [
        | inl own ↦
            rw own (change_map-SameTopic p key _ wt, inr (tt, (bytes_beq_iff pubk wt.owner).0 own))
        | inr other ↦ rw other (same wt, inl refl)
      ]
  finish_keeps p pubk (Finish.replace_options text) wt =
      elim (Bool-cases (bytes_beq pubk wt.owner)) [
        | inl own ↦ rw own (
          finish_replace_options-SameTopic p text wt,
          inr (tt, (bytes_beq_iff pubk wt.owner).0 own),
        )
        | inr other ↦ rw other (same wt, inl refl)
      ]
