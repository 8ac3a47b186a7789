-- ===== src/Pubsub/Tests/Buckets.antt =====
-- The theorems on hashes, on the messages of a bucket and on its callbacks at concrete inputs.
use knotfreeiot.Base.{
  ◌==◌, ℕ, ◌<◌, ◌≡◌, ◌≢◌, ◌↔◌, false, none, some, ltb, if◌then◌else◌, ascii, arith,
}
use knotfreeiot.Base.Keys.{bytes_eq, nat_eq}
use knotfreeiot.Billing.{new_accumulator, zero_stats, BillingAccumulator}
use knotfreeiot.Packets.Address.{new_address_union, ensure_address_is_binary}
use knotfreeiot.Pubsub.Hash.{HashType, hash_eq, init_from_bytes, get_fractional_bits}
use knotfreeiot.Pubsub.Hash.Bytes24.{IsWords}
use knotfreeiot.Pubsub.Topic.{WatchedTopic, WatcherItem, get, get_size}
use knotfreeiot.Pubsub.Table.{get_watcher, the_buckets_size, the_buckets_size_log2}
use knotfreeiot.Pubsub.Messages.{address_of, set_address, queued, publish_message}
use knotfreeiot.Pubsub.Messages.Queue.{queued-bucket}
use knotfreeiot.Pubsub.Messages.Invariant.{LookupKeeps}
use knotfreeiot.Pubsub.Heartbeat.{heart_beat}
use knotfreeiot.Pubsub.Heartbeat.Table.{Watching, heart_beat_lem}
use knotfreeiot.Pubsub.Remap.{guru_delete, get_watcher-guru_delete}
use knotfreeiot.Pubsub.Tests.{
  Tree, opts, tree, whole, blank, aide, people, news, table, hello, services, table-IsTable,
  blank-FillsHash, blank-GivesBytes,
}

abbrev services-LookupKeeps : LookupKeeps opts tree whole services blank aide
services-LookupKeeps = record { keeps = λ contacts now ss h p s t. t }

queued-bucket_example :
    (h : HashType) × IsWords h
    × (init_from_bytes (ensure_address_is_binary blank (address_of hello.body)).bytes ≡ some h)
    × (queued blank (the_buckets_size_log2 100) (publish_message 7) hello
        ≡ some (
          get_fractional_bits (the_buckets_size_log2 100) h,
          publish_message 7 h (record hello {
            body = set_address (ensure_address_is_binary blank (address_of hello.body)) hello.body;
          }),
        ))
    × (get_fractional_bits (the_buckets_size_log2 100) h < the_buckets_size 100)
unfolding address_of new_address_union
queued-bucket_example =
    queued-bucket blank 100 (publish_message 7) hello blank-FillsHash blank-GivesBytes
      (ground arith)

abbrev usage : BillingAccumulator ℕ
usage = new_accumulator whole (ascii "me") (zero_stats whole)

-- Late enough for the topic to be over.
heart_beat_lem_example :
    let after =
      (heart_beat opts tree whole (λ ba now. ascii "over") aide people 6000 table usage).0 in
    ((h : HashType) (k : ℕ) (item : WatcherItem)
      → Watching opts tree whole people aide 6000 (λ ba now. ascii "over") h k item after ↔ (
          (wt : WatchedTopic Tree ℕ) × (get_watcher h table ≡ some wt)
          × (get tree k wt ≡ some item)
          × (ltb wt.expires 6000 ≡ false)
          × (people.is_closed item.contact_interface ≡ false)))
    × ((h : HashType) (wt : WatchedTopic Tree ℕ)
        → get_watcher h after ≡ some wt
        → get_size tree wt ≢ 0)
heart_beat_lem_example =
    heart_beat_lem opts tree whole people aide 6000 (λ ba now. ascii "over") table usage
      table-IsTable

get_watcher-guru_delete_example :
    get_watcher news (guru_delete opts tree whole (λ h. 0) (some 1) aide.router table).0
    ≡ (if 0 == 1 then get_watcher news table else none)
get_watcher-guru_delete_example =
    get_watcher-guru_delete opts tree whole (λ h. 0) (some 1) aide.router news table
