-- ===== src/Pubsub/Heartbeat/Table.antt =====
-- What a heartbeat leaves in the table.
use knotfreeiot.Base.{
  ℕ, ◌≡◌, ◌∙◌, ◌≢◌, ◌↔◌, refl, Bytes, Bool, false, ◌||◌, List, [], ◌∷◌, Option, none, some, inl,
  inr, ltb, ◌==◌, Bool-cases, Option-cases, if◌then◌else◌, arith,
}
use knotfreeiot.Base.Keys.{TreeMap, bytes_eq, nat_eq, lookup, Distinct, without-Distinct}
use knotfreeiot.Billing.{Floats, BillingAccumulator}
use knotfreeiot.Pubsub.Hash.{HashType, hash_eq, hash_beq, hash_beq_iff}
use knotfreeiot.Pubsub.Topic.{WatchedTopic, WatcherItem, Contacts, get, get_size}
use knotfreeiot.Pubsub.Table.{Subscriptions, get_watcher, set_watcher}
use knotfreeiot.Pubsub.Watchers.{IsTable, get_watcher-set_watcher}
use knotfreeiot.Pubsub.Subscribe.{Looker}
use knotfreeiot.Pubsub.Heartbeat.{
  topic_usage, swept, beat_topic, beat_loop, delete_empty, heart_beat,
}
use knotfreeiot.Pubsub.Heartbeat.Sweep.{name-beat_topic, size-get, get-beat_topic}

-- Is the name among those of the topics?
abbrev among : {T F : Type 0} → HashType → List (WatchedTopic T F) → Bool
among h [] = false
among h (wt ∷ l) = hash_beq wt.name h || among h l

module _ {P T F : Type 0} (opts : TreeMap P Bytes Bytes) (tree : TreeMap T ℕ WatcherItem)
    (f : Floats F) (contacts : Contacts) where
  module _ (me : Looker F) (now : ℕ) where
    abbrev beaten : Option (WatchedTopic T F) → Option (WatchedTopic T F)
    beaten none = none
    beaten (some wt) = some (beat_topic opts tree f me contacts now wt)

    abbrev is_empty : Option (WatchedTopic T F) → Bool
    is_empty none = false
    is_empty (some wt) = get_size tree wt == 0

    module _ (message : BillingAccumulator F → ℕ → Bytes) where
      lookup-beat_loop :
          (h : HashType) (s : Subscriptions T F) (total : BillingAccumulator F)
          → get_watcher h (beat_loop opts tree f message me contacts now s total).0
            ≡ beaten (get_watcher h s)
      unfolding beat_loop get_watcher
      lookup-beat_loop h [] total = refl
      lookup-beat_loop h ((j, wt) ∷ s) total = elim (Bool-cases (hash_beq j h)) [
        | inl e ↦ rw e refl
        | inr e ↦ rw e (lookup-beat_loop h s _)
      ]

      abbrev AllNamed : Subscriptions T F → Type 0
      AllNamed [] = Unit {0}
      AllNamed ((h, wt) ∷ s) = (wt.name ≡ h) × AllNamed s

      lookup-AllNamed :
          (s : Subscriptions T F)
          → ((h : HashType) (wt : WatchedTopic T F) → lookup h s ≡ some wt → wt.name ≡ h)
          → Distinct s
          → AllNamed s
      lookup-AllNamed [] named d = tt
      lookup-AllNamed ((h, wt) ∷ s) named (once, d) = (
        named h wt (ground (arith, hash_beq_iff h h)),
        lookup-AllNamed s (λ j other found. named j other (ground (arith, found, hash_beq_iff h j)))
            d,
      )

      among-beat_loop :
          (h : HashType) (s : Subscriptions T F) (total : BillingAccumulator F)
          → AllNamed s
          → Distinct s
          → among h (beat_loop opts tree f message me contacts now s total).1
            ≡ is_empty (beaten (lookup h s))
      unfolding beat_loop
      among-beat_loop h [] total named d = refl
      among-beat_loop h ((j, wt) ∷ s) total (here, named) (once, d) = ground (
        arith,
        among-beat_loop h s
            (if get_size tree wt == 0
              then total
              else topic_usage opts tree f me now (swept opts tree f contacts now wt) total)
            named d,
        name-beat_topic opts tree f contacts me now wt,
        hash_beq_iff j h,
      )

      get_watcher-delete_empty :
          (h : HashType) (empty : List (WatchedTopic T F)) (s : Subscriptions T F)
          → get_watcher h (delete_empty opts tree f empty s)
            ≡ (if among h empty then none else get_watcher h s)
      unfolding delete_empty
      get_watcher-delete_empty h [] s = refl
      get_watcher-delete_empty h (wt ∷ empty) s = ground (
        arith,
        get_watcher-delete_empty h empty (set_watcher wt.name none s),
        get_watcher-set_watcher wt.name h none s,
      )

      -- The topic under each name after a heartbeat.
      get_watcher-heart_beat :
          (h : HashType) (s : Subscriptions T F) (total : BillingAccumulator F)
          → IsTable tree contacts s
          → Distinct s
          → let before = get_watcher h s in
            get_watcher h (heart_beat opts tree f message me contacts now s total).0
            ≡ (if is_empty (beaten before) then none else beaten before)
      unfolding heart_beat get_watcher
      get_watcher-heart_beat h s total table d =
          let named = lookup-AllNamed s table.named d in
          let (s', empty, _, _) = beat_loop opts tree f message me contacts now s total in
          ground (
            arith,
            get_watcher-delete_empty h empty s',
            among-beat_loop h s total named d,
            lookup-beat_loop h s total,
          )

      -- A contact watches a topic of the table.
      abbrev pub Watching : HashType → ℕ → WatcherItem → Subscriptions T F → Type 0
      Watching h k item s =
          (wt : WatchedTopic T F) × (get_watcher h s ≡ some wt) × (get tree k wt ≡ some item)

      -- After a heartbeat a contact watches a topic exactly if it did before, the topic had not
      -- expired and the contact is not closed; and no topic without watchers is left. This is for a
      -- table in order: topics once under their names, watchers under their keys.
      pub heart_beat_lem :
          (s : Subscriptions T F) (total : BillingAccumulator F)
          → IsTable tree contacts s
          → let after = (heart_beat opts tree f message me contacts now s total).0 in
            ((h : HashType) (k : ℕ) (item : WatcherItem)
              → Watching h k item after ↔ (
                  (wt : WatchedTopic T F) × (get_watcher h s ≡ some wt)
                  × (get tree k wt ≡ some item)
                  × (ltb wt.expires now ≡ false)
                  × (contacts.is_closed item.contact_interface ≡ false)))
            × ((h : HashType) (wt : WatchedTopic T F)
                → get_watcher h after ≡ some wt
                → get_size tree wt ≢ 0)
      heart_beat_lem s total table = (
        (λ h k item. (
          (λ (wt', found, there). stayed h k item wt' found there),
          (λ (wt, found, there, young, open_). stays h k item wt found there young open_),
        )),
        (λ h wt found. ground (arith, get_watcher-heart_beat h s total table table.once)),
      )
        where
          stayed :
              (h : HashType) (k : ℕ) (item : WatcherItem) (wt' : WatchedTopic T F)
              → get_watcher h (heart_beat opts tree f message me contacts now s total).0 ≡ some wt'
              → get tree k wt' ≡ some item
              → (wt : WatchedTopic T F) × (get_watcher h s ≡ some wt)
                × (get tree k wt ≡ some item)
                × (ltb wt.expires now ≡ false)
                × (contacts.is_closed item.contact_interface ≡ false)
          stayed h k item wt' found there = elim (Option-cases (get_watcher h s)) [
            | inl e ↦ absurd (ground (arith, get_watcher-heart_beat h s total table table.once))
            | inr (wt, e) ↦
                let same : beat_topic opts tree f me contacts now wt ≡ wt' =
                  ground (arith, get_watcher-heart_beat h s total table table.once) in
                let before = get-beat_topic opts tree f contacts me now k wt (table.keys h wt e) in
                let at_key : get tree k (beat_topic opts tree f me contacts now wt) ≡ some item =
                  rw same there in
                (wt, e, ground (arith, before), ground (arith, before), ground (arith, before))
          ]

          stays :
              (h : HashType) (k : ℕ) (item : WatcherItem) (wt : WatchedTopic T F)
              → get_watcher h s ≡ some wt
              → get tree k wt ≡ some item
              → ltb wt.expires now ≡ false
              → contacts.is_closed item.contact_interface ≡ false
              → Watching h k item (heart_beat opts tree f message me contacts now s total).0
          stays h k item wt found there young open_ =
              let wt' = beat_topic opts tree f me contacts now wt in
              let here : get tree k wt' ≡ some item =
                ground (
                  arith,
                  get-beat_topic opts tree f contacts me now k wt (table.keys h wt found),
                ) in
              let full : get_size tree wt' ≢ 0 =
                λ e. ground (arith, size-get opts tree f contacts me now wt' e k) in
              (wt', ground (arith, get_watcher-heart_beat h s total table table.once, full), here)

      beat_loop-Distinct :
          (s : Subscriptions T F) (total : BillingAccumulator F)
          → Distinct s
          → Distinct (beat_loop opts tree f message me contacts now s total).0
      unfolding beat_loop get_watcher
      beat_loop-Distinct [] total d = tt
      beat_loop-Distinct ((h, wt) ∷ s) total (once, d) =
          let total' =
            if get_size tree wt == 0
            then total
            else topic_usage opts tree f me now (swept opts tree f contacts now wt) total in
          (lookup-beat_loop h s total' ∙ rw once refl, beat_loop-Distinct s total' d)

      delete_empty-Distinct :
          (empty : List (WatchedTopic T F)) (s : Subscriptions T F)
          → Distinct s
          → Distinct (delete_empty opts tree f empty s)
      unfolding delete_empty set_watcher
      delete_empty-Distinct [] s d = d
      delete_empty-Distinct (wt ∷ empty) s d =
          delete_empty-Distinct empty _ (without-Distinct wt.name s d)

      -- A heartbeat keeps the table in order.
      pub heart_beat-IsTable :
          (s : Subscriptions T F) (total : BillingAccumulator F)
          → IsTable tree contacts s
          → IsTable tree contacts (heart_beat opts tree f message me contacts now s total).0
      unfolding heart_beat
      heart_beat-IsTable s total table = record {
        named = λ h wt' found. elim (Option-cases (get_watcher h s)) [
          | inl e ↦ absurd (ground (arith, get_watcher-heart_beat h s total table table.once))
          | inr (wt, e) ↦ ground (
            arith,
            get_watcher-heart_beat h s total table table.once,
            name-beat_topic opts tree f contacts me now wt,
            table.named h wt e,
          )
        ];
        keys = λ h wt' found. elim (Option-cases (get_watcher h s)) [
          | inl e ↦ absurd (ground (arith, get_watcher-heart_beat h s total table table.once))
          | inr (wt, e) ↦
              let same : beat_topic opts tree f me contacts now wt ≡ wt' =
                ground (arith, get_watcher-heart_beat h s total table table.once) in
              record {
                keyed = λ k item there.
                    let at_key : get tree k (beat_topic opts tree f me contacts now wt)
                        ≡ some item =
                      rw same there in
                    (table.keys h wt e).keyed k item (
                      ground (
                        arith,
                        get-beat_topic opts tree f contacts me now k wt (table.keys h wt e),
                      ));
              }
        ];
        once = delete_empty-Distinct _ _ (beat_loop-Distinct s total table.once);
      }
