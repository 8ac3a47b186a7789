-- ===== src/Pubsub/Heartbeat/Sweep.antt =====
-- What a heartbeat leaves of one topic.
use knotfreeiot.Base.{
  ℕ, ◌≡◌, refl, sym, ◌∙◌, Bytes, Bool, false, ◌||◌, List, [], ◌∷◌, length, Option, none, some, inl,
  inr, ltb, ◌==◌, Bool-cases, if◌then◌else◌, arith,
}
use knotfreeiot.Base.Keys.{TreeMap, bytes_eq, nat_eq, lookup, Distinct}
use knotfreeiot.Billing.{Floats}
use knotfreeiot.Pubsub.Hash.{hash_eq}
use knotfreeiot.Pubsub.Topic.{
  WatchedTopic, WatcherItem, Contact, Contacts, get, remove, items, get_size,
}
use knotfreeiot.Pubsub.Watchers.{IsKeyed, get-remove, get-items, items-Distinct}
use knotfreeiot.Pubsub.Subscribe.{Looker}
use knotfreeiot.Pubsub.Publish.{remove_all}
use knotfreeiot.Pubsub.Heartbeat.{unsubs_needed, next_times, swept, beat_topic}

-- Is the key among those of the contacts?
abbrev pub holds : Contacts → ℕ → List Contact → Bool
holds contacts k [] = false
holds contacts k (c ∷ cs) = contacts.get_key c == k || holds contacts k cs

module _ {P T F : Type 0} (opts : TreeMap P Bytes Bytes) (tree : TreeMap T ℕ WatcherItem)
    (f : Floats F) (contacts : Contacts) where
  pub get-remove_all :
      (bad : List Contact) (k : ℕ) (wt : WatchedTopic T F)
      → get tree k (remove_all opts tree f contacts bad wt)
        ≡ (if holds contacts k bad then none else get tree k wt)
  unfolding remove_all
  get-remove_all [] k wt = refl
  get-remove_all (c ∷ bad) k wt = ground (
    arith,
    get-remove_all bad k (remove tree (contacts.get_key c) wt),
    get-remove tree (contacts.get_key c) k wt,
  )

  name-remove_all :
      (bad : List Contact) (wt : WatchedTopic T F)
      → (remove_all opts tree f contacts bad wt).name ≡ wt.name
  unfolding remove_all remove
  name-remove_all [] wt = refl
  name-remove_all (c ∷ bad) wt = name-remove_all bad (remove tree (contacts.get_key c) wt)

  empty-lookup : (l : List (ℕ × WatcherItem)) → length l ≡ 0 → (k : ℕ) → lookup k l ≡ none
  empty-lookup [] e k = refl
  empty-lookup (x ∷ l) e k = absurd (omega arith)

  size-items : (wt : WatchedTopic T F) → get_size tree wt ≡ length (items tree wt)
  unfolding get_size items
  size-items wt = tree.size_entries wt.thetree

  get-next_times :
      (me : Looker F) (now : ℕ) (wt : WatchedTopic T F) (k : ℕ)
      → get tree k (next_times opts tree f me now wt) ≡ get tree k wt
  unfolding get next_times
  get-next_times me now wt k = ground arith

  -- Every watcher of the list stands under the key of its contact.
  abbrev pub AllKeyed : List (ℕ × WatcherItem) → Type 0
  AllKeyed [] = Unit {0}
  AllKeyed ((k, item) ∷ l) = (contacts.get_key item.contact_interface ≡ k) × AllKeyed l

  pub lookup-AllKeyed :
      (l : List (ℕ × WatcherItem))
      → ((j : ℕ) (other : WatcherItem)
          → lookup j l ≡ some other
          → contacts.get_key other.contact_interface ≡ j)
      → Distinct l
      → AllKeyed l
  lookup-AllKeyed [] keyed d = tt
  lookup-AllKeyed ((k, item) ∷ l) keyed (once, d) = (
    keyed k item (ground arith),
    lookup-AllKeyed l (λ j other found. keyed j other (ground (arith, found))) d,
  )

  abbrev leaves : Bool → Option WatcherItem → Bool
  leaves all none = false
  leaves all (some item) = all || contacts.is_closed item.contact_interface

  holds-unsubs_needed :
      (all : Bool) (k : ℕ) (l : List (ℕ × WatcherItem))
      → AllKeyed l
      → Distinct l
      → holds contacts k (unsubs_needed contacts all l) ≡ leaves all (lookup k l)
  unfolding unsubs_needed
  holds-unsubs_needed all k [] keyed d = refl
  holds-unsubs_needed all k ((j, item) ∷ l) (here, keyed) (once, d) =
      ground (arith, holds-unsubs_needed all k l keyed d)

  -- A watcher is still there exactly if it was, the topic has not expired and it is not closed.
  get-swept :
      (now k : ℕ) (wt : WatchedTopic T F)
      → IsKeyed tree contacts wt
      → get tree k (swept opts tree f contacts now wt)
        ≡ (if leaves (ltb wt.expires now) (get tree k wt) then none else get tree k wt)
  unfolding swept
  get-swept now k wt keyed =
      let all_keyed =
        lookup-AllKeyed (items tree wt)
          (λ j other found. keyed.keyed j other (get-items tree j wt ∙ found))
          (items-Distinct tree wt) in
      ground (
        arith,
        get-remove_all (unsubs_needed contacts (ltb wt.expires now) (items tree wt)) k wt,
        holds-unsubs_needed (ltb wt.expires now) k (items tree wt) all_keyed
            (items-Distinct tree wt),
        get-items tree k wt,
      )

  module _ (me : Looker F) (now : ℕ) where
    pub name-beat_topic :
        (wt : WatchedTopic T F) → (beat_topic opts tree f me contacts now wt).name ≡ wt.name
    unfolding beat_topic next_times swept
    name-beat_topic wt =
        ground
          (arith, name-remove_all (unsubs_needed contacts (ltb wt.expires now) (items tree wt)) wt)

    pub size-get : (wt : WatchedTopic T F) → get_size tree wt ≡ 0 → (k : ℕ) → get tree k wt ≡ none
    size-get wt e k = get-items tree k wt ∙ empty-lookup (items tree wt) (sym (size-items wt) ∙ e) k

    pub get-beat_topic :
        (k : ℕ) (wt : WatchedTopic T F)
        → IsKeyed tree contacts wt
        → get tree k (beat_topic opts tree f me contacts now wt)
          ≡ (if leaves (ltb wt.expires now) (get tree k wt) then none else get tree k wt)
    unfolding beat_topic
    get-beat_topic k wt keyed = elim (Bool-cases (get_size tree wt == 0)) [
      | inl e ↦ rw e (let gone = size-get wt (ground arith) k in rw gone refl)
      | inr e ↦
          rw e
            (get-next_times me now (swept opts tree f contacts now wt) k ∙ get-swept now k wt keyed)
    ]
