-- ===== src/Pubsub/Watchers.antt =====
-- What the table and the watchers of a topic hold after each elementary change, and the invariant
-- of the table.
use knotfreeiot.Base.{
  ℕ, ◌≡◌, refl, sym, ◌∙◌, Bool, true, false, List, [], ◌∷◌, ◌++◌, length, Option, none, some, ◌⊎◌,
  inl, inr, ◌==◌, Bool-cases, Option-cases, if◌then◌else◌, arith,
}
use knotfreeiot.Base.Keys.{TreeMap, nat_eq, lookup, lookup-without, without-Distinct, Distinct}
use knotfreeiot.Packets.Packet.{Packet}
use knotfreeiot.Pubsub.Hash.{HashType, hash_beq, hash_beq_iff, hash_eq}
use knotfreeiot.Pubsub.Topic.{
  WatchedTopic, WatcherItem, Contact, Contacts, put, get, remove, get_size, items,
}
use knotfreeiot.Pubsub.Table.{
  Router, Event, write_downstream, push_up, get_upper_channel, Subscriptions, get_watcher,
  set_watcher,
}

module _ {T F : Type 0} where
  pub get_watcher-set_watcher :
      (h j : HashType) (o : Option (WatchedTopic T F)) (s : Subscriptions T F)
      → get_watcher j (set_watcher h o s) ≡ (if hash_beq h j then o else get_watcher j s)
  unfolding get_watcher set_watcher
  get_watcher-set_watcher h j none s = lookup-without h j s
  get_watcher-set_watcher h j (some wt) s = ground (arith, lookup-without h j s)

no_entries : (l : List (ℕ × WatcherItem)) → ((k : ℕ) → lookup k l ≡ none) → length l ≡ 0
no_entries [] none_there = refl
no_entries ((k, item) ∷ l) none_there = ground (arith, none_there k)

module _ {T F : Type 0} (tree : TreeMap T ℕ WatcherItem) where
  pub get-put :
      (k j : ℕ) (item : WatcherItem) (wt : WatchedTopic T F)
      → get tree j (put tree k item wt) ≡ (if k == j then some item else get tree j wt)
  unfolding get put
  get-put k j item wt = tree.get_put k j item wt.thetree

  pub get-remove :
      (k j : ℕ) (wt : WatchedTopic T F)
      → get tree j (remove tree k wt) ≡ (if k == j then none else get tree j wt)
  unfolding get remove
  get-remove k j wt = tree.get_remove k j wt.thetree

  pub get-items : (k : ℕ) (wt : WatchedTopic T F) → get tree k wt ≡ lookup k (items tree wt)
  unfolding get items
  get-items k wt = tree.get_entries k wt.thetree

  pub items-Distinct : (wt : WatchedTopic T F) → Distinct (items tree wt)
  unfolding items
  items-Distinct wt = tree.entries_once wt.thetree

  -- A topic that no contact watches has size 0.
  pub get_size-zero :
      (wt : WatchedTopic T F) → ((k : ℕ) → get tree k wt ≡ none) → get_size tree wt ≡ 0
  unfolding get_size items
  get_size-zero wt h =
      let empty = no_entries (items tree wt) (λ k. sym (get-items k wt) ∙ h k) in
      tree.size_entries wt.thetree ∙ empty

  -- Every watcher stands under the key of its contact.
  pub record IsKeyed (contacts : Contacts) (wt : WatchedTopic T F) : Type 0 where
    pub keyed :
        (k : ℕ) (item : WatcherItem)
        → get tree k wt ≡ some item
        → contacts.get_key item.contact_interface ≡ k

  -- Every topic stands under its name, once, with its watchers under their keys.
  pub record IsTable (contacts : Contacts) (s : Subscriptions T F) : Type 0 where
    pub named : (h : HashType) (wt : WatchedTopic T F) → get_watcher h s ≡ some wt → wt.name ≡ h
    pub keys :
        (h : HashType) (wt : WatchedTopic T F) → get_watcher h s ≡ some wt → IsKeyed contacts wt
    pub once : Distinct s

  module _ (contacts : Contacts) where
    pub put-IsKeyed :
        (k : ℕ) (item : WatcherItem) (wt : WatchedTopic T F)
        → contacts.get_key item.contact_interface ≡ k
        → IsKeyed contacts wt
        → IsKeyed contacts (put tree k item wt)
    put-IsKeyed k item wt e h = record {
      keyed = λ j found p. ground (arith, get-put k j item wt, h.keyed j found);
    }

    pub remove-IsKeyed :
        (k : ℕ) (wt : WatchedTopic T F) → IsKeyed contacts wt → IsKeyed contacts (remove tree k wt)
    remove-IsKeyed k wt h = record {
      keyed = λ j found p. ground (arith, get-remove k j wt, h.keyed j found);
    }

    pub set_watcher-IsTable :
        (h : HashType) (wt : WatchedTopic T F) (s : Subscriptions T F)
        → wt.name ≡ h
        → IsKeyed contacts wt
        → IsTable contacts s
        → IsTable contacts (set_watcher h (some wt) s)
    unfolding set_watcher
    set_watcher-IsTable h wt s n k t = record {
      named = λ j found p.
          ground
            (arith, get_watcher-set_watcher h j (some wt) s, hash_beq_iff h j, t.named j found);
      keys = λ j found p. elim (Bool-cases (hash_beq h j)) [
        | inl e ↦
            let same : wt ≡ found = ground (arith, get_watcher-set_watcher h j (some wt) s) in
            rw (← same) k
        | inr n ↦ t.keys j found (ground (arith, get_watcher-set_watcher h j (some wt) s))
      ];
      once = (ground (arith, lookup-without h h s, hash_beq_iff h h), without-Distinct h s t.once);
    }

    pub unset_watcher-IsTable :
        (h : HashType) (s : Subscriptions T F)
        → IsTable contacts s
        → IsTable contacts (set_watcher h none s)
    unfolding set_watcher
    unset_watcher-IsTable h s t = record {
      named = λ j found p. ground (arith, get_watcher-set_watcher h j none s, t.named j found);
      keys = λ j found p. t.keys j found (ground (arith, get_watcher-set_watcher h j none s));
      once = without-Distinct h s t.once;
    }

-- `write_downstream` of this packet to this contact is among the events.
abbrev pub Sent : {P : Type 0} → Contact → Packet P → List (Event P) → Type 0
Sent c p [] = ⊥
Sent c p (e ∷ es) = (e ≡ write_downstream c p) ⊎ Sent c p es

module _ {P : Type 0} (c : Contact) (p : Packet P) where
  pub Sent-append_left : (es fs : List (Event P)) → Sent c p es → Sent c p (es ++ fs)
  Sent-append_left [] fs h = elim h [ ]
  Sent-append_left (e ∷ es) fs (inl h) = inl h
  Sent-append_left (e ∷ es) fs (inr h) = inr (Sent-append_left es fs h)

  pub Sent-append_right : (es fs : List (Event P)) → Sent c p fs → Sent c p (es ++ fs)
  Sent-append_right [] fs h = h
  Sent-append_right (e ∷ es) fs h = inr (Sent-append_right es fs h)

  pub Sent-append : (es fs : List (Event P)) → Sent c p (es ++ fs) → Sent c p es ⊎ Sent c p fs
  Sent-append [] fs h = inr h
  Sent-append (e ∷ es) fs (inl h) = inl (inl h)
  Sent-append (e ∷ es) fs (inr h) = elim (Sent-append es fs h) [
    | inl a ↦ inl (inr a)
    | inr b ↦ inr b
  ]

  upper-Sent : (q : Packet P) (i : ℕ) (o : Option Bool) → ¬ Sent c p (get_upper_channel q i o)
  unfolding get_upper_channel
  upper-Sent q i none (inl e) = cc
  upper-Sent q i none (inr h) = h
  upper-Sent q i (some true) (inl e) = cc
  upper-Sent q i (some true) (inr h) = h
  upper-Sent q i (some false) h = h

  -- Nothing that goes up is written down.
  pub push_up-Sent : (r : Router) (q : Packet P) (h : HashType) → ¬ Sent c p (push_up r q h)
  unfolding push_up
  push_up-Sent r q h sent = elim (Option-cases r.maglev) [
    | inl e ↦ rw (e, push_up) at sent
    | inr (index, e) ↦ elim (Bool-cases (length r.channels == 0)) [
      | inl closed ↦ rw closed at (rw e at sent)
      | inr open_ ↦ upper-Sent q _ _ (rw open_ at (rw e at sent))
    ]
  ]
