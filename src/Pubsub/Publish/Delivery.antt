-- ===== src/Pubsub/Publish/Delivery.antt =====
-- To whom a publish goes.
use knotfreeiot.Base.{
  ℕ, ◌≡◌, refl, ap, Bytes, Bool, true, not, ◌&&◌, ◌||◌, List, [], ◌∷◌, map, none, some, ◌⊎◌, inl,
  inr, ◌==◌, Bool-cases, if◌then◌else◌, arith,
}
use knotfreeiot.Base.Keys.{TreeMap, bytes_eq, nat_eq, lookup, Distinct}
use knotfreeiot.Billing.{Floats}
use knotfreeiot.Packets.Packet.{Packet}
use knotfreeiot.Pubsub.Topic.{WatcherItem, Contact, Contacts}
use knotfreeiot.Pubsub.Table.{write_downstream}
use knotfreeiot.Pubsub.Watchers.{Sent}
use knotfreeiot.Pubsub.Publish.{publish_loop}

-- Does a publish by the contact with this key go to the watcher?
abbrev pub wanted : Contacts → ℕ → ℕ × WatcherItem → Bool
wanted contacts pub_key (key, item) =
    (item.pub2self || not (key == pub_key)) && not (contacts.is_closed item.contact_interface)

-- Is the watcher found closed, and to be removed?
abbrev pub stale : Contacts → ℕ → ℕ × WatcherItem → Bool
stale contacts pub_key (key, item) =
    not item.pub2self && not (key == pub_key) && contacts.is_closed item.contact_interface

-- The contacts of the watchers that pass the test, in order.
abbrev pub chosen : (ℕ × WatcherItem → Bool) → List (ℕ × WatcherItem) → List Contact
chosen test [] = []
chosen test ((k, item) ∷ l) =
    let rest = chosen test l in if test (k, item) then item.contact_interface ∷ rest else rest

module _ {P T F : Type 0} (opts : TreeMap P Bytes Bytes) (tree : TreeMap T ℕ WatcherItem)
    (f : Floats F) (contacts : Contacts) (pub_key : ℕ) (p : Packet P) where
  -- A publish is written once to each open watcher, in order, but to the publisher itself only if
  -- it asked for that; the closed ones are the contacts found bad.
  pub publish_loop_lem :
      (l : List (ℕ × WatcherItem))
      → publish_loop opts tree f contacts pub_key p l ≡ (
        map (λ c. write_downstream c p) (chosen (wanted contacts pub_key) l),
        chosen (stale contacts pub_key) l,
      )
  unfolding publish_loop
  publish_loop_lem [] = refl
  publish_loop_lem ((key, item) ∷ l) = ground (arith, publish_loop_lem l)

  pub chosen-Sent :
      (k : ℕ) (item : WatcherItem) (l : List (ℕ × WatcherItem))
      → lookup k l ≡ some item
      → wanted contacts pub_key (k, item) ≡ true
      → Sent item.contact_interface p
          (map (λ c. write_downstream c p) (chosen (wanted contacts pub_key) l))
  chosen-Sent k item [] found want = cc
  chosen-Sent k item ((j, other) ∷ l) found want = elim (Bool-cases (j == k)) [
    | inl here ↦
        let same : other ≡ item = ground arith in
        let test : wanted contacts pub_key (j, other) ≡ true = ground arith in
        rw test (inl (ap (λ (w : WatcherItem). write_downstream w.contact_interface p) same))
    | inr there ↦
        let later = chosen-Sent k item l (ground arith) want in
        elim (Bool-cases (wanted contacts pub_key (j, other))) [
          | inl test ↦ rw test (inr later)
          | inr test ↦ rw test later
        ]
  ]

  -- The watcher that a contact among the chosen comes from.
  abbrev pub Reached : Contact → List (ℕ × WatcherItem) → Type 0
  Reached c l =
      (k : ℕ) × (item : WatcherItem) × (lookup k l ≡ some item)
      × (item.contact_interface ≡ c)
      × (wanted contacts pub_key (k, item) ≡ true)

  Reached-cons :
      (c : Contact) (j : ℕ) (other : WatcherItem) (l : List (ℕ × WatcherItem))
      → lookup j l ≡ none
      → Reached c l
      → Reached c ((j, other) ∷ l)
  Reached-cons c j other l once (k, item, found, same, want) = (
    k,
    item,
    elim (Bool-cases (j == k)) [ inl e ↦ ground arith | inr e ↦ rw e found ],
    same,
    want,
  )

  pub chosen-Reached :
      (c : Contact) (l : List (ℕ × WatcherItem))
      → Distinct l
      → Sent c p (map (λ c'. write_downstream c' p) (chosen (wanted contacts pub_key) l))
      → Reached c l
  chosen-Reached c [] d sent = elim sent [ ]
  chosen-Reached c ((j, other) ∷ l) (once, d) sent =
      elim (Bool-cases (wanted contacts pub_key (j, other))) [
        | inl test ↦
            let either : (write_downstream other.contact_interface p ≡ write_downstream c p)
                ⊎ Sent c p
                    (map (λ c'. write_downstream c' p) (chosen (wanted contacts pub_key) l)) =
              rw test at sent in
            elim either [
              | inl e ↦ (j, other, ground arith, cc e, test)
              | inr later ↦ Reached-cons c j other l once (chosen-Reached c l d later)
            ]
        | inr test ↦ Reached-cons c j other l once (chosen-Reached c l d (rw test at sent))
      ]
