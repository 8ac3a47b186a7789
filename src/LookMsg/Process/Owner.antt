-- ===== src/LookMsg/Process/Owner.antt =====
-- What a lookup may change in the table of its bucket, and for whom.
use knotfreeiot.Base.{
  ℕ, ◌^◌, ◌≤◌, ◌<◌, ◌≡◌, ◌⊎◌, inl, inr, refl, Bytes, true, not, ◌||◌, some, Bool-cases, ascii,
  arith,
}
use knotfreeiot.Base.Keys.{TreeMap, bytes_eq, nat_eq}
use knotfreeiot.Packets.Packet.{Packet}
use knotfreeiot.Pubsub.Hash.{HashType, hash_eq, hash_beq, hash_beq_iff}
use knotfreeiot.Pubsub.Topic.{WatchedTopic, WatcherItem, MyRedblacktree}
use knotfreeiot.Pubsub.Table.{Subscriptions, get_watcher, set_watcher}
use knotfreeiot.Pubsub.Watchers.{get_watcher-set_watcher}
use knotfreeiot.Pubsub.Subscribe.{Looker, option_of}
use knotfreeiot.LookMsg.Maps.{split}
use knotfreeiot.LookMsg.Commands.{Command, requires_encryption, find_command}
use knotfreeiot.LookMsg.{Libraries, Server, Database}
use knotfreeiot.LookMsg.Process.{decrypt_command, command_text, serve_lookup, process_lookup}
use knotfreeiot.LookMsg.Process.Sealed.{ParsesInt64, Opens, decrypt_command-Opens}
use knotfreeiot.LookMsg.Process.Rewrites.{
  Rewrites, kept, rewritten, Rewrites-refl, ByOwner, execute-Rewrites,
}
use knotfreeiot.LookMsg.Process.Keeps.{SameTopic, same}

module _ {T F : Type 0} where
  -- Every topic stays, with its name, watchers, account and owner; its options are others only where
  -- `Allowed` says so.
  abbrev pub Keeps :
      (HashType → WatchedTopic T F → Type 0) → Subscriptions T F → Subscriptions T F → Type 0
  Keeps Allowed s s' =
      (j : HashType) (wt : WatchedTopic T F)
      → get_watcher j s ≡ some wt
      → (wt' : WatchedTopic T F) × (get_watcher j s' ≡ some wt')
        × SameTopic wt wt'
        × ((wt'.optional_key_values ≡ wt.optional_key_values) ⊎ Allowed j wt)

  Keeps-refl : (A : HashType → WatchedTopic T F → Type 0) (s : Subscriptions T F) → Keeps A s s
  Keeps-refl A s j wt e =
      (wt, e, record { name = refl; thetree = refl; bill = refl; owner = refl }, inl refl)

  Keeps-set :
      (A : HashType → WatchedTopic T F → Type 0) (h : HashType) (s : Subscriptions T F)
      (wt wt' : WatchedTopic T F)
      → get_watcher h s ≡ some wt
      → SameTopic wt wt'
      → (wt'.optional_key_values ≡ wt.optional_key_values) ⊎ A h wt
      → Keeps A s (set_watcher h (some wt') s)
  Keeps-set A h s wt wt' found st opt j other e = elim (Bool-cases (hash_beq h j)) [
    | inl hit ↦
        let here : h ≡ j = (hash_beq_iff h j).0 hit in
        let one : wt ≡ other = cc (rw (← here) at e) in
        (
          wt',
          rw (get_watcher-set_watcher h j (some wt') s) (rw hit refl),
          rw (← one) st,
          rw (← here) (rw (← one) opt),
        )
    | inr miss ↦ (
      other,
      rw (get_watcher-set_watcher h j (some wt') s) (rw miss e),
      record { name = refl; thetree = refl; bill = refl; owner = refl },
      inl refl,
    )
  ]

  Rewrites-Keeps :
      (A : HashType → WatchedTopic T F → Type 0) (h : HashType) (s s' : Subscriptions T F)
      → Rewrites h A s s'
      → Keeps A s s'
  Rewrites-Keeps A h s s' (kept e) = rw e (Keeps-refl A s)
  Rewrites-Keeps A h s s' (rewritten wt wt' found e st opt) =
      rw e (Keeps-set A h s wt wt' found st opt)

module _ {P T F : Type 0} (opts : TreeMap P Bytes Bytes) (kv : TreeMap MyRedblacktree Bytes Bytes)
    (tree : TreeMap T ℕ WatcherItem) (libs : Libraries T F) where
  -- What the code asks of a lookup that changes the options of a topic.
  abbrev pub Accepted : ℕ → HashType → Packet P → HashType → WatchedTopic T F → Type 0
  Accepted now h p j wt =
      (j ≡ h)
      × (decrypt_command opts kv tree libs now p (command_text opts kv tree libs p) ≡ true)
      × ((option_of opts p (ascii "pubk")).0 ≡ wt.owner)

  -- What allows a lookup to change the options of a topic: it is that of the lookup, the box opens to
  -- the command and a time that is not late, and "pubk" is the owner.
  abbrev pub Unsealed : ℕ → HashType → Packet P → HashType → WatchedTopic T F → Type 0
  Unsealed now h p j wt =
      (j ≡ h)
      × Opens opts kv tree libs now p (command_text opts kv tree libs p)
      × ((option_of opts p (ascii "pubk")).0 ≡ wt.owner)

  -- A lookup on a guru rewrites at most its own topic.
  pub serve_lookup-Rewrites :
      (server : Server F) (db : Database T F) (now random : ℕ) (h : HashType) (p : Packet P)
      (s : Subscriptions T F)
      → Rewrites h
          (Accepted now h p)
          s
          (serve_lookup opts kv tree libs server db now random h p s).0
  unfolding serve_lookup
  serve_lookup-Rewrites server db now random h p s =
      let cmd = command_text opts kv tree libs p in
      let (c, args) = find_command libs.to_lower (split cmd b' ') in
      let pubk = (option_of opts p (ascii "pubk")).0 in
      elim (Bool-cases
        (not (requires_encryption c) || decrypt_command opts kv tree libs now p cmd)) [
          | inr closed ↦ rw closed (Rewrites-refl h (Accepted now h p) s)
          | inl opened ↦ rw opened (
              allowed c opened _
                (execute-Rewrites opts kv tree libs h p pubk s server db now random c args))
        ]
    where
      allowed :
          (c : Command)
          → (not (requires_encryption c)
              || decrypt_command opts kv tree libs now p (command_text opts kv tree libs p))
            ≡ true
          → (s' : Subscriptions T F)
          → Rewrites h (ByOwner opts kv tree libs h (option_of opts p (ascii "pubk")).0 c) s s'
          → Rewrites h (Accepted now h p) s s'
      allowed c opened s' (kept e) = kept e
      allowed c opened s' (rewritten wt wt' found e st (inl opt)) =
          rewritten wt wt' found e st (inl opt)
      allowed c opened s' (rewritten wt wt' found e st (inr (here, sealed, own))) =
          rewritten wt wt' found e st (inr (here, ground arith, own))

  -- A lookup that a server handles at once removes no topic from its bucket, and leaves the name, the
  -- watchers, the account and the owner of each. It changes the options of a topic only if the server
  -- is a guru, the topic is that of the lookup, the packet holds a sealed box that opens, with the key
  -- "pubk" and the nonce, to this command and a time within ten seconds or 2 ^ 63 seconds later, and
  -- the option "pubk" is the owner of the topic. The clock is above 10 and below 2 ^ 62.
  pub process_lookup-Keeps :
      (server : Server F) (db : Database T F) (me : Looker F) (now random : ℕ) (h : HashType)
      (p : Packet P) (s : Subscriptions T F)
      → ParsesInt64 libs
      → 10 ≤ now
      → now < 2 ^ 62
      → Keeps
          (λ j wt. (me.is_guru ≡ true) × Unsealed now h p j wt)
          s
          (process_lookup opts kv tree libs server db me now random h p s).0
  unfolding process_lookup
  process_lookup-Keeps server db me now random h p s int64s after small j wt e =
      elim (Bool-cases me.is_guru) [
        | inr aide ↦ rw aide (wt, e, same opts kv tree libs wt, inl refl)
        | inl guru ↦
            let (wt', there, st, opt) =
              Rewrites-Keeps (Accepted now h p) h s _
                (serve_lookup-Rewrites server db now random h p s) j wt e in
            rw guru (
              wt',
              there,
              st,
              elim opt [
                | inl o ↦ inl o
                | inr (here, accepted, own) ↦
                    let opens =
                      decrypt_command-Opens opts kv tree libs int64s now after small p _ accepted in
                    inr (refl, (here, opens, own))
              ],
            )
      ]
