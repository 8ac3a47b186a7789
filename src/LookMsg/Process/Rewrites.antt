-- ===== src/LookMsg/Process/Rewrites.antt =====
-- What the run of one command may do to the table of its bucket.
use knotfreeiot.Base.{
  ℕ, ◌≡◌, ◌⊎◌, inl, inr, refl, sym, ◌+◌, ltb, Bytes, true, List, [], ◌∷◌, Option, none, some,
  Bool-cases, Option-cases, ascii, arith,
}
use knotfreeiot.Base.Keys.{TreeMap, bytes_beq, bytes_beq_iff, bytes_eq, nat_eq}
use knotfreeiot.Packets.Packet.{Packet}
use knotfreeiot.Tokens.{OrError-cases, TokenPayload}
use knotfreeiot.Pubsub.Hash.{HashType, hash_eq}
use knotfreeiot.Pubsub.Topic.{WatchedTopic, WatcherItem, MyRedblacktree}
use knotfreeiot.Pubsub.Table.{Subscriptions, get_watcher, set_watcher}
use knotfreeiot.LookMsg.Commands.{Command, requires_encryption}
use knotfreeiot.LookMsg.{Libraries, Server, Database, Finish}
use knotfreeiot.LookMsg.OnTopic.{finish, get_and_set_watcher}
use knotfreeiot.LookMsg.Names.{reserve_name, reserve_allowed, create_name}
use knotfreeiot.LookMsg.Process.{
  run_exists, left_in, run_get_option, run_get_txt, run_set_option, run_bulk_option,
  run_replace_options, execute,
}
use knotfreeiot.LookMsg.Process.Keeps.{SameTopic, Writes, finish_keeps}

-- The table is left, or one topic is replaced by one with the same name, watchers, account and owner,
-- and with other options only where `Allowed` says so.
pub data Rewrites {T F : Type 0} (h : HashType) (Allowed : HashType → WatchedTopic T F → Type 0)
    (s s' : Subscriptions T F) : Type 0 where
  kept : s' ≡ s → Rewrites h Allowed s s'
  rewritten :
      (wt wt' : WatchedTopic T F)
      → get_watcher h s ≡ some wt
      → s' ≡ set_watcher h (some wt') s
      → SameTopic wt wt'
      → (wt'.optional_key_values ≡ wt.optional_key_values) ⊎ Allowed h wt
      → Rewrites h Allowed s s'

module _ {T F : Type 0} where
  pub Rewrites-refl :
      (h : HashType) (A : HashType → WatchedTopic T F → Type 0) (s : Subscriptions T F)
      → Rewrites h A s s
  Rewrites-refl h A s = kept refl

  Rewrites-set :
      (h : HashType) (A : HashType → WatchedTopic T F → Type 0) (s : Subscriptions T F)
      (wt wt' : WatchedTopic T F)
      → get_watcher h s ≡ some wt
      → SameTopic wt wt'
      → (wt'.optional_key_values ≡ wt.optional_key_values) ⊎ A h wt
      → Rewrites h A s (set_watcher h (some wt') s)
  Rewrites-set h A s wt wt' found st opt = rewritten wt wt' found refl st opt

module _ {P T F : Type 0} (opts : TreeMap P Bytes Bytes) (kv : TreeMap MyRedblacktree Bytes Bytes)
    (tree : TreeMap T ℕ WatcherItem) (libs : Libraries T F) where
  -- The topic of the lookup, by a sealed command, for its owner.
  abbrev pub ByOwner : HashType → Bytes → Command → HashType → WatchedTopic T F → Type 0
  ByOwner h pubk c j wt = (j ≡ h) × (requires_encryption c ≡ true) × (pubk ≡ wt.owner)

  module _ (h : HashType) (p : Packet P) (pubk : Bytes) (s : Subscriptions T F) where
    on_topic-Rewrites :
        (c : Command) (fin : Finish)
        → (Writes fin → requires_encryption c ≡ true)
        → Rewrites h (ByOwner h pubk c) s (get_and_set_watcher opts kv tree libs h p pubk fin s).0
    unfolding get_and_set_watcher
    on_topic-Rewrites c fin sealed = elim (Option-cases (get_watcher h s)) [
      | inl e ↦ rw (e, get_and_set_watcher) (Rewrites-refl h (ByOwner h pubk c) s)
      | inr (wt, e) ↦
          let (st, opt) = finish_keeps opts kv tree libs p pubk fin wt in
          rw (e, get_and_set_watcher)
            (Rewrites-set h (ByOwner h pubk c) s wt (finish opts kv tree libs p pubk fin wt).0 e st
              (allowed wt (finish opts kv tree libs p pubk fin wt).0 opt))
    ]
      where
        allowed :
            (wt wt' : WatchedTopic T F)
            → (wt'.optional_key_values ≡ wt.optional_key_values) ⊎ (Writes fin × (pubk ≡ wt.owner))
            → (wt'.optional_key_values ≡ wt.optional_key_values) ⊎ ByOwner h pubk c h wt
        allowed wt wt' (inl e) = inl e
        allowed wt wt' (inr (w, own)) = inr (refl, sealed w, own)

    -- What "reserve" leaves of the topic in the bucket.
    abbrev Left : Option (WatchedTopic T F) → Option (WatchedTopic T F) → Type 0
    Left none left = left ≡ none
    Left (some wt) left =
        (wt' : WatchedTopic T F) × (left ≡ some wt')
        × SameTopic wt wt'
        × (wt'.optional_key_values ≡ wt.optional_key_values)

    Left-same : (found : Option (WatchedTopic T F)) → Left found found
    Left-same none = refl
    Left-same (some wt) =
        (wt, refl, record { name = refl; thetree = refl; bill = refl; owner = refl }, refl)

    reserve_name-Left :
        (db : Database T F) (name : Bytes) (payload : TokenPayload F)
        (found : Option (WatchedTopic T F))
        → Left found (reserve_name opts tree libs db h p pubk name payload found).0
    unfolding reserve_name
    reserve_name-Left db name payload none = ground arith
    reserve_name-Left db name payload (some wt) =
        elim (Bool-cases (bytes_beq wt.owner payload.pubk)) [
          | inl own ↦
              let e : payload.pubk ≡ wt.owner = sym ((bytes_beq_iff wt.owner payload.pubk).0 own) in
              rw own (_, refl, record { name = refl; thetree = refl; bill = refl; owner = e }, refl)
          | inr other ↦ rw other (Left-same (some wt))
        ]

    reserve_allowed-Left :
        (db : Database T F) (name : Bytes) (payload : TokenPayload F)
        (found : Option (WatchedTopic T F))
        → Left found (reserve_allowed opts tree libs db h p pubk name payload found).0
    unfolding reserve_allowed
    reserve_allowed-Left db name payload found =
        elim (Option-cases (db.get_subscription_list_count payload.pubk)) [
          | inl e ↦ rw (e, reserve_allowed) (Left-same found)
          | inr (count, e) ↦
              elim (Bool-cases (ltb (libs.int_of payload.stats.subscriptions) (count + 1))) [
                | inl many ↦ rw (e, reserve_allowed) (rw many (Left-same found))
                | inr few ↦
                    rw (e, reserve_allowed) (rw few (reserve_name-Left db name payload found))
              ]
        ]

    create_name-Left :
        (server : Server F) (db : Database T F) (args : List Bytes)
        (found : Option (WatchedTopic T F))
        → Left found (create_name opts tree libs server db h p pubk args found).0
    unfolding create_name
    create_name-Left server db [] found = Left-same found
    create_name-Left server db (name ∷ []) found = Left-same found
    create_name-Left server db (name ∷ token ∷ rest) found =
        elim (OrError-cases (server.validate_token token)) [
          | inl (text, e) ↦ rw (e, create_name) (Left-same found)
          | inr (payload, e) ↦ elim (Bool-cases (bytes_beq payload.pubk pubk)) [
            | inl own ↦ rw (e, create_name) (rw own (reserve_allowed-Left db name payload found))
            | inr other ↦ rw (e, create_name) (rw other (Left-same found))
          ]
        ]

    left_in-Rewrites :
        (A : HashType → WatchedTopic T F → Type 0) (found left : Option (WatchedTopic T F))
        → get_watcher h s ≡ found
        → Left found left
        → Rewrites h A s (left_in opts kv tree libs h left s)
    unfolding left_in
    left_in-Rewrites A none left e gone = rw gone (Rewrites-refl h A s)
    left_in-Rewrites A (some wt) left e (wt', there, st, opt) =
        rw there (Rewrites-set h A s wt wt' e st (inl opt))

    run_exists-table : (run_exists opts kv tree libs h p s).0 ≡ s
    unfolding run_exists
    run_exists-table = ground arith

    module _ (server : Server F) (db : Database T F) where
      run_get_option-Rewrites :
          (args : List Bytes)
          → Rewrites h
              (ByOwner h pubk Command.get_option)
              s
              (run_get_option opts kv tree libs server db h p pubk s args).0
      unfolding run_get_option
      run_get_option-Rewrites [] = Rewrites-refl h (ByOwner h pubk Command.get_option) s
      run_get_option-Rewrites (key ∷ []) =
          on_topic-Rewrites Command.get_option (Finish.get_option key (ascii "@")) (λ w. absurd w)
      run_get_option-Rewrites (key ∷ sub_key ∷ more) =
          on_topic-Rewrites Command.get_option (Finish.get_option key sub_key) (λ w. absurd w)

      run_get_txt-Rewrites :
          (args : List Bytes)
          → Rewrites h
              (ByOwner h pubk Command.get_txt)
              s
              (run_get_txt opts kv tree libs server db h p pubk s args).0
      unfolding run_get_txt
      run_get_txt-Rewrites [] =
          on_topic-Rewrites Command.get_txt (Finish.get_txt (ascii "@")) (λ w. absurd w)
      run_get_txt-Rewrites (sub_key ∷ more) =
          on_topic-Rewrites Command.get_txt (Finish.get_txt sub_key) (λ w. absurd w)

      run_set_option-Rewrites :
          (args : List Bytes)
          → Rewrites h
              (ByOwner h pubk Command.set_option)
              s
              (run_set_option opts kv tree libs server db h p pubk s args).0
      unfolding run_set_option requires_encryption
      run_set_option-Rewrites [] = Rewrites-refl h (ByOwner h pubk Command.set_option) s
      run_set_option-Rewrites (key ∷ []) = Rewrites-refl h (ByOwner h pubk Command.set_option) s
      run_set_option-Rewrites (key ∷ val ∷ []) =
          on_topic-Rewrites Command.set_option
            (Finish.set_option (libs.to_upper key) (ascii "@") val) (λ w. refl)
      run_set_option-Rewrites (key ∷ sub_key ∷ val ∷ more) =
          on_topic-Rewrites Command.set_option (Finish.set_option (libs.to_upper key) sub_key val)
            (λ w. refl)

      run_bulk_option-Rewrites :
          (args : List Bytes)
          → Rewrites h
              (ByOwner h pubk Command.bulk_option)
              s
              (run_bulk_option opts kv tree libs server db h p pubk s args).0
      unfolding run_bulk_option requires_encryption
      run_bulk_option-Rewrites [] = Rewrites-refl h (ByOwner h pubk Command.bulk_option) s
      run_bulk_option-Rewrites (key ∷ []) = Rewrites-refl h (ByOwner h pubk Command.bulk_option) s
      run_bulk_option-Rewrites (key ∷ val ∷ vals) =
          on_topic-Rewrites Command.bulk_option
            (Finish.bulk_option (libs.to_upper key) (val ∷ vals)) (λ w. refl)

      run_replace_options-Rewrites :
          (args : List Bytes)
          → Rewrites h
              (ByOwner h pubk Command.replace_options)
              s
              (run_replace_options opts kv tree libs server db h p pubk s args).0
      unfolding run_replace_options requires_encryption
      run_replace_options-Rewrites [] = Rewrites-refl h (ByOwner h pubk Command.replace_options) s
      run_replace_options-Rewrites (text64 ∷ more) =
          elim (OrError-cases (libs.base64_decode text64)) [
            | inl (text, e) ↦
                rw (e, run_replace_options)
                  (Rewrites-refl h (ByOwner h pubk Command.replace_options) s)
            | inr (text, e) ↦
                rw (e, run_replace_options)
                  (on_topic-Rewrites Command.replace_options (Finish.replace_options text)
                    (λ w. refl))
          ]

      -- What any command does to the table.
      pub execute-Rewrites :
          (now random : ℕ) (c : Command) (args : List Bytes)
          → Rewrites h
              (ByOwner h pubk c)
              s
              (execute opts kv tree libs server db h p pubk s now random c args).0
      unfolding execute
      execute-Rewrites now random Command.details args =
          on_topic-Rewrites Command.details Finish.details (λ w. absurd w)
      execute-Rewrites now random Command.get_option args = run_get_option-Rewrites args
      execute-Rewrites now random Command.get_txt args = run_get_txt-Rewrites args
      execute-Rewrites now random Command.set_option args = run_set_option-Rewrites args
      execute-Rewrites now random Command.bulk_option args = run_bulk_option-Rewrites args
      execute-Rewrites now random Command.replace_options args = run_replace_options-Rewrites args
      execute-Rewrites now random Command.proxy_status args =
          on_topic-Rewrites Command.proxy_status Finish.proxy_status (λ w. absurd w)
      execute-Rewrites now random Command.exists args =
          rw run_exists-table (Rewrites-refl h (ByOwner h pubk Command.exists) s)
      execute-Rewrites now random Command.reserve args =
          left_in-Rewrites (ByOwner h pubk Command.reserve) (get_watcher h s) _ refl
            (create_name-Left server db args (get_watcher h s))
      execute-Rewrites now random c args = Rewrites-refl h (ByOwner h pubk c) s
