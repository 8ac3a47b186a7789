-- ===== src/Upper/Calls.antt =====
-- An aide through any calls of SetUpstreamNames: a push up by way of its router finds a channel.
use knotfreeiot.Base.{
  ℕ, ◌<◌, ◌≡◌, refl, ap, Bytes, Bool, true, false, List, [], ◌∷◌, map, length, Option, none, some,
  ◌==◌, arith, inl, inr, Bool-cases, Option-cases,
}
use knotfreeiot.Base.Keys.{TreeMap, bytes_eq, nat_eq}
use knotfreeiot.Billing.{Floats}
use knotfreeiot.Packets.Address.{Codecs}
use knotfreeiot.Pubsub.Topic.{WatcherItem, Contact, Contacts}
use knotfreeiot.Pubsub.Hash.{HashType}
use knotfreeiot.Pubsub.Table.{IsRouted, NoCrash, Subscriptions}
use knotfreeiot.Pubsub.Subscribe.{Looker}
use knotfreeiot.Pubsub.Messages.{Message, Services, process_messages}
use knotfreeiot.Pubsub.Routed.{process_messages-NoCrash}
use knotfreeiot.Packets.Packet.{Packet}
use knotfreeiot.Upper.{
  UpperChannel, UpstreamRouter, Dialed, UpperEffect, new_router, router_of, had_change, addressed,
  channels_loop, forget_loop, set_aide_upstream_names, set_upstream_names,
}
use knotfreeiot.Upper.Names.{
  names_of, AllOlder, channels_loop-new, forget_loop-empty, length-names_of,
}

module _ (maglev_new : List Bytes → ℕ → ℕ) where
  -- One call: what the goroutines have done by then, the names and the addresses.
  abbrev pub Calls : Type 0
  Calls = List (Dialed × List Bytes × List Bytes)

  -- The calls of an aide; `none` is a panic.
  abbrev pub calls : Bytes → Calls → UpstreamRouter → Option UpstreamRouter
  calls myname [] r = some r
  calls myname ((dialed, names, addresses) ∷ rest) r =
      elim (set_upstream_names maglev_new false myname dialed names addresses r) [
        | none ↦ none
        | some (r', effects) ↦ calls myname rest r'
      ]

  abbrev pub AllNamed : Calls → Type 0
  AllNamed [] = Unit {0}
  AllNamed ((dialed, names, addresses) ∷ rest) = (0 < length names) × AllNamed rest

  -- No channel can be found by its name, every channel is older than the next one, and the lookup
  -- stays within the channels.
  pub record IsReached (r : UpstreamRouter) : Type 0 where
    pub none_known : r.name2channel ≡ []
    pub older : AllOlder r.next r.channels
    pub routed : IsRouted (router_of r)

  abbrev AfterCall : Option (UpstreamRouter × List UpperEffect) → Type 0
  AfterCall none = Unit {0}
  AfterCall (some (r, effects)) = IsReached r

  abbrev pub AfterCalls : Option UpstreamRouter → Type 0
  AfterCalls none = Unit {0}
  AfterCalls (some r) = IsReached r

  module _
      (within : (names : List Bytes) (h : ℕ)
        → 0 < length names
        → maglev_new names h < length names) where
    new_channels-IsRouted :
        (names : List Bytes) (cs : List UpperChannel)
        → 0 < length names
        → names_of cs ≡ names
        → IsRouted (record { maglev = some (maglev_new names); channels = map (λ upc. true) cs })
    new_channels-IsRouted names cs some_name named = record {
      in_range = λ index e h.
          let same_place : maglev_new names h ≡ index h =
            ap (λ (o : Option (ℕ → ℕ)). elim o [ none ↦ 0 | some lookup_ ↦ lookup_ h ]) e in
          let as_long : length (names_of cs) ≡ length names = ap length named in
          omega (arith, within names h some_name, same_place, as_long, length-names_of cs);
    }

    set_aide_upstream_names-IsReached :
        (dialed : Dialed) (names addresses : List Bytes) (r : UpstreamRouter)
        → 0 < length names
        → length names ≡ length addresses
        → IsReached r
        → AfterCall (set_aide_upstream_names maglev_new dialed names addresses r)
    unfolding set_aide_upstream_names
    set_aide_upstream_names-IsReached dialed names addresses r some_name same reached =
        let (named, dials, new, older, more) =
          channels_loop-new dialed names addresses 0 r.next same in
        let cs = (channels_loop dialed [] (addressed names addresses) 0 r.next).0 in
        elim (Option-cases (forget_loop dialed names r.channels [])) [
          | inl panics ↦ rw (set_aide_upstream_names, reached.none_known, panics) tt
          | inr ((m, forgets), runs) ↦
              rw (set_aide_upstream_names, reached.none_known, runs, reached.none_known)
                (record {
                  none_known = forget_loop-empty dialed names r.channels m forgets runs;
                  older = older;
                  routed = new_channels-IsRouted names cs some_name named;
                })
        ]

    set_upstream_names-IsReached :
        (myname : Bytes) (dialed : Dialed) (names addresses : List Bytes) (r : UpstreamRouter)
        → 0 < length names
        → IsReached r
        → AfterCall (set_upstream_names maglev_new false myname dialed names addresses r)
    unfolding set_upstream_names
    set_upstream_names-IsReached myname dialed names addresses r some_name reached =
        elim (Bool-cases (length names == length addresses)) [
          | inr odd ↦ rw odd tt
          | inl even ↦ elim (Bool-cases (had_change names r.channels)) [
            | inr same ↦ rw (even, same) reached
            | inl changed ↦
                rw (even, changed)
                  (set_aide_upstream_names-IsReached dialed names addresses r some_name
                    (ground arith) reached)
          ]
        ]

    calls-IsReached :
        (myname : Bytes) (cs : Calls) (r : UpstreamRouter)
        → AllNamed cs
        → IsReached r
        → AfterCalls (calls myname cs r)
    calls-IsReached myname [] r h reached = reached
    calls-IsReached myname ((dialed, names, addresses) ∷ rest) r (some_name, h) reached =
        let after =
          set_upstream_names-IsReached myname dialed names addresses r some_name reached in
        elim (Option-cases (set_upstream_names maglev_new false myname dialed names addresses r)) [
          | inl panics ↦ rw (calls, panics) tt
          | inr ((r', effects), runs) ↦
              rw (calls, runs) (calls-IsReached myname rest r' h (rw runs at after))
        ]

    new_router-IsReached : IsReached new_router
    new_router-IsReached = record {
      none_known = refl;
      older = tt;
      routed = record { in_range = λ index e h. ground (arith, e) };
    }

    -- However often an aide is given the names of the gurus, where no call panics, there is always one
    -- at least, and
    -- the table of the consistent hash leads to an index below the number of names: no channel can be
    -- found by its name, and no message of a bucket makes an index go out of range, whatever is in
    -- the bucket. The names do not change while the messages are handled, and the lookups of the
    -- bucket do not crash.
    pub calls-NoCrash :
        {P T F : Type 0} (opts : TreeMap P Bytes Bytes) (tree : TreeMap T ℕ WatcherItem)
        (f : Floats F) (v : Services opts tree f) (c : Codecs) (me : Looker F)
        (get_key : Contact → ℕ) (queue : List ((Contact → Bool) × ℕ × Message P))
        (s : Subscriptions T F) (myname : Bytes) (cs : Calls) (r : UpstreamRouter)
        → AllNamed cs
        → calls myname cs new_router ≡ some r
        → ((contacts : Contacts) (now : ℕ) (ss : Contact) (h : HashType) (p : Packet P)
              (s : Subscriptions T F)
            → NoCrash
                (v.process_lookup (record me { router = router_of r }) contacts now ss h p s).1)
        → (r.name2channel ≡ [])
          × NoCrash
              (process_messages opts tree f v c
                (record me { router = router_of r })
                get_key
                queue
                s).1
    calls-NoCrash opts tree f v c me get_key queue s myname cs r named e runs =
        let after = calls-IsReached myname cs new_router named new_router-IsReached in
        let reached : IsReached r = rw e at after in
        (
          reached.none_known,
          process_messages-NoCrash opts tree f v c (record me { router = router_of r })
              reached.routed get_key queue s (record { runs = runs }),
        )
