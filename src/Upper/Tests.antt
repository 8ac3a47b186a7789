-- ===== src/Upper/Tests.antt =====
-- Two calls with the names of two gurus, of which one is in both.
use knotfreeiot.Base.{
  ap, ◌≢◌, ℕ, ◌≡◌, refl, Bytes, true, false, List, [], ◌∷◌, ◌++◌, map, length, none, some, ltb,
  ascii, if◌then◌else◌, arith,
}
use knotfreeiot.Base.Keys.{bytes_beq}
use knotfreeiot.Pubsub.Table.{NoCrash}
use knotfreeiot.Pubsub.Messages.{process_messages, publish_message}
use knotfreeiot.Pubsub.Tests.{opts, tree, whole, services, blank, aide, people, news, table, hello}
use knotfreeiot.Upper.{
  UpstreamRouter, Dialed, dial_guru, forget, re_subscribe_remapped_topics, router_of, differs,
  had_change, has_name, running_channel, new_channel, channels_loop, forget_loop, my_index,
  set_aide_upstream_names, set_upstream_names,
}
use knotfreeiot.Upper.Names.{is_listed, names_of, stale, AreNew, set_upstream_names-AreNew}
use knotfreeiot.Upper.Calls.{Calls, calls-NoCrash}

abbrev spread : List Bytes → ℕ → ℕ
spread names h = if ltb h (length names) then h else 0

-- Every channel runs and can be closed.
abbrev all_up : Dialed
all_up = record { is_running = λ number. true; is_closable = λ number. true }

abbrev before : List Bytes
before = ascii "g0" ∷ ascii "g1" ∷ []

abbrev now_ : List Bytes
now_ = ascii "g1" ∷ ascii "g2" ∷ []

abbrev first : UpstreamRouter
first = record {
  channels =
      new_channel (ascii "g0") (ascii "g0") 0 0 ∷ new_channel (ascii "g1") (ascii "g1") 1 1 ∷ [];
  name2channel = [];
  maglev = some (spread before);
  previousmaglev = none;
  next = 2;
}

abbrev second : UpstreamRouter
second = record {
  channels =
      new_channel (ascii "g1") (ascii "g1") 0 2 ∷ new_channel (ascii "g2") (ascii "g2") 1 3 ∷ [];
  name2channel = [];
  maglev = some (spread now_);
  previousmaglev = some (spread before);
  next = 4;
}

abbrev twice : Calls spread
twice = (all_up, before, before) ∷ (all_up, now_, now_) ∷ []

-- The channel 1 to g1 is neither kept nor closed.
second_call :
    set_upstream_names spread false [] all_up now_ now_ first
    ≡ some (
      second,
      dial_guru (new_channel (ascii "g1") (ascii "g1") 0 2)
          ∷ dial_guru (new_channel (ascii "g2") (ascii "g2") 1 3)
          ∷ forget 0
          ∷ re_subscribe_remapped_topics
          ∷ [],
    )
unfolding set_upstream_names set_aide_upstream_names had_change differs channels_loop forget_loop
    running_channel has_name bytes_beq
second_call = refl

-- A guru with its name twice in the list has the later index.
named_twice : my_index (ascii "a") (ascii "a" ∷ ascii "b" ∷ ascii "a" ∷ []) 0 none ≡ some 2
unfolding my_index bytes_beq
named_twice = refl

other_names : names_of first.channels ≢ now_
unfolding bytes_beq
other_names e = let wrong : true ≡ false = ap (is_listed (ascii "g0")) e in ground (arith, wrong)

set_upstream_names-AreNew_example :
    (r' : UpstreamRouter) × (set_upstream_names spread false [] all_up now_ now_ first
      ≡ some (
        r',
        map dial_guru r'.channels
            ++ (map (λ upc. forget upc.number) (stale now_ first.channels)
                ++ re_subscribe_remapped_topics ∷ []),
      ))
    × (names_of r'.channels ≡ now_)
    × AreNew 0 2 r'.channels
    × (r'.maglev ≡ some (spread now_))
    × (r'.previousmaglev ≡ some (spread before))
unfolding bytes_beq
set_upstream_names-AreNew_example =
    set_upstream_names-AreNew spread [] all_up now_ now_ first refl refl other_names (refl, tt)

calls-NoCrash_example :
    (second.name2channel ≡ [])
    × NoCrash
        (process_messages opts tree whole services blank
          (record aide { router = router_of second })
          people.get_key
          ((people.is_closed, 100, publish_message 7 news hello) ∷ [])
          table).1
unfolding set_upstream_names set_aide_upstream_names had_change differs channels_loop forget_loop
    running_channel has_name bytes_beq
calls-NoCrash_example =
    calls-NoCrash spread (λ names h some_name. ground arith) opts tree whole services blank aide
      people.get_key ((people.is_closed, 100, publish_message 7 news hello) ∷ []) table [] twice
      second (omega arith, (omega arith, tt)) refl (λ contacts now ss h p s. tt)
