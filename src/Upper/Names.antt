-- ===== src/Upper/Names.antt =====
-- The channels of an aide through its changes of names: none is ever used again.
use knotfreeiot.Base.{
  Bool, ℕ, suc, ◌+◌, ◌≤◌, ◌<◌, ◌≡◌, ◌≢◌, refl, ap, Bytes, true, false, List, [], ◌∷◌, ◌++◌, map,
  length, some, ◌==◌, if◌then◌else◌, ◌||◌, arith, inl, inr, Bool-cases, Option-cases,
}
use knotfreeiot.Base.Keys.{bytes_eq, bytes_beq, bytes_beq_iff}
use knotfreeiot.Upper.{
  UpperChannel, UpstreamRouter, Dialed, UpperEffect, dial_guru, forget,
  re_subscribe_remapped_topics, differs, had_change, has_name, addressed, running_channel,
  new_channel, channels_loop, forget_loop, set_aide_upstream_names, set_upstream_names,
}

abbrev pub names_of : List UpperChannel → List Bytes
names_of cs = map (λ upc. upc.name) cs

abbrev pub is_listed : Bytes → List Bytes → Bool
is_listed name [] = false
is_listed name (n ∷ names) = bytes_beq n name || is_listed name names

-- The channels whose names are not in the list.
abbrev pub stale : List Bytes → List UpperChannel → List UpperChannel
stale names [] = []
stale names (upc ∷ cs) = if is_listed upc.name names then stale names cs else upc ∷ stale names cs

has_name-is_listed :
    (name : Bytes) (names : List Bytes) → has_name name names ≡ is_listed name names
unfolding has_name
has_name-is_listed name [] = refl
has_name-is_listed name (n ∷ names) = rw (has_name-is_listed name names) refl

differs-names_of :
    (names : List Bytes) (cs : List UpperChannel)
    → length names ≡ length cs
    → differs names cs ≡ false
    → names_of cs ≡ names
unfolding differs
differs-names_of [] [] e h = refl
differs-names_of [] (c ∷ cs) e h = absurd (omega arith)
differs-names_of (n ∷ names) [] e h = absurd (omega arith)
differs-names_of (n ∷ names) (c ∷ cs) e h =
    let same : bytes_beq n c.name ≡ true = ground arith in
    let rest = differs-names_of names cs (omega arith) (ground arith) in
    rw ((bytes_beq_iff n c.name).0 same) (ap (λ (ns : List Bytes). c.name ∷ ns) rest)

-- The test for a change finds every other list of names.
unchanged-names_of :
    (names : List Bytes) (cs : List UpperChannel)
    → had_change names cs ≡ false
    → names_of cs ≡ names
unfolding had_change
unchanged-names_of names cs h =
    let even : length names ≡ length cs = ground arith in
    differs-names_of names cs even (ground arith)

abbrev pub AllClosable : Dialed → List UpperChannel → Type 0
AllClosable dialed [] = Unit {0}
AllClosable dialed (upc ∷ cs) = (dialed.is_closable upc.number ≡ true) × AllClosable dialed cs

-- The channels are numbered from `next` on, the first with the index `i`, and each with the next.
abbrev pub AreNew : ℕ → ℕ → List UpperChannel → Type 0
AreNew i next [] = Unit {0}
AreNew i next (upc ∷ cs) = (upc.number ≡ next) × (upc.index ≡ i) × AreNew (i + 1) (next + 1) cs

abbrev pub AllOlder : ℕ → List UpperChannel → Type 0
AllOlder next [] = Unit {0}
AllOlder next (upc ∷ cs) = (upc.number < next) × AllOlder next cs

-- Where no name has a channel, a channel is made for each.
pub channels_loop-new :
    (dialed : Dialed) (names addresses : List Bytes) (i next : ℕ)
    → length names ≡ length addresses
    → let (cs, effects, next') = channels_loop dialed [] (addressed names addresses) i next in
      (names_of cs ≡ names)
      × (effects ≡ map dial_guru cs)
      × AreNew i next cs
      × AllOlder next' cs
      × (next ≤ next')
unfolding channels_loop running_channel
channels_loop-new dialed [] addresses i next same = (refl, refl, tt, tt, omega arith)
channels_loop-new dialed (name ∷ names) [] i next same = absurd (omega arith)
channels_loop-new dialed (name ∷ names) (address ∷ addresses) i next same =
    let (named, dials, new, older, more) =
      channels_loop-new dialed names addresses (i + 1) (next + 1) (omega arith) in
    (
      ap (λ (ns : List Bytes). name ∷ ns) named,
      ap (λ (es : List UpperEffect). dial_guru (new_channel name address i next) ∷ es) dials,
      (refl, refl, new),
      (omega arith, older),
      omega arith,
    )

-- Exactly the stale channels are closed.
forget_loop-stale :
    (dialed : Dialed) (names : List Bytes) (cs : List UpperChannel)
    → AllClosable dialed (stale names cs)
    → forget_loop dialed names cs [] ≡ some ([], map (λ upc. forget upc.number) (stale names cs))
unfolding forget_loop
forget_loop-stale dialed names [] h = refl
forget_loop-stale dialed names (upc ∷ cs) h = elim (Bool-cases (is_listed upc.name names)) [
  | inl kept ↦
      let closable = rw kept at h in
      rw (has_name-is_listed upc.name names, kept, forget_loop)
        (forget_loop-stale dialed names cs closable)
  | inr gone ↦
      let (this, closable) = rw gone at h in
      rw (has_name-is_listed upc.name names, gone, forget_loop)
        (rw this (rw (forget_loop-stale dialed names cs closable) refl))
]

pub forget_loop-empty :
    (dialed : Dialed) (names : List Bytes) (cs : List UpperChannel)
    (m : List (Bytes × UpperChannel)) (effects : List UpperEffect)
    → forget_loop dialed names cs [] ≡ some (m, effects)
    → m ≡ []
unfolding forget_loop
forget_loop-empty dialed names [] m effects e = ground arith
forget_loop-empty dialed names (upc ∷ cs) m effects e =
    elim (Option-cases (forget_loop dialed names cs [])) [
      | inl panics ↦ ground (arith, panics)
      | inr ((m', effects'), runs) ↦
          ground (arith, runs, forget_loop-empty dialed names cs m' effects' runs)
    ]

pub length-names_of :
    (cs : List UpperChannel) → length (map (λ upc. true) cs) ≡ length (names_of cs)
length-names_of [] = refl
length-names_of (upc ∷ cs) = ap suc (length-names_of cs)

module _ (maglev_new : List Bytes → ℕ → ℕ) where
  -- An aide whose table of channels by name is empty makes a new channel for every name of a list that has changed
  -- list, also for those it has a running channel to; it starts a goroutine for each, closes the
  -- channels whose names are gone, no others, and lets the buckets subscribe again. This is where
  -- there are as many addresses as names, and the channels to be closed can be.
  pub set_upstream_names-AreNew :
      (myname : Bytes) (dialed : Dialed) (names addresses : List Bytes) (r : UpstreamRouter)
      → r.name2channel ≡ []
      → length names ≡ length addresses
      → names_of r.channels ≢ names
      → AllClosable dialed (stale names r.channels)
      → (r' : UpstreamRouter) × (set_upstream_names maglev_new false myname dialed names addresses r
          ≡ some (
            r',
            map dial_guru r'.channels
                ++ (map (λ upc. forget upc.number) (stale names r.channels)
                    ++ re_subscribe_remapped_topics ∷ []),
          ))
        × (names_of r'.channels ≡ names)
        × AreNew 0 r.next r'.channels
        × (r'.maglev ≡ some (maglev_new names))
        × (r'.previousmaglev ≡ r.maglev)
  unfolding set_upstream_names set_aide_upstream_names
  set_upstream_names-AreNew myname dialed names addresses r none_known same other closable =
      let changed : had_change names r.channels ≡ true =
        elim (Bool-cases (had_change names r.channels)) [
          | inl changed ↦ changed
          | inr same_list ↦ absurd (other (unchanged-names_of names r.channels same_list))
        ] in
      let (named, dials, new, older, more) =
        channels_loop-new dialed names addresses 0 r.next same in
      let forgets = forget_loop-stale dialed names r.channels closable in
      let r' : UpstreamRouter = record {
        channels = (channels_loop dialed [] (addressed names addresses) 0 r.next).0;
        name2channel = [];
        maglev = some (maglev_new names);
        previousmaglev = r.maglev;
        next = (channels_loop dialed [] (addressed names addresses) 0 r.next).2;
      } in
      let even : (length names == length addresses) ≡ true = ground arith in
      (
        r',
        rw (even, changed, set_aide_upstream_names, none_known, forgets, none_known, dials) refl,
        named,
        new,
        refl,
        refl,
      )
