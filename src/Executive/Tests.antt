-- ===== src/Executive/Tests.antt =====
-- Two aides and two gurus of a cluster, in tenths.
use knotfreeiot.Base.{
  ◌==◌, ℕ, ◌+◌, ◌*◌, ◌/◌, ◌≡◌, ◌≢◌, ◌⊎◌, ◌<◌, refl, Bytes, false, List, [], ◌∷◌, length, none, some,
  ltb, leb, ascii, arith,
}
use knotfreeiot.Billing.{Floats}
use knotfreeiot.Executive.{
  ExecutiveStats, grow, same, shrink, ExpansionDesired, Thresholds, aides_loop, gurus_loop,
  aides_load, gurus_load, most_loop, executive_at, name_at, change_of, calc_expansion_desired,
}
use knotfreeiot.Executive.Load.{IsOrdered, AtMost, calc_expansion_desired-cases}

abbrev tenths : Floats ℕ
tenths = record {
  of_nat = λ n. n;
  tenth = 1;
  add = ◌+◌;
  mul = ◌*◌;
  div = ◌/◌;
  floor = λ n. n;
  lt = ltb;
  eq = ◌==◌;
}

abbrev thresholds : Thresholds ℕ
thresholds = record { nine_tenths = 9; eight_tenths = 8; ge = λ a b. leb b a }

tenths-IsOrdered : IsOrdered tenths (λ n. Unit {0})
tenths-IsOrdered = record {
  zero_number = tt;
  irreflexive = λ a na. ground arith;
  asymmetric = λ a b na nb e. ground arith;
  transitive = λ a b c na nb nc e d. ground arith;
}

abbrev server : Bytes → ℕ → ℕ → ExecutiveStats ℕ
server name subscriptions connections = record {
  contact_stats = record {
    input = 0;
    output = 0;
    subscriptions = subscriptions;
    connections = connections;
  };
  buffers = 1;
  name = name;
  http_address = [];
  tcp_address = [];
  is_guru = false;
  memory = 0;
  open_connections = 0;
  limits = none;
}

abbrev two_aides : List (ExecutiveStats ℕ)
two_aides = server (ascii "a0") 1 2 ∷ server (ascii "a1") 3 4 ∷ []

-- The aide with more subscriptions is removed; the gurus are full of subscriptions.
shrinks :
    calc_expansion_desired tenths thresholds two_aides (server (ascii "g0") 9 0 ∷ [])
    ≡ some (record { change_aides = shrink; remove_aide = ascii "a1"; change_gurus = grow })
unfolding calc_expansion_desired aides_load gurus_load aides_loop gurus_loop change_of most_loop
    name_at executive_at
shrinks = refl

-- A guru does not grow for its connections, an aide does not for its subscriptions.
stays :
    calc_expansion_desired tenths thresholds
      (server (ascii "a0") 10 0 ∷ [])
      (server (ascii "g0") 0 10 ∷ [])
    ≡ some (record { change_aides = same; remove_aide = []; change_gurus = same })
unfolding calc_expansion_desired aides_load gurus_load aides_loop gurus_loop change_of
stays = refl

calc_expansion_desired-cases_example :
    (r : ExpansionDesired) × (calc_expansion_desired tenths thresholds two_aides two_aides ≡ some r)
    × (((r.change_aides ≢ shrink) × (r.remove_aide ≡ []))
        ⊎ ((r.change_aides ≡ shrink)
            × (1 < length two_aides)
            × (k : ℕ) × (ex : ExecutiveStats ℕ) × (executive_at two_aides k ≡ some ex)
            × (ex.name ≡ r.remove_aide)
            × AtMost tenths (λ n. Unit {0}) ex.contact_stats.subscriptions two_aides))
    × ((r.change_gurus ≢ shrink) ⊎ (1 < length two_aides))
calc_expansion_desired-cases_example =
    calc_expansion_desired-cases tenths thresholds (λ n. Unit {0}) two_aides two_aides
      tenths-IsOrdered (tt, refl, (tt, refl, tt))
