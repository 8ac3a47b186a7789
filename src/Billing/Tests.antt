-- ===== src/Billing/Tests.antt =====
-- The theorems on the billing ring at concrete inputs, with numbers in the place of float64.
use knotfreeiot.Base.{
  ℕ, ◌+◌, ◌*◌, ◌/◌, ◌≡◌, ◌⊎◌, none, some, refl, [], ◌∷◌, true, false, ltb, ◌==◌, ascii,
}
use knotfreeiot.Billing.{
  Floats, Stats, BillingAccumulator, zero_stats, add_stats, new_accumulator, bucket_at, usage_added,
  locks_again, add_usage, set_bucket, spread_starts, first_use, accumulate, roll,
}
use knotfreeiot.Billing.Ring.{IsRing, new-IsRing, Added, add_usage-stats}

abbrev whole : Floats ℕ
whole = record {
  of_nat = λ n. n;
  tenth = 0;
  add = ◌+◌;
  mul = ◌*◌;
  div = ◌/◌;
  floor = λ n. n;
  lt = ltb;
  eq = ◌==◌;
}

abbrev usage : Stats ℕ
usage = record { input = 10; output = 20; subscriptions = 1; connections = 1 }

abbrev account : BillingAccumulator ℕ
account = new_accumulator whole (ascii "acct") usage

abbrev account-IsRing : IsRing account
account-IsRing = new-IsRing whole (ascii "acct") usage

abbrev spacious : BillingAccumulator ℕ
spacious = new_accumulator whole (ascii "acct") (record usage { subscriptions = 5 })

add_usage-stats_example :
    (((spacious.max.subscriptions == 1) ≡ true)
      × ((usage.subscriptions == 0) ≡ false)
      × (add_usage whole usage 5000 10 spacious ≡ none))
    ⊎ ((((spacious.max.subscriptions == 1) ≡ false) ⊎ ((usage.subscriptions == 0) ≡ true))
        × (ba' : BillingAccumulator ℕ) × (add_usage whole usage 5000 10 spacious ≡ some ba')
        × Added whole usage spacious ba')
add_usage-stats_example =
    add_usage-stats whole usage 5000 10 spacious
      (new-IsRing whole (ascii "acct") (record usage { subscriptions = 5 }))

-- One bucket in use, since 4990.
abbrev used_once : BillingAccumulator ℕ
used_once = record {
  a =
      record { stats = usage; start = 4990; used = true }
      ∷ record { stats = zero_stats whole; start = 3200; used = false }
      ∷ record { stats = zero_stats whole; start = 3800; used = false }
      ∷ record { stats = zero_stats whole; start = 4400; used = false }
      ∷ [];
  i = 0;
  max = usage;
  name = ascii "acct";
}

first_usage : usage_added whole usage 5000 10 account ≡ used_once
unfolding usage_added new_accumulator bucket_at set_bucket spread_starts first_use accumulate roll
    add_stats
first_usage = refl

-- The mutex is locked again by a use of subscriptions where the maximum is one.
deadlock : add_usage whole usage 5000 10 account ≡ none
unfolding add_usage locks_again new_accumulator
deadlock = refl
