-- ===== src/Billing/Ring.antt =====
-- The ring after each use: it keeps its shape, the current bucket is in use, and the usage went into
-- the bucket that was current.
use knotfreeiot.Base.{
  ℕ, zero, suc, ◌+◌, ◌%◌, ◌<◌, ◌≡◌, ◌∙◌, ◌≢◌, ◌⊎◌, inl, inr, none, some, Bool-cases, refl, ap, List,
  [], ◌∷◌, true, false, length, ◌==◌, if◌then◌else◌, arith,
}
use knotfreeiot.Billing.{
  Floats, Stats, StatsWithTime, BillingAccumulator, bucket_span_time, add32, sub32, zero_stats,
  add_stats, new_accumulator, bucket_at, set_bucket, spread_starts, first_use, accumulate,
  bucket_clear, roll, usage_added, locks_again, add_usage,
}

pub record IsRing {F : Type 0} (ba : BillingAccumulator F) : Type 0 where
  pub four : length ba.a ≡ 4
  pub in_range : ba.i < 4

module _ {F : Type 0} (f : Floats F) where
  length-set_bucket :
      (a : List (StatsWithTime F)) (i : ℕ) (v : StatsWithTime F)
      → length (set_bucket f a i v) ≡ length a
  unfolding set_bucket
  length-set_bucket [] i v = refl
  length-set_bucket (c ∷ a) zero v = refl
  length-set_bucket (c ∷ a) (suc i) v = ap suc (length-set_bucket a i v)

  length-spread_starts :
      (now : ℕ) (a : List (StatsWithTime F)) → length (spread_starts f now a) ≡ length a
  unfolding spread_starts
  length-spread_starts now [] = refl
  length-spread_starts now (c ∷ a) = ap suc (length-spread_starts now a)

  bucket_at-set_bucket :
      (a : List (StatsWithTime F)) (i j : ℕ) (v : StatsWithTime F)
      → i < length a
      → bucket_at f (set_bucket f a i v) j ≡ (if i == j then v else bucket_at f a j)
  unfolding bucket_at set_bucket
  bucket_at-set_bucket [] i j v h = absurd (omega arith)
  bucket_at-set_bucket (c ∷ a) zero zero v h = refl
  bucket_at-set_bucket (c ∷ a) zero (suc j) v h = ground arith
  bucket_at-set_bucket (c ∷ a) (suc i) zero v h = ground arith
  bucket_at-set_bucket (c ∷ a) (suc i) (suc j) v h = ground (arith, bucket_at-set_bucket a i j v)

  -- The first use changes no usage.
  spread-stats :
      (now : ℕ) (a : List (StatsWithTime F)) (j : ℕ)
      → (bucket_at f (spread_starts f now a) j).stats ≡ (bucket_at f a j).stats
  unfolding bucket_at spread_starts
  spread-stats now [] j = refl
  spread-stats now (c ∷ a) zero = refl
  spread-stats now (c ∷ a) (suc j) = spread-stats now a j

  pub new-IsRing : (name : List ℕ) (max : Stats F) → IsRing (new_accumulator f name max)
  unfolding new_accumulator
  new-IsRing name max = omega arith

  -- What one step of `usage_added` leaves of a ring, with the usage of each bucket.
  abbrev pub Current : BillingAccumulator F → StatsWithTime F
  Current ba = bucket_at f ba.a ba.i

  module _ (now deltat : ℕ) (ba : BillingAccumulator F) (h : IsRing ba) where
    first_use-IsRing : IsRing (first_use f now deltat ba)
    unfolding first_use
    first_use-IsRing = ground (
      arith,
      length-spread_starts now ba.a,
      length-set_bucket (spread_starts f now ba.a) ba.i
          (record (bucket_at f (spread_starts f now ba.a) ba.i) {
            start = sub32 now deltat;
            used = false;
          }),
    )

    first_use-i : (first_use f now deltat ba).i ≡ ba.i
    unfolding first_use
    first_use-i = ground arith

    first_use-stats :
        (j : ℕ) → (bucket_at f (first_use f now deltat ba).a j).stats ≡ (bucket_at f ba.a j).stats
    unfolding first_use
    first_use-stats j = ground (
      arith,
      length-spread_starts now ba.a,
      spread-stats now ba.a j,
      spread-stats now ba.a ba.i,
      bucket_at-set_bucket (spread_starts f now ba.a) ba.i j
          (record (bucket_at f (spread_starts f now ba.a) ba.i) {
            start = sub32 now deltat;
            used = false;
          }),
    )

  module _ (s : Stats F) (ba : BillingAccumulator F) (h : IsRing ba) where
    accumulate-IsRing : IsRing (accumulate f s ba)
    unfolding accumulate
    accumulate-IsRing = ground (
      arith,
      length-set_bucket ba.a ba.i
          (record (Current ba) { stats = add_stats f (Current ba).stats s; used = true }),
    )

    accumulate-i : (accumulate f s ba).i ≡ ba.i
    unfolding accumulate
    accumulate-i = refl

    accumulate-at :
        (j : ℕ)
        → bucket_at f (accumulate f s ba).a j ≡ (
            if ba.i == j
            then record (Current ba) { stats = add_stats f (Current ba).stats s; used = true }
            else bucket_at f ba.a j)
    unfolding accumulate
    accumulate-at j = bucket_at-set_bucket ba.a ba.i j _ (omega arith)

  module _ (now : ℕ) (ba : BillingAccumulator F) (h : IsRing ba) where
    abbrev Cleared : StatsWithTime F
    Cleared = record {
      stats = zero_stats f;
      start = add32 (Current ba).start bucket_span_time;
      used = true;
    }

    roll-IsRing : IsRing (roll f now ba)
    unfolding roll bucket_clear
    roll-IsRing = ground (arith, length-set_bucket ba.a ((ba.i + 1) % 4) Cleared)

    roll-at :
        (j : ℕ)
        → bucket_at f (roll f now ba).a j ≡ (
            if (roll f now ba).i == ba.i
            then bucket_at f ba.a j
            else if (roll f now ba).i == j
            then Cleared
            else bucket_at f ba.a j)
    unfolding roll bucket_clear
    roll-at j = ground (arith, bucket_at-set_bucket ba.a ((ba.i + 1) % 4) j Cleared)

  -- After a use the ring has four buckets and a current one among them, which is in use.
  pub usage_added-IsRing :
      (s : Stats F) (now deltat : ℕ) (ba : BillingAccumulator F)
      → IsRing ba
      → IsRing (usage_added f s now deltat ba)
        × ((Current (usage_added f s now deltat ba)).used ≡ true)
  unfolding usage_added
  usage_added-IsRing s now deltat ba h =
      let b = first_use f now deltat ba in
      let hb = first_use-IsRing now deltat ba h in
      let c = accumulate f s b in
      let hc = accumulate-IsRing s b hb in
      (
        roll-IsRing now c hc,
        ground (arith, roll-at now c hc (roll f now c).i, accumulate-at s b hb c.i),
      )

  usage_added-stats :
      (s : Stats F) (now deltat : ℕ) (ba : BillingAccumulator F) (j : ℕ)
      → IsRing ba
      → (bucket_at f (usage_added f s now deltat ba).a j).stats ≡ (
          if ba.i == j
          then add_stats f (bucket_at f ba.a j).stats s
          else if (usage_added f s now deltat ba).i == j
          then zero_stats f
          else (bucket_at f ba.a j).stats)
  unfolding usage_added
  usage_added-stats s now deltat ba j h =
      let b = first_use f now deltat ba in
      let hb = first_use-IsRing now deltat ba h in
      let c = accumulate f s b in
      let hc = accumulate-IsRing s b hb in
      ground (
        arith,
        roll-at now c hc j,
        accumulate-at s b hb j,
        accumulate-i s b hb,
        first_use-i now deltat ba h,
        first_use-stats now deltat ba h j,
      )

  -- The sums of two usages.
  abbrev pub SumOf : Stats F → Stats F → Stats F → Type 0
  SumOf before s after =
      (after.input ≡ f.add before.input s.input)
      × (after.output ≡ f.add before.output s.output)
      × (after.subscriptions ≡ f.add before.subscriptions s.subscriptions)
      × (after.connections ≡ f.add before.connections s.connections)

  -- What a use leaves of the ring: the current bucket is the one that was or the next, the usage is
  -- added to the one that was, and of the others the one that becomes current is cleared.
  abbrev pub Added : Stats F → BillingAccumulator F → BillingAccumulator F → Type 0
  Added s ba ba' =
      ((ba'.i ≡ ba.i) ⊎ (ba'.i ≡ (ba.i + 1) % 4))
      × SumOf (bucket_at f ba.a ba.i).stats s (bucket_at f ba'.a ba.i).stats
      × ((j : ℕ)
          → ba.i ≢ j
          → (bucket_at f ba'.a j).stats
            ≡ (if ba'.i == j then zero_stats f else (bucket_at f ba.a j).stats))

  usage_added-Added :
      (s : Stats F) (now deltat : ℕ) (ba : BillingAccumulator F)
      → IsRing ba
      → Added s ba (usage_added f s now deltat ba)
  unfolding usage_added add_stats roll
  usage_added-Added s now deltat ba h =
      let here : (ba.i == ba.i) ≡ true = ground arith in
      let sum : (bucket_at f (usage_added f s now deltat ba).a ba.i).stats
          ≡ add_stats f (bucket_at f ba.a ba.i).stats s =
        usage_added-stats s now deltat ba ba.i h ∙ rw here refl in
      (
        ground (
          arith,
          accumulate-i s (first_use f now deltat ba) (first_use-IsRing now deltat ba h),
          first_use-i now deltat ba h,
        ),
        (
          ap (λ (c : Stats F). c.input) sum,
          ap (λ (c : Stats F). c.output) sum,
          ap (λ (c : Stats F). c.subscriptions) sum,
          ap (λ (c : Stats F). c.connections) sum,
        ),
        λ j other.
            let elsewhere : (ba.i == j) ≡ false = ground arith in
            usage_added-stats s now deltat ba j h ∙ rw elsewhere refl,
      )

  -- A use by an account whose maximum is one subscription never returns where the subscriptions used
  -- are not 0. Any other use is added to the bucket that was current; every other bucket keeps its
  -- usage, but the one that becomes current, which is cleared: that is the next one of the ring,
  -- where it is another.
  pub add_usage-stats :
      (s : Stats F) (now deltat : ℕ) (ba : BillingAccumulator F)
      → IsRing ba
      → ((f.eq ba.max.subscriptions (f.of_nat 1) ≡ true)
          × (f.eq s.subscriptions (f.of_nat 0) ≡ false)
          × (add_usage f s now deltat ba ≡ none))
        ⊎ (((f.eq ba.max.subscriptions (f.of_nat 1) ≡ false)
              ⊎ (f.eq s.subscriptions (f.of_nat 0) ≡ true))
            × (ba' : BillingAccumulator F) × (add_usage f s now deltat ba ≡ some ba')
            × Added s ba ba')
  unfolding add_usage locks_again
  add_usage-stats s now deltat ba h =
      let ba' = usage_added f s now deltat ba in
      let added = usage_added-Added s now deltat ba h in
      elim (Bool-cases (f.eq ba.max.subscriptions (f.of_nat 1))) [
        | inr several ↦ inr (inl several, ba', rw several refl, added)
        | inl one ↦ elim (Bool-cases (f.eq s.subscriptions (f.of_nat 0))) [
          | inl unused ↦ inr (inr unused, ba', rw one (rw unused refl), added)
          | inr used ↦ inl (one, used, rw one (rw used refl))
        ]
      ]
