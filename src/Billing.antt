-- ===== src/Billing.antt =====
-- `BillingAccumulator` of iot/billing.go: a ring of four buckets of usage. The numbers of a bucket
-- are float64, which is a parameter here; times are uint32.
pub mod Ring
pub mod Window
mod Tests
use knotfreeiot.Base.{
  ℕ, zero, suc, ◌+◌, ◌-◌, ◌*◌, ◌%◌, ◌^◌, Bytes, List, [], ◌∷◌, Bool, true, false, not, ◌&&◌, length,
  Option, none, some, ltb, ◌==◌, if◌then◌else◌,
}

-- The operations on float64 that the program uses; `tenth` is the constant .1.
pub record Floats (F : Type 0) : Type 0 where
  pub of_nat : ℕ → F
  pub tenth : F
  pub add : F → F → F
  pub mul : F → F → F
  pub div : F → F → F
  pub floor : F → F
  pub lt : F → F → Bool
  pub eq : F → F → Bool

-- tokens.KnotFreeContactStats
pub record Stats (F : Type 0) : Type 0 where
  pub input : F
  pub output : F
  pub subscriptions : F
  pub connections : F

pub record StatsWithTime (F : Type 0) : Type 0 where
  pub stats : Stats F
  pub start : ℕ
  pub used : Bool

-- `a` has four buckets, and `i` is the one that is being filled.
pub record BillingAccumulator (F : Type 0) : Type 0 where
  pub a : List (StatsWithTime F)
  pub i : ℕ
  pub max : Stats F
  pub name : Bytes

abbrev pub bucket_span_time : ℕ
bucket_span_time = 10 * 60

abbrev pub lookback : ℕ
lookback = 4

-- uint32 addition and subtraction
abbrev pub add32 : ℕ → ℕ → ℕ
add32 x y = (x + y) % 2 ^ 32

abbrev pub sub32 : ℕ → ℕ → ℕ
sub32 x y = (x + 2 ^ 32 - y % 2 ^ 32) % 2 ^ 32

module _ {F : Type 0} (f : Floats F) where
  abbrev pub zero_stats : Stats F
  zero_stats = record {
    input = f.of_nat 0;
    output = f.of_nat 0;
    subscriptions = f.of_nat 0;
    connections = f.of_nat 0;
  }

  unfoldable pub add_stats : Stats F → Stats F → Stats F
  add_stats c s = record {
    input = f.add c.input s.input;
    output = f.add c.output s.output;
    subscriptions = f.add c.subscriptions s.subscriptions;
    connections = f.add c.connections s.connections;
  }

  -- An element of the zero value of the array.
  abbrev pub empty_bucket : StatsWithTime F
  empty_bucket = record { stats = zero_stats; start = 0; used = false }

  -- `&BillingAccumulator{}` with its name and maxima.
  unfoldable pub new_accumulator : Bytes → Stats F → BillingAccumulator F
  new_accumulator name max = record {
    a = empty_bucket ∷ empty_bucket ∷ empty_bucket ∷ empty_bucket ∷ [];
    i = 0;
    max = max;
    name = name;
  }

  -- `ba.a[i]`; the index is in range, by `IsRing` below.
  unfoldable pub bucket_at : List (StatsWithTime F) → ℕ → StatsWithTime F
  bucket_at [] i = empty_bucket
  bucket_at (c ∷ a) zero = c
  bucket_at (c ∷ a) (suc i) = bucket_at a i

  unfoldable pub set_bucket : List (StatsWithTime F) → ℕ → StatsWithTime F → List (StatsWithTime F)
  set_bucket [] i v = []
  set_bucket (c ∷ a) zero v = v ∷ a
  set_bucket (c ∷ a) (suc i) v = c ∷ set_bucket a i v

  -- The loop of the first use, over the distance of the bucket from the end.
  unfoldable pub spread_starts : ℕ → List (StatsWithTime F) → List (StatsWithTime F)
  spread_starts now [] = []
  spread_starts now (c ∷ a) =
      record c { start = sub32 now (bucket_span_time * suc (length a)) } ∷ spread_starts now a

  -- `if !c.Used`: the start times of all buckets, then that of the current one.
  unfoldable pub first_use : ℕ → ℕ → BillingAccumulator F → BillingAccumulator F
  first_use now deltat ba =
      if (bucket_at ba.a ba.i).used
      then ba
      else (let a = spread_starts now ba.a in
          record ba {
            a =
                set_bucket a ba.i
                  (record (bucket_at a ba.i) { start = sub32 now deltat; used = false });
          })

  -- The stats go into the current bucket.
  unfoldable pub accumulate : Stats F → BillingAccumulator F → BillingAccumulator F
  accumulate s ba =
      let c = bucket_at ba.a ba.i in
      record ba { a = set_bucket ba.a ba.i (record c { stats = add_stats c.stats s; used = true }) }

  -- `BucketClear`
  unfoldable pub bucket_clear : StatsWithTime F → StatsWithTime F
  bucket_clear c = record c { stats = zero_stats }

  -- The roll into the next bucket, which begins where the span of the current one ends.
  unfoldable pub roll : ℕ → BillingAccumulator F → BillingAccumulator F
  roll now ba =
      let previous_time = add32 (bucket_at ba.a ba.i).start bucket_span_time in
      let next = (ba.i + 1) % 4 in
      if ltb previous_time now
      then record ba {
        a =
            set_bucket ba.a next
              (record (bucket_clear (bucket_at ba.a next)) { start = previous_time; used = true });
        i = next;
      }
      else ba

  -- What `AddUsage` does to the buckets. `deltat` stands for `uint32(deltat)`.
  unfoldable pub usage_added : Stats F → ℕ → ℕ → BillingAccumulator F → BillingAccumulator F
  unfolding first_use accumulate roll
  usage_added s now deltat ba = roll now (accumulate s (first_use now deltat ba))

  -- Does it then ask for the subscriptions, to print them? `GetStats` locks the mutex that is held.
  unfoldable pub locks_again : Stats F → BillingAccumulator F → Bool
  locks_again s ba =
      f.eq ba.max.subscriptions (f.of_nat 1) && not (f.eq s.subscriptions (f.of_nat 0))

  -- `AddUsage`; `none` is the deadlock.
  unfoldable pub add_usage : Stats F → ℕ → ℕ → BillingAccumulator F → Option (BillingAccumulator F)
  unfolding usage_added locks_again
  add_usage s now deltat ba = if locks_again s ba then none else some (usage_added s now deltat ba)

  -- The loop of `GetStats`: the rounds left, `i`, `tmpnow`, the sums, and `times`. The sum of at
  -- most four uint32s is exact in a float64, so it is a number here.
  unfoldable pub window_loop : BillingAccumulator F → ℕ → ℕ → ℕ → Stats F → ℕ → Stats F × ℕ
  window_loop ba zero i tmpnow sums times = (sums, times)
  window_loop ba (suc rounds) i tmpnow sums times =
      let c = bucket_at ba.a ((ba.i + 4 - i) % 4) in
      let buckettime = sub32 tmpnow c.start in
      let rest =
        window_loop ba rounds (i + 1) (sub32 tmpnow buckettime) (add_stats sums c.stats)
          (times + buckettime) in
      if c.used then rest else (sums, times)

  -- `math.Floor(x*100) / 100`, after the division by `times`
  unfoldable pub rate : F → ℕ → F
  rate x times = f.div (f.floor (f.mul (f.div x (f.of_nat times)) (f.of_nat 100))) (f.of_nat 100)

  -- `GetStats` into a zeroed `dest`.
  unfoldable pub get_stats : ℕ → BillingAccumulator F → Stats F
  unfolding window_loop rate
  get_stats now ba =
      let (sums, times) = window_loop ba lookback 0 now zero_stats 0 in
      if times == 0 then sums else record {
        input = rate sums.input times;
        output = rate sums.output times;
        subscriptions = rate sums.subscriptions times;
        connections = rate sums.connections times;
      }

  unfoldable pub get_input : ℕ → BillingAccumulator F → F
  get_input now ba = (get_stats now ba).input

  unfoldable pub get_output : ℕ → BillingAccumulator F → F
  get_output now ba = (get_stats now ba).output

  unfoldable pub get_subscriptions : ℕ → BillingAccumulator F → F
  get_subscriptions now ba = (get_stats now ba).subscriptions

  unfoldable pub get_connections : ℕ → BillingAccumulator F → F
  get_connections now ba = (get_stats now ba).connections

  -- One bit of `AreUnderMax`: no more than the maximum and the slack.
  unfoldable pub within : F → F → F → Bool
  within current max slack = not (f.lt (f.add max slack) current)

  -- `AreUnderMax`, without the text of its message.
  unfoldable pub are_under_max : ℕ → BillingAccumulator F → Bool
  unfolding within
  are_under_max now ba =
      let current = get_stats now ba in
      within current.connections ba.max.connections f.tenth
      && within current.input ba.max.input (f.mul f.tenth (f.of_nat 100))
      && within current.output ba.max.output f.tenth
      && within current.subscriptions ba.max.subscriptions f.tenth
