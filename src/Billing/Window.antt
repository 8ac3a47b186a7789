-- ===== src/Billing/Window.antt =====
-- The time over which `GetStats` averages.
use knotfreeiot.Base.{
  ℕ, zero, suc, ◌+◌, ◌-◌, ◌%◌, ◌^◌, ◌<◌, ◌≤◌, ◌≡◌, true, Bool-cases, inl, inr, if◌then◌else◌, arith,
}
use knotfreeiot.Billing.{
  Floats, Stats, BillingAccumulator, sub32, zero_stats, add_stats, bucket_at, window_loop,
}

module _ {F : Type 0} (f : Floats F) (ba : BillingAccumulator F) where
  -- The start of the last bucket in use on the way back from the current one, `t` if there is none.
  abbrev pub oldest : ℕ → ℕ → ℕ → ℕ
  oldest zero i t = t
  oldest (suc rounds) i t =
      let c = bucket_at f ba.a ((ba.i + 4 - i) % 4) in
      let rest = oldest rounds (i + 1) c.start in if c.used then rest else t

  -- No bucket in use begins after the one that follows it, or after now.
  abbrev pub IsFalling : ℕ → ℕ → ℕ → Type 0
  IsFalling zero i t = Unit {0}
  IsFalling (suc rounds) i t =
      let c = bucket_at f ba.a ((ba.i + 4 - i) % 4) in
      (c.used ≡ true) → ((c.start ≤ t) × IsFalling rounds (i + 1) c.start)

  oldest-le : (rounds i t : ℕ) → IsFalling rounds i t → oldest rounds i t ≤ t
  oldest-le zero i t h = omega arith
  oldest-le (suc rounds) i t h =
      let c = bucket_at f ba.a ((ba.i + 4 - i) % 4) in
      elim (Bool-cases c.used) [
        | inl u ↦ rw u (omega (arith, (h u).0, oldest-le rounds (i + 1) c.start (h u).1))
        | inr n ↦ rw n (omega arith)
      ]

  times-window_loop :
      (rounds i t times : ℕ) (sums : Stats F)
      → t < 2 ^ 32
      → IsFalling rounds i t
      → (window_loop f ba rounds i t sums times).1 ≡ times + (t - oldest rounds i t)
  unfolding window_loop
  times-window_loop zero i t times sums lt h = omega arith
  times-window_loop (suc rounds) i t times sums lt h =
      let c = bucket_at f ba.a ((ba.i + 4 - i) % 4) in
      elim (Bool-cases c.used) [
        | inl u ↦
            let back : sub32 t (sub32 t c.start) ≡ c.start = omega (arith, (h u).0) in
            rw (u, back)
              (omega (
                arith,
                (h u).0,
                oldest-le rounds (i + 1) c.start (h u).1,
                times-window_loop rounds (i + 1) c.start (times + sub32 t c.start)
                    (add_stats f sums c.stats) (omega (arith, (h u).0)) (h u).1,
              ))
        | inr n ↦ rw n (omega arith)
      ]

  -- The average is taken over the time from the start of the oldest bucket that counts until now.
  pub window_times :
      (now : ℕ)
      → now < 2 ^ 32
      → IsFalling 4 0 now
      → (window_loop f ba 4 0 now (zero_stats f) 0).1 ≡ now - oldest 4 0 now
  window_times now lt h = omega (arith, times-window_loop 4 0 now 0 (zero_stats f) lt h)
