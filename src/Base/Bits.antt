-- ===== src/Base/Bits.antt =====
-- Masks on one byte as arithmetic, checked by evaluation of at most 256 entries.
use Prim.Native.Nat.{ℕ, zero, suc, ◌+◌, ◌≤◌, ◌<◌, bit_or}
use mathlib.Core.Path.{◌≡◌, refl}
use native.Mathlib.Decide.{dec_lt}
use mathlib.Core.Bool.{Bool, true, ◌&&◌}
use native.Mathlib.Omega.{arith}
use knotfreeiot.Base.Tests.{◌==◌}

-- Do `f` and `g` agree on the `count` numbers from `start` on?
agree : (f g : ℕ → ℕ) (count start : ℕ) → Bool
agree f g zero start = true
agree f g (suc count) start = f start == g start && agree f g count (start + 1)

agree→eq :
    (f g : ℕ → ℕ) (count start x : ℕ)
    → start ≤ x
    → x < start + count
    → agree f g count start ≡ true
    → f x ≡ g x
unfolding agree
agree→eq f g zero start x from to table = absurd (omega arith)
agree→eq f g (suc count) start x from to table = elim (dec_lt start x) [
  | yes later ↦ agree→eq f g count (start + 1) x (omega arith) (omega arith) (ground arith)
  | no here ↦ let same : x ≡ start = omega arith in rw same (ground arith)
]

pub bit_or-top : (x : ℕ) → x < 128 → bit_or x 0x80 ≡ x + 128
unfolding agree
bit_or-top x h =
    agree→eq (λ y. bit_or y 0x80) (λ y. y + 128) 128 0 x (omega arith) (omega arith) refl

pub bit_or-zero : (x : ℕ) → x < 128 → bit_or x 0 ≡ x
unfolding agree
bit_or-zero x h = agree→eq (λ y. bit_or y 0) (λ y. y) 128 0 x (omega arith) (omega arith) refl
