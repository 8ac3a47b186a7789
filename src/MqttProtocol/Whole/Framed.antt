-- ===== src/MqttProtocol/Whole/Framed.antt =====
-- When a packet is whole.
use knotfreeiot.Base.{
  ℕ, ◌+◌, ◌*◌, ◌%◌, ◌^◌, ◌<◌, ◌≤◌, ◌≡◌, refl, ◌∙◌, Bytes, true, false, ◌||◌, [], ◌∷◌, ◌++◌, none,
  some, length, append-nil, length-append, ltb, ◌==◌, if◌then◌else◌, arith,
}
use native.Mathlib.Numerals.{towards_suc}
use knotfreeiot.MqttProtocol.Whole.{length_loop, has_all, is_whole_mqtt_packet}

-- The remaining length of MQTT: groups of seven bits, the low ones first, with the top bit set on all
-- but the last.
abbrev pub value : Bytes → ℕ
value [] = 0
value (b ∷ bs) = b % 128 + 128 * value bs

abbrev pub IsVarLen : Bytes → Type 0
IsVarLen [] = ⊥
IsVarLen (b ∷ []) = b < 128
IsVarLen (b ∷ c ∷ bs) = (128 ≤ b) × IsVarLen (c ∷ bs)

pow_seven : (s : ℕ) → 2 ^ (s + 7) ≡ 128 * 2 ^ s
pow_seven s = simp towards_suc (omega arith)

group_sum : (x v p : ℕ) → (x + 128 * v) * p ≡ x * p + v * (128 * p)
group_sum x v p = grind arith

mod_small : (q : ℕ) → q < 2 ^ 64 → q % 2 ^ 64 ≡ q
mod_small q h = omega arith

-- One group more.
group_next : (len x v s : ℕ) → (len + x * 2 ^ s) + v * 2 ^ (s + 7) ≡ len + (x + 128 * v) * 2 ^ s
group_next len x v s = rw (pow_seven s) (omega (arith, group_sum x v (2 ^ s)))

length_loop-value :
    (vs tail : Bytes) (t i len shift : ℕ)
    → IsVarLen vs
    → len + value vs * 2 ^ shift < 2 ^ 64
    → length_loop (vs ++ t ∷ tail) i len shift ≡ some (i + length vs, len + value vs * 2 ^ shift)
unfolding length_loop
length_loop-value [] tail t i len shift h fits = absurd h
length_loop-value (b ∷ []) tail t i len shift low fits =
    let same : b % 128 + 128 * 0 ≡ b % 128 = omega arith in
    let small : len + b % 128 * 2 ^ shift < 2 ^ 64 = rw same at fits in
    let test : ltb b 128 ≡ true = ground arith in
    rw test (rw same (rw (mod_small (len + b % 128 * 2 ^ shift) small) refl))
length_loop-value (b ∷ c ∷ vs) tail t i len shift (high, h) fits =
    let v = value (c ∷ vs) in
    let next : (len + b % 128 * 2 ^ shift) + v * 2 ^ (shift + 7)
        ≡ len + (b % 128 + 128 * v) * 2 ^ shift =
      group_next len (b % 128) v shift in
    let fits' : (len + b % 128 * 2 ^ shift) + v * 2 ^ (shift + 7) < 2 ^ 64 = rw next fits in
    let small : len + b % 128 * 2 ^ shift < 2 ^ 64 = omega arith in
    let count : i + 1 + length (c ∷ vs) ≡ i + length (b ∷ c ∷ vs) = omega arith in
    let test : ltb b 128 ≡ false = ground arith in
    rw test (
      rw (mod_small (len + b % 128 * 2 ^ shift) small) (
        length_loop-value (c ∷ vs) tail t (i + 1) (len + b % 128 * 2 ^ shift) (shift + 7) h fits'
        ∙ rw (count, next) refl))

-- Nothing behind the length: the loop does not see its end.
length_loop-none : (vs : Bytes) (i len shift : ℕ) → IsVarLen vs → length_loop vs i len shift ≡ none
unfolding length_loop
length_loop-none [] i len shift h = absurd h
length_loop-none (b ∷ []) i len shift h = refl
length_loop-none (b ∷ c ∷ vs) i len shift (high, h) =
    let test : ltb b 128 ≡ false = ground arith in
    rw test (length_loop-none (c ∷ vs) (i + 1) ((len + b % 128 * 2 ^ shift) % 2 ^ 64) (shift + 7) h)

whole_lem :
    (h : ℕ) (vs rest : Bytes)
    → IsVarLen vs
    → is_whole_mqtt_packet (h ∷ (vs ++ rest))
      ≡ has_all (h ∷ (vs ++ rest)) (length_loop (vs ++ rest) 1 0 0)
unfolding is_whole_mqtt_packet
whole_lem h [] rest v = absurd v
whole_lem h (b ∷ vs) rest v = refl

-- Data that begin with a command byte and a remaining length, which with the length itself is below
-- 2 ^ 63, are a whole packet exactly if what follows has the remaining length at least, and is not
-- empty. The length that is returned is that of the packet. So a packet with nothing behind its
-- length, such as a ping, is not seen until a byte of the next one is there.
pub is_whole_mqtt_packet-exactly :
    (h : ℕ) (vs rest : Bytes)
    → IsVarLen vs
    → 1 + length vs + value vs < 2 ^ 63
    → is_whole_mqtt_packet (h ∷ (vs ++ rest)) ≡ (
        if length rest == 0 || ltb (length rest) (value vs)
        then (false, 0)
        else (true, 1 + length vs + value vs))
unfolding has_all
is_whole_mqtt_packet-exactly h vs [] v small =
    whole_lem h vs [] v ∙ rw append-nil (rw (length_loop-none vs 1 0 0 v, has_all) refl)
is_whole_mqtt_packet-exactly h vs (t ∷ tail) v small =
    let one : 2 ^ 0 ≡ 1 = refl in
    let total : 0 + value vs * 2 ^ 0 ≡ value vs = omega arith in
    let fits : 0 + value vs * 2 ^ 0 < 2 ^ 64 = omega arith in
    let found : length_loop (vs ++ t ∷ tail) 1 0 0 ≡ some (1 + length vs, value vs) =
      length_loop-value vs tail t 1 0 0 v fits ∙ rw total refl in
    let end : (1 + length vs + value vs) % 2 ^ 64 ≡ 1 + length vs + value vs = omega arith in
    whole_lem h vs (t ∷ tail) v
    ∙ rw (found, has_all) (rw end (ground (arith, length-append vs (t ∷ tail))))
