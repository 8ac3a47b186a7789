-- ===== src/LookMsg/Process/Sealed.antt =====
-- What a box holds that `decryptCommand` accepts.
use knotfreeiot.Base.{
  ℕ, ◌+◌, ◌^◌, ◌≤◌, ◌<◌, ◌≡◌, ◌⊎◌, inl, inr, refl, sym, ap, Bytes, true, false, List, length, some,
  Option-cases, ascii, arith,
}
use knotfreeiot.Base.Keys.{TreeMap, bytes_beq, bytes_beq_iff, bytes_eq, nat_eq}
use knotfreeiot.Packets.Packet.{Packet}
use knotfreeiot.Tokens.{OrError-cases, good}
use knotfreeiot.Pubsub.Topic.{WatcherItem, MyRedblacktree}
use knotfreeiot.Pubsub.Subscribe.{option_of}
use knotfreeiot.LookMsg.Maps.{split}
use knotfreeiot.LookMsg.{Libraries}
use knotfreeiot.LookMsg.Process.{
  copied, is_late, first_entry, last_entry, check_payload, decrypt_command,
}

-- Ten seconds before or after. The one other time that passes is half of 2 ^ 64 away.
abbrev pub InTime : ℕ → ℕ → Type 0
InTime now t = ((t ≤ now + 10) × (now ≤ t + 10)) ⊎ (t ≡ now + 2 ^ 63)

is_late-InTime :
    (now t : ℕ) → 10 ≤ now → now < 2 ^ 62 → t < 2 ^ 64 → is_late now t ≡ false → InTime now t
unfolding is_late
is_late-InTime now t after now_small t_small in_time = ground arith

-- `ParseInt` gives an int64, here as the number that its bits are.
pub record ParsesInt64 {T F : Type 0} (libs : Libraries T F) : Type 0 where
  pub in_range : (text : Bytes) (t : ℕ) → libs.parse_int text ≡ some t → t < 2 ^ 64

module _ {P T F : Type 0} (opts : TreeMap P Bytes Bytes) (kv : TreeMap MyRedblacktree Bytes Bytes)
    (tree : TreeMap T ℕ WatcherItem) (libs : Libraries T F) where
  -- The text in the box: between `#` there are two parts at least, of which the first is the command
  -- and the last a time that is not late.
  pub record IsCommandAt (now : ℕ) (command payload : Bytes) : Type 0 where
    pub parts : List Bytes
    pub splits : split payload b'#' ≡ parts
    pub two : 2 ≤ length parts
    pub begins : first_entry parts ≡ command
    pub time : ℕ
    pub parsed : libs.parse_int (last_entry parts) ≡ some time
    pub in_time : InTime now time

  -- The packet has the three options, and with the key "pubk" and the nonce the box opens to the
  -- command.
  pub record Opens (now : ℕ) (p : Packet P) (command : Bytes) : Type 0 where
    pub sealed : Bytes
    pub has_sealed : option_of opts p (ascii "sealed") ≡ (sealed, true)
    pub nonce : Bytes
    pub has_nonce : option_of opts p (ascii "nonc") ≡ (nonce, true)
    pub pubk : Bytes
    pub has_pubk : option_of opts p (ascii "pubk") ≡ (pubk, true)
    pub key : Bytes
    pub decoded : libs.base64_decode pubk ≡ good key
    pub payload : Bytes
    pub opened : libs.box_open sealed (copied 24 nonce) (copied 32 key) ≡ some payload
    pub holds : IsCommandAt now command payload

  module _ (int64s : ParsesInt64 libs) (now : ℕ) (after : 10 ≤ now) (small : now < 2 ^ 62) where
    check_payload-IsCommandAt :
        (command payload : Bytes)
        → check_payload opts kv tree libs now command payload ≡ true
        → IsCommandAt now command payload
    unfolding check_payload
    check_payload-IsCommandAt command payload h =
        let parts = split payload b'#' in
        elim (Option-cases (libs.parse_int (last_entry parts))) [
          | inl e ↦ absurd (ground (arith, e))
          | inr (t, e) ↦
              let on_time : is_late now t ≡ false = ground (arith, e) in
              let same : bytes_beq command (first_entry parts) ≡ true = ground (arith, e) in
              record {
                parts = parts;
                splits = refl;
                two = ground (arith, e);
                begins = sym ((bytes_beq_iff command (first_entry parts)).0 same);
                time = t;
                parsed = e;
                in_time = is_late-InTime now t after small (int64s.in_range _ t e) on_time;
              }
        ]

    pub decrypt_command-Opens :
        (p : Packet P) (command : Bytes)
        → decrypt_command opts kv tree libs now p command ≡ true
        → Opens now p command
    unfolding decrypt_command
    decrypt_command-Opens p command h =
        let (sealed, has_sealed) = option_of opts p (ascii "sealed") in
        let (nonce, has_nonce) = option_of opts p (ascii "nonc") in
        let (pubk, has_pubk) = option_of opts p (ascii "pubk") in
        elim (OrError-cases (libs.base64_decode pubk)) [
          | inl (text, e) ↦ absurd (ground (arith, e))
          | inr (key, e) ↦
              elim (Option-cases (libs.box_open sealed (copied 24 nonce) (copied 32 key))) [
                | inl shut ↦ absurd (ground (arith, e, shut))
                | inr (payload, opened) ↦
                    let checked : check_payload opts kv tree libs now command payload ≡ true =
                      ground (arith, e, opened) in
                    record {
                      sealed = sealed;
                      has_sealed = ap (λ b. (sealed, b)) (ground arith);
                      nonce = nonce;
                      has_nonce = ap (λ b. (nonce, b)) (ground arith);
                      pubk = pubk;
                      has_pubk = ap (λ b. (pubk, b)) (ground arith);
                      key = key;
                      decoded = e;
                      payload = payload;
                      opened = opened;
                      holds = check_payload-IsCommandAt command payload checked;
                    }
              ]
        ]
