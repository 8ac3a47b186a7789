-- ===== src/Packets/Packet/Accepts.antt =====
-- Which universal packets `FillPacket` accepts.
use knotfreeiot.Base.{
  ℕ, ◌≡◌, ◌≤◌, ◌<◌, ◌||◌, refl, Bytes, List, [], ◌∷◌, Option, none, some, length, inl, inr,
  Bool-cases, ◌==◌, if◌then◌else◌, arith,
}
use knotfreeiot.Base.Keys.{TreeMap, bytes_eq}
use knotfreeiot.Packets.Io.{Result, ok, err, unknown_command}
use knotfreeiot.Packets.Wire.{Universal}
use knotfreeiot.Packets.Packet.{
  Packet, connect, disconnect, ping, command, filled, fill_send, fill_subscribe, fill_unsubscribe,
  fill_lookup, fill_packet,
}

-- How many strings a command needs; `none` for what is no command.
unfoldable pub least_args : ℕ → Option ℕ
least_args c =
    if c == b'P'
    then some 3
    else if c == b'S' || c == b'U'
    then some 1
    else if c == b'L'
    then some 2
    else if c == b'C' || c == b'D' || c == b'H'
    then some 0
    else none

module _ {T : Type 0} (m : TreeMap T Bytes Bytes) where
  -- A packet of the command that was read, from enough strings; or the error.
  abbrev pub Outcome : ℕ → List Bytes → Option ℕ → Result (Packet T) → Type 0
  Outcome cmd args (some n) (ok p) = (n ≤ length args) × (command p.body ≡ cmd)
  Outcome cmd args (some n) (err e) = length args < n
  Outcome cmd args none (ok p) = ⊥
  Outcome cmd args none (err e) = e ≡ unknown_command cmd

  fill_send-Outcome :
      (c : ℕ) (args : List Bytes) → c ≡ b'P' → Outcome c args (some 3) (fill_send m args)
  unfolding fill_send filled command
  fill_send-Outcome c [] h = omega arith
  fill_send-Outcome c (a ∷ []) h = omega arith
  fill_send-Outcome c (a ∷ b ∷ []) h = omega arith
  fill_send-Outcome c (a ∷ b ∷ d ∷ args) h = omega arith

  fill_subscribe-Outcome :
      (c : ℕ) (args : List Bytes) → c ≡ b'S' → Outcome c args (some 1) (fill_subscribe m args)
  unfolding fill_subscribe filled command
  fill_subscribe-Outcome c [] h = omega arith
  fill_subscribe-Outcome c (a ∷ args) h = omega arith

  fill_unsubscribe-Outcome :
      (c : ℕ) (args : List Bytes) → c ≡ b'U' → Outcome c args (some 1) (fill_unsubscribe m args)
  unfolding fill_unsubscribe filled command
  fill_unsubscribe-Outcome c [] h = omega arith
  fill_unsubscribe-Outcome c (a ∷ args) h = omega arith

  fill_lookup-Outcome :
      (c : ℕ) (args : List Bytes) → c ≡ b'L' → Outcome c args (some 2) (fill_lookup m args)
  unfolding fill_lookup filled command
  fill_lookup-Outcome c [] h = omega arith
  fill_lookup-Outcome c (a ∷ []) h = omega arith
  fill_lookup-Outcome c (a ∷ b ∷ args) h = omega arith

  plain :
      (u : Universal)
      → Outcome u.cmd u.args
          (if u.cmd == b'C' || u.cmd == b'D' || u.cmd == b'H' then some 0 else none)
          (if u.cmd == b'C'
            then ok (filled m connect u.args)
            else if u.cmd == b'D'
            then ok (filled m disconnect u.args)
            else if u.cmd == b'H'
            then ok (filled m ping u.args)
            else err (unknown_command u.cmd))
  unfolding filled command
  plain u = elim (Bool-cases (u.cmd == b'C')) [
    | inl e ↦ rw e (ground arith)
    | inr n₁ ↦ rw n₁ (elim (Bool-cases (u.cmd == b'D')) [
      | inl e ↦ rw e (ground arith)
      | inr n₂ ↦
          rw n₂ (elim (Bool-cases (u.cmd == b'H')) [
            | inl e ↦ rw e (ground arith)
            | inr n₃ ↦ rw n₃ refl
          ])
    ])
  ]

  -- A packet is returned exactly for a known command with enough strings, and it is of that
  -- command; any other letter is refused as unknown.
  pub fill_packet-Outcome :
      (u : Universal) → Outcome u.cmd u.args (least_args u.cmd) (fill_packet m u)
  unfolding least_args fill_packet filled command
  fill_packet-Outcome u = elim (Bool-cases (u.cmd == b'P')) [
    | inl e ↦ rw e (fill_send-Outcome u.cmd u.args (ground arith))
    | inr n₁ ↦ rw n₁ (elim (Bool-cases (u.cmd == b'S')) [
      | inl e ↦ rw e (fill_subscribe-Outcome u.cmd u.args (ground arith))
      | inr n₂ ↦ rw n₂ (elim (Bool-cases (u.cmd == b'U')) [
        | inl e ↦ rw e (fill_unsubscribe-Outcome u.cmd u.args (ground arith))
        | inr n₃ ↦ rw n₃ (elim (Bool-cases (u.cmd == b'L')) [
          | inl e ↦ rw e (fill_lookup-Outcome u.cmd u.args (ground arith))
          | inr n₄ ↦ rw n₄ (plain u)
        ])
      ])
    ])
  ]
