-- ===== src/ContactStruct/Beat.antt =====
-- The traffic counters and the heartbeat of a contact.
pub mod Life
use knotfreeiot.Base.{
  ℕ, ◌+◌, ◌*◌, Bytes, Bool, true, false, not, List, [], ◌∷◌, ◌++◌, Option, none, some, ltb,
  if◌then◌else◌, ascii,
}
use knotfreeiot.Base.Keys.{TreeMap, bytes_eq}
use knotfreeiot.Billing.{Floats, Stats, zero_stats, add32, sub32}
use knotfreeiot.Packets.Address.{from_bytes}
use knotfreeiot.Packets.Packet.{Packet, send}
use knotfreeiot.Tokens.{TokenPayload}
use knotfreeiot.ContactStruct.{
  ContactStruct, Action, do_close, push_again, Environment, bare, with_option,
}

-- The counters after `Read` and `Write` of n bytes, and after `ReadByte`, which counts on both.
unfoldable pub count_read : {F : Type 0} → ℕ → ContactStruct F → ContactStruct F
count_read n cc = record cc { input = cc.input + n }

unfoldable pub count_write : {F : Type 0} → ℕ → ContactStruct F → ContactStruct F
count_write n cc = record cc { output = cc.output + n }

unfoldable pub count_read_byte : {F : Type 0} → ℕ → ContactStruct F → ContactStruct F
unfolding count_read
count_read_byte n cc = count_write n (count_read n cc)

-- `GetRates`: in, out, and the time. `Store` writes the zero that stands in the local variable.
unfoldable pub get_rates : {F : Type 0} → ℕ → ContactStruct F → ContactStruct F × (ℕ × ℕ × ℕ)
get_rates now cc =
    let dt = sub32 now cc.last_billing_time in
    (record cc { input = 0; output = 0 }, (0, 0, if ltb (4 * 300) dt then 0 else dt))

-- A heartbeat on a closed contact waits for a command that never runs. Else there are the contact, the
-- usage that is added at the server (over a time of 0), and what is done.
pub data Beaten (P F : Type 0) : Type 0 where
  blocked : Beaten P F
  beaten : ContactStruct F → Option (Stats F) → List (Action P) → Beaten P F

module _ {P F : Type 0} (opts : TreeMap P Bytes Bytes) (f : Floats F) where
  -- The command of `sendBillingInfo`: the contact and the usage. The local `tmp` stays 0.
  unfoldable pub billing_command : ContactStruct F → ContactStruct F × Stats F
  billing_command cc =
      let delta = sub32 cc.next_billing_time cc.last_billing_time in
      (
        record cc {
          last_billing_time = cc.next_billing_time;
          next_billing_time = add32 cc.next_billing_time 60;
          input = 0;
          output = 0;
        },
        record (zero_stats f) { connections = f.of_nat delta },
      )

  -- The packet for the billing topic. The `deltaTime` of the goroutine is not that of the command, and
  -- stays 0.
  unfoldable pub stats_packet : Environment F → Bytes → Stats F → Packet P
  stats_packet env jwtid stats = with_option opts f (ascii "stats-deltat") (ascii "0") (
      with_option opts f (ascii "add-stats")
        (elim (env.marshal_stats stats) [ none ↦ [] | some text ↦ text ])
        (bare opts f
          (send (from_bytes jwtid) (from_bytes (ascii "billing_stats_return_address_contact")) [])))

  unfoldable pub send_billing_info :
      Environment F → TokenPayload F → ContactStruct F → ContactStruct F × Stats F × List (Action P)
  unfolding billing_command
  send_billing_info env t cc =
      let (cc', stats) = billing_command cc in
      (
        cc',
        stats,
        if env.is_guru then [] else push_again false (stats_packet env t.jwtid stats) ∷ [],
      )

  unfoldable pub time_out : Environment F → ℕ → ContactStruct F → List (Action P)
  time_out env now cc =
      if not env.is_guru then (if ltb cc.contact_expires now then do_close ∷ [] else []) else []

  -- `Heartbeat`
  unfoldable pub heartbeat : Environment F → ℕ → ContactStruct F → Beaten P F
  heartbeat env now cc = if cc.closed then blocked else elim cc.token [
    | none ↦ beaten cc none []
    | some t ↦
        let (cc', stats, later) = send_billing_info env t cc in
        if ltb cc.next_billing_time now
        then beaten cc' (some stats) (later ++ time_out env now cc)
        else beaten cc none (time_out env now cc)
  ]
