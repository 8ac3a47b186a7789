-- ===== src/ContactStruct/Beat/Life.antt =====
-- What a heartbeat reports and when it closes a contact.
use knotfreeiot.Base.{
  ℕ, ◌+◌, ◌*◌, ◌<◌, ◌≤◌, ◌^◌, ◌%◌, ◌≡◌, ◌≢◌, ◌↔◌, ap, Bytes, true, false, List, [], ◌∷◌, Option,
  none, some, inl, inr, Bool-cases, arith,
}
use knotfreeiot.Base.Keys.{TreeMap, bytes_eq}
use knotfreeiot.Billing.{Floats, Stats}
use knotfreeiot.Packets.Packet.{Packet}
use knotfreeiot.Pubsub.Topic.{Contact}
use knotfreeiot.ContactStruct.{
  ContactStruct, Action, do_close, pushed, Environment, set_expires, expect_token,
  push_packet_up_from_bottom2, push_packet_up_from_bottom,
}
use knotfreeiot.ContactStruct.Push.{living, expect_token-expires}
use knotfreeiot.ContactStruct.Beat.{
  count_read, count_write, Beaten, blocked, beaten, billing_command, send_billing_info, time_out,
  heartbeat,
}

-- Is the contact closed by one of the actions?
abbrev pub Closes : {P : Type 0} → List (Action P) → Type 0
Closes [] = ⊥
Closes (do_close ∷ l) = Unit {0}
Closes (_ ∷ l) = Closes l

abbrev pub ClosedBy : {P F : Type 0} → Beaten P F → Type 0
ClosedBy blocked = ⊥
ClosedBy (beaten con usage actions) = Closes actions

module _ {P F : Type 0} (opts : TreeMap P Bytes Bytes) (f : Floats F) (env : Environment F) where
  time_out-Closes :
      (now : ℕ) (con : ContactStruct F)
      → Closes (time_out opts f env now con) ↔ ((env.is_guru ≡ false) × (con.contact_expires < now))
  unfolding time_out
  time_out-Closes now con = elim (Bool-cases env.is_guru) [
    | inl g ↦ rw g (ground arith)
    | inr g ↦ rw g (ground arith)
  ]

  -- The usage and the actions of a heartbeat.
  abbrev pub report : Beaten P F → Option (Stats F) × List (Action P)
  report blocked = (none, [])
  report (beaten con usage actions) = (usage, actions)

  -- What was counted by reads and writes is never reported: a heartbeat reports and does the same
  -- whatever was counted, and the usage has no input and no output.
  pub heartbeat-counters :
      (now n m : ℕ) (con : ContactStruct F)
      → (report (heartbeat opts f env now (count_read n (count_write m con)))
          ≡ report (heartbeat opts f env now con))
        × ((s : Stats F)
            → (report (heartbeat opts f env now con)).0 ≡ some s
            → (s.input ≡ f.of_nat 0) × (s.output ≡ f.of_nat 0))
  unfolding heartbeat send_billing_info billing_command count_read count_write time_out
  heartbeat-counters now n m con = (ground arith, λ s h. ground arith)

  -- A heartbeat closes a contact exactly if it is open and has a token, the server is no guru and the
  -- contact has expired.
  pub heartbeat-ClosedBy :
      (now : ℕ) (con : ContactStruct F)
      → ClosedBy (heartbeat opts f env now con) ↔ (
          (con.closed ≡ false)
          × (con.token ≢ none)
          × (env.is_guru ≡ false)
          × (con.contact_expires < now))
  unfolding heartbeat send_billing_info
  heartbeat-ClosedBy now con = ground (arith, time_out-Closes now con)

  living_lasts :
      (t : ℕ) (con : ContactStruct F)
      → t + 20 * 60 < 2 ^ 32
      → t + 20 * 60 ≤ (living opts f env t true con).contact_expires
  unfolding set_expires
  living_lasts t con fits =
      let whole : (20 * 60 + t) % 2 ^ 32 ≡ t + 20 * 60 = omega arith in ground (arith, whole)

  -- A contact whose packet was pushed is not closed by a heartbeat in the next twenty minutes.
  pub push_keeps_open :
      (t now : ℕ) (ssi : Contact) (p : Packet P) (con con' : ContactStruct F)
      (actions later : List (Action P))
      → push_packet_up_from_bottom opts f env t ssi p con ≡ pushed con' actions later
      → t + 20 * 60 < 2 ^ 32
      → now ≤ t + 20 * 60
      → ¬ ClosedBy (heartbeat opts f env now con')
  unfolding push_packet_up_from_bottom push_packet_up_from_bottom2
  push_keeps_open t now ssi p con con' actions later h fits soon closed =
      let con1 = living opts f env t true con in
      let same : (expect_token opts f env t p con1).0 ≡ con' = ground arith in
      let lasts : t + 20 * 60 ≤ con1.contact_expires = living_lasts t con fits in
      let (_, _, _, over) = (heartbeat-ClosedBy now con').0 closed in
      omega (
        arith,
        ap (λ (x : ContactStruct F). x.contact_expires) same,
        expect_token-expires opts f env t p con1,
        lasts,
        over,
      )
