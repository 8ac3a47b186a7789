-- ===== src/ContactStruct/Keys.antt =====
-- `AddContactStruct` and `DoClosingWork` of iot/contacts.go: the keys of the contacts and the list of
-- those that are open.
pub mod Distinct
use knotfreeiot.Base.{
  ℕ, zero, suc, ◌+◌, ◌-◌, ◌*◌, ◌/◌, ◌%◌, ◌^◌, ◌<◌, ◌≤◌, ◌≡◌, ◌≢◌, refl, Bytes, Bool, true, false,
  List, [], ◌∷◌, ◌++◌, Option, none, some, length, ◌==◌, if◌then◌else◌, arith,
}
use knotfreeiot.Billing.{add32}
use knotfreeiot.ContactStruct.{ContactStruct}

-- `ContactStructConfig`: its own key, the number of the next contact, the list of open contacts.
pub record Config (F : Type 0) : Type 0 where
  pub key : ℕ
  pub sequence : ℕ
  pub list_of_ci : List (ContactStruct F)

-- A key that is 0 is not set yet.
unfoldable pub next_key : {F : Type 0} → Config F → ContactStruct F → ℕ
next_key config con = if con.key == 0 then (config.sequence + config.key) % 2 ^ 64 else con.key

-- `AddContactStruct`, up to the start of the loop over commands.
unfoldable pub add_contact_struct :
    {F : Type 0} → ℕ → Config F → ContactStruct F → Config F × ContactStruct F
unfolding next_key
add_contact_struct now config con =
    let con' = record con {
      key = next_key config con;
      contact_expires = add32 (20 * 60) now;
      next_billing_time = add32 now 30;
      last_billing_time = now;
    } in
    (
      record config {
        sequence = if con.key == 0 then (config.sequence + 1) % 2 ^ 64 else config.sequence;
        list_of_ci = config.list_of_ci ++ con' ∷ [];
      },
      con',
    )

-- `DoClosingWork` takes the contact out of the list; here by its key.
unfoldable pub remove_contact : {F : Type 0} → ℕ → List (ContactStruct F) → List (ContactStruct F)
remove_contact key [] = []
remove_contact key (con ∷ rest) =
    let others = remove_contact key rest in if con.key == key then rest else con ∷ others

unfoldable pub do_closing_work : {F : Type 0} → ContactStruct F → Config F → Config F
do_closing_work con config = record config { list_of_ci = remove_contact con.key config.list_of_ci }

-- `GetSequence`
unfoldable pub get_sequence : {F : Type 0} → Config F → ContactStruct F → ℕ
get_sequence config con = (con.key + 2 ^ 64 - config.key) % 2 ^ 64 / 13

-- What happens at a server: a connection is made, or one of the contacts is closed.
pub data ConnectionEvent (F : Type 0) : Type 0 where
  opened : ℕ → ContactStruct F → ConnectionEvent F
  shut : ContactStruct F → ConnectionEvent F

unfoldable pub run : {F : Type 0} → List (ConnectionEvent F) → Config F → Config F
run [] config = config
run (opened now con ∷ more) config = run more (add_contact_struct now config con).0
run (shut con ∷ more) config = run more (do_closing_work con config)
