-- ===== src/ContactStruct/Keys/Distinct.antt =====
-- The keys of the contacts that are open.
use knotfreeiot.Base.{
  ℕ, suc, ◌+◌, ◌-◌, ◌/◌, ◌%◌, ◌^◌, ◌<◌, ◌≤◌, ◌≡◌, ◌≢◌, refl, sym, ap, ◌∙◌, Bool-cases, inl, inr,
  List, [], ◌∷◌, ◌++◌, ◌==◌, arith,
}
use knotfreeiot.ContactStruct.{ContactStruct}
use knotfreeiot.ContactStruct.Keys.{
  Config, next_key, add_contact_struct, remove_contact, do_closing_work, get_sequence,
  ConnectionEvent, opened, shut, run,
}

-- No two contacts of a list have the same key.
abbrev pub IsNewKey : {F : Type 0} → ℕ → List (ContactStruct F) → Type 0
IsNewKey key [] = Unit {0}
IsNewKey key (con ∷ l) = (key ≢ con.key) × IsNewKey key l

abbrev pub AllDifferent : {F : Type 0} → List (ContactStruct F) → Type 0
AllDifferent [] = Unit {0}
AllDifferent (con ∷ l) = IsNewKey con.key l × AllDifferent l

-- Every connection starts with the key 0.
abbrev pub AllFresh : {F : Type 0} → List (ConnectionEvent F) → Type 0
AllFresh [] = Unit {0}
AllFresh (opened now con ∷ l) = (con.key ≡ 0) × AllFresh l
AllFresh (shut con ∷ l) = AllFresh l

unfoldable pub openings : {F : Type 0} → List (ConnectionEvent F) → ℕ
openings [] = 0
openings (opened now con ∷ l) = suc (openings l)
openings (shut con ∷ l) = openings l

-- Every key is one of the first n from base on.
abbrev AllBelow : {F : Type 0} → ℕ → ℕ → List (ContactStruct F) → Type 0
AllBelow base n [] = Unit {0}
AllBelow base n (con ∷ l) =
    ((k : ℕ) × (k < n) × (con.key ≡ (base + k) % 2 ^ 64)) × AllBelow base n l

module _ {F : Type 0} where
  add_later :
      (base n : ℕ) (l : List (ContactStruct F)) (con : ContactStruct F)
      → con.key ≡ (base + n) % 2 ^ 64
      → AllBelow base n l
      → AllBelow base (suc n) (l ++ con ∷ [])
  add_later base n [] con key below = ((n, omega arith, key), tt)
  add_later base n (con' ∷ l) con key ((k, lt, e), below) =
      ((k, omega arith, e), add_later base n l con key below)

  add_last :
      (key : ℕ) (l : List (ContactStruct F)) (con : ContactStruct F)
      → key ≢ con.key
      → IsNewKey key l
      → IsNewKey key (l ++ con ∷ [])
  add_last key [] con ne new = (ne, tt)
  add_last key (con' ∷ l) con ne (ne', new) = (ne', add_last key l con ne new)

  add-AllDifferent :
      (base n : ℕ) (l : List (ContactStruct F)) (con : ContactStruct F)
      → con.key ≡ (base + n) % 2 ^ 64
      → n < 2 ^ 64
      → AllBelow base n l
      → AllDifferent l
      → AllDifferent (l ++ con ∷ [])
  add-AllDifferent base n [] con key fits below different = (tt, tt)
  add-AllDifferent base n (con' ∷ l) con key fits ((k, lt, e), below) (new, different) = (
    add_last con'.key l con (λ same. omega (arith, same, key, e, lt, fits)) new,
    add-AllDifferent base n l con key fits below different,
  )

  remove-IsNewKey :
      (key gone : ℕ) (l : List (ContactStruct F))
      → IsNewKey key l
      → IsNewKey key (remove_contact gone l)
  unfolding remove_contact
  remove-IsNewKey key gone [] new = tt
  remove-IsNewKey key gone (con ∷ l) (ne, new) = elim (Bool-cases (con.key == gone)) [
    | inl g ↦ rw (g, remove_contact) new
    | inr g ↦ rw (g, remove_contact) (ne, remove-IsNewKey key gone l new)
  ]

  remove-AllDifferent :
      (gone : ℕ) (l : List (ContactStruct F))
      → AllDifferent l
      → AllDifferent (remove_contact gone l)
  unfolding remove_contact
  remove-AllDifferent gone [] different = tt
  remove-AllDifferent gone (con ∷ l) (new, different) = elim (Bool-cases (con.key == gone)) [
    | inl g ↦ rw (g, remove_contact) different
    | inr g ↦
        rw (g, remove_contact)
          (remove-IsNewKey con.key gone l new, remove-AllDifferent gone l different)
  ]

  remove-AllBelow :
      (base n gone : ℕ) (l : List (ContactStruct F))
      → AllBelow base n l
      → AllBelow base n (remove_contact gone l)
  unfolding remove_contact
  remove-AllBelow base n gone [] below = tt
  remove-AllBelow base n gone (con ∷ l) (one, below) = elim (Bool-cases (con.key == gone)) [
    | inl g ↦ rw (g, remove_contact) below
    | inr g ↦ rw (g, remove_contact) (one, remove-AllBelow base n gone l below)
  ]

  next_key-fresh :
      (config : Config F) (con : ContactStruct F)
      → con.key ≡ 0
      → next_key config con ≡ (config.sequence + config.key) % 2 ^ 64
  unfolding next_key
  next_key-fresh config con fresh = ground arith

  run-lem :
      (base n : ℕ) (events : List (ConnectionEvent F)) (config : Config F)
      → AllFresh events
      → n + openings events ≤ 2 ^ 64
      → (base + n) % 2 ^ 64 ≡ (config.sequence + config.key) % 2 ^ 64
      → AllBelow base n config.list_of_ci
      → AllDifferent config.list_of_ci
      → AllDifferent (run events config).list_of_ci
  unfolding run openings add_contact_struct do_closing_work
  run-lem base n [] config fresh fits at below different = different
  run-lem base n (shut con ∷ more) config fresh fits at below different =
      run-lem base n more (do_closing_work con config) fresh fits at
        (remove-AllBelow base n con.key config.list_of_ci below)
        (remove-AllDifferent con.key config.list_of_ci different)
  run-lem base n (opened now con ∷ more) config (zero_key, fresh) fits at below different =
      let next = add_contact_struct now config con in
      let key : next.1.key ≡ (base + n) % 2 ^ 64 = next_key-fresh config con zero_key ∙ sym at in
      let following : next.0.sequence ≡ (config.sequence + 1) % 2 ^ 64 = rw zero_key refl in
      run-lem base (suc n) more next.0 fresh (omega arith) (omega (arith, at, following))
        (add_later base n config.list_of_ci next.1 key below)
        (add-AllDifferent base n config.list_of_ci next.1 key (omega arith) below different)

  -- Whatever connections a server makes and closes, no two contacts that are open have the same key.
  -- This is where every connection starts with the key 0, at first none is there, and at most 2^64
  -- connections are made.
  pub run-AllDifferent :
      (events : List (ConnectionEvent F)) (config : Config F)
      → config.list_of_ci ≡ []
      → AllFresh events
      → openings events ≤ 2 ^ 64
      → AllDifferent (run events config).list_of_ci
  run-AllDifferent events config start fresh fits =
      run-lem (config.sequence + config.key) 0 events config fresh (omega arith) (omega arith)
        (rw start tt) (rw start tt)

  -- The sequence number that is read off a key that was just given is a thirteenth of the real one.
  pub get_sequence-add :
      (now : ℕ) (config : Config F) (con : ContactStruct F)
      → con.key ≡ 0
      → config.sequence < 2 ^ 64
      → config.key < 2 ^ 64
      → get_sequence config (add_contact_struct now config con).1 ≡ config.sequence / 13
  unfolding get_sequence add_contact_struct
  get_sequence-add now config con fresh small fits =
      let back : (next_key config con + 2 ^ 64 - config.key) % 2 ^ 64 ≡ config.sequence =
        omega (arith, next_key-fresh config con fresh) in
      ap (λ (k : ℕ). k / 13) back
