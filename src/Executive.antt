-- ===== src/Executive.antt =====
-- `CalcExpansionDesired` of iot/executive.go: do the aides and the gurus of a cluster become more or
-- fewer, and which aide is removed.
pub mod Load
mod Tests
use knotfreeiot.Base.{
  ℕ, zero, suc, ◌+◌, ◌-◌, Bytes, Bool, true, false, List, [], ◌∷◌, length, Option, none, some, ltb,
  if◌then◌else◌,
}
use knotfreeiot.Billing.{Floats, Stats}

-- An int64 that is printed only, the memory, is a number here.
pub record ExecutiveStats (F : Type 0) : Type 0 where
  pub contact_stats : Stats F
  pub buffers : F
  pub name : Bytes
  pub http_address : Bytes
  pub tcp_address : Bytes
  pub is_guru : Bool
  pub memory : ℕ
  pub open_connections : ℕ
  pub limits : Option (Stats F)

-- +1, 0 and -1
pub data Change : Type 0 where
  grow : Change
  same : Change
  shrink : Change

pub record ExpansionDesired : Type 0 where
  pub change_aides : Change
  pub remove_aide : Bytes
  pub change_gurus : Change

-- The constants 0.9 and 0.80, and `>=`, which is not the negation of `<` on a NaN.
pub record Thresholds (F : Type 0) : Type 0 where
  pub nine_tenths : F
  pub eight_tenths : F
  pub ge : F → F → Bool

unfoldable pub executive_at : {F : Type 0} → List (ExecutiveStats F) → ℕ → Option (ExecutiveStats F)
executive_at [] i = none
executive_at (ex ∷ aides) zero = some ex
executive_at (ex ∷ aides) (suc i) = executive_at aides i

-- `aides[i].Name`
unfoldable pub name_at : {F : Type 0} → List (ExecutiveStats F) → ℕ → Option Bytes
name_at aides i = elim (executive_at aides i) [ none ↦ none | some ex ↦ some ex.name ]

module _ {F : Type 0} (f : Floats F) where
  -- The loop over the aides adds up buffers and connections, and the one over the gurus subscriptions
  -- and buffers; the sum of the connections of the gurus has no use.
  unfoldable pub aides_loop : List (ExecutiveStats F) → F → F → F × F
  aides_loop [] buffers contacts = (buffers, contacts)
  aides_loop (ex ∷ aides) buffers contacts =
      aides_loop aides (f.add buffers ex.buffers) (f.add contacts ex.contact_stats.connections)

  unfoldable pub gurus_loop : List (ExecutiveStats F) → F → F → F × F
  gurus_loop [] subs buffers = (subs, buffers)
  gurus_loop (ex ∷ gurus) subs buffers =
      gurus_loop gurus (f.add subs ex.contact_stats.subscriptions) (f.add buffers ex.buffers)

  abbrev pub average : F → List (ExecutiveStats F) → F
  average total exs = f.div total (f.of_nat (length exs))

  abbrev pub larger : F → F → F
  larger max x = if f.lt max x then x else max

  unfoldable pub aides_load : List (ExecutiveStats F) → F
  aides_load aides =
      let (buffers, contacts) = aides_loop aides (f.of_nat 0) (f.of_nat 0) in
      larger (larger (average (f.of_nat 0) aides) (average buffers aides)) (average contacts aides)

  unfoldable pub gurus_load : List (ExecutiveStats F) → F
  gurus_load gurus =
      let (subs, buffers) = gurus_loop gurus (f.of_nat 0) (f.of_nat 0) in
      larger (average subs gurus) (average buffers gurus)

  -- The loop for the index of the aide with most subscriptions.
  unfoldable pub most_loop : List (ExecutiveStats F) → ℕ → F → ℕ → F × ℕ
  most_loop [] i max index = (max, index)
  most_loop (ex ∷ aides) i max index =
      let c = ex.contact_stats.subscriptions in
      if f.lt max c then most_loop aides (i + 1) c i else most_loop aides (i + 1) max index

  module _ (t : Thresholds F) where
    unfoldable pub change_of : F → ℕ → Change
    change_of max count =
        if t.ge max t.nine_tenths
        then grow
        else if ltb 1 count
        then (if f.lt (f.div (f.mul max (f.of_nat count)) (f.of_nat (count - 1))) t.eight_tenths
            then shrink
            else same)
        else same

    -- `none` is an index out of range.
    unfoldable pub calc_expansion_desired :
        List (ExecutiveStats F) → List (ExecutiveStats F) → Option ExpansionDesired
    calc_expansion_desired aides gurus =
        let change_gurus = change_of (gurus_load gurus) (length gurus) in
        elim (change_of (aides_load aides) (length aides)) [
          | grow ↦
              some (record { change_aides = grow; remove_aide = []; change_gurus = change_gurus })
          | same ↦
              some (record { change_aides = same; remove_aide = []; change_gurus = change_gurus })
          | shrink ↦ elim (name_at aides (most_loop aides 0 (f.of_nat 0) 0).1) [
            | none ↦ none
            | some name ↦
                some (record {
                  change_aides = shrink;
                  remove_aide = name;
                  change_gurus = change_gurus;
                })
          ]
        ]
