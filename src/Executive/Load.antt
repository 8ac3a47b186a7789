-- ===== src/Executive/Load.antt =====
-- What the cluster does is possible: neither kind of server is removed altogether, and the aide that
-- is removed is there.
use knotfreeiot.Base.{
  ℕ, suc, ◌+◌, ◌<◌, ◌≡◌, ◌≢◌, ◌⊎◌, refl, sym, ap, ◌∙◌, true, false, List, [], ◌∷◌, length, some,
  ltb, arith, inl, inr, Bool-cases,
}
use knotfreeiot.Billing.{Floats}
use knotfreeiot.Executive.{
  ExecutiveStats, Change, grow, same, shrink, ExpansionDesired, Thresholds, aides_load, gurus_load,
  most_loop, executive_at, name_at, change_of, calc_expansion_desired,
}

-- Numbers, in order; a NaN is none.
pub record IsOrdered {F : Type 0} (f : Floats F) (IsNumber : F → Type 0) : Type 0 where
  pub zero_number : IsNumber (f.of_nat 0)
  pub irreflexive : (a : F) → IsNumber a → f.lt a a ≡ false
  pub asymmetric : (a b : F) → IsNumber a → IsNumber b → f.lt a b ≡ true → f.lt b a ≡ false
  pub transitive :
      (a b c : F)
      → IsNumber a
      → IsNumber b
      → IsNumber c
      → f.lt a b ≡ false
      → f.lt b c ≡ false
      → f.lt a c ≡ false

module _ {F : Type 0} (f : Floats F) (IsNumber : F → Type 0) where
  -- The subscriptions are numbers that are not below zero.
  abbrev pub AllCounted : List (ExecutiveStats F) → Type 0
  AllCounted [] = Unit {0}
  AllCounted (ex ∷ exs) =
      IsNumber ex.contact_stats.subscriptions
      × (f.lt ex.contact_stats.subscriptions (f.of_nat 0) ≡ false)
      × AllCounted exs

  -- No executive of the list has more subscriptions.
  abbrev pub AtMost : F → List (ExecutiveStats F) → Type 0
  AtMost c [] = Unit {0}
  AtMost c (ex ∷ exs) = (f.lt c ex.contact_stats.subscriptions ≡ false) × AtMost c exs

  AtMost-same : (a b : F) (exs : List (ExecutiveStats F)) → a ≡ b → AtMost a exs → AtMost b exs
  AtMost-same a b [] e most = tt
  AtMost-same a b (ex ∷ exs) e (this, most) = (rw (sym e) this, AtMost-same a b exs e most)

  -- A number that none of the list is above, and its place: that of an executive of the list, which
  -- begins at `i`, or what was there before.
  pub record IsMost (exs : List (ExecutiveStats F)) (i index : ℕ) (max : F) (r : F × ℕ)
      : Type 0 where
    pub number : IsNumber r.0
    pub not_below : f.lt r.0 max ≡ false
    pub at_most : AtMost r.0 exs
    pub place :
        ((r.0 ≡ max) × (r.1 ≡ index))
        ⊎ ((k : ℕ) × (ex : ExecutiveStats F) × (r.1 ≡ i + k)
            × (executive_at exs k ≡ some ex)
            × (ex.contact_stats.subscriptions ≡ r.0))

  module _ (order : IsOrdered f IsNumber) where
    AtMost-trans :
        (a b : F) (exs : List (ExecutiveStats F))
        → IsNumber a
        → IsNumber b
        → f.lt a b ≡ false
        → AllCounted exs
        → AtMost b exs
        → AtMost a exs
    AtMost-trans a b [] na nb le counted most = tt
    AtMost-trans a b (ex ∷ exs) na nb le (n, c, counted) (this, most) =
        (order.transitive a b _ na nb n le this, AtMost-trans a b exs na nb le counted most)

    most_loop-IsMost :
        (exs : List (ExecutiveStats F)) (i index : ℕ) (max : F)
        → IsNumber max
        → AllCounted exs
        → IsMost exs i index max (most_loop f exs i max index)
    unfolding most_loop executive_at
    most_loop-IsMost [] i index max nm counted = record {
      number = nm;
      not_below = order.irreflexive max nm;
      at_most = tt;
      place = inl (refl, refl);
    }
    most_loop-IsMost (ex ∷ exs) i index max nm (n, positive, counted) =
        let c = ex.contact_stats.subscriptions in
        elim (Bool-cases (f.lt max c)) [
          | inl more ↦
              let ih = most_loop-IsMost exs (i + 1) i c n counted in
              rw (more, most_loop)
                (record {
                  number = ih.number;
                  not_below =
                      order.transitive _ c max ih.number n nm ih.not_below
                        (order.asymmetric max c nm n more);
                  at_most = (ih.not_below, ih.at_most);
                  place = elim ih.place [
                    | inl (is_c, at_i) ↦ inr (0, ex, omega (arith, at_i), refl, sym is_c)
                    | inr (k, other, at_k, there, is_other) ↦
                        inr (suc k, other, omega (arith, at_k), there, is_other)
                  ];
                })
          | inr less ↦
              let ih = most_loop-IsMost exs (i + 1) index max nm counted in
              rw (less, most_loop)
                (record {
                  number = ih.number;
                  not_below = ih.not_below;
                  at_most = (order.transitive _ max c ih.number nm n ih.not_below less, ih.at_most);
                  place = elim ih.place [
                    | inl kept ↦ inl kept
                    | inr (k, other, at_k, there, is_other) ↦
                        inr (suc k, other, omega (arith, at_k), there, is_other)
                  ];
                })
        ]

    most_subscribed :
        (exs : List (ExecutiveStats F))
        → 1 < length exs
        → AllCounted exs
        → (ex : ExecutiveStats F) × (executive_at exs (most_loop f exs 0 (f.of_nat 0) 0).1
            ≡ some ex)
          × AtMost ex.contact_stats.subscriptions exs
    unfolding executive_at
    most_subscribed [] some_more counted = absurd (omega arith)
    most_subscribed (ex ∷ exs) some_more counted =
        let (n, positive, others) = counted in
        let zero_number = order.zero_number in
        let ended = most_loop-IsMost (ex ∷ exs) 0 0 (f.of_nat 0) zero_number counted in
        elim ended.place [
          | inl (is_zero, at_first) ↦ (
            ex,
            rw at_first refl,
            AtMost-trans _ (f.of_nat 0) (ex ∷ exs) n zero_number positive counted
                (AtMost-same _ (f.of_nat 0) (ex ∷ exs) is_zero ended.at_most),
          )
          | inr (k, other, at_k, there, is_other) ↦
              let found_at : (most_loop f (ex ∷ exs) 0 (f.of_nat 0) 0).1 ≡ k =
                omega (arith, at_k) in
              (
                other,
                ap (executive_at (ex ∷ exs)) found_at ∙ there,
                AtMost-same _ _ (ex ∷ exs) (sym is_other) ended.at_most,
              )
        ]

Change-cases : (c : Change) → (c ≡ shrink) ⊎ ((c ≡ grow) ⊎ (c ≡ same))
Change-cases grow = inr (inl refl)
Change-cases same = inr (inr refl)
Change-cases shrink = inl refl

grow-apart : grow ≢ shrink
grow-apart e = cc e

same-apart : same ≢ shrink
same-apart e = cc e

module _ {F : Type 0} (f : Floats F) (t : Thresholds F) where
  change_of-shrink : (max : F) (count : ℕ) → change_of f t max count ≡ shrink → 1 < count
  unfolding change_of
  change_of-shrink max count e = ground (arith, e, grow-apart, same-apart)

  change_of-cases : (max : F) (count : ℕ) → (change_of f t max count ≢ shrink) ⊎ (1 < count)
  change_of-cases max count = elim (Bool-cases (ltb 1 count)) [
    | inl more ↦ inr (ground arith)
    | inr few ↦ inl (λ e. ground (arith, few, change_of-shrink max count e))
  ]

  -- Where the subscriptions of the aides are numbers that are not below zero, there is always a
  -- result. Either no aide is to be removed and none is named, or there are two aides at least and
  -- the name is that of one that no other has more subscriptions than. A guru is removed only where
  -- there are two at least.
  pub calc_expansion_desired-cases :
      (IsNumber : F → Type 0) (aides gurus : List (ExecutiveStats F))
      → IsOrdered f IsNumber
      → AllCounted f IsNumber aides
      → (r : ExpansionDesired) × (calc_expansion_desired f t aides gurus ≡ some r)
        × (((r.change_aides ≢ shrink) × (r.remove_aide ≡ []))
            ⊎ ((r.change_aides ≡ shrink)
                × (1 < length aides)
                × (k : ℕ) × (ex : ExecutiveStats F) × (executive_at aides k ≡ some ex)
                × (ex.name ≡ r.remove_aide)
                × AtMost f IsNumber ex.contact_stats.subscriptions aides))
        × ((r.change_gurus ≢ shrink) ⊎ (1 < length gurus))
  unfolding calc_expansion_desired name_at
  calc_expansion_desired-cases IsNumber aides gurus order counted =
      let gurus_change = change_of f t (gurus_load f gurus) (length gurus) in
      let two_gurus = change_of-cases (gurus_load f gurus) (length gurus) in
      elim (Change-cases (change_of f t (aides_load f aides) (length aides))) [
        | inl shrinks ↦
            let two_aides = change_of-shrink (aides_load f aides) (length aides) shrinks in
            let (ex, there, most) = most_subscribed f IsNumber order aides two_aides counted in
            (
              record { change_aides = shrink; remove_aide = ex.name; change_gurus = gurus_change },
              rw (calc_expansion_desired, shrinks, name_at, there) refl,
              inr (refl, two_aides, _, ex, there, refl, most),
              two_gurus,
            )
        | inr (inl grows) ↦ (
          record { change_aides = grow; remove_aide = []; change_gurus = gurus_change },
          rw (calc_expansion_desired, grows) refl,
          inl (grow-apart, refl),
          two_gurus,
        )
        | inr (inr stays) ↦ (
          record { change_aides = same; remove_aide = []; change_gurus = gurus_change },
          rw (calc_expansion_desired, stays) refl,
          inl (same-apart, refl),
          two_gurus,
        )
      ]
