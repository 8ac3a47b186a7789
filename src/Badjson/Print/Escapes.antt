-- ===== src/Badjson/Print/Escapes.antt =====
-- What is escaped is found again.
use knotfreeiot.Base.{ℕ, ◌≡◌, refl, false, List, [], ◌∷◌, ◌==◌, Bool-cases, inl, inr, arith}
use knotfreeiot.Badjson.Print.{make_escaped, unescape_from, make_unescaped}

-- Escaping any runes and unescaping them for the quote `"` gives the runes again.
pub make_unescaped-make_escaped : (rs : List ℕ) → make_unescaped (make_escaped rs) b'"' ≡ rs
unfolding make_escaped unescape_from make_unescaped
make_unescaped-make_escaped [] = refl
make_unescaped-make_escaped (r ∷ rs) =
    let rest : unescape_from b'"' false (make_escaped rs) ≡ rs = make_unescaped-make_escaped rs in
    elim (Bool-cases (r == b'\\')) [
      | inl slash ↦ rw slash (ground (arith, rest))
      | inr other ↦ elim (Bool-cases (r == b'"')) [
        | inl quote ↦ rw other (rw quote (ground (arith, rest)))
        | inr plain ↦ rw other (rw plain (ground (arith, rest)))
      ]
    ]
