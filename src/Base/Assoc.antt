-- ===== src/Base/Assoc.antt =====
-- An association list meets the interface of the ordered map. Runs use it in the place of the
-- container package.
use knotfreeiot.Base.Tests.{if◌then◌else◌}
use knotfreeiot.Base.Lists.{length}
use knotfreeiot.Base.Keys.{Eq, TreeMap, lookup, without, Distinct, lookup-without, without-Distinct}
use mathlib.Core.Path.{◌≡◌, refl}
use mathlib.Core.List.{List, [], ◌∷◌}
use mathlib.Core.Option.{some}
use native.Mathlib.Omega.{arith}

module _ {K V : Type 0} ⦃e : Eq K⦄ where
  -- A later write stands in front; only the first entry of a key counts.
  abbrev pub entries : List (K × V) → List (K × V)
  entries [] = []
  entries ((k, v) ∷ l) = (k, v) ∷ without k (entries l)

  pub entries-Distinct : (l : List (K × V)) → Distinct (entries l)
  entries-Distinct [] = tt
  entries-Distinct ((k, v) ∷ l) = (
    ground (arith, lookup-without k k (entries l), e.beq_iff k k),
    without-Distinct k (entries l) (entries-Distinct l),
  )

  pub lookup-entries : (k : K) (l : List (K × V)) → lookup k l ≡ lookup k (entries l)
  lookup-entries k [] = refl
  lookup-entries k ((j, v) ∷ l) = ground (arith, lookup-entries k l, lookup-without j k (entries l))

  pub get-put :
      (k j : K) (v : V) (l : List (K × V))
      → lookup j ((k, v) ∷ l) ≡ (if e.beq k j then some v else lookup j l)
  get-put k j v l = refl

  abbrev pub assoc_map : TreeMap (List (K × V)) K V
  assoc_map = record {
    empty = [];
    put = λ k v l. (k, v) ∷ l;
    get = lookup;
    remove = without;
    size = λ l. length (entries l);
    entries = entries;
    get_empty = λ k. refl;
    get_put = get-put;
    get_remove = lookup-without;
    get_entries = lookup-entries;
    entries_once = entries-Distinct;
    size_entries = λ l. refl;
  }
