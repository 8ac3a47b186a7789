-- ===== src/Base/Keys.antt =====
-- Keys with a Boolean equality, and the ordered map of the container package that the program
-- calls for packet options and for the watchers of a topic.
use mathlib.Core.Path.{◌≡◌}
use mathlib.Core.Logic.{◌↔◌}
use mathlib.Core.Bool.{Bool, true, false, ◌&&◌}
use mathlib.Core.List.{List, [], ◌∷◌}
use mathlib.Core.Option.{Option, none, some}
use Prim.Native.Nat.{ℕ}
use native.Mathlib.Omega.{arith}
use knotfreeiot.Base.Tests.{if◌then◌else◌, ◌==◌, ==_iff}
use knotfreeiot.Base.Lists.{Bytes, length}

pub record Eq (K : Type 0) : Type 0 where
  pub beq : K → K → Bool
  pub beq_iff : (a b : K) → (beq a b ≡ true) ↔ (a ≡ b)

instance abbrev pub nat_eq : Eq ℕ
nat_eq = record { beq = ◌==◌; beq_iff = ==_iff }

unfoldable pub bytes_beq : Bytes → Bytes → Bool
bytes_beq [] [] = true
bytes_beq (x ∷ xs) (y ∷ ys) = x == y && bytes_beq xs ys
bytes_beq _ _ = false

pub bytes_beq_iff : (a b : Bytes) → (bytes_beq a b ≡ true) ↔ (a ≡ b)
unfolding bytes_beq
bytes_beq_iff (x ∷ a) (y ∷ b) = ground (arith, bytes_beq_iff a b)
bytes_beq_iff _ _ = ground arith

instance abbrev pub bytes_eq : Eq Bytes
bytes_eq = record { beq = bytes_beq; beq_iff = bytes_beq_iff }

module _ {K V : Type 0} ⦃e : Eq K⦄ where
  abbrev pub lookup : K → List (K × V) → Option V
  lookup k [] = none
  lookup k ((j, v) ∷ l) = if e.beq j k then some v else lookup k l

  abbrev pub without : K → List (K × V) → List (K × V)
  without k [] = []
  without k ((j, v) ∷ l) = let rest = without k l in if e.beq j k then rest else (j, v) ∷ rest

  -- No key stands twice.
  abbrev pub Distinct : List (K × V) → Type 0
  Distinct [] = Unit {0}
  Distinct ((k, v) ∷ l) = (lookup k l ≡ none) × Distinct l

  pub lookup-without :
      (k j : K) (l : List (K × V))
      → lookup j (without k l) ≡ (if e.beq k j then none else lookup j l)
  lookup-without k j [] = ground arith
  lookup-without k j ((i, v) ∷ l) =
      ground (arith, lookup-without k j l, e.beq_iff i k, e.beq_iff i j, e.beq_iff k j)

  pub without-Distinct : (k : K) (l : List (K × V)) → Distinct l → Distinct (without k l)
  without-Distinct k [] h = h
  without-Distinct k ((i, v) ∷ l) h =
      ground (arith, lookup-without k i l, without-Distinct k l, e.beq_iff i k, e.beq_iff k i)

-- github.com/emirpasic/gods/trees/redblacktree, as far as the program relies on it: the entries in
-- the order of its iterator, each key once, and what each operation does to them.
pub record TreeMap (T K V : Type 0) ⦃e : Eq K⦄ : Type 0 where
  pub empty : T
  pub put : K → V → T → T
  pub get : K → T → Option V
  pub remove : K → T → T
  pub size : T → ℕ
  pub entries : T → List (K × V)
  pub get_empty : (k : K) → get k empty ≡ none
  pub get_put :
      (k j : K) (v : V) (t : T) → get j (put k v t) ≡ (if e.beq k j then some v else get j t)
  pub get_remove : (k j : K) (t : T) → get j (remove k t) ≡ (if e.beq k j then none else get j t)
  pub get_entries : (k : K) (t : T) → get k t ≡ lookup k (entries t)
  pub entries_once : (t : T) → Distinct (entries t)
  pub size_entries : (t : T) → size t ≡ length (entries t)
