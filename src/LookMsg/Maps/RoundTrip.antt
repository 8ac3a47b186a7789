-- ===== src/LookMsg/Maps/RoundTrip.antt =====
-- What `MapToString` writes, `StringToMap` reads.
use knotfreeiot.Base.{
  suc, ◌-◌, ◌≡◌, refl, ap, ◌∙◌, Bytes, false, List, [], ◌∷◌, ◌++◌, append_assoc, Option, none, some,
  length, length-append, take-length_append, ◌==◌, Bool-cases, inl, inr, ascii, arith,
}
use knotfreeiot.Base.Keys.{
  bytes_eq, bytes_beq_iff, lookup, without, Distinct, lookup-without, without-Distinct,
}
use knotfreeiot.Packets.Options.{flat}
use knotfreeiot.LookMsg.Maps.{
  GoMap, assign, pairs_loop, entries_map, split, string_to_map, written, map_to_string,
}
use knotfreeiot.LookMsg.Maps.Split.{
  IsWord, AllWords, joined, split-joined, Trims, joined-BeginsGraphic, joined-EndsGraphic,
}

-- Keys and values are words.
abbrev pub IsPlainMap : GoMap → Type 0
IsPlainMap [] = Unit {0}
IsPlainMap ((k, v) ∷ m) = IsWord k × IsWord v × IsPlainMap m

abbrev assign_all : GoMap → GoMap → GoMap
assign_all [] acc = acc
assign_all ((k, v) ∷ m) acc = assign_all m (assign k v acc)

pairs_loop-flat : (m acc : GoMap) → pairs_loop (flat m) acc ≡ some (assign_all m acc)
unfolding pairs_loop
pairs_loop-flat [] acc = refl
pairs_loop-flat ((k, v) ∷ m) acc = pairs_loop-flat m (assign k v acc)

or_else : Option Bytes → Option Bytes → Option Bytes
or_else none o = o
or_else (some v) o = some v

lookup-assign_all :
    (j : Bytes) (m acc : GoMap)
    → Distinct m
    → lookup j (assign_all m acc) ≡ or_else (lookup j m) (lookup j acc)
unfolding or_else
lookup-assign_all j [] acc d = refl
lookup-assign_all j ((k, v) ∷ m) acc (fresh, d) =
    ground
      (arith, lookup-assign_all j m (assign k v acc) d, lookup-without k j acc, bytes_beq_iff k j)

IsPlainMap-AllWords : (m : GoMap) → IsPlainMap m → AllWords (flat m)
IsPlainMap-AllWords [] h = tt
IsPlainMap-AllWords ((k, v) ∷ m) (hk, hv, h) = (hk, (hv, IsPlainMap-AllWords m h))

written-joined :
    (k v : Bytes) (m : GoMap) → written ((k, v) ∷ m) ≡ joined (flat ((k, v) ∷ m)) ++ b' ' ∷ []
unfolding written
written-joined k v [] = rw append_assoc refl
written-joined k v ((j, w) ∷ m) = rw (written-joined j w m) (simp append_assoc)

-- A map that is not empty is written as its entries with single spaces.
pub map_to_string-joined :
    (k v : Bytes) (m : GoMap) → map_to_string ((k, v) ∷ m) ≡ some (joined (flat ((k, v) ∷ m)))
unfolding map_to_string
map_to_string-joined k v m =
    let text = joined (flat ((k, v) ∷ m)) in
    let more : length (text ++ b' ' ∷ []) ≡ suc (length text) =
      omega (arith, length-append text (b' ' ∷ [])) in
    let less : suc (length text) - 1 ≡ length text = omega arith in
    let test : (suc (length text) == 0) ≡ false = ground arith in
    rw (written-joined k v m)
      (rw more (rw test (rw less (ap some (take-length_append text (b' ' ∷ []))))))

-- Without a key a map stays plain.
pub without-IsPlainMap : (k : Bytes) (m : GoMap) → IsPlainMap m → IsPlainMap (without k m)
without-IsPlainMap k [] h = tt
without-IsPlainMap k ((j, v) ∷ m) (hj, hv, h) = ground (arith, without-IsPlainMap k m h)

assign_all-IsPlainMap :
    (m acc : GoMap) → IsPlainMap m → IsPlainMap acc → IsPlainMap (assign_all m acc)
assign_all-IsPlainMap [] acc h ha = ha
assign_all-IsPlainMap ((k, v) ∷ m) acc (hk, hv, h) ha =
    assign_all-IsPlainMap m (assign k v acc) h (hk, hv, without-IsPlainMap k acc ha)

-- No key stands twice in a map that is changed at one key.
pub assign-Distinct : (k v : Bytes) (m : GoMap) → Distinct m → Distinct (assign k v m)
assign-Distinct k v m d =
    (ground (arith, lookup-without k k m, bytes_beq_iff k k), without-Distinct k m d)

pairs_loop-Distinct :
    (entries : List Bytes) (acc m : GoMap)
    → Distinct acc
    → pairs_loop entries acc ≡ some m
    → Distinct m
unfolding pairs_loop
pairs_loop-Distinct [] acc m d e = let one : acc ≡ m = cc in rw (← one) d
pairs_loop-Distinct (key ∷ []) acc m d e = absurd (cc)
pairs_loop-Distinct (key ∷ val ∷ rest) acc m d e =
    pairs_loop-Distinct rest (assign key val acc) m (assign-Distinct key val acc d) e

entries_map-Distinct :
    (entries : List Bytes) (m : GoMap) → entries_map entries ≡ some m → Distinct m
unfolding entries_map
entries_map-Distinct (entry ∷ []) m e =
    let one : assign (ascii "@") entry [] ≡ m = cc in rw (← one) (refl, tt)
entries_map-Distinct [] m e = pairs_loop-Distinct [] [] m tt e
entries_map-Distinct (key ∷ val ∷ rest) m e = pairs_loop-Distinct (key ∷ val ∷ rest) [] m tt e

-- Whatever the text, no key stands twice in the map that is read.
pub string_to_map-Distinct :
    (trim_space : Bytes → Bytes) (text : Bytes) (m : GoMap)
    → string_to_map trim_space text ≡ some m
    → Distinct m
unfolding string_to_map
string_to_map-Distinct trim_space text m e = elim (Bool-cases (length (trim_space text) == 0)) [
  | inl empty ↦ let one : [] ≡ m = cc (rw empty at e) in rw (← one) tt
  | inr more ↦ entries_map-Distinct (split (trim_space text) b' ') m (rw more at e)
]

joined_size : (w : Bytes) (ws : List Bytes) → IsWord w → (length (joined (w ∷ ws)) == 0) ≡ false
joined_size [] ws h = absurd h
joined_size (b ∷ w) [] h = ground arith
joined_size (b ∷ w) (v ∷ ws) h = ground arith

or_else-none : (o : Option Bytes) → or_else o none ≡ o
unfolding or_else
or_else-none none = refl
or_else-none (some v) = refl

-- The words of a map, in turn keys and values, are read as the map.
string_to_map-flat :
    (trim_space : Bytes → Bytes) (k v : Bytes) (m : GoMap)
    → Trims trim_space
    → IsPlainMap ((k, v) ∷ m)
    → string_to_map trim_space (joined (flat ((k, v) ∷ m))) ≡ some (assign_all ((k, v) ∷ m) [])
unfolding string_to_map entries_map
string_to_map-flat trim_space k v m trims (hk, hv, h) =
    let text = joined (flat ((k, v) ∷ m)) in
    let words : AllWords (v ∷ flat m) = (hv, IsPlainMap-AllWords m h) in
    let kept : trim_space text ≡ text =
      trims.keeps text (joined-BeginsGraphic k (v ∷ flat m) hk)
        (joined-EndsGraphic k (v ∷ flat m) hk words) in
    rw kept (
      rw (joined_size k (v ∷ flat m) hk)
        (rw (split-joined k (v ∷ flat m) hk words) (pairs_loop-flat ((k, v) ∷ m) [])))

-- A map that is not empty, whose keys and values are words and whose keys differ, is read back from
-- what is written, in whatever order its entries are written: every key has its value again, and
-- there is no other. All are words again.
pub string_to_map-map_to_string :
    (trim_space : Bytes → Bytes) (k v : Bytes) (m : GoMap)
    → Trims trim_space
    → Distinct ((k, v) ∷ m)
    → IsPlainMap ((k, v) ∷ m)
    → (text : Bytes) × (map_to_string ((k, v) ∷ m) ≡ some text)
      × (m' : GoMap) × (string_to_map trim_space text ≡ some m')
      × IsPlainMap m'
      × ((j : Bytes) → lookup j m' ≡ lookup j ((k, v) ∷ m))
string_to_map-map_to_string trim_space k v m trims d h = (
  joined (flat ((k, v) ∷ m)),
  map_to_string-joined k v m,
  assign_all ((k, v) ∷ m) [],
  string_to_map-flat trim_space k v m trims h,
  assign_all-IsPlainMap ((k, v) ∷ m) [] h tt,
  λ j. lookup-assign_all j ((k, v) ∷ m) [] d ∙ or_else-none (lookup j ((k, v) ∷ m)),
)
