-- ===== src/LookMsg/Maps/Split.antt =====
-- Texts of words with single spaces between them, and what `strings.Split` makes of them.
use knotfreeiot.Base.{
  ℕ, ◌<◌, ◌≡◌, refl, ap, ◌∙◌, Bytes, false, List, [], ◌∷◌, ◌++◌, append-nil, append_assoc, ◌==◌,
  arith,
}
use knotfreeiot.LookMsg.Maps.{split_from, split}

-- Printable ASCII, without the space.
abbrev pub AllGraphic : Bytes → Type 0
AllGraphic [] = Unit {0}
AllGraphic (b ∷ bs) = (32 < b) × (b < 127) × AllGraphic bs

abbrev pub IsWord : Bytes → Type 0
IsWord [] = ⊥
IsWord (b ∷ bs) = AllGraphic (b ∷ bs)

abbrev pub AllWords : List Bytes → Type 0
AllWords [] = Unit {0}
AllWords (w ∷ ws) = IsWord w × AllWords ws

abbrev pub joined : List Bytes → Bytes
joined [] = []
joined (w ∷ []) = w
joined (w ∷ v ∷ ws) = w ++ b' ' ∷ joined (v ∷ ws)

pub word-AllGraphic : (w : Bytes) → IsWord w → AllGraphic w
word-AllGraphic [] h = absurd h
word-AllGraphic (b ∷ w) h = h

split_from-AllGraphic :
    (w rest cur : Bytes)
    → AllGraphic w
    → split_from b' ' cur (w ++ rest) ≡ split_from b' ' (cur ++ w) rest
unfolding split_from
split_from-AllGraphic [] rest cur h = rw append-nil refl
split_from-AllGraphic (b ∷ w) rest cur (low, high, h) =
    let other : (b == b' ') ≡ false = ground arith in
    rw (other, split_from) (split_from-AllGraphic w rest (cur ++ b ∷ []) h ∙ rw append_assoc refl)

split_from-joined :
    (w : Bytes) (ws : List Bytes)
    → IsWord w
    → AllWords ws
    → split_from b' ' [] (joined (w ∷ ws)) ≡ w ∷ ws
unfolding split_from
split_from-joined w [] h hs =
    let whole : w ≡ w ++ [] = rw append-nil refl in
    ap (split_from b' ' []) whole ∙ split_from-AllGraphic w [] [] (word-AllGraphic w h)
split_from-joined w (v ∷ ws) h (hv, hs) =
    split_from-AllGraphic w (b' ' ∷ joined (v ∷ ws)) [] (word-AllGraphic w h)
    ∙ ap (λ (l : List Bytes). w ∷ l) (split_from-joined v ws hv hs)

-- Splitting at the spaces gives the words back.
pub split-joined :
    (w : Bytes) (ws : List Bytes) → IsWord w → AllWords ws → split (joined (w ∷ ws)) b' ' ≡ w ∷ ws
unfolding split
split-joined w ws h hs = split_from-joined w ws h hs

-- The text begins, and ends, with printable ASCII that is no space.
abbrev pub BeginsGraphic : Bytes → Type 0
BeginsGraphic [] = ⊥
BeginsGraphic (b ∷ bs) = (32 < b) × (b < 127)

abbrev pub EndsGraphic : Bytes → Type 0
EndsGraphic [] = ⊥
EndsGraphic (b ∷ []) = (32 < b) × (b < 127)
EndsGraphic (b ∷ c ∷ bs) = EndsGraphic (c ∷ bs)

EndsGraphic-append : (xs ys : Bytes) → EndsGraphic ys → EndsGraphic (xs ++ ys)
EndsGraphic-append [] ys h = h
EndsGraphic-append (x ∷ []) [] h = absurd h
EndsGraphic-append (x ∷ []) (y ∷ ys) h = h
EndsGraphic-append (x ∷ z ∷ xs) ys h = EndsGraphic-append (z ∷ xs) ys h

word-EndsGraphic : (w : Bytes) → IsWord w → EndsGraphic w
word-EndsGraphic [] h = absurd h
word-EndsGraphic (b ∷ []) (low, high, h) = (low, high)
word-EndsGraphic (b ∷ c ∷ w) (low, high, h) = word-EndsGraphic (c ∷ w) h

cons-EndsGraphic : (b : ℕ) (bs : Bytes) → EndsGraphic bs → EndsGraphic (b ∷ bs)
cons-EndsGraphic b [] h = absurd h
cons-EndsGraphic b (c ∷ bs) h = h

pub joined-BeginsGraphic :
    (w : Bytes) (ws : List Bytes) → IsWord w → BeginsGraphic (joined (w ∷ ws))
joined-BeginsGraphic [] ws h = absurd h
joined-BeginsGraphic (b ∷ w) [] (low, high, h) = (low, high)
joined-BeginsGraphic (b ∷ w) (v ∷ ws) (low, high, h) = (low, high)

pub joined-EndsGraphic :
    (w : Bytes) (ws : List Bytes) → IsWord w → AllWords ws → EndsGraphic (joined (w ∷ ws))
joined-EndsGraphic w [] h hs = word-EndsGraphic w h
joined-EndsGraphic w (v ∷ ws) h (hv, hs) =
    EndsGraphic-append w (b' ' ∷ joined (v ∷ ws))
      (cons-EndsGraphic b' ' (joined (v ∷ ws)) (joined-EndsGraphic v ws hv hs))

-- strings.TrimSpace takes blanks from both ends, and nothing else.
pub record Trims (trim_space : Bytes → Bytes) : Type 0 where
  pub keeps : (s : Bytes) → BeginsGraphic s → EndsGraphic s → trim_space s ≡ s
