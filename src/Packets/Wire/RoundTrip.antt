-- ===== src/Packets/Wire/RoundTrip.antt =====
-- Reading what was written, and what the reader accepts.
use knotfreeiot.Base.{
  ℕ, zero, suc, ◌+◌, ◌^◌, ◌<◌, ◌≤◌, ◌≡◌, refl, ap, Bytes, List, [], ◌∷◌, ◌++◌, length,
  length-append, length-take, length-drop, take, drop, take-length_append, drop-length_append, sum,
  map, All, inl, inr, Bool-cases, leb, ltb, true, false, if◌then◌else◌, append_assoc, arith,
}
use knotfreeiot.Packets.Io.{Result, ok, err, packet_too_long, ◌>>=◌, bind-eq-ok, read_full}
use knotfreeiot.Packets.VarInt.{read_var_len_int}
use knotfreeiot.Packets.VarInt.Encoding.{var_len_int}
use knotfreeiot.Packets.VarInt.RoundTrip.{read-var_len_int}
use knotfreeiot.Packets.Wire.{
  Universal, read_lengths, slices, read_array_of_byte_array, read_universal,
}
use knotfreeiot.Packets.Wire.Encoding.{lengths_of, bytes_of, encode, Fits}

read_lengths-lengths_of :
    (args : List Bytes) (rest : Bytes)
    → sum (map length args) < 8000000
    → read_lengths (length args) (lengths_of args ++ rest) ≡ ok (map length args, rest)
unfolding read_lengths
read_lengths-lengths_of [] rest h = refl
read_lengths-lengths_of (a ∷ args) rest h =
    let small : ltb (length a) (2 ^ 28) ≡ true = ground arith in
    rw (append_assoc (var_len_int (length a)) (lengths_of args) rest) (
      rw (read-var_len_int (length a) (lengths_of args ++ rest) (omega arith))
        (rw small (rw (read_lengths-lengths_of args rest (omega arith)))))

slices-bytes_of :
    (args : List Bytes) (before : Bytes)
    → slices (map length args) (length before) (before ++ bytes_of args) ≡ args
unfolding slices
slices-bytes_of [] before = refl
slices-bytes_of (a ∷ args) before =
    let next =
      rw (append_assoc before a (bytes_of args), length-append before a) at
        (slices-bytes_of args (before ++ a)) in
    rw (drop-length_append before (a ++ bytes_of args))
      (rw (take-length_append a (bytes_of args)) (rw next))

length-bytes_of : (args : List Bytes) → length (bytes_of args) ≡ sum (map length args)
length-bytes_of [] = refl
length-bytes_of (a ∷ args) = omega (arith, length-append a (bytes_of args), length-bytes_of args)

read_full-append :
    (bs rest : Bytes) (n : ℕ) → length bs ≡ n → read_full n (bs ++ rest) ≡ ok (bs, rest)
read_full-append bs rest n h =
    let enough : leb n (length (bs ++ rest)) ≡ true = ground (arith, length-append bs rest) in
    rw enough (rw (← h) (rw (take-length_append bs rest, drop-length_append bs rest)))

-- Reading gives back the packet that was written, and leaves what follows it.
pub read_universal-encode :
    (u : Universal) (rest : Bytes) → Fits u → read_universal (encode u ++ rest) ≡ ok (u, rest)
unfolding read_universal read_array_of_byte_array
read_universal-encode u rest h =
    let few : leb 128 (length u.args) ≡ false = ground arith in
    let short : leb 8000000 (sum (map length u.args)) ≡ false = ground arith in
    rw few (
      rw (append_assoc (lengths_of u.args) (bytes_of u.args) rest) (
        rw (read_lengths-lengths_of u.args (bytes_of u.args ++ rest) h.short) (
          rw short (
            rw (read_full-append (bytes_of u.args) rest _ (length-bytes_of u.args))
              (rw (slices-bytes_of u.args []))))))

-- The strings that the reader cuts have the lengths that it read.
map-length-slices :
    (lengths : List ℕ) (position : ℕ) (bytes : Bytes)
    → position + sum lengths ≤ length bytes
    → map length (slices lengths position bytes) ≡ lengths
unfolding slices
map-length-slices [] position bytes h = refl
map-length-slices (n ∷ lengths) position bytes h =
    let fits : n ≤ length (drop position bytes) = omega (arith, length-drop position bytes) in
    rw (length-take n (drop position bytes) fits)
      (rw (map-length-slices lengths (position + n) bytes (omega arith)))

length-slices :
    (lengths : List ℕ) (position : ℕ) (bytes : Bytes)
    → length (slices lengths position bytes) ≡ length lengths
unfolding slices
length-slices [] position bytes = refl
length-slices (n ∷ lengths) position bytes = ap suc (length-slices lengths (position + n) bytes)

length-read_lengths :
    (n : ℕ) (input : Bytes) {lengths : List ℕ} {rest : Bytes}
    → read_lengths n input ≡ ok (lengths, rest)
    → length lengths ≡ n
unfolding read_lengths
length-read_lengths zero input h = ground arith
length-read_lengths (suc n) input h =
    let ((len, input'), e₁, r₁) = bind-eq-ok (read_var_len_int input) _ h in
    let ((lengths, input''), e₂, r₂) = bind-eq-ok (read_lengths n input') _ r₁ in
    ground (arith, length-read_lengths n input' e₂)

-- The part of the reader behind the lengths.
cut : List ℕ → Bytes → Result (List Bytes × Bytes)
cut lengths input =
    if leb 8000000 (sum lengths)
    then err packet_too_long
    else do (bytes, rest) ← read_full (sum lengths) input; ok (slices lengths 0 bytes, rest)

cut_Fits :
    (lengths : List ℕ) (input : Bytes) (args : List Bytes) (rest : Bytes)
    → cut lengths input ≡ ok (args, rest)
    → (length args ≡ length lengths) × (sum (map length args) < 8000000)
unfolding cut
cut_Fits lengths input args rest h = elim (Bool-cases (leb (sum lengths) (length input))) [
  | inl enough ↦
      let bytes = take (sum lengths) input in
      let full = length-take (sum lengths) input (ground arith) in
      let short : leb 8000000 (sum lengths) ≡ false = ground arith in
      let same : args ≡ slices lengths 0 bytes = ground arith in
      let cut_lengths = map-length-slices lengths 0 bytes (omega (arith, full)) in
      rw same (rw cut_lengths (length-slices lengths 0 bytes, ground arith))
  | inr less ↦ ground arith
]

read_array_Fits :
    (input : Bytes) (args : List Bytes) (rest : Bytes)
    → read_array_of_byte_array input ≡ ok (args, rest)
    → (length args < 128) × (sum (map length args) < 8000000)
unfolding read_array_of_byte_array cut
read_array_Fits [] args rest h = cc
read_array_Fits (n ∷ input) args rest h = elim (Bool-cases (leb 128 n)) [
  | inl many ↦ cc (rw many at h)
  | inr few ↦
      let ((lengths, input'), e₁, r₁) = bind-eq-ok (read_lengths n input) _ (rw few at h) in
      let counted = length-read_lengths n input e₁ in
      let (same, short) = cut_Fits lengths input' args rest r₁ in (ground arith, short)
]

-- What the reader accepts is within the bounds of the format.
pub read_universal-Fits :
    (input : Bytes) (u : Universal) (rest : Bytes)
    → All (λ b. b < 256) input
    → read_universal input ≡ ok (u, rest)
    → Fits u
unfolding read_universal
read_universal-Fits [] u rest bytes h = cc
read_universal-Fits (c ∷ input) u rest bytes h =
    let ((args, input'), e₁, r₁) = bind-eq-ok (read_array_of_byte_array input) _ h in
    let (few, short) = read_array_Fits input args input' e₁ in
    let same : u ≡ record { cmd = c; args = args } = cc r₁ in
    rw same (record { is_byte = bytes.0; few = few; short = short })

-- Whatever bytes a packet came from, padded lengths included, its own encoding is read back as the
-- same packet.
pub read-encode-read :
    (input : Bytes) (u : Universal) (rest more : Bytes)
    → All (λ b. b < 256) input
    → read_universal input ≡ ok (u, rest)
    → read_universal (encode u ++ more) ≡ ok (u, more)
read-encode-read input u rest more bytes h =
    read_universal-encode u more (read_universal-Fits input u rest bytes h)
