-- ===== src/Packets/Io.antt =====
-- Results of the marshalling code of packets/packets.go, and its reader and writer.
use knotfreeiot.Base.{
  ℕ, ◌≡◌, refl, sym, Bytes, [], ◌∷◌, ◌++◌, length, take, drop, leb, if◌then◌else◌,
}

-- One constructor for each `error` value; the last two are those of the reader and the writer.
pub data Error : Type 0 where
  too_few_args_send too_few_args_subscribe too_few_args_unsubscribe too_few_args_lookup : Error
  unknown_command : ℕ → Error
  too_many_strings packet_too_long too_many_args : Error
  read_error write_error : Error

pub data Result {ℓ} (Value : Type ℓ) : Type ℓ where
  err : Error → Result Value
  ok : Value → Result Value

infixl 5 ◌>>=◌
abbrev pub ◌>>=◌ {ℓ κ} :
    {Value : Type ℓ} {Next : Type κ} → Result Value → (Value → Result Next) → Result Next
err problem >>= next = err problem
ok value >>= next = next value

module _ {ℓ κ} {Value : Type ℓ} {Next : Type κ} {answer : Next} where
  pub bind-eq-ok :
      (r : Result Value) (next : Value → Result Next)
      → (r >>= next) ≡ ok answer
      → (value : Value) × (r ≡ ok value) × (next value ≡ ok answer)
  bind-eq-ok (err problem) next same = cc
  bind-eq-ok (ok value) next same = (value, refl, same)

-- An io.Writer: a write that reports no error has put all its bytes behind those written before.
pub record Writer (W : Type 0) : Type 0 where
  pub write : W → Bytes → Result W
  pub written : W → Bytes
  pub write_appends : (w w' : W) (bs : Bytes) → write w bs ≡ ok w' → written w' ≡ written w ++ bs

pub ok_injective {ℓ} : {A : Type ℓ} {a b : A} → ok a ≡ ok b → a ≡ b
ok_injective h = cc

-- A bytes.Buffer: a writer that never fails.
abbrev pub buffer : Writer Bytes
buffer = record {
  write = λ w bs. ok (w ++ bs);
  written = λ w. w;
  write_appends = λ w w' bs h. sym (ok_injective h);
}

-- An io.Reader, as the bytes that are still to come before its end.
-- `reader.Read(oneByte)`
abbrev pub read_byte : Bytes → Result (ℕ × Bytes)
read_byte [] = err read_error
read_byte (b ∷ rest) = ok (b, rest)

-- `io.ReadFull(reader, bytes)`, where `bytes` has `n` bytes
abbrev pub read_full : ℕ → Bytes → Result (Bytes × Bytes)
read_full n input = if leb n (length input) then ok (take n input, drop n input) else err read_error
