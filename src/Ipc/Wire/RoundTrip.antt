-- ===== src/Ipc/Wire/RoundTrip.antt =====
-- What one end writes, the other reads.
use fend.Prelude.{
  ◌⊎◌, ℕ, ◌≤◌, ◌<◌, ◌^◌, ◌/◌, ◌%◌, ◌≡◌, refl, ◌∙◌, true, false, some, List, ◌∷◌, ◌++◌, Result, ok,
  err, ltb, leb, length, length-append, take-length-append, drop-length-append, if◌then◌else◌,
  Bool-cases, inl, inr, arith,
}
use fend.Protocol.Frame.{to_be_bytes, from_be_bytes}
use fend.Protocol.Frame.RoundTrip.{from_be-to_be}
use fend.Ipc.Wire.{
  max_message_size, IoError, invalid_input, invalid_data, Serde, then_read, parsed, write_message,
  read_message,
}

then_read-append :
    {A : Type 0} (bytes rest : List ℕ) (next : List ℕ → List ℕ → Result IoError A)
    → then_read (length bytes) (bytes ++ rest) next ≡ next bytes rest
unfolding then_read
then_read-append bytes rest next =
    let fits : leb (length bytes) (length (bytes ++ rest)) ≡ true =
      ground (arith, length-append bytes rest) in
    rw (fits, take-length-append bytes rest, drop-length-append bytes rest) refl

read_message_next :
    {T : Type 0} (s : Serde T) (a b c d : ℕ) (reader : List ℕ)
    → read_message s (a ∷ b ∷ c ∷ d ∷ reader) ≡ (
        if ltb max_message_size (from_be_bytes a b c d)
        then err invalid_data
        else then_read
            (from_be_bytes a b c d)
            reader
            (λ buf reader1. parsed s (s.from_slice buf) reader1))
unfolding read_message then_read
read_message_next s a b c d reader =
    let four : leb 4 (length (a ∷ b ∷ c ∷ d ∷ reader)) ≡ true = ground arith in rw four refl

module _ {T : Type 0} (s : Serde T) (message : T) (bytes : List ℕ) where
  -- The frame of a message.
  abbrev framed : List ℕ
  framed = to_be_bytes (length bytes) ++ bytes

  read_message-framed :
      (rest : List ℕ)
      → s.from_slice bytes ≡ some message
      → length bytes ≤ max_message_size
      → read_message s (framed ++ rest) ≡ ok (message, rest)
  unfolding to_be_bytes parsed
  read_message-framed rest parses fits =
      let small : ltb max_message_size (length bytes) ≡ false = ground arith in
      read_message_next s (length bytes % 2 ^ 32 / 2 ^ 24) (length bytes % 2 ^ 32 / 2 ^ 16 % 256)
        (length bytes % 2 ^ 32 / 2 ^ 8 % 256) (length bytes % 2 ^ 32 % 256) (bytes ++ rest)
      ∙ rw
          (
            from_be-to_be (length bytes) (omega arith),
            small,
            then_read-append bytes rest (λ buf reader1. parsed s (s.from_slice buf) reader1),
            parses,
          )
          refl

  -- A message that serde reads as it wrote it is either past the limit, and then its writer fails and
  -- nothing is written, or it is written behind what was written before, and its reader gives it
  -- back and leaves what follows.
  pub read_message-write_message :
      (writer rest : List ℕ)
      → s.to_vec message ≡ some bytes
      → s.from_slice bytes ≡ some message
      → ((max_message_size < length bytes) × (write_message s message writer ≡ err invalid_input))
        ⊎ ((frame : List ℕ) × (write_message s message writer ≡ ok (writer ++ frame))
            × (read_message s (frame ++ rest) ≡ ok (message, rest)))
  unfolding write_message
  read_message-write_message writer rest wrote parses =
      elim (Bool-cases (ltb max_message_size (length bytes))) [
        | inl large ↦ inl (ground arith, rw (wrote, large) refl)
        | inr small ↦
            inr (framed, rw (wrote, small) refl, read_message-framed rest parses (ground arith))
      ]
