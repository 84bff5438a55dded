-- ===== src/Ipc/Wire/Tests.antt =====
-- Messages that are their own bytes.
use fend.Prelude.{◌⊎◌, ℕ, ◌<◌, ◌≡◌, refl, some, List, [], ◌∷◌, ◌++◌, ok, err}
use fend.Protocol.Frame.{to_be_bytes, from_be_bytes}
use fend.Ipc.Wire.{
  max_message_size, invalid_input, unexpected_eof, invalid_data, Serde, then_read, written,
  write_message, read_message,
}
use fend.Ipc.Wire.RoundTrip.{read_message-write_message}

abbrev plain : Serde (List ℕ)
plain = record { to_vec = some; from_slice = some }

read_message-write_message_example :
    ((max_message_size < 2) × (write_message plain (7 ∷ 8 ∷ []) (1 ∷ []) ≡ err invalid_input))
    ⊎ ((frame : List ℕ) × (write_message plain (7 ∷ 8 ∷ []) (1 ∷ []) ≡ ok (1 ∷ [] ++ frame))
        × (read_message plain (frame ++ 9 ∷ []) ≡ ok (7 ∷ 8 ∷ [], 9 ∷ [])))
read_message-write_message_example =
    read_message-write_message plain (7 ∷ 8 ∷ []) (7 ∷ 8 ∷ []) (1 ∷ []) (9 ∷ []) refl refl

write_small : write_message plain (7 ∷ 8 ∷ []) (1 ∷ []) ≡ ok (1 ∷ 0 ∷ 0 ∷ 0 ∷ 2 ∷ 7 ∷ 8 ∷ [])
unfolding write_message written to_be_bytes
write_small = refl

-- A message that is cut off, and one whose length is past the limit.
read_cut : read_message plain (0 ∷ 0 ∷ 0 ∷ 2 ∷ 7 ∷ []) ≡ err unexpected_eof
unfolding read_message then_read from_be_bytes
read_cut = refl

read_large : read_message plain (0 ∷ 32 ∷ 0 ∷ 0 ∷ 7 ∷ []) ≡ err invalid_data
unfolding read_message then_read from_be_bytes
read_large = refl
