-- ===== src/Guest/Connection/Tests.antt =====
-- Input and a signal for a command, between messages for another one.
use fend.Prelude.{ℕ, ◌≡◌, refl, true, false, Option, none, some, List, [], ◌∷◌, arith}
use fend.Prelude.Int.{pos}
use fend.Protocol.Frame.{read_frame, write_frame, read_exact, read_payload, from_u8, from_be_bytes}
use fend.Protocol.Base64.{
  base64_encode, base64_decode, decode_chunks, decode_chunk, val, symbol, pack,
}
use fend.Guest.Connection.{Json, InputData, attend, Action, Child}
use fend.Guest.Connection.Delivery.{
  Message, input, signal, sent, stdin_bytes, signals, closes, attend_delivers,
}

-- A payload is the id and the bytes; every signal is the number 15 for the command 7.
abbrev input_of : List ℕ → Option InputData
input_of [] = none
input_of (id ∷ bytes) = some (record { id = id; «data» = base64_encode bytes })

abbrev toy : Json
toy = record {
  execute = λ p. none;
  input = input_of;
  signal = λ p. some (record { id = 7; signal = pos 15 });
  window = λ p. none;
}

abbrev messages : List (Message × List ℕ)
messages =
    (input 7 (104 ∷ 105 ∷ []), 7 ∷ 104 ∷ 105 ∷ [])
    ∷ (input 8 (33 ∷ []), 8 ∷ 33 ∷ [])
    ∷ (signal 7 (pos 15), [])
    ∷ (input 7 [], 7 ∷ [])
    ∷ (input 7 (34 ∷ []), 7 ∷ 34 ∷ [])
    ∷ []

abbrev child : Child
child = record { pid = 100; stdin = true; master = false }

attended :
    attend toy 6 7 child (sent messages)
    ≡ Action.wrote_stdin (104 ∷ 105 ∷ [])
      ∷ Action.killed 100 (pos 15)
      ∷ Action.closed_stdin
      ∷ Action.waited
      ∷ []
unfolding attend read_frame write_frame read_exact read_payload base64_encode base64_decode from_u8
    from_be_bytes decode_chunks decode_chunk val symbol pack
attended = refl

attend_delivers_example :
    let acts = attend toy 6 7 child (sent messages) in
    (stdin_bytes acts ≡ 104 ∷ 105 ∷ []) × (signals 100 acts ≡ pos 15 ∷ []) × (closes acts ≡ 1)
unfolding base64_encode
attend_delivers_example = attend_delivers toy 100 7 6 messages (omega arith) (
  ((omega arith, (omega arith, tt)), refl, omega arith),
  (
    ((omega arith, tt), refl, omega arith),
    ((refl, omega arith), ((tt, refl, omega arith), (((omega arith, tt), refl, omega arith), tt))),
  ),
)
