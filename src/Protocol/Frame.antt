-- ===== src/Protocol/Frame.antt =====
-- fendd/src/protocol.rs: message types, `read_frame` and `write_frame`; and the host's pair of the
-- same names in linux/src/session.rs. A reader is the bytes that it has still to give, a writer
-- the bytes written so far, in memory: it takes every write. A byte is a number below 256.
pub mod RoundTrip
use fend.Prelude.{
  ℕ, zero, suc, ◌+◌, ◌*◌, ◌/◌, ◌%◌, ◌^◌, List, [], ◌∷◌, ◌++◌, Option, none, some, Result, ok, err,
  ok_or, ◌>>=◌, ltb, leb, ◌==◌, if◌then◌else◌, length, take, drop, get_or,
}

abbrev pub max_payload : ℕ
max_payload = 16 * 1024 * 1024

pub data MessageType : Type 0 where
  execute_command forward_signal output_data exit_status port_event : MessageType
  ready input_data window_size network_event : MessageType

-- `msg_type as u8`.
abbrev pub as_u8 : MessageType → ℕ
as_u8 execute_command = 1
as_u8 forward_signal = 2
as_u8 output_data = 3
as_u8 exit_status = 4
as_u8 port_event = 5
as_u8 ready = 6
as_u8 input_data = 7
as_u8 window_size = 8
as_u8 network_event = 9

unfoldable pub from_u8 : ℕ → Option MessageType
from_u8 v =
    if v == 1
    then some execute_command
    else if v == 2
    then some forward_signal
    else if v == 3
    then some output_data
    else if v == 4
    then some exit_status
    else if v == 5
    then some port_event
    else if v == 6
    then some ready
    else if v == 7
    then some input_data
    else if v == 8
    then some window_size
    else if v == 9
    then some network_event
    else none

-- The kinds of `io::Error` that these functions make or pass on.
pub data IoError : Type 0 where
  unexpected_eof : IoError
  unknown_message_type payload_too_large : IoError

-- `Read::read_exact` for a buffer of n bytes.
unfoldable pub read_exact : ℕ → List ℕ → Result IoError (List ℕ × List ℕ)
read_exact n r = if leb n (length r) then ok (take n r, drop n r) else err unexpected_eof

-- `(n as u32).to_be_bytes()`.
unfoldable pub to_be_bytes : ℕ → List ℕ
to_be_bytes n =
    (n % 2 ^ 32 / 2 ^ 24)
    ∷ (n % 2 ^ 32 / 2 ^ 16 % 256)
    ∷ (n % 2 ^ 32 / 2 ^ 8 % 256)
    ∷ (n % 2 ^ 32 % 256)
    ∷ []

-- `u32::from_be_bytes([a, b, c, d])`.
unfoldable pub from_be_bytes : ℕ → ℕ → ℕ → ℕ → ℕ
from_be_bytes a b c d = a * 2 ^ 24 + b * 2 ^ 16 + c * 2 ^ 8 + d

unfoldable pub read_payload : ℕ → List ℕ → Result IoError (List ℕ × List ℕ)
unfolding read_exact
read_payload zero r = ok ([], r)
read_payload (suc n) r = read_exact (suc n) r

unfoldable pub read_frame : List ℕ → Result IoError ((MessageType × List ℕ) × List ℕ)
read_frame r = do
  (header, r1) ← read_exact 5 r
  msg_type ← ok_or unknown_message_type (from_u8 (get_or header 0 0))
  let len =
      from_be_bytes (get_or header 1 0) (get_or header 2 0) (get_or header 3 0) (get_or header 4 0)
  if ltb max_payload len
      then err payload_too_large
      else do (payload, r2) ← read_payload len r1; ok ((msg_type, payload), r2)

unfoldable pub write_frame : List ℕ → MessageType → List ℕ → List ℕ
unfolding to_be_bytes
write_frame w msg_type payload = (w ++ as_u8 msg_type ∷ to_be_bytes (length payload)) ++ payload

-- linux/src/session.rs: the host keeps the raw type byte.
unfoldable pub host_read_frame : List ℕ → Result IoError ((ℕ × List ℕ) × List ℕ)
host_read_frame r = do
  (header, r1) ← read_exact 5 r
  let len =
      from_be_bytes (get_or header 1 0) (get_or header 2 0) (get_or header 3 0) (get_or header 4 0)
  if ltb max_payload len
      then err payload_too_large
      else do (payload, r2) ← read_payload len r1; ok ((get_or header 0 0, payload), r2)

unfoldable pub host_write_frame : List ℕ → ℕ → List ℕ → List ℕ
unfolding to_be_bytes
host_write_frame w kind payload = (w ++ kind ∷ to_be_bytes (length payload)) ++ payload
