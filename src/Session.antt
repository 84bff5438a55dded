-- ===== src/Session.antt =====
-- The loop of `run_attached` of linux/src/session.rs, and the messages of the guest that it reads,
-- `send_output` and `send_exit` of fendd/src/process.rs. The writes to the terminal are taken to
-- succeed.
pub mod Transcript
pub mod Fuel
pub mod Ports
mod Tests
use text.Mathlib.Text.{◌==◌ as str_eq}
use fend.Prelude.{
  ℕ, zero, suc, String, Bool, Option, none, some, List, ◌++◌, Result, ok, err, ◌==◌, if◌then◌else◌,
}
use fend.Prelude.Int.{ℤ}
use fend.Protocol.Frame.{
  IoError, MessageType, output_data, exit_status, write_frame, host_read_frame,
}
use fend.Protocol.Base64.{base64_encode, host_base64_decode}

abbrev pub command_id : ℕ
command_id = 1

abbrev pub message_output_data : ℕ
message_output_data = 3

abbrev pub message_exit_status : ℕ
message_exit_status = 4

-- The text of the data is the list of its bytes.
pub record OutputData : Type 0 where
  pub id : ℕ
  pub stream : String
  pub «data» : List ℕ

pub record ExitStatus : Type 0 where
  pub id : ℕ
  pub code : ℤ

-- Text that is not JSON, or a field that is missing or out of range.
pub data ParseError : Type 0 where
  not_json : ParseError
  bad_field : String → ParseError

pub data SessionError : Type 0 where
  io : IoError → SessionError
  bad_message : ParseError → SessionError
  unexpected_id : ℕ → SessionError
  invalid_base64 : SessionError
  unknown_stream : String → SessionError
  unexpected_frame : ℕ → SessionError
  out_of_fuel : SessionError

-- `serde_json` on both sides, with the checks of the fields: `parse_output_data` and
-- `parse_exit_status`.
pub record Json : Type 0 where
  pub output_to_vec : OutputData → List ℕ
  pub exit_to_vec : ExitStatus → List ℕ
  pub parse_output_data : List ℕ → Result ParseError OutputData
  pub parse_exit_status : List ℕ → Result ParseError ExitStatus

pub record Terminal : Type 0 where
  pub stdout : List ℕ
  pub stderr : List ℕ

-- A turn of the loop goes on or leaves it.
pub data Turn : Type 0 where
  goes_on : Terminal → Turn
  leaves : Result SessionError ℤ → Terminal → Turn

unfoldable pub on_data : Terminal → String → Option (List ℕ) → Turn
on_data t stream none = leaves (err invalid_base64) t
on_data t stream (some bytes) =
    if str_eq stream "stdout"
    then goes_on (record t { stdout = t.stdout ++ bytes })
    else if str_eq stream "stderr"
    then goes_on (record t { stderr = t.stderr ++ bytes })
    else leaves (err (unknown_stream stream)) t

unfoldable pub on_output : Terminal → Result ParseError OutputData → Turn
unfolding on_data
on_output t (err e) = leaves (err (bad_message e)) t
on_output t (ok output) =
    if output.id == command_id
    then on_data t output.stream (host_base64_decode output.«data»)
    else leaves (err (unexpected_id output.id)) t

unfoldable pub on_exit : Terminal → Result ParseError ExitStatus → Turn
on_exit t (err e) = leaves (err (bad_message e)) t
on_exit t (ok status) =
    if status.id == command_id
    then leaves (ok status.code) t
    else leaves (err (unexpected_id status.id)) t

unfoldable pub on_frame : Json → Terminal → ℕ → List ℕ → Turn
unfolding on_output on_exit
on_frame j t kind payload =
    if kind == message_output_data
    then on_output t (j.parse_output_data payload)
    else if kind == message_exit_status
    then on_exit t (j.parse_exit_status payload)
    else leaves (err (unexpected_frame kind)) t

-- The loop, on fuel: one unit for each frame.
unfoldable pub follow : Json → ℕ → List ℕ → Terminal → Result SessionError ℤ × Terminal
unfolding on_frame
follow j zero r t = (err out_of_fuel, t)
follow j (suc n) r t = elim (host_read_frame r) [
  | err e ↦ (err (io e), t)
  | ok ((kind, payload), rest) ↦ elim (on_frame j t kind payload) [
    | goes_on t1 ↦ follow j n rest t1
    | leaves result t1 ↦ (result, t1)
  ]
]

unfoldable pub send_output : Json → List ℕ → ℕ → String → List ℕ → List ℕ
send_output j w id stream bytes =
    write_frame w output_data
      (j.output_to_vec (record { id = id; stream = stream; «data» = base64_encode bytes }))

unfoldable pub send_exit : Json → List ℕ → ℕ → ℤ → List ℕ
send_exit j w id code = write_frame w exit_status (j.exit_to_vec (record { id = id; code = code }))
