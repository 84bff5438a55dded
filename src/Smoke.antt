-- ===== src/Smoke.antt =====
-- linux/src/smoke.rs: the client that runs one command and collects its output. A reader is the
-- bytes that it has still to give, as in Protocol/Frame.antt; the clock, the socket's timeouts and
-- failures of the socket are answers to the calls, which are numbered from 0.
pub mod Run
pub mod Collecting
pub mod Limits
mod Tests
use text.Mathlib.Text.{◌==◌ as str_eq}
use fend.Prelude.{
  Bool, ℕ, zero, suc, ◌+◌, ◌*◌, String, Option, none, some, List, [], ◌∷◌, ◌++◌, Result, ok, err,
  ok_or, ◌>>=◌, ◌>>◌, ltb, leb, ◌==◌, if◌then◌else◌, length,
}
use fend.Prelude.Int.{ℤ, pos, negsuc}
use fend.Prelude.Text.{as_bytes}
use fend.Protocol.Frame.{IoError, host_read_frame, host_write_frame}
use fend.Protocol.Base64.{host_base64_decode}
use fend.Cli.Config.{SmokeConfig}

abbrev pub command_id : ℕ
command_id = 1

abbrev pub message_execute_command : ℕ
message_execute_command = 1

abbrev pub message_output_data : ℕ
message_output_data = 3

abbrev pub message_exit_status : ℕ
message_exit_status = 4

abbrev pub message_ready : ℕ
message_ready = 6

pub record OutputData : Type 0 where
  pub id : ℕ
  pub stream : String
  pub text : String

pub record ExitStatus : Type 0 where
  pub id : ℕ
  pub code : ℤ

pub record SmokeResult : Type 0 where
  pub exit_code : ℤ
  pub stdout : List ℕ
  pub stderr : List ℕ

-- The kinds of `io::Error` of a socket call, beside those that a frame has.
pub data Failure : Type 0 where
  timed_out would_block : Failure
  other : String → Failure

-- The texts of `Protocol` are the constructors of `Complaint`.
pub data Complaint : Type 0 where
  not_ready : ℕ → Complaint
  missing_numeric missing_string out_of_range : String → Complaint
  unexpected_id : ℕ → Complaint
  invalid_base64 : Complaint
  unknown_stream : String → Complaint
  unexpected_frame : ℕ → Complaint

-- `out_of_fuel` is no error of the code.
pub data SmokeError : Type 0 where
  invalid_config : String → SmokeError
  io : IoError → SmokeError
  socket : Failure → SmokeError
  json : SmokeError
  protocol : Complaint → SmokeError
  session_timeout : ℕ → SmokeError
  output_limit_exceeded : String → ℕ → SmokeError
  connection_timeout : ℕ → ℕ → ℕ → String → SmokeError
  unsupported_host : SmokeError
  out_of_fuel : SmokeError

pub record Request : Type 0 where
  pub id : ℕ
  pub cmd : String
  pub args : List String
  pub env : List (String × String)
  pub cwd : String
  pub tty : Bool

-- What is used of `serde_json`. `as_i64` is that of a field with such a number.
pub record Serde : Type 1 where
  pub Value : Type 0
  pub to_vec : Request → Option (List ℕ)
  pub from_slice : List ℕ → Option Value
  pub as_u64 : Value → String → Option ℕ
  pub as_i64 : Value → String → Option ℤ
  pub as_str : Value → String → Option String

-- What the n-th call meets: the nanoseconds since the start, the error of `set_io_timeout`, and that
-- of the read or write itself.
pub record Outside : Type 0 where
  pub elapsed : ℕ → ℕ
  pub refused : ℕ → Option Failure
  pub failed : ℕ → Option Failure

abbrev pub nanos : ℕ → ℕ
nanos secs = secs * 1000000000

unfoldable pub io_or_timeout : Failure → ℕ → SmokeError
io_or_timeout timed_out timeout = session_timeout timeout
io_or_timeout would_block timeout = session_timeout timeout
io_or_timeout (other e) timeout = socket (other e)

-- The time that is left, which is not zero.
unfoldable pub remaining : ℕ → ℕ → Result SmokeError (Unit {0})
remaining elapsed timeout =
    if ltb elapsed (nanos timeout) then ok tt else err (session_timeout timeout)

unfoldable pub set_io_timeout : Option Failure → Result SmokeError (Unit {0})
set_io_timeout none = ok tt
set_io_timeout (some e) = err (socket e)

unfoldable pub transferred : Option Failure → ℕ → Result SmokeError (Unit {0})
unfolding io_or_timeout
transferred none timeout = ok tt
transferred (some e) timeout = err (io_or_timeout e timeout)

-- A call before the deadline.
unfoldable pub timed : Outside → ℕ → ℕ → Result SmokeError (Unit {0})
unfolding remaining set_io_timeout transferred
timed o timeout n = do
  remaining (o.elapsed n) timeout
  set_io_timeout (o.refused n)
  transferred (o.failed n) timeout

unfoldable pub frame_of :
    Result IoError ((ℕ × List ℕ) × List ℕ) → Result SmokeError ((ℕ × List ℕ) × List ℕ)
frame_of (ok f) = ok f
frame_of (err e) = err (io e)

unfoldable pub read_frame_with_deadline :
    Outside → ℕ → ℕ → List ℕ → Result SmokeError ((ℕ × List ℕ) × List ℕ)
unfolding timed frame_of
read_frame_with_deadline o timeout n r = do timed o timeout n; frame_of (host_read_frame r)

unfoldable pub write_frame_with_deadline : Outside → ℕ → ℕ → ℕ → List ℕ → Result SmokeError (List ℕ)
unfolding timed
write_frame_with_deadline o timeout n kind payload = do
  timed o timeout n
  ok (host_write_frame [] kind payload)

unfoldable pub ensure_command_id : ℕ → Result SmokeError (Unit {0})
ensure_command_id id = if id == command_id then ok tt else err (protocol (unexpected_id id))

unfoldable pub append_output : List ℕ → List ℕ → String → ℕ → Result SmokeError (List ℕ)
append_output buffer bytes stream limit =
    if ltb limit (length buffer + length bytes)
    then err (output_limit_exceeded stream limit)
    else ok (buffer ++ bytes)

-- `i32::try_from`.
unfoldable pub i32_of : String → ℤ → Result SmokeError ℤ
i32_of key (pos n) = if ltb n 2147483648 then ok (pos n) else err (protocol (out_of_range key))
i32_of key (negsuc n) =
    if ltb n 2147483648 then ok (negsuc n) else err (protocol (out_of_range key))

unfoldable pub validate_config : SmokeConfig → Result SmokeError (String × List String)
validate_config config = elim config.command [
  | [] ↦ err (invalid_config "smoke command cannot be empty")
  | cmd ∷ args ↦
      if config.timeout == 0
      then err (invalid_config "smoke timeout must be greater than 0")
      else if config.max_output_bytes == 0
      then err (invalid_config "smoke output limit must be greater than 0")
      else ok (cmd, args)
]

-- What has been collected.
pub record Buffers : Type 0 where
  pub stdout : List ℕ
  pub stderr : List ℕ

pub data Turn : Type 0 where
  goes_on : Buffers → Turn
  returns : SmokeResult → Turn

unfoldable pub on_bytes : ℕ → Buffers → String → List ℕ → Result SmokeError Turn
unfolding append_output
on_bytes limit b stream bytes =
    if str_eq stream "stdout"
    then (append_output b.stdout bytes "stdout" limit >>= λ stdout.
        ok (goes_on (record b { stdout = stdout })))
    else if str_eq stream "stderr"
    then (append_output b.stderr bytes "stderr" limit >>= λ stderr.
        ok (goes_on (record b { stderr = stderr })))
    else err (protocol (unknown_stream stream))
