-- ===== src/Smoke/Tests.antt =====
-- Sessions with a small serialisation in the place of JSON.
use text.Mathlib.Text.{◌==◌ as str_eq}
use fend.Prelude.{
  ℕ, ◌≤◌, ◌≡◌, refl, String, Option, none, some, List, [], ◌∷◌, ◌++◌, ok, err, ◌==◌, if◌then◌else◌,
  length, All, arith,
}
use fend.Prelude.Int.{ℤ, pos}
use fend.Prelude.Text.{as_bytes}
use fend.Protocol.Base64.{base64_encode, symbol, pack}
use fend.Protocol.Frame.{host_write_frame, write_frame, output_data, ready}
use fend.Session.Transcript.{Stream, stdout, stderr}
use fend.Cli.Config.{SmokeConfig}
use fend.Smoke.{
  Serde, Outside, timed, i32_of, validate_config, output_limit_exceeded, session_timeout,
}
use fend.Smoke.Run.{run_smoke_session_inner}
use fend.Smoke.Collecting.{Message, IsSendable, IsExit, printed, session, run_smoke_session-sent}
use fend.Smoke.Limits.{run_smoke_session_limits}

data Fields : Type 0 where
  output : String → String → Fields
  exit : ℕ → Fields

fields_of : List ℕ → Option Fields
fields_of (kind ∷ rest) =
    if kind == 1
    then some (output "stdout" "aGk=")
    else if kind == 2
    then some (output "stderr" "IQ==")
    else some (exit 7)
fields_of [] = none

text_of : Fields → String → Option String
text_of (output stream text) key = some (if str_eq key "stream" then stream else text)
text_of (exit n) key = none

abbrev number_of : Fields → String → Option ℤ
number_of (output stream text) key = none
number_of (exit n) key = some (pos n)

abbrev small : Serde
small = record {
  Value = Fields;
  to_vec = λ r. some (123 ∷ []);
  from_slice = fields_of;
  as_u64 = λ v key. some 1;
  as_i64 = number_of;
  as_str = text_of;
}

abbrev prompt : Outside
prompt = record { elapsed = λ n. 5; refused = λ n. none; failed = λ n. none }

abbrev config : SmokeConfig
config = record {
  cid = 100;
  port = 1024;
  timeout = 30;
  max_output_bytes = 3;
  cwd = "/workspace";
  env = [];
  command = "echo" ∷ "hi" ∷ [];
}

abbrev messages : List Message
messages =
    record { stream = stdout; bytes = 104 ∷ 105 ∷ []; text = "aGk="; payload = 1 ∷ [] }
    ∷ record { stream = stderr; bytes = 33 ∷ []; text = "IQ=="; payload = 2 ∷ [] }
    ∷ []

in_time : (n : ℕ) → timed prompt 30 n ≡ ok tt
unfolding timed
in_time n = refl

messages-IsSendable : All (IsSendable small) messages
unfolding fields_of text_of base64_encode symbol pack as_bytes
messages-IsSendable = (
  record {
    value = output "stdout" "aGk=";
    parses = refl;
    id = refl;
    stream = refl;
    text = refl;
    encodes = refl;
    bytes = (omega arith, (omega arith, tt));
    fits = omega arith;
  },
  (
    record {
      value = output "stderr" "IQ==";
      parses = refl;
      id = refl;
      stream = refl;
      text = refl;
      encodes = refl;
      bytes = (omega arith, tt);
      fits = omega arith;
    },
    tt,
  ),
)

seven-IsExit : IsExit small (pos 7) (3 ∷ [])
unfolding fields_of i32_of
seven-IsExit = record {
  value = exit 7;
  parses = refl;
  id = refl;
  numeric = refl;
  in_range = refl;
  fits = omega arith;
}

config_valid : validate_config config ≡ ok ("echo", "hi" ∷ [])
unfolding validate_config
config_valid = refl

within_limit : (s : Stream) → length (printed s messages) ≤ 3
within_limit stdout = omega arith
within_limit stderr = omega arith

run_smoke_session-sent_example :
    run_smoke_session_inner small prompt config 3 (session messages (3 ∷ [])) ≡ (
      ok (record {
        exit_code = pos 7;
        stdout = printed stdout messages;
        stderr = printed stderr messages;
      }),
      host_write_frame [] 1 (123 ∷ []),
    )
run_smoke_session-sent_example =
    run_smoke_session-sent small prompt config (pos 7) messages (3 ∷ []) (123 ∷ []) "echo"
      ("hi" ∷ []) 3 in_time config_valid refl messages-IsSendable seven-IsExit within_limit
      (omega arith)

session_result :
    (run_smoke_session_inner small prompt config 3 (session messages (3 ∷ []))).0
    ≡ ok (record { exit_code = pos 7; stdout = 104 ∷ 105 ∷ []; stderr = 33 ∷ [] })
unfolding run_smoke_session_inner fields_of text_of write_frame fend.Protocol.Frame.host_read_frame
    fend.Protocol.Frame.read_exact fend.Protocol.Frame.from_be_bytes
    fend.Protocol.Frame.read_payload fend.Protocol.Base64.host_base64_decode
    fend.Protocol.Base64.host_loop as_bytes fend.Protocol.Base64.is_ascii_whitespace
    fend.Protocol.Base64.host_chunk fend.Protocol.Base64.val
session_result = refl

run_smoke_session_limits_example : (2 ≤ 3) × (1 ≤ 3)
run_smoke_session_limits_example =
    run_smoke_session_limits small prompt config 3 (session messages (3 ∷ [])) session_result

-- Four bytes of the same stream are one too many.
session_over :
    (run_smoke_session_inner small prompt config 9 (
      write_frame [] ready []
      ++ write_frame [] output_data (1 ∷ [])
      ++ write_frame [] output_data (1 ∷ []))).0
    ≡ err (output_limit_exceeded "stdout" 3)
unfolding run_smoke_session_inner fields_of text_of write_frame fend.Protocol.Frame.host_read_frame
    fend.Protocol.Frame.read_exact fend.Protocol.Frame.from_be_bytes
    fend.Protocol.Frame.read_payload fend.Protocol.Base64.host_base64_decode
    fend.Protocol.Base64.host_loop as_bytes fend.Protocol.Base64.is_ascii_whitespace
    fend.Protocol.Base64.host_chunk fend.Protocol.Base64.val
session_over = refl

-- A clock past the deadline.
session_late :
    (run_smoke_session_inner small
      (record prompt { elapsed = λ n. 30000000000 })
      config
      9
      (write_frame [] ready [])).0
    ≡ err (session_timeout 30)
unfolding run_smoke_session_inner
session_late = refl
