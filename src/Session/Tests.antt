-- ===== src/Session/Tests.antt =====
-- A session with a small serialisation in the place of JSON.
use text.Mathlib.Text.{◌==◌ as str_eq}
use fend.Prelude.{
  ℕ, ◌*◌, ◌≤◌, ◌≡◌, refl, String, List, [], ◌∷◌, ◌++◌, Result, ok, err, ◌==◌, if◌then◌else◌, length,
  All, arith,
}
use fend.Prelude.Int.{ℤ, pos}
use fend.Protocol.Base64.{base64_encode, symbol, pack}
use fend.Session.{OutputData, ExitStatus, ParseError, not_json, Json, Terminal, follow}
use fend.Session.Transcript.{
  Stream, stdout, stderr, IsSendable, sent, status, shown_all, follow-sent,
}

stream_byte : String → List ℕ
stream_byte s = if str_eq s "stdout" then 1 ∷ [] else 2 ∷ []

parse_output : List ℕ → Result ParseError OutputData
parse_output (id ∷ s ∷ text) =
    ok (record { id = id; stream = if s == 1 then "stdout" else "stderr"; «data» = text })
parse_output _ = err not_json

parse_exit : List ℕ → Result ParseError ExitStatus
parse_exit (id ∷ code ∷ []) = ok (record { id = id; code = pos code })
parse_exit _ = err not_json

magnitude : ℤ → ℕ
magnitude (pos n) = n
magnitude _ = 0

small : Json
small = record {
  output_to_vec = λ o. o.id ∷ stream_byte o.stream ++ o.«data»;
  exit_to_vec = λ e. e.id ∷ magnitude e.code ∷ [];
  parse_output_data = parse_output;
  parse_exit_status = parse_exit;
}

abbrev blank : Terminal
blank = record { stdout = []; stderr = [] }

abbrev outputs : List (Stream × List ℕ)
outputs = (stdout, 104 ∷ 105 ∷ []) ∷ (stderr, 33 ∷ []) ∷ []

outputs-IsSendable : All (IsSendable small) outputs
unfolding small stream_byte parse_output base64_encode symbol pack
outputs-IsSendable = (
  record { bytes = (omega arith, (omega arith, tt)); parses = refl; fits = omega arith },
  (record { bytes = (omega arith, tt); parses = refl; fits = omega arith }, tt),
)

exit_parses : small.parse_exit_status (small.exit_to_vec (status (pos 7))) ≡ ok (status (pos 7))
unfolding small parse_exit magnitude
exit_parses = refl

exit_fits : length (small.exit_to_vec (status (pos 7))) ≤ 16 * 1024 * 1024
unfolding small
exit_fits = omega arith

follow-sent_example :
    follow small 3 (sent small outputs (pos 7)) blank ≡ (ok (pos 7), shown_all outputs blank)
follow-sent_example =
    follow-sent small outputs (pos 7) 3 blank (omega arith) outputs-IsSendable exit_parses exit_fits
