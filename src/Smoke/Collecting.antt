-- ===== src/Smoke/Collecting.antt =====
-- What the command printed is what is collected.
use mathlib.Core.List.{append-nil, append_assoc}
use fend.Prelude.{
  ℕ, zero, suc, ◌+◌, ◌≤◌, ◌<◌, ◌≡◌, refl, sym, ◌∙◌, String, some, List, [], ◌∷◌, ◌++◌, Result, ok,
  length, length-append, All, arith,
}
use fend.Prelude.Int.{ℤ}
use fend.Prelude.Text.{as_bytes}
use fend.Protocol.Frame.{
  ready, output_data, exit_status, max_payload, write_frame, host_read_frame, host_write_frame,
}
use fend.Protocol.Frame.RoundTrip.{IsByte}
use fend.Protocol.Base64.{base64_encode}
use fend.Protocol.Base64.HostDecoder.{host_base64_decode-base64_encode}
use fend.Session.Transcript.{Stream, stdout, stderr, name, below_zero, host_read-write}
use fend.Cli.Config.{SmokeConfig}
use fend.Smoke.{
  SmokeResult, SmokeError, Serde, Outside, Buffers, Turn, goes_on, returns, command_id, timed,
  i32_of, frame_of, read_frame_with_deadline, write_frame_with_deadline, ensure_command_id,
  append_output, validate_config, on_bytes, message_execute_command,
}
use fend.Smoke.Run.{
  on_output, on_exit, on_frame, collect, request, parse_output_data, parse_exit_status, execute,
  run_smoke_session_inner, expect_ready, json_u64, json_i32, json_string,
}

-- An output of the command and the guest's message for it.
pub record Message : Type 0 where
  pub stream : Stream
  pub bytes : List ℕ
  pub text : String
  pub payload : List ℕ

-- The message is JSON with these fields, and fits in a frame.
pub record IsSendable (j : Serde) (m : Message) : Type 0 where
  pub value : j.Value
  pub parses : j.from_slice m.payload ≡ some value
  pub id : j.as_u64 value "id" ≡ some command_id
  pub stream : j.as_str value "stream" ≡ some (name m.stream)
  pub text : j.as_str value "data" ≡ some m.text
  pub encodes : as_bytes m.text ≡ base64_encode m.bytes
  pub bytes : All IsByte m.bytes
  pub fits : length m.payload ≤ max_payload

-- The same of the message of the exit.
pub record IsExit (j : Serde) (code : ℤ) (payload : List ℕ) : Type 0 where
  pub value : j.Value
  pub parses : j.from_slice payload ≡ some value
  pub id : j.as_u64 value "id" ≡ some command_id
  pub numeric : j.as_i64 value "code" ≡ some code
  pub in_range : i32_of "code" code ≡ ok code
  pub fits : length payload ≤ max_payload

-- What the guest writes after its Ready frame.
abbrev pub sent : List Message → List ℕ → List ℕ
sent [] exit = write_frame [] exit_status exit ++ []
sent (m ∷ ms) exit = write_frame [] output_data m.payload ++ sent ms exit

-- What of an output of the second stream belongs to the first.
abbrev pub of_stream : Stream → Stream → List ℕ → List ℕ → List ℕ
of_stream stdout stdout bytes rest = bytes ++ rest
of_stream stdout stderr bytes rest = rest
of_stream stderr stdout bytes rest = rest
of_stream stderr stderr bytes rest = bytes ++ rest

-- All that the command wrote on a stream.
abbrev pub printed : Stream → List Message → List ℕ
printed s [] = []
printed s (m ∷ ms) = of_stream s m.stream m.bytes (printed s ms)

abbrev appended : Stream → List ℕ → Buffers → Buffers
appended stdout bytes b = record b { stdout = b.stdout ++ bytes }
appended stderr bytes b = record b { stderr = b.stderr ++ bytes }

abbrev held : Stream → Buffers → List ℕ
held stdout b = b.stdout
held stderr b = b.stderr

append_output_fits :
    (buffer bytes : List ℕ) (stream : String) (limit : ℕ)
    → length buffer + length bytes ≤ limit
    → append_output buffer bytes stream limit ≡ ok (buffer ++ bytes)
unfolding append_output
append_output_fits buffer bytes stream limit h = ground arith

on_bytes_fits :
    (limit : ℕ) (b : Buffers) (s : Stream) (bytes : List ℕ)
    → length (held s b) + length bytes ≤ limit
    → on_bytes limit b (name s) bytes ≡ ok (goes_on (appended s bytes b))
unfolding on_bytes
on_bytes_fits limit b stdout bytes h = rw (append_output_fits b.stdout bytes "stdout" limit h) refl
on_bytes_fits limit b stderr bytes h = rw (append_output_fits b.stderr bytes "stderr" limit h) refl

module _ (j : Serde) (limit : ℕ) (b : Buffers) where
  on_frame-output :
      (m : Message)
      → IsSendable j m
      → length (held m.stream b) + length m.bytes ≤ limit
      → on_frame j limit b 3 m.payload ≡ ok (goes_on (appended m.stream m.bytes b))
  unfolding on_frame on_output parse_output_data json_u64 json_string ensure_command_id
  on_frame-output m v h =
      rw
        (
          v.parses,
          v.id,
          v.stream,
          v.text,
          v.encodes,
          host_base64_decode-base64_encode m.bytes v.bytes,
        )
        (on_bytes_fits limit b m.stream m.bytes h)

  on_frame-exit :
      (code : ℤ) (payload : List ℕ)
      → IsExit j code payload
      → on_frame j limit b 4 payload
        ≡ ok (returns (record { exit_code = code; stdout = b.stdout; stderr = b.stderr }))
  unfolding on_frame on_exit parse_exit_status json_u64 json_i32 ensure_command_id
  on_frame-exit code payload v = rw (v.parses, v.id, v.numeric, v.in_range) refl

module _ (j : Serde) (o : Outside) (config : SmokeConfig) where
  collect_turn :
      (fuel n : ℕ) (r rest : List ℕ) (kind : ℕ) (payload : List ℕ) (b : Buffers) (turn : Turn)
      → timed o config.timeout n ≡ ok tt
      → host_read_frame r ≡ ok ((kind, payload), rest)
      → on_frame j config.max_output_bytes b kind payload ≡ ok turn
      → collect j o config (suc fuel) n r b ≡ elim turn as (λ _. Result SmokeError SmokeResult) [
        | goes_on b' ↦ collect j o config fuel (suc n) rest b'
        | returns result ↦ ok result
      ]
  unfolding collect read_frame_with_deadline frame_of
  collect_turn fuel n r rest kind payload b turn t read on = rw (t, read, on) refl

held-appended :
    (t s : Stream) (bytes rest : List ℕ) (b : Buffers)
    → held t (appended s bytes b) ++ rest ≡ held t b ++ of_stream t s bytes rest
held-appended stdout stdout bytes rest b = append_assoc b.stdout bytes rest
held-appended stdout stderr bytes rest b = refl
held-appended stderr stdout bytes rest b = refl
held-appended stderr stderr bytes rest b = append_assoc b.stderr bytes rest

of_stream_self : (s : Stream) (bytes rest : List ℕ) → of_stream s s bytes rest ≡ bytes ++ rest
of_stream_self stdout bytes rest = refl
of_stream_self stderr bytes rest = refl

abbrev Fits : ℕ → Buffers → List Message → Type 0
Fits limit b ms = (s : Stream) → length (held s b ++ printed s ms) ≤ limit

Fits-first :
    (limit : ℕ) (b : Buffers) (m : Message) (ms : List Message)
    → Fits limit b (m ∷ ms)
    → length (held m.stream b) + length m.bytes ≤ limit
Fits-first limit b m ms fits =
    let whole : length (held m.stream b ++ (m.bytes ++ printed m.stream ms)) ≤ limit =
      rw (sym (of_stream_self m.stream m.bytes (printed m.stream ms))) (fits m.stream) in
    omega (
      arith,
      length-append {0} (held m.stream b) (m.bytes ++ printed m.stream ms),
      length-append {0} m.bytes (printed m.stream ms),
    )

Fits-rest :
    (limit : ℕ) (b : Buffers) (m : Message) (ms : List Message)
    → Fits limit b (m ∷ ms)
    → Fits limit (appended m.stream m.bytes b) ms
Fits-rest limit b m ms fits t = rw (held-appended t m.stream m.bytes (printed t ms) b) (fits t)

abbrev collected : ℤ → Buffers → List Message → SmokeResult
collected code b ms = record {
  exit_code = code;
  stdout = held stdout b ++ printed stdout ms;
  stderr = held stderr b ++ printed stderr ms;
}

module _ (j : Serde) (o : Outside) (config : SmokeConfig) (code : ℤ) (exit : List ℕ)
    (in_time : (n : ℕ) → timed o config.timeout n ≡ ok tt) (exits : IsExit j code exit) where
  collect-sent :
      (ms : List Message) (fuel n : ℕ) (b : Buffers)
      → length ms < fuel
      → All (IsSendable j) ms
      → Fits config.max_output_bytes b ms
      → collect j o config fuel n (sent ms exit) b ≡ ok (collected code b ms)
  collect-sent ms zero n b enough v fits = absurd (below_zero enough)
  collect-sent [] (suc fuel) n b enough v fits =
      collect_turn j o config fuel n _ [] 4 exit b _ (in_time n)
        (host_read-write exit_status exit [] exits.fits)
        (on_frame-exit j config.max_output_bytes b code exit exits)
      ∙ (rw (append-nil b.stdout, append-nil b.stderr) refl)
  collect-sent (m ∷ ms) (suc fuel) n b enough (first, rest) fits =
      collect_turn j o config fuel n _ (sent ms exit) 3 m.payload b _ (in_time n)
        (host_read-write output_data m.payload (sent ms exit) first.fits)
        (on_frame-output j config.max_output_bytes b m first
          (Fits-first config.max_output_bytes b m ms fits))
      ∙ collect-sent ms fuel (suc n) (appended m.stream m.bytes b) (omega arith) rest
          (Fits-rest config.max_output_bytes b m ms fits)
      ∙ (rw
          (
            held-appended stdout m.stream m.bytes (printed stdout ms) b,
            held-appended stderr m.stream m.bytes (printed stderr ms) b,
          )
          refl)

-- The guest's Ready frame, the messages of the outputs and that of the exit.
abbrev pub session : List Message → List ℕ → List ℕ
session ms exit = write_frame [] ready [] ++ sent ms exit

execute-session :
    (j : Serde) (o : Outside) (config : SmokeConfig) (ms : List Message) (exit payload : List ℕ)
    (cmd : String) (args : List String)
    → ((n : ℕ) → timed o config.timeout n ≡ ok tt)
    → validate_config config ≡ ok (cmd, args)
    → j.to_vec (request j o config cmd args) ≡ some payload
    → execute j o config (session ms exit)
      ≡ ok (sent ms exit, host_write_frame [] message_execute_command payload)
unfolding execute read_frame_with_deadline write_frame_with_deadline frame_of expect_ready
execute-session j o config ms exit payload cmd args in_time valid writes =
    rw (valid, in_time 0, host_read-write ready [] (sent ms exit) (omega arith), writes, in_time 1)
      refl

-- In a session that meets its deadline, with a valid configuration, the request is written to the
-- guest and, where neither stream of the command has more bytes than the limit, the exit code comes
-- back with all that the command wrote on each stream, in order, whichever way the outputs of the
-- two were interleaved. Fuel for one frame more than the outputs is enough.
pub run_smoke_session-sent :
    (j : Serde) (o : Outside) (config : SmokeConfig) (code : ℤ) (ms : List Message)
    (exit payload : List ℕ) (cmd : String) (args : List String) (fuel : ℕ)
    → ((n : ℕ) → timed o config.timeout n ≡ ok tt)
    → validate_config config ≡ ok (cmd, args)
    → j.to_vec (request j o config cmd args) ≡ some payload
    → All (IsSendable j) ms
    → IsExit j code exit
    → ((s : Stream) → length (printed s ms) ≤ config.max_output_bytes)
    → length ms < fuel
    → run_smoke_session_inner j o config fuel (session ms exit) ≡ (
      ok (record { exit_code = code; stdout = printed stdout ms; stderr = printed stderr ms }),
      host_write_frame [] message_execute_command payload,
    )
unfolding run_smoke_session_inner
run_smoke_session-sent j o config code ms exit payload cmd args fuel in_time valid writes v exits
      fits enough =
    rw (started, run_smoke_session_inner)
      (rw
        (collect-sent j o config code exit in_time exits ms fuel 2
          (record { stdout = []; stderr = [] }) enough v (λ s. empty_fits s))
        refl)
  where
    empty_fits :
        (s : Stream)
        → length (held s (record { stdout = []; stderr = [] }) ++ printed s ms)
          ≤ config.max_output_bytes
    empty_fits stdout = fits stdout
    empty_fits stderr = fits stderr

    started :
        execute j o config (session ms exit)
        ≡ ok (sent ms exit, host_write_frame [] message_execute_command payload)
    started = execute-session j o config ms exit payload cmd args in_time valid writes
