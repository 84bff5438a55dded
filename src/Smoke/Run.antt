-- ===== src/Smoke/Run.antt =====
-- linux/src/smoke.rs: the messages of the guest, and the session.
use fend.Prelude.{
  false, ℕ, zero, suc, String, List, [], Result, ok, err, ok_or, ◌>>=◌, ◌>>◌, ◌==◌, if◌then◌else◌,
}
use fend.Prelude.Int.{ℤ}
use fend.Prelude.Text.{as_bytes}
use fend.Protocol.Base64.{host_base64_decode}
use fend.Cli.Config.{SmokeConfig}
use fend.Connect.{ConnectError, unsupported, failed, connect_vsock_with_retry}
use fend.Smoke.{
  command_id, message_execute_command, message_output_data, message_exit_status, message_ready,
  OutputData, ExitStatus, SmokeResult, missing_numeric, missing_string, unexpected_frame, not_ready,
  invalid_base64, SmokeError, json, protocol, out_of_fuel, connection_timeout, unsupported_host,
  Request, Serde, Outside, read_frame_with_deadline, write_frame_with_deadline, ensure_command_id,
  i32_of, validate_config, Buffers, Turn, goes_on, returns, on_bytes,
}

module _ (j : Serde) where
  unfoldable pub json_u64 : j.Value → String → Result SmokeError ℕ
  json_u64 v key = ok_or (protocol (missing_numeric key)) (j.as_u64 v key)

  unfoldable pub json_i32 : j.Value → String → Result SmokeError ℤ
  unfolding i32_of
  json_i32 v key = do
    number ← ok_or (protocol (missing_numeric key)) (j.as_i64 v key)
    i32_of key number

  unfoldable pub json_string : j.Value → String → Result SmokeError String
  json_string v key = ok_or (protocol (missing_string key)) (j.as_str v key)

  unfoldable pub parse_output_data : List ℕ → Result SmokeError OutputData
  unfolding json_u64 json_string
  parse_output_data payload = do
    v ← ok_or json (j.from_slice payload)
    id ← json_u64 v "id"
    stream ← json_string v "stream"
    text ← json_string v "data"
    ok (record { id = id; stream = stream; text = text })

  unfoldable pub parse_exit_status : List ℕ → Result SmokeError ExitStatus
  unfolding json_u64 json_i32
  parse_exit_status payload = do
    v ← ok_or json (j.from_slice payload)
    id ← json_u64 v "id"
    code ← json_i32 v "code"
    ok (record { id = id; code = code })

  unfoldable pub on_output : ℕ → Buffers → List ℕ → Result SmokeError Turn
  unfolding parse_output_data ensure_command_id on_bytes
  on_output limit b payload = do
    output ← parse_output_data payload
    ensure_command_id output.id
    bytes ← ok_or (protocol invalid_base64) (host_base64_decode (as_bytes output.text))
    on_bytes limit b output.stream bytes

  unfoldable pub on_exit : Buffers → List ℕ → Result SmokeError Turn
  unfolding parse_exit_status ensure_command_id
  on_exit b payload = do
    status ← parse_exit_status payload
    ensure_command_id status.id
    ok (returns (record { exit_code = status.code; stdout = b.stdout; stderr = b.stderr }))

  unfoldable pub on_frame : ℕ → Buffers → ℕ → List ℕ → Result SmokeError Turn
  unfolding on_output on_exit
  on_frame limit b kind payload =
      if kind == message_output_data
      then on_output limit b payload
      else if kind == message_exit_status
      then on_exit b payload
      else err (protocol (unexpected_frame kind))

  module _ (o : Outside) (config : SmokeConfig) where
    -- The loop, on fuel: one unit for each frame. The calls before it were those up to n.
    unfoldable pub collect : ℕ → ℕ → List ℕ → Buffers → Result SmokeError SmokeResult
    unfolding on_frame read_frame_with_deadline
    collect zero n r b = err out_of_fuel
    collect (suc fuel) n r b = read_frame_with_deadline o config.timeout n r >>= λ f.
        on_frame config.max_output_bytes b f.0.0 f.0.1 >>= λ turn. elim turn [
          | goes_on b' ↦ collect fuel (suc n) f.1 b'
          | returns result ↦ ok result
        ]

    unfoldable pub request : String → List String → Request
    request cmd args = record {
      id = command_id;
      cmd = cmd;
      args = args;
      env = config.env;
      cwd = config.cwd;
      tty = false;
    }

    unfoldable pub expect_ready : ℕ → Result SmokeError (Unit {0})
    expect_ready kind = if kind == message_ready then ok tt else err (protocol (not_ready kind))

    -- The Ready frame is read and the request written: the rest of the stream, and what was written.
    unfoldable pub execute : List ℕ → Result SmokeError (List ℕ × List ℕ)
    unfolding validate_config read_frame_with_deadline write_frame_with_deadline request
        expect_ready
    execute r = do
      (cmd, args) ← validate_config config
      ((kind, payload), r1) ← read_frame_with_deadline o config.timeout 0 r
      expect_ready kind
      payload ← ok_or json (j.to_vec (request cmd args))
      written ← write_frame_with_deadline o config.timeout 1 message_execute_command payload
      ok (r1, written)

    -- What it returns, and what it has written to the guest.
    unfoldable pub run_smoke_session_inner : ℕ → List ℕ → Result SmokeError SmokeResult × List ℕ
    unfolding execute collect
    run_smoke_session_inner fuel r = elim (execute r) [
      | err e ↦ (err e, [])
      | ok (r1, written) ↦ (collect fuel 2 r1 (record { stdout = []; stderr = [] }), written)
    ]

    -- `connects` is what the attempts to connect give: a stream is the bytes that come from it.
    unfoldable pub run_smoke :
        (ℕ → Result ConnectError (List ℕ)) → ℕ → Result SmokeError SmokeResult × List ℕ
    unfolding validate_config connect_vsock_with_retry run_smoke_session_inner
    run_smoke connects fuel = elim (validate_config config) [
      | err e ↦ (err e, [])
      | ok command ↦ elim (connect_vsock_with_retry connects config.timeout).0 [
        | err unsupported ↦ (err unsupported_host, [])
        | err (failed last_error) ↦
            (err (connection_timeout config.cid config.port config.timeout last_error), [])
        | ok r ↦ run_smoke_session_inner fuel r
      ]
    ]
