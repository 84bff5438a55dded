-- ===== src/Smoke/Limits.antt =====
-- No guest makes the client hold more than the limit.
use text.Mathlib.Text.{◌==◌ as str_eq}
use fend.Prelude.{
  ℕ, zero, suc, ◌+◌, ◌≤◌, ◌≡◌, subst, String, List, [], Result, ok, err, ok_or, ◌>>=◌, ◌==◌, ltb,
  length, length-append, Bool-cases, inl, inr, arith,
}
use fend.Prelude.Text.{as_bytes}
use fend.Protocol.Base64.{host_base64_decode}
use fend.Cli.Config.{SmokeConfig}
use fend.Smoke.{
  SmokeResult, SmokeError, Serde, Outside, Buffers, Turn, goes_on, returns, append_output, on_bytes,
  protocol, invalid_base64, ensure_command_id, message_output_data, message_exit_status,
  read_frame_with_deadline,
}
use fend.Smoke.Run.{
  on_output, on_exit, on_frame, collect, parse_output_data, parse_exit_status, execute,
  run_smoke_session_inner,
}

-- What holds of a value if there is one.
abbrev Sound : {A : Type 0} → (A → Type 0) → Result SmokeError A → Type 0
Sound P (ok a) = P a
Sound P (err e) = Unit

Sound-bind :
    {A B : Type 0} (Q : A → Type 0) (P : B → Type 0) (m : Result SmokeError A)
    (f : A → Result SmokeError B)
    → Sound Q m
    → ((a : A) → Q a → Sound P (f a))
    → Sound P (m >>= f)
Sound-bind Q P (ok a) f h k = k a h
Sound-bind Q P (err e) f h k = tt

abbrev Any : {A : Type 0} → A → Type 0
Any a = Unit

Sound-Any : {A : Type 0} (m : Result SmokeError A) → Sound Any m
Sound-Any (ok a) = tt
Sound-Any (err e) = tt

-- For a step whose value does not matter.
Sound-after :
    {A B : Type 0} (P : B → Type 0) (m : Result SmokeError A) (f : A → Result SmokeError B)
    → ((a : A) → Sound P (f a))
    → Sound P (m >>= f)
Sound-after P m f k = Sound-bind Any P m f (Sound-Any m) (λ a _. k a)

module _ (limit : ℕ) where
  abbrev Small : List ℕ → Type 0
  Small bytes = length bytes ≤ limit

  abbrev Within : Buffers → Type 0
  Within b = Small b.stdout × Small b.stderr

  abbrev TurnWithin : Turn → Type 0
  TurnWithin (goes_on b) = Within b
  TurnWithin (returns r) = Small r.stdout × Small r.stderr

  append_output-Small :
      (buffer bytes : List ℕ) (stream : String)
      → Sound Small (append_output buffer bytes stream limit)
  unfolding append_output
  append_output-Small buffer bytes stream =
      elim (Bool-cases (ltb limit (length buffer + length bytes))) [
        | inl over ↦ rw over tt
        | inr fits ↦ rw fits (ground (arith, length-append {0} buffer bytes))
      ]

  on_bytes-Within :
      (b : Buffers) (stream : String) (bytes : List ℕ)
      → Within b
      → Sound TurnWithin (on_bytes limit b stream bytes)
  unfolding on_bytes
  on_bytes-Within b stream bytes (out, error) = elim (Bool-cases (str_eq stream "stdout")) [
    | inl e ↦ rw e (
        Sound-bind Small TurnWithin (append_output b.stdout bytes "stdout" limit) _
          (append_output-Small b.stdout bytes "stdout") (λ a h. (h, error)))
    | inr e ↦ elim (Bool-cases (str_eq stream "stderr")) [
      | inl f ↦
          rw (e, f)
            (Sound-bind Small TurnWithin (append_output b.stderr bytes "stderr" limit) _
              (append_output-Small b.stderr bytes "stderr") (λ a h. (out, h)))
      | inr f ↦ rw (e, f) tt
    ]
  ]

  module _ (j : Serde) where
    on_frame-Within :
        (b : Buffers) (kind : ℕ) (payload : List ℕ)
        → Within b
        → Sound TurnWithin (on_frame j limit b kind payload)
    unfolding on_frame on_output on_exit
    on_frame-Within b kind payload h = elim (Bool-cases (kind == message_output_data)) [
      | inl e ↦ rw e (
          Sound-after TurnWithin (parse_output_data j payload) _ (λ output.
            Sound-after TurnWithin (ensure_command_id output.id) _ (λ _.
              Sound-after TurnWithin
                (ok_or (protocol invalid_base64) (host_base64_decode (as_bytes output.text))) _
                (λ bytes. on_bytes-Within b output.stream bytes h))))
      | inr e ↦ elim (Bool-cases (kind == message_exit_status)) [
        | inl f ↦
            rw (e, f)
              (Sound-after TurnWithin (parse_exit_status j payload) _
                (λ status. Sound-after TurnWithin (ensure_command_id status.id) _ (λ _. h)))
        | inr f ↦ rw (e, f) tt
      ]
    ]

module _ (j : Serde) (o : Outside) (config : SmokeConfig) where
  abbrev ResultWithin : SmokeResult → Type 0
  ResultWithin r =
      (length r.stdout ≤ config.max_output_bytes) × (length r.stderr ≤ config.max_output_bytes)

  collect-Within :
      (fuel n : ℕ) (r : List ℕ) (b : Buffers)
      → Within config.max_output_bytes b
      → Sound ResultWithin (collect j o config fuel n r b)
  unfolding collect
  collect-Within zero n r b h = tt
  collect-Within (suc fuel) n r b h =
      Sound-after ResultWithin (read_frame_with_deadline o config.timeout n r) _ (λ f.
        Sound-bind (TurnWithin config.max_output_bytes) ResultWithin
          (on_frame j config.max_output_bytes b f.0.0 f.0.1) _
          (on_frame-Within config.max_output_bytes j b f.0.0 f.0.1 h)
          (λ turn w. later f.1 turn w (λ b' h'. collect-Within fuel (suc n) f.1 b' h')))
    where
      later :
          (rest : List ℕ) (turn : Turn)
          → TurnWithin config.max_output_bytes turn
          → ((b' : Buffers)
              → Within config.max_output_bytes b'
              → Sound ResultWithin (collect j o config fuel (suc n) rest b'))
          → Sound ResultWithin (elim turn as (λ _. Result SmokeError SmokeResult) [
            | goes_on b' ↦ collect j o config fuel (suc n) rest b'
            | returns result ↦ ok result
          ])
      later rest (goes_on b') w k = k b' w
      later rest (returns result) w k = w

session-Within :
    (j : Serde) (o : Outside) (config : SmokeConfig) (fuel : ℕ)
    (s : Result SmokeError (List ℕ × List ℕ))
    → Sound
        (ResultWithin j o config)
        (elim s as (λ _. Result SmokeError SmokeResult × List ℕ) [
          | err e ↦ (err e, [])
          | ok (r1, written) ↦
              (collect j o config fuel 2 r1 (record { stdout = []; stderr = [] }), written)
        ]).0
session-Within j o config fuel (err e) = tt
session-Within j o config fuel (ok (r1, written)) =
    collect-Within j o config fuel 2 r1 _ (omega arith, omega arith)

-- Whatever the guest sends and however the calls go, what a session returns holds at most the
-- limit of bytes of each stream.
pub run_smoke_session_limits :
    (j : Serde) (o : Outside) (config : SmokeConfig) (fuel : ℕ) (r : List ℕ) {result : SmokeResult}
    → (run_smoke_session_inner j o config fuel r).0 ≡ ok result
    → (length result.stdout ≤ config.max_output_bytes)
      × (length result.stderr ≤ config.max_output_bytes)
unfolding run_smoke_session_inner
run_smoke_session_limits j o config fuel r h =
    subst (Sound (ResultWithin j o config)) h
      (session-Within j o config fuel (execute j o config r))
