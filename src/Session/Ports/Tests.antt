-- ===== src/Session/Ports/Tests.antt =====
-- The ports of a short history, and a frame that came in two parts, with two bytes for JSON.
use text.Mathlib.Text.{◌==◌ as str_eq}
use fend.Prelude.{
  ℕ, ◌≤◌, ◌≡◌, refl, true, false, some, List, [], ◌∷◌, ◌++◌, ◌==◌, if◌then◌else◌, get_or, length,
  ltb, All, inl, inr, arith,
}
use fend.Protocol.Frame.{max_payload, write_frame, to_be_bytes, from_be_bytes}
use fend.Guest.PortMonitor.{PortEventMsg, Turn, polled, accepted, run, started}
use fend.Session.Ports.{
  Json, pause, waits, ended, parse_port_event, event_of, on_read, read_exact, after_header,
  with_kind, read_frame, forward_turn, port_forward_loop,
}
use fend.Session.Ports.Feed.{bytes}
use fend.Session.Ports.Following.{IsSent, always}
use fend.Session.Ports.Composed.{Forwards, run-Forwards}
use fend.Session.Ports.Loss.{forward_turn-torn}

abbrev small : Json
small = record {
  Value = List ℕ;
  from_slice = some;
  as_u64 = λ v key. some (get_or v 0 0);
  as_str = λ v key. some (if get_or v 1 0 == 1 then "opened" else "closed");
}

abbrev to_vec : PortEventMsg → List ℕ
to_vec e = e.port ∷ (if str_eq e.event "opened" then 1 else 2) ∷ []

parses : (e : PortEventMsg) → IsSent e → parse_port_event small (to_vec e) ≡ some e
unfolding parse_port_event event_of
parses e (in_range, inl opened) =
    let small_port : ltb e.port 65536 ≡ true = ground arith in rw (small_port, opened) refl
parses e (in_range, inr closed) =
    let small_port : ltb e.port 65536 ≡ true = ground arith in rw (small_port, closed) refl

to_vec_fits : (e : PortEventMsg) → IsSent e → length (to_vec e) ≤ max_payload
to_vec_fits e h = omega arith

-- The second subscriber fails at its first event, the third comes last.
abbrev scans : List Turn
scans =
    polled (3000 ∷ [])
    ∷ accepted []
    ∷ accepted (true ∷ false ∷ [])
    ∷ polled (8080 ∷ 22 ∷ [])
    ∷ accepted []
    ∷ polled (22 ∷ [])
    ∷ []

run-Forwards_example :
    All (Forwards small to_vec parses to_vec_fits (22 ∷ [])) (run scans started).subscribers
run-Forwards_example = run-Forwards small to_vec parses to_vec_fits scans (
  (omega arith, tt),
  (tt, (tt, ((omega arith, (omega arith, tt)), (tt, ((omega arith, tt), tt))))),
)

-- The header of `{"port":22,...}` comes before the pause, its first bytes after it.
torn_ends :
    port_forward_loop small always 2 (
      waits
        (bytes (5 ∷ 0 ∷ 0 ∷ 0 ∷ 28 ∷ []) ++ pause ∷ bytes (123 ∷ 34 ∷ 112 ∷ 111 ∷ 114 ∷ 116 ∷ []))
        (8080 ∷ []))
    ≡ ended
unfolding port_forward_loop forward_turn on_read read_frame after_header with_kind read_exact
    from_be_bytes
torn_ends = refl

forward_turn-torn_example :
    forward_turn small always
      (waits (bytes (5 ∷ 0 ∷ 0 ∷ 0 ∷ 2 ∷ 22 ∷ []) ++ pause ∷ (bytes (1 ∷ []) ++ [])) (8080 ∷ []))
    ≡ waits (bytes (1 ∷ []) ++ []) (8080 ∷ [])
unfolding write_frame to_be_bytes
forward_turn-torn_example =
    forward_turn-torn (22 ∷ 1 ∷ []) (omega arith) small always (5 ∷ 0 ∷ 0 ∷ 0 ∷ 2 ∷ 22 ∷ [])
      (1 ∷ []) [] (8080 ∷ []) refl (omega arith)
