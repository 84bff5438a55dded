-- ===== src/Session/Ports/Following.antt =====
-- The host's listeners follow the guest's ports.
use text.Mathlib.Text.{◌==◌ as str_eq}
use mathlib.Core.List.{append-nil}
use fend.Prelude.{
  ◌⊎◌, ℕ, ◌≤◌, ◌<◌, ◌≡◌, refl, sym, ap, subst, ◌∙◌, Bool, true, false, not, some, List, [], ◌∷◌,
  ◌++◌, ◌==◌, if◌then◌else◌, length, keep_if, All, Bool-cases, inl, inr, arith, ==_iff,
}
use fend.Protocol.Frame.{port_event, max_payload, write_frame}
use fend.Guest.PortMonitor.{PortEventMsg, contains}
use fend.Guest.PortMonitor.Told.{listens}
use fend.Session.Ports.{
  Json, Listeners, parse_port_event, on_event, on_parsed, on_frame, Progress, waits, ended, on_read,
  forward_turn, port_forward_loop,
}
use fend.Session.Ports.Feed.{bytes, read_frame-bytes_more}

-- What the guest sends: a port of 16 bits, opened or closed.
abbrev pub IsSent : PortEventMsg → Type 0
IsSent e = (e.port < 65536) × ((e.event ≡ "opened") ⊎ (e.event ≡ "closed"))

-- Every port of the host is free.
abbrev pub always : Listeners → ℕ → Bool
always listeners port = true

contains-keep_if :
    (port q : ℕ) (listeners : List ℕ)
    → contains port (keep_if (λ p. not (p == q)) listeners)
      ≡ (if q == port then false else contains port listeners)
contains-keep_if port q [] = ground arith
contains-keep_if port q (p ∷ listeners) = ground (arith, contains-keep_if port q listeners)

contains-on_event :
    (j : Json) (e : PortEventMsg) (port : ℕ) (listeners : Listeners)
    → IsSent e
    → contains port (on_event j always e listeners)
      ≡ (if e.port == port then str_eq e.event "opened" else contains port listeners)
unfolding on_event
contains-on_event j e port listeners (small, inl opened) =
    rw opened (elim (Bool-cases (contains e.port listeners)) [
      | inl there ↦ rw there (already there)
      | inr absent ↦ rw absent (ground arith)
    ])
  where
    already :
        contains e.port listeners ≡ true
        → contains port listeners ≡ (if e.port == port then true else contains port listeners)
    already there = elim (Bool-cases (e.port == port)) [
      | inl same ↦
          rw same (subst (λ q. contains q listeners ≡ true) ((==_iff e.port port).0 same) there)
      | inr other ↦ rw other refl
    ]
contains-on_event j e port listeners (small, inr closed) =
    rw closed (contains-keep_if port e.port listeners)

abbrev pub after_events : Json → List PortEventMsg → Listeners → Listeners
after_events j [] listeners = listeners
after_events j (e ∷ es) listeners = after_events j es (on_event j always e listeners)

contains-after_events :
    (j : Json) (es : List PortEventMsg) (port : ℕ) (listeners : Listeners)
    → All IsSent es
    → contains port (after_events j es listeners) ≡ listens port (contains port listeners) es
contains-after_events j [] port listeners h = refl
contains-after_events j (e ∷ es) port listeners (first, rest) =
    contains-after_events j es port (on_event j always e listeners) rest
    ∙ ap (λ b. listens port b es) (contains-on_event j e port listeners first)

-- The frames of the guest, with `to_vec` in the place of `serde_json`.
abbrev pub frames : (PortEventMsg → List ℕ) → List PortEventMsg → List ℕ
frames to_vec [] = []
frames to_vec (e ∷ es) = write_frame [] port_event (to_vec e) ++ frames to_vec es

abbrev pub is_forwarded : (j : Json) → ℕ → Progress j always → Bool
is_forwarded j port (waits feed listeners) = contains port listeners
is_forwarded j port ended = false

module _ (j : Json) (to_vec : PortEventMsg → List ℕ)
    (parses : (e : PortEventMsg) → IsSent e → parse_port_event j (to_vec e) ≡ some e)
    (fits : (e : PortEventMsg) → IsSent e → length (to_vec e) ≤ max_payload) where
  turn-event :
      (e : PortEventMsg) (more : List ℕ) (listeners : Listeners)
      → IsSent e
      → forward_turn j always
          (waits (bytes (write_frame [] port_event (to_vec e) ++ more) ++ []) listeners)
        ≡ waits (bytes more ++ []) (on_event j always e listeners)
  unfolding forward_turn on_read on_frame on_parsed
  turn-event e more listeners sent =
      ap (λ r. on_read j always r listeners)
        (read_frame-bytes_more (to_vec e) more [] (fits e sent))
      ∙ (rw (parses e sent) refl)

  loop-events :
      (es : List PortEventMsg) (listeners : Listeners)
      → All IsSent es
      → port_forward_loop j always (length es) (waits (bytes (frames to_vec es) ++ []) listeners)
        ≡ waits [] (after_events j es listeners)
  unfolding port_forward_loop
  loop-events [] listeners h = refl
  loop-events (e ∷ es) listeners (first, rest) =
      ap (port_forward_loop j always (length es)) (turn-event e (frames to_vec es) listeners first)
      ∙ loop-events es (on_event j always e listeners) rest

  -- Once every event has been read, a port is forwarded exactly if by the events it listens.
  pub is_forwarded-listens :
      (es : List PortEventMsg) (port : ℕ)
      → All IsSent es
      → is_forwarded j port
          (port_forward_loop j always (length es) (waits (bytes (frames to_vec es)) []))
        ≡ listens port false es
  is_forwarded-listens es port h =
      ap (λ feed. is_forwarded j port (port_forward_loop j always (length es) (waits feed [])))
        (sym (append-nil (bytes (frames to_vec es))))
      ∙ ap (is_forwarded j port) (loop-events es [] h)
      ∙ contains-after_events j es port [] h
