-- ===== src/Guest/PortMonitor/InStep.antt =====
-- A subscriber that follows the events knows the ports that listen.
use fend.Prelude.{
  ℕ, ◌≡◌, refl, ap, subst, ◌∙◌, Bool, true, false, ◌&&◌, List, [], ◌∷◌, map, All, All-append,
  All-map, Bool-cases, inl, inr, arith,
}
use fend.Guest.Subscribers.{Subscriber, send_all}
use fend.Guest.Subscribers.Removal.{All-notify_round}
use fend.Guest.Subscribers.Sending.{received-send_all}
use fend.Guest.PortMonitor.{
  is_nil, PortEventMsg, event, contains, difference, PortMonitorState, notify, poll, accept,
  started, Turn, turn, run,
}
use fend.Guest.PortMonitor.Told.{
  InStepWith, listens, listens-opened, contains-difference, notify-InStepWith, &&_split,
}

-- Between the turns the two sets agree, and every subscriber is in step with them.
abbrev InStep : PortMonitorState → Type 0
InStep s =
    ((port : ℕ) → contains port s.known_ports ≡ contains port s.prev)
    × All (InStepWith s.prev) s.subscribers

is_nil_lem : (ports : List ℕ) (port : ℕ) → is_nil ports ≡ true → contains port ports ≡ false
is_nil_lem [] port h = refl
is_nil_lem (p ∷ ports) port h = cc

module _ (current : List ℕ) (s : PortMonitorState) where
  abbrev pub no_change : Bool
  no_change = is_nil (difference current s.prev) && is_nil (difference s.prev current)

  same_ports : no_change ≡ true → (port : ℕ) → contains port s.prev ≡ contains port current
  same_ports h port =
      let both =
        &&_split (is_nil (difference current s.prev)) (is_nil (difference s.prev current)) h in
      ground (
        arith,
        contains-difference port current s.prev,
        contains-difference port s.prev current,
        is_nil_lem (difference current s.prev) port,
        is_nil_lem (difference s.prev current) port,
      )

  poll-InStep : InStep s → InStep (poll current s)
  unfolding poll
  poll-InStep (known, subs) = elim (Bool-cases no_change) [
    | inl same ↦
        rw (same, poll)
          (
            λ port. known port ∙ same_ports same port,
            All-map (InStepWith s.prev) (InStepWith current) s.subscribers
                (λ sub h port. h port ∙ same_ports same port) subs,
          )
    | inr differ ↦
        rw (differ, poll)
          (
            λ port. refl,
            All-notify_round (notify (difference current s.prev) (difference s.prev current))
                (InStepWith s.prev) (InStepWith current) s.subscribers
                (λ sub. notify-InStepWith s.prev current sub) subs,
          )
  ]

module _ (outcomes : List Bool) (s : PortMonitorState) where
  abbrev pub fresh : Subscriber PortEventMsg
  fresh = record { received = []; outcomes = outcomes }

  abbrev pub replay : Subscriber PortEventMsg × Bool
  replay = send_all (map (event "opened") s.known_ports) fresh

  accepted-InStepWith :
      ((port : ℕ) → contains port s.known_ports ≡ contains port s.prev)
      → replay.1 ≡ true
      → InStepWith s.prev replay.0
  accepted-InStepWith known sent port =
      ap (listens port false) (received-send_all (map (event "opened") s.known_ports) fresh sent)
      ∙ listens-opened port false s.known_ports
      ∙ known port

  accept-InStep : InStep s → InStep (accept outcomes s)
  unfolding accept
  accept-InStep (known, subs) = elim (Bool-cases replay.1) [
    | inl sent ↦
        rw (sent, accept)
          (
            known,
            All-append (InStepWith s.prev) s.subscribers (replay.0 ∷ []) subs
                (accepted-InStepWith known sent, tt),
          )
    | inr failed ↦ rw (failed, accept) (known, subs)
  ]

turn-InStep : (t : Turn) (s : PortMonitorState) → InStep s → InStep (turn t s)
unfolding turn
turn-InStep (Turn.polled current) s h = poll-InStep current s h
turn-InStep (Turn.accepted outcomes) s h = accept-InStep outcomes s h

run-InStep : (ts : List Turn) (s : PortMonitorState) → InStep s → InStep (run ts s)
unfolding run
run-InStep [] s h = h
run-InStep (t ∷ ts) s h = run-InStep ts (turn t s) (turn-InStep t s h)

-- The ports that the last scan of a history found.
abbrev pub last_scan : List ℕ → List Turn → List ℕ
last_scan ports [] = ports
last_scan ports (Turn.polled current ∷ ts) = last_scan current ts
last_scan ports (Turn.accepted outcomes ∷ ts) = last_scan ports ts

prev-poll : (current : List ℕ) (s : PortMonitorState) → (poll current s).prev ≡ current
unfolding poll
prev-poll current s = elim (Bool-cases (no_change current s)) [
  | inl same ↦ rw (same, poll)
  | inr differ ↦ rw (differ, poll)
]

prev-accept : (outcomes : List Bool) (s : PortMonitorState) → (accept outcomes s).prev ≡ s.prev
unfolding accept
prev-accept outcomes s = elim (Bool-cases (replay outcomes s).1) [
  | inl sent ↦ rw (sent, accept)
  | inr failed ↦ rw (failed, accept)
]

prev-run : (ts : List Turn) (s : PortMonitorState) → (run ts s).prev ≡ last_scan s.prev ts
unfolding run turn poll accept
prev-run [] s = refl
prev-run (Turn.polled current ∷ ts) s =
    prev-run ts (poll current s) ∙ ap (λ ports. last_scan ports ts) (prev-poll current s)
prev-run (Turn.accepted outcomes ∷ ts) s =
    prev-run ts (accept outcomes s) ∙ ap (λ ports. last_scan ports ts) (prev-accept outcomes s)

-- After any history of scans and of new subscribers, in any order and whichever writes failed, each
-- subscriber that is still there and follows its events from the beginning takes a port for
-- listening exactly if the last scan found it.
pub run-InStepWith :
    (ts : List Turn) → All (InStepWith (last_scan [] ts)) (run ts started).subscribers
run-InStepWith ts =
    subst (λ ports. All (InStepWith ports) (run ts started).subscribers) (prev-run ts started)
      (run-InStep ts started (λ port. refl, tt)).1
