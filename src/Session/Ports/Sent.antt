-- ===== src/Session/Ports/Sent.antt =====
-- What the port monitor of the guest sends to those who follow it.
use fend.Prelude.{
  ◌⊎◌, ℕ, ◌<◌, ◌≡◌, refl, sym, subst, Bool, true, not, List, [], ◌∷◌, ◌++◌, map, All, All-append,
  Bool-cases, inl, inr, keep_if, String,
}
use fend.Guest.Subscribers.{Subscriber}
use fend.Guest.Subscribers.Removal.{All-notify_round}
use fend.Guest.Subscribers.Sending.{received-send_all}
use fend.Guest.PortMonitor.{
  PortEventMsg, event, difference, contains, PortMonitorState, notify, poll, accept, started, Turn,
  turn, run,
}
use fend.Guest.PortMonitor.Told.{told}
use fend.Guest.PortMonitor.InStep.{no_change, replay, fresh}
use fend.Session.Ports.Following.{IsSent}

-- What a scan can find: ports of 16 bits.
abbrev pub InRange : List ℕ → Type 0
InRange = All (λ port. port < 65536)

abbrev pub IsScanned : Turn → Type 0
IsScanned (Turn.polled current) = InRange current
IsScanned (Turn.accepted outcomes) = Unit

abbrev Received : Subscriber PortEventMsg → Type 0
Received sub = All IsSent sub.received

abbrev Sends : PortMonitorState → Type 0
Sends s = InRange s.prev × InRange s.known_ports × All Received s.subscribers

All-keep_if :
    {A : Type 0} (P : A → Type 0) (p : A → Bool) (xs : List A) → All P xs → All P (keep_if p xs)
All-keep_if P p [] h = tt
All-keep_if P p (x ∷ xs) h = elim (Bool-cases (p x)) [
  | inl kept ↦ rw kept (h.0, All-keep_if P p xs h.1)
  | inr left ↦ rw left (All-keep_if P p xs h.1)
]

IsSent-events :
    (ports : List ℕ) (name : String)
    → (name ≡ "opened") ⊎ (name ≡ "closed")
    → InRange ports
    → All IsSent (map (event name) ports)
IsSent-events [] name which h = tt
IsSent-events (p ∷ ports) name which h = ((h.0, which), IsSent-events ports name which h.1)

module _ (current : List ℕ) (s : PortMonitorState) where
  notify-Received :
      (sub : Subscriber PortEventMsg)
      → Sends s
      → InRange current
      → Received sub
      → (notify (difference current s.prev) (difference s.prev current) sub).1 ≡ true
      → Received (notify (difference current s.prev) (difference s.prev current) sub).0
  notify-Received sub (prev, known, subs) scanned h sent =
      subst (All IsSent) (sym (told s.prev current sub sent)) (
        All-append IsSent (sub.received ++ map (event "opened") (difference current s.prev))
          (map (event "closed") (difference s.prev current))
          (All-append IsSent sub.received (map (event "opened") (difference current s.prev)) h (
            IsSent-events (difference current s.prev) "opened" (inl refl)
              (All-keep_if (λ port. port < 65536) (λ p. not (contains p s.prev)) current scanned)))
          (IsSent-events (difference s.prev current) "closed" (inr refl)
            (All-keep_if (λ port. port < 65536) (λ p. not (contains p current)) s.prev prev)))

  poll-Sends : Sends s → InRange current → Sends (poll current s)
  unfolding poll
  poll-Sends (prev, known, subs) scanned = elim (Bool-cases (no_change current s)) [
    | inl same ↦ rw (same, poll) (scanned, known, subs)
    | inr differ ↦
        rw (differ, poll)
          (
            scanned,
            scanned,
            All-notify_round (notify (difference current s.prev) (difference s.prev current))
                Received Received s.subscribers
                (λ sub h. notify-Received sub (prev, known, subs) scanned h) subs,
          )
  ]

accept-Sends : (outcomes : List Bool) (s : PortMonitorState) → Sends s → Sends (accept outcomes s)
unfolding accept
accept-Sends outcomes s (prev, known, subs) = elim (Bool-cases (replay outcomes s).1) [
  | inl sent ↦
      rw (sent, accept)
        (
          prev,
          known,
          All-append Received s.subscribers ((replay outcomes s).0 ∷ []) subs (
            subst (All IsSent)
                (sym
                  (received-send_all (map (event "opened") s.known_ports) (fresh outcomes s) sent))
                (IsSent-events s.known_ports "opened" (inl refl) known),
            tt,
          ),
        )
  | inr failed ↦ rw (failed, accept) (prev, known, subs)
]

turn-Sends : (t : Turn) (s : PortMonitorState) → IsScanned t → Sends s → Sends (turn t s)
unfolding turn
turn-Sends (Turn.polled current) s scanned h = poll-Sends current s h scanned
turn-Sends (Turn.accepted outcomes) s scanned h = accept-Sends outcomes s h

run-Sends : (ts : List Turn) (s : PortMonitorState) → All IsScanned ts → Sends s → Sends (run ts s)
unfolding run
run-Sends [] s scanned h = h
run-Sends (t ∷ ts) s scanned h = run-Sends ts (turn t s) scanned.1 (turn-Sends t s scanned.0 h)

-- Whoever follows the ports gets only events of the two kinds, about ports of 16 bits.
pub run-Received :
    (ts : List Turn)
    → All IsScanned ts
    → All (λ sub. All IsSent sub.received) (run ts started).subscribers
run-Received ts scanned = (run-Sends ts started scanned (tt, tt, tt)).2
