-- ===== src/Guest/PortMonitor.antt =====
-- fendd/src/port_monitor.rs: the ports that listen in the guest, and what the subscribers are told
-- of them. Each function is one holding of the lock. The sets are lists, in any order.
pub mod Told
pub mod InStep
mod Tests
use text.Mathlib.Text.{◌==◌ as str_eq}
use fend.Prelude.{
  ℕ, String, Bool, true, false, not, ◌&&◌, ◌||◌, List, [], ◌∷◌, ◌++◌, map, ◌==◌, if◌then◌else◌,
  keep_if,
}
use fend.Guest.Subscribers.{Subscriber, send_all, notify_round}

pub record PortEventMsg : Type 0 where
  pub port : ℕ
  pub event : String

abbrev pub event : String → ℕ → PortEventMsg
event name port = record { port = port; event = name }

abbrev pub contains : ℕ → List ℕ → Bool
contains port [] = false
contains port (p ∷ ports) = p == port || contains port ports

-- `a.difference(&b)`.
abbrev pub difference : List ℕ → List ℕ → List ℕ
difference a b = keep_if (λ p. not (contains p b)) a

-- The state behind the lock, with the set that the polling thread keeps to itself.
pub record PortMonitorState : Type 0 where
  pub prev : List ℕ
  pub known_ports : List ℕ
  pub subscribers : List (Subscriber PortEventMsg)

-- The two loops over a subscriber. It is dead if either broke off; the second is run in any case.
unfoldable pub notify : List ℕ → List ℕ → Subscriber PortEventMsg → Subscriber PortEventMsg × Bool
unfolding send_all
notify opened closed sub =
    let (sub', told_opened) = send_all (map (event "opened") opened) sub in
    let (sub'', told_closed) = send_all (map (event "closed") closed) sub' in
    (sub'', told_opened && told_closed)

abbrev pub is_nil : List ℕ → Bool
is_nil [] = true
is_nil (p ∷ ports) = false

-- A turn of `poll_loop`, where the scan gave `current`.
unfoldable pub poll : List ℕ → PortMonitorState → PortMonitorState
unfolding notify notify_round
poll current s =
    let opened = difference current s.prev in
    let closed = difference s.prev current in
    if is_nil opened && is_nil closed then record s { prev = current } else record {
      prev = current;
      known_ports = current;
      subscribers = notify_round (notify opened closed) s.subscribers;
    }

-- A connection that `event_listener` accepts: it is told every known port, and kept if it took
-- them all. `outcomes` are the results of the writes to it.
unfoldable pub accept : List Bool → PortMonitorState → PortMonitorState
unfolding send_all
accept outcomes s =
    let (conn, ok) =
      send_all (map (event "opened") s.known_ports)
        (record { received = []; outcomes = outcomes }) in
    if ok then record s { subscribers = s.subscribers ++ conn ∷ [] } else s

abbrev pub started : PortMonitorState
started = record { prev = []; known_ports = []; subscribers = [] }

-- The two threads take turns, in any order.
pub data Turn : Type 0 where
  polled : List ℕ → Turn
  accepted : List Bool → Turn

unfoldable pub turn : Turn → PortMonitorState → PortMonitorState
unfolding poll accept
turn (polled current) s = poll current s
turn (accepted outcomes) s = accept outcomes s

unfoldable pub run : List Turn → PortMonitorState → PortMonitorState
unfolding turn
run [] s = s
run (t ∷ ts) s = run ts (turn t s)
