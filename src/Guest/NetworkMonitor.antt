-- ===== src/Guest/NetworkMonitor.antt =====
-- fendd/src/network_monitor.rs: the connections of the guest, and what the subscribers are told of
-- them. Each function is one holding of the lock.
pub mod Reports
mod Tests
use fend.Prelude.{ℕ, Bool, true, false, not, List, [], ◌∷◌, ◌++◌, if◌then◌else◌, keep_if}
use fend.Guest.Subscribers.{Subscriber, send_all, notify_round}
use fend.Guest.ProcNet.{Conn, has_conn}

-- `current.difference(&seen)`.
abbrev pub opened : List Conn → List Conn → List Conn
opened current seen = keep_if (λ c. not (has_conn c seen)) current

-- The state behind the lock, with the set that the polling thread keeps to itself. A message is the
-- connection that it tells of.
pub record NetworkMonitorState : Type 0 where
  pub seen : List Conn
  pub known_connections : List Conn
  pub subscribers : List (Subscriber Conn)

abbrev pub is_nil : List Conn → Bool
is_nil [] = true
is_nil (c ∷ conns) = false

-- A turn of `poll_loop`, where the scan gave `current`.
unfoldable pub poll : List Conn → NetworkMonitorState → NetworkMonitorState
unfolding send_all notify_round
poll current s =
    let news = opened current s.seen in
    if is_nil news then record s { seen = current; known_connections = current } else record {
      seen = current;
      known_connections = current;
      subscribers = notify_round (send_all news) s.subscribers;
    }

-- A connection that `event_listener` accepts.
abbrev pub accept : List Bool → NetworkMonitorState → NetworkMonitorState
accept outcomes s = record s {
  subscribers = s.subscribers ++ record { received = []; outcomes = outcomes } ∷ [];
}

abbrev pub started : NetworkMonitorState
started = record { seen = []; known_connections = []; subscribers = [] }

pub data Turn : Type 0 where
  polled : List Conn → Turn
  accepted : List Bool → Turn

unfoldable pub turn : Turn → NetworkMonitorState → NetworkMonitorState
unfolding poll
turn (polled current) s = poll current s
turn (accepted outcomes) s = accept outcomes s

unfoldable pub run : List Turn → NetworkMonitorState → NetworkMonitorState
unfolding turn
run [] s = s
run (t ∷ ts) s = run ts (turn t s)
