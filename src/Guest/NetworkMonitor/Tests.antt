-- ===== src/Guest/NetworkMonitor/Tests.antt =====
-- A short history of the network monitor.
use fend.Prelude.{◌≡◌, refl, false, String, List, [], ◌∷◌, ℕ, All}
use fend.Guest.Subscribers.{send_all, notify_round}
use fend.Guest.ProcNet.{Conn}
use fend.Guest.NetworkMonitor.{Turn, polled, accepted, run, started, poll, NetworkMonitorState}
use fend.Guest.NetworkMonitor.Reports.{ToldSince, run-ToldSince}

abbrev conn : String → ℕ → Conn
conn remote port = record { remote = remote; port = port; state = "established" }

abbrev history : List Turn
history =
    accepted []
    ∷ polled (conn "93.184.216.34" 443 ∷ [])
    ∷ accepted (false ∷ [])
    ∷ polled (conn "8.8.8.8" 53 ∷ conn "93.184.216.34" 443 ∷ [])
    ∷ []

abbrev ended : NetworkMonitorState
ended = record {
  seen = conn "8.8.8.8" 53 ∷ conn "93.184.216.34" 443 ∷ [];
  known_connections = conn "8.8.8.8" 53 ∷ conn "93.184.216.34" 443 ∷ [];
  subscribers =
      record { received = conn "93.184.216.34" 443 ∷ conn "8.8.8.8" 53 ∷ []; outcomes = [] } ∷ [];
}

run_small : run history started ≡ ended
unfolding run poll send_all notify_round
run_small = refl

run-ToldSince_example : All (ToldSince history) (run history started).subscribers
run-ToldSince_example = run-ToldSince history
