-- ===== src/Guest/PortMonitor/Tests.antt =====
-- A short history of the port monitor.
use fend.Prelude.{◌≡◌, refl, true, false, List, [], ◌∷◌, All}
use fend.Guest.Subscribers.{send_all, notify_round, remove_dead, swap_remove}
use fend.Guest.PortMonitor.{
  Turn, polled, accepted, run, started, poll, accept, notify, event, PortMonitorState,
}
use fend.Guest.PortMonitor.Told.{InStepWith}
use fend.Guest.PortMonitor.InStep.{run-InStepWith}

-- The second subscriber fails at its second event, the third comes last.
abbrev history : List Turn
history =
    polled (3000 ∷ [])
    ∷ accepted []
    ∷ accepted (true ∷ false ∷ [])
    ∷ polled (8080 ∷ 22 ∷ [])
    ∷ accepted []
    ∷ polled (22 ∷ [])
    ∷ []

abbrev ended : PortMonitorState
ended = record {
  prev = 22 ∷ [];
  known_ports = 22 ∷ [];
  subscribers =
      record {
        received =
            event "opened" 3000
            ∷ event "opened" 8080
            ∷ event "opened" 22
            ∷ event "closed" 3000
            ∷ event "closed" 8080
            ∷ [];
        outcomes = [];
      }
      ∷ record {
        received = event "opened" 8080 ∷ event "opened" 22 ∷ event "closed" 8080 ∷ [];
        outcomes = [];
      }
      ∷ [];
}

run_small : run history started ≡ ended
unfolding run poll accept notify send_all notify_round remove_dead swap_remove
run_small = refl

run-InStepWith_example : All (InStepWith (22 ∷ [])) (run history started).subscribers
run-InStepWith_example = run-InStepWith history
