-- ===== src/Session/Ports/Composed.antt =====
-- The monitor of the guest and the loop of the host, one behind the other.
use fend.Prelude.{ℕ, ◌≤◌, ◌≡◌, ◌∙◌, some, List, [], ◌∷◌, length, All, All-map}
use fend.Protocol.Frame.{max_payload}
use fend.Guest.Subscribers.{Subscriber}
use fend.Guest.PortMonitor.{PortEventMsg, contains, started, Turn, run}
use fend.Guest.PortMonitor.Told.{InStepWith}
use fend.Guest.PortMonitor.InStep.{last_scan, run-InStepWith}
use fend.Session.Ports.{Json, parse_port_event, waits, port_forward_loop}
use fend.Session.Ports.Feed.{bytes}
use fend.Session.Ports.Following.{IsSent, always, frames, is_forwarded, is_forwarded-listens}
use fend.Session.Ports.Sent.{IsScanned, run-Received}

All-both :
    {A : Type 0} (P Q : A → Type 0) (xs : List A) → All P xs → All Q xs → All (λ x. P x × Q x) xs
All-both P Q [] h k = tt
All-both P Q (x ∷ xs) h k = ((h.0, k.0), All-both P Q xs h.1 k.1)

module _ (j : Json) (to_vec : PortEventMsg → List ℕ)
    (parses : (e : PortEventMsg) → IsSent e → parse_port_event j (to_vec e) ≡ some e)
    (fits : (e : PortEventMsg) → IsSent e → length (to_vec e) ≤ max_payload) where
  -- What the loop forwards after every frame that was written to this subscriber.
  abbrev pub Forwards : List ℕ → Subscriber PortEventMsg → Type 0
  Forwards ports sub =
      (port : ℕ)
      → is_forwarded j port (
          port_forward_loop j always (length sub.received)
            (waits (bytes (frames to_vec sub.received)) []))
        ≡ contains port ports

  -- After any history of the guest's scans and of new subscribers, whichever writes failed, a host
  -- that has read every frame written to its subscription, and whose own ports are free, forwards a
  -- port exactly if the guest's last scan found it, when the host's parser reads the messages as
  -- they were written and each fits in a frame.
  pub run-Forwards :
      (ts : List Turn)
      → All IsScanned ts
      → All (Forwards (last_scan [] ts)) (run ts started).subscribers
  run-Forwards ts scanned =
      All-map (λ sub. All IsSent sub.received × InStepWith (last_scan [] ts) sub)
        (Forwards (last_scan [] ts)) (run ts started).subscribers
        (λ sub h port. is_forwarded-listens j to_vec parses fits sub.received port h.0 ∙ h.1 port)
        (All-both (λ sub. All IsSent sub.received) (InStepWith (last_scan [] ts))
          (run ts started).subscribers (run-Received ts scanned) (run-InStepWith ts))
