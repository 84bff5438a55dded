-- ===== src/Guest/PortMonitor/Told.antt =====
-- What a subscriber of the ports has been told, and what it takes from it.
use text.Mathlib.Text.{◌==◌ as str_eq}
use fend.Prelude.{
  ℕ, ◌≡◌, refl, ap, ◌∙◌, Bool, true, false, not, ◌&&◌, ◌||◌, List, [], ◌∷◌, ◌++◌, map, ◌==◌,
  if◌then◌else◌, Bool-cases, inl, inr, arith,
}
use fend.Guest.Subscribers.{Subscriber, send_all}
use fend.Guest.Subscribers.Sending.{received-send_all}
use fend.Guest.PortMonitor.{PortEventMsg, event, contains, difference, notify}

-- What one who reads the events takes a port for: that it listens, `before` the first one or by the
-- last one that is about it.
abbrev pub listens : ℕ → Bool → List PortEventMsg → Bool
listens port before [] = before
listens port before (e ∷ es) =
    listens port (if e.port == port then str_eq e.event "opened" else before) es

listens-append :
    (port : ℕ) (b : Bool) (es fs : List PortEventMsg)
    → listens port b (es ++ fs) ≡ listens port (listens port b es) fs
listens-append port b [] fs = refl
listens-append port b (e ∷ es) fs =
    listens-append port (if e.port == port then str_eq e.event "opened" else b) es fs

pub listens-opened :
    (port : ℕ) (b : Bool) (ports : List ℕ)
    → listens port b (map (event "opened") ports) ≡ (b || contains port ports)
listens-opened port true [] = refl
listens-opened port false [] = refl
listens-opened port b (p ∷ ports) =
    listens-opened port (if p == port then true else b) ports ∙ ground arith

listens-closed :
    (port : ℕ) (b : Bool) (ports : List ℕ)
    → listens port b (map (event "closed") ports) ≡ (b && not (contains port ports))
listens-closed port true [] = refl
listens-closed port false [] = refl
listens-closed port b (p ∷ ports) =
    listens-closed port (if p == port then false else b) ports ∙ ground arith

pub contains-difference :
    (port : ℕ) (a b : List ℕ)
    → contains port (difference a b) ≡ (contains port a && not (contains port b))
contains-difference port [] b = refl
contains-difference port (p ∷ a) b = elim (Bool-cases (contains p b)) [
  | inl both ↦ ground (arith, contains-difference port a b)
  | inr only ↦ ground (arith, contains-difference port a b)
]

pub &&_split : (a b : Bool) → (a && b) ≡ true → (a ≡ true) × (b ≡ true)
&&_split true b h = (refl, h)
&&_split false b h = cc

-- The subscriber takes exactly the ports of the list for listening.
abbrev pub InStepWith : List ℕ → Subscriber PortEventMsg → Type 0
InStepWith ports sub = (port : ℕ) → listens port false sub.received ≡ contains port ports

module _ (prev current : List ℕ) (sub : Subscriber PortEventMsg) where
  abbrev opened : List PortEventMsg
  opened = map (event "opened") (difference current prev)

  abbrev closed : List PortEventMsg
  closed = map (event "closed") (difference prev current)

  pub told :
      (notify (difference current prev) (difference prev current) sub).1 ≡ true
      → (notify (difference current prev) (difference prev current) sub).0.received
        ≡ (sub.received ++ opened) ++ closed
  unfolding notify
  told h =
      let first = send_all opened sub in
      received-send_all closed first.0 (&&_split first.1 (send_all closed first.0).1 h).1
      ∙ ap (λ r. r ++ closed)
          (received-send_all opened sub (&&_split first.1 (send_all closed first.0).1 h).0)

  settled :
      (port : ℕ)
      → ((contains port prev || contains port (difference current prev))
          && not (contains port (difference prev current)))
        ≡ contains port current
  settled port =
      ground (arith, contains-difference port current prev, contains-difference port prev current)

  -- Whoever was in step with the last scan and is told the differences is in step with the new one.
  pub notify-InStepWith :
      InStepWith prev sub
      → (notify (difference current prev) (difference prev current) sub).1 ≡ true
      → InStepWith current (notify (difference current prev) (difference prev current) sub).0
  notify-InStepWith h sent port =
      ap (listens port false) (told sent)
      ∙ listens-append port false (sub.received ++ opened) closed
      ∙ ap (λ b. listens port b closed) (listens-append port false sub.received opened)
      ∙ ap (λ b. listens port (listens port b opened) closed) (h port)
      ∙ listens-closed port (listens port (contains port prev) opened) (difference prev current)
      ∙ ap (λ b. b && not (contains port (difference prev current)))
          (listens-opened port (contains port prev) (difference current prev))
      ∙ settled port
