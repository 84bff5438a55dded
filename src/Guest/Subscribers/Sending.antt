-- ===== src/Guest/Subscribers/Sending.antt =====
-- What a subscriber has taken after a loop of sends.
use fend.Prelude.{◌≡◌, sym, ap, ◌∙◌, true, false, List, [], ◌∷◌, ◌++◌, Bool-cases, inl, inr, arith}
use mathlib.Core.List.{append_assoc, append-nil}
use fend.Guest.Subscribers.{Subscriber, send, send_all}

module _ {E : Type 0} (e : E) (es : List E) (sub : Subscriber E) where
  send_all-sent : (send e sub).1 ≡ true → send_all (e ∷ es) sub ≡ send_all es (send e sub).0
  unfolding send_all
  send_all-sent h = rw (h, send_all)

  send_all-failed : (send e sub).1 ≡ false → (send_all (e ∷ es) sub).1 ≡ false
  unfolding send_all
  send_all-failed h = rw (h, send_all)

  received-send : (send e sub).1 ≡ true → (send e sub).0.received ≡ sub.received ++ e ∷ []
  unfolding send
  received-send h = ground arith

-- A loop of sends that ended well wrote every event.
pub received-send_all :
    {E : Type 0} (events : List E) (sub : Subscriber E)
    → (send_all events sub).1 ≡ true
    → (send_all events sub).0.received ≡ sub.received ++ events
unfolding send_all
received-send_all [] sub h = sym (append-nil sub.received)
received-send_all (e ∷ es) sub h = elim (Bool-cases (send e sub).1) [
  | inl sent ↦
      let step = send_all-sent e es sub sent in
      ap (λ r. r.0.received) step
      ∙ received-send_all es (send e sub).0 (ap (λ r. r.1) (sym step) ∙ h)
      ∙ ap (λ r. r ++ es) (received-send e es sub sent)
      ∙ append_assoc sub.received (e ∷ []) es
  | inr failed ↦ cc (send_all-failed e es sub failed)
]
