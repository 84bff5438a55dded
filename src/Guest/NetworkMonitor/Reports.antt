-- ===== src/Guest/NetworkMonitor/Reports.antt =====
-- What a subscriber of the connections has been told since it came.
use fend.Prelude.{
  ◌≡◌, refl, sym, ap, subst, ◌∙◌, Bool, true, List, [], ◌∷◌, ◌++◌, All, All-append, All-map,
  Bool-cases, inl, inr,
}
use mathlib.Core.List.{append_assoc, append-nil}
use fend.Guest.Subscribers.{Subscriber, send_all}
use fend.Guest.Subscribers.Sending.{received-send_all}
use fend.Guest.Subscribers.Removal.{All-notify_round}
use fend.Guest.ProcNet.{Conn}
use fend.Guest.NetworkMonitor.{
  opened, NetworkMonitorState, is_nil, poll, accept, started, Turn, turn, run,
}

-- The connections that the last scan of a history found, `seen` if there was none.
abbrev pub last_scan : List Conn → List Turn → List Conn
last_scan seen [] = seen
last_scan seen (Turn.polled current ∷ ts) = last_scan current ts
last_scan seen (Turn.accepted outcomes ∷ ts) = last_scan seen ts

-- For each scan, the connections that the one before had not found.
abbrev pub reports : List Conn → List Turn → List Conn
reports seen [] = []
reports seen (Turn.polled current ∷ ts) = opened current seen ++ reports current ts
reports seen (Turn.accepted outcomes ∷ ts) = reports seen ts

last_scan-append :
    (seen : List Conn) (ts us : List Turn)
    → last_scan seen (ts ++ us) ≡ last_scan (last_scan seen ts) us
last_scan-append seen [] us = refl
last_scan-append seen (Turn.polled current ∷ ts) us = last_scan-append current ts us
last_scan-append seen (Turn.accepted outcomes ∷ ts) us = last_scan-append seen ts us

reports-append :
    (seen : List Conn) (ts us : List Turn)
    → reports seen (ts ++ us) ≡ reports seen ts ++ reports (last_scan seen ts) us
reports-append seen [] us = refl
reports-append seen (Turn.polled current ∷ ts) us =
    ap (λ r. opened current seen ++ r) (reports-append current ts us)
    ∙ sym (
        append_assoc (opened current seen) (reports current ts) (reports (last_scan current ts) us))
reports-append seen (Turn.accepted outcomes ∷ ts) us = reports-append seen ts us

-- The history is the one before the subscriber came, its coming, and the one since, of which it has
-- been told everything.
abbrev pub ToldSince : List Turn → Subscriber Conn → Type 0
ToldSince history sub =
    (before : List Turn) × (since : List Turn) × (outcomes : List Bool) × (history
      ≡ before ++ Turn.accepted outcomes ∷ since)
    × (sub.received ≡ reports (last_scan [] before) since)

abbrev Reported : List Turn → NetworkMonitorState → Type 0
Reported history s = (s.seen ≡ last_scan [] history) × All (ToldSince history) s.subscribers

module _ (history : List Turn) (current : List Conn) where
  abbrev longer : List Turn
  longer = history ++ Turn.polled current ∷ []

  last_scan-longer : last_scan [] longer ≡ current
  last_scan-longer = last_scan-append [] history (Turn.polled current ∷ [])

  told_news :
      (seen : List Conn)
      → seen ≡ last_scan [] history
      → (sub sub' : Subscriber Conn) → sub'.received ≡ sub.received ++ opened current seen
      → ToldSince history sub
      → ToldSince longer sub'
  told_news seen e sub sub' r (before, since, outcomes, split, told) = (
    before,
    since ++ Turn.polled current ∷ [],
    outcomes,
    ap (λ h. h ++ Turn.polled current ∷ []) split
        ∙ append_assoc before (Turn.accepted outcomes ∷ since) (Turn.polled current ∷ []),
    r
        ∙ ap (λ t. t ++ opened current seen) told
        ∙ ap (λ t. reports (last_scan [] before) since ++ t)
            (ap (opened current) (
                e
                ∙ ap (last_scan []) split
                ∙ last_scan-append [] before (Turn.accepted outcomes ∷ since))
              ∙ sym (append-nil (opened current (last_scan (last_scan [] before) since))))
        ∙ sym (reports-append (last_scan [] before) since (Turn.polled current ∷ [])),
  )

  poll-Reported : (s : NetworkMonitorState) → Reported history s → Reported longer (poll current s)
  unfolding poll
  poll-Reported s (e, subs) = elim (Bool-cases (is_nil (opened current s.seen))) [
    | inl quiet ↦
        rw (quiet, poll)
          (
            sym last_scan-longer,
            All-map (ToldSince history) (ToldSince longer) s.subscribers
                (λ sub h. told_news s.seen e sub sub (nothing (opened current s.seen) sub quiet) h)
                subs,
          )
    | inr news ↦
        rw (news, poll)
          (
            sym last_scan-longer,
            All-notify_round (send_all (opened current s.seen)) (ToldSince history)
                (ToldSince longer) s.subscribers
                (λ sub h sent.
                  told_news s.seen e sub (send_all (opened current s.seen) sub).0
                    (received-send_all (opened current s.seen) sub sent) h)
                subs,
          )
  ]
    where
      nothing :
          (conns : List Conn) (sub : Subscriber Conn)
          → is_nil conns ≡ true
          → sub.received ≡ sub.received ++ conns
      nothing [] sub h = sym (append-nil sub.received)
      nothing (c ∷ conns) sub h = cc

accept-Reported :
    (history : List Turn) (outcomes : List Bool) (s : NetworkMonitorState)
    → Reported history s
    → Reported (history ++ Turn.accepted outcomes ∷ []) (accept outcomes s)
accept-Reported history outcomes s (e, subs) = (
  e ∙ sym (last_scan-append [] history (Turn.accepted outcomes ∷ [])),
  All-append (ToldSince (history ++ Turn.accepted outcomes ∷ [])) s.subscribers _
      (All-map (ToldSince history) _ s.subscribers
        (λ sub (before, since, o, split, told). (
          before,
          since ++ Turn.accepted outcomes ∷ [],
          o,
          ap (λ h. h ++ Turn.accepted outcomes ∷ []) split
              ∙ append_assoc before (Turn.accepted o ∷ since) (Turn.accepted outcomes ∷ []),
          told
              ∙ sym (append-nil (reports (last_scan [] before) since))
              ∙ sym (reports-append (last_scan [] before) since (Turn.accepted outcomes ∷ [])),
        ))
        subs)
      ((history, [], outcomes, refl, refl), tt),
)

turn-Reported :
    (history : List Turn) (t : Turn) (s : NetworkMonitorState)
    → Reported history s
    → Reported (history ++ t ∷ []) (turn t s)
unfolding turn
turn-Reported history (Turn.polled current) s h = poll-Reported history current s h
turn-Reported history (Turn.accepted outcomes) s h = accept-Reported history outcomes s h

run-Reported :
    (history ts : List Turn) (s : NetworkMonitorState)
    → Reported history s
    → Reported (history ++ ts) (run ts s)
unfolding run
run-Reported history [] s h = subst (λ l. Reported l s) (sym (append-nil history)) h
run-Reported history (t ∷ ts) s h =
    subst (λ l. Reported l (run ts (turn t s))) (append_assoc history (t ∷ []) ts)
      (run-Reported (history ++ t ∷ []) ts (turn t s) (turn-Reported history t s h))

-- After any history of scans and of new subscribers, in any order and whichever writes failed, each
-- subscriber that is still there came at some point of the history, and since then it has been told,
-- in order and nothing else, the connections that each scan found and the one before had not.
pub run-ToldSince : (ts : List Turn) → All (ToldSince ts) (run ts started).subscribers
run-ToldSince ts = (run-Reported [] ts started (refl, tt)).1
