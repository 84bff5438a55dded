-- ===== src/Daemon/Reaper.antt =====
-- The reaper comes round to every idle machine.
use fend.Prelude.{
  ℕ, ◌+◌, ◌*◌, ◌<◌, ◌≤◌, ◌≡◌, ap, ◌∙◌, String, true, none, some, List, [], ◌∷◌, leb, length, All,
  Bool-cases, inl, inr, string_eq, arith,
}
use fend.Prelude.Dict.{lookup}
use fend.Vm.{VmPool, VmEntry, is_running}
use fend.Pool.{reap}
use fend.Pool.Invariant.{Inv}
use fend.Pool.Operations.{reap-Inv}
use fend.Pool.Reaping.{survivor, lookup-reap}
use fend.Daemon.{reaper_turn, run_reaper}

-- What is gone stays gone.
lookup-run_reaper-none :
    (interval elapsed : ℕ) (nows : List ℕ) (k : String) (p : VmPool)
    → Inv p
    → lookup k p.vms ≡ none
    → lookup k (run_reaper interval elapsed nows p).vms ≡ none
unfolding run_reaper reaper_turn
lookup-run_reaper-none interval elapsed [] k p v h = h
lookup-run_reaper-none interval elapsed (now ∷ later) k p v h =
    elim (Bool-cases (leb interval (elapsed + 200))) [
      | inl due ↦
          rw (due, run_reaper)
            (lookup-run_reaper-none interval 0 later k (reap now p).1 (reap-Inv now p v)
              (lookup-reap now k p v ∙ ap (survivor now p.idle_ttl) h))
      | inr early ↦
          rw (early, run_reaper) (lookup-run_reaper-none interval (elapsed + 200) later k p v h)
    ]

survivor_idle :
    (now ttl : ℕ) (e : VmEntry)
    → e.active_sessions ≡ 0
    → is_running e.state ≡ true
    → e.last_used + ttl < now
    → survivor now ttl (some e) ≡ none
survivor_idle now ttl e idle running' stale = ground arith

module _ (interval : ℕ) (k : String) (p : VmPool) (e : VmEntry) where
  -- In a pool whose invariant holds, a running machine without a session is gone after as many turns
  -- of the reaper, one for each clock reading, as it takes to fill the interval, if it is due at
  -- every turn: the clock is past the last use by more than the TTL. Nobody else is to use the pool
  -- meanwhile.
  pub run_reaper_reaps :
      (elapsed : ℕ) (nows : List ℕ)
      → Inv p
      → lookup k p.vms ≡ some e
      → e.active_sessions ≡ 0
      → is_running e.state ≡ true
      → All (λ now. e.last_used + p.idle_ttl < now) nows
      → elapsed < interval
      → interval ≤ elapsed + 200 * length nows
      → lookup k (run_reaper interval elapsed nows p).vms ≡ none
  unfolding run_reaper reaper_turn
  run_reaper_reaps elapsed [] v found idle running' stale early enough = absurd (omega arith)
  run_reaper_reaps elapsed (now ∷ later) v found idle running' (due, stale) early enough =
      elim (Bool-cases (leb interval (elapsed + 200))) [
        | inl full ↦
            rw (full, run_reaper)
              (lookup-run_reaper-none interval 0 later k (reap now p).1 (reap-Inv now p v) (
                lookup-reap now k p v
                ∙ ap (survivor now p.idle_ttl) found
                ∙ survivor_idle now p.idle_ttl e idle running' due))
        | inr short ↦
            rw (short, run_reaper)
              (run_reaper_reaps (elapsed + 200) later v found idle running' stale (ground arith)
                (omega arith))
      ]
