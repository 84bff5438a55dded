-- ===== src/Pool/Threads/Safety.antt =====
-- Whatever the interleaving, the pool's invariant holds.
use fend.Prelude.{
  ℕ, ◌+◌, ◌^◌, ◌≤◌, ◌<◌, ◌≡◌, refl, String, Bool, Option, none, some, List, [], ◌∷◌, arith,
  string_eq, length, get_elem?,
}
use fend.Pool.Invariant.{Inv, with_launcher-Inv}
use fend.Pool.Operations.{attempt-Inv, finish_boot-Inv, release-Inv, stop-Inv, reap-Inv}
use fend.Pool.Bounds.{
  attempt-next_cid, finish_boot-next_cid, release-next_cid, stop-next_cid, reap-next_cid,
}
use fend.Pool.{with_launcher}
use fend.Pool.Threads.{
  Boot, System, Event, ensures, finishes, releases, stops, reaps, finish, step, run,
}

finish-Inv :
    (i : ℕ) (good : Bool) (s : System) (o : Option Boot) → Inv s.pool → Inv (finish i good s o).pool
unfolding finish
finish-Inv i good s none v = v
finish-Inv i good s (some b) v = finish_boot-Inv b.key b.cid b.run_dir _ s.pool v

finish-next_cid :
    (i : ℕ) (good : Bool) (s : System) (o : Option Boot)
    → (finish i good s o).pool.next_cid ≡ s.pool.next_cid
unfolding finish
finish-next_cid i good s none = refl
finish-next_cid i good s (some b) = finish_boot-next_cid b.key b.cid b.run_dir _ s.pool

pub step-Inv :
    (s : System) (e : Event) → Inv s.pool → s.pool.next_cid + 1 < 2 ^ 32 → Inv (step s e).pool
unfolding step
step-Inv s (ensures project key config now) v small =
    attempt-Inv project key config now s.pool v small
step-Inv s (finishes i good) v small = finish-Inv i good s (get_elem? s.boots i) v
step-Inv s (releases key now) v small = release-Inv key now s.pool v
step-Inv s (stops key) v small = stop-Inv key s.pool v
step-Inv s (reaps now) v small = reap-Inv now s.pool v

-- A step gives out at most one CID.
pub step-next_cid : (s : System) (e : Event) → (step s e).pool.next_cid ≤ s.pool.next_cid + 1
unfolding step
step-next_cid s (ensures project key config now) = attempt-next_cid project key config now s.pool
step-next_cid s (finishes i good) = omega (arith, finish-next_cid i good s (get_elem? s.boots i))
step-next_cid s (releases key now) = omega (arith, release-next_cid key now s.pool)
step-next_cid s (stops key) = omega (arith, stop-next_cid key s.pool)
step-next_cid s (reaps now) = omega (arith, reap-next_cid now s.pool)

pub run-Inv :
    (es : List Event) (s : System)
    → Inv s.pool
    → s.pool.next_cid + length es < 2 ^ 32
    → Inv (run s es).pool
unfolding run
run-Inv [] s v small = v
run-Inv (e ∷ es) s v small =
    run-Inv es (step s e) (step-Inv s e v (omega arith)) (omega (arith, step-next_cid s e))

abbrev pub start : String → System
start dir = record { pool = with_launcher dir; boots = [] }

-- After any history of fewer than 2 ^ 32 - 100 critical sections, in any order: no two entries
-- have one key or one CID, every CID is at least `cid_base` and below `cid_max`, no entry is left
-- in the state `Stopping`, and a running entry holds its process.
pub run_safe :
    (dir : String) (es : List Event) → 100 + length es < 2 ^ 32 → Inv (run (start dir) es).pool
unfolding with_launcher
run_safe dir es small = run-Inv es (start dir) (with_launcher-Inv dir) small
