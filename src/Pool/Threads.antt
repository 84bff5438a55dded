-- ===== src/Pool/Threads.antt =====
-- The pool under concurrent calls: a history is a list of critical sections, in the order in which
-- the lock was taken, and a boot that is under way between its two sections is pending.
pub mod Safety
pub mod Refinement
use fend.Prelude.{
  ℕ, String, Bool, Option, none, some, List, [], ◌∷◌, Result, ok, err, if◌then◌else◌, get_elem?,
  erase_at,
}
use fend.Ipc.{VmConfig}
use fend.Vm.{VmPool, VmProcess, PoolError, supervisor}
use fend.Pool.{Attempt, reuse, refuse, retry, boot, attempt, finish_boot, release, stop, reap}

pub record Boot : Type 0 where
  pub key : String
  pub cid : ℕ
  pub run_dir : String

pub record System : Type 0 where
  pub pool : VmPool
  pub boots : List Boot

-- The arguments are the canonical project, its key, the request and the clock; `finishes i` ends
-- the i-th pending boot, well or not.
pub data Event : Type 0 where
  ensures : String → String → VmConfig → ℕ → Event
  finishes : ℕ → Bool → Event
  releases : String → ℕ → Event
  stops : Option String → Event
  reaps : ℕ → Event

pub pending : String → Attempt → List Boot → List Boot
pending key (boot cid run_dir) boots = record { key = key; cid = cid; run_dir = run_dir } ∷ boots
pending key _ boots = boots

pub launched : Bool → ℕ → Result PoolError VmProcess
launched good cid =
    if good then ok (record { launched_cid = cid }) else err (supervisor "launch failed")

finish : ℕ → Bool → System → Option Boot → System
unfolding launched
finish i good s none = s
finish i good s (some b) = record {
  pool = (finish_boot b.key b.cid b.run_dir (launched good b.cid) s.pool).1;
  boots = erase_at i s.boots;
}

unfoldable pub step : System → Event → System
unfolding pending finish
step s (ensures project key config now) =
    let (a, pool) = attempt project key config now s.pool in
    record { pool = pool; boots = pending key a s.boots }
step s (finishes i good) = finish i good s (get_elem? s.boots i)
step s (releases key now) = record s { pool = release key now s.pool }
step s (stops key) = record s { pool = (stop key s.pool).1 }
step s (reaps now) = record s { pool = (reap now s.pool).1 }

unfoldable pub run : System → List Event → System
run s [] = s
run s (e ∷ es) = run (step s e) es
