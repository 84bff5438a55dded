-- ===== src/Pool.antt =====
-- linux/src/pool.rs: the pool of VMs, one for each project. Each function here is one critical
-- section of `inner`, with the clock's reading as an argument; `Threads` interleaves them.
pub mod Invariant
pub mod Operations
pub mod Bounds
pub mod Reaping
pub mod Ensuring
pub mod StaleBoot
pub mod Threads
pub mod Registry
pub mod Counts
pub mod Sessions
pub mod Boot
mod Tests
use fend.Prelude.{
  ℕ, zero, suc, ◌+◌, ◌-◌, ◌*◌, ◌/◌, ◌%◌, ◌^◌, String, Bool, true, false, not, ◌&&◌, Option, none,
  some, List, [], ◌∷◌, string_eq, Result, ok, err, ◌>>=◌, ok_or, unwrap_or, ltb, leb, ◌==◌,
  if◌then◌else◌, length, keep_if, map, sort_by, ◌++◌,
}
use fend.Prelude.Dict.{lookup, insert, remove}
use fend.Prelude.Text.{join, concat, show}
use fend.Qemu.{NetworkMode, passt, user, off}
use fend.Vm.{
  EnsureOutcome, PoolError, VmEntry, VmPool, VmProcess, VmState, booting, canonicalize_failed,
  cid_base, cid_exhausted, cid_max, default_idle_ttl, ensure_max_retries, io, is_running, label,
  network_conflict, plan, running, same_network, stopping, supervisor,
}
use fend.Ipc.{VmConfig, VmStatus, project_key}

unfoldable pub with_launcher : String → VmPool
with_launcher state_dir = record {
  vms = [];
  next_cid = cid_base;
  state_dir = state_dir;
  idle_ttl = default_idle_ttl;
}

pub set_idle_ttl : VmPool → ℕ → VmPool
set_idle_ttl pool ttl = record pool { idle_ttl = ttl }

pub status_of : ℕ → VmEntry → VmStatus
status_of now e = record {
  project = e.project;
  cid = e.cid;
  state = label e.state;
  active_sessions = e.active_sessions;
  idle_secs = if e.active_sessions == 0 then (now - e.last_used) / 1000 else 0;
  run_dir = e.run_dir;
}

-- `fetch_add` on an `AtomicU32` wraps, and the counter moves on a refusal too.
unfoldable pub allocate_cid : VmPool → Result PoolError ℕ × VmPool
allocate_cid pool =
    let cid = pool.next_cid in
    let pool' = record pool { next_cid = (pool.next_cid + 1) % 2 ^ 32 } in
    if leb cid_max cid then (err cid_exhausted, pool') else (ok cid, pool')

-- What one pass of the loop of `ensure` does under the lock.
pub data Attempt : Type 0 where
  reuse : EnsureOutcome → Attempt
  refuse : PoolError → Attempt
  retry : Attempt
  boot : ℕ → String → Attempt

new_entry : String → VmConfig → ℕ → ℕ → String → VmEntry
new_entry project config now cid run_dir = record {
  project = project;
  cid = cid;
  run_dir = run_dir;
  state = booting;
  network = config.network;
  active_sessions = 1;
  last_used = now;
  process = none;
}

-- The two arms on an entry that is there: `Running | Booting`, and `Stopping`.
pub share : String → VmConfig → ℕ → VmPool → VmEntry → Attempt × VmPool
share key config now pool entry =
    if same_network entry.network config.network
    then (
      reuse (record { cid = entry.cid; run_dir = entry.run_dir; booted = false }),
      record pool {
        vms =
            insert key
              (record entry { active_sessions = entry.active_sessions + 1; last_used = now })
              pool.vms;
      },
    )
    else (refuse (network_conflict entry.network config.network), pool)

on_entry : String → VmConfig → ℕ → VmPool → VmEntry → VmState → Attempt × VmPool
unfolding share
on_entry key config now pool entry running = share key config now pool entry
on_entry key config now pool entry booting = share key config now pool entry
on_entry key config now pool entry stopping = (retry, pool)

-- The arm on an empty slot: reserve it before the lock is given back.
reserve : String → String → VmConfig → ℕ → Result PoolError ℕ × VmPool → Attempt × VmPool
unfolding new_entry
reserve project key config now (err e, pool) = (refuse e, pool)
reserve project key config now (ok cid, pool) =
    let run_dir = join (join pool.state_dir "vms") (concat (key ∷ "-" ∷ show cid ∷ [])) in
    (
      boot cid run_dir,
      record pool { vms = insert key (new_entry project config now cid run_dir) pool.vms },
    )

on_slot : String → String → VmConfig → ℕ → VmPool → Option VmEntry → Attempt × VmPool
unfolding on_entry reserve allocate_cid
on_slot project key config now pool (some entry) = on_entry key config now pool entry entry.state
on_slot project key config now pool none = reserve project key config now (allocate_cid pool)

unfoldable pub attempt : String → String → VmConfig → ℕ → VmPool → Attempt × VmPool
unfolding on_slot
attempt project key config now pool = on_slot project key config now pool (lookup key pool.vms)

outcome : ℕ → String → Bool → EnsureOutcome
outcome cid run_dir booted = record { cid = cid; run_dir = run_dir; booted = booted }

pub adopt : String → VmProcess → VmPool → Option VmEntry → VmPool
adopt key process pool none = pool
adopt key process pool (some entry) = record pool {
  vms = insert key (record entry { state = running; process = some process }) pool.vms;
}

-- The second critical section of a boot: its result is written to whatever entry the key has now.
unfoldable pub finish_boot :
    String
    → ℕ
    → String
    → Result PoolError VmProcess
    → VmPool
    → Result PoolError EnsureOutcome × VmPool
unfolding adopt outcome
finish_boot key cid run_dir (ok process) pool =
    (ok (outcome cid run_dir true), adopt key process pool (lookup key pool.vms))
finish_boot key cid run_dir (err e) pool = (err e, record pool { vms = remove key pool.vms })

pub released : ℕ → VmEntry → VmEntry
released now entry =
    let left = entry.active_sessions - 1 in
    if left == 0
    then record entry { active_sessions = left; last_used = now }
    else record entry { active_sessions = left }

on_release : String → ℕ → VmPool → Option VmEntry → VmPool
on_release key now pool none = pool
on_release key now pool (some entry) = record pool {
  vms = insert key (released now entry) pool.vms;
}

-- `saturating_sub` is the subtraction that stops at 0.
unfoldable pub release : String → ℕ → VmPool → VmPool
unfolding on_release released
release key now pool = on_release key now pool (lookup key pool.vms)

abbrev stopped : VmEntry → VmEntry
stopped entry = record entry { state = stopping }

take : String → VmPool → Option VmEntry → List VmEntry × VmPool
take key pool none = ([], pool)
take key pool (some entry) = (stopped entry ∷ [], record pool { vms = remove key pool.vms })

-- Removes one entry, if it is there, and gives it marked as `Stopping`.
pub take_out : String → VmPool → List VmEntry × VmPool
unfolding take
take_out key pool = take key pool (lookup key pool.vms)

-- The entries that `stop` drops, and the pool that is left; the count is their number.
pub stop : Option String → VmPool → List VmEntry × VmPool
unfolding take_out
stop (some key) pool = take_out key pool
stop none pool = (map (λ (e : String × VmEntry). stopped e.1) pool.vms, record pool { vms = [] })

pub is_stale : ℕ → ℕ → VmEntry → Bool
is_stale now ttl entry =
    entry.active_sessions == 0 && (is_running entry.state && ltb ttl (now - entry.last_used))

pub stale_keys : ℕ → ℕ → List (String × VmEntry) → List String
stale_keys now ttl vms =
    map (λ (e : String × VmEntry). e.0)
      (keep_if (λ (e : String × VmEntry). is_stale now ttl e.1) vms)

pub take_all : List String → VmPool → List VmEntry × VmPool
take_all [] pool = ([], pool)
take_all (key ∷ keys) pool =
    let (first, pool1) = take_out key pool in
    let (rest, pool2) = take_all keys pool1 in (first ++ rest, pool2)

pub reap : ℕ → VmPool → List VmEntry × VmPool
unfolding stale_keys take_all is_stale
reap now pool = take_all (stale_keys now pool.idle_ttl pool.vms) pool

-- `path_le` is the order of `Path`.
pub status : (String → String → Bool) → ℕ → VmPool → List VmStatus
unfolding status_of
status path_le now pool =
    sort_by (λ (a : VmStatus) (b : VmStatus). path_le a.project b.project)
      (map (λ (e : String × VmEntry). status_of now e.1) pool.vms)

-- What follows the pass; `next_pass` is the rest of the loop, and `meanwhile` what others do to the
-- pool while this call does not hold the lock.
settle :
    (VmPool → VmPool)
    → String
    → (ℕ → String → Result PoolError VmProcess)
    → Result PoolError EnsureOutcome × VmPool
    → Attempt
    → VmPool
    → Result PoolError EnsureOutcome × VmPool
settle meanwhile key boot_vm next_pass (reuse o) pool = (ok o, pool)
settle meanwhile key boot_vm next_pass (refuse e) pool = (err e, pool)
settle meanwhile key boot_vm next_pass (boot cid run_dir) pool =
    finish_boot key cid run_dir (boot_vm cid run_dir) (meanwhile pool)
settle meanwhile key boot_vm next_pass retry pool = next_pass

-- The loop of `ensure`. `boot_vm` is what `boot` gives for a CID and a run directory; `meanwhile` is
-- what others do to the pool during the boot, or during the pause before the next pass.
unfoldable pub ensure_loop :
    (VmPool → VmPool)
    → ℕ
    → String
    → String
    → VmConfig
    → ℕ
    → (ℕ → String → Result PoolError VmProcess)
    → VmPool
    → Result PoolError EnsureOutcome × VmPool
unfolding settle
ensure_loop meanwhile zero project key config now boot_vm pool =
    (err (io "ensure vm" project), pool)
ensure_loop meanwhile (suc n) project key config now boot_vm pool =
    let a = attempt project key config now pool in
    let next_pass = ensure_loop meanwhile n project key config now boot_vm (meanwhile a.1) in
    settle meanwhile key boot_vm next_pass a.0 a.1

-- `canonicalize` is the file system's; `hash` is the standard library's.
unfoldable pub ensure :
    (VmPool → VmPool)
    → (String → Option String)
    → (String → ℕ)
    → (String → ℕ → String → Result PoolError VmProcess)
    → VmConfig
    → ℕ
    → VmPool
    → Result PoolError EnsureOutcome × VmPool
ensure meanwhile canonicalize hash boot_vm config now pool = elim (canonicalize config.project) [
  | none ↦ (err (canonicalize_failed config.project), pool)
  | some project ↦
      ensure_loop meanwhile ensure_max_retries project (project_key hash project) config now
        (boot_vm project) pool
]
