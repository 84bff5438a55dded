-- ===== src/Pool/Ensuring.antt =====
-- `ensure`: one pass of its loop is enough, and what it leaves in the pool.
use fend.Prelude.{
  ℕ, suc, ◌≡◌, refl, ◌≢◌, inl, inr, String, Result, ok, err, arith, string_eq, Option-cases,
}
use fend.Prelude.Dict.{lookup}
use fend.Ipc.{VmConfig}
use fend.Pool.Invariant.{Inv, lookup-EntryOk}
use fend.Vm.{
  VmPool, VmEntry, VmState, booting, running, stopping, VmProcess, PoolError, io, EnsureOutcome,
}
use fend.Pool.{
  Attempt, reuse, refuse, retry, boot, allocate_cid, on_entry, reserve, attempt, finish_boot,
  settle, ensure_loop,
}

on_entry-ne-retry :
    (key : String) (config : VmConfig) (now : ℕ) (p : VmPool) (e : VmEntry) (s : VmState)
    → s ≢ stopping
    → (on_entry key config now p e s).0 ≢ retry
unfolding on_entry
on_entry-ne-retry key config now p e running live = ground arith
on_entry-ne-retry key config now p e booting live = ground arith
on_entry-ne-retry key config now p e stopping live = absurd (live refl)

reserve-ne-retry :
    (project key : String) (config : VmConfig) (now : ℕ) (r : Result PoolError ℕ × VmPool)
    → (reserve project key config now r).0 ≢ retry
unfolding reserve
reserve-ne-retry project key config now (ok cid, p) = λ e. cc
reserve-ne-retry project key config now (err e, p) = λ e. cc

-- `Stopping` is only ever written to entries that have left the map, so the arm that waits for a
-- stop to finish is never taken.
pub attempt-ne-retry :
    (project key : String) (config : VmConfig) (now : ℕ) (p : VmPool)
    → Inv p
    → (attempt project key config now p).0 ≢ retry
unfolding attempt
attempt-ne-retry project key config now p v = elim (Option-cases (lookup key p.vms)) [
  | inl empty ↦ rw empty (reserve-ne-retry project key config now (allocate_cid p))
  | inr (e, found) ↦
      rw found
        (on_entry-ne-retry key config now p e e.state (lookup-EntryOk p v key e found).not_stopping)
]

-- What the caller gets for what one pass found.
abbrev pub answer :
    (VmPool → VmPool)
    → String
    → (ℕ → String → Result PoolError VmProcess)
    → Attempt
    → VmPool
    → Result PoolError EnsureOutcome × VmPool
answer meanwhile key boot_vm (reuse o) p = (ok o, p)
answer meanwhile key boot_vm (refuse e) p = (err e, p)
answer meanwhile key boot_vm (boot cid run_dir) p =
    finish_boot key cid run_dir (boot_vm cid run_dir) (meanwhile p)
answer meanwhile key boot_vm retry p = (err (io "ensure vm" key), p)

settle-answer :
    (meanwhile : VmPool → VmPool) (key : String) (boot_vm : ℕ → String → Result PoolError VmProcess)
    (next_pass : Result PoolError EnsureOutcome × VmPool) (a : Attempt) (p : VmPool)
    → a ≢ retry
    → settle meanwhile key boot_vm next_pass a p ≡ answer meanwhile key boot_vm a p
unfolding settle
settle-answer meanwhile key boot_vm next_pass (reuse o) p live = refl
settle-answer meanwhile key boot_vm next_pass (refuse e) p live = refl
settle-answer meanwhile key boot_vm next_pass (boot cid run_dir) p live = refl
settle-answer meanwhile key boot_vm next_pass retry p live = absurd (live refl)

-- On a pool whose invariant holds, the loop of `ensure` ends in its first pass, whatever the
-- number of retries: its answer is that of one attempt.
pub ensure_loop_single :
    (meanwhile : VmPool → VmPool) (n : ℕ) (project key : String) (config : VmConfig) (now : ℕ)
    (boot_vm : ℕ → String → Result PoolError VmProcess) (p : VmPool)
    → Inv p
    → let a = attempt project key config now p in
      ensure_loop meanwhile (suc n) project key config now boot_vm p
      ≡ answer meanwhile key boot_vm a.0 a.1
unfolding ensure_loop
ensure_loop_single meanwhile n project key config now boot_vm p v =
    settle-answer meanwhile key boot_vm _ _ _ (attempt-ne-retry project key config now p v)
