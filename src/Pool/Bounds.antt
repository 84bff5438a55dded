-- ===== src/Pool/Bounds.antt =====
-- The CID counter: which operations move it.
use fend.Prelude.{
  ℕ, ◌+◌, ◌%◌, ◌^◌, ◌≤◌, ◌≡◌, refl, ◌∙◌, inl, inr, String, Option, none, some, List, [], ◌∷◌,
  Result, ok, err, arith, leb, string_eq, Bool-cases, Option-cases,
}
use fend.Prelude.Dict.{lookup}
use fend.Ipc.{VmConfig}
use fend.Vm.{VmPool, VmEntry, VmState, booting, running, stopping, VmProcess, PoolError, cid_max}
use fend.Pool.{
  allocate_cid, on_entry, reserve, attempt, adopt, finish_boot, on_release, release, take_out, take,
  stop, take_all, stale_keys, reap,
}

on_entry-next_cid :
    (key : String) (config : VmConfig) (now : ℕ) (p : VmPool) (e : VmEntry) (s : VmState)
    → (on_entry key config now p e s).1.next_cid ≡ p.next_cid
unfolding on_entry
on_entry-next_cid key config now p e running = ground arith
on_entry-next_cid key config now p e booting = ground arith
on_entry-next_cid key config now p e stopping = refl

reserve-next_cid :
    (project key : String) (config : VmConfig) (now : ℕ) (p : VmPool)
    → (reserve project key config now (allocate_cid p)).1.next_cid ≡ (p.next_cid + 1) % 2 ^ 32
unfolding reserve allocate_cid
reserve-next_cid project key config now p = elim (Bool-cases (leb cid_max p.next_cid)) [
  | inl full ↦ rw full
  | inr room ↦ rw room
]

pub attempt-next_cid :
    (project key : String) (config : VmConfig) (now : ℕ) (p : VmPool)
    → (attempt project key config now p).1.next_cid ≤ p.next_cid + 1
unfolding attempt
attempt-next_cid project key config now p = elim (Option-cases (lookup key p.vms)) [
  | inl empty ↦ rw empty (omega (arith, reserve-next_cid project key config now p))
  | inr (e, found) ↦ rw found (omega (arith, on_entry-next_cid key config now p e e.state))
]

adopt-next_cid :
    (key : String) (process : VmProcess) (p : VmPool) (o : Option VmEntry)
    → (adopt key process p o).next_cid ≡ p.next_cid
unfolding adopt
adopt-next_cid key process p none = refl
adopt-next_cid key process p (some e) = refl

pub finish_boot-next_cid :
    (key : String) (cid : ℕ) (run_dir : String) (r : Result PoolError VmProcess) (p : VmPool)
    → (finish_boot key cid run_dir r p).1.next_cid ≡ p.next_cid
unfolding finish_boot
finish_boot-next_cid key cid run_dir (ok process) p =
    adopt-next_cid key process p (lookup key p.vms)
finish_boot-next_cid key cid run_dir (err e) p = refl

on_release-next_cid :
    (key : String) (now : ℕ) (p : VmPool) (o : Option VmEntry)
    → (on_release key now p o).next_cid ≡ p.next_cid
unfolding on_release
on_release-next_cid key now p none = refl
on_release-next_cid key now p (some e) = refl

pub release-next_cid :
    (key : String) (now : ℕ) (p : VmPool) → (release key now p).next_cid ≡ p.next_cid
unfolding release
release-next_cid key now p = on_release-next_cid key now p (lookup key p.vms)

take-next_cid :
    (key : String) (p : VmPool) (o : Option VmEntry) → (take key p o).1.next_cid ≡ p.next_cid
unfolding take
take-next_cid key p none = refl
take-next_cid key p (some e) = refl

take_out-next_cid : (key : String) (p : VmPool) → (take_out key p).1.next_cid ≡ p.next_cid
unfolding take_out
take_out-next_cid key p = take-next_cid key p (lookup key p.vms)

pub stop-next_cid : (key : Option String) (p : VmPool) → (stop key p).1.next_cid ≡ p.next_cid
unfolding stop
stop-next_cid (some key) p = take_out-next_cid key p
stop-next_cid none p = refl

take_all-next_cid : (keys : List String) (p : VmPool) → (take_all keys p).1.next_cid ≡ p.next_cid
unfolding take_all
take_all-next_cid [] p = refl
take_all-next_cid (key ∷ keys) p =
    take_all-next_cid keys (take_out key p).1 ∙ take_out-next_cid key p

pub reap-next_cid : (now : ℕ) (p : VmPool) → (reap now p).1.next_cid ≡ p.next_cid
unfolding reap
reap-next_cid now p = take_all-next_cid (stale_keys now p.idle_ttl p.vms) p
