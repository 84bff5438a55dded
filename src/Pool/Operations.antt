-- ===== src/Pool/Operations.antt =====
-- Every critical section of the pool keeps the invariant.
use fend.Prelude.{
  ℕ, ◌+◌, ◌-◌, ◌%◌, ◌^◌, ◌≤◌, ◌<◌, ◌≡◌, refl, ◌≢◌, inl, inr, String, Option, none, some, List, [],
  ◌∷◌, Result, ok, err, arith, leb, ◌==◌, string_eq, Bool-cases, Option-cases,
}
use fend.Prelude.Dict.{lookup, insert-Distinct, AllValues, insert-AllValues, AllValues-mono}
use fend.Ipc.{VmConfig}
use fend.Pool.Invariant.{Inv, EntryOk, Unused, insert_fresh-CidsDistinct, replace-Inv, remove-Inv}
use fend.Vm.{
  same_network, VmPool, VmEntry, VmState, booting, running, stopping, VmProcess, PoolError,
  cid_base, cid_max,
}
use fend.Pool.{
  allocate_cid, new_entry, share, on_entry, reserve, attempt, adopt, finish_boot, released,
  on_release, release, take_out, stop, take_all, stale_keys, reap,
}

share-Inv :
    (key : String) (config : VmConfig) (now : ℕ) (p : VmPool) (e : VmEntry)
    → Inv p
    → lookup key p.vms ≡ some e
    → Inv (share key config now p e).1
unfolding share
share-Inv key config now p e v found = elim (Bool-cases (same_network e.network config.network)) [
  | inl same ↦ rw same (
      replace-Inv p v key _ e found refl (λ o. record {
        not_reserved = o.not_reserved;
        given_out = o.given_out;
        not_last = o.not_last;
        not_stopping = o.not_stopping;
        has_process = o.has_process;
      }))
  | inr differs ↦ rw differs v
]

on_entry-Inv :
    (key : String) (config : VmConfig) (now : ℕ) (p : VmPool) (e : VmEntry) (s : VmState)
    → Inv p
    → lookup key p.vms ≡ some e
    → Inv (on_entry key config now p e s).1
unfolding on_entry
on_entry-Inv key config now p e running v found = share-Inv key config now p e v found
on_entry-Inv key config now p e booting v found = share-Inv key config now p e v found
on_entry-Inv key config now p e stopping v found = v

-- The counter goes up by one.
counted : (n : ℕ) → n + 1 < 2 ^ 32 → (n + 1) % 2 ^ 32 ≡ n + 1
counted n h = omega arith

raised : (n : ℕ) (e : VmEntry) → n + 1 < 2 ^ 32 → EntryOk n e → EntryOk ((n + 1) % 2 ^ 32) e
raised n e h o = record {
  not_reserved = o.not_reserved;
  given_out = let below = o.given_out in omega arith;
  not_last = o.not_last;
  not_stopping = o.not_stopping;
  has_process = o.has_process;
}

raised_all :
    (p : VmPool)
    → Inv p
    → p.next_cid + 1 < 2 ^ 32
    → AllValues (EntryOk ((p.next_cid + 1) % 2 ^ 32)) p.vms
raised_all p v small =
    AllValues-mono (EntryOk p.next_cid) (EntryOk ((p.next_cid + 1) % 2 ^ 32)) p.vms
      (λ e. raised p.next_cid e small) v.entries

next-Unused : (p : VmPool) → Inv p → Unused p.next_cid p.vms
next-Unused p v =
    AllValues-mono (EntryOk p.next_cid) (λ (e : VmEntry). e.cid ≢ p.next_cid) p.vms
      (λ e o. let below = o.given_out in omega arith) v.entries

new_entry-EntryOk :
    (project : String) (config : VmConfig) (now cid : ℕ) (run_dir : String)
    → cid_base ≤ cid
    → cid < cid_max
    → cid + 1 < 2 ^ 32
    → EntryOk ((cid + 1) % 2 ^ 32) (new_entry project config now cid run_dir)
unfolding new_entry
new_entry-EntryOk project config now cid run_dir low high small = record {
  not_reserved = low;
  given_out = omega arith;
  not_last = high;
  not_stopping = λ e. cc;
  has_process = λ e. cc;
}

-- The slot is empty: the CID that is given out is above every other.
reserve-Inv :
    (project key : String) (config : VmConfig) (now : ℕ) (p : VmPool)
    → Inv p
    → p.next_cid + 1 < 2 ^ 32
    → Inv (reserve project key config now (allocate_cid p)).1
unfolding reserve allocate_cid
reserve-Inv project key config now p v small = elim (Bool-cases (leb cid_max p.next_cid)) [
  | inl full ↦ rw full (record {
    keys = v.keys;
    entries = raised_all p v small;
    cids = v.cids;
    next = let base = v.next in omega arith;
  })
  | inr room ↦ rw room (record {
    keys = insert-Distinct key _ p.vms v.keys;
    entries =
        insert-AllValues (EntryOk ((p.next_cid + 1) % 2 ^ 32)) key _ p.vms
          (new_entry-EntryOk project config now p.next_cid _ v.next (ground arith) small)
          (raised_all p v small);
    cids = insert_fresh-CidsDistinct key _ p.vms (next-Unused p v) v.cids;
    next = let base = v.next in omega arith;
  })
]

pub attempt-Inv :
    (project key : String) (config : VmConfig) (now : ℕ) (p : VmPool)
    → Inv p
    → p.next_cid + 1 < 2 ^ 32
    → Inv (attempt project key config now p).1
unfolding attempt
attempt-Inv project key config now p v small = elim (Option-cases (lookup key p.vms)) [
  | inl empty ↦ rw empty (reserve-Inv project key config now p v small)
  | inr (e, found) ↦ rw found (on_entry-Inv key config now p e e.state v found)
]

adopt-Inv :
    (key : String) (process : VmProcess) (p : VmPool) (o : Option VmEntry)
    → Inv p
    → lookup key p.vms ≡ o
    → Inv (adopt key process p o)
unfolding adopt
adopt-Inv key process p none v found = v
adopt-Inv key process p (some e) v found = replace-Inv p v key _ e found refl λ o. record {
  not_reserved = o.not_reserved;
  given_out = o.given_out;
  not_last = o.not_last;
  not_stopping = λ h. cc;
  has_process = λ h k. cc;
}

pub finish_boot-Inv :
    (key : String) (cid : ℕ) (run_dir : String) (r : Result PoolError VmProcess) (p : VmPool)
    → Inv p
    → Inv (finish_boot key cid run_dir r p).1
unfolding finish_boot
finish_boot-Inv key cid run_dir (ok process) p v = adopt-Inv key process p (lookup key p.vms) v refl
finish_boot-Inv key cid run_dir (err e) p v = remove-Inv p v key

released-EntryOk : (n now : ℕ) (e : VmEntry) → EntryOk n e → EntryOk n (released now e)
unfolding released
released-EntryOk n now e o = elim (Bool-cases (e.active_sessions - 1 == 0)) [
  | inl last ↦ rw last (record {
    not_reserved = o.not_reserved;
    given_out = o.given_out;
    not_last = o.not_last;
    not_stopping = o.not_stopping;
    has_process = o.has_process;
  })
  | inr more ↦ rw more (record {
    not_reserved = o.not_reserved;
    given_out = o.given_out;
    not_last = o.not_last;
    not_stopping = o.not_stopping;
    has_process = o.has_process;
  })
]

released-cid : (now : ℕ) (e : VmEntry) → e.cid ≡ (released now e).cid
unfolding released
released-cid now e = ground arith

on_release-Inv :
    (key : String) (now : ℕ) (p : VmPool) (o : Option VmEntry)
    → Inv p
    → lookup key p.vms ≡ o
    → Inv (on_release key now p o)
unfolding on_release
on_release-Inv key now p none v found = v
on_release-Inv key now p (some e) v found =
    replace-Inv p v key (released now e) e found (released-cid now e)
      (released-EntryOk p.next_cid now e)

pub release-Inv : (key : String) (now : ℕ) (p : VmPool) → Inv p → Inv (release key now p)
unfolding release
release-Inv key now p v = on_release-Inv key now p (lookup key p.vms) v refl

pub take_out-Inv : (key : String) (p : VmPool) → Inv p → Inv (take_out key p).1
unfolding take_out
take_out-Inv key p v = elim (Option-cases (lookup key p.vms)) [
  | inl empty ↦ rw empty v
  | inr (e, found) ↦ rw found (remove-Inv p v key)
]

pub stop-Inv : (key : Option String) (p : VmPool) → Inv p → Inv (stop key p).1
unfolding stop
stop-Inv (some key) p v = take_out-Inv key p v
stop-Inv none p v = record { keys = tt; entries = tt; cids = tt; next = v.next }

take_all-Inv : (keys : List String) (p : VmPool) → Inv p → Inv (take_all keys p).1
unfolding take_all
take_all-Inv [] p v = v
take_all-Inv (key ∷ keys) p v = take_all-Inv keys (take_out key p).1 (take_out-Inv key p v)

pub reap-Inv : (now : ℕ) (p : VmPool) → Inv p → Inv (reap now p).1
unfolding reap
reap-Inv now p v = take_all-Inv (stale_keys now p.idle_ttl p.vms) p v
