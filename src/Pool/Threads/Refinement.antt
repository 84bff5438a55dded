-- ===== src/Pool/Threads/Refinement.antt =====
-- The pool, whatever its representation, does what the registry says.
use mathlib.Core.Path.{fun_ext}
use fend.Prelude.{
  ℕ, zero, suc, ◌+◌, ◌-◌, ◌≤◌, ◌<◌, ◌≡◌, refl, sym, ap, ◌∙◌, inl, inr, String, Bool, true, false,
  Option, none, some, List, [], ◌∷◌, map, Result, ok, err, arith, leb, ◌==◌, if◌then◌else◌,
  string_eq, Bool-cases, Option-cases, length, get_elem?, erase_at,
}
use fend.Prelude.Dict.{lookup, insert, lookup-insert, lookup-remove, AllValues-lookup}
use fend.Ipc.{VmConfig}
use fend.Vm.{
  VmPool, VmEntry, VmState, booting, running, stopping, VmProcess, PoolError, same_network,
  is_running, cid_max, default_idle_ttl,
}
use fend.Pool.Invariant.{Inv, EntryOk, with_launcher-Inv}
use fend.Pool.Threads.Safety.{step-Inv, step-next_cid, start}
use fend.Pool.Reaping.{survivor, lookup-reap, take_out-lookup}
use fend.Pool.{
  allocate_cid, new_entry, share, on_entry, reserve, attempt, adopt, finish_boot, released,
  on_release, release, stop, reap, take_out, take, take_all, stale_keys, on_slot, with_launcher,
}
use fend.Pool.Threads.{
  Boot, System, Event, ensures, finishes, releases, stops, reaps, launched, pending, finish, step,
  run,
}
use fend.Pool.Registry.{
  Lease, Leases, Registry, at, enter, leave, settle_boot, expire, wait_for, settle_at, next, after,
}

abbrev pub lease : VmEntry → Lease
lease e = record {
  sessions = e.active_sessions;
  ready = is_running e.state;
  network = e.network;
  last_used = e.last_used;
}

abbrev pub lease_of : Option VmEntry → Option Lease
lease_of none = none
lease_of (some e) = some (lease e)

abbrev pub leases : VmPool → Leases
leases p k = lease_of (lookup k p.vms)

-- A write at one key, where the rest is as it was.
at_written :
    (f : Option Lease → Option Lease) (key k : String) (p : VmPool) (o o' : Option VmEntry)
    → lookup key p.vms ≡ o
    → f (lease_of o) ≡ lease_of o'
    → lease_of (if string_eq.beq key k then o' else lookup k p.vms) ≡ at key f (leases p) k
at_written f key k p o o' found e = elim (Bool-cases (string_eq.beq key k)) [
  | inl hit ↦
      let same : key ≡ k = (string_eq.beq_iff key k).0 hit in
      rw hit (sym (ap (λ x. f (lease_of x)) (rw (sym same) found) ∙ e))
  | inr miss ↦ rw miss refl
]

at_kept :
    (f : Option Lease → Option Lease) (key k : String) (p : VmPool) (o : Option VmEntry)
    → lookup key p.vms ≡ o
    → f (lease_of o) ≡ lease_of o
    → leases p k ≡ at key f (leases p) k
at_kept f key k p o found e = elim (Bool-cases (string_eq.beq key k)) [
  | inl hit ↦
      let same : key ≡ k = (string_eq.beq_iff key k).0 hit in
      let here : lookup k p.vms ≡ o = rw (sym same) found in
      rw hit (ap lease_of here ∙ sym (ap (λ x. f (lease_of x)) here ∙ e))
  | inr miss ↦ rw miss refl
]

insert-leases :
    (f : Option Lease → Option Lease) (key k : String) (p : VmPool) (o : Option VmEntry)
    (e : VmEntry)
    → lookup key p.vms ≡ o
    → f (lease_of o) ≡ some (lease e)
    → lease_of (lookup k (insert key e p.vms)) ≡ at key f (leases p) k
insert-leases f key k p o e found h =
    ap lease_of (lookup-insert key k e p.vms) ∙ at_written f key k p o (some e) found h

-- A request.

share-leases :
    (key k : String) (config : VmConfig) (now : ℕ) (p : VmPool) (e : VmEntry)
    → lookup key p.vms ≡ some e
    → leases (share key config now p e).1 k ≡ at key (enter config.network now) (leases p) k
unfolding share
share-leases key k config now p e found =
    elim (Bool-cases (same_network e.network config.network)) [
      | inl same ↦
          rw same (insert-leases (enter config.network now) key k p (some e) _ found (rw same refl))
      | inr other ↦
          rw other (at_kept (enter config.network now) key k p (some e) found (rw other refl))
    ]

on_entry-leases :
    (key k : String) (config : VmConfig) (now : ℕ) (p : VmPool) (e : VmEntry) (s : VmState)
    → lookup key p.vms ≡ some e
    → e.state ≡ s
    → EntryOk p.next_cid e
    → leases (on_entry key config now p e s).1 k ≡ at key (enter config.network now) (leases p) k
unfolding on_entry
on_entry-leases key k config now p e running found st v = share-leases key k config now p e found
on_entry-leases key k config now p e booting found st v = share-leases key k config now p e found
on_entry-leases key k config now p e stopping found st v = absurd (v.not_stopping st)

reserve-leases :
    (project key k : String) (config : VmConfig) (now : ℕ) (p : VmPool)
    → lookup key p.vms ≡ none
    → p.next_cid < cid_max
    → leases (reserve project key config now (allocate_cid p)).1 k
      ≡ at key (enter config.network now) (leases p) k
unfolding reserve allocate_cid new_entry
reserve-leases project key k config now p empty room =
    let free : leb cid_max p.next_cid ≡ false = ground arith in
    rw free (insert-leases (enter config.network now) key k p none _ empty refl)

attempt-leases :
    (project key k : String) (config : VmConfig) (now : ℕ) (p : VmPool)
    → Inv p
    → p.next_cid < cid_max
    → leases (attempt project key config now p).1 k ≡ at key (enter config.network now) (leases p) k
unfolding attempt
attempt-leases project key k config now p v room = elim (Option-cases (lookup key p.vms)) [
  | inl empty ↦ rw empty (reserve-leases project key k config now p empty room)
  | inr (e, found) ↦ rw found (
      on_entry-leases key k config now p e e.state found refl
        (AllValues-lookup (EntryOk p.next_cid) key e p.vms v.entries found))
]

-- The end of a boot.

adopt-leases :
    (key k : String) (process : VmProcess) (p : VmPool) (o : Option VmEntry)
    → lookup key p.vms ≡ o
    → leases (adopt key process p o) k ≡ at key (settle_boot true) (leases p) k
unfolding adopt
adopt-leases key k process p none empty = at_kept (settle_boot true) key k p none empty refl
adopt-leases key k process p (some e) found =
    insert-leases (settle_boot true) key k p (some e) _ found refl

finish_boot-leases :
    (key k : String) (cid : ℕ) (run_dir : String) (good : Bool) (p : VmPool)
    → leases (finish_boot key cid run_dir (launched good cid) p).1 k
      ≡ at key (settle_boot good) (leases p) k
unfolding finish_boot launched
finish_boot-leases key k cid run_dir true p = adopt-leases key k _ p (lookup key p.vms) refl
finish_boot-leases key k cid run_dir false p =
    ap lease_of (lookup-remove key k p.vms)
    ∙ at_written (settle_boot false) key k p (lookup key p.vms) none refl refl

-- The end of a session.

released-lease :
    (now : ℕ) (e : VmEntry) → leave now (some (lease e)) ≡ some (lease (released now e))
unfolding released
released-lease now e = elim (Bool-cases (e.active_sessions - 1 == 0)) [
  | inl last ↦ rw last refl
  | inr more ↦ rw more refl
]

on_release-leases :
    (key k : String) (now : ℕ) (p : VmPool) (o : Option VmEntry)
    → lookup key p.vms ≡ o
    → leases (on_release key now p o) k ≡ at key (leave now) (leases p) k
unfolding on_release
on_release-leases key k now p none empty = at_kept (leave now) key k p none empty refl
on_release-leases key k now p (some e) found =
    insert-leases (leave now) key k p (some e) (released now e) found (released-lease now e)

release-leases :
    (key k : String) (now : ℕ) (p : VmPool)
    → leases (release key now p) k ≡ at key (leave now) (leases p) k
unfolding release
release-leases key k now p = on_release-leases key k now p (lookup key p.vms) refl

-- What takes VMs away.

stop-leases :
    (key k : String) (p : VmPool) → leases (stop (some key) p).1 k ≡ at key (λ o. none) (leases p) k
unfolding stop
stop-leases key k p =
    ap lease_of (take_out-lookup key k p)
    ∙ at_written (λ o. none) key k p (lookup key p.vms) none refl refl

survivor-expire :
    (now ttl : ℕ) (o : Option VmEntry) → lease_of (survivor now ttl o) ≡ expire now ttl (lease_of o)
survivor-expire now ttl none = refl
survivor-expire now ttl (some e) = ground arith

reap-leases :
    (now : ℕ) (k : String) (p : VmPool)
    → Inv p
    → leases (reap now p).1 k ≡ expire now p.idle_ttl (leases p k)
reap-leases now k p v =
    ap lease_of (lookup-reap now k p v) ∙ survivor-expire now p.idle_ttl (lookup k p.vms)

-- The boots that are under way.

abbrev pub keys : List Boot → List String
keys = map (λ (b : Boot). b.key)

share-pending :
    (key : String) (config : VmConfig) (now : ℕ) (p : VmPool) (e : VmEntry) (boots : List Boot)
    → pending key (share key config now p e).0 boots ≡ boots
unfolding share pending
share-pending key config now p e boots = elim (Bool-cases (same_network e.network config.network)) [
  | inl same ↦ rw same refl
  | inr other ↦ rw other refl
]

on_entry-pending :
    (key : String) (config : VmConfig) (now : ℕ) (p : VmPool) (e : VmEntry) (s : VmState)
    (boots : List Boot)
    → pending key (on_entry key config now p e s).0 boots ≡ boots
unfolding on_entry pending
on_entry-pending key config now p e running boots = share-pending key config now p e boots
on_entry-pending key config now p e booting boots = share-pending key config now p e boots
on_entry-pending key config now p e stopping boots = refl

reserve-pending :
    (project key : String) (config : VmConfig) (now : ℕ) (p : VmPool) (boots : List Boot)
    → p.next_cid < cid_max
    → keys (pending key (reserve project key config now (allocate_cid p)).0 boots)
      ≡ key ∷ keys boots
unfolding reserve allocate_cid pending
reserve-pending project key config now p boots room =
    let free : leb cid_max p.next_cid ≡ false = ground arith in rw free refl

attempt-pending :
    (project key : String) (config : VmConfig) (now : ℕ) (p : VmPool) (boots : List Boot)
    → p.next_cid < cid_max
    → keys (pending key (attempt project key config now p).0 boots)
      ≡ wait_for key (leases p key) (keys boots)
unfolding attempt
attempt-pending project key config now p boots room = elim (Option-cases (lookup key p.vms)) [
  | inl empty ↦ rw empty (reserve-pending project key config now p boots room)
  | inr (e, found) ↦ rw found (ap keys (on_entry-pending key config now p e e.state boots))
]

keys-erase_at : (i : ℕ) (boots : List Boot) → keys (erase_at i boots) ≡ erase_at i (keys boots)
keys-erase_at i [] = refl
keys-erase_at zero (b ∷ boots) = refl
keys-erase_at (suc i) (b ∷ boots) = ap (λ t. b.key ∷ t) (keys-erase_at i boots)

abbrev key_of : Option Boot → Option String
key_of none = none
key_of (some b) = some b.key

get_elem?-keys : (i : ℕ) (boots : List Boot) → get_elem? (keys boots) i ≡ key_of (get_elem? boots i)
get_elem?-keys i [] = refl
get_elem?-keys zero (b ∷ boots) = refl
get_elem?-keys (suc i) (b ∷ boots) = get_elem?-keys i boots

-- The TTL, which no step changes.

attempt-idle_ttl :
    (project key : String) (config : VmConfig) (now : ℕ) (p : VmPool)
    → (attempt project key config now p).1.idle_ttl ≡ p.idle_ttl
unfolding attempt on_slot on_entry share reserve allocate_cid
attempt-idle_ttl project key config now p = ground arith

finish_boot-idle_ttl :
    (key : String) (cid : ℕ) (run_dir : String) (r : Result PoolError VmProcess) (p : VmPool)
    → (finish_boot key cid run_dir r p).1.idle_ttl ≡ p.idle_ttl
unfolding finish_boot adopt
finish_boot-idle_ttl key cid run_dir (ok process) p = ground arith
finish_boot-idle_ttl key cid run_dir (err e) p = refl

release-idle_ttl : (key : String) (now : ℕ) (p : VmPool) → (release key now p).idle_ttl ≡ p.idle_ttl
unfolding release on_release
release-idle_ttl key now p = ground arith

take_out-idle_ttl : (key : String) (p : VmPool) → (take_out key p).1.idle_ttl ≡ p.idle_ttl
unfolding take_out take
take_out-idle_ttl key p = ground arith

stop-idle_ttl : (key : Option String) (p : VmPool) → (stop key p).1.idle_ttl ≡ p.idle_ttl
unfolding stop
stop-idle_ttl (some key) p = take_out-idle_ttl key p
stop-idle_ttl none p = refl

take_all-idle_ttl : (ks : List String) (p : VmPool) → (take_all ks p).1.idle_ttl ≡ p.idle_ttl
unfolding take_all
take_all-idle_ttl [] p = refl
take_all-idle_ttl (k ∷ ks) p = take_all-idle_ttl ks (take_out k p).1 ∙ take_out-idle_ttl k p

reap-idle_ttl : (now : ℕ) (p : VmPool) → (reap now p).1.idle_ttl ≡ p.idle_ttl
unfolding reap
reap-idle_ttl now p = take_all-idle_ttl (stale_keys now p.idle_ttl p.vms) p

-- The registry that a pool stands for.
abbrev pub registry : System → Registry
registry s = record { leases = leases s.pool; pending = keys s.boots; ttl = s.pool.idle_ttl }

registry_eq :
    (s : System) (r : Registry)
    → ((k : String) → leases s.pool k ≡ r.leases k)
    → keys s.boots ≡ r.pending
    → s.pool.idle_ttl ≡ r.ttl
    → registry s ≡ r
registry_eq s r l p t = λ i. record { leases = fun_ext l i; pending = p i; ttl = t i }

finish-registry :
    (i : ℕ) (good : Bool) (s : System) (o : Option Boot)
    → registry (finish i good s o) ≡ settle_at i good (key_of o) (registry s)
unfolding finish
finish-registry i good s none = refl
finish-registry i good s (some b) =
    registry_eq (finish i good s (some b)) (settle_at i good (some b.key) (registry s))
      (λ k. finish_boot-leases b.key k b.cid b.run_dir good s.pool) (keys-erase_at i s.boots)
      (finish_boot-idle_ttl b.key b.cid b.run_dir (launched good b.cid) s.pool)

stop_all : (s : System) → registry (step s (stops none)) ≡ next (registry s) (stops none)
unfolding step stop lookup
stop_all s = refl

step-next :
    (s : System) (e : Event)
    → Inv s.pool
    → s.pool.next_cid < cid_max
    → registry (step s e) ≡ next (registry s) e
unfolding step
step-next s (ensures project key config now) v room =
    registry_eq (step s (ensures project key config now))
      (next (registry s) (ensures project key config now))
      (λ k. attempt-leases project key k config now s.pool v room)
      (attempt-pending project key config now s.pool s.boots room)
      (attempt-idle_ttl project key config now s.pool)
step-next s (finishes i good) v room =
    finish-registry i good s (get_elem? s.boots i)
    ∙ ap (λ o. settle_at i good o (registry s)) (sym (get_elem?-keys i s.boots))
step-next s (releases key now) v room =
    registry_eq (step s (releases key now)) (next (registry s) (releases key now))
      (λ k. release-leases key k now s.pool) refl (release-idle_ttl key now s.pool)
step-next s (stops (some key)) v room =
    registry_eq (step s (stops (some key))) (next (registry s) (stops (some key)))
      (λ k. stop-leases key k s.pool) refl (stop-idle_ttl (some key) s.pool)
step-next s (stops none) v room = stop_all s
step-next s (reaps now) v room =
    registry_eq (step s (reaps now)) (next (registry s) (reaps now))
      (λ k. reap-leases now k s.pool v) refl (reap-idle_ttl now s.pool)

run-after :
    (es : List Event) (s : System)
    → Inv s.pool
    → s.pool.next_cid + length es ≤ cid_max
    → registry (run s es) ≡ after (registry s) es
unfolding run
run-after [] s v small = refl
run-after (e ∷ es) s v small =
    run-after es (step s e) (step-Inv s e v (omega arith)) (omega (arith, step-next_cid s e))
    ∙ ap (λ r. after r es) (step-next s e v (omega arith))

abbrev pub no_leases : Registry
no_leases = record { leases = λ k. none; pending = []; ttl = default_idle_ttl }

-- After any history of critical sections that the CIDs suffice for, in any order, the pool of a new
-- daemon holds for each project the lease that the registry holds after the same history, with its
-- sessions, its readiness, its network and the time of its last use, or none; and the boots that are
-- under way are the registry's.
pub run_refines :
    (dir : String) (es : List Event)
    → 100 + length es ≤ cid_max
    → registry (run (start dir) es) ≡ after no_leases es
unfolding with_launcher lookup
run_refines dir es small = run-after es (start dir) (with_launcher-Inv dir) small
