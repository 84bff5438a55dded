-- ===== src/Pool/Reaping.antt =====
-- Which entries `reap`, `stop` and `release` touch.
use fend.Prelude.{
  ℕ, ◌-◌, ◌≡◌, refl, String, Bool, true, false, Option, none, some, List, [], ◌∷◌, arith, ltb, ◌==◌,
  if◌then◌else◌, string_eq, length,
}
use fend.Prelude.Dict.{lookup, Distinct, lookup-remove}
use fend.Pool.Invariant.{Inv}
use fend.Vm.{VmPool, VmEntry, is_running}
use fend.Pool.{take, take_out, stop, take_all, is_stale, stale_keys, reap}

elem : String → List String → Bool
elem k [] = false
elem k (j ∷ ks) = if string_eq.beq j k then true else elem k ks

take-lookup :
    (key k : String) (p : VmPool) (o : Option VmEntry)
    → lookup key p.vms ≡ o
    → lookup k (take key p o).1.vms ≡ (if string_eq.beq key k then none else lookup k p.vms)
unfolding take
take-lookup key k p none found = ground (arith, string_eq.beq_iff key k)
take-lookup key k p (some e) found = lookup-remove key k p.vms

pub take_out-lookup :
    (key k : String) (p : VmPool)
    → lookup k (take_out key p).1.vms ≡ (if string_eq.beq key k then none else lookup k p.vms)
unfolding take_out
take_out-lookup key k p = take-lookup key k p (lookup key p.vms) refl

take_all-lookup :
    (keys : List String) (k : String) (p : VmPool)
    → lookup k (take_all keys p).1.vms ≡ (if elem k keys then none else lookup k p.vms)
unfolding take_all elem
take_all-lookup [] k p = refl
take_all-lookup (key ∷ keys) k p =
    ground (arith, take_all-lookup keys k (take_out key p).1, take_out-lookup key k p)

-- Whether the entry of a key is one that `reap` is to stop.
abbrev found_stale : ℕ → ℕ → Option VmEntry → Bool
found_stale now ttl none = false
found_stale now ttl (some e) = is_stale now ttl e

elem-stale_keys-none :
    (now ttl : ℕ) (k : String) (vms : List (String × VmEntry))
    → lookup k vms ≡ none
    → elem k (stale_keys now ttl vms) ≡ false
unfolding elem stale_keys lookup
elem-stale_keys-none now ttl k [] h = refl
elem-stale_keys-none now ttl k ((j, e) ∷ vms) h = ground (arith, elem-stale_keys-none now ttl k vms)

elem-stale_keys :
    (now ttl : ℕ) (k : String) (vms : List (String × VmEntry))
    → Distinct vms
    → elem k (stale_keys now ttl vms) ≡ found_stale now ttl (lookup k vms)
unfolding elem stale_keys lookup
elem-stale_keys now ttl k [] d = refl
elem-stale_keys now ttl k ((j, e) ∷ vms) d = ground (
  arith,
  string_eq.beq_iff j k,
  elem-stale_keys now ttl k vms,
  elem-stale_keys-none now ttl k vms,
)

-- What `reap` is to leave of an entry, said of the entry alone.
abbrev pub survivor : ℕ → ℕ → Option VmEntry → Option VmEntry
survivor now ttl none = none
survivor now ttl (some e) =
    if e.active_sessions == 0
    then if is_running e.state then if ltb ttl (now - e.last_used) then none else some e else some e
    else some e

survivor_lem :
    (now ttl : ℕ) (o : Option VmEntry)
    → (if found_stale now ttl o then none else o) ≡ survivor now ttl o
unfolding is_stale
survivor_lem now ttl none = refl
survivor_lem now ttl (some e) = ground arith

-- In a pool whose invariant holds, `reap` removes exactly the running entries that have had no session for longer than the TTL:
-- every other entry, one with a session or one that still boots among them, stays as it was.
pub lookup-reap :
    (now : ℕ) (k : String) (p : VmPool)
    → Inv p
    → lookup k (reap now p).1.vms ≡ survivor now p.idle_ttl (lookup k p.vms)
unfolding reap
lookup-reap now k p v =
    rw
      (
        take_all-lookup (stale_keys now p.idle_ttl p.vms) k p,
        elem-stale_keys now p.idle_ttl k p.vms v.keys,
      )
      (survivor_lem now p.idle_ttl (lookup k p.vms))

-- `stop` of a project removes its entry and no other, and gives back one entry exactly if there
-- was one.
pub stop-lookup :
    (key k : String) (p : VmPool)
    → (lookup k (stop (some key) p).1.vms ≡ (if string_eq.beq key k then none else lookup k p.vms))
      × (length (stop (some key) p).0 ≡ elim (lookup key p.vms) [ none ↦ 0 | some e ↦ 1 ])
unfolding stop take_out
stop-lookup key k p = (take-lookup key k p (lookup key p.vms) refl, count (lookup key p.vms))
  where
    count : (o : Option VmEntry) → length (take key p o).0 ≡ elim o [ none ↦ 0 | some e ↦ 1 ]
    count none = unfold take in refl
    count (some e) = unfold take in refl
