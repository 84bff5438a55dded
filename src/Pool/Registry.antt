-- ===== src/Pool/Registry.antt =====
-- What the pool promises, without CIDs, run directories, processes and the order of entries: for
-- each project a lease of its VM, or none.
use fend.Prelude.{
  ℕ, ◌+◌, ◌-◌, String, Bool, true, false, Option, none, some, List, [], ◌∷◌, ltb, ◌==◌,
  if◌then◌else◌, string_eq, get_elem?, erase_at,
}
use fend.Qemu.{NetworkMode}
use fend.Vm.{same_network}
use fend.Pool.Threads.{Event, ensures, finishes, releases, stops, reaps}

pub record Lease : Type 0 where
  pub sessions : ℕ
  pub ready : Bool
  pub network : NetworkMode
  pub last_used : ℕ

abbrev pub Leases : Type 0
Leases = String → Option Lease

-- `pending` are the projects whose boot is under way.
pub record Registry : Type 0 where
  pub leases : Leases
  pub pending : List String
  pub ttl : ℕ

abbrev pub at : String → (Option Lease → Option Lease) → Leases → Leases
at key f leases k = if string_eq.beq key k then f (leases k) else leases k

-- One more session, of a new lease or of one with the same network; a lease with another network
-- is left as it is.
abbrev pub enter : NetworkMode → ℕ → Option Lease → Option Lease
enter network now none =
    some (record { sessions = 1; ready = false; network = network; last_used = now })
enter network now (some l) =
    if same_network l.network network
    then some (record l { sessions = l.sessions + 1; last_used = now })
    else some l

-- One session less; the last one sets the time.
abbrev pub leave : ℕ → Option Lease → Option Lease
leave now none = none
leave now (some l) =
    if l.sessions - 1 == 0
    then some (record l { sessions = l.sessions - 1; last_used = now })
    else some (record l { sessions = l.sessions - 1 })

-- A boot that ends well makes the lease ready, and one that fails takes it away.
abbrev pub settle_boot : Bool → Option Lease → Option Lease
settle_boot true none = none
settle_boot true (some l) = some (record l { ready = true })
settle_boot false o = none

-- A lease that is ready, and without a session for longer than the TTL, expires.
abbrev pub expire : ℕ → ℕ → Option Lease → Option Lease
expire now ttl none = none
expire now ttl (some l) =
    if l.sessions == 0
    then if l.ready then if ltb ttl (now - l.last_used) then none else some l else some l
    else some l

abbrev pub wait_for : String → Option Lease → List String → List String
wait_for key none pending = key ∷ pending
wait_for key (some l) pending = pending

abbrev pub settle_at : ℕ → Bool → Option String → Registry → Registry
settle_at i good none r = r
settle_at i good (some key) r = record r {
  leases = at key (settle_boot good) r.leases;
  pending = erase_at i r.pending;
}

-- What an event does to the leases.
abbrev pub next : Registry → Event → Registry
next r (ensures project key config now) = record r {
  leases = at key (enter config.network now) r.leases;
  pending = wait_for key (r.leases key) r.pending;
}
next r (finishes i good) = settle_at i good (get_elem? r.pending i) r
next r (releases key now) = record r { leases = at key (leave now) r.leases }
next r (stops (some key)) = record r { leases = at key (λ o. none) r.leases }
next r (stops none) = record r { leases = λ k. none }
next r (reaps now) = record r { leases = λ k. expire now r.ttl (r.leases k) }

abbrev pub after : Registry → List Event → Registry
after r [] = r
after r (e ∷ es) = after (next r e) es
