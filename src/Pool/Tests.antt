-- ===== src/Pool/Tests.antt =====
-- The pool at concrete histories.
use fend.Prelude.{
  ℕ, ◌+◌, ◌≡◌, refl, String, true, false, some, List, [], ◌∷◌, Result, ok, arith, string_eq,
}
use fend.Prelude.Int.{pos}
use fend.Prelude.Dict.{lookup}
use fend.Qemu.{passt}
use fend.Ipc.{VmConfig}
use fend.Vm.{VmPool, VmEntry, VmProcess, PoolError, running, cid_max}
use fend.Pool.{with_launcher, allocate_cid, reap}
use fend.Pool.Invariant.{Inv}
use fend.Pool.Reaping.{survivor, lookup-reap}
use fend.Pool.StaleBoot.{overtaken, overtaken_wrong_process}
use fend.Pool.Threads.{Event, ensures, finishes, releases, reaps, run}
use fend.Pool.Threads.Refinement.{registry, no_leases, run_refines}
use fend.Pool.Registry.{after}
use fend.Pool.Threads.Safety.{start, run_safe}

abbrev config : VmConfig
config = record {
  project = "/a";
  runtime_dir = "/runtime";
  cache_dir = "/cache";
  tools_dir = "/tools";
  guest_workspace = "/a";
  cpus = 2;
  memory_mib = 2048;
  network = passt;
  epoch = pos 0;
}

abbrev pool : VmPool
pool = with_launcher "/run/fend"

abbrev launch_well : ℕ → String → Result PoolError VmProcess
launch_well cid run_dir = ok (record { launched_cid = cid })

-- Two projects boot at once, one boot fails, the other project is used and left, and reaped.
abbrev history : List Event
history =
    ensures "/a" "a" config 0
    ∷ ensures "/b" "b" config 1
    ∷ finishes 0 false
    ∷ finishes 0 true
    ∷ releases "a" 10
    ∷ reaps 10_000_000
    ∷ []

abbrev used : List Event
used = ensures "/a" "a" config 0 ∷ finishes 0 true ∷ releases "a" 10 ∷ []

used-Inv : Inv (run (start "/run/fend") used).pool
used-Inv = run_safe "/run/fend" used (omega arith)

run_safe_example : Inv (run (start "/run/fend") history).pool
run_safe_example = run_safe "/run/fend" history (omega arith)

lookup-reap_example :
    lookup "a" (reap 10_000_000 (run (start "/run/fend") used).pool).1.vms
    ≡ survivor 10_000_000
        (run (start "/run/fend") used).pool.idle_ttl
        (lookup "a" (run (start "/run/fend") used).pool.vms)
lookup-reap_example = lookup-reap 10_000_000 "a" (run (start "/run/fend") used).pool used-Inv

overtaken_wrong_process_example :
    (e : VmEntry) × (lookup "a" (overtaken "/a" "a" config 0 1 pool).vms ≡ some e)
    × (e.state ≡ running)
    × (e.cid ≡ pool.next_cid + 1)
    × (e.process ≡ some (record { launched_cid = pool.next_cid }))
unfolding with_launcher lookup
overtaken_wrong_process_example =
    overtaken_wrong_process "/a" "a" config 0 1 pool refl (omega arith)

abbrev full : VmPool
full = record { vms = []; next_cid = cid_max; state_dir = "/run/fend"; idle_ttl = 0 }

-- Exhaustion does not last: two refused calls bring the counter back to 0, which the third is
-- granted, below `cid_base`.
granted_again : (allocate_cid (allocate_cid (allocate_cid full).1).1).0 ≡ ok 0
unfolding allocate_cid
granted_again = refl

run_refines_example : registry (run (start "/run/fend") history) ≡ after no_leases history
run_refines_example = run_refines "/run/fend" history (omega arith)

-- What is left: project a has been reaped, project b was never launched.
nothing_pending : (after no_leases history).pending ≡ []
nothing_pending = refl
