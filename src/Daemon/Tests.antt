-- ===== src/Daemon/Tests.antt =====
-- Connections to a daemon whose pool is empty.
use fend.Prelude.{
  ◌⊎◌, ◌-◌, ◌+◌, ◌≡◌, refl, true, false, none, some, [], ◌∷◌, ok, err, string_eq, arith,
}
use fend.Prelude.Int.{pos}
use fend.Prelude.Text.{hex16, concat, join, show}
use fend.Prelude.Dict.{lookup, insert}
use fend.Qemu.{passt}
use fend.Ipc.{VmConfig, Request, project_key}
use fend.Vm.{VmPool, VmEntry, running, EnsureOutcome}
use fend.Pool.{
  with_launcher, ensure, ensure_loop, attempt, finish_boot, allocate_cid, release, stop,
}
use fend.Pool.Invariant.{Inv, with_launcher-Inv}
use fend.Pool.Counts.{sessions, one_for}
use fend.Pool.Sessions.{first_section}
use fend.Pool.Threads.{ensures, finishes, releases, run, step}
use fend.Pool.Threads.Safety.{start, run_safe}
use fend.Daemon.Reaper.{run_reaper_reaps}
use fend.Daemon.{run_reaper, World, Peer, Daemon, broken_pipe, key_of, handle_connection}
use fend.Daemon.Serving.{handle_connection_balanced, handle_connection_leak}

abbrev config : VmConfig
config = record {
  project = "/a";
  runtime_dir = "/runtime";
  cache_dir = "/cache";
  tools_dir = "/tools";
  guest_workspace = "/a";
  cpus = 2;
  memory_mib = 2048;
  network = passt;
  epoch = pos 0;
}

abbrev world : World
world = record {
  canonicalize = λ path. some path;
  hash = λ path. 10;
  to_string = λ e. "error";
  boot = λ project cid run_dir. ok (record { launched_cid = cid });
  path_le = λ a b. true;
  meanwhile = λ p. p;
}

abbrev idle : Daemon
idle = record { pool = with_launcher "/run/fend"; shutdown = false; sent = [] }

abbrev after : VmPool
after = (ensure world.meanwhile world.canonicalize world.hash world.boot config 0 idle.pool).1

abbrev first : EnsureOutcome
first = record { cid = 100; run_dir = "/run/fend/vms/000000000000000a-100"; booted = true }

granted :
    ensure world.meanwhile world.canonicalize world.hash world.boot config 0 idle.pool
    ≡ (ok first, after)
unfolding ensure ensure_loop attempt finish_boot allocate_cid with_launcher lookup insert hex16
    concat join show project_key
granted = refl

abbrev first_pool : VmPool
first_pool =
    first_section world.meanwhile world.canonicalize world.hash world.boot config 0 idle.pool

-- During the session, every machine is stopped.
abbrev stopped_meanwhile : Peer
stopped_meanwhile = record {
  request = ok (Request.ensure_vm 1 config);
  write = ok tt;
  closes = 5;
  during = λ p. (stop none p).1;
  canonicalize_at_close = λ path. some path;
}

handle_connection_balanced_example :
    ((handle_connection world stopped_meanwhile 0 idle).0 ≡ ok tt)
    × (sessions "k" first_pool ≡ sessions "k" idle.pool + one_for (key_of world "/a") "k")
    × (((true ≡ false) × (after ≡ first_pool))
        ⊎ ((true ≡ true) × (sessions "k" after ≡ sessions "k" first_pool)))
    × (sessions "k" (handle_connection world stopped_meanwhile 0 idle).1.pool
        ≡ sessions "k" (stop none after).1 - one_for (key_of world "/a") "k")
handle_connection_balanced_example =
    handle_connection_balanced world config 0 idle after first (with_launcher-Inv "/run/fend")
      granted stopped_meanwhile "k" refl refl refl

abbrev gone_peer : Peer
gone_peer = record stopped_meanwhile { write = err broken_pipe }

handle_connection_leak_example :
    ((handle_connection world gone_peer 0 idle).0 ≡ err broken_pipe)
    × (sessions "k" (handle_connection world gone_peer 0 idle).1.pool
        ≡ sessions "k" idle.pool + one_for (key_of world "/a") "k")
handle_connection_leak_example =
    handle_connection_leak world config 0 idle after first (with_launcher-Inv "/run/fend") granted
      gone_peer broken_pipe "k" refl refl (λ r. refl)

-- A project that was used and left.
abbrev left : VmPool
left =
    (run (start "/run/fend")
      (ensures "/a" "a" config 0 ∷ finishes 0 true ∷ releases "a" 10 ∷ [])).pool

left-Inv : Inv left
left-Inv =
    run_safe "/run/fend" (ensures "/a" "a" config 0 ∷ finishes 0 true ∷ releases "a" 10 ∷ [])
      (omega arith)

abbrev left_entry : VmEntry
left_entry = record {
  project = "/a";
  cid = 100;
  run_dir = join (join "/run/fend" "vms") (concat ("a" ∷ "-" ∷ show 100 ∷ []));
  state = running;
  network = passt;
  process = some (record { launched_cid = 100 });
  active_sessions = 0;
  last_used = 10;
}

left_found : lookup "a" left.vms ≡ some left_entry
unfolding lookup insert attempt finish_boot allocate_cid with_launcher run step release
left_found = refl

run_reaper_reaps_example :
    lookup "a" (run_reaper 300 0 (2_000_000 ∷ 2_000_200 ∷ []) left).vms ≡ none
unfolding run step release lookup attempt with_launcher finish_boot insert
run_reaper_reaps_example =
    run_reaper_reaps 300 "a" left left_entry 0 (2_000_000 ∷ 2_000_200 ∷ []) left-Inv left_found refl
      refl (omega arith) (omega arith) (omega arith)
