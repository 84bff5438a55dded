-- ===== src/Supervisor/Tests.antt =====
-- Launches on a host where nothing runs.
use fend.Prelude.{
  ◌≡◌, ◌≢◌, refl, String, true, false, some, [], ◌∷◌, ok, err, if◌then◌else◌, string_eq,
}
use fend.Prelude.Text.{concat, join}
use fend.Qemu.{SharePlan, LaunchPlan, direct}
use fend.Supervisor.{
  Host, Outside, spawn_virtiofsd, spawn_qemu, RunningVm, Started, spawn, create_file, pid_file_path,
  start_share, start_shares, start_qemu, launch_plan, cleanup,
}
use fend.Supervisor.Cleanup.{one_of}
use fend.Supervisor.Launch.{processes, launch_plan_failed, launch_plan-cleanup}
use fend.Supervisor.Leak.{nothing, launch_plan_leak}

abbrev quiet : Host
quiet = record { alive = λ i. false; next_id = 7; exists = λ path. false }

abbrev workspace : SharePlan
workspace = record {
  name = "workspace";
  tag = "workspace";
  source = "/work";
  socket = "/run/workspace.sock";
  log = "/run/logs/virtiofsd-workspace.log";
  virtiofsd = record { path = "virtiofsd"; mode = direct };
}

abbrev cache : SharePlan
cache = record workspace { name = "cache"; socket = "/run/cache.sock" }

abbrev plan : LaunchPlan
plan = record {
  qemu_program = "qemu-system-x86_64";
  qemu_args = [];
  shares = workspace ∷ cache ∷ [];
  kernel_cmdline = "";
  run_dir = "/run";
  log_dir = "/run/logs";
}

abbrev all_but : String → Outside
all_but label = record {
  spawns = λ l. if string_eq.beq label l then false else true;
  becomes_ready = λ l. true;
  writes = λ path. true;
}

abbrev vm : RunningVm
vm = record {
  qemu = some 9;
  virtiofsd = 7 ∷ 8 ∷ [];
  sockets = "/run/workspace.sock" ∷ "/run/cache.sock" ∷ [];
  pid_files = "/run/virtiofsd-workspace.pid" ∷ "/run/virtiofsd-cache.pid" ∷ "/run/qemu.pid" ∷ [];
  cleaned_up = false;
}

launched : launch_plan (all_but "") plan quiet ≡ (ok vm, (launch_plan (all_but "") plan quiet).1)
unfolding launch_plan start_shares start_share start_qemu spawn create_file pid_file_path concat
    join
launched = refl

launch_plan-cleanup_example :
    ((launch_plan (all_but "") plan quiet).1.alive 8
      ≡ (if one_of 8 (processes vm) then true else quiet.alive 8))
    × ((cleanup vm (launch_plan (all_but "") plan quiet).1).1.alive 8 ≡ quiet.alive 8)
launch_plan-cleanup_example =
    launch_plan-cleanup (all_but "") plan quiet (launch_plan (all_but "") plan quiet).1 vm
      (λ i h. refl) launched 8

no_qemu :
    launch_plan (all_but "qemu") plan quiet
    ≡ (err spawn_qemu, (launch_plan (all_but "qemu") plan quiet).1)
unfolding launch_plan start_shares start_share start_qemu spawn create_file pid_file_path concat
    join
no_qemu = refl

other_error : spawn_qemu ≢ spawn_virtiofsd
other_error = λ h. cc

launch_plan_failed_example : (launch_plan (all_but "qemu") plan quiet).1.alive 7 ≡ quiet.alive 7
launch_plan_failed_example =
    launch_plan_failed (all_but "qemu") plan quiet (launch_plan (all_but "qemu") plan quiet).1
      spawn_qemu (λ i h. refl) no_qemu other_error 7

abbrev first_started : Started
first_started = record {
  virtiofsd = 7 ∷ [];
  sockets = "/run/workspace.sock" ∷ [];
  pid_files = "/run/virtiofsd-workspace.pid" ∷ [];
}

abbrev after_first : Host
after_first = (start_share (all_but "virtiofsd-cache") "/run" workspace nothing quiet).1

first_up :
    start_share (all_but "virtiofsd-cache") "/run" workspace nothing quiet
    ≡ (ok first_started, after_first)
unfolding start_share spawn create_file pid_file_path concat join
first_up = refl

cache_free : after_first.exists "/run/cache.sock" ≡ false
unfolding start_share spawn create_file pid_file_path concat join
cache_free = refl

no_cache : (all_but "virtiofsd-cache").spawns (concat ("virtiofsd-" ∷ cache.name ∷ [])) ≡ false
unfolding concat
no_cache = refl

launch_plan_leak_example :
    (launch_plan (all_but "virtiofsd-cache") plan quiet ≡ (err spawn_virtiofsd, after_first))
    × (after_first.alive 7 ≡ true)
launch_plan_leak_example =
    launch_plan_leak (all_but "virtiofsd-cache") plan workspace cache [] quiet after_first
      first_started refl first_up cache_free no_cache
