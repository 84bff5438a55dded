-- ===== src/App.antt =====
-- linux/src/app.rs: the run of one command, through the daemon or in a VM of its own, and the exit
-- codes and durations that are printed.
pub mod Once
pub mod Fallback
pub mod Codes
mod Tests
use text.Mathlib.Text.{◌==◌ as str_eq}
use fend.Prelude.{
  ℕ, zero, suc, ◌*◌, ◌/◌, ◌%◌, String, Bool, true, false, not, ◌&&◌, ◌||◌, Option, none, some, List,
  [], ◌∷◌, ◌++◌, Result, ok, err, ltb, string_eq, if◌then◌else◌,
}
use fend.Prelude.Int.{ℤ, pos, negsuc}
use fend.Prelude.Dict.{insert}
use fend.Prelude.Text.{concat, show, join}
use fend.Ipc.{VmConfig}
use fend.Qemu.{
  NetworkMode, passt, user, off, ResolvedVirtiofsd, LaunchConfig, LaunchPlan, PlanError,
}
use fend.Qemu.Plan.{build_launch_plan}
use fend.Doctor.{HostProbe}
use fend.Doctor.Report.{evaluate_launch, is_none}
use fend.Cli.{RunOptions, PlanDefaults}
use fend.Cli.Config.{SmokeConfig, build_run_launch_config, build_run_smoke_config}
use fend.Runtime.Machine.{Machine}
use fend.Runtime.Prepare.{PreparedGuestCommand, prepare_guest_command}

-- `exit_code_from_i32`, as the number of the `ExitCode`.
unfoldable pub exit_code_from_i32 : ℤ → ℕ
exit_code_from_i32 (pos zero) = 0
exit_code_from_i32 (pos (suc n)) = if ltb 255 (suc n) then 255 else suc n
exit_code_from_i32 (negsuc n) = 1

unfoldable pub format_duration : ℕ → String
unfolding concat show
format_duration secs =
    if ltb secs 60
    then concat (show secs ∷ "s" ∷ [])
    else if ltb secs 3600
    then concat (show (secs / 60) ∷ "m" ∷ show (secs % 60) ∷ "s" ∷ [])
    else concat (show (secs / 3600) ∷ "h" ∷ show (secs % 3600 / 60) ∷ "m" ∷ [])

abbrev pub is_passt : NetworkMode → Bool
is_passt passt = true
is_passt user = false
is_passt off = false

-- The configuration, and whether it was changed.
unfoldable pub apply_network_fallback : LaunchConfig → Bool → HostProbe → LaunchConfig × Bool
apply_network_fallback config network_explicit probe =
    if not network_explicit && (is_passt config.network && not probe.passt_available)
    then (record config { network = user }, true)
    else (config, false)

-- The value of FEND_NO_DAEMON.
unfoldable pub daemon_disabled : Option String → Bool
daemon_disabled none = false
daemon_disabled (some v) = str_eq v "1" || str_eq v "true"

-- An answer of the daemon that is an error, and any other error of the client, with its text.
pub data ClientError : Type 0 where
  daemon : String → ClientError
  unavailable : String → ClientError

pub data DaemonAttemptError : Type 0 where
  recoverable fatal : String → DaemonAttemptError

-- What the parts that are called answer: the setup of the runtime, the probe of the host, the
-- client of the daemon with the CID of the session, the supervisor and the session of the command,
-- with the code of its exit. `parent` is `Path::parent`, or `.` for none; `plan_text` is the text of
-- an error of the plan.
pub record Host : Type 0 where
  pub defaults : Result String PlanDefaults
  pub virtiofsd : Option ResolvedVirtiofsd
  pub pid : ℕ
  pub machine : Machine
  pub setup : String → Result String (Unit {0})
  pub probe : String → HostProbe
  pub no_daemon : Option String
  pub ensure_vm : VmConfig → Result ClientError ℕ
  pub launch : LaunchPlan → Result String (Unit {0})
  pub attach : SmokeConfig → Result String ℤ
  pub parent : String → String
  pub plan_text : PlanError → String

-- What was started, in order: VMs, and sessions of the command.
pub data Doing : Type 0 where
  launches : LaunchPlan → Doing
  attaches : SmokeConfig → Doing

unfoldable pub extend : List (String × String) → List (String × String) → List (String × String)
unfolding insert
extend env [] = env
extend env ((k, v) ∷ more) = extend (insert k v env) more

unfoldable pub smoke_config_of : RunOptions → LaunchConfig → PreparedGuestCommand → SmokeConfig
unfolding build_run_smoke_config extend
smoke_config_of options config prepared =
    let base = build_run_smoke_config options config in
    record base { command = prepared.command; env = extend base.env prepared.env }

unfoldable pub vm_config_of : LaunchConfig → String → VmConfig
vm_config_of config runtime_dir = record {
  project = config.workspace;
  runtime_dir = runtime_dir;
  cache_dir = config.cache_dir;
  tools_dir = config.tools_dir;
  guest_workspace = config.guest_workspace;
  cpus = config.cpus;
  memory_mib = config.memory_mib;
  network = config.network;
  epoch = config.epoch;
}

-- What a step gives, and what it started.
abbrev pub M : Type 0 → Type 0 → Type 0
M E A = Result E A × List Doing

module _ (h : Host) where
  attached_with : Result String ℤ → Result DaemonAttemptError ℕ
  unfolding exit_code_from_i32
  attached_with (ok code) = ok (exit_code_from_i32 code)
  attached_with (err e) = err (fatal e)

  in_session :
      RunOptions
      → LaunchConfig
      → PreparedGuestCommand
      → Result ClientError ℕ
      → M DaemonAttemptError ℕ
  unfolding attached_with smoke_config_of
  in_session options config prepared (err (daemon message)) = (err (fatal message), [])
  in_session options config prepared (err (unavailable message)) = (err (recoverable message), [])
  in_session options config prepared (ok cid) =
      let base = smoke_config_of options config prepared in
      let smoke_config = record base { cid = cid } in
      (attached_with (h.attach smoke_config), attaches smoke_config ∷ [])

  unfoldable pub try_run_via_daemon :
      RunOptions → LaunchConfig → PreparedGuestCommand → String → M DaemonAttemptError ℕ
  unfolding in_session vm_config_of
  try_run_via_daemon options config prepared runtime_dir =
      in_session options config prepared (h.ensure_vm (vm_config_of config runtime_dir))

  exit_with : Result String ℤ → Result String ℕ
  unfolding exit_code_from_i32
  exit_with (ok code) = ok (exit_code_from_i32 code)
  exit_with (err e) = err e

  in_own_vm : SmokeConfig → LaunchPlan → Result String (Unit {0}) → M String ℕ
  unfolding exit_with
  in_own_vm smoke_config plan (err e) = (err e, launches plan ∷ [])
  in_own_vm smoke_config plan (ok tt) =
      (exit_with (h.attach smoke_config), launches plan ∷ attaches smoke_config ∷ [])

  unfoldable pub run_disposable_direct :
      RunOptions → LaunchConfig → PreparedGuestCommand → M String ℕ
  unfolding in_own_vm smoke_config_of build_launch_plan
  run_disposable_direct options config prepared = elim (build_launch_plan config) [
    | err e ↦ (err (h.plan_text e), [])
    | ok plan ↦ in_own_vm (smoke_config_of options config prepared) plan (h.launch plan)
  ]

  after_daemon :
      RunOptions → LaunchConfig → PreparedGuestCommand → M DaemonAttemptError ℕ → M String ℕ
  unfolding run_disposable_direct
  after_daemon options config prepared (ok code, doings) = (ok code, doings)
  after_daemon options config prepared (err (recoverable message), doings) =
      let direct = run_disposable_direct options config prepared in (direct.0, doings ++ direct.1)
  after_daemon options config prepared (err (fatal message), doings) = (err message, doings)

  unfoldable pub run_prepared :
      RunOptions → LaunchConfig → PreparedGuestCommand → String → M String ℕ
  unfolding after_daemon daemon_disabled try_run_via_daemon
  run_prepared options config prepared runtime_dir =
      if daemon_disabled h.no_daemon
      then run_disposable_direct options config prepared
      else after_daemon options config prepared
          (try_run_via_daemon options config prepared runtime_dir)

  -- The exit code of a report with issues is that of a failure.
  preflight : RunOptions → PlanDefaults → LaunchConfig → PreparedGuestCommand → String → M String ℕ
  unfolding apply_network_fallback evaluate_launch run_prepared
  preflight options defaults config prepared runtime_dir =
      let probe = h.probe runtime_dir in
      let explicit = not (is_none options.vm_network) || not (is_none defaults.network) in
      let config' = (apply_network_fallback config explicit probe).0 in
      elim ((evaluate_launch probe config'.network).issues) [
        | [] ↦ run_prepared options config' prepared runtime_dir
        | issue ∷ rest ↦ (ok 1, [])
      ]

  with_defaults : RunOptions → PlanDefaults → M String ℕ
  unfolding build_run_launch_config prepare_guest_command preflight
  with_defaults options defaults =
      let config = build_run_launch_config h.virtiofsd h.pid options defaults in
      let runtime_dir = h.parent config.artifacts.kernel in
      elim (h.setup runtime_dir) [
        | err e ↦ (err e, [])
        | ok done ↦
            elim (prepare_guest_command h.machine config.workspace config.tools_dir options.command
              []).0 [
                | err e ↦ (err e, [])
                | ok prepared ↦ preflight options defaults config prepared runtime_dir
              ]
      ]

  unfoldable pub run_disposable_command : RunOptions → M String ℕ
  unfolding with_defaults
  run_disposable_command options = elim h.defaults [
    | err e ↦ (err e, [])
    | ok defaults ↦ with_defaults options defaults
  ]
