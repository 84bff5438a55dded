-- ===== src/Cli/Config.antt =====
-- linux/src/cli.rs: what is built from the options and the environment's defaults. `found` is what
-- `resolve_virtiofsd` finds on the host, `pid` the process id.
pub mod Laws
use fend.Prelude.{
  ℕ, ◌+◌, ◌-◌, ◌*◌, ◌%◌, ◌^◌, String, Bool, true, false, Option, none, some, List, [], ◌∷◌,
  unwrap_or, or_else, if◌then◌else◌, string_eq,
}
use fend.Prelude.Int.{ℤ, pos, negsuc}
use fend.Prelude.Dict.{insert}
use fend.Prelude.Text.{join, concat, show, show_int}
use fend.Qemu.{
  NetworkMode, passt, ResolvedVirtiofsd, RuntimeArtifacts, from_runtime_dir, LaunchConfig,
  new_launch_config,
}
use fend.Cli.{
  DoctorOptions, SetupOptions, StopOptions, RunOptions, SmokeOptions, PlanOptions, PlanDefaults,
  CommandNetworkMode,
}

unfoldable pub default_runtime_dir : PlanDefaults → String
default_runtime_dir d = join d.fend_home "runtime/linux-x86_64"

unfoldable pub resolve_doctor_runtime_dir : DoctorOptions → PlanDefaults → String
resolve_doctor_runtime_dir o d =
    unwrap_or (default_runtime_dir d) (or_else o.runtime_dir d.runtime_dir)

unfoldable pub resolve_setup_runtime_dir : SetupOptions → PlanDefaults → String
resolve_setup_runtime_dir o d =
    unwrap_or (default_runtime_dir d) (or_else o.runtime_dir d.runtime_dir)

unfoldable pub resolve_plan_runtime_dir : PlanOptions → PlanDefaults → String
resolve_plan_runtime_dir o d =
    unwrap_or (default_runtime_dir d) (or_else o.runtime_dir d.runtime_dir)

unfoldable pub resolve_stop_run_dir : StopOptions → PlanDefaults → String
resolve_stop_run_dir o d = unwrap_or (join d.temp_dir "fend-linux") (or_else o.run_dir d.run_dir)

unfoldable pub build_launch_config :
    Option ResolvedVirtiofsd → PlanOptions → PlanDefaults → LaunchConfig
unfolding new_launch_config resolve_plan_runtime_dir
build_launch_config found o d =
    let base =
      new_launch_config (from_runtime_dir (resolve_plan_runtime_dir o d))
        (unwrap_or d.cwd o.workspace)
        (unwrap_or (join d.fend_home "cache/npm") (or_else o.cache_dir d.cache_dir))
        (unwrap_or (join d.fend_home "tools") (or_else o.tools_dir d.tools_dir))
        (unwrap_or (join d.temp_dir "fend-linux") (or_else o.run_dir d.run_dir))
        (unwrap_or d.epoch o.epoch) in
    record base {
      virtiofsd = unwrap_or base.virtiofsd found;
      guest_cid = unwrap_or 42 (or_else o.guest_cid d.guest_cid);
      cpus = unwrap_or 2 (or_else o.cpus d.cpus);
      memory_mib = unwrap_or 2048 (or_else o.memory_mib d.memory_mib);
      network = unwrap_or passt (or_else o.network d.network);
      guest_workspace = o.guest_workspace;
    }

-- Neither the option nor the environment gives a value.
abbrev pub unset {ℓ} : {A : Type ℓ} → Option A → Option A → Bool
unset none none = true
unset _ _ = false

unfoldable pub build_supervised_launch_config :
    Option ResolvedVirtiofsd → ℕ → PlanOptions → PlanDefaults → LaunchConfig
unfolding build_launch_config
build_supervised_launch_config found pid o d =
    let config = build_launch_config found o d in
    if unset o.run_dir d.run_dir
    then record config {
      run_dir = join d.temp_dir (concat ("fend-linux." ∷ show pid ∷ "." ∷ show_int d.epoch ∷ []));
    }
    else config

-- `epoch as u64`.
unfoldable pub as_u64 : ℤ → ℕ
as_u64 (pos n) = n % 2 ^ 64
as_u64 (negsuc n) = (2 ^ 64 - (n + 1) % 2 ^ 64) % 2 ^ 64

unfoldable pub autogenerated_guest_cid : ℤ → ℕ → ℕ
unfolding as_u64
autogenerated_guest_cid epoch pid =
    let seed = (as_u64 epoch * 1_103_515_245 % 2 ^ 64 + pid) % 2 ^ 64 in 10_000 + seed % 50_000

unfoldable pub run_plan_options : RunOptions → PlanOptions
run_plan_options o = record {
  runtime_dir = o.runtime_dir;
  workspace = o.workspace;
  cache_dir = o.cache_dir;
  tools_dir = o.tools_dir;
  run_dir = o.run_dir;
  guest_cid = o.guest_cid;
  cpus = o.cpus;
  memory_mib = o.memory_mib;
  network = o.vm_network;
  epoch = none;
  guest_workspace = "/workspace";
}

unfoldable pub build_run_launch_config :
    Option ResolvedVirtiofsd → ℕ → RunOptions → PlanDefaults → LaunchConfig
unfolding build_supervised_launch_config run_plan_options
build_run_launch_config found pid o d =
    let config = build_supervised_launch_config found pid (run_plan_options o) d in
    if unset o.guest_cid d.guest_cid
    then record config { guest_cid = autogenerated_guest_cid d.epoch pid }
    else config

-- linux/src/smoke.rs, times in seconds.
pub record SmokeConfig : Type 0 where
  pub cid : ℕ
  pub port : ℕ
  pub timeout : ℕ
  pub max_output_bytes : ℕ
  pub cwd : String
  pub env : List (String × String)
  pub command : List String

abbrev pub default_vsock_port : ℕ
default_vsock_port = 1024

abbrev pub default_smoke_timeout : ℕ
default_smoke_timeout = 30

abbrev pub default_max_output_bytes : ℕ
default_max_output_bytes = 16 * 1024 * 1024

-- `--network off` reaches the guest as an environment variable.
unfoldable pub run_env : Option CommandNetworkMode → List (String × String) → List (String × String)
run_env (some CommandNetworkMode.off) env = insert "FEND_NETWORK_MODE" "off" env
run_env (some CommandNetworkMode.on) env = env
run_env none env = env

unfoldable pub build_run_smoke_config : RunOptions → LaunchConfig → SmokeConfig
unfolding run_env
build_run_smoke_config o config = record {
  cid = config.guest_cid;
  port = default_vsock_port;
  timeout = unwrap_or default_smoke_timeout o.timeout_secs;
  max_output_bytes = default_max_output_bytes;
  cwd = unwrap_or config.guest_workspace o.cwd;
  env = run_env o.network o.env;
  command = o.command;
}

unfoldable pub smoke_command : List String → List String
smoke_command [] = "/bin/echo" ∷ "fend-linux-ok" ∷ []
smoke_command (c ∷ cs) = c ∷ cs

unfoldable pub build_smoke_config : SmokeOptions → PlanDefaults → SmokeConfig
unfolding smoke_command
build_smoke_config o d = record {
  cid = unwrap_or 42 (or_else o.cid d.guest_cid);
  port = unwrap_or default_vsock_port o.port;
  timeout = unwrap_or default_smoke_timeout o.timeout_secs;
  max_output_bytes = default_max_output_bytes;
  cwd = o.cwd;
  env = o.env;
  command = smoke_command o.command;
}
