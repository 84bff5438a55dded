-- ===== src/Cli.antt =====
-- linux/src/cli.rs: the data of the command line. `Numbers` is what `str::parse` accepts, `Parse`
-- the parsers of the subcommands, `Config` what is built from the options.
pub mod Numbers
pub mod Parse
pub mod Commands
pub mod Config
pub mod Render
mod Tests
use fend.Prelude.{ℕ, String, Bool, false, List, [], Option, none}
use fend.Prelude.Int.{ℤ}
use fend.Qemu.{NetworkMode}

pub data HelpTopic : Type 0 where
  general doctor setup plan launch run stop status smoke : HelpTopic

pub record DoctorOptions : Type 0 where
  pub runtime_dir : Option String

pub record SetupOptions : Type 0 where
  pub runtime_dir : Option String
  pub work_dir : Option String
  pub rebuild_rootfs : Bool
  pub force_downloads : Bool
  pub skip_claude : Bool

pub record StopOptions : Type 0 where
  pub run_dir : Option String
  pub timeout_secs : Option ℕ
  pub project : Option String
  pub all : Bool

pub data CommandNetworkMode : Type 0 where
  on off : CommandNetworkMode

pub record RunOptions : Type 0 where
  pub runtime_dir : Option String
  pub workspace : Option String
  pub cache_dir : Option String
  pub tools_dir : Option String
  pub run_dir : Option String
  pub guest_cid : Option ℕ
  pub cpus : Option ℕ
  pub memory_mib : Option ℕ
  pub vm_network : Option NetworkMode
  pub timeout_secs : Option ℕ
  pub cwd : Option String
  pub env : List (String × String)
  pub network : Option CommandNetworkMode
  pub command : List String

pub record SmokeOptions : Type 0 where
  pub cid : Option ℕ
  pub port : Option ℕ
  pub timeout_secs : Option ℕ
  pub cwd : String
  pub env : List (String × String)
  pub command : List String

pub record PlanOptions : Type 0 where
  pub runtime_dir : Option String
  pub workspace : Option String
  pub cache_dir : Option String
  pub tools_dir : Option String
  pub run_dir : Option String
  pub guest_cid : Option ℕ
  pub cpus : Option ℕ
  pub memory_mib : Option ℕ
  pub network : Option NetworkMode
  pub epoch : Option ℤ
  pub guest_workspace : String

pub data CliCommand : Type 0 where
  help : HelpTopic → CliCommand
  version : CliCommand
  doctor : DoctorOptions → CliCommand
  setup : SetupOptions → CliCommand
  plan : PlanOptions → CliCommand
  launch : PlanOptions → CliCommand
  run : RunOptions → CliCommand
  stop : StopOptions → CliCommand
  status : CliCommand
  smoke : SmokeOptions → CliCommand

pub data CliError : Type 0 where
  unknown_command unknown_option : String → CliError
  missing_value : String → CliError
  missing_command : CliError
  unexpected_argument invalid_env invalid_network invalid_command_network : String → CliError
  invalid_number : String → String → CliError
  help_requested : HelpTopic → CliError

-- The `Default` of each record of options.
abbrev pub doctor_options : DoctorOptions
doctor_options = record { runtime_dir = none }

abbrev pub setup_options : SetupOptions
setup_options = record {
  runtime_dir = none;
  work_dir = none;
  rebuild_rootfs = false;
  force_downloads = false;
  skip_claude = false;
}

abbrev pub stop_options : StopOptions
stop_options = record { run_dir = none; timeout_secs = none; project = none; all = false }

abbrev pub run_options : RunOptions
run_options = record {
  runtime_dir = none;
  workspace = none;
  cache_dir = none;
  tools_dir = none;
  run_dir = none;
  guest_cid = none;
  cpus = none;
  memory_mib = none;
  vm_network = none;
  timeout_secs = none;
  cwd = none;
  env = [];
  network = none;
  command = [];
}

abbrev pub smoke_options : SmokeOptions
smoke_options = record {
  cid = none;
  port = none;
  timeout_secs = none;
  cwd = "/workspace";
  env = [];
  command = [];
}

abbrev pub plan_options : PlanOptions
plan_options = record {
  runtime_dir = none;
  workspace = none;
  cache_dir = none;
  tools_dir = none;
  run_dir = none;
  guest_cid = none;
  cpus = none;
  memory_mib = none;
  network = none;
  epoch = none;
  guest_workspace = "/workspace";
}

pub record PlanDefaults : Type 0 where
  pub fend_home : String
  pub cwd : String
  pub temp_dir : String
  pub runtime_dir : Option String
  pub cache_dir : Option String
  pub tools_dir : Option String
  pub run_dir : Option String
  pub guest_cid : Option ℕ
  pub cpus : Option ℕ
  pub memory_mib : Option ℕ
  pub network : Option NetworkMode
  pub epoch : ℤ
