-- ===== src/Ipc.antt =====
-- linux/src/ipc.rs: the requests and responses between the command line and the daemon.
pub mod Wire
use fend.Prelude.{ℕ, String, List, Option, Bool}
use fend.Prelude.Int.{ℤ}
use fend.Prelude.Text.{hex16}
use fend.Qemu.{NetworkMode}

abbrev pub protocol_version : ℕ
protocol_version = 1

pub record VmConfig : Type 0 where
  pub project : String
  pub runtime_dir : String
  pub cache_dir : String
  pub tools_dir : String
  pub guest_workspace : String
  pub cpus : ℕ
  pub memory_mib : ℕ
  pub network : NetworkMode
  pub epoch : ℤ

-- `project_key`: the standard library's hash of the path, printed.
unfoldable pub project_key : (String → ℕ) → String → String
project_key hash project = hex16 (hash project)

pub record VmStatus : Type 0 where
  pub project : String
  pub cid : ℕ
  pub state : String
  pub active_sessions : ℕ
  pub idle_secs : ℕ
  pub run_dir : String

pub data Request : Type 0 where
  ensure_vm : ℕ → VmConfig → Request
  stop : Option String → Request
  status : Request
  shutdown : Request

pub data Response : Type 0 where
  vm_ready : ℕ → String → Bool → Response
  stopped : ℕ → Response
  status : List VmStatus → Response
  shutting_down : Response
  error : String → Response
