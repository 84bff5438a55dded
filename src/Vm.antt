-- ===== src/Vm.antt =====
-- linux/src/pool.rs: the data of the pool: the state of a VM, its entry, and the pool itself.
use fend.Prelude.{ℕ, ◌*◌, ◌-◌, ◌^◌, String, Bool, true, false, Option, List}
use fend.Qemu.{NetworkMode, passt, user, off}

abbrev pub cid_base : ℕ
cid_base = 100

-- `u32::MAX - 1`.
abbrev pub cid_max : ℕ
cid_max = 2 ^ 32 - 2

-- Times in milliseconds.
abbrev pub default_idle_ttl : ℕ
default_idle_ttl = 30 * 60 * 1000

abbrev pub ensure_max_retries : ℕ
ensure_max_retries = 8

pub data VmState : Type 0 where
  booting running stopping : VmState

abbrev pub label : VmState → String
label booting = "booting"
label running = "running"
label stopping = "stopping"

-- The handle of a running stack, of which all that is kept here is the CID it was launched with.
pub record VmProcess : Type 0 where
  pub launched_cid : ℕ

pub data PoolError : Type 0 where
  supervisor : String → PoolError
  plan : String → PoolError
  io : String → String → PoolError
  canonicalize_failed : String → PoolError
  cid_exhausted : PoolError
  network_conflict : NetworkMode → NetworkMode → PoolError

pub record VmEntry : Type 0 where
  pub project : String
  pub cid : ℕ
  pub run_dir : String
  pub state : VmState
  pub network : NetworkMode
  pub active_sessions : ℕ
  pub last_used : ℕ
  pub process : Option VmProcess

pub record EnsureOutcome : Type 0 where
  pub cid : ℕ
  pub run_dir : String
  pub booted : Bool

pub record VmPool : Type 0 where
  pub vms : List (String × VmEntry)
  pub next_cid : ℕ
  pub state_dir : String
  pub idle_ttl : ℕ

-- The derived `==` of `NetworkMode` and of `VmState`.
abbrev pub same_network : NetworkMode → NetworkMode → Bool
same_network passt passt = true
same_network user user = true
same_network off off = true
same_network _ _ = false

abbrev pub is_running : VmState → Bool
is_running running = true
is_running _ = false
