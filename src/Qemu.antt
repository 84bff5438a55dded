-- ===== src/Qemu.antt =====
-- linux/src/qemu.rs: from the configuration of a VM to the commands that start it; and the command
-- line of a virtiofsd sidecar of linux/src/tools.rs.
pub mod Plan
use fend.Prelude.{ℕ, String, Bool, true, false, List, [], ◌∷◌}
use fend.Prelude.Int.{ℤ}
use fend.Prelude.Text.{concat, join}

pub data NetworkMode : Type 0 where
  passt user off : NetworkMode

unfoldable pub network_label : NetworkMode → String
network_label passt = "passt"
network_label user = "user"
network_label off = "off"

unfoldable pub network_args : NetworkMode → List String
network_args passt = "-netdev" ∷ "passt,id=net0" ∷ "-device" ∷ "virtio-net-pci,netdev=net0" ∷ []
network_args user = "-netdev" ∷ "user,id=net0" ∷ "-device" ∷ "virtio-net-pci,netdev=net0" ∷ []
network_args off = []

pub data VirtiofsdMode : Type 0 where
  direct rootless_unshare : VirtiofsdMode

pub record ResolvedVirtiofsd : Type 0 where
  pub path : String
  pub mode : VirtiofsdMode

unfoldable pub direct_virtiofsd : String → ResolvedVirtiofsd
direct_virtiofsd path = record { path = path; mode = direct }

unfoldable pub requires_unshare : VirtiofsdMode → Bool
requires_unshare rootless_unshare = true
requires_unshare direct = false

command_in : VirtiofsdMode → String → String → String → String × List String
command_in direct path socket source = (
  path,
  concat ("--socket-path=" ∷ socket ∷ [])
      ∷ "--cache=auto"
      ∷ "-o"
      ∷ concat ("source=" ∷ source ∷ [])
      ∷ [],
)
command_in rootless_unshare path socket source = (
  "unshare",
  "-r"
      ∷ "--map-auto"
      ∷ "--"
      ∷ path
      ∷ concat ("--socket-path=" ∷ socket ∷ [])
      ∷ "--shared-dir"
      ∷ source
      ∷ "--sandbox"
      ∷ "chroot"
      ∷ [],
)

-- `ResolvedVirtiofsd::command`.
unfoldable pub virtiofsd_args : ResolvedVirtiofsd → String → String → String × List String
unfolding command_in
virtiofsd_args v socket source = command_in v.mode v.path socket source

pub record RuntimeArtifacts : Type 0 where
  pub kernel : String
  pub initrd : String
  pub rootfs : String

unfoldable pub from_runtime_dir : String → RuntimeArtifacts
from_runtime_dir dir = record {
  kernel = join dir "vmlinuz";
  initrd = join dir "initrd";
  rootfs = join dir "rootfs.img";
}

pub record SharePlan : Type 0 where
  pub name : String
  pub tag : String
  pub source : String
  pub socket : String
  pub log : String
  pub virtiofsd : ResolvedVirtiofsd

unfoldable pub virtiofsd_command : SharePlan → String × List String
virtiofsd_command s = virtiofsd_args s.virtiofsd s.socket s.source

unfoldable pub chardev_arg : SharePlan → String
chardev_arg s = concat ("socket,id=char-" ∷ s.name ∷ ",path=" ∷ s.socket ∷ [])

unfoldable pub device_arg : SharePlan → String
device_arg s = concat ("vhost-user-fs-pci,chardev=char-" ∷ s.name ∷ ",tag=" ∷ s.tag ∷ [])

pub record LaunchConfig : Type 0 where
  pub artifacts : RuntimeArtifacts
  pub virtiofsd : ResolvedVirtiofsd
  pub workspace : String
  pub cache_dir : String
  pub tools_dir : String
  pub run_dir : String
  pub guest_cid : ℕ
  pub cpus : ℕ
  pub memory_mib : ℕ
  pub network : NetworkMode
  pub epoch : ℤ
  pub guest_workspace : String

-- `LaunchConfig::new`.
unfoldable pub new_launch_config :
    RuntimeArtifacts → String → String → String → String → ℤ → LaunchConfig
new_launch_config artifacts workspace cache_dir tools_dir run_dir epoch = record {
  artifacts = artifacts;
  virtiofsd = direct_virtiofsd "virtiofsd";
  workspace = workspace;
  cache_dir = cache_dir;
  tools_dir = tools_dir;
  run_dir = run_dir;
  guest_cid = 42;
  cpus = 2;
  memory_mib = 2048;
  network = passt;
  epoch = epoch;
  guest_workspace = "/workspace";
}

pub record LaunchPlan : Type 0 where
  pub qemu_program : String
  pub qemu_args : List String
  pub shares : List SharePlan
  pub kernel_cmdline : String
  pub run_dir : String
  pub log_dir : String

pub data PlanError : Type 0 where
  invalid_cpus invalid_memory_mib invalid_guest_cid : ℕ → PlanError
  empty_guest_workspace : PlanError
