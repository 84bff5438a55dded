-- ===== src/Qemu/Plan.antt =====
-- linux/src/qemu.rs: `validate` and `build_launch_plan`.
pub mod Laws
pub mod Cmdline
mod Tests
use Prim.Native.Nat.{bit_and}
use fend.Prelude.{
  ℕ, ◌+◌, ◌*◌, ◌/◌, ◌^◌, String, List, [], ◌∷◌, ◌++◌, Result, ok, err, ◌>>=◌, ◌>>◌, leb, ◌==◌,
  if◌then◌else◌,
}
use fend.Prelude.Int.{ℤ}
use fend.Prelude.Text.{concat, join, show, show_int, as_bytes, nth_char, is_empty}
use fend.Protocol.Base64.{pack}
use fend.Qemu.{
  network_args, ResolvedVirtiofsd, SharePlan, chardev_arg, device_arg, LaunchConfig, LaunchPlan,
  PlanError, invalid_cpus, invalid_memory_mib, invalid_guest_cid, empty_guest_workspace,
}

unfoldable pub validate : LaunchConfig → Result PlanError (Unit {0})
validate c =
    if c.cpus == 0
    then err (invalid_cpus c.cpus)
    else if c.memory_mib == 0
    then err (invalid_memory_mib c.memory_mib)
    else if leb c.guest_cid 2
    then err (invalid_guest_cid c.guest_cid)
    else if is_empty c.guest_workspace
    then err empty_guest_workspace
    else ok tt

-- The character for the low six bits.
symbol_text : ℕ → String
symbol_text n =
    nth_char "ABCDEFGHIJKLMNOPQRSTUVWXYZabcdefghijklmnopqrstuvwxyz0123456789+/" (bit_and n 0x3F)

unfoldable pub base64 : List ℕ → List String
unfolding symbol_text
base64 [] = []
base64 (b0 ∷ []) =
    let n = pack b0 0 0 in symbol_text (n / 2 ^ 18) ∷ symbol_text (n / 2 ^ 12) ∷ "=" ∷ "=" ∷ []
base64 (b0 ∷ b1 ∷ []) =
    let n = pack b0 b1 0 in
    symbol_text (n / 2 ^ 18) ∷ symbol_text (n / 2 ^ 12) ∷ symbol_text (n / 2 ^ 6) ∷ "=" ∷ []
base64 (b0 ∷ b1 ∷ b2 ∷ rest) =
    let n = pack b0 b1 b2 in
    symbol_text (n / 2 ^ 18)
    ∷ symbol_text (n / 2 ^ 12)
    ∷ symbol_text (n / 2 ^ 6)
    ∷ symbol_text n
    ∷ base64 rest

unfoldable pub kernel_cmdline : ℤ → String → String
unfolding base64
kernel_cmdline epoch guest_workspace = concat (
    "console=ttyS0 root=/dev/vda rootwait rw init=/usr/local/bin/fendd quiet fend.epoch="
    ∷ show_int epoch
    ∷ " fend.cwd="
    ∷ base64 (as_bytes guest_workspace))

unfoldable pub share : String → String → String → String → String → ResolvedVirtiofsd → SharePlan
share name tag source run_dir log_dir virtiofsd = record {
  name = name;
  tag = tag;
  source = source;
  socket = join run_dir (concat (name ∷ ".sock" ∷ []));
  log = join log_dir (concat ("virtiofsd-" ∷ name ∷ ".log" ∷ []));
  virtiofsd = virtiofsd;
}

unfoldable pub shares_of : LaunchConfig → List SharePlan
unfolding share
shares_of c =
    let log_dir = join c.run_dir "logs" in
    share "workspace" "workspace" c.workspace c.run_dir log_dir c.virtiofsd
    ∷ share "cache" "cache" c.cache_dir c.run_dir log_dir c.virtiofsd
    ∷ share "tools" "tools" c.tools_dir c.run_dir log_dir c.virtiofsd
    ∷ []

unfoldable pub share_args : List SharePlan → List String
share_args [] = []
share_args (s ∷ ss) = "-chardev" ∷ chardev_arg s ∷ "-device" ∷ device_arg s ∷ share_args ss

unfoldable pub machine_args : LaunchConfig → List String
machine_args c =
    "-machine"
    ∷ "q35,accel=kvm"
    ∷ "-cpu"
    ∷ "host"
    ∷ "-smp"
    ∷ show c.cpus
    ∷ "-m"
    ∷ show c.memory_mib
    ∷ "-object"
    ∷ concat ("memory-backend-memfd,id=mem,size=" ∷ show c.memory_mib ∷ "M,share=on" ∷ [])
    ∷ "-numa"
    ∷ "node,memdev=mem"
    ∷ "-kernel"
    ∷ c.artifacts.kernel
    ∷ "-initrd"
    ∷ c.artifacts.initrd
    ∷ "-append"
    ∷ kernel_cmdline c.epoch c.guest_workspace
    ∷ "-drive"
    ∷ concat ("file=" ∷ c.artifacts.rootfs ∷ ",if=virtio,format=raw,cache=writeback" ∷ [])
    ∷ "-snapshot"
    ∷ "-device"
    ∷ concat ("vhost-vsock-pci,id=fend-vsock,guest-cid=" ∷ show c.guest_cid ∷ [])
    ∷ []

unfoldable pub build_launch_plan : LaunchConfig → Result PlanError LaunchPlan
unfolding shares_of share_args machine_args network_args
build_launch_plan c = do
  validate c
  ok (record {
    qemu_program = "qemu-system-x86_64";
    qemu_args =
        machine_args c
        ++ (share_args (shares_of c)
            ++ (network_args c.network
                ++ "-nographic" ∷ "-serial" ∷ "mon:stdio" ∷ "-no-reboot" ∷ []));
    shares = shares_of c;
    kernel_cmdline = kernel_cmdline c.epoch c.guest_workspace;
    run_dir = c.run_dir;
    log_dir = join c.run_dir "logs";
  })
