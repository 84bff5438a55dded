-- ===== src/Doctor/Tests.antt =====
-- The report on hosts like those of the tests of linux/src/doctor.rs.
use fend.Prelude.{◌≡◌, refl, String, true, false, none, some, [], ◌∷◌, err}
use fend.Prelude.Int.{pos}
use fend.Qemu.{direct}
use fend.Doctor.{
  HostProbe, DeviceStatus, device_status, distribution_info, subordinate_id_configured, label,
}
use fend.Doctor.Report.{evaluate}

abbrev open_device : String → DeviceStatus
open_device path = record {
  path = path;
  exists = true;
  readable = true;
  writable = true;
  error = none;
}

abbrev linux_probe : HostProbe
linux_probe = record {
  os = "linux";
  arch = "x86_64";
  distribution = some (record { id = "arch"; version_id = none });
  runtime_dir = "/home/user/.fend/runtime/linux-x86_64";
  kernel_exists = true;
  initrd_exists = true;
  rootfs_exists = true;
  qemu_available = true;
  virtiofsd = some (record { path = "/usr/bin/virtiofsd"; mode = direct });
  unshare_available = true;
  subuid_configured = none;
  subgid_configured = none;
  passt_available = false;
  curl_available = true;
  strings_available = true;
  docker_available = true;
  kvm = open_device "/dev/kvm";
  vhost_vsock = open_device "/dev/vhost-vsock";
  cpu_virtualization_available = some true;
}

evaluate_ready : (evaluate linux_probe).issues ≡ []
unfolding evaluate
evaluate_ready = refl

evaluate_no_qemu :
    (evaluate (record linux_probe { qemu_available = false; rootfs_exists = false })).issues
    ≡ "Install qemu-system-x86_64. Try: sudo pacman -S --needed qemu-system-x86"
      ∷ "Run `fend setup` to prepare Linux runtime artifacts." ∷ []
unfolding evaluate
evaluate_no_qemu = refl

device_status_no_driver :
    label (device_status "/dev/kvm" true (err (some (pos 19)))) ≡ "no driver (module not loaded?)"
unfolding label device_status
device_status_no_driver = refl

distribution_info_small :
    distribution_info (some "NAME=x\nID=ubuntu\nVERSION_ID=\"24.04\"\n")
    ≡ some (record { id = "ubuntu"; version_id = some "24.04" })
unfolding distribution_info
distribution_info_small = refl

subordinate_id_small : subordinate_id_configured (some "ann") (some "bo:1:2\nann:3:4\n") ≡ true
unfolding subordinate_id_configured
subordinate_id_small = refl
