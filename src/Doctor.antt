-- ===== src/Doctor.antt =====
-- linux/src/doctor.rs: what is probed of the host, and the texts of the report.
pub mod Report
pub mod Preflight
mod Tests
use text.Mathlib.Text.{◌==◌ as str_eq, starts_with}
use fend.Prelude.{
  ℕ, String, Bool, true, false, not, ◌||◌, Option, none, some, List, [], ◌∷◌, ◌==◌, Result, ok, err,
  if◌then◌else◌,
}
use fend.Prelude.Int.{ℤ, pos, negsuc}
use fend.Prelude.Text.{is_empty, concat, show_int, split_once}
use fend.Prelude.Words.{lines, trim, trim_start_matches, trim_end_matches}
use fend.Qemu.{ResolvedVirtiofsd}

pub data DeviceError : Type 0 where
  permission_denied no_device : DeviceError
  other : ℤ → DeviceError

pub record DeviceStatus : Type 0 where
  pub path : String
  pub exists : Bool
  pub readable : Bool
  pub writable : Bool
  pub error : Option DeviceError

error_label : Option DeviceError → String
unfolding concat show_int
error_label (some no_device) = "no driver (module not loaded?)"
error_label (some (other errno)) = concat ("inaccessible (errno " ∷ show_int errno ∷ ")" ∷ [])
error_label (some permission_denied) = "permission denied"
error_label none = "permission denied"

unfoldable pub label : DeviceStatus → String
unfolding error_label
label s =
    if not s.exists
    then "missing"
    else if s.readable
    then if s.writable then s.path else error_label s.error
    else error_label s.error

-- EPERM, ENXIO, EACCES and ENODEV of Linux.
kind_of : ℤ → DeviceError
kind_of (pos n) =
    if (n == 13) || (n == 1)
    then permission_denied
    else if (n == 19) || (n == 6)
    then no_device
    else other (pos n)
kind_of (negsuc n) = other (negsuc n)

raw_or_zero : Option ℤ → ℤ
raw_or_zero none = pos 0
raw_or_zero (some raw) = raw

-- `exists` is whether the path exists, `opened` what opening it to read and write returns: the
-- error's number, if it has one.
unfoldable pub device_status : String → Bool → Result (Option ℤ) (Unit {0}) → DeviceStatus
unfolding kind_of raw_or_zero
device_status path false opened = record {
  path = path;
  exists = false;
  readable = false;
  writable = false;
  error = none;
}
device_status path true (ok tt) = record {
  path = path;
  exists = true;
  readable = true;
  writable = true;
  error = none;
}
device_status path true (err raw) = record {
  path = path;
  exists = true;
  readable = false;
  writable = false;
  error = some (kind_of (raw_or_zero raw));
}

pub record DistributionInfo : Type 0 where
  pub id : String
  pub version_id : Option String

unfoldable pub distribution_value : DistributionInfo → String
unfolding concat
distribution_value d = elim d.version_id [
  | some version_id ↦ if is_empty version_id then d.id else concat (d.id ∷ " " ∷ version_id ∷ [])
  | none ↦ d.id
]

-- The values of the keys ID and VERSION_ID so far.
record Release : Type 0 where
  id : Option String
  version_id : Option String

release_pair : Release → Option (String × String) → Release
unfolding trim trim_start_matches trim_end_matches
release_pair r none = r
release_pair r (some (key, raw_value)) =
    let value =
      trim_end_matches (λ c. c == b'"') (trim_start_matches (λ c. c == b'"') (trim raw_value)) in
    if str_eq key "ID"
    then record r { id = some value }
    else if str_eq key "VERSION_ID"
    then record r { version_id = some value }
    else r

release_lines : Release → List String → Release
unfolding release_pair split_once
release_lines r [] = r
release_lines r (line ∷ rest) = release_lines (release_pair r (split_once b'=' line)) rest

-- `content` is /etc/os-release, if it can be read.
unfoldable pub distribution_info : Option String → Option DistributionInfo
unfolding release_lines lines
distribution_info none = none
distribution_info (some content) =
    let r = release_lines (record { id = none; version_id = none }) (lines content) in
    elim r.id [ some id ↦ some (record { id = id; version_id = r.version_id }) | none ↦ none ]

any_line : (String → Bool) → List String → Bool
any_line p [] = false
any_line p (line ∷ rest) = p line || any_line p rest

nonempty : Option String → Option String
nonempty none = none
nonempty (some value) = if is_empty value then none else some value

-- `user` and `logname` are $USER and $LOGNAME.
unfoldable pub current_user_name : Option String → Option String → Option String
unfolding nonempty
current_user_name user logname = elim (nonempty user) [
  | some value ↦ some value
  | none ↦ nonempty logname
]

-- `contents` is the file, if it can be read.
unfoldable pub subordinate_id_configured : Option String → Option String → Bool
unfolding any_line lines concat
subordinate_id_configured none contents = false
subordinate_id_configured (some user) none = false
subordinate_id_configured (some user) (some contents) =
    any_line (λ line. starts_with line (concat (user ∷ ":" ∷ []))) (lines contents)

pub record HostProbe : Type 0 where
  pub os : String
  pub arch : String
  pub distribution : Option DistributionInfo
  pub runtime_dir : String
  pub kernel_exists : Bool
  pub initrd_exists : Bool
  pub rootfs_exists : Bool
  pub qemu_available : Bool
  pub virtiofsd : Option ResolvedVirtiofsd
  pub unshare_available : Bool
  pub subuid_configured : Option Bool
  pub subgid_configured : Option Bool
  pub passt_available : Bool
  pub curl_available : Bool
  pub strings_available : Bool
  pub docker_available : Bool
  pub kvm : DeviceStatus
  pub vhost_vsock : DeviceStatus
  pub cpu_virtualization_available : Option Bool

pub data PackageHint : Type 0 where
  qemu virtiofsd passt docker unshare curl strings : PackageHint

pacman_command : PackageHint → String
pacman_command qemu = "sudo pacman -S --needed qemu-system-x86"
pacman_command virtiofsd = "sudo pacman -S --needed virtiofsd"
pacman_command passt = "sudo pacman -S --needed passt"
pacman_command docker = "sudo pacman -S --needed docker && sudo systemctl enable --now docker"
pacman_command unshare = "sudo pacman -S --needed util-linux"
pacman_command curl = "sudo pacman -S --needed curl"
pacman_command strings = "sudo pacman -S --needed binutils"

apt_command : PackageHint → String
apt_command qemu = "sudo apt install qemu-system-x86"
apt_command virtiofsd = "sudo apt install virtiofsd"
apt_command passt = "sudo apt install passt"
apt_command docker = "sudo apt install docker.io && sudo systemctl enable --now docker"
apt_command unshare = "sudo apt install util-linux"
apt_command curl = "sudo apt install curl"
apt_command strings = "sudo apt install binutils"

package_install_command : Option DistributionInfo → PackageHint → Option String
unfolding pacman_command apt_command
package_install_command none hint = none
package_install_command (some d) hint =
    if str_eq d.id "arch"
    then some (pacman_command hint)
    else if str_eq d.id "ubuntu" || str_eq d.id "debian"
    then some (apt_command hint)
    else none

unfoldable pub package_install_issue : Option DistributionInfo → PackageHint → String → String
unfolding package_install_command concat
package_install_issue distribution hint base = elim (package_install_command distribution hint) [
  | some command ↦ concat (base ∷ " Try: " ∷ command ∷ [])
  | none ↦ base
]
