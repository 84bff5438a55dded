-- ===== src/Doctor/Report.antt =====
-- linux/src/doctor.rs: the report over the probed facts (`evaluate_with_options`).
use text.Mathlib.Text.{◌==◌ as str_eq}
use fend.Prelude.{
  String, Bool, true, false, not, ◌&&◌, ◌||◌, Option, none, some, List, [], ◌∷◌, ◌++◌,
  if◌then◌else◌,
}
use fend.Prelude.Text.{concat, show_int}
use fend.Qemu.{
  NetworkMode, passt, user, off, network_label, ResolvedVirtiofsd, requires_unshare,
  from_runtime_dir,
}
use fend.Doctor
use fend.Doctor.{
  DeviceError, permission_denied, no_device, other, DeviceStatus, label, distribution_value,
  HostProbe, package_install_issue,
}

pub record DoctorReport : Type 0 where
  pub title : String
  pub ok_message : String
  pub fields : List (String × String)
  pub issues : List String

pub record ReportOptions : Type 0 where
  pub title : String
  pub ok_message : String
  pub network : Option NetworkMode
  pub include_builder_requirements : Bool

-- A text that is pushed when the test holds.
abbrev pub push_if : {A : Type 0} → Bool → A → List A
push_if test text = if test then text ∷ [] else []

unfoldable pub kvm_access_issue : Option DeviceError → String
unfolding concat show_int
kvm_access_issue (some no_device) =
    "/dev/kvm exists but has no driver behind it. Load the KVM module (e.g. sudo modprobe kvm-intel or sudo modprobe kvm-amd). If you just upgraded the kernel, reboot so modules match the running kernel."
kvm_access_issue (some (other errno)) =
    concat ("/dev/kvm could not be opened (errno " ∷ show_int errno ∷ ")." ∷ [])
kvm_access_issue (some permission_denied) =
    "Current user cannot access /dev/kvm. Add the user to the kvm group and log in again."
kvm_access_issue none =
    "Current user cannot access /dev/kvm. Add the user to the kvm group and log in again."

unfoldable pub vhost_vsock_access_issue : Option DeviceError → String
unfolding concat show_int
vhost_vsock_access_issue (some no_device) =
    "/dev/vhost-vsock exists but has no driver behind it. Load the module: sudo modprobe vhost_vsock. If you just upgraded the kernel, reboot so modules match the running kernel."
vhost_vsock_access_issue (some (other errno)) =
    concat ("/dev/vhost-vsock could not be opened (errno " ∷ show_int errno ∷ ")." ∷ [])
vhost_vsock_access_issue (some permission_denied) =
    "Current user cannot access /dev/vhost-vsock. Check device permissions or group membership."
vhost_vsock_access_issue none =
    "Current user cannot access /dev/vhost-vsock. Check device permissions or group membership."

abbrev pub is_none : {A : Type 0} → Option A → Bool
is_none none = true
is_none (some x) = false

abbrev pub is_no : Option Bool → Bool
is_no (some false) = true
is_no (some true) = false
is_no none = false

unfoldable pub rootless : Option ResolvedVirtiofsd → Bool
unfolding requires_unshare
rootless none = false
rootless (some v) = requires_unshare v.mode

unfoldable pub requires_passt : Option NetworkMode → Bool
requires_passt (some passt) = true
requires_passt (some user) = false
requires_passt (some off) = false
requires_passt none = false

unfoldable pub artifacts_missing : HostProbe → Bool
artifacts_missing probe =
    not probe.kernel_exists || (not probe.initrd_exists || not probe.rootfs_exists)

unfoldable pub host_issues : HostProbe → List String
unfolding package_install_issue rootless
host_issues probe =
    push_if (not (str_eq probe.os "linux")) "Linux host backend must run on Linux."
    ++ (push_if (not (str_eq probe.arch "x86_64")) "Linux spike currently requires x86_64."
        ++ (push_if (is_no probe.cpu_virtualization_available)
              "CPU virtualization flags are missing. Enable VT-x/AMD-V or nested virtualization."
            ++ (push_if (not probe.qemu_available) (
                  package_install_issue probe.distribution Doctor.qemu
                    "Install qemu-system-x86_64.")
                ++ (push_if (is_none probe.virtiofsd) (
                      package_install_issue probe.distribution Doctor.virtiofsd
                        "Install virtiofsd, or set FEND_VIRTIOFSD to the binary path.")
                    ++ (push_if (rootless probe.virtiofsd && not probe.unshare_available) (
                          package_install_issue probe.distribution Doctor.unshare
                            "Install unshare (usually from util-linux) for rootless virtiofsd.")
                        ++ push_if
                            (rootless probe.virtiofsd
                              && (is_no probe.subuid_configured || is_no probe.subgid_configured))
                            "Current user is missing /etc/subuid or /etc/subgid mappings required for rootless virtiofsd.")))))

unfoldable pub passt_issue : Option NetworkMode → HostProbe → List String
unfolding package_install_issue requires_passt
passt_issue network probe = push_if (requires_passt network && not probe.passt_available) (
    package_install_issue probe.distribution Doctor.passt
      "Install passt, or launch with FEND_QEMU_NETWORK=user/off.")

unfoldable pub device_issue : DeviceStatus → String → (Option DeviceError → String) → List String
device_issue device missing access =
    if not device.exists
    then missing ∷ []
    else push_if (not device.readable || not device.writable) (access device.error)

unfoldable pub device_issues : HostProbe → List String
unfolding device_issue kvm_access_issue vhost_vsock_access_issue
device_issues probe =
    device_issue probe.kvm "/dev/kvm is missing. Enable virtualization and load the KVM module."
      kvm_access_issue
    ++ device_issue probe.vhost_vsock "/dev/vhost-vsock is missing. Try: sudo modprobe vhost_vsock."
        vhost_vsock_access_issue

unfoldable pub builder_issues : Bool → HostProbe → List String
unfolding package_install_issue
builder_issues required probe =
    push_if (required && not probe.curl_available) (
      package_install_issue probe.distribution Doctor.curl
        "Install curl so `fend setup` can download runtime assets.")
    ++ (push_if (required && not probe.strings_available) (
          package_install_issue probe.distribution Doctor.strings
            "Install strings (usually from binutils) so `fend setup` can detect the guest kernel version.")
        ++ push_if (required && not probe.docker_available) (
            package_install_issue probe.distribution Doctor.docker
              "Install Docker and start the daemon. `fend setup` currently uses Docker to build rootfs.img."))

unfoldable pub artifact_issues : Bool → HostProbe → List String
unfolding builder_issues artifacts_missing
artifact_issues required probe =
    if artifacts_missing probe
    then "Run `fend setup` to prepare Linux runtime artifacts." ∷ builder_issues required probe
    else []

unfoldable pub artifact_value : String → Bool → String
artifact_value path present = if present then path else "missing"

unfoldable pub available_value : Bool → String
available_value value = if value then "available" else "missing"

unfoldable pub subordinate_id_value : Option Bool → String
subordinate_id_value (some true) = "configured"
subordinate_id_value (some false) = "missing"
subordinate_id_value none = "not checked"

virtiofsd_value : ResolvedVirtiofsd → String
unfolding requires_unshare concat
virtiofsd_value v =
    if requires_unshare v.mode then concat (v.path ∷ " (rootless via unshare)" ∷ []) else v.path

virtualization_value : Option Bool → String
virtualization_value (some true) = "available"
virtualization_value (some false) = "missing"
virtualization_value none = "not checked"

network_field : Option NetworkMode → List (String × String)
unfolding network_label
network_field none = []
network_field (some network) = ("network", network_label network) ∷ []

unfoldable pub fields_of : HostProbe → ReportOptions → List (String × String)
unfolding from_runtime_dir artifact_value available_value subordinate_id_value virtiofsd_value
    virtualization_value network_field rootless requires_passt distribution_value label
fields_of probe options =
    let artifacts = from_runtime_dir probe.runtime_dir in
    (("os", probe.os)
      ∷ ("architecture", probe.arch)
      ∷ (
        "distribution",
        elim probe.distribution [ some d ↦ distribution_value d | none ↦ "unknown" ],
      )
      ∷ ("runtime", probe.runtime_dir)
      ∷ ("kernel", artifact_value artifacts.kernel probe.kernel_exists)
      ∷ ("initrd", artifact_value artifacts.initrd probe.initrd_exists)
      ∷ ("rootfs", artifact_value artifacts.rootfs probe.rootfs_exists)
      ∷ ("qemu", available_value probe.qemu_available)
      ∷ ("virtiofsd", elim probe.virtiofsd [ some v ↦ virtiofsd_value v | none ↦ "missing" ])
      ∷ [])
    ++ ((if rootless probe.virtiofsd
          then ("unshare", available_value probe.unshare_available)
            ∷ ("subuid", subordinate_id_value probe.subuid_configured)
            ∷ ("subgid", subordinate_id_value probe.subgid_configured)
            ∷ []
          else [])
        ++ (network_field options.network
            ++ (push_if (is_none options.network || requires_passt options.network)
                  ("passt", available_value probe.passt_available)
                ++ ((if options.include_builder_requirements
                      then ("curl", available_value probe.curl_available)
                        ∷ ("strings", available_value probe.strings_available)
                        ∷ ("docker", available_value probe.docker_available)
                        ∷ []
                      else [])
                    ++ (("/dev/kvm", label probe.kvm)
                        ∷ ("/dev/vhost-vsock", label probe.vhost_vsock)
                        ∷ ("cpu virt", virtualization_value probe.cpu_virtualization_available)
                        ∷ [])))))

unfoldable pub evaluate_with_options : HostProbe → ReportOptions → DoctorReport
unfolding host_issues passt_issue device_issues artifact_issues fields_of
evaluate_with_options probe options = record {
  title = options.title;
  ok_message = options.ok_message;
  fields = fields_of probe options;
  issues =
      host_issues probe
      ++ (passt_issue options.network probe
          ++ (device_issues probe ++ artifact_issues options.include_builder_requirements probe));
}

unfoldable pub evaluate : HostProbe → DoctorReport
unfolding evaluate_with_options
evaluate probe = evaluate_with_options probe (record {
  title = "fend linux doctor";
  ok_message = "ok  linux backend prerequisites look ready";
  network = none;
  include_builder_requirements = true;
})

unfoldable pub evaluate_launch : HostProbe → NetworkMode → DoctorReport
unfolding evaluate_with_options
evaluate_launch probe network = evaluate_with_options probe (record {
  title = "fend linux launch preflight";
  ok_message = "ok  linux launch prerequisites look ready";
  network = some network;
  include_builder_requirements = false;
})
