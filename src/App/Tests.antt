-- ===== src/App/Tests.antt =====
-- Runs with a daemon that cannot be reached, and with one that answers.
use fend.Prelude.{◌≡◌, ◌≤◌, refl, String, true, false, none, some, [], ◌∷◌, ok, err}
use fend.Prelude.Int.{pos}
use fend.Qemu.{off, passt, direct, LaunchConfig}
use fend.Cli.{RunOptions, PlanDefaults, run_options}
use fend.Cli.Config.{build_run_launch_config}
use fend.Doctor.{HostProbe, DeviceStatus}
use fend.Doctor.Report.{evaluate, evaluate_launch}
use fend.Runtime.Machine.{Machine, not_found}
use fend.App.{
  Host, daemon, unavailable, run_disposable_command, exit_code_from_i32, apply_network_fallback,
  format_duration,
}
use fend.App.Once.{Course, run_disposable_command-Course}
use fend.App.Codes.{exit_code_from_i32_bounds}
use fend.App.Fallback.{fallback-evaluate_launch}

abbrev open_device : String → DeviceStatus
open_device path = record {
  path = path;
  exists = true;
  readable = true;
  writable = true;
  error = none;
}

abbrev linux_probe : HostProbe
linux_probe = record {
  os = "linux";
  arch = "x86_64";
  distribution = some (record { id = "arch"; version_id = none });
  runtime_dir = "/home/user/.fend/runtime/linux-x86_64";
  kernel_exists = true;
  initrd_exists = true;
  rootfs_exists = true;
  qemu_available = true;
  virtiofsd = some (record { path = "/usr/bin/virtiofsd"; mode = direct });
  unshare_available = true;
  subuid_configured = none;
  subgid_configured = none;
  passt_available = false;
  curl_available = true;
  strings_available = true;
  docker_available = true;
  kvm = open_device "/dev/kvm";
  vhost_vsock = open_device "/dev/vhost-vsock";
  cpu_virtualization_available = some true;
}

abbrev defaults : PlanDefaults
defaults = record {
  fend_home = "/home/u/.fend";
  cwd = "/work";
  temp_dir = "/tmp";
  runtime_dir = none;
  cache_dir = none;
  tools_dir = none;
  run_dir = none;
  guest_cid = none;
  cpus = some 4;
  memory_mib = none;
  network = none;
  epoch = pos 1_700_000_000;
}

abbrev options : RunOptions
options = record run_options { command = "ls" ∷ [] }

abbrev bare : Machine
bare = record {
  read_text = λ path. none;
  entries = λ log dir. [];
  engines = λ path. none;
  home = none;
  exists = λ log path. false;
  run = λ log program args. not_found;
  node_index = λ body. err "";
  bun_index = λ body. err "";
  create_dir = λ log path. ok tt;
  symlink = λ log target path. ok tt;
  rename = λ log from to. ok tt;
  temp_dir = λ parent name. parent;
  debug = λ text. text;
}

abbrev alone : Host
alone = record {
  defaults = ok defaults;
  virtiofsd = none;
  pid = 4321;
  machine = bare;
  setup = λ dir. ok tt;
  probe = λ dir. linux_probe;
  no_daemon = none;
  ensure_vm = λ config. err (unavailable "no socket");
  launch = λ plan. ok tt;
  attach = λ config. ok (pos 300);
  parent = λ path. "/home/u/.fend/runtime/linux-x86_64";
  plan_text = λ e. "plan";
}

run_disposable_command-Course_example :
    Course alone options (run_disposable_command alone options).1
run_disposable_command-Course_example = run_disposable_command-Course alone options

run_alone : (run_disposable_command alone options).0 ≡ ok 255
unfolding run_disposable_command fend.Qemu.Plan.validate fend.Cli.Config.autogenerated_guest_cid
run_alone = refl

run_refused :
    run_disposable_command (record alone { ensure_vm = λ config. err (daemon "busy") }) options
    ≡ (err "busy", [])
unfolding run_disposable_command
run_refused = refl

exit_code_from_i32_bounds_example :
    (exit_code_from_i32 (pos 7) ≤ 255)
    × (exit_code_from_i32 (pos 7) ≡ 0 → pos 7 ≡ pos 0)
    × ((n : _) → pos 7 ≡ pos n → n ≤ 255 → exit_code_from_i32 (pos 7) ≡ n)
exit_code_from_i32_bounds_example = exit_code_from_i32_bounds (pos 7)

ready : (evaluate linux_probe).issues ≡ []
unfolding evaluate
ready = refl

abbrev started : LaunchConfig
started = build_run_launch_config none 4321 options defaults

fallback-evaluate_launch_example :
    (evaluate_launch linux_probe
      (apply_network_fallback started false linux_probe).0.network).issues
    ≡ []
fallback-evaluate_launch_example = fallback-evaluate_launch started linux_probe ready

format_duration_small : format_duration 3725 ≡ "1h2m"
unfolding format_duration
format_duration_small = refl
