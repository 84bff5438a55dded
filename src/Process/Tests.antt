-- ===== src/Process/Tests.antt =====
-- `npm install` in a guest whose kernel refuses nothing.
use fend.Prelude.{◌≡◌, refl, Bool, true, none, some, [], ◌∷◌, ok}
use fend.Prelude.Int.{pos}
use fend.Cli.{RunOptions, run_options, CommandNetworkMode}
use fend.Qemu.{LaunchConfig, new_launch_config, from_runtime_dir}
use fend.App.{smoke_config_of}
use fend.Runtime.Prepare.Sample.{npm_install}
use fend.Process.{ExecuteCommand, Syscall, call, drop_root, is_off, prepare_child}

abbrev options : RunOptions
options = record run_options {
  network = some CommandNetworkMode.off;
  env = ("FEND_NETWORK_MODE", "on") ∷ [];
  command = "npm" ∷ "install" ∷ "left-pad" ∷ [];
}

launch : LaunchConfig
launch =
    new_launch_config (from_runtime_dir "/runtime") "/work" "/cache" "/tools" "/run/fend" (pos 0)

abbrev command : ExecuteCommand
command = record {
  id = 1;
  cmd = "/opt/tools/node-20.11.1-linux-x64/bin/node";
  args = "npm-cli.js" ∷ [];
  env = (smoke_config_of options launch npm_install).env;
  cwd = "/work";
  tty = true;
}

abbrev willing : Syscall → Bool
willing s = true

prepared : (prepare_child willing none 1000 1000).0 ≡ ok tt
unfolding prepare_child drop_root call is_off
prepared = refl
