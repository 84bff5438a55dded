-- ===== src/Qemu/Plan/Tests.antt =====
-- Launch plans at a concrete configuration.
use fend.Prelude.Int.{pos}
use fend.Qemu.{LaunchConfig, new_launch_config, from_runtime_dir}

abbrev sample : LaunchConfig
unfolding new_launch_config
sample =
    new_launch_config (from_runtime_dir "/runtime") "/work" "/cache" "/tools" "/run/fend" (pos 0)

-- The bytes of `/w`.
