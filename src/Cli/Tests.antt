-- ===== src/Cli/Tests.antt =====
-- Command lines at concrete words.
use fend.Prelude.{List, refl, ◌≡◌, none, some, [], ◌∷◌, ok, arith, string_eq}
use fend.Prelude.Int.{pos}
use fend.Qemu.Plan.{validate}
use fend.Cli.{CliCommand, RunOptions, run_options, CommandNetworkMode, PlanDefaults}
use fend.Cli.Numbers.{parse_unsigned, digits}
use fend.Cli.Commands.{parse_args}
use fend.Prelude.Text.{split_once}
use fend.Cli.Commands.Settings.{
  Setting, cpus, network, env, cid, cwd, AllValid, words, set_all, parse_args-dashes,
  parse_args-words,
}
use fend.Cli.Config.{build_run_launch_config}
use fend.Cli.Config.Laws.{build_run_launch_config-validate}

abbrev defaults : PlanDefaults
defaults = record {
  fend_home = "/home/u/.fend";
  cwd = "/work";
  temp_dir = "/tmp";
  runtime_dir = none;
  cache_dir = none;
  tools_dir = none;
  run_dir = none;
  guest_cid = none;
  cpus = some 4;
  memory_mib = none;
  network = none;
  epoch = pos 1_700_000_000;
}

abbrev options : RunOptions
options = record run_options {
  network = some CommandNetworkMode.off;
  env = ("FEND_NETWORK_MODE", "on") ∷ [];
  command = "ls" ∷ [];
}

build_run_launch_config-validate_example :
    validate (build_run_launch_config none 4321 options defaults) ≡ ok tt
build_run_launch_config-validate_example =
    build_run_launch_config-validate none 4321 options defaults tt (omega arith) tt tt tt tt

abbrev settings : List Setting
settings =
    cpus "4" 4
    ∷ network CommandNetworkMode.off
    ∷ env "A=b=c" "A" "b=c"
    ∷ cid "+77" 77
    ∷ cwd "/work"
    ∷ []

settings-AllValid : AllValid settings
unfolding parse_unsigned digits split_once
settings-AllValid = (refl, (tt, ((refl, refl), (refl, (tt, tt)))))

parse_args-dashes_example :
    parse_args ("run" ∷ words settings ("--" ∷ "ls" ∷ "--cpus" ∷ "9" ∷ []))
    ≡ ok (
        CliCommand.run
          (record (set_all settings run_options) { command = "ls" ∷ "--cpus" ∷ "9" ∷ [] }))
parse_args-dashes_example = parse_args-dashes settings "ls" ("--cpus" ∷ "9" ∷ []) settings-AllValid

parse_args-words_example :
    parse_args ("run" ∷ words settings ("ls" ∷ "-l" ∷ []))
    ≡ ok (CliCommand.run (record (set_all settings run_options) { command = "ls" ∷ "-l" ∷ [] }))
parse_args-words_example = parse_args-words settings "ls" ("-l" ∷ []) settings-AllValid refl
