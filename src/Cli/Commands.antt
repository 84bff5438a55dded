-- ===== src/Cli/Commands.antt =====
-- linux/src/cli.rs: the parsers of the subcommands that take a command, and `parse_args`.
pub mod Settings
use text.Mathlib.Text.{◌==◌, starts_with}
use fend.Prelude.{
  String, true, ◌||◌, Option, some, List, [], ◌∷◌, ◌++◌, ok, err, ◌>>=◌, if◌then◌else◌,
}
use fend.Cli.{
  HelpTopic, StopOptions, RunOptions, SmokeOptions, CliCommand, unknown_option, missing_command,
  unexpected_argument, stop_options, run_options, smoke_options,
}
use fend.Cli.Numbers.{u16_max, u32_max, u64_max}
use fend.Cli.Parse.{
  Step, went_on, leave, parse_loop, Parsed, value, value_number, network_mode_from_str,
  command_network_mode_from_str, env_value, assign, no_more, is_help, parse_doctor, parse_setup,
  parse_plan, parse_launch,
}

-- After the loop: a command there must be.
unfoldable pub finish_run : RunOptions → Parsed CliCommand
finish_run o = elim o.command [ [] ↦ err missing_command | x ∷ xs ↦ ok (CliCommand.run o) ]

unfoldable pub run_arm : RunOptions → String → Option String → Step RunOptions (Parsed CliCommand)
unfolding value value_number network_mode_from_str command_network_mode_from_str env_value
    finish_run
run_arm o arg next =
    if is_help arg
    then leave (λ _. ok (CliCommand.help HelpTopic.run))
    else if arg == "--runtime-dir"
    then assign (value next "--runtime-dir") (λ v. record o { runtime_dir = some v })
    else if arg == "--workspace"
    then assign (value next "--workspace") (λ v. record o { workspace = some v })
    else if arg == "--cache-dir"
    then assign (value next "--cache-dir") (λ v. record o { cache_dir = some v })
    else if arg == "--tools-dir"
    then assign (value next "--tools-dir") (λ v. record o { tools_dir = some v })
    else if arg == "--run-dir"
    then assign (value next "--run-dir") (λ v. record o { run_dir = some v })
    else if arg == "--cid"
    then assign (value_number u32_max next "--cid") (λ v. record o { guest_cid = some v })
    else if arg == "--cpus"
    then assign (value_number u16_max next "--cpus") (λ v. record o { cpus = some v })
    else if arg == "--memory-mib"
    then assign (value_number u32_max next "--memory-mib") (λ v. record o { memory_mib = some v })
    else if arg == "--vm-network"
    then assign (value next "--vm-network" >>= network_mode_from_str)
        (λ v. record o { vm_network = some v })
    else if arg == "--network"
    then assign (value next "--network" >>= command_network_mode_from_str)
        (λ v. record o { network = some v })
    else if arg == "--timeout"
    then assign (value_number u64_max next "--timeout") (λ v. record o { timeout_secs = some v })
    else if arg == "--cwd"
    then assign (value next "--cwd") (λ v. record o { cwd = some v })
    else if arg == "--env"
    then assign (env_value next o.env) (λ v. record o { env = v })
    else if arg == "--"
    then leave (λ args. finish_run (record o { command = o.command ++ args }))
    else if starts_with arg "-"
    then leave (λ _. err (unknown_option arg))
    else leave (λ args. finish_run (record o { command = (o.command ++ arg ∷ []) ++ args }))

unfoldable pub parse_run : List String → Parsed CliCommand
unfolding run_arm finish_run parse_loop
parse_run args = parse_loop run_arm finish_run run_options args

unfoldable pub stop_arm :
    StopOptions → String → Option String → Step StopOptions (Parsed CliCommand)
unfolding value value_number
stop_arm o arg next =
    if is_help arg
    then leave (λ _. ok (CliCommand.help HelpTopic.stop))
    else if arg == "--run-dir"
    then assign (value next "--run-dir") (λ v. record o { run_dir = some v })
    else if arg == "--timeout"
    then assign (value_number u64_max next "--timeout") (λ v. record o { timeout_secs = some v })
    else if arg == "--project"
    then assign (value next "--project") (λ v. record o { project = some v })
    else if arg == "--all"
    then went_on (record o { all = true })
    else no_more arg

unfoldable pub parse_stop : List String → Parsed CliCommand
unfolding stop_arm parse_loop
parse_stop args = parse_loop stop_arm (λ o. ok (CliCommand.stop o)) stop_options args

unfoldable pub parse_status : List String → Parsed CliCommand
parse_status [] = ok CliCommand.status
parse_status (arg ∷ args) =
    if is_help arg
    then ok (CliCommand.help HelpTopic.status)
    else if starts_with arg "-"
    then err (unknown_option arg)
    else err (unexpected_argument arg)

unfoldable pub smoke_arm :
    SmokeOptions → String → Option String → Step SmokeOptions (Parsed CliCommand)
unfolding value value_number env_value
smoke_arm o arg next =
    if is_help arg
    then leave (λ _. ok (CliCommand.help HelpTopic.smoke))
    else if arg == "--cid"
    then assign (value_number u32_max next "--cid") (λ v. record o { cid = some v })
    else if arg == "--port"
    then assign (value_number u32_max next "--port") (λ v. record o { port = some v })
    else if arg == "--timeout"
    then assign (value_number u64_max next "--timeout") (λ v. record o { timeout_secs = some v })
    else if arg == "--cwd"
    then assign (value next "--cwd") (λ v. record o { cwd = v })
    else if arg == "--env"
    then assign (env_value next o.env) (λ v. record o { env = v })
    else if arg == "--"
    then leave (λ args. ok (CliCommand.smoke (record o { command = o.command ++ args })))
    else if starts_with arg "-"
    then leave (λ _. err (unknown_option arg))
    else leave
        (λ args. ok (CliCommand.smoke (record o { command = (o.command ++ arg ∷ []) ++ args })))

unfoldable pub parse_smoke : List String → Parsed CliCommand
unfolding smoke_arm parse_loop
parse_smoke args = parse_loop smoke_arm (λ o. ok (CliCommand.smoke o)) smoke_options args

unfoldable pub parse_args : List String → Parsed CliCommand
parse_args [] = ok (CliCommand.help HelpTopic.general)
parse_args (command ∷ args) =
    if command == "-h" || (command == "--help" || command == "help")
    then ok (CliCommand.help HelpTopic.general)
    else if command == "-V" || (command == "--version" || command == "version")
    then ok CliCommand.version
    else if command == "doctor"
    then parse_doctor args
    else if command == "setup"
    then parse_setup args
    else if command == "plan"
    then parse_plan args
    else if command == "launch"
    then parse_launch args
    else if command == "run"
    then parse_run args
    else if command == "stop"
    then parse_stop args
    else if command == "status"
    then parse_status args
    else if command == "smoke"
    then parse_smoke args
    else parse_run (command ∷ args)
