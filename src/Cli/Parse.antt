-- ===== src/Cli/Parse.antt =====
-- `parse_args` of linux/src/cli.rs and the parsers of the subcommands.
use text.Mathlib.Text.{◌==◌, starts_with}
use fend.Prelude.{
  ℕ, String, Bool, true, ◌||◌, Option, none, some, List, [], ◌∷◌, Result, ok, err, ok_or, ◌>>=◌,
  if◌then◌else◌, string_eq,
}
use fend.Prelude.Dict.{insert}
use fend.Prelude.Text.{is_empty, split_once}
use fend.Qemu.{NetworkMode, passt, user}
use fend.Cli.{
  HelpTopic, DoctorOptions, SetupOptions, PlanOptions, CommandNetworkMode, CliCommand, CliError,
  unknown_option, missing_value, unexpected_argument, invalid_env, invalid_network,
  invalid_command_network, invalid_number, help_requested, doctor_options, setup_options,
  plan_options,
}
use fend.Cli.Numbers.{parse_unsigned, parse_i64, u16_max, u32_max}

-- What one round of `while let Some(arg) = args.pop_front()` does: the arm takes the next argument
-- as its value, or goes on without one, or leaves the loop with the arguments that are left.
pub data Step {ℓ κ} (O : Type ℓ) (R : Type κ) : Type (ℓ ⊔ κ) where
  took : O → Step O R
  went_on : O → Step O R
  leave : (List String → R) → Step O R

module _ {ℓ κ} {O : Type ℓ} {R : Type κ} (arm : O → String → Option String → Step O R)
    (end : O → R) where
  -- An arm that takes a value finds one only if another argument follows.
  unfoldable pub parse_loop : O → List String → R
  parse_loop o [] = end o
  parse_loop o (arg ∷ []) = elim (arm o arg none) [
    | took o' ↦ end o'
    | went_on o' ↦ end o'
    | leave f ↦ f []
  ]
  parse_loop o (arg ∷ next ∷ rest) = elim (arm o arg (some next)) [
    | took o' ↦ parse_loop o' rest
    | went_on o' ↦ parse_loop o' (next ∷ rest)
    | leave f ↦ f (next ∷ rest)
  ]

abbrev pub Parsed {ℓ} : Type ℓ → Type ℓ
Parsed R = Result CliError R

-- `value`, `value_path` and `value_number`.
unfoldable pub value : Option String → String → Parsed String
value next option = ok_or (missing_value option) next

unfoldable pub value_number : ℕ → Option String → String → Parsed ℕ
unfolding value
value_number max next option = do
  text ← value next option
  ok_or (invalid_number option text) (parse_unsigned max text)

unfoldable pub network_mode_from_str : String → Parsed NetworkMode
network_mode_from_str text =
    if text == "passt"
    then ok passt
    else if text == "user"
    then ok user
    else if text == "off"
    then ok NetworkMode.off
    else err (invalid_network text)

unfoldable pub command_network_mode_from_str : String → Parsed CommandNetworkMode
command_network_mode_from_str text =
    if text == "on"
    then ok CommandNetworkMode.on
    else if text == "off"
    then ok CommandNetworkMode.off
    else err (invalid_command_network text)

env_entry :
    String → List (String × String) → Option (String × String) → Parsed (List (String × String))
env_entry item env none = err (invalid_env item)
env_entry item env (some (key, text)) =
    if is_empty key then err (invalid_env item) else ok (insert key text env)

-- The arm of `--env`.
unfoldable pub env_value : Option String → List (String × String) → Parsed (List (String × String))
unfolding value env_entry
env_value next env = do item ← value next "--env"; env_entry item env (split_once b'=' item)

-- An assignment of a value that may fail: `options.field = Some(...?)`.
abbrev pub assign {ℓ κ μ} :
    {A : Type ℓ} {O : Type κ} {R : Type μ} → Parsed A → (A → O) → Step O (Parsed R)
assign (ok a) set = took (set a)
assign (err e) set = leave (λ _. err e)

-- The last two arms of the parsers that take no positional argument.
abbrev pub no_more {ℓ κ} : {O : Type ℓ} {R : Type κ} → String → Step O (Parsed R)
no_more arg =
    if starts_with arg "-"
    then leave (λ _. err (unknown_option arg))
    else leave (λ _. err (unexpected_argument arg))

abbrev pub is_help : String → Bool
is_help arg = arg == "-h" || arg == "--help"

unfoldable pub doctor_arm :
    DoctorOptions → String → Option String → Step DoctorOptions (Parsed CliCommand)
unfolding value
doctor_arm o arg next =
    if is_help arg
    then leave (λ _. ok (CliCommand.help HelpTopic.doctor))
    else if arg == "--runtime-dir"
    then assign (value next "--runtime-dir") (λ v. record o { runtime_dir = some v })
    else no_more arg

unfoldable pub parse_doctor : List String → Parsed CliCommand
unfolding doctor_arm parse_loop
parse_doctor args = parse_loop doctor_arm (λ o. ok (CliCommand.doctor o)) doctor_options args

unfoldable pub setup_arm :
    SetupOptions → String → Option String → Step SetupOptions (Parsed CliCommand)
unfolding value
setup_arm o arg next =
    if is_help arg
    then leave (λ _. ok (CliCommand.help HelpTopic.setup))
    else if arg == "--runtime-dir"
    then assign (value next "--runtime-dir") (λ v. record o { runtime_dir = some v })
    else if arg == "--work-dir"
    then assign (value next "--work-dir") (λ v. record o { work_dir = some v })
    else if arg == "--rebuild-rootfs"
    then went_on (record o { rebuild_rootfs = true })
    else if arg == "--force-downloads"
    then went_on (record o { force_downloads = true })
    else if arg == "--skip-claude"
    then went_on (record o { skip_claude = true })
    else no_more arg

unfoldable pub parse_setup : List String → Parsed CliCommand
unfolding setup_arm parse_loop
parse_setup args = parse_loop setup_arm (λ o. ok (CliCommand.setup o)) setup_options args

-- The arm of a positional argument is the last; where there is one already, it is an error.
positional : PlanOptions → String → Option String → Step PlanOptions (Parsed PlanOptions)
positional o arg none = went_on (record o { workspace = some arg })
positional o arg (some old) = leave (λ _. err (unexpected_argument arg))

unfoldable pub plan_arm :
    HelpTopic → PlanOptions → String → Option String → Step PlanOptions (Parsed PlanOptions)
unfolding value value_number network_mode_from_str positional
plan_arm topic o arg next =
    if is_help arg
    then leave (λ _. err (help_requested topic))
    else if arg == "--runtime-dir"
    then assign (value next "--runtime-dir") (λ v. record o { runtime_dir = some v })
    else if arg == "--workspace"
    then assign (value next "--workspace") (λ v. record o { workspace = some v })
    else if arg == "--cache-dir"
    then assign (value next "--cache-dir") (λ v. record o { cache_dir = some v })
    else if arg == "--tools-dir"
    then assign (value next "--tools-dir") (λ v. record o { tools_dir = some v })
    else if arg == "--run-dir"
    then assign (value next "--run-dir") (λ v. record o { run_dir = some v })
    else if arg == "--cid"
    then assign (value_number u32_max next "--cid") (λ v. record o { guest_cid = some v })
    else if arg == "--cpus"
    then assign (value_number u16_max next "--cpus") (λ v. record o { cpus = some v })
    else if arg == "--memory-mib"
    then assign (value_number u32_max next "--memory-mib") (λ v. record o { memory_mib = some v })
    else if arg == "--network"
    then assign (value next "--network" >>= network_mode_from_str)
        (λ v. record o { network = some v })
    else if arg == "--epoch"
    then assign
        (value next "--epoch" >>= λ text. ok_or (invalid_number "--epoch" text) (parse_i64 text))
        (λ v. record o { epoch = some v })
    else if arg == "--guest-workspace"
    then assign (value next "--guest-workspace") (λ v. record o { guest_workspace = v })
    else if starts_with arg "-"
    then leave (λ _. err (unknown_option arg))
    else positional o arg o.workspace

unfoldable pub parse_plan_options : HelpTopic → List String → Parsed PlanOptions
unfolding plan_arm parse_loop
parse_plan_options topic args = parse_loop (plan_arm topic) (λ o. ok o) plan_options args

-- `parse_plan` and `parse_launch`: a request for help is no error there.
helped : (PlanOptions → CliCommand) → Parsed PlanOptions → Parsed CliCommand
helped command (ok o) = ok (command o)
helped command (err (help_requested topic)) = ok (CliCommand.help topic)
helped command (err e) = err e

unfoldable pub parse_plan : List String → Parsed CliCommand
unfolding helped parse_plan_options
parse_plan args = helped CliCommand.plan (parse_plan_options HelpTopic.plan args)

unfoldable pub parse_launch : List String → Parsed CliCommand
unfolding helped parse_plan_options
parse_launch args = helped CliCommand.launch (parse_plan_options HelpTopic.launch args)
