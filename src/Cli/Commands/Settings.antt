-- ===== src/Cli/Commands/Settings.antt =====
-- The command line of `fend run` described apart from its parser: a list of settings, each with its
-- words and its effect, and then the command.
use text.Mathlib.Text.{◌==◌, starts_with}
use text.Mathlib.TextEquality.{eq_iff}
use fend.Prelude.{
  ℕ, ◌≡◌, refl, ◌∙◌, inl, inr, String, true, false, Option, none, some, List, [], ◌∷◌, ◌++◌, ok,
  Bool-cases, string_eq,
}
use fend.Prelude.Dict.{insert}
use fend.Prelude.Text.{is_empty, split_once}
use fend.Qemu.{NetworkMode, passt, user, off}
use fend.Cli.{RunOptions, CliCommand, CommandNetworkMode, run_options}
use fend.Cli.Numbers.{parse_unsigned, u16_max, u32_max, u64_max}
use fend.Cli.Parse.{
  took, leave, parse_loop, value, value_number, network_mode_from_str,
  command_network_mode_from_str, env_value,
}
use fend.Cli.Commands.{finish_run, run_arm, parse_run, parse_args}

-- A number stands with the text it was written as, an environment variable with its item.
pub data Setting : Type 0 where
  runtime_dir workspace cache_dir tools_dir run_dir cwd : String → Setting
  cid cpus memory_mib timeout : String → ℕ → Setting
  vm_network : NetworkMode → Setting
  network : CommandNetworkMode → Setting
  env : String → String → String → Setting

abbrev pub option : Setting → String
option (runtime_dir v) = "--runtime-dir"
option (workspace v) = "--workspace"
option (cache_dir v) = "--cache-dir"
option (tools_dir v) = "--tools-dir"
option (run_dir v) = "--run-dir"
option (cwd v) = "--cwd"
option (cid t n) = "--cid"
option (cpus t n) = "--cpus"
option (memory_mib t n) = "--memory-mib"
option (timeout t n) = "--timeout"
option (vm_network m) = "--vm-network"
option (network m) = "--network"
option (env item k v) = "--env"

abbrev pub argument : Setting → String
argument (runtime_dir v) = v
argument (workspace v) = v
argument (cache_dir v) = v
argument (tools_dir v) = v
argument (run_dir v) = v
argument (cwd v) = v
argument (cid t n) = t
argument (cpus t n) = t
argument (memory_mib t n) = t
argument (timeout t n) = t
argument (vm_network passt) = "passt"
argument (vm_network user) = "user"
argument (vm_network off) = "off"
argument (network CommandNetworkMode.on) = "on"
argument (network CommandNetworkMode.off) = "off"
argument (env item k v) = item

-- The text is that of the number, within the type of the option; the item has a key.
abbrev pub IsValid : Setting → Type 0
IsValid (cid t n) = parse_unsigned u32_max t ≡ some n
IsValid (cpus t n) = parse_unsigned u16_max t ≡ some n
IsValid (memory_mib t n) = parse_unsigned u32_max t ≡ some n
IsValid (timeout t n) = parse_unsigned u64_max t ≡ some n
IsValid (env item k v) = (split_once b'=' item ≡ some (k, v)) × (is_empty k ≡ false)
IsValid _ = Unit

abbrev pub set : Setting → RunOptions → RunOptions
set (runtime_dir v) o = record o { runtime_dir = some v }
set (workspace v) o = record o { workspace = some v }
set (cache_dir v) o = record o { cache_dir = some v }
set (tools_dir v) o = record o { tools_dir = some v }
set (run_dir v) o = record o { run_dir = some v }
set (cwd v) o = record o { cwd = some v }
set (cid t n) o = record o { guest_cid = some n }
set (cpus t n) o = record o { cpus = some n }
set (memory_mib t n) o = record o { memory_mib = some n }
set (timeout t n) o = record o { timeout_secs = some n }
set (vm_network m) o = record o { vm_network = some m }
set (network m) o = record o { network = some m }
set (env item k v) o = record o { env = insert k v o.env }

abbrev pub AllValid : List Setting → Type 0
AllValid [] = Unit
AllValid (s ∷ ss) = IsValid s × AllValid ss

abbrev pub words : List Setting → List String → List String
words [] rest = rest
words (s ∷ ss) rest = option s ∷ argument s ∷ words ss rest

-- Later settings win over earlier ones.
abbrev pub set_all : List Setting → RunOptions → RunOptions
set_all [] o = o
set_all (s ∷ ss) o = set_all ss (set s o)

run_arm-set :
    (s : Setting) (o : RunOptions)
    → IsValid s
    → run_arm o (option s) (some (argument s)) ≡ took (set s o)
unfolding run_arm value value_number network_mode_from_str command_network_mode_from_str env_value
run_arm-set (runtime_dir v) o h = refl
run_arm-set (workspace v) o h = refl
run_arm-set (cache_dir v) o h = refl
run_arm-set (tools_dir v) o h = refl
run_arm-set (run_dir v) o h = refl
run_arm-set (cwd v) o h = refl
run_arm-set (cid t n) o h = rw h refl
run_arm-set (cpus t n) o h = rw h refl
run_arm-set (memory_mib t n) o h = rw h refl
run_arm-set (timeout t n) o h = rw h refl
run_arm-set (vm_network passt) o h = refl
run_arm-set (vm_network user) o h = refl
run_arm-set (vm_network off) o h = refl
run_arm-set (network CommandNetworkMode.on) o h = refl
run_arm-set (network CommandNetworkMode.off) o h = refl
run_arm-set (env item k v) o (split, key) = rw (split, key) refl

parse_loop-words :
    (ss : List Setting) (o : RunOptions) (rest : List String)
    → AllValid ss
    → parse_loop run_arm finish_run o (words ss rest)
      ≡ parse_loop run_arm finish_run (set_all ss o) rest
unfolding parse_loop
parse_loop-words [] o rest h = refl
parse_loop-words (s ∷ ss) o rest (h, hs) =
    rw (run_arm-set s o h, parse_loop) (parse_loop-words ss (set s o) rest hs)

-- A word that does not begin with `-` is none of the options.
not_option :
    (w o : String) → starts_with w "-" ≡ false → starts_with o "-" ≡ true → (w == o) ≡ false
not_option w o plain dashed = elim (Bool-cases (w == o)) [
  | inl same ↦ let e : w ≡ o = (eq_iff w o).0 same in cc
  | inr other ↦ other
]

run_arm-command :
    (w : String) (o : RunOptions) (next : Option String)
    → starts_with w "-" ≡ false
    → run_arm o w next
      ≡ leave (λ args. finish_run (record o { command = (o.command ++ w ∷ []) ++ args }))
unfolding run_arm
run_arm-command w o next plain =
    rw
      (
        not_option w "-h" plain refl,
        not_option w "--help" plain refl,
        not_option w "--runtime-dir" plain refl,
        not_option w "--workspace" plain refl,
        not_option w "--cache-dir" plain refl,
        not_option w "--tools-dir" plain refl,
        not_option w "--run-dir" plain refl,
        not_option w "--cid" plain refl,
        not_option w "--cpus" plain refl,
        not_option w "--memory-mib" plain refl,
        not_option w "--vm-network" plain refl,
        not_option w "--network" plain refl,
        not_option w "--timeout" plain refl,
        not_option w "--cwd" plain refl,
        not_option w "--env" plain refl,
        not_option w "--" plain refl,
        plain,
      )
      refl

-- The settings do not touch the command.
command-set : (s : Setting) (o : RunOptions) → (set s o).command ≡ o.command
command-set (runtime_dir v) o = refl
command-set (workspace v) o = refl
command-set (cache_dir v) o = refl
command-set (tools_dir v) o = refl
command-set (run_dir v) o = refl
command-set (cwd v) o = refl
command-set (cid t n) o = refl
command-set (cpus t n) o = refl
command-set (memory_mib t n) o = refl
command-set (timeout t n) o = refl
command-set (vm_network m) o = refl
command-set (network m) o = refl
command-set (env item k v) o = refl

command-set_all : (ss : List Setting) (o : RunOptions) → (set_all ss o).command ≡ o.command
command-set_all [] o = refl
command-set_all (s ∷ ss) o = command-set_all ss (set s o) ∙ command-set s o

run_arm-dashes :
    (o : RunOptions) (next : Option String)
    → run_arm o "--" next ≡ leave (λ args. finish_run (record o { command = o.command ++ args }))
unfolding run_arm
run_arm-dashes o next = refl

parse_loop-command :
    (w : String) (ws : List String) (o : RunOptions)
    → o.command ≡ []
    → starts_with w "-" ≡ false
    → parse_loop run_arm finish_run o (w ∷ ws) ≡ ok (CliCommand.run (record o { command = w ∷ ws }))
unfolding parse_loop finish_run
parse_loop-command w [] o empty plain = rw (run_arm-command w o none plain, parse_loop, empty) refl
parse_loop-command w (v ∷ ws) o empty plain =
    rw (run_arm-command w o (some v) plain, parse_loop, empty) refl

parse_loop-dashes :
    (w : String) (ws : List String) (o : RunOptions)
    → o.command ≡ []
    → parse_loop run_arm finish_run o ("--" ∷ w ∷ ws)
      ≡ ok (CliCommand.run (record o { command = w ∷ ws }))
unfolding parse_loop finish_run
parse_loop-dashes w ws o empty = rw (run_arm-dashes o (some w), parse_loop, empty) refl

-- A command line of `fend run` gives every setting its effect, in order, and what follows `--`
-- becomes the command as it stands, its own options included.
pub parse_args-dashes :
    (ss : List Setting) (w : String) (ws : List String)
    → AllValid ss
    → parse_args ("run" ∷ words ss ("--" ∷ w ∷ ws))
      ≡ ok (CliCommand.run (record (set_all ss run_options) { command = w ∷ ws }))
unfolding parse_args parse_run
parse_args-dashes ss w ws h =
    parse_loop-words ss run_options ("--" ∷ w ∷ ws) h
    ∙ parse_loop-dashes w ws (set_all ss run_options) (command-set_all ss run_options)

-- Without `--`, the command begins at the first word after the settings that does not begin with
-- `-`, and everything from there on is the command.
pub parse_args-words :
    (ss : List Setting) (w : String) (ws : List String)
    → AllValid ss
    → starts_with w "-" ≡ false
    → parse_args ("run" ∷ words ss (w ∷ ws))
      ≡ ok (CliCommand.run (record (set_all ss run_options) { command = w ∷ ws }))
unfolding parse_args parse_run
parse_args-words ss w ws h plain =
    parse_loop-words ss run_options (w ∷ ws) h
    ∙ parse_loop-command w ws (set_all ss run_options) (command-set_all ss run_options) plain
