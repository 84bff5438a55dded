-- ===== src/Runtime/Prepare.antt =====
-- linux/src/runtime.rs: which runtime a command needs, and the command and the environment that run
-- it in the guest (`prepare_guest_command`).
pub mod Arguments
pub mod Sample
mod Tests
use text.Mathlib.Text.{◌==◌ as str_eq}
use fend.Prelude.{
  ℕ, String, Bool, true, false, ◌&&◌, ◌||◌, Option, none, some, List, [], ◌∷◌, ◌++◌, Result, ok,
  err, if◌then◌else◌,
}
use fend.Prelude.Text.{is_empty, concat, join}
use fend.Prelude.Words.{trim, contains_char}
use fend.Runtime.Semver.{SemVer, parse_semver, version_satisfies}
use fend.Runtime.Select.{
  ResolvedRuntime, installed_runtimes, select_latest_installed_runtime, latest_installed_runtime,
}
use fend.Runtime.Ensure.{ensure_node_runtime, ensure_bun_runtime}
use fend.Runtime.Pins.{RuntimePins, load_runtime_pins}
use fend.Runtime.Machine.{Machine, Ran, M, ◌>>=◌, ◌>>◌, pure, fail, reads}
use fend.Runtime.Resolve.{
  host_node_version, host_bun_version, resolve_concrete_node_version, resolve_concrete_bun_version,
  resolve_latest_node_version, resolve_latest_bun_version,
}
use fend.Runtime.Install.{platform, entry_exists, ensure_node_version, ensure_bun_version}

pub data GuestTool : Type 0 where
  node : GuestTool
  bun : GuestTool
  claude : GuestTool

abbrev one_of : List String → String → Bool
one_of [] s = false
one_of (name ∷ names) s = str_eq s name || one_of names s

unfoldable pub guest_tool_for_command : String → Option GuestTool
unfolding contains_char
guest_tool_for_command command =
    if contains_char b'/' command
    then none
    else if one_of ("node" ∷ "npm" ∷ "npx" ∷ "pnpm" ∷ "pnpx" ∷ "yarn" ∷ []) command
    then some node
    else if one_of ("bun" ∷ "bunx" ∷ []) command
    then some bun
    else if str_eq command "claude"
    then some claude
    else none

pub record PreparedGuestCommand : Type 0 where
  pub command : List String
  pub env : List (String × String)

abbrev pub path_prepend : String
path_prepend = "FEND_TOOL_PATH_PREPEND"

abbrev pub tools_root : String
tools_root = "/opt/tools"

abbrev pub unchanged : List String → PreparedGuestCommand
unchanged command = record { command = command; env = [] }

module _ (m : Machine) (workspace tools_dir : String) where
  -- `guest_tool_exists`.
  has_tool : List Ran → List String → String → Bool
  unfolding join concat
  has_tool log [] name = false
  has_tool log (entry ∷ entries) name =
      (m.exists log (join (join tools_dir entry) (concat ("bin/" ∷ name ∷ []))))
      || (m.exists log (join (join tools_dir entry) name) || has_tool log entries name)

  unfoldable pub ensure_host_runtime_script : String → String → String → String → M (Unit {0})
  unfolding entry_exists concat
  ensure_host_runtime_script runtime_root relative tool_name version =
      entry_exists m runtime_root relative >>= λ there. elim there [
        | true ↦ pure tt
        | false ↦ fail (
            concat (
              "Node.js v" ∷ version ∷ " does not include " ∷ tool_name
              ∷ "; cannot run it inside the guest" ∷ []))
      ]

  -- For a package manager: the script of the runtime, the name under which a missing script is
  -- reported, and what `corepack` is told before the arguments.
  abbrev pub script_of : String → Option (String × String × List String)
  script_of program =
      if str_eq program "npm"
      then some ("lib/node_modules/npm/bin/npm-cli.js", "npm", [])
      else if str_eq program "npx"
      then some ("lib/node_modules/npm/bin/npx-cli.js", "npx", [])
      else if one_of ("pnpm" ∷ "pnpx" ∷ "yarn" ∷ []) program
      then some ("lib/node_modules/corepack/dist/corepack.js", "corepack", program ∷ [])
      else none

  rewritten : String → List String → ResolvedRuntime → M (List String)
  unfolding ensure_host_runtime_script concat join
  rewritten program args runtime =
      let guest_root = concat (tools_root ∷ "/" ∷ runtime.dir_name ∷ []) in
      let guest_node = concat (guest_root ∷ "/bin/node" ∷ []) in
      elim (script_of program) [
        | none ↦ elim (str_eq program "node") [
          | true ↦ pure (guest_node ∷ args)
          | false ↦ pure (program ∷ args)
        ]
        | some (script, tool, front) ↦ do
          ensure_host_runtime_script (join tools_dir runtime.dir_name) script tool runtime.version
          pure (guest_node ∷ concat (guest_root ∷ "/" ∷ script ∷ []) ∷ (front ++ args))
      ]

  abbrev pub node_prepared : ResolvedRuntime → List String → PreparedGuestCommand
  node_prepared runtime command = record {
    command = command;
    env = (path_prepend, concat (tools_root ∷ "/" ∷ runtime.dir_name ∷ "/bin" ∷ [])) ∷ [];
  }

  with_node : String → List String → ResolvedRuntime → M PreparedGuestCommand
  unfolding rewritten concat
  with_node program args runtime = do
    command ← rewritten program args runtime
    pure (node_prepared runtime command)

  unfoldable pub prepare_node_command : String → List String → M PreparedGuestCommand
  unfolding ensure_node_runtime with_node
  prepare_node_command program args =
      ensure_node_runtime m workspace tools_dir >>= with_node program args

  abbrev pub bun_command : String → String → List String → List String
  bun_command program guest_bun args =
      if str_eq program "bun"
      then guest_bun ∷ args
      else if str_eq program "bunx"
      then guest_bun ∷ "x" ∷ args
      else program ∷ args

  with_bun : String → List String → ResolvedRuntime → M PreparedGuestCommand
  unfolding concat
  with_bun program args runtime =
      let guest_dir = concat (tools_root ∷ "/" ∷ runtime.dir_name ∷ []) in
      pure (record {
        command = bun_command program (concat (guest_dir ∷ "/bun" ∷ [])) args;
        env = (path_prepend, guest_dir) ∷ [];
      })

  unfoldable pub prepare_bun_command : String → List String → M PreparedGuestCommand
  unfolding ensure_bun_runtime with_bun
  prepare_bun_command program args =
      ensure_bun_runtime m workspace tools_dir >>= with_bun program args

  prepare_claude_command : List String → M PreparedGuestCommand
  unfolding has_tool concat
  prepare_claude_command command =
      reads (λ log. has_tool log (m.entries log tools_dir) "claude") >>= λ there. elim there [
        | true ↦ pure (unchanged command)
        | false ↦ fail (concat ("guest tool \"claude\" is not available in " ∷ tools_dir ∷ []))
      ]

  for_tool : Option GuestTool → String → List String → M PreparedGuestCommand
  unfolding prepare_node_command prepare_bun_command prepare_claude_command
  for_tool none program args = pure (unchanged (program ∷ args))
  for_tool (some node) program args = prepare_node_command program args
  for_tool (some bun) program args = prepare_bun_command program args
  for_tool (some claude) program args = prepare_claude_command (program ∷ args)

  unfoldable pub prepare_guest_command : List String → M PreparedGuestCommand
  unfolding guest_tool_for_command for_tool
  prepare_guest_command [] = pure (unchanged [])
  prepare_guest_command (program ∷ args) = for_tool (guest_tool_for_command program) program args
