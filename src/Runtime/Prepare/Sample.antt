-- ===== src/Runtime/Prepare/Sample.antt =====
-- `npm install` prepared on a machine with one installed Node.js.
use text.Mathlib.Text.{◌==◌ as str_eq}
use fend.Prelude.{◌≡◌, refl, true, false, none, some, [], ◌∷◌, ok, err}
use fend.Prelude.Text.{concat, join, split_once}
use fend.Prelude.Words.{
  lines, split_on, split_whitespace, trim, trim_start_matches, trim_end_matches, last_is, init_text,
  contains_char, strip_prefix,
}
use fend.Cli.Numbers.{parse_unsigned}
use fend.Runtime.Semver.{
  parse_semver, normalize_version, version_satisfies, comparator_accepts, semver_lt, semver_le,
}
use fend.Runtime.Select.{
  installed_runtimes, strip_suffix, parse_runtime_entry, select_latest_installed_runtime, matching,
  best,
}
use fend.Runtime.Pins.{load_runtime_pins}
use fend.Runtime.Machine.{Machine, not_found}
use fend.Runtime.Install.{entry_exists}
use fend.Runtime.Ensure.{ensure_node_runtime, ensure_node_requirement}
use fend.Runtime.Prepare.{
  guest_tool_for_command, PreparedGuestCommand, prepare_guest_command, prepare_node_command,
  path_prepend,
}

abbrev pub laptop : Machine
laptop = record {
  read_text = λ path. elim (str_eq path "/w/.nvmrc") [ true ↦ some "20\n" | false ↦ none ];
  entries = λ log dir. "node-20.11.1-linux-x64" ∷ "claude" ∷ [];
  engines = λ path. none;
  home = none;
  exists = λ log path. true;
  run = λ log program args. not_found;
  node_index = λ body. err "";
  bun_index = λ body. err "";
  create_dir = λ log path. ok tt;
  symlink = λ log target path. ok tt;
  rename = λ log from to. ok tt;
  temp_dir = λ parent name. parent;
  debug = λ text. text;
}

abbrev pub npm_install : PreparedGuestCommand
npm_install = record {
  command =
      "/opt/tools/node-20.11.1-linux-x64/bin/node"
      ∷ "/opt/tools/node-20.11.1-linux-x64/lib/node_modules/npm/bin/npm-cli.js" ∷ "install"
      ∷ "left-pad" ∷ [];
  env = (path_prepend, "/opt/tools/node-20.11.1-linux-x64/bin") ∷ [];
}

pub prepared_npm :
    prepare_guest_command laptop "/w" "/t" ("npm" ∷ "install" ∷ "left-pad" ∷ []) []
    ≡ (ok npm_install, [])
unfolding prepare_guest_command prepare_node_command guest_tool_for_command ensure_node_runtime
    ensure_node_requirement select_latest_installed_runtime installed_runtimes parse_runtime_entry
    strip_suffix load_runtime_pins parse_semver normalize_version version_satisfies
    comparator_accepts semver_lt semver_le matching best entry_exists parse_unsigned concat join
    split_once lines split_on split_whitespace trim trim_start_matches trim_end_matches last_is
    init_text contains_char strip_prefix
prepared_npm = refl
