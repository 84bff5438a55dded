-- ===== src/Runtime/Prepare/Arguments.antt =====
-- What a prepared command is: the user's arguments, unchanged, behind what runs them in the guest.
use text.Mathlib.Text.{◌==◌ as str_eq}
use fend.Prelude.{◌≡◌, String, Option, none, some, List, [], ◌∷◌, ◌++◌, ok, if◌then◌else◌}
use fend.Prelude.Text.{concat}
use fend.Runtime.Select.{ResolvedRuntime}
use fend.Runtime.Machine.{Machine, Ran}
use fend.Runtime.Ensure.{ensure_node_runtime, ensure_bun_runtime}
use fend.Runtime.Prepare.{GuestTool, PreparedGuestCommand, path_prepend, tools_root, unchanged}

-- What stands before the arguments, for each program that a runtime in this directory of the guest
-- runs.
abbrev pub node_fronts : String → String → List (String × List String)
node_fronts guest_root program =
    let node = concat (guest_root ∷ "/bin/node" ∷ []) in
    let script_at = λ (file : String). concat (guest_root ∷ "/" ∷ file ∷ []) in
    ("npm", node ∷ script_at "lib/node_modules/npm/bin/npm-cli.js" ∷ [])
    ∷ ("npx", node ∷ script_at "lib/node_modules/npm/bin/npx-cli.js" ∷ [])
    ∷ ("pnpm", node ∷ script_at "lib/node_modules/corepack/dist/corepack.js" ∷ program ∷ [])
    ∷ ("pnpx", node ∷ script_at "lib/node_modules/corepack/dist/corepack.js" ∷ program ∷ [])
    ∷ ("yarn", node ∷ script_at "lib/node_modules/corepack/dist/corepack.js" ∷ program ∷ [])
    ∷ ("node", node ∷ [])
    ∷ []

abbrev pub bun_fronts : String → List (String × List String)
bun_fronts guest_root =
    let bun = concat (guest_root ∷ "/bun" ∷ []) in ("bun", bun ∷ []) ∷ ("bunx", bun ∷ "x" ∷ []) ∷ []

abbrev pub front_in : List (String × List String) → String → List String
front_in [] program = program ∷ []
front_in ((name, front) ∷ fronts) program =
    if str_eq program name then front else front_in fronts program

abbrev pub guest_root_of : ResolvedRuntime → String
guest_root_of runtime = concat (tools_root ∷ "/" ∷ runtime.dir_name ∷ [])

module _ (m : Machine) (workspace tools_dir program : String) (args : List String) where
  -- The runtime is the one that was ensured.
  abbrev pub PreparedFor : Option GuestTool → List Ran → PreparedGuestCommand → Type 0
  PreparedFor none log p = p ≡ unchanged (program ∷ args)
  PreparedFor (some GuestTool.claude) log p = p ≡ unchanged (program ∷ args)
  PreparedFor (some GuestTool.node) log p =
      (runtime : ResolvedRuntime) × (l : List Ran) × (ensure_node_runtime m workspace tools_dir log
        ≡ (ok runtime, l))
      × (p.command ≡ front_in (node_fronts (guest_root_of runtime) program) program ++ args)
      × (p.env ≡ (path_prepend, concat (tools_root ∷ "/" ∷ runtime.dir_name ∷ "/bin" ∷ [])) ∷ [])
  PreparedFor (some GuestTool.bun) log p =
      (runtime : ResolvedRuntime) × (l : List Ran) × (ensure_bun_runtime m workspace tools_dir log
        ≡ (ok runtime, l))
      × (p.command ≡ front_in (bun_fronts (guest_root_of runtime)) program ++ args)
      × (p.env ≡ (path_prepend, guest_root_of runtime) ∷ [])
