-- ===== src/Runtime/Ensure.antt =====
-- linux/src/runtime.rs: the runtime that a project gets: what it pins, what its version files and its
-- package.json ask for, the host's version, an installed one, or the newest release.
use fend.Prelude.{String, Bool, true, false, Option, none, some, List, [], ◌∷◌, if◌then◌else◌}
use fend.Prelude.Text.{is_empty, join}
use fend.Prelude.Words.{trim}
use fend.Runtime.Semver.{SemVer, parse_semver, version_satisfies}
use fend.Runtime.Select.{
  ResolvedRuntime, installed_runtimes, select_latest_installed_runtime, latest_installed_runtime,
}
use fend.Runtime.Pins.{load_runtime_pins}
use fend.Runtime.Machine.{Machine, M, ◌>>=◌, pure, reads}
use fend.Runtime.Resolve.{
  host_node_version, host_bun_version, resolve_concrete_node_version, resolve_concrete_bun_version,
  resolve_latest_node_version, resolve_latest_bun_version,
}
use fend.Runtime.Install.{platform, ensure_node_version, ensure_bun_version}

-- `requested.trim()` of the first version file that is there and not empty.
requested_in : List (Option String) → Option String
unfolding trim
requested_in [] = none
requested_in (none ∷ files) = requested_in files
requested_in (some content ∷ files) =
    if is_empty (trim content) then requested_in files else some (trim content)

engine : Option String → Option String
unfolding trim
engine none = none
engine (some text) = if is_empty (trim text) then none else some (trim text)

host_satisfies : Option SemVer → String → Bool
unfolding version_satisfies
host_satisfies none requirement = false
host_satisfies (some v) requirement = version_satisfies v requirement

module _ (m : Machine) (workspace tools_dir : String) where
  installed : String → M (List ResolvedRuntime)
  unfolding installed_runtimes
  installed prefix = reads (λ log. installed_runtimes (m.entries log tools_dir) prefix platform)

  unfoldable pub ensure_node_requirement : String → List ResolvedRuntime → M ResolvedRuntime
  unfolding select_latest_installed_runtime resolve_concrete_node_version ensure_node_version
  ensure_node_requirement requirement installed =
      elim (select_latest_installed_runtime installed requirement) [
        | some runtime ↦ pure runtime
        | none ↦ do
          version ← resolve_concrete_node_version m requirement
          ensure_node_version m version tools_dir
      ]

  unfoldable pub ensure_bun_requirement : String → List ResolvedRuntime → M ResolvedRuntime
  unfolding select_latest_installed_runtime resolve_concrete_bun_version ensure_bun_version
  ensure_bun_requirement requirement installed =
      elim (select_latest_installed_runtime installed requirement) [
        | some runtime ↦ pure runtime
        | none ↦ do
          version ← resolve_concrete_bun_version m requirement
          ensure_bun_version m version tools_dir
      ]

  -- With an engine requirement: the host's version if it satisfies it, an installed one, or the
  -- newest with long-term support.
  engine_else : String → List ResolvedRuntime → M ResolvedRuntime
  unfolding select_latest_installed_runtime resolve_latest_node_version ensure_node_version
  engine_else requirement installed = elim (select_latest_installed_runtime installed requirement) [
    | some runtime ↦ pure runtime
    | none ↦ do
      version ← resolve_latest_node_version m requirement true
      ensure_node_version m version tools_dir
  ]

  for_engine : String → List ResolvedRuntime → M ResolvedRuntime
  unfolding host_node_version parse_semver host_satisfies engine_else ensure_node_version
  for_engine requirement installed = host_node_version m >>= λ host. elim host [
    | none ↦ engine_else requirement installed
    | some version ↦ elim (host_satisfies (parse_semver version) requirement) [
      | true ↦ ensure_node_version m version tools_dir
      | false ↦ engine_else requirement installed
    ]
  ]

  without_requirement :
      M (Option String)
      → M String
      → (String → M ResolvedRuntime)
      → List ResolvedRuntime
      → M ResolvedRuntime
  unfolding latest_installed_runtime
  without_requirement host_version resolve ensure installed = host_version >>= λ host. elim host [
    | some version ↦ ensure version
    | none ↦ elim (latest_installed_runtime installed) [
      | some runtime ↦ pure runtime
      | none ↦ resolve >>= ensure
    ]
  ]

  unfoldable pub ensure_node_runtime : M ResolvedRuntime
  unfolding installed load_runtime_pins ensure_node_requirement requested_in engine for_engine
      without_requirement host_node_version resolve_latest_node_version ensure_node_version join
  ensure_node_runtime = installed "node-" >>= λ installed.
      elim (load_runtime_pins (m.read_text (join workspace ".fend.toml"))).node [
        | some requested ↦ ensure_node_requirement requested installed
        | none ↦
            elim (requested_in (
              m.read_text (join workspace ".node-version")
              ∷ m.read_text (join workspace ".nvmrc")
              ∷ [])) [
                | some requested ↦ ensure_node_requirement requested installed
                | none ↦ elim (engine (m.engines (join workspace "package.json"))) [
                  | some requirement ↦ for_engine requirement installed
                  | none ↦
                      without_requirement (host_node_version m)
                        (resolve_latest_node_version m ">=0" true)
                        (λ version. ensure_node_version m version tools_dir) installed
                ]
              ]
      ]

  unfoldable pub ensure_bun_runtime : M ResolvedRuntime
  unfolding installed load_runtime_pins ensure_bun_requirement without_requirement host_bun_version
      resolve_latest_bun_version ensure_bun_version join
  ensure_bun_runtime = installed "bun-" >>= λ installed.
      elim (load_runtime_pins (m.read_text (join workspace ".fend.toml"))).bun [
        | some requested ↦ ensure_bun_requirement requested installed
        | none ↦
            without_requirement (host_bun_version m) (resolve_latest_bun_version m ">=0")
              (λ version. ensure_bun_version m version tools_dir) installed
      ]
