-- ===== src/Runtime/Install.antt =====
-- linux/src/runtime.rs: a runtime is downloaded into the tools directory unless it is there.
use fend.Prelude.{String, Bool, true, false, not, ◌&&◌, [], ◌∷◌}
use fend.Prelude.Text.{concat, join}
use fend.Runtime.Semver.{normalize_version}
use fend.Runtime.Select.{ResolvedRuntime}
use fend.Runtime.Machine.{Machine, M, ◌>>=◌, ◌>>◌, pure, reads, tries, run_host_command}

abbrev pub platform : String
platform = "linux-x64"

module _ (m : Machine) where
  -- `host_runtime_entry_exists`.
  unfoldable pub entry_exists : String → String → M Bool
  unfolding join
  entry_exists base relative = reads (λ log. m.exists log (join base relative))

  unfoldable pub create_temp_dir : String → String → M String
  create_temp_dir parent name =
      let path = m.temp_dir parent name in do tries (λ log. m.create_dir log path); pure path

  -- The directory for the download is removed on both paths; a failure to do so is ignored.
  unfoldable pub finalize_runtime_install : String → String → M (Unit {0})
  finalize_runtime_install extracted destination =
      reads (λ log. m.exists log destination) >>= λ there. elim there [
        | true ↦ pure tt
        | false ↦ tries (λ log. m.rename log extracted destination)
      ]

  unfoldable pub download_node : ResolvedRuntime → String → M (Unit {0})
  unfolding create_temp_dir run_host_command finalize_runtime_install concat join
  download_node runtime tools_dir =
      let archive_name = concat ("node-v" ∷ runtime.version ∷ "-" ∷ platform ∷ []) in
      let url =
        concat
          ("https://nodejs.org/dist/v" ∷ runtime.version ∷ "/" ∷ archive_name ∷ ".tar.xz" ∷ []) in
      do
        temp_dir ← create_temp_dir tools_dir "node"
        let archive_path = join temp_dir (concat (archive_name ∷ ".tar.xz" ∷ []))
        _ ← run_host_command m "curl" ("-fsSL" ∷ "-o" ∷ archive_path ∷ url ∷ [])
        _ ← run_host_command m "tar" ("xf" ∷ archive_path ∷ "-C" ∷ temp_dir ∷ [])
        finalize_runtime_install (join temp_dir archive_name) (join tools_dir runtime.dir_name)

  link_bunx : String → M (Unit {0})
  unfolding join
  link_bunx extracted =
      let bunx = join extracted "bunx" in
      reads (λ log. m.exists log (join extracted "bun") && not (m.exists log bunx)) >>= λ missing.
      elim missing [ true ↦ tries (λ log. m.symlink log "bun" bunx) | false ↦ pure tt ]

  unfoldable pub download_bun : ResolvedRuntime → String → M (Unit {0})
  unfolding create_temp_dir run_host_command finalize_runtime_install link_bunx concat join
  download_bun runtime tools_dir =
      let archive_name = concat ("bun-" ∷ platform ∷ []) in
      let url = concat (
        "https://github.com/oven-sh/bun/releases/download/bun-v" ∷ runtime.version ∷ "/"
        ∷ archive_name ∷ ".zip" ∷ []) in
      do
        temp_dir ← create_temp_dir tools_dir "bun"
        let archive_path = join temp_dir (concat (archive_name ∷ ".zip" ∷ []))
        _ ← run_host_command m "curl" ("-fsSL" ∷ "-o" ∷ archive_path ∷ url ∷ [])
        _ ← run_host_command m "unzip" ("-q" ∷ archive_path ∷ "-d" ∷ temp_dir ∷ [])
        link_bunx (join temp_dir archive_name)
        finalize_runtime_install (join temp_dir archive_name) (join tools_dir runtime.dir_name)

  abbrev runtime_of : String → String → ResolvedRuntime
  runtime_of name version = record {
    version = version;
    dir_name = concat (name ∷ "-" ∷ version ∷ "-" ∷ platform ∷ []);
  }

  fetched : (ResolvedRuntime → String → M (Unit {0})) → ResolvedRuntime → String → M ResolvedRuntime
  fetched download runtime tools_dir = do
    tries (λ log. m.create_dir log tools_dir)
    download runtime tools_dir
    pure runtime

  unfoldable pub ensure_node_version : String → String → M ResolvedRuntime
  unfolding normalize_version entry_exists download_node fetched concat join
  ensure_node_version version tools_dir =
      let runtime = runtime_of "node" (normalize_version version) in
      entry_exists (join tools_dir runtime.dir_name) "bin/node" >>= λ there. elim there [
        | true ↦ pure runtime
        | false ↦ fetched download_node runtime tools_dir
      ]

  unfoldable pub ensure_bun_version : String → String → M ResolvedRuntime
  unfolding normalize_version entry_exists download_bun fetched concat join
  ensure_bun_version version tools_dir =
      let runtime = runtime_of "bun" (normalize_version version) in
      entry_exists (join tools_dir runtime.dir_name) "bun" >>= λ there. elim there [
        | true ↦ pure runtime
        | false ↦ fetched download_bun runtime tools_dir
      ]
