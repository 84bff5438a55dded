-- ===== src/Runtime/Resolve.antt =====
-- linux/src/runtime.rs: the versions of the host, the release lists, and the concrete version that a
-- requirement stands for.
use fend.Prelude.{
  String, Bool, true, false, not, ◌&&◌, Option, none, some, List, [], ◌∷◌, Result, ok, err,
  if◌then◌else◌, unwrap_or,
}
use fend.Prelude.Text.{is_empty, concat, join}
use fend.Prelude.Words.{split_on, trim, strip_prefix, contains_char}
use fend.Cli.Numbers.{parse_unsigned, u64_max}
use fend.Runtime.Semver.{parse_semver, normalize_version}
use fend.Runtime.Select.{
  NodeRelease, BunRelease, select_latest_node_version, select_latest_bun_version,
}
use fend.Runtime.Machine.{
  Machine, Outcome, exited, Lts, NodeEntry, BunEntry, M, ◌>>=◌, pure, reads, lift, output,
  run_host_command,
}

is_number : String → Bool
unfolding parse_unsigned
is_number part = elim (parse_unsigned u64_max part) [ none ↦ false | some n ↦ true ]

full_parts : List String → Bool
unfolding is_number
full_parts (a ∷ b ∷ c ∷ []) = is_number a && (is_number b && is_number c)
full_parts _ = false

unfoldable pub is_full : String → Bool
unfolding full_parts
is_full raw = full_parts (split_on b'.' (normalize_version raw))

version_text : Outcome → Option String
unfolding normalize_version trim
version_text (exited true status stdout stderr) =
    let version = normalize_version (trim stdout) in if is_empty version then none else some version
version_text _ = none

-- `as_bool() == Some(true)`.
abbrev is_set : Option Bool → Bool
is_set flag = unwrap_or false flag

abbrev is_lts : Lts → Bool
is_lts (Lts.named value) = not (is_empty value)
is_lts (Lts.flag value) = value
is_lts Lts.other = false

node_entry : NodeEntry → Option NodeRelease
unfolding normalize_version parse_semver
node_entry e = elim e.version [
  | none ↦ none
  | some raw ↦ elim (parse_semver (normalize_version raw)) [
    | none ↦ none
    | some v ↦ some (record { version = normalize_version raw; is_lts = is_lts e.lts })
  ]
]

-- `trim_start_matches("bun-")`, which takes off every such prefix: each one is four characters, so
-- the fuel is that of the text.
without_bun : String → String → String
unfolding strip_prefix
without_bun String.[] s = s
without_bun (String.◌∷◌ c fuel) s = elim (strip_prefix "bun-" s) [
  | none ↦ s
  | some rest ↦ without_bun fuel rest
]

bun_version : String → Option BunRelease
unfolding normalize_version parse_semver contains_char
bun_version version =
    if contains_char b'-' version
    then none
    else elim (parse_semver version) [ none ↦ none | some v ↦ some (record { version = version }) ]

bun_entry : BunEntry → Option BunRelease
unfolding without_bun bun_version normalize_version
bun_entry e =
    if is_set e.draft then none else if is_set e.prerelease then none else elim e.tag_name [
      | none ↦ none
      | some tag ↦ bun_version (normalize_version (without_bun tag tag))
    ]

abbrev filter_map : {A B : Type 0} → (A → Option B) → List A → List B
filter_map f [] = []
filter_map f (a ∷ as') =
    let rest = filter_map f as' in elim (f a) [ none ↦ rest | some b ↦ b ∷ rest ]

abbrev none_matches : String → String → String
none_matches runtime requirement =
    concat ("no " ∷ runtime ∷ " release matches requirement " ∷ requirement ∷ [])

abbrev found : String → Option String → Result String String
found message none = err message
found message (some version) = ok version

module _ (m : Machine) where
  unfoldable pub binary_version : String → M (Option String)
  unfolding version_text output
  binary_version program = do
    outcome ← output m program ("--version" ∷ [])
    pure (version_text outcome)

  unfoldable pub host_node_version : M (Option String)
  unfolding binary_version
  host_node_version = binary_version "node" >>= λ node. elim node [
    | some version ↦ pure (some version)
    | none ↦ binary_version "nodejs"
  ]

  at_path : String → M (Option String)
  unfolding binary_version
  at_path path = reads (λ log. m.exists log path) >>= λ there. elim there [
    | true ↦ binary_version path
    | false ↦ pure none
  ]

  below_home : Option String → M (Option String)
  unfolding at_path join
  below_home none = pure none
  below_home (some home) = at_path (join home ".bun/bin/bun") >>= λ own. elim own [
    | some version ↦ pure (some version)
    | none ↦ at_path "/usr/local/bin/bun"
  ]

  unfoldable pub host_bun_version : M (Option String)
  unfolding binary_version below_home
  host_bun_version = binary_version "bun" >>= λ bun. elim bun [
    | some version ↦ pure (some version)
    | none ↦ below_home m.home
  ]

  unfoldable pub fetch_node_releases : M (List NodeRelease)
  unfolding run_host_command node_entry
  fetch_node_releases = do
    body ← run_host_command m "curl" ("-fsSL" ∷ "https://nodejs.org/dist/index.json" ∷ [])
    entries ← lift (m.node_index body)
    pure (filter_map node_entry entries)

  unfoldable pub fetch_bun_releases : M (List BunRelease)
  unfolding run_host_command bun_entry
  fetch_bun_releases = do
    body ← run_host_command m "curl" (
        "-fsSL" ∷ "-H" ∷ "Accept: application/vnd.github+json"
        ∷ "https://api.github.com/repos/oven-sh/bun/releases?per_page=100" ∷ [])
    entries ← lift (m.bun_index body)
    pure (filter_map bun_entry entries)

  unfoldable pub resolve_latest_node_version : String → Bool → M String
  unfolding fetch_node_releases select_latest_node_version
  resolve_latest_node_version requirement prefer_lts = do
    releases ← fetch_node_releases
    lift (
        found (none_matches "Node.js" (m.debug requirement))
          (select_latest_node_version requirement releases prefer_lts))

  unfoldable pub resolve_latest_bun_version : String → M String
  unfolding fetch_bun_releases select_latest_bun_version
  resolve_latest_bun_version requirement = do
    releases ← fetch_bun_releases
    lift (
        found (none_matches "Bun" (m.debug requirement))
          (select_latest_bun_version requirement releases))

  unfoldable pub resolve_concrete_node_version : String → M String
  unfolding is_full normalize_version resolve_latest_node_version
  resolve_concrete_node_version requirement =
      let normalized = normalize_version requirement in
      elim (is_full normalized) [
        | true ↦ pure normalized
        | false ↦ resolve_latest_node_version normalized false
      ]

  unfoldable pub resolve_concrete_bun_version : String → M String
  unfolding is_full normalize_version resolve_latest_bun_version
  resolve_concrete_bun_version requirement =
      let normalized = normalize_version requirement in
      elim (is_full normalized) [
        | true ↦ pure normalized
        | false ↦ resolve_latest_bun_version normalized
      ]
