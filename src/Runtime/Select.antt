-- ===== src/Runtime/Select.antt =====
-- linux/src/runtime.rs: which release and which installed runtime a requirement selects.
pub mod Best
pub mod Latest
mod Tests
use fend.Prelude.{
  ℕ, ◌+◌, String, Bool, true, false, ◌&&◌, Option, none, some, List, [], ◌∷◌, if◌then◌else◌,
  unwrap_or, keep_if, sort_by,
}
use text.Mathlib.Text.{◌==◌ as str_eq}
use Prim.Native.String
use fend.Prelude.Text.{is_empty, concat}
use fend.Prelude.Words.{strip_prefix}
use fend.Runtime.Semver.{SemVer, semver_le, parse_semver, normalize_version, version_satisfies}

pub record ResolvedRuntime : Type 0 where
  pub version : String
  pub dir_name : String

pub record NodeRelease : Type 0 where
  pub version : String
  pub is_lts : Bool

pub record BunRelease : Type 0 where
  pub version : String

-- `Iterator::max_by`: of equal elements the last.
module _ {A : Type 0} (le : A → A → Bool) where
  unfoldable pub best : A → List A → A
  best x [] = x
  best x (y ∷ ys) = best (if le x y then y else x) ys

  abbrev pub max_by : List A → Option A
  max_by [] = none
  max_by (x ∷ xs) = some (best x xs)

-- The `filter_map` of the selections: the releases whose version parses and satisfies the
-- requirement, with that version.
module _ {A : Type 0} (version : A → String) (requirement : String) where
  abbrev accepted : A → Option SemVer → List (A × SemVer) → List (A × SemVer)
  accepted release none rest = rest
  accepted release (some v) rest =
      if version_satisfies v requirement then (release, v) ∷ rest else rest

  unfoldable pub matching : List A → List (A × SemVer)
  matching [] = []
  matching (release ∷ releases) =
      accepted release (parse_semver (version release)) (matching releases)

abbrev pub by_version : {A : Type 0} → A × SemVer → A × SemVer → Bool
by_version left right = semver_le left.1 right.1

-- `if preferred.is_empty() { matches } else { preferred }`.
abbrev pub prefer : {A : Type 0} → List A → List A → List A
prefer [] matches = matches
prefer (p ∷ preferred) matches = p ∷ preferred

abbrev pub lts_of : Bool → List (NodeRelease × SemVer) → List (NodeRelease × SemVer)
lts_of true matches = keep_if (λ m. m.0.is_lts) matches
lts_of false matches = []

abbrev pub chosen : {A : Type 0} → (A → String) → Option (A × SemVer) → Option String
chosen version none = none
chosen version (some (release, v)) = some (version release)

unfoldable pub select_latest_node_version : String → List NodeRelease → Bool → Option String
unfolding matching best
select_latest_node_version requirement releases prefer_lts =
    let matches = matching (λ r. r.version) requirement releases in
    chosen (λ r. r.version) (max_by by_version (prefer (lts_of prefer_lts matches) matches))

unfoldable pub select_latest_bun_version : String → List BunRelease → Option String
unfolding matching best
select_latest_bun_version requirement releases =
    chosen (λ r. r.version) (max_by by_version (matching (λ r. r.version) requirement releases))

abbrev pub chosen_runtime : Option (ResolvedRuntime × SemVer) → Option ResolvedRuntime
chosen_runtime none = none
chosen_runtime (some (runtime, v)) = some runtime

unfoldable pub select_latest_installed_runtime :
    List ResolvedRuntime → String → Option ResolvedRuntime
unfolding matching best
select_latest_installed_runtime installed requirement =
    chosen_runtime (max_by by_version (matching (λ r. r.version) requirement installed))

-- `installed.last()`.
unfoldable pub latest_installed_runtime : List ResolvedRuntime → Option ResolvedRuntime
latest_installed_runtime [] = none
latest_installed_runtime (r ∷ []) = some r
latest_installed_runtime (r ∷ s ∷ rs) = latest_installed_runtime (s ∷ rs)

-- `strip_suffix` is `strip_prefix` read backwards.
unfoldable pub strip_suffix : String → String → Option String
unfolding strip_prefix
strip_suffix suffix String.[] = if is_empty suffix then some "" else none
strip_suffix suffix (String.◌∷◌ c s) = elim (str_eq suffix (String.◌∷◌ c s)) [
  | true ↦ some ""
  | false ↦ elim (strip_suffix suffix s) [ none ↦ none | some front ↦ some (String.◌∷◌ c front) ]
]

parsed_entry : Option SemVer → String → Option String
parsed_entry none normalized = none
parsed_entry (some v) normalized = some normalized

-- The name of a directory below the tools directory.
unfoldable pub parse_runtime_entry : String → String → String → Option String
unfolding strip_prefix strip_suffix normalize_version parse_semver parsed_entry concat
parse_runtime_entry name prefix platform_suffix = elim (strip_prefix prefix name) [
  | none ↦ none
  | some version ↦
      let normalized =
        normalize_version
          (unwrap_or version (strip_suffix (concat ("-" ∷ platform_suffix ∷ [])) version)) in
      parsed_entry (parse_semver normalized) normalized
]

-- The order of `Option<SemVer>`: nothing is less than a version.
abbrev pub option_le : Option SemVer → Option SemVer → Bool
option_le none b = true
option_le (some a) none = false
option_le (some a) (some b) = semver_le a b

abbrev pub runtime_le : ResolvedRuntime → ResolvedRuntime → Bool
runtime_le left right = option_le (parse_semver left.version) (parse_semver right.version)

unfoldable pub runtimes_of : List String → String → String → List ResolvedRuntime
unfolding parse_runtime_entry
runtimes_of [] prefix platform_suffix = []
runtimes_of (name ∷ names) prefix platform_suffix =
    let rest = runtimes_of names prefix platform_suffix in
    elim (parse_runtime_entry name prefix platform_suffix) [
      | none ↦ rest
      | some version ↦ record { version = version; dir_name = name } ∷ rest
    ]

-- `read_dir` gives the names in any order, and nothing where it fails.
unfoldable pub installed_runtimes : List String → String → String → List ResolvedRuntime
unfolding runtimes_of sort_by
installed_runtimes names prefix platform_suffix =
    sort_by runtime_le (runtimes_of names prefix platform_suffix)
