-- ===== src/Runtime/Select/Tests.antt =====
-- Selections from a small list of releases.
use fend.Prelude.{◌≡◌, refl, true, false, some, List, [], ◌∷◌}
use fend.Prelude.Text.{concat}
use fend.Prelude.Words.{
  split_on, split_whitespace, trim, trim_start_matches, contains_char, strip_prefix,
}
use fend.Cli.Numbers.{parse_unsigned}
use fend.Runtime.Semver.{
  parse_semver, normalize_version, version_satisfies, comparator_accepts, semver_lt, semver_le,
}
use fend.Runtime.Select.{NodeRelease, select_latest_node_version, matching, best}
use fend.Runtime.Select.Latest.{Selected, select_latest_node_version-Selected}

abbrev releases : List NodeRelease
releases =
    record { version = "22.1.0"; is_lts = false }
    ∷ record { version = "20.11.1"; is_lts = true }
    ∷ record { version = "20.9.0"; is_lts = true }
    ∷ record { version = "v"; is_lts = true }
    ∷ []

newest_lts : select_latest_node_version ">=20" releases true ≡ some "20.11.1"
unfolding select_latest_node_version parse_semver normalize_version version_satisfies
    comparator_accepts semver_lt semver_le matching best parse_unsigned concat split_on
    split_whitespace trim trim_start_matches contains_char strip_prefix
newest_lts = refl

newest : select_latest_node_version ">=20" releases false ≡ some "22.1.0"
unfolding select_latest_node_version parse_semver normalize_version version_satisfies
    comparator_accepts semver_lt semver_le matching best parse_unsigned concat split_on
    split_whitespace trim trim_start_matches contains_char strip_prefix
newest = refl

select_latest_node_version-Selected_example :
    Selected ">=20" releases true (select_latest_node_version ">=20" releases true)
select_latest_node_version-Selected_example =
    select_latest_node_version-Selected ">=20" releases true
