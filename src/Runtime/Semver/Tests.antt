-- ===== src/Runtime/Semver/Tests.antt =====
-- Requirements at concrete versions.
use fend.Prelude.{◌≡◌, ◌↔◌, refl, true, false, none, some, arith}
use fend.Prelude.Words.{
  split_whitespace, trim_start_matches, trim, strip_prefix, split_on, contains_char,
}
use fend.Prelude.Text.{concat}
use fend.Cli.Numbers.{parse_unsigned}
use fend.Runtime.Semver.{
  version, parse_semver, version_satisfies, comparator_accepts, caret_accepts,
}
use fend.Runtime.Semver.Ranges.{requirement, Caret, caret_accepts_iff}

parsed : parse_semver " v20.11.1+build " ≡ some (version 20 11 1)
unfolding parse_semver contains_char trim trim_start_matches split_on parse_unsigned
parsed = refl

in_range : version_satisfies (version 22 3 0) ">=20 <23 || ^18.2" ≡ true
unfolding version_satisfies comparator_accepts split_whitespace trim trim_start_matches strip_prefix
    split_on parse_unsigned concat
in_range = refl

in_second_clause : version_satisfies (version 18 2 1) ">= 20 <23 || ^18.2" ≡ true
unfolding version_satisfies comparator_accepts split_whitespace trim trim_start_matches strip_prefix
    split_on parse_unsigned concat
in_second_clause = refl

out_of_range : version_satisfies (version 18 1 9) ">=20 <23 || ^18.2" ≡ false
unfolding version_satisfies comparator_accepts split_whitespace trim trim_start_matches strip_prefix
    split_on parse_unsigned concat
out_of_range = refl

caret_accepts_iff_example :
    (caret_accepts (requirement 18 (some 2) none) (version 18 17 0) ≡ true)
    ↔ Caret 18 (some 2) none (version 18 17 0)
caret_accepts_iff_example = caret_accepts_iff 18 (some 2) none (version 18 17 0) (omega arith)
