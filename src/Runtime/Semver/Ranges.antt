-- ===== src/Runtime/Semver/Ranges.antt =====
-- The ranges of `comparator_accepts`, told by the numbers of the versions they hold.
use fend.Prelude.{
  ℕ, ◌+◌, ◌^◌, ◌≤◌, ◌<◌, ◌≡◌, ◌↔◌, ◌⊎◌, zero, suc, true, none, some, Option, unwrap_or, arith,
}
use fend.Runtime.Semver.{
  SemVer, PartialSemVer, lower_bound, semver_lt, semver_le, between, caret_upper, caret_accepts,
  tilde_upper, tilde_accepts, plain_accepts,
}

-- No number of the requirement is the last of its type.
abbrev pub InRange : PartialSemVer → Type 0
InRange p =
    (p.major + 1 < 2 ^ 64) × (unwrap_or 0 p.minor + 1 < 2 ^ 64) × (unwrap_or 0 p.patch + 1 < 2 ^ 64)

-- At least a minor number and a patch number.
abbrev pub AtLeast : ℕ → ℕ → SemVer → Type 0
AtLeast minor patch v = (minor < v.minor) ⊎ ((v.minor ≡ minor) × (patch ≤ v.patch))

-- What `^` asks of a version, by the first number of the requirement that is not zero.
abbrev pub Caret : ℕ → Option ℕ → Option ℕ → SemVer → Type 0
Caret (suc major) minor patch v =
    (v.major ≡ suc major) × AtLeast (unwrap_or 0 minor) (unwrap_or 0 patch) v
Caret zero (some minor) patch v = (v.major ≡ 0) × (v.minor ≡ minor) × (unwrap_or 0 patch ≤ v.patch)
Caret zero none patch v = (v.major ≡ 0) × (v.minor ≡ 0) × (v.patch ≡ unwrap_or 0 patch)

abbrev pub requirement : ℕ → Option ℕ → Option ℕ → PartialSemVer
requirement major minor patch = record { major = major; minor = minor; patch = patch }

caret_accepts-Caret :
    (major : ℕ) (minor patch : Option ℕ) (v : SemVer)
    → InRange (requirement major minor patch)
    → caret_accepts (requirement major minor patch) v ≡ true
    → Caret major minor patch v
unfolding caret_accepts semver_lt semver_le between caret_upper lower_bound
caret_accepts-Caret (suc major) none none v r h = ground arith
caret_accepts-Caret (suc major) none (some q) v r h = ground arith
caret_accepts-Caret (suc major) (some p) none v r h = ground arith
caret_accepts-Caret (suc major) (some p) (some q) v r h = ground arith
caret_accepts-Caret zero (some p) none v r h = ground arith
caret_accepts-Caret zero (some p) (some q) v r h = ground arith
caret_accepts-Caret zero none none v r h = ground arith
caret_accepts-Caret zero none (some q) v r h = ground arith

Caret-caret_accepts :
    (major : ℕ) (minor patch : Option ℕ) (v : SemVer)
    → InRange (requirement major minor patch)
    → Caret major minor patch v
    → caret_accepts (requirement major minor patch) v ≡ true
unfolding caret_accepts semver_lt semver_le between caret_upper lower_bound
Caret-caret_accepts (suc major) none none v r h = ground arith
Caret-caret_accepts (suc major) none (some q) v r h = ground arith
Caret-caret_accepts (suc major) (some p) none v r h = ground arith
Caret-caret_accepts (suc major) (some p) (some q) v r h = ground arith
Caret-caret_accepts zero (some p) none v r h = ground arith
Caret-caret_accepts zero (some p) (some q) v r h = ground arith
Caret-caret_accepts zero none none v r h = ground arith
Caret-caret_accepts zero none (some q) v r h = ground arith

-- Which versions a requirement `^major.minor.patch` accepts, where no number of it is the last of
-- its type. With a major number above zero: that major number, and from its minor and patch
-- numbers on. With major number zero and a minor number: these two, and from its patch number on.
-- With neither: the one version 0.0.patch. A part left out counts as zero.
pub caret_accepts_iff :
    (major : ℕ) (minor patch : Option ℕ) (v : SemVer)
    → InRange (requirement major minor patch)
    → (caret_accepts (requirement major minor patch) v ≡ true) ↔ Caret major minor patch v
caret_accepts_iff major minor patch v r =
    (caret_accepts-Caret major minor patch v r, Caret-caret_accepts major minor patch v r)

-- A requirement without a patch number means the same with `~` before it and without an operator:
-- both tests agree on every version, where no number of the requirement is the last of its type.
pub tilde_accepts-plain_accepts :
    (major : ℕ) (minor : Option ℕ) (v : SemVer)
    → InRange (requirement major minor none)
    → tilde_accepts (requirement major minor none) v
      ≡ plain_accepts (requirement major minor none) v
unfolding tilde_accepts plain_accepts semver_lt semver_le between tilde_upper lower_bound
tilde_accepts-plain_accepts major none v r = ground arith
tilde_accepts-plain_accepts major (some minor) v r = ground arith
