-- ===== src/Runtime/Semver.antt =====
-- Versions and requirements of linux/src/runtime.rs. A text is parsed where the code parses it; an
-- overflow of a u64 wraps, as in a release build.
pub mod Ranges
mod Tests
use text.Mathlib.Text.{◌==◌ as str_eq}
use Prim.Native.Char.{Char, code}
use Prim.Native.String
use fend.Prelude.{
  ℕ, ◌+◌, ◌%◌, ◌^◌, String, Bool, true, false, not, ◌&&◌, ◌||◌, Option, none, some, List, [], ◌∷◌,
  leb, ltb, ◌==◌, if◌then◌else◌, unwrap_or,
}
use fend.Prelude.Text.{is_empty, concat}
use fend.Prelude.Words.{
  split_on, split_whitespace, trim, trim_start_matches, strip_prefix, contains_char, push,
}
use fend.Cli.Numbers.{parse_unsigned, u64_max}

pub record SemVer : Type 0 where
  pub major : ℕ
  pub minor : ℕ
  pub patch : ℕ

pub record PartialSemVer : Type 0 where
  pub major : ℕ
  pub minor : Option ℕ
  pub patch : Option ℕ

-- The derived order: by the first field that differs.
unfoldable pub semver_lt : SemVer → SemVer → Bool
semver_lt a b =
    if a.major == b.major
    then if a.minor == b.minor then ltb a.patch b.patch else ltb a.minor b.minor
    else ltb a.major b.major

unfoldable pub semver_le : SemVer → SemVer → Bool
unfolding semver_lt
semver_le a b = not (semver_lt b a)

unfoldable pub semver_eq : SemVer → SemVer → Bool
semver_eq a b = a.major == b.major && (a.minor == b.minor && a.patch == b.patch)

abbrev pub version : ℕ → ℕ → ℕ → SemVer
version major minor patch = record { major = major; minor = minor; patch = patch }

unfoldable pub lower_bound : PartialSemVer → SemVer
lower_bound p = version p.major (unwrap_or 0 p.minor) (unwrap_or 0 p.patch)

unfoldable pub normalize_version : String → String
normalize_version value =
    trim_start_matches (λ c. c == b'V') (trim_start_matches (λ c. c == b'v') (trim value))

abbrev pub first_piece : List String → String
first_piece [] = ""
first_piece (p ∷ ps) = p

abbrev u64 : String → Option ℕ
u64 text = parse_unsigned u64_max text

both : Option ℕ → Option ℕ → Option ℕ → Option SemVer
both (some major) (some minor) (some patch) = some (version major minor patch)
both _ _ _ = none

semver_parts : List String → Option SemVer
unfolding both
semver_parts (a ∷ []) = both (u64 a) (some 0) (some 0)
semver_parts (a ∷ b ∷ []) = both (u64 a) (u64 b) (some 0)
semver_parts (a ∷ b ∷ c ∷ []) = both (u64 a) (u64 b) (u64 c)
semver_parts _ = none

-- `SemVer::parse`: a pre-release is refused, build metadata is dropped.
unfoldable pub parse_semver : String → Option SemVer
unfolding normalize_version semver_parts
parse_semver raw =
    let normalized = normalize_version raw in
    if contains_char b'-' normalized
    then none
    else semver_parts (split_on b'.' (first_piece (split_on b'+' normalized)))

-- `parse_partial_part`: the outer option fails, the inner one is a wildcard. The code compares in
-- lower case.
unfoldable pub parse_partial_part : String → Option (Option ℕ)
parse_partial_part raw =
    if str_eq raw "x" || (str_eq raw "X" || str_eq raw "*")
    then some none
    else elim (u64 raw) [ none ↦ none | some n ↦ some (some n) ]

partial : Option (Option ℕ) → Option (Option ℕ) → Option (Option ℕ) → Option PartialSemVer
partial (some (some major)) (some minor) (some patch) =
    some (record { major = major; minor = minor; patch = patch })
partial _ _ _ = none

partial_parts : List String → Option PartialSemVer
unfolding partial parse_partial_part
partial_parts (a ∷ []) = partial (parse_partial_part a) (some none) (some none)
partial_parts (a ∷ b ∷ []) = partial (parse_partial_part a) (parse_partial_part b) (some none)
partial_parts (a ∷ b ∷ c ∷ []) =
    partial (parse_partial_part a) (parse_partial_part b) (parse_partial_part c)
partial_parts _ = none

unfoldable pub parse_partial_semver : String → Option PartialSemVer
unfolding normalize_version partial_parts
parse_partial_semver raw =
    let normalized = normalize_version raw in
    if is_empty normalized
    then none
    else partial_parts (split_on b'.' (first_piece (split_on b'+' normalized)))

abbrev pub next : ℕ → ℕ
next n = (n + 1) % 2 ^ 64

-- `*version >= lower && *version < upper`.
unfoldable pub between : SemVer → SemVer → SemVer → Bool
unfolding semver_le semver_lt
between lower upper v = semver_le lower v && semver_lt v upper

unfoldable pub caret_upper : PartialSemVer → SemVer
caret_upper base = if ltb 0 base.major then version (next base.major) 0 0 else elim base.minor [
  | some minor ↦ version 0 (next minor) 0
  | none ↦ version 0 0 (next (unwrap_or 0 base.patch))
]

unfoldable pub caret_accepts : PartialSemVer → SemVer → Bool
unfolding between caret_upper lower_bound
caret_accepts base v = between (lower_bound base) (caret_upper base) v

unfoldable pub tilde_upper : PartialSemVer → SemVer
tilde_upper base = elim base.minor [
  | none ↦ version (next base.major) 0 0
  | some minor ↦ version base.major (next minor) 0
]

unfoldable pub tilde_accepts : PartialSemVer → SemVer → Bool
unfolding between tilde_upper lower_bound
tilde_accepts base v = between (lower_bound base) (tilde_upper base) v

-- A wildcard or a part that is left out agrees with every number.
abbrev pub agrees : Option ℕ → ℕ → Bool
agrees none n = true
agrees (some m) n = n == m

-- A requirement without an operator.
unfoldable pub plain_accepts : PartialSemVer → SemVer → Bool
plain_accepts expected v =
    v.major == expected.major && (agrees expected.minor v.minor && agrees expected.patch v.patch)

-- A requirement whose version does not parse accepts nothing.
abbrev pub on_partial : (PartialSemVer → SemVer → Bool) → String → SemVer → Bool
on_partial f text v = elim (parse_partial_semver text) [ none ↦ false | some base ↦ f base v ]

abbrev pub on_bound : (SemVer → SemVer → Bool) → String → SemVer → Bool
on_bound f = on_partial (λ base v. f v (lower_bound base))

-- The loop over the operators: the first one that the token begins with.
operators : List (String × (SemVer → SemVer → Bool)) → String → SemVer → Bool
unfolding plain_accepts parse_partial_semver lower_bound
operators [] token v = on_partial plain_accepts token v
operators ((operator, f) ∷ rest) token v = elim (strip_prefix operator token) [
  | some bound ↦ on_bound f bound v
  | none ↦ operators rest token v
]

unfoldable pub comparator_accepts : String → SemVer → Bool
unfolding normalize_version operators parse_partial_semver caret_accepts tilde_accepts semver_le
    semver_lt semver_eq
comparator_accepts raw v =
    let token = normalize_version raw in
    if is_empty token || str_eq token "*" then true else elim (strip_prefix "^" token) [
      | some rest ↦ on_partial caret_accepts rest v
      | none ↦ elim (strip_prefix "~" token) [
        | some rest ↦ on_partial tilde_accepts rest v
        | none ↦
            operators
              ((">=", λ a b. semver_le b a)
                ∷ ("<=", semver_le)
                ∷ (">", λ a b. semver_lt b a)
                ∷ ("<", semver_lt)
                ∷ ("=", semver_eq)
                ∷ [])
              token v
      ]
    ]

abbrev is_operator : String → Bool
is_operator t = str_eq t ">=" || (str_eq t "<=" || (str_eq t ">" || (str_eq t "<" || str_eq t "=")))

-- An operator that stands apart is joined to what follows it.
joined_tokens : List String → List String
joined_tokens [] = []
joined_tokens (t ∷ []) = t ∷ []
joined_tokens (t ∷ u ∷ ts) = elim (is_operator t) [
  | true ↦ concat (t ∷ u ∷ []) ∷ joined_tokens ts
  | false ↦ t ∷ joined_tokens (u ∷ ts)
]

unfoldable pub comparator_tokens : String → List String
unfolding joined_tokens
comparator_tokens clause = joined_tokens (split_whitespace clause)

-- `split("||")`.
unfoldable pub split_or : String → List String
split_or String.[] = "" ∷ []
split_or (String.◌∷◌ c String.[]) = String.◌∷◌ c "" ∷ []
split_or (String.◌∷◌ c (String.◌∷◌ d s)) = elim (code c == b'|' && code d == b'|') [
  | true ↦ "" ∷ split_or s
  | false ↦ push c (split_or (String.◌∷◌ d s))
]

abbrev pub all_accept : List String → SemVer → Bool
all_accept [] v = true
all_accept (t ∷ ts) v = comparator_accepts t v && all_accept ts v

abbrev pub clause_accepts : List String → SemVer → Bool
clause_accepts [] v = false
clause_accepts (t ∷ ts) v = all_accept (t ∷ ts) v

any_clause : List String → SemVer → Bool
any_clause [] v = false
any_clause (c ∷ cs) v = clause_accepts (comparator_tokens c) v || any_clause cs v

unfoldable pub version_satisfies : SemVer → String → Bool
unfolding any_clause split_or comparator_tokens
version_satisfies v requirement = any_clause (split_or requirement) v
