-- ===== src/Bootstrap.antt =====
-- linux/src/bootstrap.rs: the download of the Ubuntu kernel and initrd, and the kernel's version. A
-- file is its contents; the commands that are run and the system calls that may fail are parameters.
pub mod Verified
pub mod Unverified
mod Tests
use text.Mathlib.Text.{◌==◌ as str_eq}
use Prim.Native.Char.{code}
use Prim.Native.String
use fend.Prelude.{
  ℕ, zero, suc, ◌+◌, String, Bool, true, false, not, ◌&&◌, ◌||◌, Option, none, some, List, [], ◌∷◌,
  Result, ok, err, ltb, leb, ◌==◌, if◌then◌else◌, string_eq,
}
use fend.Prelude.Text.{concat, is_empty}
use fend.Prelude.Words.{
  lines, split_whitespace, trim, trim_start_matches, trim_end_matches, is_whitespace,
}

abbrev pub ubuntu_base : String
ubuntu_base = "https://cloud-images.ubuntu.com/releases/noble/release/unpacked"

-- The files of the host.
abbrev pub Disk : Type 0
Disk = String → Option String

unfoldable pub is_file : Disk → String → Bool
is_file disk path = elim (disk path) [ some contents ↦ true | none ↦ false ]

unfoldable pub write : String → String → Disk → Disk
write path contents disk q = if string_eq.beq path q then some contents else disk q

unfoldable pub remove_file : String → Disk → Disk
remove_file path disk q = if string_eq.beq path q then none else disk q

-- `fetch` is what `curl` gives for an address at its n-th run, `sha256sum` and `shasum` the output
-- of these commands on a file with such contents; none is a command that fails, which leaves the
-- error to its text. `make_parent` and `rename` tell whether these calls succeed, and `temp` is
-- the path with the extension tmp in the place of its own.
pub record Outside : Type 0 where
  pub fetch : ℕ → String → Option String
  pub sha256sum : String → Option String
  pub shasum : String → Option String
  pub make_parent : String → Bool
  pub rename : String → Bool
  pub temp : String → String

pub data BootstrapError : Type 0 where
  directory : String → BootstrapError
  command_failed : String → BootstrapError
  not_renamed : String → BootstrapError
  unreadable : String → BootstrapError
  not_listed : String → BootstrapError
  empty_output : BootstrapError
  mismatch : String → BootstrapError

unfoldable pub parse_checksum_output : String → Result BootstrapError String
unfolding split_whitespace
parse_checksum_output output = elim (split_whitespace output) [
  | [] ↦ err empty_output
  | value ∷ rest ↦ ok value
]

-- The sum of a file with such contents.
unfoldable pub sha256_file : Outside → String → Result BootstrapError String
unfolding parse_checksum_output
sha256_file o contents = elim (o.sha256sum contents) [
  | some output ↦ parse_checksum_output output
  | none ↦ elim (o.shasum contents) [
    | some output ↦ parse_checksum_output output
    | none ↦ err (command_failed "shasum")
  ]
]

-- The sum of a line, if it is about the file.
unfoldable pub sum_of_words : String → List String → Option String
unfolding trim_start_matches
sum_of_words file_name [] = none
sum_of_words file_name (sha ∷ []) = none
sum_of_words file_name (sha ∷ name ∷ rest) =
    if str_eq (trim_start_matches (λ c. c == b'*') name) file_name then some sha else none

unfoldable pub find_sum : String → List String → Option String
unfolding sum_of_words split_whitespace
find_sum file_name [] = none
find_sum file_name (line ∷ rest) =
    let later = find_sum file_name rest in
    elim (sum_of_words file_name (split_whitespace line)) [ some sha ↦ some sha | none ↦ later ]

unfoldable pub expected_sum : String → String → Option String
unfolding find_sum lines
expected_sum file_name sums = find_sum file_name (lines sums)

-- What is left of the host after a step, with the step's result.
abbrev pub Step : Type 0
Step = Result BootstrapError (Unit {0}) × Disk

unfoldable pub compare_sums : String → String → String → Result BootstrapError String → Disk → Step
unfolding remove_file
compare_sums file_name destination expected (err e) disk = (err e, disk)
compare_sums file_name destination expected (ok actual) disk =
    if str_eq actual expected
    then (ok tt, disk)
    else (err (mismatch file_name), remove_file destination disk)

module _ (o : Outside) where
  -- The sum of a file that is not there is that of a command that fails.
  unfoldable pub sum_at : Disk → String → Result BootstrapError String
  unfolding sha256_file
  sum_at disk path = elim (disk path) [
    | some contents ↦ sha256_file o contents
    | none ↦ err (command_failed "shasum")
  ]

  unfoldable pub verify_ubuntu_checksum : String → String → String → Disk → Step
  unfolding expected_sum sum_at compare_sums
  verify_ubuntu_checksum file_name destination sha_sums_path disk = elim (disk sha_sums_path) [
    | none ↦ (err (unreadable sha_sums_path), disk)
    | some sums ↦ elim (expected_sum file_name sums) [
      | none ↦ (err (not_listed file_name), disk)
      | some expected ↦ compare_sums file_name destination expected (sum_at disk destination) disk
    ]
  ]

  -- The n-th run of curl. A rename takes the temporary file away.
  unfoldable pub download_to_path : ℕ → String → String → Disk → Step
  unfolding write remove_file
  download_to_path n url destination disk =
      if not (o.make_parent destination)
      then (err (directory destination), disk)
      else elim (o.fetch n url) [
        | none ↦ (err (command_failed "curl"), disk)
        | some contents ↦
            if o.rename destination
            then (ok tt, write destination contents (remove_file (o.temp destination) disk))
            else (err (not_renamed destination), write (o.temp destination) contents disk)
      ]

  unfoldable pub ensure_ubuntu_sums : ℕ → String → Bool → Disk → Step
  unfolding is_file download_to_path
  ensure_ubuntu_sums n path force disk =
      if is_file disk path && not force
      then (ok tt, disk)
      else download_to_path n (concat (ubuntu_base ∷ "/SHA256SUMS" ∷ [])) path disk

  unfoldable pub check_downloaded : String → String → String → Step → Step
  unfolding verify_ubuntu_checksum
  check_downloaded file_name destination sha_sums_path (err e, disk) = (err e, disk)
  check_downloaded file_name destination sha_sums_path (ok done, disk) =
      verify_ubuntu_checksum file_name destination sha_sums_path disk

  unfoldable pub download_ubuntu_artifact : ℕ → String → String → String → Bool → Disk → Step
  unfolding is_file download_to_path check_downloaded concat
  download_ubuntu_artifact n file_name destination sha_sums_path force disk =
      if is_file disk destination && not force
      then (ok tt, disk)
      else check_downloaded file_name destination sha_sums_path
          (download_to_path n (concat (ubuntu_base ∷ "/" ∷ file_name ∷ [])) destination disk)
