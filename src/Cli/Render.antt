-- ===== src/Cli/Render.antt =====
-- linux/src/cli.rs: the texts of a doctor report and of a launch plan, and how the arguments of a
-- command are quoted for a shell.
pub mod Shell
mod Tests
use Prim.Native.Char.{code}
use Prim.Native.String
use fend.Prelude.{
  ℕ, zero, suc, ◌-◌, String, Bool, true, false, ◌&&◌, ◌||◌, List, [], ◌∷◌, map, ltb, leb, ◌==◌,
  if◌then◌else◌, length,
}
use fend.Prelude.Text.{concat, is_empty, as_bytes, join_with, codes}
use fend.Qemu.{SharePlan, LaunchPlan, virtiofsd_command}
use fend.Doctor.Report.{DoctorReport}

-- What `shell_quote` leaves as it is. A byte of a character beyond ASCII is not among them.
unfoldable pub is_plain : ℕ → Bool
is_plain c =
    (leb b'0' c && leb c b'9')
    || ((leb b'A' c && leb c b'Z')
        || ((leb b'a' c && leb c b'z')
            || (c == b'_'
                || (c == b'-'
                    || (c == b'.'
                        || (c == b'/'
                            || (c == b':' || (c == b'=' || (c == b',' || c == b'+')))))))))

unfoldable pub all_plain : String → Bool
unfolding is_plain
all_plain String.[] = true
all_plain (String.◌∷◌ c s) = is_plain (code c) && all_plain s

-- `value.replace('\'', "'\\''")`.
unfoldable pub replace_quotes : String → String
replace_quotes String.[] = ""
replace_quotes (String.◌∷◌ c s) =
    let rest = replace_quotes s in
    if code c == 39 then String.◌++◌ "'\\''" rest else String.◌∷◌ c rest

unfoldable pub shell_quote : String → String
unfolding all_plain replace_quotes
shell_quote value =
    if is_empty value
    then "''"
    else if all_plain value
    then value
    else String.◌++◌ "'" (String.◌++◌ (replace_quotes value) "'")

unfoldable pub shell_command : String → List String → String
unfolding shell_quote join_with
shell_command program args = join_with " " (shell_quote program ∷ map shell_quote args)

-- `{text:<width$}`, where the width counts characters.
spaces : ℕ → String
spaces zero = ""
spaces (suc n) = String.◌∷◌ " " (spaces n)

unfoldable pub pad_right : ℕ → String → String
unfolding spaces
pad_right width text = String.◌++◌ text (spaces (width - length (codes text)))

max_of : ℕ → ℕ → ℕ
max_of a b = if ltb a b then b else a

-- The length in bytes of the longest label.
label_width : List (String × String) → ℕ
unfolding max_of as_bytes
label_width [] = 0
label_width ((label, value) ∷ rest) = max_of (length (as_bytes label)) (label_width rest)

field_lines : ℕ → List (String × String) → String
unfolding pad_right concat
field_lines width [] = ""
field_lines width ((label, value) ∷ rest) =
    concat ("  " ∷ pad_right width label ∷ "  " ∷ value ∷ "\n" ∷ field_lines width rest ∷ [])

issue_lines : List String → String
unfolding concat
issue_lines [] = ""
issue_lines (issue ∷ rest) = concat ("  - " ∷ issue ∷ "\n" ∷ issue_lines rest ∷ [])

verdict : DoctorReport → String
unfolding issue_lines concat
verdict report = elim report.issues [
  | [] ↦ concat ("\n" ∷ report.ok_message ∷ "\n" ∷ [])
  | issue ∷ rest ↦ concat ("\nissues\n" ∷ issue_lines (issue ∷ rest) ∷ [])
]

unfoldable pub render_doctor_report : DoctorReport → String
unfolding label_width field_lines verdict concat
render_doctor_report report = concat (
    report.title
    ∷ "\n"
    ∷ field_lines (label_width report.fields) report.fields
    ∷ verdict report
    ∷ [])

share_lines : List SharePlan → String
unfolding virtiofsd_command shell_command shell_quote pad_right concat
share_lines [] = ""
share_lines (share ∷ rest) =
    let (program, args) = virtiofsd_command share in
    concat (
      "  "
      ∷ pad_right 9 share.name
      ∷ " "
      ∷ shell_command program args
      ∷ " > "
      ∷ shell_quote share.log
      ∷ " 2>&1\n"
      ∷ share_lines rest
      ∷ [])

unfoldable pub render_launch_plan : LaunchPlan → String
unfolding share_lines shell_command concat
render_launch_plan plan = concat (
    "fend linux launch plan\n\nvirtiofsd\n"
    ∷ share_lines plan.shares
    ∷ "\nqemu\n  "
    ∷ shell_command plan.qemu_program plan.qemu_args
    ∷ "\n"
    ∷ [])
