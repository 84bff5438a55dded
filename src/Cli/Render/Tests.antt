-- ===== src/Cli/Render/Tests.antt =====
-- Commands, and the report of a host that is ready.
use fend.Prelude.{◌≡◌, refl, none, some, [], ◌∷◌, map}
use fend.Prelude.Text.{codes}
use fend.Cli.Render.{shell_quote, shell_command, render_doctor_report}
use fend.Cli.Render.Shell.{shell_words, shell_words-shell_command}

shell_quote_plain : shell_quote "-m" ≡ "-m"
unfolding shell_quote
shell_quote_plain = refl

shell_quote_spaces : shell_quote "/tmp/a b's" ≡ "'/tmp/a b'\\''s'"
unfolding shell_quote
shell_quote_spaces = refl

shell_words_small : shell_words "a 'b c'\\'d  e" ≡ some (codes "a" ∷ codes "b c'd" ∷ codes "e" ∷ [])
unfolding shell_words
shell_words_small = refl

shell_words_special : shell_words "a $b" ≡ none
unfolding shell_words
shell_words_special = refl

shell_words-shell_command_example :
    shell_words (shell_command "qemu" ("it's" ∷ "" ∷ "$HOME *" ∷ []))
    ≡ some (map codes ("qemu" ∷ "it's" ∷ "" ∷ "$HOME *" ∷ []))
shell_words-shell_command_example = shell_words-shell_command "qemu" ("it's" ∷ "" ∷ "$HOME *" ∷ [])

render_doctor_report_small :
    render_doctor_report (record {
      title = "t";
      ok_message = "ok";
      fields = ("os", "linux") ∷ ("kernel", "k") ∷ [];
      issues = [];
    })
    ≡ "t\n  os      linux\n  kernel  k\n\nok\n"
unfolding render_doctor_report
render_doctor_report_small = refl
