-- ===== src/Runtime/Pins/Tests.antt =====
-- Pins of small project files.
use fend.Prelude.{◌≡◌, refl, some}
use fend.Prelude.Words.{
  lines, split_on, trim, trim_start_matches, trim_end_matches, last_is, init_text,
}
use fend.Prelude.Text.{split_once}
use fend.Runtime.Pins.{RuntimePins, load_runtime_pins, strip_inline_comment}

abbrev pinned : RuntimePins
pinned = record { node = some "20.11"; bun = some "1.1" }

pins_small :
    load_runtime_pins
      (some "# x\nnode = 1\n[runtime]\n node = \"20.11\" # lts\nbun=1.1\n[vm]\nbun = 2\n")
    ≡ pinned
unfolding load_runtime_pins strip_inline_comment lines split_on trim trim_start_matches
    trim_end_matches last_is init_text split_once
pins_small = refl

comment_in_quotes : strip_inline_comment "\"a#b\" # c" ≡ "\"a#b\" "
unfolding strip_inline_comment
comment_in_quotes = refl
