-- ===== src/Runtime/Pins.antt =====
-- linux/src/runtime.rs: the versions that a project's .fend.toml pins (`load_runtime_pins`).
mod Tests
use text.Mathlib.Text.{◌==◌ as str_eq}
use Prim.Native.Char.{code}
use Prim.Native.String
use fend.Prelude.{
  ℕ, String, Bool, true, false, not, ◌&&◌, ◌||◌, Option, none, some, List, [], ◌∷◌, ◌==◌,
  if◌then◌else◌,
}
use fend.Prelude.Text.{is_empty, split_once}
use fend.Prelude.Words.{
  lines, trim, trim_start_matches, trim_end_matches, first_is, last_is, tail_text, init_text,
}

pub record RuntimePins : Type 0 where
  pub node : Option String
  pub bun : Option String

-- The text before the first `#` that stands outside quotes.
comment_free : Bool → String → String
comment_free in_quotes String.[] = ""
comment_free in_quotes (String.◌∷◌ c s) =
    if code c == b'#' && not in_quotes
    then ""
    else String.◌∷◌ c (comment_free (if code c == b'"' then not in_quotes else in_quotes) s)

unfoldable pub strip_inline_comment : String → String
unfolding comment_free
strip_inline_comment value = comment_free false value

unquoted : String → String
unfolding last_is init_text
unquoted value =
    if first_is b'"' value && (last_is b'"' value && not (is_empty (tail_text value)))
    then init_text (tail_text value)
    else value

-- The section that the lines so far are in, and the pins.
record Scan : Type 0 where
  section : String
  pins : RuntimePins

abbrev set_pin : String → String → RuntimePins → RuntimePins
set_pin key value pins =
    if str_eq key "node"
    then record pins { node = some value }
    else if str_eq key "bun"
    then record pins { bun = some value }
    else pins

on_pair : Scan → Option (String × String) → Scan
unfolding strip_inline_comment unquoted trim
on_pair s none = s
on_pair s (some (key, raw_value)) =
    let value = unquoted (trim (strip_inline_comment (trim raw_value))) in
    if not (str_eq s.section "runtime") || is_empty value
    then s
    else record s { pins = set_pin (trim key) value s.pins }

on_line : Scan → String → Scan
unfolding on_pair trim trim_start_matches trim_end_matches split_once last_is
on_line s line =
    let trimmed = trim line in
    if is_empty trimmed || first_is b'#' trimmed
    then s
    else if first_is b'[' trimmed && last_is b']' trimmed
    then record s {
      section =
          trim (trim_end_matches (λ c. c == b']') (trim_start_matches (λ c. c == b'[') trimmed));
    }
    else on_pair s (split_once b'=' trimmed)

scan_lines : Scan → List String → Scan
unfolding on_line
scan_lines s [] = s
scan_lines s (l ∷ ls) = scan_lines (on_line s l) ls

abbrev no_pins : RuntimePins
no_pins = record { node = none; bun = none }

-- `content` is what reading `.fend.toml` gave, if it did.
unfoldable pub load_runtime_pins : Option String → RuntimePins
unfolding scan_lines lines
load_runtime_pins none = no_pins
load_runtime_pins (some content) =
    (scan_lines (record { section = ""; pins = no_pins }) (lines content)).pins
