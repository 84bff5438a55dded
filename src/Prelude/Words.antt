-- ===== src/Prelude/Words.antt =====
-- Text taken apart: the methods of `str` that the parsers use.
pub mod Splitting
use Prim.Native.Char.{Char, code}
use Prim.Native.String
use Prim.Native.String.{String}
use mathlib.Core.Path.{◌≡◌, refl}
use mathlib.Core.Bool.{Bool, true, false, not, ◌&&◌, ◌||◌}
use mathlib.Core.Option.{Option, none, some}
use mathlib.Core.List.{List, [], ◌∷◌}
use Prim.Native.Nat.{ℕ}
use fend.Prelude.Tests.{if◌then◌else◌, leb, ◌==◌}
use fend.Prelude.Text.{is_empty}

-- `char::is_whitespace`: the property White_Space.
abbrev pub is_whitespace : ℕ → Bool
is_whitespace c =
    (leb 9 c && leb c 13)
    || (c == 32)
    || (c == 0x85)
    || (c == 0xA0)
    || (c == 0x1680)
    || (leb 0x2000 c && leb c 0x200A)
    || (leb 0x2028 c && leb c 0x2029)
    || (c == 0x202F)
    || (c == 0x205F)
    || (c == 0x3000)

-- A character in front of the first piece.
abbrev pub push : Char → List String → List String
push c [] = String.◌∷◌ c "" ∷ []
push c (p ∷ ps) = String.◌∷◌ c p ∷ ps

-- `str::split` at a character: there is always a first piece.
unfoldable pub split_on : ℕ → String → List String
split_on sep String.[] = "" ∷ []
split_on sep (String.◌∷◌ c s) =
    let rest = split_on sep s in if code c == sep then "" ∷ rest else push c rest

-- `str::lines`: no last line after a final line feed, and no carriage return before one.
without_cr : String → String
without_cr String.[] = ""
without_cr (String.◌∷◌ c String.[]) = if code c == 13 then "" else String.◌∷◌ c ""
without_cr (String.◌∷◌ c (String.◌∷◌ d s)) = String.◌∷◌ c (without_cr (String.◌∷◌ d s))

ended : List String → List String
ended [] = []
ended (l ∷ []) = if is_empty l then [] else l ∷ []
ended (l ∷ m ∷ ls) = without_cr l ∷ ended (m ∷ ls)

unfoldable pub lines : String → List String
unfolding split_on ended without_cr
lines s = ended (split_on 10 s)

-- `str::split_whitespace`: the pieces that are not empty. `new` tells that a piece begins here.
unfoldable pub word_ends : String → Bool
word_ends String.[] = true
word_ends (String.◌∷◌ c s) = is_whitespace (code c)

unfoldable pub split_whitespace : String → List String
unfolding word_ends
split_whitespace String.[] = []
split_whitespace (String.◌∷◌ c s) =
    let rest = split_whitespace s in
    if is_whitespace (code c)
    then rest
    else if word_ends s
    then String.◌∷◌ c "" ∷ rest
    else push c rest

unfoldable pub trim_start_matches : (ℕ → Bool) → String → String
trim_start_matches p String.[] = ""
trim_start_matches p (String.◌∷◌ c s) =
    let rest = trim_start_matches p s in if p (code c) then rest else String.◌∷◌ c s

unfoldable pub trim_end_matches : (ℕ → Bool) → String → String
trim_end_matches p String.[] = ""
trim_end_matches p (String.◌∷◌ c s) =
    let rest = trim_end_matches p s in if p (code c) && is_empty rest then "" else String.◌∷◌ c rest

unfoldable pub trim : String → String
unfolding trim_start_matches trim_end_matches
trim s = trim_end_matches is_whitespace (trim_start_matches is_whitespace s)

-- `s.strip_prefix(prefix)`.
unfoldable pub strip_prefix : String → String → Option String
strip_prefix String.[] s = some s
strip_prefix (String.◌∷◌ c p) String.[] = none
strip_prefix (String.◌∷◌ c p) (String.◌∷◌ d s) =
    let rest = strip_prefix p s in if code c == code d then rest else none

-- `s.contains(c)` for a character.
unfoldable pub contains_char : ℕ → String → Bool
contains_char n String.[] = false
contains_char n (String.◌∷◌ c s) = code c == n || contains_char n s

words_small : split_whitespace "  ab c\td\n" ≡ "ab" ∷ "c" ∷ "d" ∷ []
unfolding split_whitespace
words_small = refl

lines_small : lines "a\r\n\nb" ≡ "a" ∷ "" ∷ "b" ∷ []
unfolding lines
lines_small = refl

trim_small : trim " a b " ≡ "a b"
unfolding trim
trim_small = refl

-- `starts_with` and `ends_with` at a character.
abbrev pub first_is : ℕ → String → Bool
first_is n String.[] = false
first_is n (String.◌∷◌ c s) = code c == n

unfoldable pub last_is : ℕ → String → Bool
last_is n String.[] = false
last_is n (String.◌∷◌ c String.[]) = code c == n
last_is n (String.◌∷◌ c (String.◌∷◌ d s)) = last_is n (String.◌∷◌ d s)

-- All but the first character, and all but the last.
abbrev pub tail_text : String → String
tail_text String.[] = ""
tail_text (String.◌∷◌ c s) = s

unfoldable pub init_text : String → String
init_text String.[] = ""
init_text (String.◌∷◌ c String.[]) = ""
init_text (String.◌∷◌ c (String.◌∷◌ d s)) = String.◌∷◌ c (init_text (String.◌∷◌ d s))
