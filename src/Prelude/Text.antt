-- ===== src/Prelude/Text.antt =====
-- Text: `String` as the list of characters that it is, what `format!` makes of pieces, and
-- `Path::join`.
pub mod Bytes
use mathlib.Core.Path.{◌≡◌, refl}
use mathlib.Core.Bool.{Bool, true, false}
use mathlib.Core.List.{List, [], ◌∷◌, ◌++◌}
use Prim.Native.Nat.{ℕ, zero, suc, ◌+◌, ◌/◌, ◌%◌}
use Prim.Native.Char.{Char, code}
use mathlib.Core.Option.{Option, none, some}
use Prim.Native.String.{String}
use Prim.Native.String
use text.Mathlib.Text.{starts_with}
use fend.Prelude.Tests.{if◌then◌else◌, ltb, ◌==◌}
use fend.Prelude.Lists.{get_or}
use fend.Prelude.Int.{ℤ, pos, negsuc}

-- The code points of a text.
abbrev pub codes : String → List ℕ
codes String.[] = []
codes (String.◌∷◌ c s) = code c ∷ codes s

abbrev pub is_empty : String → Bool
is_empty String.[] = true
is_empty (String.◌∷◌ c s) = false

-- The pieces of a `format!`, or of a `String` that is pushed to, in order.
unfoldable pub concat : List String → String
concat [] = ""
concat (s ∷ ss) = String.◌++◌ s (concat ss)

-- `[String]::join`.
unfoldable pub join_with : String → List String → String
join_with sep [] = ""
join_with sep (s ∷ []) = s
join_with sep (s ∷ t ∷ ss) = String.◌++◌ s (String.◌++◌ sep (join_with sep (t ∷ ss)))

abbrev pub digit : ℕ → String
digit d =
    get_or
      ("0" ∷ "1" ∷ "2" ∷ "3" ∷ "4" ∷ "5" ∷ "6" ∷ "7" ∷ "8" ∷ "9" ∷ "a" ∷ "b" ∷ "c" ∷ "d" ∷ "e" ∷ "f"
        ∷ [])
      d ""

unfoldable pub decimal : ℕ → ℕ → String
decimal zero n = ""
decimal (suc fuel) n =
    let front = decimal fuel (n / 10) in
    if ltb n 10 then digit n else String.◌++◌ front (digit (n % 10))

-- `{n}`: a number has fewer digits than its successor.
unfoldable pub show : ℕ → String
unfolding decimal
show n = decimal (suc n) n

hex : ℕ → ℕ → String
hex zero n = ""
hex (suc k) n = String.◌++◌ (hex k (n / 16)) (digit (n % 16))

-- `{n:016x}` of a 64-bit number.
unfoldable pub hex16 : ℕ → String
unfolding hex
hex16 n = hex 16 n

ends_with_slash : String → Bool
ends_with_slash String.[] = false
ends_with_slash (String.◌∷◌ c String.[]) = code c == b'/'
ends_with_slash (String.◌∷◌ c (String.◌∷◌ d s)) = ends_with_slash (String.◌∷◌ d s)

-- `Path::join`: an absolute path replaces the base.
unfoldable pub join : String → String → String
unfolding ends_with_slash
join base path =
    if starts_with path "/"
    then path
    else if is_empty base
    then path
    else if ends_with_slash base
    then String.◌++◌ base path
    else String.◌++◌ base (String.◌++◌ "/" path)

show_small :
    join (join "/run/fend" "vms") (concat (hex16 0xABC ∷ "-" ∷ show 100 ∷ []))
    ≡ "/run/fend/vms/0000000000000abc-100"
unfolding join concat hex16 show
show_small = refl

prefixed : Char → Option (String × String) → Option (String × String)
prefixed c none = none
prefixed c (some (key, value)) = some (String.◌∷◌ c key, value)

-- `str::split_once` at a character, given by its code.
unfoldable pub split_once : ℕ → String → Option (String × String)
unfolding prefixed
split_once sep String.[] = none
split_once sep (String.◌∷◌ c s) =
    let rest = split_once sep s in if code c == sep then some ("", s) else prefixed c rest

-- `as_bytes` of a character and of a text.
unfoldable pub utf8 : ℕ → List ℕ
utf8 n =
    if ltb n 0x80
    then n ∷ []
    else if ltb n 0x800
    then (0xC0 + n / 64) ∷ (0x80 + n % 64) ∷ []
    else if ltb n 0x10000
    then (0xE0 + n / 4096) ∷ (0x80 + n / 64 % 64) ∷ (0x80 + n % 64) ∷ []
    else (0xF0 + n / 262144) ∷ (0x80 + n / 4096 % 64) ∷ (0x80 + n / 64 % 64) ∷ (0x80 + n % 64) ∷ []

unfoldable pub as_bytes : String → List ℕ
unfolding utf8
as_bytes String.[] = []
as_bytes (String.◌∷◌ c s) = utf8 (code c) ++ as_bytes s

-- The one-character text at a position of a table.
unfoldable pub nth_char : String → ℕ → String
nth_char String.[] i = ""
nth_char (String.◌∷◌ c s) zero = String.◌∷◌ c String.[]
nth_char (String.◌∷◌ c s) (suc i) = nth_char s i

-- `{n}` of a signed number.
unfoldable pub show_int : ℤ → String
unfolding show
show_int (pos n) = show n
show_int (negsuc n) = String.◌++◌ "-" (show (n + 1))

utf8_bytes : as_bytes "aé€" ≡ 0x61 ∷ 0xC3 ∷ 0xA9 ∷ 0xE2 ∷ 0x82 ∷ 0xAC ∷ []
unfolding as_bytes
utf8_bytes = refl
