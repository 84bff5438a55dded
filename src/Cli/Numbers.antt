-- ===== src/Cli/Numbers.antt =====
-- What `str::parse` of the standard library accepts for the integer types of the options.
pub mod Shown
use Prim.Native.Char.{Char, code}
use Prim.Native.String.{[], ◌∷◌}
use fend.Prelude.{
  ℕ, ◌+◌, ◌-◌, ◌*◌, ◌^◌, String, Bool, true, false, ◌&&◌, Option, none, some, leb, ◌==◌,
  if◌then◌else◌,
}
use fend.Prelude.Int.{ℤ, pos, negsuc}

abbrev pub is_digit : Char → Bool
is_digit c = leb b'0' (code c) && leb (code c) b'9'

-- The value of the digits that follow those already read.
unfoldable pub digits_from : ℕ → String → Option ℕ
digits_from n [] = some n
digits_from n (c ∷ s) =
    let more = digits_from (n * 10 + (code c - b'0')) s in
    elim (is_digit c) [ true ↦ more | false ↦ none ]

-- At least one digit.
unfoldable pub digits : String → Option ℕ
unfolding digits_from
digits [] = none
digits (c ∷ s) = digits_from 0 (c ∷ s)

at_most : ℕ → Option ℕ → Option ℕ
at_most max none = none
at_most max (some n) = if leb n max then some n else none

-- An unsigned type with the given maximum: a leading `+` is allowed.
unfoldable pub parse_unsigned : ℕ → String → Option ℕ
unfolding digits at_most
parse_unsigned max [] = none
parse_unsigned max (c ∷ s) =
    if code c == b'+' then at_most max (digits s) else at_most max (digits (c ∷ s))

abbrev pub u16_max : ℕ
u16_max = 2 ^ 16 - 1

abbrev pub u32_max : ℕ
u32_max = 2 ^ 32 - 1

abbrev pub u64_max : ℕ
u64_max = 2 ^ 64 - 1

as_negative : Option ℕ → Option ℤ
as_negative none = none
as_negative (some n) = if n == 0 then some (pos 0) else some (negsuc (n - 1))

as_positive : Option ℕ → Option ℤ
as_positive none = none
as_positive (some n) = some (pos n)

-- `i64`: either sign.
unfoldable pub parse_i64 : String → Option ℤ
unfolding digits at_most as_negative as_positive
parse_i64 [] = none
parse_i64 (c ∷ s) =
    if code c == b'-'
    then as_negative (at_most (2 ^ 63) (digits s))
    else if code c == b'+'
    then as_positive (at_most (2 ^ 63 - 1) (digits s))
    else as_positive (at_most (2 ^ 63 - 1) (digits (c ∷ s)))
