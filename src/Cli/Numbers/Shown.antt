-- ===== src/Cli/Numbers/Shown.antt =====
-- A number that was printed is parsed back.
use Prim.Native.Char.{Char, code}
use Prim.Native.String
use Prim.Native.String.append
use fend.Prelude.{
  ℕ, zero, suc, ◌+◌, ◌-◌, ◌*◌, ◌/◌, ◌%◌, ◌^◌, ◌<◌, ◌≡◌, refl, sym, ap, ap₂, ◌∙◌, String, true,
  false, ◌&&◌, none, some, leb, ltb, ◌==◌, Bool-cases, inl, inr, arith,
}
use fend.Prelude.Int.{ℤ, pos, negsuc}
use fend.Prelude.Text.{show, show_int, decimal, digit, is_empty}
use fend.Prelude.Words.Splitting.{no_space, no_space-append}
use fend.Cli.Numbers.{is_digit, digits_from, digits, at_most, as_positive, as_negative, parse_i64}

-- A digit's text is one character, a digit with that value.
abbrev ReadsAs : ℕ → String → Type 0
ReadsAs d s =
    (c : Char) × (s ≡ String.◌∷◌ c "")
    × (is_digit c ≡ true)
    × (code c ≡ d + b'0')
    × (no_space s ≡ true)

digit_lem : (d : ℕ) → d < 10 → ReadsAs d (digit d)
digit_lem zero h = ("0", refl, refl, refl, refl)
digit_lem (suc zero) h = ("1", refl, refl, refl, refl)
digit_lem (suc (suc zero)) h = ("2", refl, refl, refl, refl)
digit_lem (suc (suc (suc zero))) h = ("3", refl, refl, refl, refl)
digit_lem (suc (suc (suc (suc zero)))) h = ("4", refl, refl, refl, refl)
digit_lem (suc (suc (suc (suc (suc zero))))) h = ("5", refl, refl, refl, refl)
digit_lem (suc (suc (suc (suc (suc (suc zero)))))) h = ("6", refl, refl, refl, refl)
digit_lem (suc (suc (suc (suc (suc (suc (suc zero))))))) h = ("7", refl, refl, refl, refl)
digit_lem (suc (suc (suc (suc (suc (suc (suc (suc zero)))))))) h = ("8", refl, refl, refl, refl)
digit_lem (suc (suc (suc (suc (suc (suc (suc (suc (suc zero))))))))) h =
    ("9", refl, refl, refl, refl)
digit_lem (suc (suc (suc (suc (suc (suc (suc (suc (suc (suc d)))))))))) h = absurd (omega arith)

digits_from-digit :
    (n : ℕ) (c : Char) (s : String)
    → is_digit c ≡ true
    → digits_from n (String.◌∷◌ c s) ≡ digits_from (n * 10 + (code c - b'0')) s
unfolding digits_from
digits_from-digit n c s h = rw (h, digits_from) refl

digits_from-other :
    (n : ℕ) (c : Char) (s : String) → is_digit c ≡ false → digits_from n (String.◌∷◌ c s) ≡ none
unfolding digits_from
digits_from-other n c s h = rw (h, digits_from) refl

last_digit : (m n d c : ℕ) → m ≡ n → c ≡ d + b'0' → m * 10 + (c - b'0') ≡ n * 10 + d
last_digit m n d c k e = omega arith

zero_read : digits_from 0 "" ≡ some 0
unfolding digits_from
zero_read = refl

digits_from-append :
    (m n d : ℕ) (s : String) (c : Char)
    → is_digit c ≡ true
    → code c ≡ d + b'0'
    → digits_from m s ≡ some n
    → digits_from m (String.◌++◌ s (String.◌∷◌ c "")) ≡ some (n * 10 + d)
unfolding digits_from
digits_from-append m n d String.[] c h e r =
    ap (digits_from m) (append.nil (String.◌∷◌ c ""))
    ∙ digits_from-digit m c "" h
    ∙ ap some (last_digit m n d (code c) (cc) e)
digits_from-append m n d (String.◌∷◌ x s) c h e r = elim (Bool-cases (is_digit x)) [
  | inl yes' ↦
      ap (digits_from m) (append.cons x s (String.◌∷◌ c ""))
      ∙ digits_from-digit m x (String.◌++◌ s (String.◌∷◌ c "")) yes'
      ∙ digits_from-append (m * 10 + (code x - b'0')) n d s c h e
          (sym (digits_from-digit m x s yes') ∙ r)
  | inr no' ↦ cc (digits_from-other m x s no')
]

-- The digits of a number are read as the number.
digits_from-decimal : (fuel n : ℕ) → n < fuel → digits_from 0 (decimal fuel n) ≡ some n
unfolding decimal
digits_from-decimal zero n h = absurd (omega arith)
digits_from-decimal (suc fuel) n h = elim (Bool-cases (ltb n 10)) [
  | inl one ↦ rw one (
      let (c, text, is, value, _) = digit_lem n (ground arith) in
      ap (digits_from 0) text
      ∙ ap (digits_from 0) (sym (append.nil (String.◌∷◌ c "")))
      ∙ digits_from-append 0 0 n "" c is value zero_read
      ∙ ap some (omega arith))
  | inr more ↦ rw more (
      let (c, text, is, value, _) = digit_lem (n % 10) (omega arith) in
      ap (λ t. digits_from 0 (String.◌++◌ (decimal fuel (n / 10)) t)) text
      ∙ digits_from-append 0 (n / 10) (n % 10) (decimal fuel (n / 10)) c is value
          (digits_from-decimal fuel (n / 10) (ground arith))
      ∙ ap some (omega arith))
]

is_empty-append : (a : String) (c : Char) → is_empty (String.◌++◌ a (String.◌∷◌ c "")) ≡ false
is_empty-append String.[] c = ap is_empty (append.nil (String.◌∷◌ c ""))
is_empty-append (String.◌∷◌ x a) c = ap is_empty (append.cons x a (String.◌∷◌ c ""))

is_empty-decimal : (fuel n : ℕ) → is_empty (decimal (suc fuel) n) ≡ false
unfolding decimal
is_empty-decimal fuel n = elim (Bool-cases (ltb n 10)) [
  | inl one ↦ rw one (let (c, text, _, _, _) = digit_lem n (ground arith) in ap is_empty text)
  | inr more ↦ rw more (
      let (c, text, _, _, _) = digit_lem (n % 10) (omega arith) in
      ap (λ t. is_empty (String.◌++◌ (decimal fuel (n / 10)) t)) text
      ∙ is_empty-append (decimal fuel (n / 10)) c)
]

not_sign : (c : Char) (k : ℕ) → k < b'0' → is_digit c ≡ true → (code c == k) ≡ false
not_sign c k h d = ground arith

lt→leb_max : (n : ℕ) → n < 2 ^ 63 → leb n (2 ^ 63 - 1) ≡ true
lt→leb_max n h = ground arith

other_digits : (c : Char) (s : String) → is_digit c ≡ false → digits (String.◌∷◌ c s) ≡ none
unfolding digits
other_digits c s h = digits_from-other 0 c s h

is_empty-show : (n : ℕ) → is_empty (show n) ≡ false
unfolding show
is_empty-show n = is_empty-decimal n n

digits_lem :
    (s : String) (n : ℕ) → is_empty s ≡ false → digits_from 0 s ≡ some n → digits s ≡ some n
unfolding digits
digits_lem String.[] n h r = cc
digits_lem (String.◌∷◌ c s) n h r = r

pub digits-show : (n : ℕ) → digits (show n) ≡ some n
unfolding show
digits-show n =
    digits_lem (decimal (suc n) n) n (is_empty-decimal n n)
      (digits_from-decimal (suc n) n (omega arith))

parse_positive :
    (s : String) (n : ℕ)
    → is_empty s ≡ false
    → digits s ≡ some n
    → n < 2 ^ 63
    → parse_i64 s ≡ some (pos n)
unfolding parse_i64 at_most as_positive
parse_positive String.[] n h r lt = cc
parse_positive (String.◌∷◌ c s) n h r lt = elim (Bool-cases (is_digit c)) [
  | inl yes' ↦
      rw (not_sign c b'-' (omega arith) yes', not_sign c b'+' (omega arith) yes', r)
        (rw (lt→leb_max n lt) refl)
  | inr no' ↦ cc (other_digits c s no')
]

-- The range of `i64`.
abbrev pub IsI64 : ℤ → Type 0
IsI64 (pos n) = n < 2 ^ 63
IsI64 (negsuc n) = n < 2 ^ 63

negative : (n : ℕ) → n < 2 ^ 63 → as_negative (at_most (2 ^ 63) (some (n + 1))) ≡ some (negsuc n)
unfolding at_most as_negative
negative n h = ground arith

-- Every number of 64 bits is read as it was printed.
pub parse_i64-show_int : (n : ℤ) → IsI64 n → parse_i64 (show_int n) ≡ some n
unfolding show_int parse_i64 at_most as_negative
parse_i64-show_int (pos n) h = parse_positive (show n) n (is_empty-show n) (digits-show n) h
parse_i64-show_int (negsuc n) h =
    ap parse_i64
      (append.cons "-" "" (show (n + 1)) ∙ ap (String.◌∷◌ "-") (append.nil (show (n + 1))))
    ∙ ap (λ d. as_negative (at_most (2 ^ 63) d)) (digits-show (n + 1))
    ∙ negative n h

no_space-decimal : (fuel n : ℕ) → n < fuel → no_space (decimal fuel n) ≡ true
unfolding decimal
no_space-decimal zero n h = absurd (omega arith)
no_space-decimal (suc fuel) n h = elim (Bool-cases (ltb n 10)) [
  | inl one ↦ rw one (digit_lem n (ground arith)).4
  | inr more ↦ rw more (
      no_space-append (decimal fuel (n / 10)) (digit (n % 10))
      ∙ ap₂ ◌&&◌ (no_space-decimal fuel (n / 10) (ground arith))
          (digit_lem (n % 10) (omega arith)).4)
]

pub no_space-show_int : (n : ℤ) → no_space (show_int n) ≡ true
unfolding show_int show
no_space-show_int (pos n) = no_space-decimal (suc n) n (omega arith)
no_space-show_int (negsuc n) =
    no_space-append "-" (show (n + 1)) ∙ no_space-decimal (suc (n + 1)) (n + 1) (omega arith)
