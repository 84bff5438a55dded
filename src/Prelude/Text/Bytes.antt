-- ===== src/Prelude/Text/Bytes.antt =====
-- The bytes of a text.
use Prim.Native.Char.{Char, char, code}
use Prim.Native.String
use Prim.Native.String.{String}
use Prim.Native.String.append
use mathlib.Core.Logic.{inl, inr}
use Prim.Native.Nat.{ℕ, ◌<◌}
use mathlib.Core.Path.{◌≡◌, sym, ap, ◌∙◌}
use mathlib.Core.List.{◌++◌, append_assoc}
use native.Mathlib.Omega.{arith}
use fend.Prelude.Lists.{All, All-append}
use fend.Prelude.Tests.{ltb, Bool-cases}
use fend.Prelude.Text.{utf8, as_bytes}

pub as_bytes-append : (a b : String) → as_bytes (String.◌++◌ a b) ≡ as_bytes a ++ as_bytes b
unfolding as_bytes
as_bytes-append String.[] b = ap as_bytes (append.nil b)
as_bytes-append (String.◌∷◌ c a) b =
    ap as_bytes (append.cons c a b)
    ∙ ap (λ t. utf8 (code c) ++ t) (as_bytes-append a b)
    ∙ sym (append_assoc (utf8 (code c)) (as_bytes a) (as_bytes b))

code_lt : (c : Char) → code c < 1114112
code_lt (char n p) = ground arith

utf8_bytes_lt : (n : ℕ) → n < 1114112 → All (λ b. b < 256) (utf8 n)
unfolding utf8
utf8_bytes_lt n h = elim (Bool-cases (ltb n 128)) [
  | inl one ↦ rw one (ground arith)
  | inr more ↦ elim (Bool-cases (ltb n 2048)) [
    | inl two ↦ rw (more, two) (ground arith)
    | inr rest ↦ elim (Bool-cases (ltb n 65536)) [
      | inl three ↦ rw (more, rest, three) (ground arith)
      | inr four ↦ rw (more, rest, four) (omega arith)
    ]
  ]
]

pub as_bytes_lt : (s : String) → All (λ b. b < 256) (as_bytes s)
unfolding as_bytes
as_bytes_lt String.[] = tt
as_bytes_lt (String.◌∷◌ c s) =
    All-append (λ b. b < 256) (utf8 (code c)) (as_bytes s) (utf8_bytes_lt (code c) (code_lt c))
      (as_bytes_lt s)
