-- ===== src/Guest/Init/Escapes.antt =====
-- The names that the kernel escapes in /proc/mounts are read back.
use Prim.Native.Nat.{◌/◌}
use fend.Prelude.{
  ℕ, ◌+◌, ◌%◌, ◌<◌, ◌≡◌, refl, ap, ◌∙◌, Bool, true, false, some, List, [], ◌∷◌, leb, ◌==◌,
  if◌then◌else◌, All, Bool-cases, inl, inr, arith,
}
use fend.Guest.Init.{backslash, is_octal, octal_value, at_boundary, push, unescape_mount_field}

-- A byte as a backslash and three octal digits.
abbrev pub octal : ℕ → List ℕ → List ℕ
octal b rest = backslash ∷ (b / 64 + b'0') ∷ (b / 8 % 8 + b'0') ∷ (b % 8 + b'0') ∷ rest

-- The kernel's form of a name, where the test tells the bytes that it escapes.
abbrev pub escaped : (ℕ → Bool) → List ℕ → List ℕ
escaped special [] = []
escaped special (b ∷ bs) =
    if special b then octal b (escaped special bs) else b ∷ escaped special bs

abbrev pub IsAscii : ℕ → Type 0
IsAscii b = b < 128

unescape_plain :
    (x : ℕ) (rest : List ℕ)
    → (x == backslash) ≡ false
    → unescape_mount_field (x ∷ rest) ≡ push x (unescape_mount_field rest)
unfolding unescape_mount_field
unescape_plain x [] h = refl
unescape_plain x (a ∷ []) h = refl
unescape_plain x (a ∷ b ∷ []) h = refl
unescape_plain x (a ∷ b ∷ c ∷ rest) h = rw h refl

is_octal_lem : (d : ℕ) → d < 8 → is_octal (d + b'0') ≡ true
is_octal_lem d h = ground arith

octal_value_lem :
    (b : ℕ) → IsAscii b → octal_value (b / 64 + b'0') (b / 8 % 8 + b'0') (b % 8 + b'0') ≡ b
octal_value_lem b h = omega arith

lt→byte : (b : ℕ) → b < 256 → leb b 255 ≡ true
lt→byte b h = ground arith

unescape_octal :
    (b : ℕ) (rest : List ℕ)
    → IsAscii b
    → at_boundary rest ≡ true
    → unescape_mount_field (octal b rest) ≡ push b (unescape_mount_field rest)
unfolding unescape_mount_field
unescape_octal b rest h boundary =
    rw
      (
        boundary,
        octal_value_lem b h,
        is_octal_lem (b / 64) (omega arith),
        is_octal_lem (b / 8 % 8) (omega arith),
        is_octal_lem (b % 8) (omega arith),
        lt→byte b (omega arith),
      )
      refl

escaped-boundary :
    (special : ℕ → Bool) (bs : List ℕ) → All IsAscii bs → at_boundary (escaped special bs) ≡ true
escaped-boundary special [] h = refl
escaped-boundary special (b ∷ bs) h = elim (Bool-cases (special b)) [
  | inl yes' ↦ rw yes' refl
  | inr no' ↦ rw no' (ground arith)
]

-- A name of ASCII characters that the kernel has escaped is read back as it was, whichever bytes
-- are escaped, as long as the backslash is one of them.
pub unescape_mount_field-escaped :
    (special : ℕ → Bool) (bs : List ℕ)
    → special backslash ≡ true
    → All IsAscii bs
    → unescape_mount_field (escaped special bs) ≡ some bs
unfolding unescape_mount_field
unescape_mount_field-escaped special [] h ascii = refl
unescape_mount_field-escaped special (b ∷ bs) h (ascii, rest) = elim (Bool-cases (special b)) [
  | inl yes' ↦ rw yes' (
      unescape_octal b (escaped special bs) ascii (escaped-boundary special bs rest)
      ∙ ap (push b) (unescape_mount_field-escaped special bs h rest))
  | inr no' ↦ rw no' (
      unescape_plain b (escaped special bs) (ground arith)
      ∙ ap (push b) (unescape_mount_field-escaped special bs h rest))
]
