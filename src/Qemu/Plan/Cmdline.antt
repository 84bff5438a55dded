-- ===== src/Qemu/Plan/Cmdline.antt =====
-- The kernel command line as a row of words.
use Prim.Native.String
use Prim.Native.String.append
use text.Mathlib.TextLemmas.{append_assoc}
use fend.Prelude.{
  ℕ, ◌%◌, ◌≡◌, refl, ap, ap₂, ◌∙◌, Bool, true, ◌&&◌, String, List, [], ◌∷◌, ◌++◌, All, holds_below,
  holds_below_sound, arith,
}
use fend.Prelude.Int.{ℤ}
use fend.Prelude.Bits.{bit_and_mask6}
use fend.Prelude.Text.{as_bytes, concat, nth_char, show_int}
use fend.Prelude.Text.Bytes.{as_bytes-append}
use fend.Prelude.Words.{split_whitespace, word_ends}
use fend.Prelude.Words.Splitting.{
  no_space, no_space-append, split_whitespace-word, split_whitespace-word_space, is_empty-append,
}
use fend.Cli.Numbers.Shown.{no_space-show_int}
use fend.Qemu.Plan.{symbol_text, base64, kernel_cmdline}
use fend.Qemu.Plan.Laws.{bytes_of}

pub as_bytes-concat : (pieces : List String) → as_bytes (concat pieces) ≡ bytes_of pieces
unfolding concat bytes_of as_bytes
as_bytes-concat [] = refl
as_bytes-concat (s ∷ ss) =
    as_bytes-append s (concat ss) ∙ ap (λ t. as_bytes s ++ t) (as_bytes-concat ss)

abbrev IsPlain : String → Type 0
IsPlain s = no_space s ≡ true

no_space-concat : (pieces : List String) → All IsPlain pieces → IsPlain (concat pieces)
unfolding concat
no_space-concat [] h = refl
no_space-concat (s ∷ ss) (h, hs) =
    no_space-append s (concat ss) ∙ ap₂ ◌&&◌ h (no_space-concat ss hs)

plain_symbol : ℕ → Bool
unfolding nth_char
plain_symbol i =
    no_space (nth_char "ABCDEFGHIJKLMNOPQRSTUVWXYZabcdefghijklmnopqrstuvwxyz0123456789+/" i)

plain_table : holds_below 64 plain_symbol ≡ true
unfolding holds_below plain_symbol
plain_table = refl

symbol_text-IsPlain : (n : ℕ) → IsPlain (symbol_text n)
unfolding symbol_text plain_symbol
symbol_text-IsPlain n =
    rw (bit_and_mask6 n) (holds_below_sound plain_symbol 64 (n % 64) plain_table (omega arith))

base64-IsPlain : (bs : List ℕ) → All IsPlain (base64 bs)
unfolding base64
base64-IsPlain [] = tt
base64-IsPlain (a ∷ []) = (symbol_text-IsPlain _, (symbol_text-IsPlain _, (refl, (refl, tt))))
base64-IsPlain (a ∷ b ∷ []) =
    (symbol_text-IsPlain _, (symbol_text-IsPlain _, (symbol_text-IsPlain _, (refl, tt))))
base64-IsPlain (a ∷ b ∷ c ∷ rest) = (
  symbol_text-IsPlain _,
  (symbol_text-IsPlain _, (symbol_text-IsPlain _, (symbol_text-IsPlain _, base64-IsPlain rest))),
)

abbrev pub epoch_word : ℤ → String
epoch_word epoch = String.◌++◌ "fend.epoch=" (show_int epoch)

abbrev pub cwd_word : String → String
cwd_word cwd = String.◌++◌ "fend.cwd=" (concat (base64 (as_bytes cwd)))

epoch_word-IsPlain : (epoch : ℤ) → IsPlain (epoch_word epoch)
epoch_word-IsPlain epoch = no_space-append "fend.epoch=" (show_int epoch) ∙ no_space-show_int epoch

cwd_word-IsPlain : (cwd : String) → IsPlain (cwd_word cwd)
cwd_word-IsPlain cwd =
    no_space-append "fend.cwd=" (concat (base64 (as_bytes cwd)))
    ∙ no_space-concat (base64 (as_bytes cwd)) (base64-IsPlain (as_bytes cwd))

infixr 65 ◌+++◌
abbrev ◌+++◌ : String → String → String
a +++ b = String.◌++◌ a b

regrouped :
    (s a b c d e f g k E B n : String)
    → ((a +++ s +++ b +++ s +++ c +++ s +++ d +++ s +++ e +++ s +++ f +++ s +++ g)
          +++ E
          +++ (s +++ k)
          +++ B)
        +++ n
      ≡ a
        +++ s
        +++ b
        +++ s
        +++ c
        +++ s
        +++ d
        +++ s
        +++ e
        +++ s
        +++ f
        +++ s
        +++ (g +++ E)
        +++ s
        +++ (k +++ B)
        +++ n
regrouped s a b c d e f g k E B n = simp append_assoc

-- As the kernel gives it in /proc/cmdline, with a line feed at the end.
pub split_whitespace-kernel_cmdline :
    (epoch : ℤ) (cwd : String)
    → split_whitespace (kernel_cmdline epoch cwd +++ "\n")
      ≡ "console=ttyS0"
        ∷ "root=/dev/vda"
        ∷ "rootwait"
        ∷ "rw"
        ∷ "init=/usr/local/bin/fendd"
        ∷ "quiet"
        ∷ epoch_word epoch
        ∷ cwd_word cwd
        ∷ []
unfolding kernel_cmdline concat split_whitespace word_ends
split_whitespace-kernel_cmdline epoch cwd =
    ap split_whitespace (
      regrouped " " "console=ttyS0" "root=/dev/vda" "rootwait" "rw" "init=/usr/local/bin/fendd"
        "quiet" "fend.epoch=" "fend.cwd=" (show_int epoch) (concat (base64 (as_bytes cwd))) "\n")
    ∙ rw
        (
          split_whitespace-word_space "console=ttyS0" _ refl refl,
          split_whitespace-word_space "root=/dev/vda" _ refl refl,
          split_whitespace-word_space "rootwait" _ refl refl,
          split_whitespace-word_space "rw" _ refl refl,
          split_whitespace-word_space "init=/usr/local/bin/fendd" _ refl refl,
          split_whitespace-word_space "quiet" _ refl refl,
        )
        (rw
          (
            split_whitespace-word_space (epoch_word epoch) (cwd_word cwd +++ "\n")
                (epoch_word-IsPlain epoch) (is_empty-append "fend.epoch=" (show_int epoch) refl),
            split_whitespace-word (cwd_word cwd) "\n" (cwd_word-IsPlain cwd)
                (is_empty-append "fend.cwd=" (concat (base64 (as_bytes cwd))) refl) refl,
          )
          refl)
