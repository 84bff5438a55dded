-- ===== src/Guest/Init/Cmdline.antt =====
-- The guest reads from the kernel command line what the host wrote there.
use Prim.Native.String
use Prim.Native.String.append
use text.Mathlib.TextLemmas.{append_assoc}
use fend.Prelude.{ℕ, ◌≡◌, refl, ap, ◌∙◌, String, Option, none, some, List, [], ◌∷◌}
use fend.Prelude.Int.{ℤ}
use fend.Prelude.Text.{as_bytes, concat, show_int}
use fend.Prelude.Text.Bytes.{as_bytes_lt}
use fend.Prelude.Words.{strip_prefix}
use fend.Prelude.Words.Splitting.{strip_prefix-append, strip_prefix-ne}
use fend.Cli.Numbers.{parse_i64}
use fend.Cli.Numbers.Shown.{IsI64, parse_i64-show_int}
use fend.Protocol.Base64.{base64_decode}
use fend.Qemu.Plan.{base64, kernel_cmdline}
use fend.Qemu.Plan.Laws.{base64_decode-base64}
use fend.Qemu.Plan.Cmdline.{epoch_word, cwd_word, as_bytes-concat, split_whitespace-kernel_cmdline}
use fend.Guest.Init.{epochs, set_clock_from_cmdline, cwd_of, read_cwd_from_cmdline}

-- The parameters differ at the character behind the dot.
epoch-no_cwd : (epoch : ℤ) → strip_prefix "fend.cwd=" (epoch_word epoch) ≡ none
epoch-no_cwd epoch =
    ap (strip_prefix "fend.cwd=") (
      append_assoc "fend." "epoch=" (show_int epoch)
      ∙ ap (String.◌++◌ "fend.") (append.cons "e" "poch=" (show_int epoch)))
    ∙ strip_prefix-ne "fend." "wd=" (String.◌++◌ "poch=" (show_int epoch)) "c" "e" refl

cwd-no_epoch : (cwd : String) → strip_prefix "fend.epoch=" (cwd_word cwd) ≡ none
cwd-no_epoch cwd =
    ap (strip_prefix "fend.epoch=") (
      append_assoc "fend." "cwd=" (concat (base64 (as_bytes cwd)))
      ∙ ap (String.◌++◌ "fend.") (append.cons "c" "wd=" (concat (base64 (as_bytes cwd)))))
    ∙ strip_prefix-ne "fend." "poch=" (String.◌++◌ "wd=" (concat (base64 (as_bytes cwd)))) "e" "c"
        refl

decoded :
    (cwd : String) → base64_decode (as_bytes (concat (base64 (as_bytes cwd)))) ≡ some (as_bytes cwd)
decoded cwd =
    ap base64_decode (as_bytes-concat (base64 (as_bytes cwd)))
    ∙ base64_decode-base64 (as_bytes cwd) (as_bytes_lt cwd)

epochs_skip :
    (w : String) (ws : List String)
    → strip_prefix "fend.epoch=" w ≡ none
    → epochs (w ∷ ws) ≡ epochs ws
unfolding epochs
epochs_skip w ws h = rw (h, epochs) refl

epochs_take :
    (w : String) (ws : List String) (t : String) (n : ℤ)
    → strip_prefix "fend.epoch=" w ≡ some t
    → parse_i64 t ≡ some n
    → epochs (w ∷ ws) ≡ n ∷ epochs ws
unfolding epochs
epochs_take w ws t n h p = rw (h, epochs, p) refl

module _ (from_utf8 : List ℕ → Option String) where
  cwd_of_skip :
      (w : String) (ws : List String)
      → strip_prefix "fend.cwd=" w ≡ none
      → cwd_of from_utf8 (w ∷ ws) ≡ cwd_of from_utf8 ws
  unfolding cwd_of
  cwd_of_skip w ws h = rw (h, cwd_of) refl

  cwd_of_take :
      (w : String) (ws : List String) (t : String) (bytes : List ℕ)
      → strip_prefix "fend.cwd=" w ≡ some t
      → base64_decode (as_bytes t) ≡ some bytes
      → cwd_of from_utf8 (w ∷ ws) ≡ from_utf8 bytes
  unfolding cwd_of
  cwd_of_take w ws t bytes h d = rw (h, cwd_of, d) refl

-- The words that the guest does not look at.
module _ (words : List String) where
  abbrev quiet_words : List String
  quiet_words =
      "console=ttyS0" ∷ "root=/dev/vda" ∷ "rootwait" ∷ "rw" ∷ "init=/usr/local/bin/fendd" ∷ "quiet"
      ∷ words

  epochs-quiet_words : epochs quiet_words ≡ epochs words
  unfolding epochs strip_prefix
  epochs-quiet_words = refl

  cwd_of-quiet_words :
      (from_utf8 : List ℕ → Option String) → cwd_of from_utf8 quiet_words ≡ cwd_of from_utf8 words
  unfolding cwd_of strip_prefix
  cwd_of-quiet_words from_utf8 = refl

module _ (epoch : ℤ) (cwd : String) where
  abbrev own_words : List String
  own_words = epoch_word epoch ∷ cwd_word cwd ∷ []

  clock_lem : IsI64 epoch → epochs own_words ≡ epoch ∷ []
  unfolding epochs
  clock_lem h =
      epochs_take (epoch_word epoch) (cwd_word cwd ∷ []) (show_int epoch) epoch
        (strip_prefix-append "fend.epoch=" (show_int epoch)) (parse_i64-show_int epoch h)
      ∙ ap (λ t. epoch ∷ t) (epochs_skip (cwd_word cwd) [] (cwd-no_epoch cwd))

  cwd_lem :
      (from_utf8 : List ℕ → Option String)
      → from_utf8 (as_bytes cwd) ≡ some cwd
      → cwd_of from_utf8 own_words ≡ some cwd
  cwd_lem from_utf8 h =
      cwd_of_skip from_utf8 (epoch_word epoch) (cwd_word cwd ∷ []) (epoch-no_cwd epoch)
      ∙ cwd_of_take from_utf8 (cwd_word cwd) [] (concat (base64 (as_bytes cwd))) (as_bytes cwd)
          (strip_prefix-append "fend.cwd=" (concat (base64 (as_bytes cwd)))) (decoded cwd)
      ∙ h

-- The host's kernel command line, as the kernel passes it on with a line feed behind it, sets the
-- guest's clock once, to the epoch that the host wrote, if that is a number of 64 bits, and gives the
-- guest the workspace that the host wrote, whatever characters are in it. UTF-8 decoding is to give
-- the workspace back from its bytes.
pub kernel_cmdline_read :
    (epoch : ℤ) (cwd : String) (from_utf8 : List ℕ → Option String)
    → IsI64 epoch
    → from_utf8 (as_bytes cwd) ≡ some cwd
    → (set_clock_from_cmdline (String.◌++◌ (kernel_cmdline epoch cwd) "\n") ≡ epoch ∷ [])
      × (read_cwd_from_cmdline from_utf8 (String.◌++◌ (kernel_cmdline epoch cwd) "\n") ≡ some cwd)
unfolding set_clock_from_cmdline read_cwd_from_cmdline
kernel_cmdline_read epoch cwd from_utf8 i h = (
  ap epochs (split_whitespace-kernel_cmdline epoch cwd)
      ∙ epochs-quiet_words (own_words epoch cwd)
      ∙ clock_lem epoch cwd i,
  ap (cwd_of from_utf8) (split_whitespace-kernel_cmdline epoch cwd)
      ∙ cwd_of-quiet_words (own_words epoch cwd) from_utf8
      ∙ cwd_lem epoch cwd from_utf8 h,
)
