-- ===== src/Prelude/Words/Splitting.antt =====
-- Texts without white space are the words that `split_whitespace` finds.
use Prim.Native.Char.{Char, code}
use Prim.Native.String
use Prim.Native.String.{String}
use Prim.Native.String.append
use mathlib.Core.Path.{◌≡◌, refl, ap, ap₂, ◌∙◌}
use mathlib.Core.Bool.{Bool, true, false, not, ◌&&◌}
use mathlib.Core.List.{◌∷◌}
use native.Mathlib.Omega.{arith}
use fend.Prelude.Text.{is_empty}
use fend.Prelude.Words.{is_whitespace, word_ends, split_whitespace, push, strip_prefix}
use fend.Prelude.Tests.{◌==◌, ==_iff}
use mathlib.Core.Option.{none, some}

abbrev pub no_space : String → Bool
no_space String.[] = true
no_space (String.◌∷◌ c s) = not (is_whitespace (code c)) && no_space s

pub no_space-append : (a b : String) → no_space (String.◌++◌ a b) ≡ (no_space a && no_space b)
no_space-append String.[] b = ap no_space (append.nil b)
no_space-append (String.◌∷◌ x a) b =
    ap no_space (append.cons x a b) ∙ ground (arith, no_space-append a b)

pub is_empty-append : (a b : String) → is_empty a ≡ false → is_empty (String.◌++◌ a b) ≡ false
is_empty-append String.[] b h = cc
is_empty-append (String.◌∷◌ x a) b h = ap is_empty (append.cons x a b)

no_space_split : (a b : Bool) → (not a && b) ≡ true → (a ≡ false) × (b ≡ true)
no_space_split true b h = cc
no_space_split false b h = (refl, h)

begins :
    (c : Char) (r : String)
    → is_whitespace (code c) ≡ false
    → word_ends r ≡ true
    → split_whitespace (String.◌∷◌ c r) ≡ String.◌∷◌ c "" ∷ split_whitespace r
unfolding split_whitespace
begins c r h ends = rw (h, ends) refl

carries_on :
    (c : Char) (r : String)
    → is_whitespace (code c) ≡ false
    → word_ends r ≡ false
    → split_whitespace (String.◌∷◌ c r) ≡ push c (split_whitespace r)
unfolding split_whitespace
carries_on c r h ends = rw (h, ends) refl

-- A word that something follows that is no part of it.
pub split_whitespace-word :
    (w r : String)
    → no_space w ≡ true
    → is_empty w ≡ false
    → word_ends r ≡ true
    → split_whitespace (String.◌++◌ w r) ≡ w ∷ split_whitespace r
unfolding word_ends
split_whitespace-word String.[] r h nonempty ends = cc
split_whitespace-word (String.◌∷◌ c String.[]) r h nonempty ends =
    ap split_whitespace (append.cons c "" r ∙ ap (String.◌∷◌ c) (append.nil r))
    ∙ begins c r (no_space_split (is_whitespace (code c)) true h).0 ends
split_whitespace-word (String.◌∷◌ c (String.◌∷◌ d w)) r h nonempty ends =
    let (hc, rest) = no_space_split (is_whitespace (code c)) (no_space (String.◌∷◌ d w)) h in
    let (hd, _) = no_space_split (is_whitespace (code d)) (no_space w) rest in
    ap split_whitespace (append.cons c (String.◌∷◌ d w) r)
    ∙ carries_on c (String.◌++◌ (String.◌∷◌ d w) r) hc (ap word_ends (append.cons d w r) ∙ hd)
    ∙ ap (push c) (split_whitespace-word (String.◌∷◌ d w) r rest refl ends)

pub split_whitespace-space :
    (r : String) → split_whitespace (String.◌++◌ " " r) ≡ split_whitespace r
unfolding split_whitespace
split_whitespace-space r =
    ap split_whitespace (append.cons " " "" r ∙ ap (String.◌∷◌ " ") (append.nil r))

-- A word and the space behind it.
pub split_whitespace-word_space :
    (w r : String)
    → no_space w ≡ true
    → is_empty w ≡ false
    → split_whitespace (String.◌++◌ w (String.◌++◌ " " r)) ≡ w ∷ split_whitespace r
unfolding word_ends
split_whitespace-word_space w r h nonempty =
    split_whitespace-word w (String.◌++◌ " " r) h nonempty (ap word_ends (append.cons " " "" r))
    ∙ ap (λ t. w ∷ t) (split_whitespace-space r)

pub strip_prefix-append : (p s : String) → strip_prefix p (String.◌++◌ p s) ≡ some s
unfolding strip_prefix
strip_prefix-append String.[] s = ap (strip_prefix "") (append.nil s)
strip_prefix-append (String.◌∷◌ c p) s =
    ap (strip_prefix (String.◌∷◌ c p)) (append.cons c p s)
    ∙ rw ((==_iff (code c) (code c)).1 refl) (strip_prefix-append p s)

-- A text that differs from the prefix at one place.
pub strip_prefix-ne :
    (a p s : String) (c d : Char)
    → (code c == code d) ≡ false
    → strip_prefix (String.◌++◌ a (String.◌∷◌ c p)) (String.◌++◌ a (String.◌∷◌ d s)) ≡ none
unfolding strip_prefix
strip_prefix-ne String.[] p s c d h =
    ap₂ strip_prefix (append.nil (String.◌∷◌ c p)) (append.nil (String.◌∷◌ d s)) ∙ rw h refl
strip_prefix-ne (String.◌∷◌ x a) p s c d h =
    ap₂ strip_prefix (append.cons x a (String.◌∷◌ c p)) (append.cons x a (String.◌∷◌ d s))
    ∙ rw ((==_iff (code x) (code x)).1 refl) (strip_prefix-ne a p s c d h)
