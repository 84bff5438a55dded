-- ===== src/Cli/Render/Shell.antt =====
-- A shell reads a printed command as the command.
use Prim.Native.Char.{code}
use Prim.Native.String
use Prim.Native.String.append
use mathlib.Core.List.{append-nil, append_assoc}
use fend.Prelude.{
  ℕ, ◌<◌, ◌≡◌, refl, sym, ap, ◌∙◌, String, Bool, true, false, ◌&&◌, ◌||◌, Option, none, some, List,
  [], ◌∷◌, ◌++◌, map, ◌==◌, if◌then◌else◌, Bool-cases, inl, inr, holds_below, holds_below_sound,
  ==_iff, arith,
}
use fend.Prelude.Text.{codes, join_with}
use fend.Cli.Render.{is_plain, all_plain, replace_quotes, shell_quote, shell_command}

-- How a POSIX shell reads a character outside quotes.
pub data Kind : Type 0 where
  blank quote backslash special literal : Kind

-- The characters that mean something to the shell, at the beginning of a word or within one.
is_special : ℕ → Bool
is_special c =
    c == b'|'
    || (c == b'&'
        || (c == b';'
            || (c == b'<'
                || (c == b'>'
                    || (c == b'('
                        || (c == b')'
                            || (c == b'$'
                                || (c == 96
                                    || (c == 34
                                        || (c == b'*'
                                            || (c == b'?'
                                                || (c == b'['
                                                    || (c == b'#'
                                                        || (c == b'~'
                                                            || (c == b'!'
                                                            || (c == b'{'
                                                            || (c == b'}'
                                                            || c == 10)))))))))))))))))

kind_of : ℕ → Kind
unfolding is_special
kind_of c =
    if c == 32 || c == 9
    then blank
    else if c == 39
    then quote
    else if c == 92
    then backslash
    else if is_special c
    then special
    else literal

-- The word that has been begun, if there is one.
pub data State : Type 0 where
  between : State
  plain quoted escaped : List ℕ → State

-- A command without expansions as a shell splits it into words, a special character being none.
read_words : State → List ℕ → Option (List (List ℕ))
unfolding kind_of
read_words between [] = some []
read_words (plain w) [] = some (w ∷ [])
read_words (quoted w) [] = none
read_words (escaped w) [] = none
read_words between (c ∷ s) = elim (kind_of c) [
  | blank ↦ read_words between s
  | quote ↦ read_words (quoted []) s
  | backslash ↦ read_words (escaped []) s
  | special ↦ none
  | literal ↦ read_words (plain (c ∷ [])) s
]
read_words (plain w) (c ∷ s) = elim (kind_of c) [
  | blank ↦ elim (read_words between s) [ some ws ↦ some (w ∷ ws) | none ↦ none ]
  | quote ↦ read_words (quoted w) s
  | backslash ↦ read_words (escaped w) s
  | special ↦ none
  | literal ↦ read_words (plain (w ++ c ∷ [])) s
]
read_words (quoted w) (c ∷ s) = elim (c == 39) [
  | true ↦ read_words (plain w) s
  | false ↦ read_words (quoted (w ++ c ∷ [])) s
]
read_words (escaped w) (c ∷ s) = read_words (plain (w ++ c ∷ [])) s

-- A command as a shell reads it, from its beginning.
unfoldable pub shell_words : String → Option (List (List ℕ))
unfolding read_words
shell_words text = read_words between (codes text)

codes-append : (a b : String) → codes (String.◌++◌ a b) ≡ codes a ++ codes b
codes-append String.[] b = ap codes (append.nil b)
codes-append (String.◌∷◌ c a) b =
    ap codes (append.cons c a b) ∙ ap (λ t. code c ∷ t) (codes-append a b)

is_literal : Kind → Bool
is_literal literal = true
is_literal _ = false

literal_if_plain : ℕ → Bool
unfolding is_literal kind_of is_plain
literal_if_plain c = if is_plain c then is_literal (kind_of c) else true

literal_table : holds_below 128 literal_if_plain ≡ true
unfolding holds_below literal_if_plain
literal_table = refl

plain_lt : (c : ℕ) → is_plain c ≡ true → c < 128
unfolding is_plain
plain_lt c h = ground arith

literal_of : (k : Kind) → is_literal k ≡ true → k ≡ literal
unfolding is_literal
literal_of literal h = refl
literal_of blank h = cc
literal_of quote h = cc
literal_of backslash h = cc
literal_of special h = cc

kind_of-plain : (c : ℕ) → is_plain c ≡ true → kind_of c ≡ literal
unfolding literal_if_plain
kind_of-plain c h =
    literal_of (kind_of c)
      (rw h at (holds_below_sound literal_if_plain 128 c literal_table (plain_lt c h)))

&&_left : (a b : Bool) → (a && b) ≡ true → a ≡ true
&&_left true b h = refl
&&_left false b h = cc

&&_right : (a b : Bool) → (a && b) ≡ true → b ≡ true
&&_right true b h = h
&&_right false b h = cc

read_words_literal :
    (w s : List ℕ) (c : ℕ)
    → kind_of c ≡ literal
    → read_words (plain w) (c ∷ s) ≡ read_words (plain (w ++ c ∷ [])) s
unfolding read_words
read_words_literal w s c e = rw (e, read_words) refl

read_words_begin :
    (s : List ℕ) (c : ℕ)
    → kind_of c ≡ literal
    → read_words between (c ∷ s) ≡ read_words (plain (c ∷ [])) s
unfolding read_words
read_words_begin s c e = rw (e, read_words) refl

read_words-plain :
    (v : String) (w rest : List ℕ)
    → all_plain v ≡ true
    → read_words (plain w) (codes v ++ rest) ≡ read_words (plain (w ++ codes v)) rest
unfolding read_words all_plain
read_words-plain String.[] w rest h = ap (λ x. read_words (plain x) rest) (sym (append-nil w))
read_words-plain (String.◌∷◌ c s) w rest h =
    read_words_literal w (codes s ++ rest) (code c)
      (kind_of-plain (code c) (&&_left (is_plain (code c)) (all_plain s) h))
    ∙ (read_words-plain s (w ++ code c ∷ []) rest (&&_right (is_plain (code c)) (all_plain s) h)
        ∙ ap (λ x. read_words (plain x) rest) (append_assoc w (code c ∷ []) (codes s)))

-- Reading the inside of a quoted text, and the quote at its end.
read_words-quoted :
    (v : String) (w rest : List ℕ)
    → read_words (quoted w) (codes (replace_quotes v) ++ 39 ∷ rest)
      ≡ read_words (plain (w ++ codes v)) rest
unfolding read_words replace_quotes kind_of
read_words-quoted String.[] w rest = ap (λ x. read_words (plain x) rest) (sym (append-nil w))
read_words-quoted (String.◌∷◌ c s) w rest = elim (Bool-cases (code c == 39)) [
  | inl e ↦
      rw (e, codes-append "'\\''" (replace_quotes s), (==_iff (code c) 39).0 e)
        (read_words-quoted s (w ++ 39 ∷ []) rest
          ∙ ap (λ x. read_words (plain x) rest) (append_assoc w (39 ∷ []) (codes s)))
  | inr e ↦
      rw (e, read_words, e)
        (read_words-quoted s (w ++ code c ∷ []) rest
          ∙ ap (λ x. read_words (plain x) rest) (append_assoc w (code c ∷ []) (codes s)))
]

read_words-shell_quote :
    (v : String) (rest : List ℕ)
    → read_words between (codes (shell_quote v) ++ rest) ≡ read_words (plain (codes v)) rest
unfolding shell_quote read_words kind_of
read_words-shell_quote String.[] rest = refl
read_words-shell_quote (String.◌∷◌ c s) rest = elim (Bool-cases (all_plain (String.◌∷◌ c s))) [
  | inl e ↦ rw e (
      read_words_begin (codes s ++ rest) (code c)
        (kind_of-plain (code c) (&&_left (is_plain (code c)) (all_plain s) (unfold all_plain in e)))
      ∙ read_words-plain s (code c ∷ []) rest
          (&&_right (is_plain (code c)) (all_plain s) (unfold all_plain in e)))
  | inr e ↦
      rw
        (
          e,
          codes-append "'" (String.◌++◌ (replace_quotes (String.◌∷◌ c s)) "'"),
          codes-append (replace_quotes (String.◌∷◌ c s)) "'",
          append_assoc (codes (replace_quotes (String.◌∷◌ c s))) (39 ∷ []) rest,
        )
        (read_words-quoted (String.◌∷◌ c s) [] rest)
]

read_words_blank :
    (w s : List ℕ) (ws : List (List ℕ))
    → read_words between s ≡ some ws
    → read_words (plain w) (32 ∷ s) ≡ some (w ∷ ws)
unfolding read_words kind_of
read_words_blank w s ws e =
    ap
      (λ (r : Option (List (List ℕ))). elim r as (λ _. Option (List (List ℕ))) [
        | some later ↦ some (w ∷ later)
        | none ↦ none
      ])
      e

read_words-words :
    (v : String) (vs : List String)
    → read_words between (codes (join_with " " (shell_quote v ∷ map shell_quote vs)))
      ≡ some (codes v ∷ map codes vs)
unfolding join_with read_words kind_of
read_words-words v [] =
    ap (read_words between) (sym (append-nil (codes (shell_quote v)))) ∙ read_words-shell_quote v []
read_words-words v (u ∷ us) =
    let later = join_with " " (shell_quote u ∷ map shell_quote us) in
    ap (read_words between) (
      codes-append (shell_quote v) (String.◌++◌ " " later)
      ∙ ap (λ t. codes (shell_quote v) ++ t) (codes-append " " later))
    ∙ read_words-shell_quote v (32 ∷ codes later)
    ∙ read_words_blank (codes v) (codes later) (map codes (u ∷ us)) (read_words-words u us)

-- A program and its arguments, whatever characters they hold, are what a shell reads from the
-- command that is printed for them: each becomes one word, with all its characters.
pub shell_words-shell_command :
    (program : String) (args : List String)
    → shell_words (shell_command program args) ≡ some (map codes (program ∷ args))
unfolding shell_words shell_command
shell_words-shell_command program args = read_words-words program args
