-- ===== src/Runtime/Machine.antt =====
-- What linux/src/runtime.rs asks of the host: files, directories and the commands it runs. Each
-- answer may depend on the commands that have been run.
use fend.Prelude.{
  ◌≡◌, refl, String, Bool, true, false, Option, List, [], ◌∷◌, Result, ok, err, if◌then◌else◌,
}
use fend.Prelude.Text.{is_empty, concat}
use fend.Prelude.Words.{trim}

pub record Ran : Type 0 where
  pub program : String
  pub args : List String

pub data Outcome : Type 0 where
  not_found : Outcome
  failed_to_start : String → Outcome
  exited : Bool → String → String → String → Outcome

-- An entry of a release index as `serde_json` gives it: what is no text or truth value is left out.
pub data Lts : Type 0 where
  named : String → Lts
  flag : Bool → Lts
  other : Lts

pub record NodeEntry : Type 0 where
  pub version : Option String
  pub lts : Lts

pub record BunEntry : Type 0 where
  pub draft : Option Bool
  pub prerelease : Option Bool
  pub tag_name : Option String

-- `engines` is the text at `engines.node` of a package.json; `temp_dir` is the path of
-- `create_temp_dir`, `debug` the format `{:?}`; `home` is `$HOME`.
pub record Machine : Type 0 where
  pub read_text : String → Option String
  pub entries : List Ran → String → List String
  pub engines : String → Option String
  pub home : Option String
  pub exists : List Ran → String → Bool
  pub run : List Ran → String → List String → Outcome
  pub node_index : String → Result String (List NodeEntry)
  pub bun_index : String → Result String (List BunEntry)
  pub create_dir : List Ran → String → Result String (Unit {0})
  pub symlink : List Ran → String → String → Result String (Unit {0})
  pub rename : List Ran → String → String → Result String (Unit {0})
  pub temp_dir : String → String → String
  pub debug : String → String

-- A computation reads the machine, and adds the commands that it runs, the newest first.
abbrev pub M : Type 0 → Type 0
M A = List Ran → Result String A × List Ran

infixl 5 ◌>>=◌ ◌>>◌
abbrev pub ◌>>=◌ : {A B : Type 0} → M A → (A → M B) → M B
◌>>=◌ m f log = let (r, log') = m log in elim r [ ok a ↦ f a log' | err e ↦ (err e, log') ]

abbrev pub ◌>>◌ : {B : Type 0} → M (Unit {0}) → M B → M B
m >> k = m >>= λ _. k

-- A computation that succeeds did so in both parts.
pub >>=-eq-ok :
    {A B : Type 0} (x : M A) (f : A → M B) (log log' : List Ran) {b : B}
    → (x >>= f) log ≡ (ok b, log')
    → (a : A) × (l : List Ran) × (x log ≡ (ok a, l)) × (f a l ≡ (ok b, log'))
>>=-eq-ok {A} {B} x f log log' {b} = from (x log) refl
  where
    from :
        (s : Result String A × List Ran)
        → x log ≡ s
        → (let (r, l) = s in
            elim r as (λ r'. Result String B × List Ran) [ ok a ↦ f a l | err e ↦ (err e, l) ])
          ≡ (ok b, log')
        → (a : A) × (l : List Ran) × (x log ≡ (ok a, l)) × (f a l ≡ (ok b, log'))
    from (ok a, l) e h = (a, l, e, h)
    from (err e', l) e h = cc

abbrev pub pure : {A : Type 0} → A → M A
pure a log = (ok a, log)

abbrev pub fail : {A : Type 0} → String → M A
fail e log = (err e, log)

abbrev pub reads : {A : Type 0} → (List Ran → A) → M A
reads f log = (ok (f log), log)

abbrev pub tries : {A : Type 0} → (List Ran → Result String A) → M A
tries f log = (f log, log)

abbrev pub lift : {A : Type 0} → Result String A → M A
lift r log = (r, log)

module _ (m : Machine) where
  unfoldable pub output : String → List String → M Outcome
  output program args log =
      (ok (m.run log program args), record { program = program; args = args } ∷ log)

  quoted : String → String → String
  quoted program message = concat ("\"" ∷ program ∷ "\"" ∷ message ∷ [])

  command_result : String → Outcome → Result String String
  unfolding quoted concat trim
  command_result program not_found =
      err (concat ("required host tool " ∷ quoted program " was not found in PATH" ∷ []))
  command_result program (failed_to_start error) =
      err (concat ("failed to start " ∷ quoted program ": " ∷ error ∷ []))
  command_result program (exited true status stdout stderr) = ok stdout
  command_result program (exited false status stdout stderr) =
      if is_empty (trim stderr)
      then err (quoted program (concat (" exited with status " ∷ status ∷ [])))
      else err (quoted program (concat (" failed: " ∷ trim stderr ∷ [])))

  unfoldable pub run_host_command : String → List String → M String
  unfolding output command_result
  run_host_command program args = do
    outcome ← output program args
    lift (command_result program outcome)
