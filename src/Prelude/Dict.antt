-- ===== src/Prelude/Dict.antt =====
-- A map (`HashMap`, `BTreeMap`) as an association list, with one entry for each key.
use mathlib.Core.Path.{◌≡◌, refl, subst}
use mathlib.Core.Logic.{inl, inr}
use mathlib.Core.Option.{Option, none, some}
use mathlib.Core.List.{List, [], ◌∷◌}
use native.Mathlib.Omega.{arith}
use fend.Prelude.Tests.{Eq, Bool-cases, if◌then◌else◌}

module _ {ℓ κ} {K : Type ℓ} {V : Type κ} ⦃e : Eq K⦄ where
  unfoldable pub lookup : K → List (K × V) → Option V
  lookup k [] = none
  lookup k ((j, v) ∷ m) = if e.beq j k then some v else lookup k m

  unfoldable pub insert : K → V → List (K × V) → List (K × V)
  insert k v [] = (k, v) ∷ []
  insert k v ((j, w) ∷ m) = if e.beq j k then (k, v) ∷ m else (j, w) ∷ insert k v m

  unfoldable pub remove : K → List (K × V) → List (K × V)
  remove k [] = []
  remove k ((j, w) ∷ m) = let rest = remove k m in if e.beq j k then rest else (j, w) ∷ rest

  pub lookup-insert :
      (k j : K) (v : V) (m : List (K × V))
      → lookup j (insert k v m) ≡ (if e.beq k j then some v else lookup j m)
  unfolding lookup insert
  lookup-insert k j v [] = refl
  lookup-insert k j v ((i, w) ∷ m) =
      ground (arith, e.beq_iff k j, e.beq_iff i k, e.beq_iff i j, lookup-insert k j v m)

  pub lookup-remove :
      (k j : K) (m : List (K × V))
      → lookup j (remove k m) ≡ (if e.beq k j then none else lookup j m)
  unfolding lookup remove
  lookup-remove k j [] = ground arith
  lookup-remove k j ((i, w) ∷ m) =
      ground (arith, e.beq_iff k j, e.beq_iff i k, e.beq_iff i j, lookup-remove k j m)

  -- Each key has one entry.
  abbrev pub Distinct : List (K × V) → Type κ
  Distinct [] = Unit
  Distinct ((j, w) ∷ m) = (lookup j m ≡ none) × Distinct m

  pub insert-Distinct : (k : K) (v : V) (m : List (K × V)) → Distinct m → Distinct (insert k v m)
  unfolding lookup insert
  insert-Distinct k v [] d = (refl, tt)
  insert-Distinct k v ((j, w) ∷ m) (free, d) = elim (Bool-cases (e.beq j k)) [
    | inl hit ↦ rw hit (subst (λ x. lookup x m ≡ none) ((e.beq_iff j k).0 hit) free, d)
    | inr miss ↦ rw miss (
      ground (arith, lookup-insert k j v m, e.beq_iff k j, e.beq_iff j k),
      insert-Distinct k v m d,
    )
  ]

  pub remove-Distinct : (k : K) (m : List (K × V)) → Distinct m → Distinct (remove k m)
  unfolding remove
  remove-Distinct k [] d = tt
  remove-Distinct k ((j, w) ∷ m) (free, d) = elim (Bool-cases (e.beq j k)) [
    | inl hit ↦ rw hit (remove-Distinct k m d)
    | inr miss ↦ rw miss (ground (arith, lookup-remove k j m), remove-Distinct k m d)
  ]

  -- A predicate on every value.
  abbrev pub AllValues {μ} : (V → Type μ) → List (K × V) → Type μ
  AllValues P [] = Unit
  AllValues P ((j, w) ∷ m) = P w × AllValues P m

  pub insert-AllValues {μ} :
      (P : V → Type μ) (k : K) (v : V) (m : List (K × V))
      → P v
      → AllValues P m
      → AllValues P (insert k v m)
  unfolding insert
  insert-AllValues P k v [] p h = (p, tt)
  insert-AllValues P k v ((j, w) ∷ m) p h = elim (Bool-cases (e.beq j k)) [
    | inl hit ↦ rw hit (p, h.1)
    | inr miss ↦ rw miss (h.0, insert-AllValues P k v m p h.1)
  ]

  pub remove-AllValues {μ} :
      (P : V → Type μ) (k : K) (m : List (K × V)) → AllValues P m → AllValues P (remove k m)
  unfolding remove
  remove-AllValues P k [] h = tt
  remove-AllValues P k ((j, w) ∷ m) h = elim (Bool-cases (e.beq j k)) [
    | inl hit ↦ rw hit (remove-AllValues P k m h.1)
    | inr miss ↦ rw miss (h.0, remove-AllValues P k m h.1)
  ]

  pub AllValues-lookup {μ} :
      (P : V → Type μ) (k : K) (v : V) (m : List (K × V))
      → AllValues P m
      → lookup k m ≡ some v
      → P v
  unfolding lookup
  AllValues-lookup P k v [] h f = cc
  AllValues-lookup P k v ((j, w) ∷ m) h f = elim (Bool-cases (e.beq j k)) [
    | inl hit ↦ subst P (ground (arith, hit)) h.0
    | inr miss ↦ AllValues-lookup P k v m h.1 (ground (arith, miss))
  ]

  pub AllValues-mono {μ ν} :
      (P : V → Type μ) (Q : V → Type ν) (m : List (K × V))
      → ((v : V) → P v → Q v)
      → AllValues P m
      → AllValues Q m
  AllValues-mono P Q [] f h = tt
  AllValues-mono P Q ((j, w) ∷ m) f h = (f w h.0, AllValues-mono P Q m f h.1)
