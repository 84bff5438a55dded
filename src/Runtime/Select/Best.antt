-- ===== src/Runtime/Select/Best.antt =====
-- What `max_by`, the filters before it and the order of versions give.
use fend.Prelude.{
  ◌≡◌, inl, inr, sym, subst, Bool, true, false, String, some, List, [], ◌∷◌, All, keep_if,
  Bool-cases, Option-cases, arith,
}
use fend.Runtime.Semver.{SemVer, semver_lt, semver_le, parse_semver, version_satisfies}
use fend.Runtime.Select.{best, matching, by_version}

pub semver_le_refl : (a : SemVer) → semver_le a a ≡ true
unfolding semver_le semver_lt
semver_le_refl a = ground arith

pub semver_le_trans :
    (a b c : SemVer) → semver_le a b ≡ true → semver_le b c ≡ true → semver_le a c ≡ true
unfolding semver_le semver_lt
semver_le_trans a b c p q = ground arith

pub semver_le_total : (a b : SemVer) → semver_le a b ≡ false → semver_le b a ≡ true
unfolding semver_le semver_lt
semver_le_total a b p = ground arith

module _ {A : Type 0} where
  abbrev pub Below : SemVer → A × SemVer → Type 0
  Below n x = semver_le x.1 n ≡ true

  -- The chosen element is one of the list, and every other is at most it.
  pub best_All :
      (Q : A × SemVer → Type 0) (x : A × SemVer) (xs : List (A × SemVer))
      → Q x
      → All Q xs
      → Q (best by_version x xs)
  unfolding best
  best_All Q x [] q qs = q
  best_All Q x (y ∷ ys) q qs = elim (Bool-cases (semver_le x.1 y.1)) [
    | inl up ↦ rw up (best_All Q y ys qs.0 qs.1)
    | inr down ↦ rw down (best_All Q x ys q qs.1)
  ]

  best_grows :
      (n : SemVer) (x : A × SemVer) (xs : List (A × SemVer))
      → semver_le n x.1 ≡ true
      → semver_le n (best by_version x xs).1 ≡ true
  unfolding best
  best_grows n x [] h = h
  best_grows n x (y ∷ ys) h = elim (Bool-cases (semver_le x.1 y.1)) [
    | inl up ↦ rw (up, best) (best_grows n y ys (semver_le_trans n x.1 y.1 h up))
    | inr down ↦ rw (down, best) (best_grows n x ys h)
  ]

  best_up :
      (x y : A × SemVer) (ys : List (A × SemVer))
      → semver_le x.1 y.1 ≡ true
      → best by_version x (y ∷ ys) ≡ best by_version y ys
  unfolding best
  best_up x y ys up = rw (up, best)

  best_down :
      (x y : A × SemVer) (ys : List (A × SemVer))
      → semver_le x.1 y.1 ≡ false
      → best by_version x (y ∷ ys) ≡ best by_version x ys
  unfolding best
  best_down x y ys down = rw (down, best)

  pub best_greatest :
      (x : A × SemVer) (xs : List (A × SemVer)) → All (Below (best by_version x xs).1) (x ∷ xs)
  unfolding best
  best_greatest x [] = (semver_le_refl x.1, tt)
  best_greatest x (y ∷ ys) = elim (Bool-cases (semver_le x.1 y.1)) [
    | inl up ↦
        subst (λ b. All (Below b.1) (x ∷ y ∷ ys)) (sym (best_up x y ys up))
          (best_grows x.1 y ys up, best_greatest y ys)
    | inr down ↦
        let rest = best_greatest x ys in
        subst (λ b. All (Below b.1) (x ∷ y ∷ ys)) (sym (best_down x y ys down))
          (rest.0, (best_grows y.1 x ys (semver_le_total x.1 y.1 down), rest.1))
  ]

-- A property of the elements that pass a test, and of all elements.
module _ {A : Type 0} (p : A → Bool) where
  pub All-keep_if :
      (Q : A → Type 0) (xs : List A) → All Q xs → All (λ x. (p x ≡ true) × Q x) (keep_if p xs)
  All-keep_if Q [] h = tt
  All-keep_if Q (x ∷ xs) h = elim (Bool-cases (p x)) [
    | inl hit ↦ rw hit ((hit, h.0), All-keep_if Q xs h.1)
    | inr miss ↦ rw miss (All-keep_if Q xs h.1)
  ]

  pub All-of-keep_if :
      (Q : A → Type 0) (xs : List A) → All Q (keep_if p xs) → All (λ x. p x ≡ true → Q x) xs
  All-of-keep_if Q [] h = tt
  All-of-keep_if Q (x ∷ xs) h = elim (Bool-cases (p x)) [
    | inl hit ↦
        let both : Q x × All Q (keep_if p xs) = rw hit at h in
        (λ _. both.0, All-of-keep_if Q xs both.1)
    | inr miss ↦ (λ e. cc, All-of-keep_if Q xs (rw miss at h))
  ]

-- The releases that a requirement accepts.
module _ {A : Type 0} (version : A → String) (requirement : String) where
  abbrev pub Accepts : A → SemVer → Type 0
  Accepts release v =
      (parse_semver (version release) ≡ some v) × (version_satisfies v requirement ≡ true)

  pub matching-All :
      (Q : A × SemVer → Type 0) (releases : List A)
      → All (λ r. (v : SemVer) → Accepts r v → Q (r, v)) releases
      → All Q (matching version requirement releases)
  unfolding matching
  matching-All Q [] h = tt
  matching-All Q (r ∷ rs) h = elim (Option-cases (parse_semver (version r))) [
    | inl bad ↦ rw bad (matching-All Q rs h.1)
    | inr (v, good) ↦ elim (Bool-cases (version_satisfies v requirement)) [
      | inl sat ↦ rw (good, sat) (h.0 v (good, sat), matching-All Q rs h.1)
      | inr unsat ↦ rw (good, unsat) (matching-All Q rs h.1)
    ]
  ]

  pub All-matching :
      (Q : A × SemVer → Type 0) (releases : List A)
      → All Q (matching version requirement releases)
      → All (λ r. (v : SemVer) → Accepts r v → Q (r, v)) releases
  unfolding matching
  All-matching Q [] h = tt
  All-matching Q (r ∷ rs) h = elim (Option-cases (parse_semver (version r))) [
    | inl bad ↦ (λ v a. cc, All-matching Q rs (rw bad at h))
    | inr (v, good) ↦ elim (Bool-cases (version_satisfies v requirement)) [
      | inl sat ↦
          let both : Q (r, v) × All Q (matching version requirement rs) = rw (good, sat) at h in
          (λ w a. subst (λ u. Q (r, u)) (cc) both.0, All-matching Q rs both.1)
      | inr unsat ↦ (λ w a. cc, All-matching Q rs (rw (good, unsat) at h))
    ]
  ]
