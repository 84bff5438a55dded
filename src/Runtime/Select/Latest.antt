-- ===== src/Runtime/Select/Latest.antt =====
-- The release that a requirement selects is the greatest that satisfies it.
use fend.Prelude.{
  ◌≡◌, ◌⊎◌, inl, inr, refl, sym, subst, Bool, true, false, String, Option, none, some, List, [],
  ◌∷◌, All, All-map, keep_if, Bool-cases,
}
use mathlib.Core.List.{Mem, mem-cons_self, mem-cons_of_mem}
use fend.Runtime.Semver.{SemVer, semver_le}
use fend.Runtime.Select.{
  NodeRelease, best, max_by, matching, by_version, prefer, chosen, select_latest_node_version,
}
use fend.Runtime.Select.Best.{
  best_All, best_greatest, Below, All-keep_if, All-of-keep_if, Accepts, matching-All, All-matching,
}

-- Every element is a member, with what it is accepted with.
abbrev Source : {A : Type 0} → (A → String) → String → List A → A × SemVer → Type 0
Source version requirement releases m = Mem m.0 releases × Accepts version requirement m.0 m.1

module _ {A : Type 0} (version : A → String) (requirement : String) where
  own_members : (releases : List A) → All (λ r. Mem r releases) releases
  own_members [] = tt
  own_members (r ∷ rs) =
      (mem-cons_self, All-map (λ x. Mem x rs) _ rs (λ x m. mem-cons_of_mem _ m) (own_members rs))

  sources :
      (releases : List A)
      → All (Source version requirement releases) (matching version requirement releases)
  sources releases =
      matching-All version requirement _ releases
        (All-map _ _ releases (λ r m v a. (m, a)) (own_members releases))

-- What the best of the accepted releases is, if there is any.
abbrev Greatest : {A : Type 0} → (A → String) → String → List A → Option (A × SemVer) → Type 0
Greatest version requirement releases none =
    All (λ r. (v : SemVer) → Accepts version requirement r v → ⊥) releases
Greatest version requirement releases (some m) =
    Source version requirement releases m
    × All (λ r. (v : SemVer) → Accepts version requirement r v → semver_le v m.1 ≡ true) releases

module _ {A : Type 0} (version : A → String) (requirement : String) (releases : List A) where
  greatest :
      (matches : List (A × SemVer))
      → matching version requirement releases ≡ matches
      → Greatest version requirement releases (max_by by_version matches)
  greatest [] e =
      All-matching version requirement (λ _. ⊥) releases (subst (All (λ _. ⊥)) (sym e) tt)
  greatest (m ∷ ms) e =
      let ss : All (Source version requirement releases) (m ∷ ms) =
        subst (All (Source version requirement releases)) e
          (sources version requirement releases) in
      (
        best_All (Source version requirement releases) m ms ss.0 ss.1,
        All-matching version requirement (Below (best by_version m ms).1) releases
            (subst (All (Below (best by_version m ms).1)) (sym e) (best_greatest m ms)),
      )

-- A release that is as new, or that is passed over since only the chosen one has long-term
-- support.
abbrev Surpassed : Bool → NodeRelease → SemVer → NodeRelease → SemVer → Type 0
Surpassed prefer_lts c n r v =
    ((semver_le v n ≡ true) × (prefer_lts ≡ true → r.is_lts ≡ true → c.is_lts ≡ true))
    ⊎ ((prefer_lts ≡ true) × (c.is_lts ≡ true) × (r.is_lts ≡ false))

abbrev node_version : NodeRelease → String
node_version r = r.version

-- What `select_latest_node_version` promises of its result.
abbrev pub Selected : String → List NodeRelease → Bool → Option String → Type 0
Selected requirement releases prefer_lts none =
    All (λ r. (v : SemVer) → Accepts node_version requirement r v → ⊥) releases
Selected requirement releases prefer_lts (some text) =
    (c : NodeRelease) × (n : SemVer) × (c.version ≡ text)
    × Mem c releases
    × Accepts node_version requirement c n
    × All (λ r. (v : SemVer) → Accepts node_version requirement r v → Surpassed prefer_lts c n r v)
        releases

module _ (requirement : String) (releases : List NodeRelease) where
  abbrev Found : NodeRelease × SemVer → Type 0
  Found = Source node_version requirement releases

  plainly :
      (best : Option (NodeRelease × SemVer))
      → Greatest node_version requirement releases best
      → Selected requirement releases false (chosen node_version best)
  plainly none h = h
  plainly (some (c, n)) (s, most) =
      (c, n, refl, s.0, s.1, All-map _ _ releases (λ r f v a. inl (f v a, λ e _. cc)) most)

  surpassed :
      (c : NodeRelease) (n : SemVer)
      → c.is_lts ≡ true
      → (r : NodeRelease) (v : SemVer) → (r.is_lts ≡ true → semver_le v n ≡ true)
      → Surpassed true c n r v
  surpassed c n lts r v f = elim (Bool-cases r.is_lts) [
    | inl long ↦ inl (f long, λ _ _. lts)
    | inr short ↦ inr (refl, lts, short)
  ]

  abbrev has_lts : NodeRelease × SemVer → Bool
  has_lts m = m.0.is_lts

  -- Some accepted release has long-term support.
  preferred :
      (ms : List (NodeRelease × SemVer)) (p : NodeRelease × SemVer)
      (ps : List (NodeRelease × SemVer))
      → matching node_version requirement releases ≡ ms
      → keep_if has_lts ms ≡ p ∷ ps
      → Selected requirement releases true (some (best by_version p ps).0.version)
  preferred ms p ps e k =
      let ss : All Found ms = subst (All Found) e (sources node_version requirement releases) in
      let kept : All (λ m. (has_lts m ≡ true) × Found m) (p ∷ ps) =
        subst (All (λ m. (has_lts m ≡ true) × Found m)) k (All-keep_if has_lts Found ms ss) in
      let b : NodeRelease × SemVer = best by_version p ps in
      let won : (has_lts b ≡ true) × Found b =
        best_All (λ m. (has_lts m ≡ true) × Found m) p ps kept.0 kept.1 in
      let most : All (λ m. has_lts m ≡ true → Below b.1 m) ms =
        All-of-keep_if has_lts (Below b.1) ms
          (subst (All (Below b.1)) (sym k) (best_greatest p ps)) in
      (
        b.0,
        b.1,
        refl,
        won.1.0,
        won.1.1,
        All-map _ _ releases (λ r f v a. surpassed b.0 b.1 won.0 r v (f v a))
            (All-matching node_version requirement (λ m. has_lts m ≡ true → Below b.1 m) releases
              (subst (All (λ m. has_lts m ≡ true → Below b.1 m)) (sym e) most)),
      )

  -- No accepted release has it.
  unpreferred :
      (ms : List (NodeRelease × SemVer))
      → matching node_version requirement releases ≡ ms
      → keep_if has_lts ms ≡ []
      → (best : Option (NodeRelease × SemVer)) → Greatest node_version requirement releases best
      → Selected requirement releases true (chosen node_version best)
  unpreferred ms e k none h = h
  unpreferred ms e k (some (c, n)) (s, most) =
      let none_lts : All (λ m. has_lts m ≡ true → ⊥) ms =
        All-of-keep_if has_lts (λ _. ⊥) ms (subst (All (λ _. ⊥)) (sym k) tt) in
      let refused : All
          (λ r. (v : SemVer) → Accepts node_version requirement r v → r.is_lts ≡ true → ⊥)
          releases =
        All-matching node_version requirement (λ m. has_lts m ≡ true → ⊥) releases
          (subst (All (λ m. has_lts m ≡ true → ⊥)) (sym e) none_lts) in
      (c, n, refl, s.0, s.1, both releases refused most)
    where
      both :
          (rs : List NodeRelease)
          → All (λ r. (v : SemVer) → Accepts node_version requirement r v → r.is_lts ≡ true → ⊥) rs
          → All (λ r. (v : SemVer) → Accepts node_version requirement r v → semver_le v n ≡ true) rs
          → All
              (λ r. (v : SemVer) → Accepts node_version requirement r v → Surpassed true c n r v)
              rs
      both [] f g = tt
      both (r ∷ rs) f g = (λ v a. inl (g.0 v a, λ _ l. absurd (f.0 v a l)), both rs f.1 g.1)

  with_lts :
      (ms ps : List (NodeRelease × SemVer))
      → matching node_version requirement releases ≡ ms
      → keep_if has_lts ms ≡ ps
      → Selected requirement releases true (chosen node_version (max_by by_version (prefer ps ms)))
  with_lts ms [] e k =
      unpreferred ms e k (max_by by_version ms) (greatest node_version requirement releases ms e)
  with_lts ms (p ∷ ps) e k = preferred ms p ps e k

-- Which Node.js release a requirement selects. If the result is a text, it is the version of a
-- listed release that parses and satisfies the requirement, and every other listed release that
-- does so is at most as new; where releases with long-term support are preferred, it has such
-- support if any listed release that satisfies the requirement has, and then releases without it
-- may be newer. If there is no result, no listed release satisfies the requirement.
pub select_latest_node_version-Selected :
    (requirement : String) (releases : List NodeRelease) (prefer_lts : Bool)
    → Selected requirement releases prefer_lts
        (select_latest_node_version requirement releases prefer_lts)
unfolding select_latest_node_version
select_latest_node_version-Selected requirement releases false =
    plainly requirement releases _ (greatest node_version requirement releases _ refl)
select_latest_node_version-Selected requirement releases true =
    with_lts requirement releases _ _ refl refl
