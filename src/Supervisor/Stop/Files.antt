-- ===== src/Supervisor/Stop/Files.antt =====
-- Which files are left when those of a list have been removed.
use text.Mathlib.Text.{◌==◌ as str_eq}
use fend.Prelude.{
  ◌≡◌, refl, sym, ap, ◌∙◌, Bool, true, false, not, ◌&&◌, ◌||◌, String, Option, List, [], ◌∷◌,
  keep_if, sort_by, insert_sorted, length, ◌+◌, All, All-map, Bool-cases, inl, inr, arith,
  string_eq,
}
use fend.Supervisor.Stop.Directory.{
  Entry, has_extension, is_some_of, remove_file, stop_order, pid_files_in_run_dir,
}

module _ {A : Type 0} (P : A → Type 0) where
  module _ (le : A → A → Bool) where
    All-insert_sorted : (x : A) (xs : List A) → P x → All P xs → All P (insert_sorted le x xs)
    unfolding insert_sorted
    All-insert_sorted x [] p h = (p, tt)
    All-insert_sorted x (y ∷ ys) p h = elim (Bool-cases (le x y)) [
      | inl first ↦ rw first (p, h)
      | inr later ↦ rw later (h.0, All-insert_sorted x ys p h.1)
    ]

    insert_sorted-All : (x : A) (xs : List A) → All P (insert_sorted le x xs) → P x × All P xs
    unfolding insert_sorted
    insert_sorted-All x [] h = h
    insert_sorted-All x (y ∷ ys) h = elim (Bool-cases (le x y)) [
      | inl first ↦ rw first at h
      | inr later ↦
          let (p, rest) = insert_sorted-All x ys ((rw later at h).1) in
          (p, ((rw later at h).0, rest))
    ]

    All-sort_by : (xs : List A) → All P xs → All P (sort_by le xs)
    unfolding sort_by
    All-sort_by [] h = tt
    All-sort_by (x ∷ xs) h = All-insert_sorted x (sort_by le xs) h.0 (All-sort_by xs h.1)

    sort_by-All : (xs : List A) → All P (sort_by le xs) → All P xs
    unfolding sort_by
    sort_by-All [] h = tt
    sort_by-All (x ∷ xs) h =
        let (p, rest) = insert_sorted-All x (sort_by le xs) h in (p, sort_by-All xs rest)

  All-keep_if : (p : A → Bool) (xs : List A) → All (λ x. p x ≡ true → P x) xs → All P (keep_if p xs)
  All-keep_if p [] h = tt
  All-keep_if p (x ∷ xs) h = elim (Bool-cases (p x)) [
    | inl kept ↦ rw kept (h.0 kept, All-keep_if p xs h.1)
    | inr left ↦ rw left (All-keep_if p xs h.1)
  ]

  keep_if-All : (p : A → Bool) (xs : List A) → All P (keep_if p xs) → All (λ x. p x ≡ true → P x) xs
  keep_if-All p [] h = tt
  keep_if-All p (x ∷ xs) h = elim (Bool-cases (p x)) [
    | inl kept ↦ (λ e. (rw kept at h).0, keep_if-All p xs ((rw kept at h).1))
    | inr left ↦ (λ e. cc, keep_if-All p xs (rw left at h))
  ]

module _ {A : Type 0} where
  keep_if-true : (xs : List A) → keep_if (λ x. true) xs ≡ xs
  keep_if-true [] = refl
  keep_if-true (x ∷ xs) = ap (λ t. x ∷ t) (keep_if-true xs)

  keep_if-keep_if :
      (p q : A → Bool) (xs : List A) → keep_if q (keep_if p xs) ≡ keep_if (λ x. p x && q x) xs
  keep_if-keep_if p q [] = refl
  keep_if-keep_if p q (x ∷ xs) = elim (Bool-cases (p x)) [
    | inl first ↦ elim (Bool-cases (q x)) [
      | inl second ↦ rw (first, second) (ap (λ t. x ∷ t) (keep_if-keep_if p q xs))
      | inr not_second ↦ rw (first, not_second) (keep_if-keep_if p q xs)
    ]
    | inr not_first ↦ rw not_first (keep_if-keep_if p q xs)
  ]

  keep_if-same :
      (p q : A → Bool) (xs : List A) → All (λ x. p x ≡ q x) xs → keep_if p xs ≡ keep_if q xs
  keep_if-same p q [] h = refl
  keep_if-same p q (x ∷ xs) h = elim (Bool-cases (q x)) [
    | inl kept ↦ rw (h.0, kept) (ap (λ t. x ∷ t) (keep_if-same p q xs h.1))
    | inr left ↦ rw (h.0, left) (keep_if-same p q xs h.1)
  ]

-- Whether a file has the name of one of the list.
abbrev named : List Entry → Entry → Bool
named [] x = false
named (e ∷ es) x = str_eq x.file_name e.file_name || named es x

abbrev pub remove_all : List Entry → List Entry → List Entry
remove_all [] dir = dir
remove_all (e ∷ es) dir = remove_all es (remove_file e.file_name dir)

named_self : (es : List Entry) → All (λ x. named es x ≡ true) es
named_self [] = tt
named_self (e ∷ es) = (
  ground (arith, (string_eq.beq_iff e.file_name e.file_name).1 refl),
  All-map (λ x. named es x ≡ true) (λ x. named (e ∷ es) x ≡ true) es (λ x h. ground arith)
      (named_self es),
)

remove_all-named : (es dir : List Entry) → remove_all es dir ≡ keep_if (λ x. not (named es x)) dir
unfolding remove_file
remove_all-named [] dir = sym (keep_if-true dir)
remove_all-named (e ∷ es) dir =
    remove_all-named es (remove_file e.file_name dir)
    ∙ keep_if-keep_if (λ x. not (str_eq x.file_name e.file_name)) (λ x. not (named es x)) dir
    ∙ keep_if-same (λ x. not (str_eq x.file_name e.file_name) && not (named es x))
        (λ x. not (named (e ∷ es) x)) dir (every dir)
  where
    every :
        (xs : List Entry)
        → All
            (λ x.
              (not (str_eq x.file_name e.file_name) && not (named es x)) ≡ not (named (e ∷ es) x))
            xs
    every [] = tt
    every (x ∷ xs) = (ground arith, every xs)

-- The extension depends on the name alone.
module _ (extension_of : String → Option String) where
  abbrev pub Named : Entry → Type 0
  Named e = e.extension ≡ extension_of e.file_name

  named-has_extension :
      (es : List Entry) (x : Entry)
      → Named x
      → All (λ e. Named e × (has_extension "pid" e ≡ true)) es
      → named es x ≡ true
      → has_extension "pid" x ≡ true
  named-has_extension [] x hx h t = cc
  named-has_extension (e ∷ es) x hx h t = elim (Bool-cases (str_eq x.file_name e.file_name)) [
    | inl same ↦
        let name = (string_eq.beq_iff x.file_name e.file_name).0 same in
        ap (is_some_of "pid") (hx ∙ ap extension_of name ∙ sym h.0.0) ∙ h.0.1
    | inr other ↦ named-has_extension es x hx h.1 (ground arith)
  ]

  -- When the pid files have been removed, the others are left.
  pub remove_all-pid_files_in_run_dir :
      (le : String → String → Bool) (dir : List Entry)
      → All Named dir
      → remove_all (pid_files_in_run_dir le dir) dir
        ≡ keep_if (λ e. not (has_extension "pid" e)) dir
  unfolding pid_files_in_run_dir
  remove_all-pid_files_in_run_dir le dir h =
      let pids = keep_if (has_extension "pid") dir in
      let sorted = sort_by (stop_order le) pids in
      remove_all-named sorted dir
      ∙ keep_if-same (λ x. not (named sorted x)) (λ e. not (has_extension "pid" e)) dir
          (both_ways sorted dir h
            (keep_if-All (λ x. named sorted x ≡ true) (has_extension "pid") dir
              (sort_by-All (λ x. named sorted x ≡ true) (stop_order le) pids (named_self sorted)))
            (All-sort_by (λ e. Named e × (has_extension "pid" e ≡ true)) (stop_order le) pids
              (All-keep_if (λ e. Named e × (has_extension "pid" e ≡ true)) (has_extension "pid") dir
                (All-map Named
                  (λ e. has_extension "pid" e ≡ true → Named e × (has_extension "pid" e ≡ true)) dir
                  (λ e n p. (n, p)) h))))
    where
      both_ways :
          (sorted xs : List Entry)
          → All Named xs
          → All (λ x. has_extension "pid" x ≡ true → named sorted x ≡ true) xs
          → All (λ e. Named e × (has_extension "pid" e ≡ true)) sorted
          → All (λ x. not (named sorted x) ≡ not (has_extension "pid" x)) xs
      both_ways sorted [] n h p = tt
      both_ways sorted (x ∷ xs) n h p = (
        elim (Bool-cases (has_extension "pid" x)) [
          | inl pid ↦ ap not (h.0 pid ∙ sym pid)
          | inr file ↦ elim (Bool-cases (named sorted x)) [
            | inl found ↦ cc (named-has_extension sorted x n.0 p found)
            | inr absent ↦ ap not (absent ∙ sym file)
          ]
        ],
        both_ways sorted xs n.1 h.1 p,
      )

module _ (P : Entry → Type 0) (le : String → String → Bool) (dir : List Entry) where
  pub All-pid_files_in_run_dir :
      All (λ e. has_extension "pid" e ≡ true → P e) dir → All P (pid_files_in_run_dir le dir)
  unfolding pid_files_in_run_dir
  All-pid_files_in_run_dir h =
      All-sort_by P (stop_order le) (keep_if (has_extension "pid") dir)
        (All-keep_if P (has_extension "pid") dir h)

  pub pid_files_in_run_dir-All :
      All P (pid_files_in_run_dir le dir) → All (λ e. has_extension "pid" e ≡ true → P e) dir
  unfolding pid_files_in_run_dir
  pid_files_in_run_dir-All h =
      keep_if-All P (has_extension "pid") dir
        (sort_by-All P (stop_order le) (keep_if (has_extension "pid") dir) h)

module _ {A : Type 0} (le : A → A → Bool) where
  length-insert_sorted : (x : A) (xs : List A) → length (insert_sorted le x xs) ≡ length xs + 1
  unfolding insert_sorted
  length-insert_sorted x [] = omega arith
  length-insert_sorted x (y ∷ ys) = elim (Bool-cases (le x y)) [
    | inl first ↦ rw first (omega arith)
    | inr later ↦ rw later (omega (arith, length-insert_sorted x ys))
  ]

  length-sort_by : (xs : List A) → length (sort_by le xs) ≡ length xs
  unfolding sort_by
  length-sort_by [] = refl
  length-sort_by (x ∷ xs) = omega (arith, length-insert_sorted x (sort_by le xs), length-sort_by xs)

pub length-pid_files_in_run_dir :
    (le : String → String → Bool) (dir : List Entry)
    → length (pid_files_in_run_dir le dir) ≡ length (keep_if (has_extension "pid") dir)
unfolding pid_files_in_run_dir
length-pid_files_in_run_dir le dir =
    length-sort_by (stop_order le) (keep_if (has_extension "pid") dir)
