-- ===== src/Pool/Sessions.antt =====
-- What a request does to the sessions that the pool counts for a project, section by section.
use fend.Prelude.{
  ◌⊎◌, true, false, ℕ, suc, ◌+◌, ◌≡◌, refl, sym, subst, inl, inr, String, Option, some, Result, ok,
  err, string_eq, Option-cases, unwrap_or,
}
use fend.Prelude.Dict.{lookup}
use fend.Ipc.{VmConfig, project_key}
use fend.Pool.Invariant.{Inv}
use fend.Pool.Ensuring.{answer, ensure_loop_single}
use fend.Vm.{VmPool, VmProcess, PoolError, EnsureOutcome}
use fend.Pool.{Attempt, reuse, refuse, retry, boot, attempt, finish_boot, ensure_loop, ensure}
use fend.Pool.Counts.{sessions, one_for, Counted, attempt-Counted, adopt-sessions}

-- An answer that grants a session has counted it in the first section, which left the pool `q`. When
-- the machine was there, that is all; else the second section, on what others made of the pool
-- meanwhile, changes no count.
abbrev pub Granted :
    (VmPool → VmPool)
    → String
    → String
    → VmPool
    → VmPool
    → Result PoolError EnsureOutcome
    → VmPool
    → Type 0
Granted meanwhile key k p q (ok out) final =
    (sessions k q ≡ sessions k p + one_for key k)
    × (((out.booted ≡ false) × (final ≡ q))
        ⊎ ((out.booted ≡ true) × (sessions k final ≡ sessions k (meanwhile q))))
Granted meanwhile key k p q (err e) final = Unit

module _ (meanwhile : VmPool → VmPool) (key k : String) where
  finish_boot-Granted :
      (cid : ℕ) (run_dir : String) (r : Result PoolError VmProcess) (p q : VmPool)
      → sessions k q ≡ sessions k p + one_for key k
      → let a = finish_boot key cid run_dir r (meanwhile q) in Granted meanwhile key k p q a.0 a.1
  unfolding finish_boot
  finish_boot-Granted cid run_dir (ok process) p q counted = (
    counted,
    inr (refl, adopt-sessions key k process (meanwhile q) (lookup key (meanwhile q).vms) refl),
  )
  finish_boot-Granted cid run_dir (err e) p q counted = tt

  answer-Granted :
      (boot_vm : ℕ → String → Result PoolError VmProcess) (a : Attempt) (p q : VmPool)
      → Counted key k p a q
      → let r = answer meanwhile key boot_vm a q in Granted meanwhile key k p q r.0 r.1
  answer-Granted boot_vm (reuse o) p q (counted, there) = (counted, inl (there, refl))
  answer-Granted boot_vm (refuse e) p q counted = tt
  answer-Granted boot_vm retry p q counted = tt
  answer-Granted boot_vm (boot cid run_dir) p q counted =
      finish_boot-Granted cid run_dir (boot_vm cid run_dir) p q counted

  ensure_loop-Granted :
      (n : ℕ) (project : String) (config : VmConfig) (now : ℕ)
      (boot_vm : ℕ → String → Result PoolError VmProcess) (p : VmPool)
      → Inv p
      → let r = ensure_loop meanwhile (suc n) project key config now boot_vm p in
        Granted meanwhile key k p (attempt project key config now p).1 r.0 r.1
  ensure_loop-Granted n project config now boot_vm p v =
      let a = attempt project key config now p in
      subst (λ (r : Result PoolError EnsureOutcome × VmPool). Granted meanwhile key k p a.1 r.0 r.1)
        (sym (ensure_loop_single meanwhile n project key config now boot_vm p v))
        (answer-Granted boot_vm a.0 p a.1 (attempt-Counted project key k config now p))

module _ (meanwhile : VmPool → VmPool) (canonicalize : String → Option String) (hash : String → ℕ)
    (boot_vm : String → ℕ → String → Result PoolError VmProcess) (config : VmConfig) (now : ℕ)
    (p : VmPool) where
  abbrev ensured : Result PoolError EnsureOutcome × VmPool
  ensured = ensure meanwhile canonicalize hash boot_vm config now p

  abbrev path : String
  path = unwrap_or config.project (canonicalize config.project)

  abbrev its_key : String
  its_key = project_key hash path

  -- The pool after the first section.
  abbrev pub first_section : VmPool
  first_section = (attempt path its_key config now p).1

  in_loop : String → Result PoolError EnsureOutcome × VmPool
  in_loop project =
      ensure_loop meanwhile 8 project (project_key hash project) config now (boot_vm project) p

  ensured_found :
      (project : String)
      → canonicalize config.project ≡ some project
      → (ensured ≡ in_loop path) × (project ≡ path)
  unfolding ensure in_loop
  ensured_found project found =
      let same : project ≡ path = rw found refl in
      (subst (λ place. ensured ≡ in_loop place) same (rw (found, ensure) refl), same)

  ensure-Granted :
      (k : String) → Inv p → Granted meanwhile its_key k p first_section ensured.0 ensured.1
  unfolding ensure in_loop
  ensure-Granted k v = elim (Option-cases (canonicalize config.project)) [
    | inl missing ↦ rw (missing, ensure) tt
    | inr (project, found) ↦
        subst
          (λ (r : Result PoolError EnsureOutcome × VmPool).
            Granted meanwhile its_key k p first_section r.0 r.1)
          (sym (ensured_found project found).0)
          (ensure_loop-Granted meanwhile its_key k 7 path config now (boot_vm path) p v)
  ]

  pub ensure-sessions :
      (k : String) (q : VmPool) (out : EnsureOutcome)
      → Inv p
      → ensured ≡ (ok out, q)
      → (sessions k first_section ≡ sessions k p + one_for its_key k)
        × (((out.booted ≡ false) × (q ≡ first_section))
            ⊎ ((out.booted ≡ true) × (sessions k q ≡ sessions k (meanwhile first_section))))
  ensure-sessions k q out v granted =
      subst
        (λ (r : Result PoolError EnsureOutcome × VmPool).
          Granted meanwhile its_key k p first_section r.0 r.1)
        granted (ensure-Granted k v)
