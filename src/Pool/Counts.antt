-- ===== src/Pool/Counts.antt =====
-- What each section of the pool does to the sessions that it counts for a project.
use fend.Prelude.{
  false, ℕ, ◌+◌, ◌-◌, ◌≡◌, refl, sym, subst, inl, inr, String, Option, none, some, arith, leb, ◌==◌,
  if◌then◌else◌, string_eq, Bool-cases, Option-cases,
}
use fend.Prelude.Dict.{lookup, insert, lookup-insert}
use fend.Ipc.{VmConfig}
use fend.Vm.{cid_max, VmPool, VmEntry, VmState, booting, running, stopping, VmProcess, same_network}
use fend.Pool.{
  Attempt, reuse, refuse, retry, boot, new_entry, allocate_cid, share, on_entry, reserve, attempt,
  adopt, released, on_release, release,
}

abbrev pub count : Option VmEntry → ℕ
count none = 0
count (some e) = e.active_sessions

abbrev pub sessions : String → VmPool → ℕ
sessions k p = count (lookup k p.vms)

-- One session more for `key`, none for another.
abbrev pub one_for : String → String → ℕ
one_for key k = if string_eq.beq key k then 1 else 0

-- What a pass does to the count, when it grants a session.
abbrev pub Counted : String → String → VmPool → Attempt → VmPool → Type 0
Counted key k p (reuse o) q = (sessions k q ≡ sessions k p + one_for key k) × (o.booted ≡ false)
Counted key k p (boot cid run_dir) q = sessions k q ≡ sessions k p + one_for key k
Counted key k p (refuse e) q = Unit
Counted key k p retry q = Unit

insert-sessions :
    (key k : String) (e : VmEntry) (p : VmPool)
    → e.active_sessions ≡ sessions key p + 1
    → count (lookup k (insert key e p.vms)) ≡ sessions k p + one_for key k
insert-sessions key k e p one_more =
    rw (lookup-insert key k e p.vms) (elim (Bool-cases (string_eq.beq key k)) [
      | inl hit ↦
          let same : key ≡ k = (string_eq.beq_iff key k).0 hit in
          rw hit (subst (λ j. e.active_sessions ≡ sessions j p + 1) same one_more)
      | inr miss ↦ rw miss (omega arith)
    ])

share-Counted :
    (key k : String) (config : VmConfig) (now : ℕ) (p : VmPool) (e : VmEntry)
    → lookup key p.vms ≡ some e
    → Counted key k p (share key config now p e).0 (share key config now p e).1
unfolding share
share-Counted key k config now p e found =
    elim (Bool-cases (same_network e.network config.network)) [
      | inl same ↦ rw same (insert-sessions key k _ p (rw found refl), refl)
      | inr conflict ↦ rw conflict tt
    ]

on_entry-Counted :
    (key k : String) (config : VmConfig) (now : ℕ) (p : VmPool) (e : VmEntry) (s : VmState)
    → lookup key p.vms ≡ some e
    → Counted key k p (on_entry key config now p e s).0 (on_entry key config now p e s).1
unfolding on_entry
on_entry-Counted key k config now p e running found = share-Counted key k config now p e found
on_entry-Counted key k config now p e booting found = share-Counted key k config now p e found
on_entry-Counted key k config now p e stopping found = tt

reserve-Counted :
    (project key k : String) (config : VmConfig) (now : ℕ) (p : VmPool)
    → lookup key p.vms ≡ none
    → let a = reserve project key config now (allocate_cid p) in Counted key k p a.0 a.1
unfolding reserve allocate_cid new_entry
reserve-Counted project key k config now p empty = elim (Bool-cases (leb cid_max p.next_cid)) [
  | inl full ↦ rw full tt
  | inr room ↦ rw room (insert-sessions key k _ p (rw empty refl))
]

pub attempt-Counted :
    (project key k : String) (config : VmConfig) (now : ℕ) (p : VmPool)
    → let a = attempt project key config now p in Counted key k p a.0 a.1
unfolding attempt
attempt-Counted project key k config now p = elim (Option-cases (lookup key p.vms)) [
  | inl empty ↦ rw empty (reserve-Counted project key k config now p empty)
  | inr (e, found) ↦ rw found (on_entry-Counted key k config now p e e.state found)
]

pub adopt-sessions :
    (key k : String) (process : VmProcess) (p : VmPool) (o : Option VmEntry)
    → lookup key p.vms ≡ o
    → sessions k (adopt key process p o) ≡ sessions k p
unfolding adopt
adopt-sessions key k process p none found = refl
adopt-sessions key k process p (some e) found =
    rw (lookup-insert key k (record e { state = running; process = some process }) p.vms)
      (elim (Bool-cases (string_eq.beq key k)) [
        | inl hit ↦
            let same : key ≡ k = (string_eq.beq_iff key k).0 hit in
            rw hit (rw (sym same, found) refl)
        | inr miss ↦ rw miss refl
      ])

released_count : (now : ℕ) (e : VmEntry) → (released now e).active_sessions ≡ e.active_sessions - 1
unfolding released
released_count now e = elim (Bool-cases (e.active_sessions - 1 == 0)) [
  | inl last ↦ rw last refl
  | inr more ↦ rw more refl
]

on_release-sessions :
    (key k : String) (now : ℕ) (p : VmPool) (o : Option VmEntry)
    → lookup key p.vms ≡ o
    → sessions k (on_release key now p o) ≡ sessions k p - one_for key k
unfolding on_release
on_release-sessions key k now p none found = elim (Bool-cases (string_eq.beq key k)) [
  | inl hit ↦ let same : key ≡ k = (string_eq.beq_iff key k).0 hit in rw (hit, sym same, found) refl
  | inr miss ↦ rw miss (omega arith)
]
on_release-sessions key k now p (some e) found =
    rw (lookup-insert key k (released now e) p.vms) (elim (Bool-cases (string_eq.beq key k)) [
      | inl hit ↦
          let same : key ≡ k = (string_eq.beq_iff key k).0 hit in
          rw (hit, sym same, found) (released_count now e)
      | inr miss ↦ rw miss (omega arith)
    ])

-- A release takes one session from its project, where there is one, and none from another.
pub release-sessions :
    (key k : String) (now : ℕ) (p : VmPool)
    → sessions k (release key now p) ≡ sessions k p - one_for key k
unfolding release
release-sessions key k now p = on_release-sessions key k now p (lookup key p.vms) refl
