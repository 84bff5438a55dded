-- ===== src/Cli/Config/Laws.antt =====
-- What the built configurations guarantee.
use fend.Prelude.{
  ℕ, ◌≤◌, ◌<◌, ◌≡◌, refl, String, Bool, true, false, Option, none, some, [], ◌∷◌, unwrap_or,
  or_else, if◌then◌else◌, string_eq, ok, arith, Bool-cases, inl, inr,
}
use fend.Prelude.Int.{ℤ}
use fend.Prelude.Text.{is_empty, join, concat, show, show_int}
use fend.Prelude.Dict.{lookup, lookup-insert}
use fend.Qemu.{ResolvedVirtiofsd, LaunchConfig, from_runtime_dir}
use fend.Qemu.Plan.{validate}
use fend.Cli.{RunOptions, PlanDefaults, CommandNetworkMode}
use fend.Cli.Config.{
  build_launch_config, build_supervised_launch_config, build_run_launch_config, run_plan_options,
  autogenerated_guest_cid, unset, run_env, build_run_smoke_config,
}

-- A generated CID lies in [10000, 60000), whatever the clock and the process id.
pub autogenerated_guest_cid_range :
    (epoch : ℤ) (pid : ℕ)
    → (10_000 ≤ autogenerated_guest_cid epoch pid) × (autogenerated_guest_cid epoch pid < 60_000)
unfolding autogenerated_guest_cid
autogenerated_guest_cid_range epoch pid = omega arith

abbrev pub is_off : Option CommandNetworkMode → Bool
is_off none = false
is_off (some CommandNetworkMode.on) = false
is_off (some CommandNetworkMode.off) = true

-- A value that was given is allowed by `p`.
abbrev pub Given : (ℕ → Type 0) → Option ℕ → Type 0
Given p none = Unit
Given p (some n) = p n

given_or :
    (p : ℕ → Type 0) (d : ℕ) (a b : Option ℕ)
    → p d
    → Given p a
    → Given p b
    → p (unwrap_or d (or_else a b))
given_or p d none none hd ha hb = hd
given_or p d none (some n) hd ha hb = hb
given_or p d (some n) b hd ha hb = ha

pub validate_ok :
    (c : LaunchConfig)
    → 0 < c.cpus
    → 0 < c.memory_mib
    → 2 < c.guest_cid
    → is_empty c.guest_workspace ≡ false
    → validate c ≡ ok tt
unfolding validate
validate_ok c hc hm hg hw = ground arith

-- The CID of a disposable run: given, or generated.
abbrev run_cid : ℕ → RunOptions → PlanDefaults → ℕ
run_cid pid o d =
    if unset o.guest_cid d.guest_cid
    then autogenerated_guest_cid d.epoch pid
    else unwrap_or 42 (or_else o.guest_cid d.guest_cid)

module _ (found : Option ResolvedVirtiofsd) (pid : ℕ) (o : RunOptions) (d : PlanDefaults) where
  abbrev planned : LaunchConfig
  planned = build_launch_config found (run_plan_options o) d

  supervised_lem :
      (r : String) × (build_supervised_launch_config found pid (run_plan_options o) d
        ≡ record planned { run_dir = r })
  unfolding build_supervised_launch_config run_plan_options from_runtime_dir join
  supervised_lem = elim (Bool-cases (unset o.run_dir d.run_dir)) [
    | inl no_dir ↦ (
      join d.temp_dir (concat ("fend-linux." ∷ show pid ∷ "." ∷ show_int d.epoch ∷ [])),
      rw no_dir,
    )
    | inr dir ↦ (planned.run_dir, rw dir)
  ]

  run_lem :
      (r : String) × (build_run_launch_config found pid o d
        ≡ record planned { run_dir = r; guest_cid = run_cid pid o d })
  unfolding build_run_launch_config
  run_lem =
      let (r, e) = supervised_lem in
      (
        r,
        elim (Bool-cases (unset o.guest_cid d.guest_cid)) [
          | inl no_cid ↦ rw (no_cid, e)
          | inr cid ↦ rw (cid, e)
        ],
      )

  run_cid_pos :
      Given (λ n. 2 < n) o.guest_cid → Given (λ n. 2 < n) d.guest_cid → 2 < run_cid pid o d
  run_cid_pos hg hg' = elim (Bool-cases (unset o.guest_cid d.guest_cid)) [
    | inl no_cid ↦ rw no_cid (omega (arith, autogenerated_guest_cid_range d.epoch pid))
    | inr cid ↦ rw cid (given_or (λ n. 2 < n) 42 o.guest_cid d.guest_cid (omega arith) hg hg')
  ]

-- What `fend run` builds is a configuration that the launch plan accepts, as soon as the numbers
-- that the user or the environment gave are: CPUs and memory positive, the CID above 2.
pub build_run_launch_config-validate :
    (found : Option ResolvedVirtiofsd) (pid : ℕ) (o : RunOptions) (d : PlanDefaults)
    → Given (λ n. 0 < n) o.cpus
    → Given (λ n. 0 < n) d.cpus
    → Given (λ n. 0 < n) o.memory_mib
    → Given (λ n. 0 < n) d.memory_mib
    → Given (λ n. 2 < n) o.guest_cid
    → Given (λ n. 2 < n) d.guest_cid
    → validate (build_run_launch_config found pid o d) ≡ ok tt
unfolding build_launch_config run_plan_options
build_run_launch_config-validate found pid o d hc hc' hm hm' hg hg' =
    let (r, e) = run_lem found pid o d in
    rw e (
      validate_ok (record (planned found pid o d) { run_dir = r; guest_cid = run_cid pid o d })
        (given_or (λ n. 0 < n) 2 o.cpus d.cpus (omega arith) hc hc')
        (given_or (λ n. 0 < n) 2048 o.memory_mib d.memory_mib (omega arith) hm hm')
        (run_cid_pos found pid o d hg hg') refl)

-- `--network off` sets the variable that the guest reads, over whatever `--env` says; otherwise the
-- environment is the one that `--env` gave.
pub build_run_smoke_config-env :
    (o : RunOptions) (c : LaunchConfig) (k : String)
    → lookup k (build_run_smoke_config o c).env ≡ (
        if is_off o.network
        then if string_eq.beq "FEND_NETWORK_MODE" k then some "off" else lookup k o.env
        else lookup k o.env)
unfolding build_run_smoke_config
build_run_smoke_config-env o c k = go o.network
  where
    go :
        (n : Option CommandNetworkMode)
        → lookup k (run_env n o.env) ≡ (
            if is_off n
            then if string_eq.beq "FEND_NETWORK_MODE" k then some "off" else lookup k o.env
            else lookup k o.env)
    go none = refl
    go (some CommandNetworkMode.on) = refl
    go (some CommandNetworkMode.off) = lookup-insert "FEND_NETWORK_MODE" k "off" o.env
