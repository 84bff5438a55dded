-- ===== src/App/Once.antt =====
-- A command is started at most once.
use fend.Prelude.{
  ◌⊎◌, ℕ, ◌≡◌, refl, String, false, true, not, ◌||◌, List, [], ◌∷◌, Result, ok, err, Bool-cases,
  inl, inr,
}
use fend.Prelude.Int.{ℤ}
use fend.Ipc.{VmConfig}
use fend.Qemu.{LaunchConfig, LaunchPlan, PlanError}
use fend.Qemu.Plan.{build_launch_plan}
use fend.Doctor.Report.{evaluate_launch, is_none}
use fend.Cli.{RunOptions, PlanDefaults}
use fend.Cli.Config.{SmokeConfig, build_run_launch_config, build_run_smoke_config}
use fend.Runtime.Prepare.{PreparedGuestCommand, prepare_guest_command}
use fend.App.{
  Host, Doing, launches, attaches, ClientError, daemon, unavailable, M, in_session, in_own_vm,
  after_daemon, run_prepared, preflight, with_defaults, run_disposable_command,
  run_disposable_direct, try_run_via_daemon, daemon_disabled, smoke_config_of, vm_config_of,
  apply_network_fallback, attached_with,
}

module _ (h : Host) where
  -- The daemon is left aside: it is disabled, or could not be reached for this configuration.
  abbrev pub Aside : VmConfig → Type 0
  Aside vm =
      (daemon_disabled h.no_daemon ≡ true)
      ⊎ ((message : String) × (h.ensure_vm vm ≡ err (unavailable message)))

  module _ (options : RunOptions) where
    -- What precedes every start: the configuration is that of the options and the defaults, after the
    -- fallback of the network, the runtime is set up, the command is prepared, and the preflight has
    -- no issue.
    abbrev pub Ready : LaunchConfig → PreparedGuestCommand → String → Type 0
    Ready config prepared runtime_dir =
        (defaults : PlanDefaults) × (h.defaults ≡ ok defaults)
        × (let base = build_run_launch_config h.virtiofsd h.pid options defaults in
            let explicit = not (is_none options.vm_network) || not (is_none defaults.network) in
            (runtime_dir ≡ h.parent base.artifacts.kernel)
            × (config ≡ (apply_network_fallback base explicit (h.probe runtime_dir)).0)
            × ((prepare_guest_command h.machine base.workspace base.tools_dir options.command []).0
                ≡ ok prepared))
        × (h.setup runtime_dir ≡ ok tt)
        × ((evaluate_launch (h.probe runtime_dir) config.network).issues ≡ [])

    -- What a run may have started. In the daemon's VM: a session of the prepared command at the CID
    -- that the daemon gave for the configuration. Else, only with the daemon aside, a VM by the plan
    -- of the configuration and, when that was launched, a session of the prepared command at the CID
    -- of the configuration.
    pub data Course : List Doing → Type 0 where
      nothing : Course []
      by_daemon :
          (config : LaunchConfig) (prepared : PreparedGuestCommand) (runtime_dir : String)
          (c : SmokeConfig)
          → Ready config prepared runtime_dir
          → daemon_disabled h.no_daemon ≡ false
          → h.ensure_vm (vm_config_of config runtime_dir) ≡ ok c.cid
          → c.command ≡ prepared.command
          → Course (attaches c ∷ [])
      not_launched :
          (config : LaunchConfig) (prepared : PreparedGuestCommand) (runtime_dir : String)
          (plan : LaunchPlan) (e : String)
          → Ready config prepared runtime_dir
          → Aside (vm_config_of config runtime_dir)
          → build_launch_plan config ≡ ok plan
          → h.launch plan ≡ err e
          → Course (launches plan ∷ [])
      in_its_own :
          (config : LaunchConfig) (prepared : PreparedGuestCommand) (runtime_dir : String)
          (plan : LaunchPlan) (c : SmokeConfig)
          → Ready config prepared runtime_dir
          → Aside (vm_config_of config runtime_dir)
          → build_launch_plan config ≡ ok plan
          → h.launch plan ≡ ok tt
          → c.cid ≡ config.guest_cid
          → c.command ≡ prepared.command
          → Course (launches plan ∷ attaches c ∷ [])

  module _ (options : RunOptions) (config : LaunchConfig) (prepared : PreparedGuestCommand)
      (runtime_dir : String) (ready : Ready options config prepared runtime_dir) where
    in_own_vm-Course :
        (plan : LaunchPlan) (r : Result String (Unit {0}))
        → Aside (vm_config_of config runtime_dir)
        → build_launch_plan config ≡ ok plan
        → h.launch plan ≡ r
        → Course options (in_own_vm h (smoke_config_of options config prepared) plan r).1
    unfolding in_own_vm smoke_config_of build_run_smoke_config
    in_own_vm-Course plan (err e) aside built l =
        not_launched config prepared runtime_dir plan e ready aside built l
    in_own_vm-Course plan (ok tt) aside built l =
        in_its_own config prepared runtime_dir plan _ ready aside built l refl refl

    run_disposable_direct-Course :
        Aside (vm_config_of config runtime_dir)
        → Course options (run_disposable_direct h options config prepared).1
    unfolding run_disposable_direct
    run_disposable_direct-Course aside = from (build_launch_plan config) refl
      where
        from :
            (r : Result PlanError LaunchPlan)
            → build_launch_plan config ≡ r
            → Course options
                (elim r as (λ _. M String ℕ) [
                  | err e ↦ (err (h.plan_text e), [])
                  | ok plan ↦
                      in_own_vm h (smoke_config_of options config prepared) plan (h.launch plan)
                ]).1
        from (err e) built = nothing
        from (ok plan) built = in_own_vm-Course plan (h.launch plan) aside built refl

    -- A daemon that cannot be reached has started nothing.
    after_daemon-Course :
        (r : Result ClientError ℕ)
        → h.ensure_vm (vm_config_of config runtime_dir) ≡ r
        → daemon_disabled h.no_daemon ≡ false
        → Course options
            (after_daemon h options config prepared (in_session h options config prepared r)).1
    unfolding after_daemon in_session
    after_daemon-Course (err (daemon message)) asked d = nothing
    after_daemon-Course (err (unavailable message)) asked d =
        run_disposable_direct-Course (inr (message, asked))
    after_daemon-Course (ok cid) asked d = attached (h.attach _)
      where
        attached :
            (r : Result String ℤ)
            → Course options
                (after_daemon h options config prepared (
                  attached_with h r,
                  attaches (record (smoke_config_of options config prepared) { cid = cid }) ∷ [],
                )).1
        attached (ok code) = by_daemon config prepared runtime_dir _ ready d asked refl
        attached (err e) = by_daemon config prepared runtime_dir _ ready d asked refl

    run_prepared-Course : Course options (run_prepared h options config prepared runtime_dir).1
    unfolding run_prepared try_run_via_daemon
    run_prepared-Course = elim (Bool-cases (daemon_disabled h.no_daemon)) [
      | inl off ↦ rw off (run_disposable_direct-Course (inl off))
      | inr on ↦ rw on (after_daemon-Course (h.ensure_vm (vm_config_of config runtime_dir)) refl on)
    ]

  module _ (options : RunOptions) (defaults : PlanDefaults) (given : h.defaults ≡ ok defaults) where
    base : LaunchConfig
    base = build_run_launch_config h.virtiofsd h.pid options defaults

    runtime_dir : String
    runtime_dir = h.parent base.artifacts.kernel

    config : LaunchConfig
    config =
        (apply_network_fallback base
          (not (is_none options.vm_network) || not (is_none defaults.network))
          (h.probe runtime_dir)).0

    preflight-Course :
        (prepared : PreparedGuestCommand)
        → (prepare_guest_command h.machine base.workspace base.tools_dir options.command []).0
          ≡ ok prepared
        → h.setup runtime_dir ≡ ok tt
        → Course options (preflight h options defaults base prepared runtime_dir).1
    unfolding preflight config runtime_dir base
    preflight-Course prepared made up =
        from (evaluate_launch (h.probe runtime_dir) config.network).issues refl
      where
        from :
            (issues : List String)
            → (evaluate_launch (h.probe runtime_dir) config.network).issues ≡ issues
            → Course options
                (elim issues as (λ _. M String ℕ) [
                  | [] ↦ run_prepared h options config prepared runtime_dir
                  | issue ∷ rest ↦ (ok 1, [])
                ]).1
        from [] none_found =
            run_prepared-Course options config prepared runtime_dir
              (defaults, given, (refl, refl, made), up, none_found)
        from (issue ∷ rest) some_found = nothing

    with_defaults-Course : Course options (with_defaults h options defaults).1
    unfolding with_defaults runtime_dir base
    with_defaults-Course = set_up (h.setup runtime_dir) refl
      where
        made :
            (r : Result String PreparedGuestCommand)
            → (prepare_guest_command h.machine base.workspace base.tools_dir options.command []).0
              ≡ r
            → h.setup runtime_dir ≡ ok tt
            → Course options
                (elim r as (λ _. M String ℕ) [
                  | err e ↦ (err e, [])
                  | ok prepared ↦ preflight h options defaults base prepared runtime_dir
                ]).1
        made (err e) is up = nothing
        made (ok p) is up = preflight-Course p is up

        set_up :
            (r : Result String (Unit {0}))
            → h.setup runtime_dir ≡ r
            → Course options
                (elim r as (λ _. M String ℕ) [
                  | err e ↦ (err e, [])
                  | ok done ↦
                      elim (prepare_guest_command h.machine base.workspace base.tools_dir
                          options.command []).0
                        as (λ _. M String ℕ) [
                          | err e ↦ (err e, [])
                          | ok prepared ↦ preflight h options defaults base prepared runtime_dir
                        ]
                ]).1
        set_up (err e) up = nothing
        set_up (ok tt) up =
            made
              (prepare_guest_command h.machine base.workspace base.tools_dir options.command []).0
              refl up

  -- Whatever the parts that it calls answer, a run starts nothing unless its runtime is set up,
  -- its command is prepared and the preflight of its configuration has no issue, and it starts
  -- the prepared command at most once: at the CID that the daemon gave for the configuration,
  -- when the daemon is not disabled, and then no VM of its own; or, when the daemon is disabled
  -- or could not be reached for the configuration, in one VM that was launched by the plan of the
  -- configuration, at its CID. It starts no second VM, and no session beside a VM that could not
  -- be launched.
  pub run_disposable_command-Course :
      (options : RunOptions) → Course options (run_disposable_command h options).1
  unfolding run_disposable_command
  run_disposable_command-Course options = from h.defaults refl
    where
      from :
          (r : Result String PlanDefaults)
          → h.defaults ≡ r
          → Course options
              (elim r as (λ _. M String ℕ) [
                | err e ↦ (err e, [])
                | ok defaults ↦ with_defaults h options defaults
              ]).1
      from (err e) given = nothing
      from (ok defaults) given = with_defaults-Course options defaults given
