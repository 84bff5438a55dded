-- ===== src/Supervisor/Leak.antt =====
-- The one error path of `launch_plan` that cleans nothing up.
use fend.Prelude.{
  ◌≡◌, refl, ap, ◌∙◌, String, true, false, List, [], ◌∷◌, Result, ok, err, string_eq, arith,
}
use fend.Prelude.Text.{concat}
use fend.Qemu.{SharePlan, LaunchPlan}
use fend.Supervisor.{
  Host, Outside, SupervisorError, spawn_virtiofsd, spawn, create_file, Started, start_share,
  start_shares, start_qemu, RunningVm, launch_plan,
}

abbrev pub nothing : Started
nothing = record { virtiofsd = []; sockets = []; pid_files = [] }

start_share_up :
    (o : Outside) (run_dir : String) (share : SharePlan) (h h1 : Host) (s : Started)
    → start_share o run_dir share nothing h ≡ (ok s, h1)
    → h1.alive h.next_id ≡ true
unfolding start_share spawn create_file
start_share_up o run_dir share h h1 s started = ground arith

start_share_unspawned :
    (o : Outside) (run_dir : String) (share : SharePlan) (s : Started) (h : Host)
    → h.exists share.socket ≡ false
    → o.spawns (concat ("virtiofsd-" ∷ share.name ∷ [])) ≡ false
    → start_share o run_dir share s h ≡ (err spawn_virtiofsd, h)
unfolding start_share
start_share_unspawned o run_dir share s h free unspawned = rw (free, unspawned) refl

shares_failed :
    (o : Outside) (run_dir : String) (first second : SharePlan) (rest : List SharePlan)
    (h h1 : Host) (s : Started)
    → start_share o run_dir first nothing h ≡ (ok s, h1)
    → start_share o run_dir second s h1 ≡ (err spawn_virtiofsd, h1)
    → start_shares o run_dir (first ∷ second ∷ rest) nothing h ≡ (err spawn_virtiofsd, h1)
unfolding start_shares
shares_failed o run_dir first second rest h h1 s started failed =
    let next = λ (shares : List SharePlan) (r : Result SupervisorError Started × Host).
      elim r.0 as (λ _. Result SupervisorError Started × Host) [
        | err e ↦ (err e, r.1)
        | ok s1 ↦ start_shares o run_dir shares s1 r.1
      ] in
    ap (next (second ∷ rest)) started ∙ ap (next rest) failed

launch_failed :
    (o : Outside) (plan : LaunchPlan) (h h1 : Host) (e : SupervisorError)
    → start_shares o plan.run_dir plan.shares nothing h ≡ (err e, h1)
    → launch_plan o plan h ≡ (err e, h1)
unfolding launch_plan
launch_failed o plan h h1 e failed =
    ap
      (λ (r : Result SupervisorError Started × Host).
        elim r.0 as (λ _. Result SupervisorError RunningVm × Host) [
          | err e1 ↦ (err e1, r.1)
          | ok s ↦ start_qemu o plan.run_dir s r.1
        ])
      failed

-- When the first share has been started, the socket of the second is free and its virtiofsd cannot
-- be spawned, `launch_plan` returns the error of the spawn, and the first virtiofsd is still alive.
pub launch_plan_leak :
    (o : Outside) (plan : LaunchPlan) (first second : SharePlan) (rest : List SharePlan)
    (h h1 : Host) (s : Started)
    → plan.shares ≡ first ∷ second ∷ rest
    → start_share o plan.run_dir first nothing h ≡ (ok s, h1)
    → h1.exists second.socket ≡ false
    → o.spawns (concat ("virtiofsd-" ∷ second.name ∷ [])) ≡ false
    → (launch_plan o plan h ≡ (err spawn_virtiofsd, h1)) × (h1.alive h.next_id ≡ true)
launch_plan_leak o plan first second rest h h1 s shares started free unspawned =
    let at_second = start_share_unspawned o plan.run_dir second s h1 free unspawned in
    let failed = shares_failed o plan.run_dir first second rest h h1 s started at_second in
    (
      launch_failed o plan h h1 spawn_virtiofsd
          (ap (λ (ss : List SharePlan). start_shares o plan.run_dir ss nothing h) shares ∙ failed),
      start_share_up o plan.run_dir first h h1 s started,
    )
