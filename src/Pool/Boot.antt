-- ===== src/Pool/Boot.antt =====
-- `boot` of linux/src/pool.rs: from a request and a CID to the launcher. The creation of the run
-- directory, the search for virtiofsd, the text of a plan's error and the launcher are parameters.
use fend.Prelude.{
  ℕ, ◌<◌, ◌≡◌, ap, String, Bool, true, false, Option, Result, ok, err, if◌then◌else◌, unwrap_or,
}
use fend.Prelude.Text.{is_empty, join}
use fend.Qemu.{
  ResolvedVirtiofsd, LaunchConfig, LaunchPlan, PlanError, from_runtime_dir, new_launch_config,
}
use fend.Qemu.Plan.{build_launch_plan}
use fend.Qemu.Plan.Laws.{build_launch_plan_iff}
use fend.Ipc.{VmConfig}
use fend.Vm.{PoolError, VmProcess, plan, io}

pub boot_config : Option ResolvedVirtiofsd → String → VmConfig → ℕ → String → LaunchConfig
unfolding new_launch_config
boot_config found project config cid run_dir =
    let base =
      new_launch_config (from_runtime_dir config.runtime_dir) project config.cache_dir
        config.tools_dir run_dir config.epoch in
    record base {
      virtiofsd = unwrap_or base.virtiofsd found;
      guest_cid = cid;
      cpus = config.cpus;
      memory_mib = config.memory_mib;
      network = config.network;
      guest_workspace = config.guest_workspace;
    }

module _ (created : String → Bool) (found : Option ResolvedVirtiofsd)
    (to_string : PlanError → String)
    (launch : LaunchPlan → String → Result PoolError VmProcess) where
  launched_plan : String → Result PlanError LaunchPlan → Result PoolError VmProcess
  launched_plan run_dir (err e) = err (plan (to_string e))
  launched_plan run_dir (ok p) = launch p (join run_dir "logs/qemu.log")

  pub boot_vm : String → VmConfig → ℕ → String → Result PoolError VmProcess
  unfolding launched_plan
  boot_vm project config cid run_dir =
      if created run_dir
      then launched_plan run_dir (build_launch_plan (boot_config found project config cid run_dir))
      else err (io "create vm run dir" run_dir)

  -- When the run directory was created, the request has CPUs, memory and a workspace, and the CID
  -- is above 2, as every CID of the pool is, `boot` reaches the launcher with a plan.
  pub boot_vm-launch :
      (project : String) (config : VmConfig) (cid : ℕ) (run_dir : String)
      → created run_dir ≡ true
      → 0 < config.cpus
      → 0 < config.memory_mib
      → 2 < cid
      → is_empty config.guest_workspace ≡ false
      → (p : LaunchPlan) × (build_launch_plan (boot_config found project config cid run_dir) ≡ ok p)
        × (boot_vm project config cid run_dir ≡ launch p (join run_dir "logs/qemu.log"))
  unfolding boot_vm boot_config
  boot_vm-launch project config cid run_dir made hc hm hg hw =
      let (p, planned) =
        (build_launch_plan_iff (boot_config found project config cid run_dir)).1 (hc, hm, hg, hw) in
      (p, planned, rw made (ap (λ r. launched_plan run_dir r) planned))
