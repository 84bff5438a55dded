-- ===== src/Supervisor/Launch.antt =====
-- What a launch and a cleanup leave alive.
use fend.Prelude.{
  ℕ, ◌≤◌, ◌≡◌, ◌≢◌, subst, refl, inl, inr, String, true, false, Option, none, some, List, [], ◌∷◌,
  Result, ok, err, if◌then◌else◌, string_eq, arith, Bool-cases,
}
use fend.Prelude.Text.{concat}
use fend.Qemu.{SharePlan, LaunchPlan}
use fend.Supervisor.{
  Host, Outside, SupervisorError, spawn_virtiofsd, RunningVm, spawn, cleanup_child,
  cleanup_children, cleanup_pid_files, socket_already_exists, not_ready, write_pid, spawn_qemu,
  pid_file_path, create_file, Started, start_share, start_shares, start_qemu, launch_plan,
  cleanup_qemu, cleanup,
}
use fend.Supervisor.Cleanup.{
  one_of, cleanup_children-alive, cleanup_sockets-alive, cleanup_pid_files-alive, Fresh, Since,
  Same, undo-Same, last-Same, next-Since,
}

-- What a step leaves alive, by its result: after an error nothing new, except that a virtiofsd that
-- cannot be spawned leaves those that were started before it.
abbrev Left : Host → SupervisorError → Host → Type 0
Left h0 spawn_virtiofsd h = Unit
Left h0 (socket_already_exists p) h = Same h0 h
Left h0 spawn_qemu h = Same h0 h
Left h0 (not_ready l) h = Same h0 h
Left h0 (write_pid p) h = Same h0 h

abbrev Kept : Host → Result SupervisorError Started → Host → Type 0
Kept h0 (ok s) h = Since h0 s h
Kept h0 (err e) h = Left h0 e h

start_share-Kept :
    (o : Outside) (run_dir : String) (share : SharePlan) (s : Started) (h0 h : Host)
    → Fresh h0
    → Since h0 s h
    → Kept h0 (start_share o run_dir share s h).0 (start_share o run_dir share s h).1
unfolding start_share
start_share-Kept o run_dir share s h0 h fresh v =
    let label = concat ("virtiofsd-" ∷ share.name ∷ []) in
    elim (Bool-cases (h.exists share.socket)) [
      | inl there ↦ rw there (undo-Same s h0 h fresh v).0
      | inr free ↦ elim (Bool-cases (o.spawns label)) [
        | inr unspawned ↦ rw (free, unspawned) tt
        | inl spawned ↦ elim (Bool-cases (o.becomes_ready label)) [
          | inr unready ↦
              rw (free, spawned, unready) (last-Same s h0 h (spawn h).1 fresh v (λ i. refl))
          | inl ready ↦ elim (Bool-cases (o.writes (pid_file_path run_dir label))) [
            | inr unwritten ↦
                rw (free, spawned, ready, unwritten)
                  (last-Same s h0 h (create_file share.socket (spawn h).1) fresh v (λ i. refl))
            | inl written ↦
                rw (free, spawned, ready, written)
                  (next-Since s share.socket (pid_file_path run_dir label) h0 h _ v (λ i. refl)
                    refl)
          ]
        ]
      ]
    ]

start_shares-Kept :
    (o : Outside) (run_dir : String) (shares : List SharePlan) (s : Started) (h0 h : Host)
    → Fresh h0
    → Since h0 s h
    → Kept h0 (start_shares o run_dir shares s h).0 (start_shares o run_dir shares s h).1
unfolding start_shares
start_shares-Kept o run_dir [] s h0 h fresh v = v
start_shares-Kept o run_dir (share ∷ shares) s h0 h fresh v =
    go (start_share o run_dir share s h).0
      (λ s1 since. start_shares-Kept o run_dir shares s1 h0 h1 fresh since)
      (start_share-Kept o run_dir share s h0 h fresh v)
  where
    h1 : Host
    h1 = (start_share o run_dir share s h).1

    after : Result SupervisorError Started → Result SupervisorError Started × Host
    after r = elim r [ err e ↦ (err e, h1) | ok s1 ↦ start_shares o run_dir shares s1 h1 ]

    go :
        (r : Result SupervisorError Started)
        → ((s1 : Started) → Since h0 s1 h1 → Kept h0 (after (ok s1)).0 (after (ok s1)).1)
        → Kept h0 r h1
        → Kept h0 (after r).0 (after r).1
    go (err e) rest kept = kept
    go (ok s1) rest kept = rest s1 kept

-- What is alive after a launch, by its result: the processes of the VM besides those from before.
abbrev pub processes : RunningVm → List ℕ
processes vm = elim vm.qemu [ none ↦ vm.virtiofsd | some qemu ↦ qemu ∷ vm.virtiofsd ]

record Runs (h0 : Host) (vm : RunningVm) (h : Host) : Type 0 where
  up : (i : ℕ) → h.alive i ≡ (if one_of i (processes vm) then true else h0.alive i)
  vm_ids : (i : ℕ) → one_of i (processes vm) ≡ true → h0.next_id ≤ i
  not_cleaned : vm.cleaned_up ≡ false

abbrev Launched : Host → Result SupervisorError RunningVm → Host → Type 0
Launched h0 (ok vm) h = Runs h0 vm h
Launched h0 (err e) h = Left h0 e h

start_qemu-Launched :
    (o : Outside) (run_dir : String) (s : Started) (h0 h : Host)
    → Fresh h0
    → Since h0 s h
    → Launched h0 (start_qemu o run_dir s h).0 (start_qemu o run_dir s h).1
unfolding start_qemu
start_qemu-Launched o run_dir s h0 h fresh v = elim (Bool-cases (o.spawns "qemu")) [
  | inr unspawned ↦ rw unspawned (undo-Same s h0 h fresh v).1
  | inl spawned ↦ elim (Bool-cases (o.writes (pid_file_path run_dir "qemu"))) [
    | inr unwritten ↦ rw (spawned, unwritten) (last-Same s h0 h (spawn h).1 fresh v (λ i. refl))
    | inl written ↦
        rw (spawned, written)
          (record {
            up = λ i. ground (arith, v.alive_now i);
            vm_ids = λ i. ground (arith, v.ids_new i, v.ids_given);
            not_cleaned = refl;
          })
  ]
]

nothing-Since : (h : Host) → Since h (record { virtiofsd = []; sockets = []; pid_files = [] }) h
nothing-Since h = record {
  alive_now = λ i. refl;
  ids_new = λ i e. ground arith;
  ids_given = omega arith;
}

launch_plan-Launched :
    (o : Outside) (plan : LaunchPlan) (h : Host)
    → Fresh h
    → Launched h (launch_plan o plan h).0 (launch_plan o plan h).1
unfolding launch_plan
launch_plan-Launched o plan h fresh =
    go (start_shares o plan.run_dir plan.shares nothing h).0
      (start_shares-Kept o plan.run_dir plan.shares nothing h h fresh (nothing-Since h))
  where
    nothing : Started
    nothing = record { virtiofsd = []; sockets = []; pid_files = [] }

    h1 : Host
    h1 = (start_shares o plan.run_dir plan.shares nothing h).1

    after : Result SupervisorError Started → Result SupervisorError RunningVm × Host
    after r = elim r [ err e ↦ (err e, h1) | ok s ↦ start_qemu o plan.run_dir s h1 ]

    go : (r : Result SupervisorError Started) → Kept h r h1 → Launched h (after r).0 (after r).1
    go (err e) kept = kept
    go (ok s) kept = start_qemu-Launched o plan.run_dir s h h1 fresh kept

Left-clean :
    (e : SupervisorError) (h0 h : Host)
    → e ≢ spawn_virtiofsd
    → Left h0 e h
    → (i : ℕ) → h.alive i ≡ h0.alive i
Left-clean spawn_virtiofsd h0 h other left = absurd (other refl)
Left-clean (socket_already_exists p) h0 h other left = left
Left-clean spawn_qemu h0 h other left = left
Left-clean (not_ready l) h0 h other left = left
Left-clean (write_pid p) h0 h other left = left

-- On a host where no id that is still to be given out is alive: a launch that fails leaves alive
-- exactly what was alive before, wherever it fails, unless what failed is the spawn of a virtiofsd.
pub launch_plan_failed :
    (o : Outside) (plan : LaunchPlan) (h h1 : Host) (e : SupervisorError)
    → Fresh h
    → launch_plan o plan h ≡ (err e, h1)
    → e ≢ spawn_virtiofsd
    → (i : ℕ) → h1.alive i ≡ h.alive i
launch_plan_failed o plan h h1 e fresh failed other = Left-clean e h h1 other (
    subst (λ (r : Result SupervisorError RunningVm × Host). Launched h r.0 r.1) failed
      (launch_plan-Launched o plan h fresh))

abbrev with_qemu : Option ℕ → List ℕ → List ℕ
with_qemu q cs = elim q [ none ↦ cs | some qemu ↦ qemu ∷ cs ]

stopped-alive :
    (q : Option ℕ) (cs : List ℕ) (h : Host) (i : ℕ)
    → (cleanup_children cs (cleanup_qemu q h)).alive i
      ≡ (if one_of i (with_qemu q cs) then false else h.alive i)
unfolding cleanup_qemu cleanup_child
stopped-alive none cs h i = cleanup_children-alive cs h i
stopped-alive (some qemu) cs h i =
    ground (arith, cleanup_children-alive cs (cleanup_child qemu h) i)

cleanup-Runs :
    (h0 h : Host) (vm : RunningVm)
    → Fresh h0
    → Runs h0 vm h
    → (i : ℕ) → (cleanup vm h).1.alive i ≡ h0.alive i
unfolding cleanup
cleanup-Runs h0 h vm fresh v i =
    let ended = cleanup_children vm.virtiofsd (cleanup_qemu vm.qemu h) in
    rw
      (
        v.not_cleaned,
        cleanup_sockets-alive vm.sockets (cleanup_pid_files vm.pid_files ended) i,
        cleanup_pid_files-alive vm.pid_files ended i,
        stopped-alive vm.qemu vm.virtiofsd h i,
      )
      (ground (arith, v.up i, v.vm_ids i, fresh i))

-- On a host where no id that is still to be given out is alive: after a launch that succeeds, what
-- runs besides the processes from before are those of the VM, and `cleanup` ends exactly these.
pub launch_plan-cleanup :
    (o : Outside) (plan : LaunchPlan) (h h1 : Host) (vm : RunningVm)
    → Fresh h
    → launch_plan o plan h ≡ (ok vm, h1)
    → (i : ℕ)
    → (h1.alive i ≡ (if one_of i (processes vm) then true else h.alive i))
      × ((cleanup vm h1).1.alive i ≡ h.alive i)
launch_plan-cleanup o plan h h1 vm fresh done i =
    let runs =
      subst (λ (r : Result SupervisorError RunningVm × Host). Launched h r.0 r.1) done
        (launch_plan-Launched o plan h fresh) in
    (runs.up i, cleanup-Runs h h1 vm fresh runs i)
