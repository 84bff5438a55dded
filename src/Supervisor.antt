-- ===== src/Supervisor.antt =====
-- linux/src/supervisor.rs: the processes of one VM, from `launch_plan` to `cleanup`. The child
-- processes, the pid files and the sockets are the state of a `Host`; whether a spawn, a wait or a
-- write succeeds is up to the `Outside`.
pub mod Cleanup
pub mod Launch
pub mod Leak
pub mod Stop
mod Tests
use fend.Prelude.{
  ℕ, suc, ◌+◌, String, Bool, true, false, Option, none, some, List, [], ◌∷◌, ◌++◌, Result, ok, err,
  ◌==◌, if◌then◌else◌, string_eq,
}
use fend.Prelude.Text.{concat, join}
use fend.Qemu.{SharePlan, LaunchPlan}

-- A child is named by its process id; ids are given out in order.
pub record Host : Type 0 where
  pub alive : ℕ → Bool
  pub next_id : ℕ
  pub exists : String → Bool

-- What the operating system answers, by the label of a process and by the path of a file.
pub record Outside : Type 0 where
  pub spawns : String → Bool
  pub becomes_ready : String → Bool
  pub writes : String → Bool

-- `not_ready` stands for the errors of `wait_for_socket`, and `write_pid` for that of the write of a
-- pid file; the causes that the operating system gives are left out.
pub data SupervisorError : Type 0 where
  socket_already_exists : String → SupervisorError
  spawn_virtiofsd spawn_qemu : SupervisorError
  not_ready : String → SupervisorError
  write_pid : String → SupervisorError

pub record RunningVm : Type 0 where
  pub qemu : Option ℕ
  pub virtiofsd : List ℕ
  pub sockets : List String
  pub pid_files : List String
  pub cleaned_up : Bool

unfoldable pub spawn : Host → ℕ × Host
spawn h = (
  h.next_id,
  record h { alive = λ i. if i == h.next_id then true else h.alive i; next_id = suc h.next_id },
)

-- Whether the child had already ended or is killed, it has ended after the `wait`.
unfoldable pub cleanup_child : ℕ → Host → Host
cleanup_child child h = record h { alive = λ i. if i == child then false else h.alive i }

unfoldable pub cleanup_children : List ℕ → Host → Host
cleanup_children [] h = h
cleanup_children (c ∷ cs) h = cleanup_children cs (cleanup_child c h)

unfoldable pub remove_file : String → Host → Host
remove_file path h = record h { exists = λ q. if string_eq.beq path q then false else h.exists q }

-- A socket that is not there is not removed, which is the same.
unfoldable pub cleanup_sockets : List String → Host → Host
cleanup_sockets [] h = h
cleanup_sockets (s ∷ ss) h = cleanup_sockets ss (remove_file s h)

unfoldable pub cleanup_pid_files : List String → Host → Host
cleanup_pid_files [] h = h
cleanup_pid_files (p ∷ ps) h = cleanup_pid_files ps (remove_file p h)

unfoldable pub pid_file_path : String → String → String
pid_file_path run_dir label = join run_dir (concat (label ∷ ".pid" ∷ []))

unfoldable pub create_file : String → Host → Host
create_file path h = record h { exists = λ q. if string_eq.beq path q then true else h.exists q }

-- What `launch_plan` has started and written so far.
pub record Started : Type 0 where
  pub virtiofsd : List ℕ
  pub sockets : List String
  pub pid_files : List String

-- The cleanup of the error paths.
unfoldable pub undo : Started → Host → Host
unfolding cleanup_children cleanup_sockets cleanup_pid_files
undo s h =
    cleanup_sockets s.sockets (cleanup_children s.virtiofsd (cleanup_pid_files s.pid_files h))

-- One turn of the loop over the shares. A socket that is there from before, and a spawn that
-- fails, each leave the function in their own way.
unfoldable pub start_share :
    Outside → String → SharePlan → Started → Host → Result SupervisorError Started × Host
unfolding undo spawn cleanup_child create_file cleanup_children cleanup_pid_files
start_share o run_dir share s h =
    let label = concat ("virtiofsd-" ∷ share.name ∷ []) in
    let pid_file = pid_file_path run_dir label in
    let (child, h1) = spawn h in
    let h2 = create_file share.socket h1 in
    if h.exists share.socket
    then (
      err (socket_already_exists share.socket),
      cleanup_children s.virtiofsd (cleanup_pid_files s.pid_files h),
    )
    else if o.spawns label
    then if o.becomes_ready label
      then if o.writes pid_file
        then (
          ok (record {
            virtiofsd = s.virtiofsd ++ child ∷ [];
            sockets = s.sockets ++ share.socket ∷ [];
            pid_files = s.pid_files ++ pid_file ∷ [];
          }),
          create_file pid_file h2,
        )
        else (err (write_pid pid_file), undo s (cleanup_child child h2))
      else (err (not_ready label), undo s (cleanup_child child h1))
    else (err spawn_virtiofsd, h)

unfoldable pub start_shares :
    Outside → String → List SharePlan → Started → Host → Result SupervisorError Started × Host
start_shares o run_dir [] s h = (ok s, h)
start_shares o run_dir (share ∷ shares) s h =
    let (r, h1) = start_share o run_dir share s h in
    elim r [ err e ↦ (err e, h1) | ok s1 ↦ start_shares o run_dir shares s1 h1 ]

unfoldable pub start_qemu :
    Outside → String → Started → Host → Result SupervisorError RunningVm × Host
unfolding undo spawn cleanup_child create_file
start_qemu o run_dir s h =
    let pid_file = pid_file_path run_dir "qemu" in
    let (qemu, h1) = spawn h in
    if o.spawns "qemu"
    then if o.writes pid_file
      then (
        ok (record {
          qemu = some qemu;
          virtiofsd = s.virtiofsd;
          sockets = s.sockets;
          pid_files = s.pid_files ++ pid_file ∷ [];
          cleaned_up = false;
        }),
        create_file pid_file h1,
      )
      else (err (write_pid pid_file), undo s (cleanup_child qemu h1))
    else (err spawn_qemu, undo s h)

-- After `prepare_plan_paths`.
unfoldable pub launch_plan : Outside → LaunchPlan → Host → Result SupervisorError RunningVm × Host
unfolding start_shares start_qemu
launch_plan o plan h =
    let nothing : Started = record { virtiofsd = []; sockets = []; pid_files = [] } in
    let (r, h1) = start_shares o plan.run_dir plan.shares nothing h in
    elim r [ err e ↦ (err e, h1) | ok s ↦ start_qemu o plan.run_dir s h1 ]

cleanup_qemu : Option ℕ → Host → Host
cleanup_qemu none h = h
cleanup_qemu (some qemu) h = cleanup_child qemu h

-- `RunningVm::cleanup`, which `stop` and `drop` call.
unfoldable pub cleanup : RunningVm → Host → RunningVm × Host
unfolding cleanup_qemu cleanup_children cleanup_sockets cleanup_pid_files
cleanup vm h = if vm.cleaned_up then (vm, h) else (
  record vm { qemu = none; cleaned_up = true },
  cleanup_sockets vm.sockets
      (cleanup_pid_files vm.pid_files (cleanup_children vm.virtiofsd (cleanup_qemu vm.qemu h))),
)
