-- ===== src/Supervisor/Stop/Stopped.antt =====
-- What `stop_run_dir` leaves behind.
use fend.Prelude.{
  ℕ, ◌+◌, ◌<◌, ◌^◌, ◌≡◌, refl, sym, ap, subst, ◌∙◌, Bool, true, false, not, String, Option, none,
  some, List, [], ◌∷◌, Result, ok, err, keep_if, length, length-append, All, All-map, arith,
}
use fend.Supervisor.Stop.{Os, stop_kill_timeout, terminate_pid}
use fend.Supervisor.Stop.Directory.{
  Entry, has_extension, StopError, StopReport, Stopping, read_pid_file, stopped, on_terminated,
  on_pid, stop_pid_file, stop_pid_files, pid_files_in_run_dir, cleanup_run_dir_sockets,
  stop_run_dir, remove_file,
}
use fend.Supervisor.Stop.Reach.{Lawful, Reach, here, Reach-trans, Settled, Settled-later}
use fend.Supervisor.Stop.Signals.{terminate_pid-Ended}
use fend.Supervisor.Stop.Files.{
  remove_all, Named, remove_all-pid_files_in_run_dir, All-pid_files_in_run_dir,
  pid_files_in_run_dir-All, length-pid_files_in_run_dir,
}

abbrev pub IsProcess : Option ℕ → Type 0
IsProcess none = Unit
IsProcess (some pid) = (0 < pid) × (pid < 2 ^ 31)

-- The file can be read, and an id in it is one of a process.
abbrev pub IsUsable : Entry → Type 0
IsUsable e = (pid : Option ℕ) × (read_pid_file e ≡ ok pid) × IsProcess pid

module _ (os : Os) (l : Lawful os) where
  -- The process of the file has ended, or has outlasted SIGKILL by the time allowed.
  abbrev pub Ceased : os.World → os.World → Entry → Type 0
  Ceased w final e = (pid : ℕ) → read_pid_file e ≡ ok (some pid) → Settled os l w final pid

  abbrev labels : Stopping os.World → ℕ
  labels s = length s.report.terminated + length s.report.stale

  abbrev Done :
      List Entry → Stopping os.World → Result StopError (Unit {0}) × Stopping os.World → Type 0
  Done es s r =
      (r.0 ≡ ok tt)
      × All (Ceased s.world r.1.world) es
      × Reach os s.world r.1.world
      × (r.1.dir ≡ remove_all es s.dir)
      × (labels r.1 ≡ labels s + length es)

  module _ (fuel timeout : ℕ) (enough : timeout < fuel)
      (enough_kill : stop_kill_timeout < fuel) where
    labels-stopped :
        (e : Entry) (gone : Bool) (s : Stopping os.World)
        → labels (stopped os fuel timeout e gone s) ≡ labels s + 1
    unfolding stopped
    labels-stopped e true s = omega (arith, length-append s.report.terminated (e.file_stem ∷ []))
    labels-stopped e false s = omega (arith, length-append s.report.stale (e.file_stem ∷ []))

    dir-stopped :
        (e : Entry) (gone : Bool) (s : Stopping os.World)
        → (stopped os fuel timeout e gone s).dir ≡ remove_file e.file_name s.dir
    unfolding stopped
    dir-stopped e true s = refl
    dir-stopped e false s = refl

    world-stopped :
        (e : Entry) (gone : Bool) (s : Stopping os.World)
        → (stopped os fuel timeout e gone s).world ≡ s.world
    unfolding stopped
    world-stopped e true s = refl
    world-stopped e false s = refl

    stop_pid_file-Done :
        (e : Entry) (s : Stopping os.World)
        → IsUsable e
        → Done (e ∷ []) s (stop_pid_file os fuel timeout e s)
    unfolding stop_pid_file on_pid on_terminated
    stop_pid_file-Done e s (none, read, p) = rw read (
      refl,
      (λ pid h. cc, tt),
      rw (world-stopped e false s) here,
      dir-stopped e false s,
      labels-stopped e false s,
    )
    stop_pid_file-Done e s (some pid, read, (positive, small)) =
        let (gone, result, settled, later) =
          terminate_pid-Ended os l pid positive small fuel timeout enough enough_kill s.world in
        let s1 : Stopping os.World = record s {
          world = (terminate_pid os fuel pid timeout s.world).1;
        } in
        rw (read, result)
          (
            refl,
            (
              λ other h.
                  rw (world-stopped e gone s1)
                    (same_pid pid other s1.world (ok (some pid)) refl h settled),
              tt,
            ),
            rw (world-stopped e gone s1) later,
            dir-stopped e gone s1,
            labels-stopped e gone s1,
          )
      where
        same_pid :
            (pid other : ℕ) (w : os.World) (r : Result StopError (Option ℕ))
            → r ≡ ok (some pid)
            → r ≡ ok (some other)
            → Settled os l s.world w pid
            → Settled os l s.world w other
        same_pid pid other w r e h settled =
            let same : pid ≡ other = cc in subst (Settled os l s.world w) same settled

    stop_pid_files_next :
        (e : Entry) (es : List Entry) (s : Stopping os.World)
        → (stop_pid_file os fuel timeout e s).0 ≡ ok tt
        → stop_pid_files os fuel timeout (e ∷ es) s
          ≡ stop_pid_files os fuel timeout es (stop_pid_file os fuel timeout e s).1
    unfolding stop_pid_files
    stop_pid_files_next e es s h = rw (h, stop_pid_files) refl

    stop_pid_files-Done :
        (es : List Entry) (s : Stopping os.World)
        → All IsUsable es
        → Done es s (stop_pid_files os fuel timeout es s)
    unfolding stop_pid_files
    stop_pid_files-Done [] s h = (refl, tt, here, refl, omega arith)
    stop_pid_files-Done (e ∷ es) s h =
        let (ended, gone, later, dir, count) = stop_pid_file-Done e s h.0 in
        let s1 = (stop_pid_file os fuel timeout e s).1 in
        let r1 = stop_pid_files os fuel timeout es s1 in
        let (ended1, gone1, later1, dir1, count1) = stop_pid_files-Done es s1 h.1 in
        subst (Done (e ∷ es) s) (sym (stop_pid_files_next e es s ended)) (
          ended1,
          (
            λ pid read. Settled-later os l pid here later1 (gone.0 pid read),
            All-map (Ceased s1.world r1.1.world) (Ceased s.world r1.1.world) es
                (λ x c pid read. Settled-later os l pid later here (c pid read)) gone1,
          ),
          Reach-trans later later1,
          dir1 ∙ ap (remove_all es) dir,
          omega (arith, count, count1),
        )

    -- The process of every pid file has ceased, the pid files and the sockets are gone, and all else
    -- is there.
    abbrev pub Stopped :
        os.World → List Entry → Result StopError StopReport × Stopping os.World → Type 0
    Stopped w dir r =
        (r.0 ≡ ok r.1.report)
        × All (λ e. has_extension "pid" e ≡ true → Ceased w r.1.world e) dir
        × (r.1.dir
            ≡ keep_if (λ e. not (has_extension "sock" e))
                (keep_if (λ e. not (has_extension "pid" e)) dir))
        × (labels r.1 ≡ length (keep_if (has_extension "pid") dir))

    cleaned :
        (r : Result StopError (Unit {0}) × Stopping os.World)
        → r.0 ≡ ok tt
        → cleanup_run_dir_sockets os fuel timeout true r ≡ (
          ok r.1.report,
          record r.1 { dir = keep_if (λ e. not (has_extension "sock" e)) r.1.dir },
        )
    unfolding cleanup_run_dir_sockets
    cleaned (ok done, s) h = refl
    cleaned (err x, s) h = cc

    -- When the caller may signal the processes and no id is given out anew meanwhile, the files of the
    -- directory are as `Path` reads their names, each pid file can be read and holds nothing of use or
    -- the id of a process, and there is fuel for both waits, the call succeeds: every process that a
    -- pid file names has ended, or was sent SIGKILL and was still found by a look at least
    -- STOP_KILL_TIMEOUT later; the pid files and the sockets are gone, all else is there, and the
    -- report has a label for each pid file.
    pub stop_run_dir-Stopped :
        (le : String → String → Bool) (extension_of : String → Option String) (w : os.World)
        (dir : List Entry)
        → All (Named extension_of) dir
        → All (λ e. has_extension "pid" e ≡ true → IsUsable e) dir
        → Stopped w dir (stop_run_dir os fuel timeout le (true, true) w dir)
    unfolding stop_run_dir cleanup_run_dir_sockets
    stop_run_dir-Stopped le extension_of w dir named usable =
        let sorted = pid_files_in_run_dir le dir in
        let start : Stopping os.World = record {
          world = w;
          dir = dir;
          report = record { terminated = []; stale = [] };
        } in
        let (ended, gone, later, left, count) =
          stop_pid_files-Done sorted start (All-pid_files_in_run_dir IsUsable le dir usable) in
        let r = stop_pid_files os fuel timeout sorted start in
        subst (Stopped w dir) (sym (cleaned r ended)) (
          refl,
          pid_files_in_run_dir-All (Ceased w r.1.world) le dir gone,
          ap (keep_if (λ e. not (has_extension "sock" e)))
              (left ∙ remove_all-pid_files_in_run_dir extension_of le dir named),
          omega (arith, count, length-pid_files_in_run_dir le dir),
        )
