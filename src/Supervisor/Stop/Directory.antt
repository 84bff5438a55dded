-- ===== src/Supervisor/Stop/Directory.antt =====
-- The files of a run directory and the loop of `stop_run_dir` over the pid files. A directory is the
-- list of its files.
use text.Mathlib.Text.{◌==◌ as str_eq}
use fend.Prelude.{
  ℕ, String, Bool, true, false, not, ◌&&◌, Option, none, some, List, [], ◌∷◌, ◌++◌, Result, ok, err,
  if◌then◌else◌, keep_if, sort_by,
}
use fend.Prelude.Words.{trim}
use fend.Cli.Numbers.{parse_unsigned, u32_max}
use fend.Supervisor.Stop.{Os, IoError, terminate_pid}

-- A file, with what `Path` says of its name, and its contents if they can be read.
pub record Entry : Type 0 where
  pub file_name : String
  pub file_stem : String
  pub extension : Option String
  pub contents : Option String

abbrev pub is_some_of : String → Option String → Bool
is_some_of text none = false
is_some_of text (some value) = str_eq value text

abbrev pub has_extension : String → Entry → Bool
has_extension text e = is_some_of text e.extension

-- `le` is the order of names.
unfoldable pub stop_order : (String → String → Bool) → Entry → Entry → Bool
stop_order le a b =
    if str_eq a.file_name "qemu.pid"
    then true
    else not (str_eq b.file_name "qemu.pid") && le a.file_name b.file_name

unfoldable pub pid_files_in_run_dir : (String → String → Bool) → List Entry → List Entry
unfolding sort_by stop_order
pid_files_in_run_dir le dir = sort_by (stop_order le) (keep_if (has_extension "pid") dir)

pub data StopError : Type 0 where
  read_run_directory : StopError
  read_pid_file_failed stop_process : String → StopError

unfoldable pub read_pid_file : Entry → Result StopError (Option ℕ)
unfolding trim parse_unsigned
read_pid_file e = elim e.contents [
  | none ↦ err (read_pid_file_failed e.file_name)
  | some contents ↦ ok (parse_unsigned u32_max (trim contents))
]

pub record StopReport : Type 0 where
  pub terminated : List String
  pub stale : List String

unfoldable pub remove_file : String → List Entry → List Entry
remove_file name dir = keep_if (λ e. not (str_eq e.file_name name)) dir

pub record Stopping (W : Type 0) : Type 0 where
  pub world : W
  pub dir : List Entry
  pub report : StopReport

module _ (os : Os) (fuel timeout : ℕ) where
  -- The end of a turn, with the file's label in the one list or the other.
  unfoldable pub stopped : Entry → Bool → Stopping os.World → Stopping os.World
  unfolding remove_file
  stopped e true s = record s {
    dir = remove_file e.file_name s.dir;
    report = record s.report { terminated = s.report.terminated ++ e.file_stem ∷ [] };
  }
  stopped e false s = record s {
    dir = remove_file e.file_name s.dir;
    report = record s.report { stale = s.report.stale ++ e.file_stem ∷ [] };
  }

  unfoldable pub on_terminated :
      Entry
      → Result IoError Bool
      → Stopping os.World
      → Result StopError (Unit {0}) × Stopping os.World
  unfolding stopped
  on_terminated e (err x) s = (err (stop_process e.file_name), s)
  on_terminated e (ok gone) s = (ok tt, stopped e gone s)

  unfoldable pub on_pid :
      Entry
      → Result StopError (Option ℕ)
      → Stopping os.World
      → Result StopError (Unit {0}) × Stopping os.World
  unfolding on_terminated terminate_pid
  on_pid e (err x) s = (err x, s)
  on_pid e (ok none) s = (ok tt, stopped e false s)
  on_pid e (ok (some pid)) s =
      let (r, w) = terminate_pid os fuel pid timeout s.world in
      on_terminated e r (record s { world = w })

  unfoldable pub stop_pid_file :
      Entry → Stopping os.World → Result StopError (Unit {0}) × Stopping os.World
  unfolding on_pid read_pid_file
  stop_pid_file e s = on_pid e (read_pid_file e) s

  unfoldable pub stop_pid_files :
      List Entry → Stopping os.World → Result StopError (Unit {0}) × Stopping os.World
  unfolding stop_pid_file
  stop_pid_files [] s = (ok tt, s)
  stop_pid_files (e ∷ es) s =
      let (r, s1) = stop_pid_file e s in
      elim r [ err x ↦ (err x, s1) | ok done ↦ stop_pid_files es s1 ]

  -- `readable` tells whether the directory can be read, each of the two times.
  unfoldable pub cleanup_run_dir_sockets :
      Bool
      → Result StopError (Unit {0}) × Stopping os.World
      → Result StopError StopReport × Stopping os.World
  cleanup_run_dir_sockets readable (err x, s) = (err x, s)
  cleanup_run_dir_sockets false (ok done, s) = (err read_run_directory, s)
  cleanup_run_dir_sockets true (ok done, s) =
      (ok s.report, record s { dir = keep_if (λ e. not (has_extension "sock" e)) s.dir })

  unfoldable pub stop_run_dir :
      (String → String → Bool)
      → Bool × Bool
      → os.World
      → List Entry
      → Result StopError StopReport × Stopping os.World
  unfolding stop_pid_files pid_files_in_run_dir cleanup_run_dir_sockets
  stop_run_dir le (first, second) w dir =
      let s : Stopping os.World = record {
        world = w;
        dir = dir;
        report = record { terminated = []; stale = [] };
      } in
      if first
      then cleanup_run_dir_sockets second (stop_pid_files (pid_files_in_run_dir le dir) s)
      else (err read_run_directory, s)
