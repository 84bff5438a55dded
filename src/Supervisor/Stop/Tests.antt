-- ===== src/Supervisor/Stop/Tests.antt =====
-- A host with one process, 41, which ignores SIGTERM, and a directory with two pid files.
use text.Mathlib.Text.{◌==◌ as str_eq}
use fend.Prelude.{
  ℕ, ◌+◌, ◌≡◌, refl, String, Bool, true, false, ◌&&◌, Option, none, some, List, [], ◌∷◌, ◌==◌,
  if◌then◌else◌, All, arith,
}
use fend.Prelude.Int.{ℤ, pos, negsuc}
use fend.Prelude.Words.{trim, trim_start_matches, trim_end_matches}
use fend.Cli.Numbers.{parse_unsigned, digits, digits_from}
use fend.Supervisor.Stop.{Os, delivered, esrch, as_i32}
use fend.Supervisor.Stop.Directory.{
  Entry, has_extension, read_pid_file, stop_order, pid_files_in_run_dir, stop_run_dir,
}
use fend.Supervisor.Stop.Reach.{Lawful}
use fend.Supervisor.Stop.Stopped.{IsUsable, Stopped, stop_run_dir-Stopped}

-- Whether the process is alive, and the clock.
abbrev Small : Type 0
Small = Bool × ℕ

abbrev is_41 : ℤ → Bool
is_41 (pos n) = n == 41
is_41 (negsuc n) = false

abbrev small : Os
small = record {
  World = Small;
  kill = λ target signal w. (
    if w.0 && is_41 target then delivered else esrch,
    (if is_41 target && signal == 9 then false else w.0, w.1),
  );
  sleep = λ w. (w.0, w.1 + 50);
  now = λ w. w.1;
}

small-Lawful : Lawful small
small-Lawful = record {
  alive = λ w q. w.0 && q == 41;
  answers = λ pid signal w h. refl;
  kill_dead = λ pid signal q w h d. ground arith;
  sleep_dead = λ q w d. d;
  kill_now = λ pid signal w h. omega arith;
  sleep_now = λ w. omega arith;
}

abbrev file : String → String → String → String → Entry
file name stem ext text = record {
  file_name = name;
  file_stem = stem;
  extension = some ext;
  contents = some text;
}

abbrev dir : List Entry
dir =
    file "a.pid" "a" "pid" "x"
    ∷ file "qemu.pid" "qemu" "pid" "41\n"
    ∷ file "a.sock" "a" "sock" ""
    ∷ file "a.log" "a" "log" "started"
    ∷ []

abbrev extension_of : String → Option String
extension_of name =
    if str_eq name "a.sock"
    then some "sock"
    else if str_eq name "a.log"
    then some "log"
    else some "pid"

dir-IsUsable : All (λ e. has_extension "pid" e ≡ true → IsUsable e) dir
unfolding read_pid_file trim trim_start_matches trim_end_matches parse_unsigned digits digits_from
dir-IsUsable = (
  λ h. (none, refl, tt),
  (λ h. (some 41, refl, (omega arith, omega arith)), (λ h. cc, (λ h. cc, tt))),
)

stop_run_dir-Stopped_example :
    Stopped small small-Lawful 5001 5000
      (omega arith)
      (omega arith)
      (true, 0)
      dir
      (stop_run_dir small 5001 5000 (λ a b. true) (true, true) (true, 0) dir)
stop_run_dir-Stopped_example =
    stop_run_dir-Stopped small small-Lawful 5001 5000 (omega arith) (omega arith) (λ a b. true)
      extension_of (true, 0) dir (refl, (refl, (refl, (refl, tt)))) dir-IsUsable

-- The machine is the first to be stopped.
qemu_first :
    pid_files_in_run_dir (λ a b. true) dir
    ≡ file "qemu.pid" "qemu" "pid" "41\n" ∷ file "a.pid" "a" "pid" "x" ∷ []
unfolding pid_files_in_run_dir stop_order
qemu_first = refl

-- An id that is past the processes names every process there is, and the id 0 the own group.
as_i32_edges : (as_i32 4294967295 ≡ negsuc 0) × (as_i32 0 ≡ pos 0)
unfolding as_i32
as_i32_edges = (refl, refl)
