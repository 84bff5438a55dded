-- ===== src/Supervisor/Stop.antt =====
-- `stop_run_dir` of linux/src/supervisor.rs: the machine of a run directory is stopped by the pid
-- files in it. `libc::kill`, the clock and the sleep belong to the operating system; the files
-- are in Stop/Directory.antt. Times are in milliseconds.
pub mod Reach
pub mod Signals
pub mod Directory
pub mod Files
pub mod Stopped
mod Tests
use fend.Prelude.{
  ℕ, zero, suc, ◌-◌, ◌^◌, String, Bool, true, false, not, ◌&&◌, Option, none, some, List, [], ◌∷◌,
  ◌++◌, Result, ok, err, ltb, leb, if◌then◌else◌, keep_if, sort_by,
}
use fend.Prelude.Int.{ℤ, pos, negsuc}

-- What `kill` answers: `esrch` and `eperm` are the error codes that the code tells apart.
pub data Answer : Type 0 where
  delivered esrch eperm other : Answer

pub record Os : Type 1 where
  pub World : Type 0
  pub kill : ℤ → ℕ → World → Answer × World
  pub sleep : World → World
  pub now : World → ℕ

pub data IoError : Type 0 where
  os_error out_of_fuel : IoError

abbrev pub sigterm : ℕ
sigterm = 15

abbrev pub sigkill : ℕ
sigkill = 9

abbrev pub stop_kill_timeout : ℕ
stop_kill_timeout = 1000

-- `pid as i32`.
unfoldable pub as_i32 : ℕ → ℤ
as_i32 pid = if ltb pid (2 ^ 31) then pos pid else negsuc (2 ^ 32 - 1 - pid)

abbrev pub sent : Answer → Result IoError Bool
sent delivered = ok true
sent esrch = ok false
sent eperm = err os_error
sent other = err os_error

abbrev pub exists : Answer → Result IoError Bool
exists delivered = ok true
exists esrch = ok false
exists eperm = ok true
exists other = err os_error

-- What `terminate_pid` makes of its last wait.
abbrev pub waited_again : Result IoError Bool → Result IoError Bool
waited_again (err e) = err e
waited_again (ok gone) = ok true

module _ (os : Os) where
  unfoldable pub send_signal : ℕ → ℕ → os.World → Result IoError Bool × os.World
  unfolding as_i32
  send_signal pid signal w = let (answer, w1) = os.kill (as_i32 pid) signal w in (sent answer, w1)

  unfoldable pub process_exists : ℕ → os.World → Result IoError Bool × os.World
  unfolding as_i32
  process_exists pid w = let (answer, w1) = os.kill (as_i32 pid) 0 w in (exists answer, w1)

  -- After a look at the process: whether the time is over, and the rest of the loop.
  abbrev pub looked :
      Result IoError Bool
      → Bool
      → os.World
      → Result IoError Bool × os.World
      → Result IoError Bool × os.World
  looked (err e) late w rest = (err e, w)
  looked (ok false) late w rest = (ok true, w)
  looked (ok true) true w rest = (ok false, w)
  looked (ok true) false w rest = rest

  -- The loop, with one unit of fuel for each turn, from the time `start`.
  unfoldable pub wait_for_pid_exit : ℕ → ℕ → ℕ → ℕ → os.World → Result IoError Bool × os.World
  unfolding process_exists
  wait_for_pid_exit zero pid timeout start w = (err out_of_fuel, w)
  wait_for_pid_exit (suc n) pid timeout start w =
      let (there, w1) = process_exists pid w in
      let rest = wait_for_pid_exit n pid timeout start (os.sleep w1) in
      looked there (leb timeout (os.now w1 - start)) w1 rest

  -- What `terminate_pid` does after SIGKILL, after its first wait and after SIGTERM.
  unfoldable pub killed : ℕ → ℕ → Result IoError Bool → os.World → Result IoError Bool × os.World
  unfolding wait_for_pid_exit
  killed fuel pid (err e) w = (err e, w)
  killed fuel pid (ok false) w = (ok true, w)
  killed fuel pid (ok true) w =
      let (r, w1) = wait_for_pid_exit fuel pid stop_kill_timeout (os.now w) w in
      (waited_again r, w1)

  unfoldable pub waited : ℕ → ℕ → Result IoError Bool → os.World → Result IoError Bool × os.World
  unfolding killed send_signal
  waited fuel pid (err e) w = (err e, w)
  waited fuel pid (ok true) w = (ok true, w)
  waited fuel pid (ok false) w = let (r, w1) = send_signal pid sigkill w in killed fuel pid r w1

  unfoldable pub termed :
      ℕ → ℕ → ℕ → Result IoError Bool → os.World → Result IoError Bool × os.World
  unfolding waited wait_for_pid_exit
  termed fuel pid timeout (err e) w = (err e, w)
  termed fuel pid timeout (ok false) w = (ok false, w)
  termed fuel pid timeout (ok true) w =
      let (r, w1) = wait_for_pid_exit fuel pid timeout (os.now w) w in waited fuel pid r w1

  unfoldable pub terminate_pid : ℕ → ℕ → ℕ → os.World → Result IoError Bool × os.World
  unfolding termed send_signal
  terminate_pid fuel pid timeout w =
      let (r, w1) = send_signal pid sigterm w in termed fuel pid timeout r w1
