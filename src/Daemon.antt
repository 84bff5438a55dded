-- ===== src/Daemon.antt =====
-- linux/src/daemon.rs: what the daemon does with one connection, with the reaper and with its own
-- start; and where linux/src/ipc.rs puts the socket and the state.
pub mod Serving
pub mod Reaper
mod Tests
use fend.Prelude.{
  ℕ, suc, ◌+◌, String, Bool, true, false, Option, none, some, List, [], ◌∷◌, ◌++◌, Result, ok, err,
  unwrap_or, leb, ◌==◌, ◌||◌, if◌then◌else◌, length,
}
use fend.Prelude.Text.{concat, join, show}
use fend.Ipc.{
  protocol_version, VmConfig, project_key, Request, Response, vm_ready, stopped, shutting_down,
  error,
}
use fend.Vm.{VmPool, VmProcess, VmEntry, PoolError, EnsureOutcome}
use fend.Pool.{ensure, release, stop, status, reap}

-- The kinds of `io::Error` on a connection.
pub data ConnectionError : Type 0 where
  unexpected_eof connection_reset broken_pipe invalid_data other : ConnectionError

unfoldable pub is_normal_close : ConnectionError → Bool
is_normal_close unexpected_eof = true
is_normal_close connection_reset = true
is_normal_close broken_pipe = true
is_normal_close invalid_data = false
is_normal_close other = false

-- What is outside the daemon's own code: the file system, the standard library's hash, the text of
-- an error, the launch of a VM, the order of paths, and what the other threads do to the pool
-- during a boot.
pub record World : Type 0 where
  pub canonicalize : String → Option String
  pub hash : String → ℕ
  pub to_string : PoolError → String
  pub boot : String → ℕ → String → Result PoolError VmProcess
  pub path_le : String → String → Bool
  pub meanwhile : VmPool → VmPool

-- The peer of one connection: what its first message reads as, how a write to it ends, and, for its
-- session, when it closes, what the other threads have done to the pool by then, and what
-- `canonicalize` says then.
pub record Peer : Type 0 where
  pub request : Result ConnectionError Request
  pub write : Result ConnectionError (Unit {0})
  pub closes : ℕ
  pub during : VmPool → VmPool
  pub canonicalize_at_close : String → Option String

pub record Daemon : Type 0 where
  pub pool : VmPool
  pub shutdown : Bool
  pub sent : List Response

-- The key that `release` and `stop` of the pool look under.
unfoldable pub key_of : World → String → String
key_of w path = project_key w.hash (unwrap_or path (w.canonicalize path))

abbrev pub Outcome : Type 0
Outcome = Result ConnectionError (Unit {0}) × Daemon

-- `ipc::write_message`, then what follows it when it has succeeded: `?`.
unfoldable pub write_then : Peer → Response → Daemon → (Daemon → Outcome) → Outcome
write_then peer response d next = elim peer.write [
  | err e ↦ (err e, d)
  | ok _ ↦ next (record d { sent = d.sent ++ response ∷ [] })
]

abbrev pub done : Daemon → Outcome
done d = (ok tt, d)

-- The two arms on what `pool.ensure` gave. The session ends when the peer closes.
unfoldable pub serve_session :
    World → Peer → VmConfig → Daemon → Result PoolError EnsureOutcome → Outcome
unfolding write_then key_of
serve_session w peer config d (ok outcome) =
    write_then peer (vm_ready outcome.cid outcome.run_dir outcome.booted) d (λ d1.
      let path = unwrap_or config.project (peer.canonicalize_at_close config.project) in
      done
        (record d1 { pool = release (project_key w.hash path) peer.closes (peer.during d1.pool) }))
serve_session w peer config d (err e) = write_then peer (error (w.to_string e)) d done

unfoldable pub handle_request : World → Peer → ℕ → Request → Daemon → Outcome
unfolding serve_session write_then key_of
handle_request w peer now (Request.ensure_vm version config) d =
    if version == protocol_version
    then (let (r, pool) = ensure w.meanwhile w.canonicalize w.hash w.boot config now d.pool in
        serve_session w peer config (record d { pool = pool }) r)
    else write_then peer
        (error (
          concat (
            "protocol version mismatch: daemon="
            ∷ show protocol_version
            ∷ ", client="
            ∷ show version
            ∷ [])))
        d done
handle_request w peer now (Request.stop project) d =
    let (removed, pool) =
      stop (elim project [ none ↦ none | some path ↦ some (key_of w path) ]) d.pool in
    write_then peer (stopped (length removed)) (record d { pool = pool }) done
handle_request w peer now Request.status d =
    write_then peer (Response.status (status w.path_le now d.pool)) d done
handle_request w peer now Request.shutdown d =
    write_then peer shutting_down d (λ d1. done (record d1 { shutdown = true }))

unfoldable pub handle_connection : World → Peer → ℕ → Daemon → Outcome
unfolding handle_request
handle_connection w peer now d = elim peer.request [
  | err e ↦ (err e, d)
  | ok request ↦ handle_request w peer now request d
]

-- One turn of the loop of `run_reaper`, times in milliseconds: the time since the last reaping and
-- the pool after it.
unfoldable pub reaper_turn : ℕ → ℕ → ℕ → VmPool → ℕ × VmPool
reaper_turn interval elapsed now pool =
    if leb interval (elapsed + 200) then (0, (reap now pool).1) else (elapsed + 200, pool)

-- `run_reaper` for as many turns as clock readings, while no shutdown is asked for and nobody else
-- holds the pool: `interval` is the time between two reapings.
unfoldable pub run_reaper : ℕ → ℕ → List ℕ → VmPool → VmPool
unfolding reaper_turn
run_reaper interval elapsed [] pool = pool
run_reaper interval elapsed (now ∷ later) pool =
    let (elapsed', pool') = reaper_turn interval elapsed now pool in
    run_reaper interval elapsed' later pool'

unfoldable pub default_socket_path :
    Option String → Option String → Option String → Option String → ℕ → String
default_socket_path (some path) xdg fend_home home uid = path
default_socket_path none (some xdg) fend_home home uid = join (join xdg "fend") "daemon.sock"
default_socket_path none none (some fend_home) home uid = join (join fend_home "run") "daemon.sock"
default_socket_path none none none (some home) uid =
    join (join (join home ".fend") "run") "daemon.sock"
default_socket_path none none none none uid = concat ("/tmp/fend-" ∷ show uid ∷ "/daemon.sock" ∷ [])

unfoldable pub default_state_dir :
    Option String → Option String → Option String → Option String → ℕ → String
default_state_dir (some path) xdg fend_home home uid = path
default_state_dir none (some xdg) fend_home home uid = join xdg "fend"
default_state_dir none none (some fend_home) home uid = join fend_home "run"
default_state_dir none none none (some home) uid = join (join home ".fend") "run"
default_state_dir none none none none uid = concat ("/tmp/fend-" ∷ show uid ∷ [])
