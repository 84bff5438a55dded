-- ===== src/Process.antt =====
-- fendd/src/process.rs: the environment of a command in the guest, and what its child process does
-- before `exec`, as the list of its system calls.
pub mod Isolation
mod Tests
use text.Mathlib.Text.{◌==◌ as str_eq}
use fend.Prelude.{
  ℕ, String, Bool, true, false, Option, none, some, List, [], ◌∷◌, ◌++◌, Result, ok, err, ◌==◌,
  if◌then◌else◌, unwrap_or, string_eq,
}
use fend.Prelude.Text.{is_empty, concat, join_with}
use fend.Prelude.Dict.{lookup, insert, remove}

-- The struct of fendd/src/protocol.rs.
pub record ExecuteCommand : Type 0 where
  pub id : ℕ
  pub cmd : String
  pub args : List String
  pub env : List (String × String)
  pub cwd : String
  pub tty : Bool

abbrev pub Env : Type 0
Env = List (String × String)

unfoldable pub prepended : Option String → List String
prepended none = []
prepended (some value) = if is_empty value then [] else value ∷ []

-- `inherited` is the guest daemon's own PATH.
unfoldable pub path_of : Option String → String → String
unfolding prepended
path_of prepend inherited = join_with ":" (
    prepended prepend
    ++ "/home/user/.local/bin" ∷ (if is_empty inherited then [] else inherited ∷ []))

-- `env.entry(key).or_insert_with(|| value)`.
unfoldable pub or_insert : String → String → Env → Env
or_insert key value env = elim (lookup key env) [ none ↦ insert key value env | some old ↦ env ]

abbrev pub home_of : ℕ → String
home_of uid = if uid == 0 then "/root" else "/home/user"

abbrev pub user_of : ℕ → String
user_of uid = if uid == 0 then "root" else "user"

unfoldable pub with_term : Bool → Env → Env
with_term false env = env
with_term true env = insert "TERM" (unwrap_or "xterm-256color" (lookup "TERM" env)) env

-- `inherited` is `PATH` of the guest daemon.
unfoldable pub build_env : Option String → ExecuteCommand → ℕ → Env
unfolding path_of or_insert with_term
build_env inherited cmd uid =
    let env = remove "FEND_TOOL_PATH_PREPEND" cmd.env in
    let path = path_of (lookup "FEND_TOOL_PATH_PREPEND" cmd.env) (unwrap_or "" inherited) in
    with_term cmd.tty (
      or_insert "COREPACK_HOME" (concat (home_of uid ∷ "/.cache/node/corepack" ∷ [])) (
        or_insert "NPM_CONFIG_CACHE" (concat (home_of uid ∷ "/.npm" ∷ []))
          (insert "USER" (user_of uid) (insert "HOME" (home_of uid) (insert "PATH" path env)))))

pub data Syscall : Type 0 where
  unshare_network no_new_privs clear_groups : Syscall
  set_gid set_uid : ℕ → Syscall
  clear_capabilities : Syscall

-- Whether a call succeeds is up to the kernel; the calls that were made, with the one that failed.
abbrev pub Calls : Type 0
Calls = Result Syscall (Unit {0}) × List Syscall

-- A call whose failure ends the function, and then the rest.
unfoldable pub call : (Syscall → Bool) → Syscall → Calls → Calls
call succeeds s rest = if succeeds s then (rest.0, s ∷ rest.1) else (err s, s ∷ [])

-- The result of `capset` is not looked at.
unfoldable pub drop_root : (Syscall → Bool) → ℕ → ℕ → Calls
unfolding call
drop_root succeeds uid gid = call succeeds no_new_privs (
    call succeeds clear_groups
      (call succeeds (set_gid gid) (call succeeds (set_uid uid) (ok tt, clear_capabilities ∷ []))))

unfoldable pub is_off : Option String → Bool
is_off none = false
is_off (some mode) = str_eq mode "off"

-- `apply_network_policy`, then `drop_root`.
unfoldable pub prepare_child : (Syscall → Bool) → Option String → ℕ → ℕ → Calls
unfolding is_off call
prepare_child succeeds mode uid gid =
    if is_off mode
    then call succeeds unshare_network (drop_root succeeds uid gid)
    else drop_root succeeds uid gid

-- What `spawn` and `spawn_pty` run before `exec`, for the owner of the working directory.
unfoldable pub pre_exec : (Syscall → Bool) → Option String → ExecuteCommand → ℕ → ℕ → Calls
pre_exec succeeds inherited cmd uid gid =
    prepare_child succeeds (lookup "FEND_NETWORK_MODE" (build_env inherited cmd uid)) uid gid
