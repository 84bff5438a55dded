-- ===== src/Process/Isolation.antt =====
-- The command runs only with its privileges dropped, and without a network when that was asked for.
use fend.Prelude.{ℕ, ◌≡◌, String, Bool, Option, List, [], ◌∷◌, ok, if◌then◌else◌, arith}
use fend.Runtime.Machine.{Machine}
use fend.Process.{
  Syscall, unshare_network, no_new_privs, clear_groups, set_gid, set_uid, clear_capabilities, call,
  drop_root, is_off, prepare_child,
}

abbrev pub dropped : ℕ → ℕ → List Syscall
dropped uid gid = no_new_privs ∷ clear_groups ∷ set_gid gid ∷ set_uid uid ∷ clear_capabilities ∷ []

drop_root_ok :
    (succeeds : Syscall → Bool) (uid gid : ℕ)
    → (drop_root succeeds uid gid).0 ≡ ok tt
    → (drop_root succeeds uid gid).1 ≡ dropped uid gid
unfolding drop_root call
drop_root_ok succeeds uid gid done = ground arith

-- When `prepare_child` lets the command run, every call that drops the privileges was made, the
-- groups and the group before the user, and the network was cut off before them exactly if the
-- mode is `off`.
pub prepare_child_ok :
    (succeeds : Syscall → Bool) (mode : Option String) (uid gid : ℕ)
    → (prepare_child succeeds mode uid gid).0 ≡ ok tt
    → (prepare_child succeeds mode uid gid).1
      ≡ (if is_off mode then unshare_network ∷ dropped uid gid else dropped uid gid)
unfolding prepare_child call
prepare_child_ok succeeds mode uid gid done = ground (arith, drop_root_ok succeeds uid gid)

abbrev mode_key : String
mode_key = "FEND_NETWORK_MODE"
