-- ===== src/Supervisor/Cleanup.antt =====
-- What the cleanup of the error paths of `launch_plan` leaves alive.
use fend.Prelude.{
  ℕ, suc, ◌≤◌, ◌≡◌, refl, String, Bool, true, false, List, [], ◌∷◌, ◌++◌, ◌==◌, if◌then◌else◌,
  string_eq, arith,
}
use fend.Supervisor.{
  Host, cleanup_child, cleanup_children, remove_file, cleanup_sockets, cleanup_pid_files, Started,
  undo,
}

abbrev pub one_of : ℕ → List ℕ → Bool
one_of i [] = false
one_of i (c ∷ cs) = if i == c then true else one_of i cs

pub one_of-append :
    (i : ℕ) (cs : List ℕ) (c : ℕ) → one_of i (cs ++ c ∷ []) ≡ (if i == c then true else one_of i cs)
one_of-append i [] c = refl
one_of-append i (d ∷ cs) c = ground (arith, one_of-append i cs c)

pub cleanup_children-alive :
    (cs : List ℕ) (h : Host) (i : ℕ)
    → (cleanup_children cs h).alive i ≡ (if one_of i cs then false else h.alive i)
unfolding cleanup_children cleanup_child
cleanup_children-alive [] h i = refl
cleanup_children-alive (c ∷ cs) h i =
    ground (arith, cleanup_children-alive cs (cleanup_child c h) i)

pub cleanup_sockets-alive :
    (ss : List String) (h : Host) (i : ℕ) → (cleanup_sockets ss h).alive i ≡ h.alive i
unfolding cleanup_sockets remove_file
cleanup_sockets-alive [] h i = refl
cleanup_sockets-alive (s ∷ ss) h i = cleanup_sockets-alive ss (remove_file s h) i

pub cleanup_pid_files-alive :
    (ps : List String) (h : Host) (i : ℕ) → (cleanup_pid_files ps h).alive i ≡ h.alive i
unfolding cleanup_pid_files remove_file
cleanup_pid_files-alive [] h i = refl
cleanup_pid_files-alive (p ∷ ps) h i = cleanup_pid_files-alive ps (remove_file p h) i

pub undo-alive :
    (s : Started) (h : Host) (i : ℕ)
    → (undo s h).alive i ≡ (if one_of i s.virtiofsd then false else h.alive i)
unfolding undo
undo-alive s h i =
    rw
      (
        cleanup_sockets-alive s.sockets
            (cleanup_children s.virtiofsd (cleanup_pid_files s.pid_files h)) i,
        cleanup_children-alive s.virtiofsd (cleanup_pid_files s.pid_files h) i,
        cleanup_pid_files-alive s.pid_files h i,
      )
      refl

-- No process has an id that is still to be given out.
abbrev pub Fresh : Host → Type 0
Fresh h = (i : ℕ) → h.next_id ≤ i → h.alive i ≡ false

-- On the host `h`, exactly the children in `s` have been started since the host was `h0`.
pub record Since (h0 : Host) (s : Started) (h : Host) : Type 0 where
  pub alive_now : (i : ℕ) → h.alive i ≡ (if one_of i s.virtiofsd then true else h0.alive i)
  pub ids_new : (i : ℕ) → one_of i s.virtiofsd ≡ true → h0.next_id ≤ i
  pub ids_given : h0.next_id ≤ h.next_id

abbrev pub Same : Host → Host → Type 0
Same h0 h = (i : ℕ) → h.alive i ≡ h0.alive i

-- The children that were started are gone, and with them a last one, if there is one.
pub undo-Same :
    (s : Started) (h0 h : Host)
    → Fresh h0
    → Since h0 s h
    → Same h0 (cleanup_children s.virtiofsd (cleanup_pid_files s.pid_files h)) × Same h0 (undo s h)
undo-Same s h0 h fresh v = (
  λ i. ground (
    arith,
    cleanup_children-alive s.virtiofsd (cleanup_pid_files s.pid_files h) i,
    cleanup_pid_files-alive s.pid_files h i,
    v.alive_now i,
    v.ids_new i,
    fresh i,
  ),
  λ i. ground (arith, undo-alive s h i, v.alive_now i, v.ids_new i, fresh i),
)

pub last-Same :
    (s : Started) (h0 h h1 : Host)
    → Fresh h0
    → Since h0 s h
    → ((i : ℕ) → h1.alive i ≡ (if i == h.next_id then true else h.alive i))
    → Same h0 (undo s (cleanup_child h.next_id h1))
unfolding cleanup_child
last-Same s h0 h h1 fresh v spawned = λ i. ground (
  arith,
  undo-alive s (cleanup_child h.next_id h1) i,
  spawned i,
  v.alive_now i,
  v.ids_new i,
  v.ids_given,
  fresh i,
)

pub next-Since :
    (s : Started) (socket pid_file : String) (h0 h h1 : Host)
    → Since h0 s h
    → ((i : ℕ) → h1.alive i ≡ (if i == h.next_id then true else h.alive i))
    → h1.next_id ≡ suc h.next_id
    → Since h0
        (record {
          virtiofsd = s.virtiofsd ++ h.next_id ∷ [];
          sockets = s.sockets ++ socket ∷ [];
          pid_files = s.pid_files ++ pid_file ∷ [];
        })
        h1
next-Since s socket pid_file h0 h h1 v spawned id = record {
  alive_now = λ i. ground (arith, one_of-append i s.virtiofsd h.next_id, spawned i, v.alive_now i);
  ids_new = λ i. ground (arith, one_of-append i s.virtiofsd h.next_id, v.ids_new i, v.ids_given);
  ids_given = omega (arith, v.ids_given);
}
