-- ===== src/Daemon/Serving.antt =====
-- What serving one connection does to the sessions of the pool.
use fend.Prelude.{
  ◌⊎◌, inl, inr, ℕ, ◌+◌, ◌-◌, ◌≡◌, refl, ap, ◌∙◌, true, false, String, Result, ok, err,
}
use fend.Ipc.{protocol_version, VmConfig, Request}
use fend.Vm.{VmPool, EnsureOutcome, PoolError}
use fend.Pool.{ensure}
use fend.Pool.Invariant.{Inv}
use fend.Pool.Counts.{sessions, one_for, release-sessions}
use fend.Pool.Sessions.{first_section, ensure-sessions}
use fend.Daemon.{
  World, Peer, Daemon, ConnectionError, key_of, write_then, serve_session, handle_request,
  handle_connection,
}

module _ (w : World) (config : VmConfig) (now : ℕ) (d : Daemon) (q : VmPool) (out : EnsureOutcome)
    (v : Inv d.pool)
    (granted : ensure w.meanwhile w.canonicalize w.hash w.boot config now d.pool
      ≡ (ok out, q)) where
  abbrev asks : Result ConnectionError Request
  asks = ok (Request.ensure_vm protocol_version config)

  -- The pool after the first section of the request.
  abbrev first : VmPool
  first = first_section w.meanwhile w.canonicalize w.hash w.boot config now d.pool

  -- What `handle_connection` comes to, for a session that is granted.
  served_lem :
      (peer : Peer)
      → peer.request ≡ asks
      → handle_connection w peer now d
        ≡ serve_session w peer config (record d { pool = q }) (ok out)
  unfolding handle_connection handle_request
  served_lem peer asked =
      rw (asked, handle_connection)
        (ap
          (λ (r : Result PoolError EnsureOutcome × VmPool).
            serve_session w peer config (record d { pool = r.1 }) r.0)
          granted)

  -- On a pool whose invariant holds, and whatever the other threads do to the pool during the boot
  -- and during the session: a connection whose session is granted, that is told so and that closes,
  -- adds one session to its project at its start and none to another, changes no count at the end of
  -- a boot, takes one session from its project at its close, if one is left and the path is still that
  -- of the project, and none from another, and ends without an error.
  pub handle_connection_balanced :
      (peer : Peer) (k : String)
      → peer.request ≡ asks
      → peer.write ≡ ok tt
      → peer.canonicalize_at_close config.project ≡ w.canonicalize config.project
      → ((handle_connection w peer now d).0 ≡ ok tt)
        × (sessions k first ≡ sessions k d.pool + one_for (key_of w config.project) k)
        × (((out.booted ≡ false) × (q ≡ first))
            ⊎ ((out.booted ≡ true) × (sessions k q ≡ sessions k (w.meanwhile first))))
        × (sessions k (handle_connection w peer now d).1.pool
            ≡ sessions k (peer.during q) - one_for (key_of w config.project) k)
  unfolding serve_session write_then key_of
  handle_connection_balanced peer k asked written place =
      let (counted, second) =
        ensure-sessions w.meanwhile w.canonicalize w.hash w.boot config now d.pool k q out v
          granted in
      rw (served_lem peer asked, serve_session, written, place)
        (
          refl,
          counted,
          second,
          release-sessions (key_of w config.project) k peer.closes (peer.during q),
        )

  -- On a pool whose invariant holds: when a session is granted and `VmReady` cannot be written to
  -- the peer, the connection ends with the error of the write, and its session stays counted, where
  -- the other threads leave the count as it is during the boot.
  pub handle_connection_leak :
      (peer : Peer) (e : ConnectionError) (k : String)
      → peer.request ≡ asks
      → peer.write ≡ err e
      → ((r : VmPool) → sessions k (w.meanwhile r) ≡ sessions k r)
      → ((handle_connection w peer now d).0 ≡ err e)
        × (sessions k (handle_connection w peer now d).1.pool
            ≡ sessions k d.pool + one_for (key_of w config.project) k)
  unfolding serve_session write_then key_of
  handle_connection_leak peer e k asked failed quiet =
      let (counted, second) =
        ensure-sessions w.meanwhile w.canonicalize w.hash w.boot config now d.pool k q out v
          granted in
      let kept : sessions k q ≡ sessions k first = elim second [
        | inl (there, same) ↦ ap (sessions k) same
        | inr (booted, same) ↦ same ∙ quiet first
      ] in
      rw (served_lem peer asked, serve_session, failed) (refl, kept ∙ counted)
