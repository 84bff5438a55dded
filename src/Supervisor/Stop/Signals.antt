-- ===== src/Supervisor/Stop/Signals.antt =====
-- After `terminate_pid` the process has ended, or has outlasted SIGKILL by the time that is allowed.
use fend.Prelude.{
  ◌⊎◌, ℕ, zero, suc, ◌+◌, ◌-◌, ◌≤◌, ◌<◌, ◌^◌, ◌≡◌, refl, sym, subst, ◌∙◌, Bool, true, false, Result,
  ok, leb, if◌then◌else◌, Bool-cases, inl, inr, arith,
}
use fend.Prelude.Int.{pos}
use fend.Supervisor.Stop.Reach.{
  Lawful, Reach, here, signalled, slept, Reach-trans, Reach-dead, Settled, Settled-later,
}
use fend.Supervisor.Stop.{
  Os, delivered, esrch, IoError, sigterm, sigkill, stop_kill_timeout, as_i32, send_signal,
  process_exists, wait_for_pid_exit, waited_again, killed, waited, termed, terminate_pid,
}

module _ (os : Os) (l : Lawful os) (pid : ℕ) (positive : 0 < pid) (small : pid < 2 ^ 31) where
  as_i32_lem : as_i32 pid ≡ pos pid
  unfolding as_i32
  as_i32_lem = ground arith

  answered :
      (signal : ℕ) (w : os.World)
      → (os.kill (as_i32 pid) signal w).0 ≡ (if l.alive w pid then delivered else esrch)
  answered signal w = rw as_i32_lem (l.answers pid signal w positive)

  reached : (signal : ℕ) (w : os.World) → Reach os w (os.kill (as_i32 pid) signal w).1
  reached signal w = rw as_i32_lem (signalled pid signal positive here)

  after : (signal : ℕ) (w : os.World) → os.now w ≤ os.now (os.kill (as_i32 pid) signal w).1
  after signal w = rw as_i32_lem (l.kill_now pid signal w positive)

  -- A look at the time `limit` or later that found the process.
  Found : ℕ → os.World → os.World → Type 0
  Found limit w final =
      (u : os.World) × Reach os w u
      × (l.alive u pid ≡ true)
      × (limit ≤ os.now (os.kill (pos pid) 0 u).1)
      × Reach os (os.kill (pos pid) 0 u).1 final

  -- The wait ends: with the process gone if it says so, else after a look when it was time.
  Waited : ℕ → os.World → Result IoError Bool × os.World → Type 0
  Waited limit w r =
      (((r.0 ≡ ok true) × (l.alive r.1 pid ≡ false)) ⊎ ((r.0 ≡ ok false) × Found limit w r.1))
      × Reach os w r.1

  Found-now :
      (limit : ℕ) (w : os.World)
      → l.alive w pid ≡ true
      → limit ≤ os.now (os.kill (as_i32 pid) 0 w).1
      → Found limit w (os.kill (as_i32 pid) 0 w).1
  unfolding Found
  Found-now limit w there late = (
    w,
    here,
    there,
    subst (λ target. limit ≤ os.now (os.kill target 0 w).1) as_i32_lem late,
    subst (λ target. Reach os (os.kill (pos pid) 0 w).1 (os.kill target 0 w).1) (sym as_i32_lem)
        here,
  )

  Waited-longer :
      (limit : ℕ) (w w' : os.World) (r : Result IoError Bool × os.World)
      → Reach os w w'
      → Waited limit w' r
      → Waited limit w r
  unfolding Waited Found
  Waited-longer limit w w' r before (inl gone, later) = (inl gone, Reach-trans before later)
  Waited-longer limit w w' r before (inr (late, (u, to, there, time, from)), later) =
      (inr (late, (u, Reach-trans before to, there, time, from)), Reach-trans before later)

  wait_for_pid_exit-Waited :
      (n timeout start : ℕ) (w : os.World)
      → 0 < n
      → start ≤ os.now w
      → timeout + start < n + os.now w
      → Waited (start + timeout) w (wait_for_pid_exit os n pid timeout start w)
  unfolding wait_for_pid_exit process_exists Waited
  wait_for_pid_exit-Waited zero timeout start w h _ _ = absurd (omega (arith, h))
  wait_for_pid_exit-Waited (suc n) timeout start w h begun enough =
      elim (Bool-cases (l.alive w pid)) [
        | inr dead ↦
            rw (answered 0 w, dead)
              (inl (refl, Reach-dead os l pid (reached 0 w) dead), reached 0 w)
        | inl alive ↦
            let w1 = (os.kill (as_i32 pid) 0 w).1 in
            elim (Bool-cases (leb timeout (os.now w1 - start))) [
              | inl late ↦
                  let now_w1 = after 0 w in
                  let time : start + timeout ≤ os.now w1 = ground arith in
                  rw (answered 0 w, alive, late)
                    (inr (refl, Found-now (start + timeout) w alive time), reached 0 w)
              | inr early ↦
                  let now_w1 = after 0 w in
                  let now_w2 = l.sleep_now w1 in
                  let soon : os.now w1 < timeout + start = ground arith in
                  let rest =
                    wait_for_pid_exit-Waited n timeout start (os.sleep w1) (omega arith)
                      (omega arith) (omega arith) in
                  rw (answered 0 w, alive, early)
                    (Waited-longer (start + timeout) w (os.sleep w1) _ (slept (reached 0 w)) rest)
            ]
      ]

  abbrev pub Ended : os.World → Result IoError Bool × os.World → Type 0
  Ended w r = (gone : Bool) × (r.0 ≡ ok gone) × Settled os l w r.1 pid × Reach os w r.1

  module _ (fuel timeout : ℕ) (enough : timeout < fuel)
      (enough_kill : stop_kill_timeout < fuel) where
    after_kill-Ended :
        (w : os.World) (r : Result IoError Bool × os.World)
        → (os.kill (pos pid) sigkill w).0 ≡ delivered
        → Waited
            (os.now (os.kill (pos pid) sigkill w).1 + stop_kill_timeout)
            (os.kill (pos pid) sigkill w).1
            r
        → Ended w (waited_again r.0, r.1)
    unfolding Waited Found
    after_kill-Ended w r sent (inl (gone, dead), later) =
        (true, rw gone refl, inl dead, Reach-trans (signalled pid sigkill positive here) later)
    after_kill-Ended w r sent (inr (late, (u, to, there, time, from)), later) = (
      true,
      rw late refl,
      inr (w, u, here, sent, to, there, time, from),
      Reach-trans (signalled pid sigkill positive here) later,
    )

    killed-Ended :
        (w : os.World)
        → (os.kill (pos pid) sigkill w).0 ≡ delivered
        → Ended w (killed os fuel pid (ok true) (os.kill (pos pid) sigkill w).1)
    unfolding killed
    killed-Ended w sent =
        let w1 = (os.kill (pos pid) sigkill w).1 in
        after_kill-Ended w (wait_for_pid_exit os fuel pid stop_kill_timeout (os.now w1) w1) sent (
          wait_for_pid_exit-Waited fuel stop_kill_timeout (os.now w1) w1 (omega arith) (omega arith)
            (omega arith))

    waited-Ended : (w : os.World) → Ended w (waited os fuel pid (ok false) w)
    unfolding waited send_signal killed
    waited-Ended w = elim (Bool-cases (l.alive w pid)) [
      | inr dead ↦
          rw (answered sigkill w, dead)
            (true, refl, inl (Reach-dead os l pid (reached sigkill w) dead), reached sigkill w)
      | inl alive ↦
          let sent : (os.kill (pos pid) sigkill w).0 ≡ delivered =
            l.answers pid sigkill w positive ∙ rw alive refl in
          rw (as_i32_lem, sent) (killed-Ended w sent)
    ]

    waited_all-Ended :
        (limit : ℕ) (w : os.World) (r : Result IoError Bool × os.World)
        → Waited limit w r
        → Ended w (waited os fuel pid r.0 r.1)
    unfolding waited Waited
    waited_all-Ended limit w r (inl (gone, dead), later) = rw gone (true, refl, inl dead, later)
    waited_all-Ended limit w r (inr (late, found), later) =
        let (gone, result, settled, later2) = waited-Ended r.1 in
        rw late (gone, result, Settled-later os l pid later here settled, Reach-trans later later2)

    termed-Ended : (w : os.World) → Ended w (termed os fuel pid timeout (ok true) w)
    unfolding termed
    termed-Ended w =
        waited_all-Ended (os.now w + timeout) w (wait_for_pid_exit os fuel pid timeout (os.now w) w)
          (wait_for_pid_exit-Waited fuel timeout (os.now w) w (omega arith) (omega arith)
            (omega arith))

    -- The call succeeds. The process has ended, or it has outlasted SIGKILL by the time allowed.
    pub terminate_pid-Ended : (w : os.World) → Ended w (terminate_pid os fuel pid timeout w)
    unfolding terminate_pid send_signal termed
    terminate_pid-Ended w = elim (Bool-cases (l.alive w pid)) [
      | inr dead ↦
          rw (answered sigterm w, dead)
            (false, refl, inl (Reach-dead os l pid (reached sigterm w) dead), reached sigterm w)
      | inl alive ↦
          let w1 = (os.kill (as_i32 pid) sigterm w).1 in
          let (gone, result, settled, later) = termed-Ended w1 in
          rw (answered sigterm w, alive)
            (
              gone,
              result,
              Settled-later os l pid (reached sigterm w) here settled,
              Reach-trans (reached sigterm w) later,
            )
    ]
