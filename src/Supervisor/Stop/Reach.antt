-- ===== src/Supervisor/Stop/Reach.antt =====
-- What is relied on of `kill`, the clock and the sleep, and what can become of a process.
use fend.Prelude.{◌⊎◌, ℕ, ◌+◌, ◌≤◌, ◌<◌, ◌≡◌, Bool, true, false, if◌then◌else◌, inl, inr}
use fend.Prelude.Int.{pos}
use fend.Supervisor.Stop.{Os, delivered, esrch, sigkill, stop_kill_timeout}

-- A process that has ended does not come back under its id meanwhile, the caller may signal the
-- processes, `kill` finds exactly those that are there, and a sleep lasts at least as long as asked.
-- When a process ends after a signal, and whether it does, is left open.
pub record Lawful (os : Os) : Type 0 where
  pub alive : os.World → ℕ → Bool
  pub answers :
      (pid signal : ℕ) (w : os.World)
      → 0 < pid
      → (os.kill (pos pid) signal w).0 ≡ (if alive w pid then delivered else esrch)
  pub kill_dead :
      (pid signal q : ℕ) (w : os.World)
      → 0 < pid
      → alive w q ≡ false
      → alive (os.kill (pos pid) signal w).1 q ≡ false
  pub sleep_dead : (q : ℕ) (w : os.World) → alive w q ≡ false → alive (os.sleep w) q ≡ false
  pub kill_now :
      (pid signal : ℕ) (w : os.World) → 0 < pid → os.now w ≤ os.now (os.kill (pos pid) signal w).1
  pub sleep_now : (w : os.World) → os.now w + 50 ≤ os.now (os.sleep w)

-- What signals and sleeps can come to.
pub data Reach (os : Os) (w : os.World) : os.World → Type 0 where
  here : Reach os w w
  signalled :
      {v : os.World} (pid signal : ℕ)
      → 0 < pid
      → Reach os w v
      → Reach os w (os.kill (pos pid) signal v).1
  slept : {v : os.World} → Reach os w v → Reach os w (os.sleep v)

pub Reach-trans : {os : Os} {w v u : os.World} → Reach os w v → Reach os v u → Reach os w u
Reach-trans r here = r
Reach-trans r (signalled pid signal h t) = signalled pid signal h (Reach-trans r t)
Reach-trans r (slept t) = slept (Reach-trans r t)

module _ (os : Os) (l : Lawful os) where
  pub Reach-dead :
      {w v : os.World} (q : ℕ) → Reach os w v → l.alive w q ≡ false → l.alive v q ≡ false
  Reach-dead q here h = h
  Reach-dead q (signalled {v = v} pid signal p r) h =
      l.kill_dead pid signal q v p (Reach-dead q r h)
  Reach-dead q (slept {v = v} r) h = l.sleep_dead q v (Reach-dead q r h)

  -- SIGKILL was delivered to the process after `w`, and a look, over which the time allowed after it
  -- had passed, still found the process.
  abbrev pub Outlasted : os.World → os.World → ℕ → Type 0
  Outlasted w final pid =
      (v : os.World) × (u : os.World) × Reach os w v
      × ((os.kill (pos pid) sigkill v).0 ≡ delivered)
      × Reach os (os.kill (pos pid) sigkill v).1 u
      × (l.alive u pid ≡ true)
      × (os.now (os.kill (pos pid) sigkill v).1 + stop_kill_timeout
          ≤ os.now (os.kill (pos pid) 0 u).1)
      × Reach os (os.kill (pos pid) 0 u).1 final

  abbrev pub Settled : os.World → os.World → ℕ → Type 0
  Settled w final pid = (l.alive final pid ≡ false) ⊎ Outlasted w final pid

  pub Settled-later :
      {w w' final final' : os.World} (pid : ℕ)
      → Reach os w w'
      → Reach os final final'
      → Settled w' final pid
      → Settled w final' pid
  Settled-later pid before behind (inl dead) = inl (Reach-dead pid behind dead)
  Settled-later pid before behind (inr (v, u, r, sent, r1, there, late, r2)) =
      inr (v, u, Reach-trans before r, sent, r1, there, late, Reach-trans r2 behind)
