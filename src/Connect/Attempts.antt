-- ===== src/Connect/Attempts.antt =====
-- When a guest is connected to.
use fend.Prelude.{
  ℕ, zero, suc, ◌+◌, ◌*◌, ◌/◌, ◌^◌, ◌≤◌, ◌<◌, ◌≡◌, refl, ap, ◌∙◌, String, Bool-cases, inl, inr,
  List, [], ◌∷◌, Result, ok, err, ltb, lt→ltb, arith,
}
use fend.Connect.{
  ConnectError, failed, retry_interval, connection_attempts, slept, attempt_from,
  connect_vsock_with_retry,
}

-- That many waits of the interval.
abbrev pub waits : ℕ → List ℕ
waits zero = []
waits (suc n) = retry_interval ∷ waits n

module _ {S : Type 0} (connect : ℕ → Result ConnectError S) (errors : ℕ → String)
    (attempts : ℕ) where
  attempt_from-ok :
      (late left n : ℕ) (last_error : String) (stream : S)
      → late < left
      → n + left ≡ attempts
      → ((k : ℕ) → k < n + late → connect k ≡ err (failed (errors k)))
      → connect (n + late) ≡ ok stream
      → attempt_from connect attempts left n last_error ≡ (ok stream, waits late)
  unfolding attempt_from
  attempt_from-ok late zero n last_error stream lt e fails succeeds = absurd (omega arith)
  attempt_from-ok zero (suc left) n last_error stream lt e fails succeeds =
      let here : connect n ≡ ok stream =
        (ap connect (let z : n ≡ n + 0 = omega arith in z)) ∙ succeeds in
      rw (here, attempt_from) refl
  attempt_from-ok (suc late) (suc left) n last_error stream lt e fails succeeds =
      let again = lt→ltb (n + 1) attempts (omega arith) in
      let shift : suc n + late ≡ n + suc late = omega arith in
      rw (fails n (omega arith), attempt_from, again)
        (ap slept (
          attempt_from-ok late left (suc n) (errors n) stream (omega arith) (omega arith)
            (λ k h. fails k (omega arith)) (ap connect shift ∙ succeeds)))

connection_attempts_late :
    (timeout late : ℕ)
    → late * retry_interval ≤ timeout * 1000
    → late + 1 < 2 ^ 64
    → late < connection_attempts timeout
unfolding connection_attempts
connection_attempts_late timeout late h lt =
    elim (Bool-cases (ltb (timeout * 1000 / 250 + 1) (2 ^ 64))) [
      | inl e ↦ rw e (omega arith)
      | inr e ↦ rw e (omega arith)
    ]

-- A guest that does not answer at first and that can be connected to at an attempt within the
-- timeout is connected to then, after one wait for each attempt that failed, of whatever error but
-- that of a host without vsock.
pub connect_vsock_with_retry_ok :
    {S : Type 0} (connect : ℕ → Result ConnectError S) (errors : ℕ → String) (timeout late : ℕ)
    (stream : S)
    → late * retry_interval ≤ timeout * 1000
    → late + 1 < 2 ^ 64
    → ((k : ℕ) → k < late → connect k ≡ err (failed (errors k)))
    → connect late ≡ ok stream
    → connect_vsock_with_retry connect timeout ≡ (ok stream, waits late)
unfolding connect_vsock_with_retry
connect_vsock_with_retry_ok connect errors timeout late stream within lt fails succeeds =
    attempt_from-ok connect errors (connection_attempts timeout) late (connection_attempts timeout)
      0 "unknown error" stream (connection_attempts_late timeout late within lt) (omega arith)
      (λ k h. fails k (omega arith))
      (ap connect (let z : 0 + late ≡ late = omega arith in z) ∙ succeeds)
