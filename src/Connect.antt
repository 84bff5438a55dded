-- ===== src/Connect.antt =====
-- The attempts of `connect_vsock_with_retry` of linux/src/smoke.rs, which linux/src/session.rs has
-- too; times in milliseconds. The n-th attempt gives what the function `connect` says.
pub mod Attempts
mod Tests
use fend.Prelude.{
  ℕ, zero, suc, ◌+◌, ◌*◌, ◌-◌, ◌/◌, ◌^◌, String, Bool, List, [], ◌∷◌, Result, ok, err, ltb, leb,
  if◌then◌else◌,
}

-- `failed` has the text of any other error.
pub data ConnectError : Type 0 where
  unsupported : ConnectError
  failed : String → ConnectError

abbrev pub retry_interval : ℕ
retry_interval = 250

-- `usize::try_from`, of a timeout in seconds.
unfoldable pub connection_attempts : ℕ → ℕ
connection_attempts timeout =
    let attempts = timeout * 1000 / retry_interval + 1 in
    if ltb attempts (2 ^ 64) then attempts else 2 ^ 64 - 1

abbrev pub slept : {A : Type 0} → A × List ℕ → A × List ℕ
slept (a, waits) = (a, retry_interval ∷ waits)

abbrev pub slept_if : {A : Type 0} → Bool → A × List ℕ → A × List ℕ
slept_if test r = if test then slept r else r

-- The attempts that are left, and the number of the next: the result, and the waits in order.
unfoldable pub attempt_from :
    {S : Type 0} → (ℕ → Result ConnectError S) → ℕ → ℕ → ℕ → String → Result ConnectError S × List ℕ
attempt_from connect attempts zero attempt last_error = (err (failed last_error), [])
attempt_from connect attempts (suc left) attempt last_error = elim (connect attempt) [
  | ok stream ↦ (ok stream, [])
  | err unsupported ↦ (err unsupported, [])
  | err (failed e) ↦
      slept_if (ltb (attempt + 1) attempts) (attempt_from connect attempts left (suc attempt) e)
]

-- An error of `failed` is that of the last attempt.
unfoldable pub connect_vsock_with_retry :
    {S : Type 0} → (ℕ → Result ConnectError S) → ℕ → Result ConnectError S × List ℕ
unfolding attempt_from connection_attempts
connect_vsock_with_retry connect timeout =
    attempt_from connect (connection_attempts timeout) (connection_attempts timeout) 0
      "unknown error"
