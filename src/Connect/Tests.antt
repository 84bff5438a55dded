-- ===== src/Connect/Tests.antt =====
-- A guest that answers at the third attempt.
use fend.Prelude.{ℕ, ◌<◌, ◌≡◌, refl, [], Result, ok, err, ltb, lt→ltb, if◌then◌else◌, arith}
use fend.Connect.{ConnectError, unsupported, failed, connect_vsock_with_retry}
use fend.Connect.Attempts.{waits, connect_vsock_with_retry_ok}

abbrev booting : ℕ → Result ConnectError ℕ
booting n = if ltb n 2 then err (failed "refused") else ok 5

booting_fails : (k : ℕ) → k < 2 → booting k ≡ err (failed "refused")
booting_fails k h = rw (lt→ltb k 2 h) refl

connect_vsock_with_retry_ok_example : connect_vsock_with_retry booting 1 ≡ (ok 5, waits 2)
connect_vsock_with_retry_ok_example =
    connect_vsock_with_retry_ok booting (λ k. "refused") 1 2 5 (omega arith) (omega arith)
      booting_fails refl

connect_unsupported :
    connect_vsock_with_retry {S = ℕ} (λ n. err unsupported) 30 ≡ (err unsupported, [])
unfolding connect_vsock_with_retry
connect_unsupported = refl
