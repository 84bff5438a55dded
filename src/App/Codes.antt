-- ===== src/App/Codes.antt =====
-- The exit code of a run.
use fend.Prelude.{ℕ, zero, suc, ◌≤◌, ◌≡◌, refl, arith}
use fend.Prelude.Int.{ℤ, pos, negsuc}
use fend.App.{exit_code_from_i32}

exit_code_range : (code : ℤ) → exit_code_from_i32 code ≤ 255
unfolding exit_code_from_i32
exit_code_range (pos zero) = omega arith
exit_code_range (pos (suc n)) = ground arith
exit_code_range (negsuc n) = omega arith

exit_code_zero : (code : ℤ) → exit_code_from_i32 code ≡ 0 → code ≡ pos 0
unfolding exit_code_from_i32
exit_code_zero (pos zero) h = refl
exit_code_zero (pos (suc n)) h = absurd (ground arith)
exit_code_zero (negsuc n) h = absurd (omega arith)

exit_code_same : (n : ℕ) → n ≤ 255 → exit_code_from_i32 (pos n) ≡ n
unfolding exit_code_from_i32
exit_code_same zero h = refl
exit_code_same (suc n) h = ground arith

-- The exit code of a run is a byte; it is that of success only if the command succeeded, and it is
-- the code of the command itself if that is a byte.
pub exit_code_from_i32_bounds :
    (code : ℤ)
    → (exit_code_from_i32 code ≤ 255)
      × (exit_code_from_i32 code ≡ 0 → code ≡ pos 0)
      × ((n : ℕ) → code ≡ pos n → n ≤ 255 → exit_code_from_i32 code ≡ n)
exit_code_from_i32_bounds code =
    (exit_code_range code, exit_code_zero code, λ n e h. rw e (exit_code_same n h))
