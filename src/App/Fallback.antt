-- ===== src/App/Fallback.antt =====
-- A host without passt.
use fend.Prelude.{◌≡◌, refl, Bool, true, false, not, ◌&&◌, ◌||◌, [], Bool-cases, inl, inr}
use fend.Qemu.{NetworkMode, passt, user, off, LaunchConfig}
use fend.Doctor.{HostProbe}
use fend.Doctor.Report.{evaluate, evaluate_launch, requires_passt}
use fend.Doctor.Preflight.{has_passt_for, evaluate-evaluate_launch}
use fend.App.{apply_network_fallback, is_passt}

has_passt_for-is_passt :
    (network : NetworkMode) (probe : HostProbe)
    → (is_passt network && not probe.passt_available) ≡ false
    → has_passt_for network probe ≡ true
unfolding requires_passt
has_passt_for-is_passt passt probe h = ground_passt probe.passt_available h
  where
    ground_passt : (b : Bool) → not b ≡ false → (false || b) ≡ true
    ground_passt true h = refl
    ground_passt false h = cc
has_passt_for-is_passt user probe h = refl
has_passt_for-is_passt off probe h = refl

fallback-has_passt_for :
    (config : LaunchConfig) (probe : HostProbe)
    → has_passt_for (apply_network_fallback config false probe).0.network probe ≡ true
unfolding apply_network_fallback requires_passt
fallback-has_passt_for config probe =
    elim (Bool-cases (is_passt config.network && not probe.passt_available)) [
      | inl changed ↦ rw changed refl
      | inr kept ↦ rw kept (has_passt_for-is_passt config.network probe kept)
    ]

-- On a host on which the doctor reports no issue, a run that asks for no network mode passes the
-- preflight of its launch, with passt or without, whatever mode its configuration begins with.
pub fallback-evaluate_launch :
    (config : LaunchConfig) (probe : HostProbe)
    → (evaluate probe).issues ≡ []
    → (evaluate_launch probe (apply_network_fallback config false probe).0.network).issues ≡ []
fallback-evaluate_launch config probe ready =
    evaluate-evaluate_launch probe (apply_network_fallback config false probe).0.network ready
      (fallback-has_passt_for config probe)
