-- ===== src/Doctor/Preflight.antt =====
-- The launch preflight of linux/src/doctor.rs on a host without an issue.
use fend.Prelude.{
  ◌≡◌, refl, Bool, true, false, not, ◌||◌, some, none, List, [], ◌∷◌, ◌++◌, Bool-cases, inl, inr,
}
use fend.Qemu.{NetworkMode, passt, user, off}
use fend.Doctor.{HostProbe}
use fend.Doctor.Report.{
  requires_passt, host_issues, passt_issue, device_issues, artifact_issues, artifacts_missing,
  evaluate_with_options, evaluate, evaluate_launch,
}

append_empty : {A : Type 0} (xs ys : List A) → xs ++ ys ≡ [] → (xs ≡ []) × (ys ≡ [])
append_empty [] ys h = (refl, h)
append_empty (x ∷ xs) ys h = cc

append-nil-nil : {A : Type 0} (xs ys : List A) → xs ≡ [] → ys ≡ [] → xs ++ ys ≡ []
append-nil-nil xs ys h k = rw (h, k) refl

artifact_issues-launch :
    (probe : HostProbe) → artifact_issues true probe ≡ [] → artifact_issues false probe ≡ []
unfolding artifact_issues
artifact_issues-launch probe h = elim (Bool-cases (artifacts_missing probe)) [
  | inl e ↦ cc (h, e)
  | inr e ↦ rw e refl
]

-- passt is there, if the network is its own.
abbrev pub has_passt_for : NetworkMode → HostProbe → Bool
has_passt_for network probe = not (requires_passt (some network)) || probe.passt_available

passt_issue-launch :
    (network : NetworkMode) (probe : HostProbe)
    → has_passt_for network probe ≡ true
    → passt_issue (some network) probe ≡ []
unfolding passt_issue requires_passt
passt_issue-launch passt probe h = rw h refl
passt_issue-launch user probe h = refl
passt_issue-launch off probe h = refl

-- A host on which the doctor reports no issue passes the preflight of a launch too, with every
-- network mode but passt where passt is not installed.
pub evaluate-evaluate_launch :
    (probe : HostProbe) (network : NetworkMode)
    → (evaluate probe).issues ≡ []
    → has_passt_for network probe ≡ true
    → (evaluate_launch probe network).issues ≡ []
unfolding evaluate evaluate_launch evaluate_with_options
evaluate-evaluate_launch probe network h p =
    let (host, rest) = append_empty (host_issues probe) _ h in
    let (_, rest') = append_empty (passt_issue none probe) _ rest in
    let (devices, artifacts) = append_empty (device_issues probe) _ rest' in
    append-nil-nil (host_issues probe) _ host (
      append-nil-nil (passt_issue (some network) probe) _ (passt_issue-launch network probe p)
        (append-nil-nil (device_issues probe) _ devices (artifact_issues-launch probe artifacts)))
