-- ===== src/Session/Fuel.antt =====
-- The loop ends: every turn takes a frame off the stream.
use text.Mathlib.Text.{◌==◌ as str_eq}
use fend.Prelude.{
  ◌⊎◌, ℕ, zero, suc, ◌≤◌, ◌<◌, ◌≡◌, ◌≢◌, refl, inl, inr, String, Option, none, some, List, [], ◌∷◌,
  Result, ok, err, ◌==◌, length, drop, arith, Bool-cases,
}
use fend.Prelude.Int.{ℤ}
use fend.Protocol.Frame.{IoError, from_be_bytes, read_exact, read_payload, host_read_frame}
use fend.Protocol.Base64.{host_base64_decode}
use fend.Session.Transcript.{below_zero}
use fend.Session.{
  OutputData, ExitStatus, ParseError, SessionError, out_of_fuel, Json, Terminal, Turn, goes_on,
  leaves, on_data, on_output, on_exit, on_frame, follow, command_id, message_output_data,
  message_exit_status,
}

length-drop_le : (n : ℕ) (r : List ℕ) → length (drop n r) ≤ length r
length-drop_le zero r = omega arith
length-drop_le (suc n) [] = omega arith
length-drop_le (suc n) (x ∷ r) = omega (arith, length-drop_le n r)

read_payload_shorter : (n : ℕ) (r p s : List ℕ) → read_payload n r ≡ ok (p, s) → length s ≤ length r
unfolding read_payload read_exact
read_payload_shorter zero r p s h = ground arith
read_payload_shorter (suc n) r p s h = ground (arith, length-drop_le (suc n) r)

host_read_frame_shorter :
    (r : List ℕ) (k : ℕ) (p s : List ℕ) → host_read_frame r ≡ ok ((k, p), s) → length s < length r
unfolding host_read_frame read_exact
host_read_frame_shorter [] k p s h = cc
host_read_frame_shorter (x ∷ []) k p s h = cc
host_read_frame_shorter (x ∷ y ∷ []) k p s h = cc
host_read_frame_shorter (x ∷ y ∷ z ∷ []) k p s h = cc
host_read_frame_shorter (x ∷ y ∷ z ∷ u ∷ []) k p s h = cc
host_read_frame_shorter (x ∷ y ∷ z ∷ u ∷ v ∷ r) k p s h =
    ground (arith, read_payload_shorter (from_be_bytes y z u v) r p s)

-- A turn never leaves the loop for want of fuel.
abbrev Fuelled : Turn → Type 0
Fuelled (goes_on t) = Unit
Fuelled (leaves result t) = result ≢ err out_of_fuel

on_data-Fuelled : (t : Terminal) (s : String) (o : Option (List ℕ)) → Fuelled (on_data t s o)
unfolding on_data
on_data-Fuelled t s none = λ h. cc
on_data-Fuelled t s (some bytes) = elim (Bool-cases (str_eq s "stdout")) [
  | inl out ↦ rw out tt
  | inr other ↦ elim (Bool-cases (str_eq s "stderr")) [
    | inl error ↦ rw (other, error) tt
    | inr unknown ↦ rw (other, unknown) (λ h. cc)
  ]
]

on_output-Fuelled : (t : Terminal) (r : Result ParseError OutputData) → Fuelled (on_output t r)
unfolding on_output
on_output-Fuelled t (err e) = λ h. cc
on_output-Fuelled t (ok o) = elim (Bool-cases (o.id == command_id)) [
  | inl ours ↦ rw ours (on_data-Fuelled t o.stream (host_base64_decode o.«data»))
  | inr other ↦ rw other (λ h. cc)
]

on_exit-Fuelled : (t : Terminal) (r : Result ParseError ExitStatus) → Fuelled (on_exit t r)
unfolding on_exit
on_exit-Fuelled t (err e) = λ h. cc
on_exit-Fuelled t (ok o) = elim (Bool-cases (o.id == command_id)) [
  | inl ours ↦ rw ours (λ h. cc)
  | inr other ↦ rw other (λ h. cc)
]

on_frame-Fuelled :
    (j : Json) (t : Terminal) (kind : ℕ) (payload : List ℕ) → Fuelled (on_frame j t kind payload)
unfolding on_frame
on_frame-Fuelled j t kind payload = elim (Bool-cases (kind == message_output_data)) [
  | inl out ↦ rw out (on_output-Fuelled t (j.parse_output_data payload))
  | inr other ↦ elim (Bool-cases (kind == message_exit_status)) [
    | inl exit ↦ rw (other, exit) (on_exit-Fuelled t (j.parse_exit_status payload))
    | inr unexpected ↦ rw (other, unexpected) (λ h. cc)
  ]
]

read-cases :
    {A : Type 0} (r : Result IoError A) → ((a : A) × (r ≡ ok a)) ⊎ ((e : IoError) × (r ≡ err e))
read-cases (ok a) = inl (a, refl)
read-cases (err e) = inr (e, refl)

-- One unit of fuel more than the stream has bytes is enough: the loop ends, with the exit code or
-- with an error of its own, whatever the guest sends.
pub follow-ends :
    (j : Json) (fuel : ℕ) (r : List ℕ) (t : Terminal)
    → length r < fuel
    → (follow j fuel r t).0 ≢ err out_of_fuel
unfolding follow
follow-ends j zero r t enough = absurd (below_zero enough)
follow-ends j (suc n) r t enough = elim (read-cases (host_read_frame r)) [
  | inr (e, failed) ↦ rw (failed, follow) (λ h. cc)
  | inl (((kind, payload), rest), read) ↦
      rw (read, follow)
        (go rest (on_frame j t kind payload) (on_frame-Fuelled j t kind payload) (λ t1.
          follow-ends j n rest t1
            (omega (arith, host_read_frame_shorter r kind payload rest read))))
]
  where
    go :
        (rest : List ℕ) (turn : Turn)
        → Fuelled turn
        → ((t1 : Terminal) → (follow j n rest t1).0 ≢ err out_of_fuel)
        → (elim turn as (λ _. Result SessionError ℤ × Terminal) [
          | goes_on t1 ↦ follow j n rest t1
          | leaves result t1 ↦ (result, t1)
        ]).0
          ≢ err out_of_fuel
    go rest (goes_on t1) fuelled later = later t1
    go rest (leaves result t1) fuelled later = fuelled
