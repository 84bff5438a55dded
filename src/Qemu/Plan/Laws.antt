-- ===== src/Qemu/Plan/Laws.antt =====
-- Which configurations are launched, and what the guest reads of the kernel command line.
use fend.Prelude.{
  ℕ, ◌%◌, ◌<◌, ◌≡◌, ◌↔◌, ◌⊎◌, ◌≢◌, inl, inr, refl, Bool, true, false, String, some, List, [], ◌∷◌,
  ◌++◌, Result, ok, err, arith, ◌==◌, get_or, holds_below, holds_below_sound, All,
}
use fend.Prelude.Bits.{bit_and_mask6}
use fend.Prelude.Text.{as_bytes, nth_char, is_empty}
use fend.Protocol.Frame.RoundTrip.{IsByte}
use fend.Protocol.Base64.{b64, symbol, base64_encode, base64_decode}
use fend.Protocol.Base64.RoundTrip.{base64_decode-base64_encode}
use fend.Qemu.{LaunchConfig, LaunchPlan, PlanError}
use fend.Qemu.Plan.{validate, symbol_text, base64, build_launch_plan}

-- The bytes of a text that is made of pieces.
unfoldable pub bytes_of : List String → List ℕ
bytes_of [] = []
bytes_of (s ∷ ss) = as_bytes s ++ bytes_of ss

is_one : ℕ → List ℕ → Bool
is_one n (c ∷ []) = c == n
is_one n _ = false

is_one_sound : (n : ℕ) (cs : List ℕ) → is_one n cs ≡ true → cs ≡ n ∷ []
unfolding is_one
is_one_sound n [] h = cc
is_one_sound n (c ∷ []) h = ground arith
is_one_sound n (c ∷ d ∷ cs) h = cc

same_symbol : ℕ → Bool
same_symbol i =
    is_one (get_or b64 i 0)
      (as_bytes (nth_char "ABCDEFGHIJKLMNOPQRSTUVWXYZabcdefghijklmnopqrstuvwxyz0123456789+/" i))

same_table : holds_below 64 same_symbol ≡ true
unfolding holds_below same_symbol is_one as_bytes nth_char
same_table = refl

symbol_text-symbol : (n : ℕ) → as_bytes (symbol_text n) ≡ symbol n ∷ []
unfolding symbol_text symbol same_symbol
symbol_text-symbol n =
    rw (bit_and_mask6 n)
      (is_one_sound _ _ (holds_below_sound same_symbol 64 (n % 64) same_table (omega arith)))

pad_bytes : as_bytes "=" ≡ b'=' ∷ []
unfolding as_bytes
pad_bytes = refl

bytes_of-base64 : (bs : List ℕ) → bytes_of (base64 bs) ≡ base64_encode bs
unfolding bytes_of base64 base64_encode
bytes_of-base64 [] = refl
bytes_of-base64 (b0 ∷ []) = simp (symbol_text-symbol, pad_bytes)
bytes_of-base64 (b0 ∷ b1 ∷ []) = simp (symbol_text-symbol, pad_bytes)
bytes_of-base64 (b0 ∷ b1 ∷ b2 ∷ rest) = simp (symbol_text-symbol, bytes_of-base64 rest)

-- The base64 that the host writes on the kernel command line is one that the guest decodes: for
-- every list of bytes, the guest's decoder gives back the bytes that the host encoded.
pub base64_decode-base64 :
    (bs : List ℕ) → All IsByte bs → base64_decode (bytes_of (base64 bs)) ≡ some bs
base64_decode-base64 bs h = rw (bytes_of-base64 bs) (base64_decode-base64_encode bs h)

abbrev pub Launchable : LaunchConfig → Type 0
Launchable c =
    (0 < c.cpus) × (0 < c.memory_mib) × (2 < c.guest_cid) × (is_empty c.guest_workspace ≡ false)

valid_iff : (c : LaunchConfig) → (validate c ≡ ok tt) ↔ Launchable c
unfolding validate
valid_iff c = (
  λ h. (ground arith, ground arith, ground arith, ground arith),
  λ (hc, hm, hg, hw). ground arith,
)

Result-cases :
    {A : Type 0} (r : Result PlanError A) → ((a : A) × (r ≡ ok a)) ⊎ ((e : PlanError) × (r ≡ err e))
Result-cases (ok a) = inl (a, refl)
Result-cases (err e) = inr (e, refl)

valid-ne-err : (c : LaunchConfig) (e : PlanError) → validate c ≡ ok tt → build_launch_plan c ≢ err e
unfolding build_launch_plan
valid-ne-err c e good = rw good (λ h. cc)

invalid-ne-ok :
    (c : LaunchConfig) (p : LaunchPlan) (e : PlanError)
    → validate c ≡ err e
    → build_launch_plan c ≢ ok p
unfolding build_launch_plan
invalid-ne-ok c p e bad = rw bad (λ h. cc)

-- A plan is made for exactly the configurations with at least one CPU, some memory, a CID that is
-- not reserved (0, 1 and 2 are) and a guest workspace.
pub build_launch_plan_iff :
    (c : LaunchConfig) → ((p : LaunchPlan) × (build_launch_plan c ≡ ok p)) ↔ Launchable c
build_launch_plan_iff c = (
  λ (p, h). elim (Result-cases (validate c)) [
    | inl (tt, good) ↦ (valid_iff c).0 good
    | inr (e, bad) ↦ absurd (invalid-ne-ok c p e bad h)
  ],
  λ good. elim (Result-cases (build_launch_plan c)) [
    | inl made ↦ made
    | inr (e, bad) ↦ absurd (valid-ne-err c e ((valid_iff c).1 good) bad)
  ],
)
