-- ===== src/Bootstrap/Verified.antt =====
-- A downloaded artifact is the one that Ubuntu lists.
use text.Mathlib.Text.{◌==◌ as str_eq}
use text.Mathlib.TextEquality.{eq_iff}
use fend.Prelude.{
  ℕ, ◌≡◌, refl, subst, ap, String, Bool, false, not, ◌&&◌, Option, none, some, [], ◌∷◌, Result, ok,
  err, Bool-cases, Option-cases, inl, inr,
}
use fend.Prelude.Text.{concat}
use fend.Bootstrap.{
  Disk, Outside, Step, BootstrapError, is_file, sha256_file, expected_sum, compare_sums, sum_at,
  verify_ubuntu_checksum, download_to_path, download_ubuntu_artifact, check_downloaded, unreadable,
  not_listed, ubuntu_base,
}

-- The file has the sum that the list has for its name.
pub record IsVerified (o : Outside) (file_name destination sha_sums_path : String) (disk : Disk)
    : Type 0 where
  pub contents : String
  pub sums : String
  pub expected : String
  pub written : disk destination ≡ some contents
  pub listed_in : disk sha_sums_path ≡ some sums
  pub listed : expected_sum file_name sums ≡ some expected
  pub agrees : sha256_file o contents ≡ ok expected

compare_sums_ok :
    (file_name destination expected : String) (actual : Result BootstrapError String)
    (disk disk' : Disk)
    → compare_sums file_name destination expected actual disk ≡ (ok tt, disk')
    → (actual ≡ ok expected) × (disk ≡ disk')
unfolding compare_sums
compare_sums_ok file_name destination expected (err e) disk disk' h = cc
compare_sums_ok file_name destination expected (ok actual) disk disk' h =
    elim (Bool-cases (str_eq actual expected)) [
      | inl same ↦ (ap ok ((eq_iff actual expected).0 same), ap (λ (s : Step). s.1) (rw same at h))
      | inr other ↦ absurd (cc (rw other at h))
    ]

module _ (o : Outside) (file_name destination sha_sums_path : String) where
  -- The file whose sum was taken is there.
  sum_at-IsVerified :
      (disk : Disk) (sums expected : String)
      → disk sha_sums_path ≡ some sums
      → expected_sum file_name sums ≡ some expected
      → sum_at o disk destination ≡ ok expected
      → IsVerified o file_name destination sha_sums_path disk
  unfolding sum_at
  sum_at-IsVerified disk sums expected there listed h = elim (Option-cases (disk destination)) [
    | inl gone ↦ absurd (cc (rw (gone, sum_at) at h))
    | inr (contents, e) ↦ record {
      contents = contents;
      sums = sums;
      expected = expected;
      written = e;
      listed_in = there;
      listed = listed;
      agrees = rw (e, sum_at) at h;
    }
  ]

  verify_IsVerified :
      (disk disk' : Disk)
      → verify_ubuntu_checksum o file_name destination sha_sums_path disk ≡ (ok tt, disk')
      → IsVerified o file_name destination sha_sums_path disk'
  unfolding verify_ubuntu_checksum
  verify_IsVerified disk disk' = from_sums (disk sha_sums_path) refl
    where
      from_expected :
          (sums : String)
          → disk sha_sums_path ≡ some sums
          → (e : Option String) → expected_sum file_name sums ≡ e
          → elim e as (λ _. Step) [
            | none ↦ (err (not_listed file_name), disk)
            | some expected ↦
                compare_sums file_name destination expected (sum_at o disk destination) disk
          ]
            ≡ (ok tt, disk')
          → IsVerified o file_name destination sha_sums_path disk'
      from_expected sums there none e h = absurd (cc)
      from_expected sums there (some expected) e h =
          let (agrees, same) =
            compare_sums_ok file_name destination expected (sum_at o disk destination) disk disk'
              h in
          subst (IsVerified o file_name destination sha_sums_path) same
            (sum_at-IsVerified disk sums expected there e agrees)

      from_sums :
          (s : Option String)
          → disk sha_sums_path ≡ s
          → elim s as (λ _. Step) [
            | none ↦ (err (unreadable sha_sums_path), disk)
            | some sums ↦ elim (expected_sum file_name sums) [
              | none ↦ (err (not_listed file_name), disk)
              | some expected ↦
                  compare_sums file_name destination expected (sum_at o disk destination) disk
            ]
          ]
            ≡ (ok tt, disk')
          → IsVerified o file_name destination sha_sums_path disk'
      from_sums none e h = absurd (cc)
      from_sums (some sums) e h = from_expected sums e (expected_sum file_name sums) refl h

  -- When a download ends well, the file is there with the sum that the list of Ubuntu has for its
  -- name, whatever was there before and whatever the download gave.
  pub download_ubuntu_artifact-IsVerified :
      (n : ℕ) (force : Bool) (disk disk' : Disk)
      → (is_file disk destination && not force) ≡ false
      → download_ubuntu_artifact o n file_name destination sha_sums_path force disk ≡ (ok tt, disk')
      → IsVerified o file_name destination sha_sums_path disk'
  unfolding download_ubuntu_artifact check_downloaded
  download_ubuntu_artifact-IsVerified n force disk disk' due h =
      from (download_to_path o n (concat (ubuntu_base ∷ "/" ∷ file_name ∷ [])) destination disk)
        (rw due at h)
    where
      from :
          (d : Step)
          → check_downloaded o file_name destination sha_sums_path d ≡ (ok tt, disk')
          → IsVerified o file_name destination sha_sums_path disk'
      from (err e, d) h = absurd (cc)
      from (ok done, d) h = verify_IsVerified d disk' h
