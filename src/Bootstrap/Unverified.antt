-- ===== src/Bootstrap/Unverified.antt =====
-- A download that could not be verified is kept.
use text.Mathlib.TextEquality.{eq_iff}
use text.Mathlib.Text.{◌==◌ as str_eq}
use fend.Prelude.{
  ℕ, ◌≡◌, ◌≢◌, refl, ap, ◌∙◌, String, true, false, none, some, [], ◌∷◌, ok, err, Bool-cases, inl,
  inr,
}
use fend.Prelude.Text.{concat}
use fend.Bootstrap.{
  Disk, Outside, is_file, write, remove_file, expected_sum, verify_ubuntu_checksum,
  download_to_path, download_ubuntu_artifact, check_downloaded, not_listed, ubuntu_base,
}

write_self : (path contents : String) (disk : Disk) → write path contents disk path ≡ some contents
unfolding write
write_self path contents disk = rw ((eq_iff path path).1 refl) refl

str_ne : (a b : String) → a ≢ b → str_eq a b ≡ false
str_ne a b ne = elim (Bool-cases (str_eq a b)) [
  | inl e ↦ absurd (ne ((eq_iff a b).0 e))
  | inr e ↦ e
]

write_other :
    (path q contents temp : String) (disk : Disk)
    → path ≢ q
    → temp ≢ q
    → write path contents (remove_file temp disk) q ≡ disk q
unfolding write remove_file
write_other path q contents temp disk ne ne' = rw (str_ne path q ne, str_ne temp q ne') refl

verify_not_listed :
    (o : Outside) (file_name destination sha_sums_path sums : String) (disk : Disk)
    → disk sha_sums_path ≡ some sums
    → expected_sum file_name sums ≡ none
    → verify_ubuntu_checksum o file_name destination sha_sums_path disk
      ≡ (err (not_listed file_name), disk)
unfolding verify_ubuntu_checksum
verify_not_listed o file_name destination sha_sums_path sums disk there missing =
    rw (there, verify_ubuntu_checksum, missing) refl

download_to_path_ok :
    (o : Outside) (n : ℕ) (url destination contents : String) (disk : Disk)
    → o.make_parent destination ≡ true
    → o.fetch n url ≡ some contents
    → o.rename destination ≡ true
    → download_to_path o n url destination disk
      ≡ (ok tt, write destination contents (remove_file (o.temp destination) disk))
unfolding download_to_path
download_to_path_ok o n url destination contents disk parent fetched renamed =
    rw (parent, fetched, renamed, download_to_path) refl

is_file-some :
    (disk : Disk) (path contents : String) → disk path ≡ some contents → is_file disk path ≡ true
unfolding is_file
is_file-some disk path contents e = rw (e, is_file) refl

-- When the list does not name a file, the file that was not there is downloaded, the download fails
-- for want of a sum, and the next one succeeds at once with the file that nothing was compared with.
pub download_ubuntu_artifact_trusts :
    (o : Outside) (n n' : ℕ) (file_name destination sha_sums_path contents sums : String)
    (disk : Disk)
    → is_file disk destination ≡ false
    → o.make_parent destination ≡ true
    → o.fetch n (concat (ubuntu_base ∷ "/" ∷ file_name ∷ [])) ≡ some contents
    → o.rename destination ≡ true
    → destination ≢ sha_sums_path
    → o.temp destination ≢ sha_sums_path
    → disk sha_sums_path ≡ some sums
    → expected_sum file_name sums ≡ none
    → (disk' : Disk) × (download_ubuntu_artifact o n file_name destination sha_sums_path false disk
        ≡ (err (not_listed file_name), disk'))
      × (download_ubuntu_artifact o n' file_name destination sha_sums_path false disk'
          ≡ (ok tt, disk'))
      × (disk' destination ≡ some contents)
unfolding download_ubuntu_artifact
download_ubuntu_artifact_trusts o n n' file_name destination sha_sums_path contents sums disk gone
      parent fetched renamed ne ne' there missing =
    let disk' = write destination contents (remove_file (o.temp destination) disk) in
    let there' : disk' destination ≡ some contents =
      write_self destination contents (remove_file (o.temp destination) disk) in
    let kept : disk' sha_sums_path ≡ some sums =
      rw (write_other destination sha_sums_path contents (o.temp destination) disk ne ne') there in
    let checked : check_downloaded o file_name destination sha_sums_path (ok tt, disk')
        ≡ (err (not_listed file_name), disk') =
      unfold check_downloaded in
      verify_not_listed o file_name destination sha_sums_path sums disk' kept missing in
    (
      disk',
      rw gone (
          ap (check_downloaded o file_name destination sha_sums_path) (
            download_to_path_ok o n (concat (ubuntu_base ∷ "/" ∷ file_name ∷ [])) destination
              contents disk parent fetched renamed)
          ∙ checked),
      rw (is_file-some disk' destination contents there') refl,
      there',
    )
