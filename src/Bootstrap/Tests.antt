-- ===== src/Bootstrap/Tests.antt =====
-- A kernel of which the list has the sum, and one that it does not name.
use text.Mathlib.Text.{◌==◌ as str_eq}
use text.Mathlib.TextEquality.{eq_iff}
use fend.Prelude.{
  ◌≡◌, ◌≢◌, refl, String, true, false, none, some, ok, err, if◌then◌else◌, string_eq,
}
use fend.Bootstrap.{
  Disk, Outside, is_file, write, remove_file, expected_sum, download_ubuntu_artifact, not_listed,
  mismatch,
}
use fend.Bootstrap.Verified.{IsVerified, download_ubuntu_artifact-IsVerified}
use fend.Bootstrap.Unverified.{download_ubuntu_artifact_trusts}

abbrev network : Outside
network = record {
  fetch = λ n url. some "kernel";
  sha256sum = λ contents. some (if str_eq contents "kernel" then "abc  -" else "def  -");
  shasum = λ contents. none;
  make_parent = λ path. true;
  rename = λ path. true;
  temp = λ path. "/rt/vmlinuz.tmp";
}

abbrev listing : String → Disk
listing sums q = if str_eq q "/work/SHA256SUMS" then some sums else none

expected_sum_small : expected_sum "vmlinuz" "123 *initrd\nabc *vmlinuz\n" ≡ some "abc"
unfolding expected_sum
expected_sum_small = refl

artifact_listed :
    (download_ubuntu_artifact network 0 "vmlinuz" "/rt/vmlinuz" "/work/SHA256SUMS" false
      (listing "abc *vmlinuz")).0
    ≡ ok tt
unfolding download_ubuntu_artifact
artifact_listed = refl

artifact_mismatch :
    (download_ubuntu_artifact network 0 "vmlinuz" "/rt/vmlinuz" "/work/SHA256SUMS" false
      (listing "abd *vmlinuz")).0
    ≡ err (mismatch "vmlinuz")
unfolding download_ubuntu_artifact
artifact_mismatch = refl

abbrev downloaded : Disk
downloaded = write "/rt/vmlinuz" "kernel" (remove_file "/rt/vmlinuz.tmp" (listing "abc *vmlinuz"))

downloaded_by :
    download_ubuntu_artifact network 0 "vmlinuz" "/rt/vmlinuz" "/work/SHA256SUMS" false
      (listing "abc *vmlinuz")
    ≡ (ok tt, downloaded)
unfolding download_ubuntu_artifact
downloaded_by = refl

no_kernel : (sums : String) → is_file (listing sums) "/rt/vmlinuz" ≡ false
unfolding is_file
no_kernel sums = refl

download_ubuntu_artifact-IsVerified_example :
    IsVerified network "vmlinuz" "/rt/vmlinuz" "/work/SHA256SUMS" downloaded
unfolding is_file
download_ubuntu_artifact-IsVerified_example =
    download_ubuntu_artifact-IsVerified network "vmlinuz" "/rt/vmlinuz" "/work/SHA256SUMS" 0 false
      (listing "abc *vmlinuz") downloaded refl downloaded_by

not_the_list : ◌≢◌ {A = String} "/rt/vmlinuz" "/work/SHA256SUMS"
not_the_list e = cc ((eq_iff "/rt/vmlinuz" "/work/SHA256SUMS").1 e)

temp_not_the_list : ◌≢◌ {A = String} "/rt/vmlinuz.tmp" "/work/SHA256SUMS"
temp_not_the_list e = cc ((eq_iff "/rt/vmlinuz.tmp" "/work/SHA256SUMS").1 e)

not_named : expected_sum "vmlinuz" "abc *initrd" ≡ none
unfolding expected_sum
not_named = refl

download_ubuntu_artifact_trusts_example :
    (disk' : Disk) × (download_ubuntu_artifact network 0 "vmlinuz" "/rt/vmlinuz" "/work/SHA256SUMS"
        false
        (listing "abc *initrd")
      ≡ (err (not_listed "vmlinuz"), disk'))
    × (download_ubuntu_artifact network 1 "vmlinuz" "/rt/vmlinuz" "/work/SHA256SUMS" false disk'
        ≡ (ok tt, disk'))
    × (disk' "/rt/vmlinuz" ≡ some "kernel")
download_ubuntu_artifact_trusts_example =
    download_ubuntu_artifact_trusts network 0 1 "vmlinuz" "/rt/vmlinuz" "/work/SHA256SUMS" "kernel"
      "abc *initrd" (listing "abc *initrd") (no_kernel "abc *initrd") refl refl refl not_the_list
      temp_not_the_list refl not_named
