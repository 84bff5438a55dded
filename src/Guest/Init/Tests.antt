-- ===== src/Guest/Init/Tests.antt =====
-- What the guest reads on a small machine.
use fend.Prelude.{ℕ, ◌≡◌, ◌==◌, refl, String, Bool, true, Option, none, some, List, [], ◌∷◌, arith}
use fend.Prelude.Int.{pos}
use fend.Prelude.Text.{as_bytes, join, join_with}
use fend.Prelude.Words.{
  lines, split_whitespace, split_on, trim, trim_start_matches, trim_end_matches,
}
use fend.Prelude.{sort_by, insert_sorted}
use Prim.Native.String.{◌++◌}
use fend.Qemu.Plan.{kernel_cmdline}
use fend.Guest.Init.{
  backslash, unescape_mount_field, mount_fstype_from_proc_mounts, set_clock_from_cmdline,
  read_cwd_from_cmdline, select_primary_network_interface, network_interface_priority,
  build_tools_path,
}
use fend.Guest.Init.Escapes.{escaped, unescape_mount_field-escaped}
use fend.Guest.Init.Cmdline.{kernel_cmdline_read}

mount_point :
    mount_fstype_from_proc_mounts
      "proc /proc proc rw 0 0\nworkspace /workspace\\040dir virtiofs rw,relatime 0 0\n"
      "/workspace dir"
    ≡ some (some "virtiofs")
unfolding mount_fstype_from_proc_mounts unescape_mount_field as_bytes lines split_whitespace
    split_on
mount_point = refl

-- A backslash before two ASCII characters and one that takes two bytes.
panics : mount_fstype_from_proc_mounts "w /a\\bcé t\n" "/" ≡ none
unfolding mount_fstype_from_proc_mounts unescape_mount_field as_bytes lines split_whitespace
    split_on
panics = refl

interface : select_primary_network_interface ("lo" ∷ "docker0" ∷ "enp0s6" ∷ []) ≡ some "enp0s6"
unfolding select_primary_network_interface network_interface_priority trim trim_start_matches
    trim_end_matches sort_by insert_sorted
interface = refl

tools_path :
    build_tools_path (λ path. true) ("bun-1.1" ∷ "claude" ∷ "node-20" ∷ [])
    ≡ "/opt/tools/bun-1.1:/opt/tools/claude:/opt/tools/node-20/bin:/usr/local/sbin:/usr/local/bin:/usr/sbin:/usr/bin:/sbin:/bin"
unfolding build_tools_path join join_with
tools_path = refl

abbrev is_special : ℕ → Bool
is_special b = b == backslash

abbrev decoder : List ℕ → Option String
decoder bytes = some "/w x"

kernel_cmdline_read_example :
    (set_clock_from_cmdline (kernel_cmdline (pos 1700000000) "/w x" ++ "\n") ≡ pos 1700000000 ∷ [])
    × (read_cwd_from_cmdline decoder (kernel_cmdline (pos 1700000000) "/w x" ++ "\n") ≡ some "/w x")
kernel_cmdline_read_example = kernel_cmdline_read (pos 1700000000) "/w x" decoder (omega arith) refl

unescape_mount_field-escaped_example :
    unescape_mount_field (escaped is_special (97 ∷ 92 ∷ 32 ∷ [])) ≡ some (97 ∷ 92 ∷ 32 ∷ [])
unescape_mount_field-escaped_example =
    unescape_mount_field-escaped is_special (97 ∷ 92 ∷ 32 ∷ []) refl (omega arith)
