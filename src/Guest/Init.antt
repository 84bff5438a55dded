-- ===== src/Guest/Init.antt =====
-- fendd/src/init.rs: what the guest daemon reads of /proc, and the network interface and the search
-- path that it chooses.
pub mod Escapes
pub mod Cmdline
mod Tests
use text.Mathlib.Text.{◌==◌ as str_eq, starts_with}
use Prim.Native.String.{compare}
use Prim.Native.Nat.{Ordering}
use Prim.Native.String
use fend.Prelude.{
  ℕ, ◌+◌, ◌-◌, ◌*◌, ◌<◌, String, Bool, true, false, not, ◌&&◌, ◌||◌, Option, none, some, List, [],
  ◌∷◌, ◌++◌, leb, ltb, ◌==◌, if◌then◌else◌, map, keep_if, sort_by,
}
use fend.Prelude.Int.{ℤ}
use fend.Prelude.Text.{codes, as_bytes, is_empty, join_with, join}
use fend.Prelude.Words.{lines, split_whitespace, trim, strip_prefix}
use fend.Protocol.Base64.{base64_decode}
use fend.Cli.Numbers.{parse_i64}

abbrev pub backslash : ℕ
backslash = 92

abbrev pub is_octal : ℕ → Bool
is_octal b = leb b'0' b && leb b b'7'

abbrev pub octal_value : ℕ → ℕ → ℕ → ℕ
octal_value a b c = (a - b'0') * 64 + (b - b'0') * 8 + (c - b'0')

-- Where a slice may end: before a byte that begins a character, or at the end of the text.
abbrev pub at_boundary : List ℕ → Bool
at_boundary [] = true
at_boundary (b ∷ bs) = ltb b 128 || leb 192 b

abbrev pub push : ℕ → Option (List ℕ) → Option (List ℕ)
push c none = none
push c (some out) = some (c ∷ out)

-- `unescape_mount_field`, over the bytes of the field; each byte becomes the character of that
-- number. `none` is the panic of a slice that ends within a character.
unfoldable pub unescape_mount_field : List ℕ → Option (List ℕ)
unescape_mount_field [] = some []
unescape_mount_field (x ∷ []) = some (x ∷ [])
unescape_mount_field (x ∷ a ∷ []) = some (x ∷ a ∷ [])
unescape_mount_field (x ∷ a ∷ b ∷ []) = some (x ∷ a ∷ b ∷ [])
unescape_mount_field (x ∷ a ∷ b ∷ c ∷ rest) =
    let decoded = push (octal_value a b c) (unescape_mount_field rest) in
    let copied = push x (unescape_mount_field (a ∷ b ∷ c ∷ rest)) in
    if not (x == backslash)
    then copied
    else if not (at_boundary rest)
    then none
    else if is_octal a && (is_octal b && (is_octal c && leb (octal_value a b c) 255))
    then decoded
    else copied

abbrev pub same_codes : List ℕ → List ℕ → Bool
same_codes [] [] = true
same_codes (a ∷ as') (b ∷ bs) = a == b && same_codes as' bs
same_codes _ _ = false

-- A line whose mount point is the target: its file system type. The outer option is the panic.
on_mount_point : Option (List ℕ) → String → String → Option (Option String)
on_mount_point none target fstype = none
on_mount_point (some mount_point) target fstype =
    if same_codes mount_point (codes target) then some (some fstype) else some none

mount_line : String → List String → Option (Option String)
unfolding on_mount_point unescape_mount_field as_bytes
mount_line target (source ∷ point ∷ fstype ∷ fields) =
    on_mount_point (unescape_mount_field (as_bytes point)) target fstype
mount_line target (source ∷ point ∷ []) = elim (unescape_mount_field (as_bytes point)) [
  | none ↦ none
  | some mount_point ↦ some none
]
mount_line target _ = some none

find_mount : String → List String → Option (Option String)
unfolding mount_line split_whitespace
find_mount target [] = some none
find_mount target (line ∷ rest) = elim (mount_line target (split_whitespace line)) [
  | none ↦ none
  | some none ↦ find_mount target rest
  | some (some fstype) ↦ some (some fstype)
]

unfoldable pub mount_fstype_from_proc_mounts : String → String → Option (Option String)
unfolding find_mount lines
mount_fstype_from_proc_mounts mounts target = find_mount target (lines mounts)

epochs : List String → List ℤ
unfolding strip_prefix parse_i64
epochs [] = []
epochs (param ∷ params) = elim (strip_prefix "fend.epoch=" param) [
  | none ↦ epochs params
  | some epoch_str ↦ elim (parse_i64 epoch_str) [
    | none ↦ epochs params
    | some epoch ↦ epoch ∷ epochs params
  ]
]

-- `set_clock_from_cmdline`: the seconds that the clock is set to, one after the other.
unfoldable pub set_clock_from_cmdline : String → List ℤ
unfolding epochs split_whitespace
set_clock_from_cmdline cmdline = epochs (split_whitespace cmdline)

-- `from_utf8` is that of the standard library.
module _ (from_utf8 : List ℕ → Option String) where
  unfoldable pub cwd_of : List String → Option String
  unfolding strip_prefix as_bytes base64_decode
  cwd_of [] = none
  cwd_of (param ∷ params) = elim (strip_prefix "fend.cwd=" param) [
    | none ↦ cwd_of params
    | some b64 ↦ elim (base64_decode (as_bytes b64)) [
      | none ↦ cwd_of params
      | some bytes ↦ from_utf8 bytes
    ]
  ]

  unfoldable pub read_cwd_from_cmdline : String → Option String
  unfolding cwd_of split_whitespace
  read_cwd_from_cmdline cmdline = cwd_of (split_whitespace cmdline)

unfoldable pub network_interface_priority : String → ℕ
network_interface_priority name =
    if starts_with name "en" || starts_with name "eth"
    then 0
    else if starts_with name "wl" || starts_with name "ww"
    then 1
    else 2

-- The order of texts.
abbrev str_le : String → String → Bool
str_le a b = elim (compare a b) [ Ordering.gt ↦ false | _ ↦ true ]

-- `sort_by_key(|name| (priority(name), name))`.
abbrev pub before : String → String → Bool
before a b =
    if ltb (network_interface_priority a) (network_interface_priority b)
    then true
    else network_interface_priority a == network_interface_priority b && str_le a b

abbrev pub candidate : String → Bool
candidate name = not (is_empty name) && not (str_eq name "lo")

abbrev first : List String → Option String
first [] = none
first (name ∷ names) = some name

unfoldable pub select_primary_network_interface : List String → Option String
unfolding trim sort_by network_interface_priority
select_primary_network_interface names = first (sort_by before (keep_if candidate (map trim names)))

-- `exists` tells which paths are there; `entries` are the names in /opt/tools, sorted.
module _ (exists : String → Bool) where
  tool_dir : String → List String
  unfolding join
  tool_dir name =
      let path = join "/opt/tools" name in
      if starts_with name "node-"
      then (if exists (join path "bin") then join path "bin" ∷ [] else [])
      else if starts_with name "bun-"
      then (if exists (join path "bun") then path ∷ [] else [])
      else if (str_eq name "claude" || starts_with name "claude-") && exists (join path "claude")
      then path ∷ []
      else []

  tool_dirs : List String → List String
  unfolding tool_dir
  tool_dirs [] = []
  tool_dirs (name ∷ names) = tool_dir name ++ tool_dirs names

  unfoldable pub build_tools_path : List String → String
  unfolding tool_dirs join_with
  build_tools_path entries = join_with ":" (
      tool_dirs entries
      ++ "/usr/local/sbin" ∷ "/usr/local/bin" ∷ "/usr/sbin" ∷ "/usr/bin" ∷ "/sbin" ∷ "/bin" ∷ [])

  unfoldable pub find_claude_bin : List String → Option String
  unfolding join
  find_claude_bin [] = none
  find_claude_bin (name ∷ names) =
      let candidate' = join (join "/opt/tools" name) "claude" in
      let rest = find_claude_bin names in
      if (str_eq name "claude" || starts_with name "claude-") && exists candidate'
      then some candidate'
      else rest

  unfoldable pub find_tool_bin : String → List String → Option String
  unfolding join
  find_tool_bin tool [] = none
  find_tool_bin tool (name ∷ names) =
      let candidate' = join (join (join "/opt/tools" name) "bin") tool in
      let rest = find_tool_bin tool names in if exists candidate' then some candidate' else rest
