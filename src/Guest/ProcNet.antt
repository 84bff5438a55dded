-- ===== src/Guest/ProcNet.antt =====
-- The tables /proc/net/tcp and /proc/net/tcp6 as fendd/src/port_monitor.rs and network_monitor.rs
-- read them.
mod Tests
use text.Mathlib.Text.{◌==◌ as str_eq, starts_with}
use Prim.Native.Char.{Char, code}
use Prim.Native.String
use fend.Prelude.{
  ℕ, zero, suc, ◌+◌, ◌-◌, ◌*◌, String, Bool, true, false, ◌&&◌, ◌||◌, Option, none, some, List, [],
  ◌∷◌, ◌++◌, leb, ltb, ◌==◌, if◌then◌else◌, get_elem?, unwrap_or,
}
use fend.Prelude.Text.{concat, join_with, show, split_once}
use fend.Prelude.Words.{lines, split_whitespace, split_on}
use fend.Guest.PortMonitor.{contains}

abbrev pub hex_value : ℕ → Option ℕ
hex_value c =
    if leb b'0' c && leb c b'9'
    then some (c - b'0')
    else if leb b'a' c && leb c b'f'
    then some (c - b'a' + 10)
    else if leb b'A' c && leb c b'F'
    then some (c - b'A' + 10)
    else none

hex_from : ℕ → String → Option ℕ
hex_from n String.[] = some n
hex_from n (String.◌∷◌ c s) = elim (hex_value (code c)) [
  | none ↦ none
  | some d ↦ hex_from (n * 16 + d) s
]

hex_digits : String → Option ℕ
unfolding hex_from
hex_digits String.[] = none
hex_digits (String.◌∷◌ c s) = hex_from 0 (String.◌∷◌ c s)

below : ℕ → Option ℕ → Option ℕ
below max none = none
below max (some n) = if leb n max then some n else none

-- `from_str_radix(16)` of an unsigned type with the given maximum: a leading `+` is allowed.
unfoldable pub from_hex : ℕ → String → Option ℕ
unfolding hex_digits below
from_hex max String.[] = none
from_hex max (String.◌∷◌ c s) =
    if code c == b'+' then below max (hex_digits s) else below max (hex_digits (String.◌∷◌ c s))

-- `HashSet::insert`.
abbrev pub insert_port : ℕ → List ℕ → List ℕ
insert_port port ports = if contains port ports then ports else port ∷ ports

nonzero : Option ℕ → Option ℕ
nonzero none = none
nonzero (some port) = if ltb 0 port then some port else none

port_of : Option String → Option ℕ
unfolding from_hex nonzero
port_of none = none
port_of (some port_hex) = nonzero (from_hex 65535 port_hex)

-- The port of a line, if it listens: the fourth field is `0A`.
listening_port : List String → Option ℕ
unfolding port_of split_on
listening_port (sl ∷ local_address ∷ rem_address ∷ st ∷ fields) =
    if str_eq st "0A" then port_of (get_elem? (split_on b':' local_address) 1) else none
listening_port _ = none

abbrev skip_header : List String → List String
skip_header [] = []
skip_header (l ∷ ls) = ls

listening_ports : List ℕ → List String → List ℕ
unfolding listening_port split_whitespace
listening_ports ports [] = ports
listening_ports ports (line ∷ rest) =
    listening_ports
      (elim (listening_port (split_whitespace line)) [
        | none ↦ ports
        | some port ↦ insert_port port ports
      ])
      rest

unfoldable pub parse_listening_ports : String → List ℕ
unfolding listening_ports lines
parse_listening_ports content = listening_ports [] (skip_header (lines content))

abbrev extend : List ℕ → List ℕ → List ℕ
extend ports [] = ports
extend ports (p ∷ ps) = extend (insert_port p ports) ps

abbrev scan_file : List ℕ → Option String → List ℕ
scan_file ports none = ports
scan_file ports (some content) = extend ports (parse_listening_ports content)

-- The two files as they were read, where they were.
unfoldable pub scan_listening_ports : Option String → Option String → List ℕ
unfolding parse_listening_ports
scan_listening_ports tcp tcp6 = scan_file (scan_file [] tcp) tcp6

pub record Conn : Type 0 where
  pub remote : String
  pub port : ℕ
  pub state : String

abbrev pub conn_eq : Conn → Conn → Bool
conn_eq a b = str_eq a.remote b.remote && (a.port == b.port && str_eq a.state b.state)

-- The first characters of a text and the rest. The tables are ASCII, where a byte is a character;
-- a slice of the code that ends within a character panics.
unfoldable pub take_chars : ℕ → String → String
take_chars zero s = ""
take_chars (suc n) String.[] = ""
take_chars (suc n) (String.◌∷◌ c s) = String.◌∷◌ c (take_chars n s)

unfoldable pub drop_chars : ℕ → String → String
drop_chars zero s = s
drop_chars (suc n) String.[] = ""
drop_chars (suc n) (String.◌∷◌ c s) = drop_chars n s

unfoldable pub length_of : String → ℕ
length_of String.[] = 0
length_of (String.◌∷◌ c s) = suc (length_of s)

-- `&hex[i..i + n]`.
unfoldable pub slice : ℕ → ℕ → String → String
unfolding take_chars drop_chars
slice i n s = take_chars n (drop_chars i s)

octet : ℕ → String → String
unfolding slice from_hex show
octet i hex = show (unwrap_or 0 (from_hex 255 (slice (i * 2) 2 hex)))

unfoldable pub parse_v4 : String → Option String
unfolding octet length_of concat
parse_v4 hex =
    if length_of hex == 8
    then some
        (concat (octet 3 hex ∷ "." ∷ octet 2 hex ∷ "." ∷ octet 1 hex ∷ "." ∷ octet 0 hex ∷ []))
    else none

-- The two groups of a 32-bit word, its bytes in reverse.
abbrev pub groups : String → ℕ → List String
groups hex word =
    let chunk = slice (word * 8) 8 hex in
    concat (slice 6 2 chunk ∷ slice 4 2 chunk ∷ [])
    ∷ concat (slice 2 2 chunk ∷ slice 0 2 chunk ∷ [])
    ∷ []

unfoldable pub parse_v6 : String → Option String
unfolding slice length_of concat join_with
parse_v6 hex =
    if length_of hex == 32
    then some (join_with ":" (groups hex 0 ++ (groups hex 1 ++ (groups hex 2 ++ groups hex 3))))
    else none

state_of : String → Option String
state_of st =
    if str_eq st "01" then some "established" else if str_eq st "02" then some "syn_sent" else none

-- `ip.starts_with("127.") || ip == "::1" || ip.starts_with("0.0.0.0")`.
abbrev pub skipped : String → Bool
skipped ip = starts_with ip "127." || (str_eq ip "::1" || starts_with ip "0.0.0.0")

abbrev parse_ip : Bool → String → Option String
parse_ip true = parse_v6
parse_ip false = parse_v4

remote_conn : String → Option ℕ → Option String → Option Conn
remote_conn state none ip = none
remote_conn state (some port) none = none
remote_conn state (some port) (some ip) =
    if skipped ip then none else some (record { remote = ip; port = port; state = state })

at_remote : Bool → Option (String × String) → String → Option Conn
unfolding remote_conn from_hex parse_v4 parse_v6
at_remote v6 none state = none
at_remote v6 (some (ip_hex, port_hex)) state =
    remote_conn state (from_hex 65535 port_hex) (parse_ip v6 ip_hex)

-- The connection of a line, if the code keeps it.
unfoldable pub connection_of : Bool → List String → Option Conn
unfolding at_remote state_of split_once
connection_of v6 (sl ∷ local_address ∷ rem ∷ st ∷ parts) = elim (state_of st) [
  | none ↦ none
  | some state ↦ at_remote v6 (split_once b':' rem) state
]
connection_of v6 _ = none

abbrev pub has_conn : Conn → List Conn → Bool
has_conn c [] = false
has_conn c (d ∷ ds) = conn_eq d c || has_conn c ds

abbrev pub insert_conn : Conn → List Conn → List Conn
insert_conn c out = if has_conn c out then out else c ∷ out

collect_lines : Bool → List String → List Conn → List Conn
unfolding connection_of split_whitespace
collect_lines v6 [] out = out
collect_lines v6 (line ∷ rest) out =
    collect_lines v6 rest
      (elim (connection_of v6 (split_whitespace line)) [ none ↦ out | some c ↦ insert_conn c out ])

unfoldable pub collect : String → Bool → List Conn → List Conn
unfolding collect_lines lines
collect data' v6 out = collect_lines v6 (skip_header (lines data')) out

abbrev collect_file : Option String → Bool → List Conn → List Conn
collect_file none v6 out = out
collect_file (some content) v6 out = collect content v6 out

unfoldable pub scan_connections : Option String → Option String → List Conn
unfolding collect
scan_connections tcp tcp6 = collect_file tcp6 true (collect_file tcp false [])
