-- ===== src/Guest/ProcNet/Tests.antt =====
-- The tables of the code's own tests, and one with a connection to the IPv6 loopback address.
use fend.Prelude.{◌≡◌, refl, true, false, List, [], ◌∷◌}
use fend.Prelude.Text.{concat, join_with, show, split_once}
use fend.Prelude.Words.{lines, split_whitespace, split_on}
use fend.Guest.ProcNet.{
  parse_listening_ports, from_hex, Conn, collect, connection_of, parse_v4, parse_v6, slice,
  take_chars, drop_chars, length_of,
}

listening :
    parse_listening_ports
      "  sl  local_address rem_address   st\n   0: 00000000:0050 00000000:0000 0A\n   1: 00000000:01BB 00000000:0000 0A\n   2: 00000000:0051 00000001:1234 01\n"
    ≡ 443 ∷ 80 ∷ []
unfolding parse_listening_ports from_hex lines split_whitespace split_on
listening = refl

abbrev conn_of_established : List Conn
conn_of_established = record { remote = "93.184.216.34"; port = 443; state = "established" } ∷ []

established :
    collect "  sl  local_address rem_address   st\n   0: 0F02000A:A1B2 22D8B85D:01BB 01\n" false []
    ≡ conn_of_established
unfolding collect connection_of parse_v4 slice take_chars drop_chars length_of from_hex concat show
    split_once lines split_whitespace split_on
established = refl

loopback_skipped :
    collect "  sl  local_address rem_address   st\n   0: 0100007F:A1B2 0100007F:0BB8 01\n" false []
    ≡ []
unfolding collect connection_of parse_v4 slice take_chars drop_chars length_of from_hex concat show
    split_once lines split_whitespace split_on
loopback_skipped = refl

abbrev conn_of_loopback6 : List Conn
conn_of_loopback6 =
    record {
      remote = "0000:0000:0000:0000:0000:0000:0000:0001";
      port = 3000;
      state = "established";
    }
    ∷ []

-- The text of an IPv6 address is never `::1`, so its loopback is reported.
loopback6_kept :
    collect
      "  sl\n   0: 00000000000000000000000001000000:A1B2 00000000000000000000000001000000:0BB8 01\n"
      true []
    ≡ conn_of_loopback6
unfolding collect connection_of parse_v6 slice take_chars drop_chars length_of from_hex concat
    join_with split_once lines split_whitespace split_on
loopback6_kept = refl
