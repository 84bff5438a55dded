-- ===== src/Session/Ports/Feed.antt =====
-- Frames that come whole are read as they were written.
use mathlib.Core.List.{append_assoc}
use fend.Prelude.{
  ℕ, ◌≤◌, ◌^◌, ◌/◌, ◌%◌, ◌≡◌, refl, ap, ◌∙◌, List, [], ◌∷◌, ◌++◌, map, ok, ltb, length, arith,
  false,
}
use fend.Protocol.Frame.{port_event, max_payload, from_be_bytes, to_be_bytes, write_frame}
use fend.Protocol.Frame.RoundTrip.{from_be-to_be}
use fend.Session.Ports.{
  Item, byte, consed, read_exact, with_kind, after_header, read_frame, message_port_event,
}

abbrev pub bytes : List ℕ → List Item
bytes = map byte

bytes-append : (a b : List ℕ) → bytes (a ++ b) ≡ bytes a ++ bytes b
bytes-append [] b = refl
bytes-append (x ∷ a) b = ap (λ t. byte x ∷ t) (bytes-append a b)

read_exact-bytes :
    (p : List ℕ) (rest : List Item) → read_exact (length p) (bytes p ++ rest) ≡ (ok p, rest)
unfolding read_exact
read_exact-bytes [] rest = refl
read_exact-bytes (x ∷ p) rest = ap (consed x) (read_exact-bytes p rest)

after_header_lem :
    (kind a b c d : ℕ) (p : List ℕ) (rest : List Item)
    → from_be_bytes a b c d ≡ length p
    → length p ≤ max_payload
    → after_header (ok (kind ∷ a ∷ b ∷ c ∷ d ∷ []), bytes p ++ rest) ≡ (ok (kind, p), rest)
unfolding after_header with_kind
after_header_lem kind a b c d p rest e fits =
    let small : ltb max_payload (length p) ≡ false = ground arith in
    rw (e, small, read_exact-bytes p rest) refl

read_exact-header :
    (k a b c d : ℕ) (feed : List Item)
    → read_exact 5 (byte k ∷ byte a ∷ byte b ∷ byte c ∷ byte d ∷ feed)
      ≡ (ok (k ∷ a ∷ b ∷ c ∷ d ∷ []), feed)
unfolding read_exact
read_exact-header k a b c d feed = refl

pub read_frame-bytes :
    (p : List ℕ) (rest : List Item)
    → length p ≤ max_payload
    → read_frame (bytes (write_frame [] port_event p) ++ rest) ≡ (ok (message_port_event, p), rest)
unfolding read_frame write_frame to_be_bytes
read_frame-bytes p rest fits =
    ap after_header (
      read_exact-header 5 (length p % 2 ^ 32 / 2 ^ 24) (length p % 2 ^ 32 / 2 ^ 16 % 256)
        (length p % 2 ^ 32 / 2 ^ 8 % 256) (length p % 2 ^ 32 % 256) (bytes p ++ rest))
    ∙ after_header_lem 5 (length p % 2 ^ 32 / 2 ^ 24) (length p % 2 ^ 32 / 2 ^ 16 % 256)
        (length p % 2 ^ 32 / 2 ^ 8 % 256) (length p % 2 ^ 32 % 256) p rest
        (from_be-to_be (length p) (omega arith)) fits

-- The same where more bytes follow.
pub read_frame-bytes_more :
    (p more : List ℕ) (rest : List Item)
    → length p ≤ max_payload
    → read_frame (bytes (write_frame [] port_event p ++ more) ++ rest)
      ≡ (ok (message_port_event, p), bytes more ++ rest)
read_frame-bytes_more p more rest fits =
    ap read_frame (
      ap (λ t. t ++ rest) (bytes-append (write_frame [] port_event p) more)
      ∙ append_assoc (bytes (write_frame [] port_event p)) (bytes more) rest)
    ∙ read_frame-bytes p (bytes more ++ rest) fits
