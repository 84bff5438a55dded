-- ===== src/Session/Ports/Loss.antt =====
-- A pause within a frame: the bytes before it are lost.
use fend.Prelude.{
  ℕ, zero, suc, ◌≤◌, ◌<◌, ◌≡◌, refl, ap, ◌∙◌, Bool, false, List, [], ◌∷◌, ◌++◌, drop, err, get_or,
  length, length-append, ltb, arith,
}
use fend.Protocol.Frame.{port_event, max_payload, from_be_bytes, to_be_bytes, write_frame}
use fend.Protocol.Frame.RoundTrip.{from_be-to_be}
use fend.Session.Ports.{
  Item, byte, pause, timed_out, Json, Listeners, waits, consed, on_read, read_exact, with_kind,
  after_header, read_frame, forward_turn,
}
use fend.Session.Ports.Feed.{bytes}

read_exact-short :
    (n : ℕ) (a : List ℕ) (rest : List Item)
    → length a < n
    → read_exact n (bytes a ++ pause ∷ rest) ≡ (err timed_out, rest)
unfolding read_exact
read_exact-short zero a rest h = absurd (omega arith)
read_exact-short (suc n) [] rest h = refl
read_exact-short (suc n) (x ∷ a) rest h = ap (consed x) (read_exact-short n a rest (omega arith))

after_header-short :
    (k a b c d n : ℕ) (q : List ℕ) (rest : List Item)
    → from_be_bytes a b c d ≡ n
    → n ≤ max_payload
    → length q < n
    → after_header
        (read_exact 5 (byte k ∷ byte a ∷ byte b ∷ byte c ∷ byte d ∷ bytes q ++ pause ∷ rest))
      ≡ (err timed_out, rest)
unfolding after_header with_kind read_exact
after_header-short k a b c d n q rest e fits short =
    let small : ltb max_payload n ≡ false = ground arith in
    rw (e, small, read_exact-short n q rest short) refl

module _ (p : List ℕ) (fits : length p ≤ max_payload) where
  -- A frame of which only the first part, not all of it, came before the pause.
  read_frame-torn :
      (first second : List ℕ) (rest : List Item)
      → first ++ second ≡ write_frame [] port_event p
      → 0 < length second
      → read_frame (bytes first ++ pause ∷ rest) ≡ (err timed_out, rest)
  unfolding read_frame write_frame to_be_bytes from_be_bytes
  read_frame-torn [] second rest e left = ap after_header (read_exact-short 5 [] rest (omega arith))
  read_frame-torn (k ∷ []) second rest e left =
      ap after_header (read_exact-short 5 (k ∷ []) rest (omega arith))
  read_frame-torn (k ∷ a ∷ []) second rest e left =
      ap after_header (read_exact-short 5 (k ∷ a ∷ []) rest (omega arith))
  read_frame-torn (k ∷ a ∷ b ∷ []) second rest e left =
      ap after_header (read_exact-short 5 (k ∷ a ∷ b ∷ []) rest (omega arith))
  read_frame-torn (k ∷ a ∷ b ∷ c ∷ []) second rest e left =
      ap after_header (read_exact-short 5 (k ∷ a ∷ b ∷ c ∷ []) rest (omega arith))
  read_frame-torn (k ∷ a ∷ b ∷ c ∷ d ∷ q) second rest e left =
      after_header-short k a b c d (length p) q rest same fits shorter
    where
      same : from_be_bytes a b c d ≡ length p
      same =
          ap (λ l. from_be_bytes (get_or l 1 0) (get_or l 2 0) (get_or l 3 0) (get_or l 4 0)) e
          ∙ from_be-to_be (length p) (omega arith)

      shorter : length q < length p
      shorter =
          let whole : q ++ second ≡ p = ap (drop 5) e in
          omega (arith, length-append q second, ap length whole)

  -- When the timeout of the socket passes within a frame, whatever part of it has come is thrown
  -- away, and the loop goes on with the other part as if a frame began there.
  pub forward_turn-torn :
      (j : Json) (binds : Listeners → ℕ → Bool) (first second : List ℕ) (rest : List Item)
      (listeners : Listeners)
      → first ++ second ≡ write_frame [] port_event p
      → 0 < length second
      → forward_turn j binds (waits (bytes first ++ pause ∷ (bytes second ++ rest)) listeners)
        ≡ waits (bytes second ++ rest) listeners
  unfolding forward_turn on_read
  forward_turn-torn j binds first second rest listeners e left =
      ap (λ r. on_read j binds r listeners)
        (read_frame-torn first second (bytes second ++ rest) e left)
