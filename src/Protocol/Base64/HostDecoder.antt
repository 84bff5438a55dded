-- ===== src/Protocol/Base64/HostDecoder.antt =====
-- The host's decoder of linux/src/session.rs on what the guest's encoder wrote.
use Prim.Native.Nat.{bit_and, bit_or}
use fend.Prelude.Bits.{or_disjoint, bit_and_mask8}
use fend.Prelude.{
  ℕ, ◌+◌, ◌*◌, ◌/◌, ◌%◌, ◌^◌, ◌<◌, ◌≡◌, refl, sym, ◌∙◌, Bool, false, not, List, [], ◌∷◌, some,
  arith, All, keep_if,
}
use fend.Protocol.Frame.RoundTrip.{IsByte}
use fend.Protocol.Base64.RoundTrip.{
  val-symbol, symbol_unpadded, symbol_visible, pack_lem, pack_bound, pack_first, pack_second,
  pack_third,
}
use fend.Protocol.Base64.{
  symbol, pack, base64_encode, is_ascii_whitespace, host_chunk, host_loop, host_base64_decode,
}

-- The sextets of n, joined again.
joined :
    (n c d : ℕ)
    → n < 2 ^ 24
    → c ≡ n / 2 ^ 6 % 64
    → d ≡ n % 64
    → bit_or (bit_or (bit_or (n / 2 ^ 18 % 64 * 2 ^ 18) (n / 2 ^ 12 % 64 * 2 ^ 12)) (c * 2 ^ 6)) d
      ≡ n
joined n c d h ec ed =
    let a : ℕ = n / 2 ^ 18 % 64 in
    let b : ℕ = n / 2 ^ 12 % 64 in
    let e1 : bit_or (a * 2 ^ 18) (b * 2 ^ 12) ≡ (a * 64 + b) * 2 ^ 12 =
      or_disjoint 18 a (b * 2 ^ 12) (omega arith) ∙ omega arith in
    let e2 : bit_or ((a * 64 + b) * 2 ^ 12) (c * 2 ^ 6) ≡ ((a * 64 + b) * 64 + c) * 2 ^ 6 =
      or_disjoint 12 (a * 64 + b) (c * 2 ^ 6) (omega arith) ∙ omega arith in
    rw (e1, e2, or_disjoint 6 ((a * 64 + b) * 64 + c) d (omega arith)) (omega arith)

byte_of : (b : ℕ) → b < 256 → bit_and b 0xFF ≡ b
byte_of b h = bit_and_mask8 b ∙ omega arith

module _ (n : ℕ) (h : n < 2 ^ 24) where
  host_four :
      host_chunk (symbol (n / 2 ^ 18)) (symbol (n / 2 ^ 12)) (symbol (n / 2 ^ 6)) (symbol n)
      ≡ some ((n / 2 ^ 16) ∷ (n / 2 ^ 8 % 256) ∷ (n % 256) ∷ [])
  unfolding host_chunk
  host_four = rw (
    symbol_unpadded (n / 2 ^ 6),
    symbol_unpadded n,
    val-symbol (n / 2 ^ 18),
    val-symbol (n / 2 ^ 12),
    val-symbol (n / 2 ^ 6),
    val-symbol n,
    joined n _ _ h refl refl,
    byte_of (n / 2 ^ 16) (omega arith),
    bit_and_mask8 (n / 2 ^ 8),
    bit_and_mask8 n,
  )

  host_three :
      n % 64 ≡ 0
      → host_chunk (symbol (n / 2 ^ 18)) (symbol (n / 2 ^ 12)) (symbol (n / 2 ^ 6)) b'='
        ≡ some ((n / 2 ^ 16) ∷ (n / 2 ^ 8 % 256) ∷ [])
  unfolding host_chunk
  host_three e = rw (
    symbol_unpadded (n / 2 ^ 6),
    val-symbol (n / 2 ^ 18),
    val-symbol (n / 2 ^ 12),
    val-symbol (n / 2 ^ 6),
    joined n _ 0 h refl (sym e),
    byte_of (n / 2 ^ 16) (omega arith),
    bit_and_mask8 (n / 2 ^ 8),
  )

  host_two :
      n % 2 ^ 12 ≡ 0
      → host_chunk (symbol (n / 2 ^ 18)) (symbol (n / 2 ^ 12)) b'=' b'=' ≡ some ((n / 2 ^ 16) ∷ [])
  unfolding host_chunk
  host_two e = rw (
    val-symbol (n / 2 ^ 18),
    val-symbol (n / 2 ^ 12),
    joined n 0 0 h (omega arith) (omega arith),
    byte_of (n / 2 ^ 16) (omega arith),
  )

host_loop-base64_encode : (bs : List ℕ) → All IsByte bs → host_loop (base64_encode bs) ≡ some bs
unfolding host_loop base64_encode
host_loop-base64_encode [] h = refl
host_loop-base64_encode (b0 ∷ []) h = rw (
  host_two (pack b0 0 0) (pack_bound b0 0 0 h.0 (omega arith) (omega arith))
      (omega (arith, pack_lem b0 0 0)),
  pack_first b0 0 0 h.0 (omega arith) (omega arith),
)
host_loop-base64_encode (b0 ∷ b1 ∷ []) h = rw (
  host_three (pack b0 b1 0) (pack_bound b0 b1 0 h.0 h.1.0 (omega arith))
      (omega (arith, pack_lem b0 b1 0 h.1.0)),
  pack_first b0 b1 0 h.0 h.1.0 (omega arith),
  pack_second b0 b1 0 h.0 h.1.0 (omega arith),
)
host_loop-base64_encode (b0 ∷ b1 ∷ b2 ∷ rest) h = rw (
  host_four (pack b0 b1 b2) (pack_bound b0 b1 b2 h.0 h.1.0 h.1.1.0),
  pack_first b0 b1 b2 h.0 h.1.0 h.1.1.0,
  pack_second b0 b1 b2 h.0 h.1.0 h.1.1.0,
  pack_third b0 b1 b2 h.0 h.1.0 h.1.1.0,
  host_loop-base64_encode rest h.1.1.1,
)

abbrev visible : ℕ → Bool
visible byte = not (is_ascii_whitespace byte)

pad_visible : is_ascii_whitespace b'=' ≡ false
unfolding is_ascii_whitespace
pad_visible = refl

keep_if-base64_encode : (bs : List ℕ) → keep_if visible (base64_encode bs) ≡ base64_encode bs
unfolding base64_encode
keep_if-base64_encode [] = refl
keep_if-base64_encode (b0 ∷ []) = simp (symbol_visible, pad_visible)
keep_if-base64_encode (b0 ∷ b1 ∷ []) = simp (symbol_visible, pad_visible)
keep_if-base64_encode (b0 ∷ b1 ∷ b2 ∷ rest) = simp (symbol_visible, keep_if-base64_encode rest)

-- The host decodes what the guest encoded, for every list of bytes.
pub host_base64_decode-base64_encode :
    (bs : List ℕ) → All IsByte bs → host_base64_decode (base64_encode bs) ≡ some bs
unfolding host_base64_decode
host_base64_decode-base64_encode bs h = rw (keep_if-base64_encode bs) (host_loop-base64_encode bs h)
