-- ===== src/Protocol/Base64/RoundTrip.antt =====
-- Both decoders give back what was encoded.
use Prim.Native.Nat.{bit_or}
use native.Mathlib.Nat.{mod-eq_of_lt}
use fend.Prelude.Bits.{pow2, or_disjoint, bit_and_mask6}
use fend.Prelude.{
  ℕ, ◌+◌, ◌*◌, ◌/◌, ◌%◌, ◌^◌, ◌<◌, ◌≡◌, refl, ◌∙◌, Bool, true, false, not, List, [], ◌∷◌, none,
  some, arith, ◌==◌, ==_iff, if◌then◌else◌, length, get_or, All, holds_below, holds_below_sound,
}
use fend.Protocol.Frame.RoundTrip.{IsByte}
use fend.Protocol.Base64.{
  b64, symbol, pack, base64_encode, val, decode_chunk, decode_chunks, base64_decode,
  is_ascii_whitespace,
}

reads_back : ℕ → Bool
reads_back n = elim (val (get_or b64 n 0)) [ some v ↦ v == n | none ↦ false ]

table : holds_below 64 reads_back ≡ true
unfolding holds_below reads_back val
table = refl

plain : ℕ → Bool
plain n = if get_or b64 n 0 == b'=' then false else not (is_ascii_whitespace (get_or b64 n 0))

plain_table : holds_below 64 plain ≡ true
unfolding holds_below plain is_ascii_whitespace
plain_table = refl

pub val-symbol : (n : ℕ) → val (symbol n) ≡ some (n % 64)
unfolding symbol reads_back
val-symbol n =
    rw (bit_and_mask6 n)
      (ground (arith, holds_below_sound reads_back 64 (n % 64) table (omega arith)))

pub symbol_unpadded : (n : ℕ) → (symbol n == b'=') ≡ false
unfolding symbol plain
symbol_unpadded n =
    rw (bit_and_mask6 n)
      (ground (arith, holds_below_sound plain 64 (n % 64) plain_table (omega arith)))

pub symbol_visible : (n : ℕ) → is_ascii_whitespace (symbol n) ≡ false
unfolding symbol plain
symbol_visible n =
    rw (bit_and_mask6 n)
      (ground (arith, holds_below_sound plain 64 (n % 64) plain_table (omega arith)))

pub pack_lem :
    (b0 b1 b2 : ℕ) → IsByte b1 → IsByte b2 → pack b0 b1 b2 ≡ b0 * 2 ^ 16 + b1 * 2 ^ 8 + b2
unfolding pack
pack_lem b0 b1 b2 h1 h2 =
    let high : bit_or (b0 * 2 ^ 16) (b1 * 2 ^ 8) ≡ b0 * 2 ^ 16 + b1 * 2 ^ 8 =
      or_disjoint 16 b0 (b1 * 2 ^ 8) (omega arith) in
    let regroup : b0 * 2 ^ 16 + b1 * 2 ^ 8 ≡ (b0 * 2 ^ 8 + b1) * 2 ^ 8 = omega arith in
    rw (high, regroup, or_disjoint 8 (b0 * 2 ^ 8 + b1) b2 h2) (omega arith)

-- Two sextets, as the decoder joins them.
join : (k a b : ℕ) → b < pow2 k → a * pow2 k < 256 → bit_or (a * pow2 k % 256) b ≡ a * pow2 k + b
join k a b h small = rw (mod-eq_of_lt small) (or_disjoint k a b h)

first_lem : (a b : ℕ) → a < 64 → b < 64 → bit_or (a * 2 ^ 2 % 256) (b / 2 ^ 4) ≡ a * 4 + b / 16
first_lem a b ha hb = join 2 a (b / 16) (omega arith) (omega arith)

second_lem : (b c : ℕ) → c < 64 → bit_or (b * 2 ^ 4 % 256) (c / 2 ^ 2) ≡ b % 16 * 16 + c / 4
second_lem b c hc =
    let low : b * 2 ^ 4 % 256 ≡ b % 16 * 16 = omega arith in
    rw low (or_disjoint 4 (b % 16) (c / 4) (omega arith))

third_lem : (c d : ℕ) → d < 64 → bit_or (c * 2 ^ 6 % 256) d ≡ c % 4 * 64 + d
third_lem c d hd =
    let low : c * 2 ^ 6 % 256 ≡ c % 4 * 64 = omega arith in rw low (or_disjoint 6 (c % 4) d hd)

-- The bytes that four, three or two symbols of a number spell.
module _ (n : ℕ) (h : n < 2 ^ 24) where
  byte1 : n / 2 ^ 18 % 64 * 4 + n / 2 ^ 12 % 64 / 16 ≡ n / 2 ^ 16
  byte1 = omega arith

  byte2 : n / 2 ^ 12 % 64 % 16 * 16 + n / 2 ^ 6 % 64 / 4 ≡ n / 2 ^ 8 % 256
  byte2 = omega arith

  byte3 : n / 2 ^ 6 % 64 % 4 * 64 + n % 64 ≡ n % 256
  byte3 = omega arith

  first_byte : bit_or (n / 2 ^ 18 % 64 * 2 ^ 2 % 256) (n / 2 ^ 12 % 64 / 2 ^ 4) ≡ n / 2 ^ 16
  first_byte = first_lem (n / 2 ^ 18 % 64) (n / 2 ^ 12 % 64) (omega arith) (omega arith) ∙ byte1

  second_byte : bit_or (n / 2 ^ 12 % 64 * 2 ^ 4 % 256) (n / 2 ^ 6 % 64 / 2 ^ 2) ≡ n / 2 ^ 8 % 256
  second_byte = second_lem (n / 2 ^ 12 % 64) (n / 2 ^ 6 % 64) (omega arith) ∙ byte2

  third_byte : bit_or (n / 2 ^ 6 % 64 * 2 ^ 6 % 256) (n % 64) ≡ n % 256
  third_byte = third_lem (n / 2 ^ 6 % 64) (n % 64) (omega arith) ∙ byte3

  chunk_of_two :
      (d : ℕ)
      → decode_chunk (symbol (n / 2 ^ 18)) (symbol (n / 2 ^ 12)) b'=' d ≡ some ((n / 2 ^ 16) ∷ [])
  unfolding decode_chunk
  chunk_of_two d = rw (val-symbol (n / 2 ^ 18), val-symbol (n / 2 ^ 12), first_byte)

  chunk_of_three :
      decode_chunk (symbol (n / 2 ^ 18)) (symbol (n / 2 ^ 12)) (symbol (n / 2 ^ 6)) b'='
      ≡ some ((n / 2 ^ 16) ∷ (n / 2 ^ 8 % 256) ∷ [])
  unfolding decode_chunk
  chunk_of_three = rw (
    val-symbol (n / 2 ^ 18),
    val-symbol (n / 2 ^ 12),
    symbol_unpadded (n / 2 ^ 6),
    val-symbol (n / 2 ^ 6),
    first_byte,
    second_byte,
  )

  chunk_of_four :
      decode_chunk (symbol (n / 2 ^ 18)) (symbol (n / 2 ^ 12)) (symbol (n / 2 ^ 6)) (symbol n)
      ≡ some ((n / 2 ^ 16) ∷ (n / 2 ^ 8 % 256) ∷ (n % 256) ∷ [])
  unfolding decode_chunk
  chunk_of_four = rw (
    val-symbol (n / 2 ^ 18),
    val-symbol (n / 2 ^ 12),
    symbol_unpadded (n / 2 ^ 6),
    symbol_unpadded n,
    val-symbol (n / 2 ^ 6),
    val-symbol n,
    first_byte,
    second_byte,
    third_byte,
  )

module _ (b0 b1 b2 : ℕ) (h0 : IsByte b0) (h1 : IsByte b1) (h2 : IsByte b2) where
  pub pack_bound : pack b0 b1 b2 < 2 ^ 24
  pack_bound = omega (arith, pack_lem b0 b1 b2 h1 h2)

  pub pack_first : pack b0 b1 b2 / 2 ^ 16 ≡ b0
  pack_first = omega (arith, pack_lem b0 b1 b2 h1 h2)

  pub pack_second : pack b0 b1 b2 / 2 ^ 8 % 256 ≡ b1
  pack_second = omega (arith, pack_lem b0 b1 b2 h1 h2)

  pub pack_third : pack b0 b1 b2 % 256 ≡ b2
  pack_third = omega (arith, pack_lem b0 b1 b2 h1 h2)

decode_chunks-base64_encode :
    (bs : List ℕ) → All IsByte bs → decode_chunks (base64_encode bs) ≡ some bs
unfolding decode_chunks base64_encode
decode_chunks-base64_encode [] h = refl
decode_chunks-base64_encode (b0 ∷ []) h = rw (
  chunk_of_two (pack b0 0 0) (pack_bound b0 0 0 h.0 (omega arith) (omega arith)) b'=',
  pack_first b0 0 0 h.0 (omega arith) (omega arith),
)
decode_chunks-base64_encode (b0 ∷ b1 ∷ []) h = rw (
  chunk_of_three (pack b0 b1 0) (pack_bound b0 b1 0 h.0 h.1.0 (omega arith)),
  pack_first b0 b1 0 h.0 h.1.0 (omega arith),
  pack_second b0 b1 0 h.0 h.1.0 (omega arith),
)
decode_chunks-base64_encode (b0 ∷ b1 ∷ b2 ∷ rest) h = rw (
  chunk_of_four (pack b0 b1 b2) (pack_bound b0 b1 b2 h.0 h.1.0 h.1.1.0),
  pack_first b0 b1 b2 h.0 h.1.0 h.1.1.0,
  pack_second b0 b1 b2 h.0 h.1.0 h.1.1.0,
  pack_third b0 b1 b2 h.0 h.1.0 h.1.1.0,
  decode_chunks-base64_encode rest h.1.1.1,
)

length-base64_encode : (bs : List ℕ) → length (base64_encode bs) % 4 ≡ 0
unfolding base64_encode
length-base64_encode [] = refl
length-base64_encode (b0 ∷ []) = refl
length-base64_encode (b0 ∷ b1 ∷ []) = refl
length-base64_encode (b0 ∷ b1 ∷ b2 ∷ rest) = omega (arith, length-base64_encode rest)

checked : (text : List ℕ) → length text % 4 ≡ 0 → base64_decode text ≡ decode_chunks text
unfolding base64_decode decode_chunks
checked [] h = refl
checked (c ∷ cs) h = rw ((==_iff (length (c ∷ cs) % 4) 0).1 h)

-- The guest decodes what was encoded, for every list of bytes.
pub base64_decode-base64_encode :
    (bs : List ℕ) → All IsByte bs → base64_decode (base64_encode bs) ≡ some bs
base64_decode-base64_encode bs h =
    checked (base64_encode bs) (length-base64_encode bs) ∙ decode_chunks-base64_encode bs h
