-- ===== src/Protocol/Base64.antt =====
-- Base64: `base64_encode` and `base64_decode` of fendd/src/protocol.rs, and the host's decoder in
-- linux/src/session.rs. Text is the list of its bytes; a byte is a number below 256.

pub mod RoundTrip
pub mod HostDecoder
use Prim.Native.Nat.{bit_and, bit_or}
use fend.Prelude.{
  ℕ, ◌+◌, ◌-◌, ◌*◌, ◌/◌, ◌%◌, ◌^◌, Bool, true, false, ◌&&◌, List, [], ◌∷◌, ◌++◌, Option, none, some,
  leb, ◌==◌, if◌then◌else◌, length, get_or, keep_if, not,
}
use fend.Prelude.Text.{codes}

abbrev pub b64 : List ℕ
b64 = codes "ABCDEFGHIJKLMNOPQRSTUVWXYZabcdefghijklmnopqrstuvwxyz0123456789+/"

-- `Option::and_then`, for `?` on an `Option`.
infixl 5 ◌>>=◌
abbrev pub ◌>>=◌ {ℓ κ} : {A : Type ℓ} {B : Type κ} → Option A → (A → Option B) → Option B
none >>= f = none
some a >>= f = f a

-- `B64[(n & 0x3F) as usize] as char`.
unfoldable pub symbol : ℕ → ℕ
symbol n = get_or b64 (bit_and n 0x3F) 0

-- `(b0 << 16) | (b1 << 8) | b2`.
unfoldable pub pack : ℕ → ℕ → ℕ → ℕ
pack b0 b1 b2 = bit_or (bit_or (b0 * 2 ^ 16) (b1 * 2 ^ 8)) b2

-- One clause for each length of a chunk of `input.chunks(3)`.
unfoldable pub base64_encode : List ℕ → List ℕ
base64_encode [] = []
base64_encode (b0 ∷ []) =
    let n = pack b0 0 0 in symbol (n / 2 ^ 18) ∷ symbol (n / 2 ^ 12) ∷ b'=' ∷ b'=' ∷ []
base64_encode (b0 ∷ b1 ∷ []) =
    let n = pack b0 b1 0 in
    symbol (n / 2 ^ 18) ∷ symbol (n / 2 ^ 12) ∷ symbol (n / 2 ^ 6) ∷ b'=' ∷ []
base64_encode (b0 ∷ b1 ∷ b2 ∷ rest) =
    let n = pack b0 b1 b2 in
    symbol (n / 2 ^ 18) ∷ symbol (n / 2 ^ 12) ∷ symbol (n / 2 ^ 6) ∷ symbol n ∷ base64_encode rest

unfoldable pub val : ℕ → Option ℕ
val c =
    if leb b'A' c && leb c b'Z'
    then some (c - b'A')
    else if leb b'a' c && leb c b'z'
    then some (c - b'a' + 26)
    else if leb b'0' c && leb c b'9'
    then some (c - b'0' + 52)
    else if c == b'+'
    then some 62
    else if c == b'/'
    then some 63
    else none

-- The bytes of one chunk of four; a shift of a `u8` drops the high bits.
unfoldable pub decode_chunk : ℕ → ℕ → ℕ → ℕ → Option (List ℕ)
decode_chunk c0 c1 c2 c3 = do
  a ← val c0
  b ← val c1
  let first = bit_or (a * 2 ^ 2 % 256) (b / 2 ^ 4)
  if c2 == b'=' then some (first ∷ []) else do
    c ← val c2
    let second = bit_or (b * 2 ^ 4 % 256) (c / 2 ^ 2)
    if c3 == b'='
        then some (first ∷ second ∷ [])
        else do d ← val c3; some (first ∷ second ∷ bit_or (c * 2 ^ 6 % 256) d ∷ [])

-- The loop over `bytes.chunks(4)`; the length is a multiple of four.
unfoldable pub decode_chunks : List ℕ → Option (List ℕ)
decode_chunks (c0 ∷ c1 ∷ c2 ∷ c3 ∷ rest) = do
  out ← decode_chunk c0 c1 c2 c3
  more ← decode_chunks rest
  some (out ++ more)
decode_chunks _ = some []

unfoldable pub base64_decode : List ℕ → Option (List ℕ)
base64_decode [] = some []
base64_decode (c ∷ cs) = if length (c ∷ cs) % 4 == 0 then decode_chunks (c ∷ cs) else none

-- linux/src/session.rs: a loop over the bytes that are no ASCII whitespace.
unfoldable pub is_ascii_whitespace : ℕ → Bool
is_ascii_whitespace b =
    if b == b' '
    then true
    else if b == 0x09
    then true
    else if b == 0x0A
    then true
    else if b == 0x0C
    then true
    else b == 0x0D

padded : ℕ → Option ℕ
padded c = if c == b'=' then some 0 else val c

unfoldable pub host_chunk : ℕ → ℕ → ℕ → ℕ → Option (List ℕ)
unfolding padded
host_chunk c0 c1 c2 c3 = do
  let pad = (if c2 == b'=' then 1 else 0) + (if c3 == b'=' then 1 else 0)
  n0 ← val c0
  n1 ← val c1
  n2 ← padded c2
  n3 ← padded c3
  let decoded = bit_or (bit_or (bit_or (n0 * 2 ^ 18) (n1 * 2 ^ 12)) (n2 * 2 ^ 6)) n3
  let first = bit_and (decoded / 2 ^ 16) 0xFF
  let second = bit_and (decoded / 2 ^ 8) 0xFF
  let third = bit_and decoded 0xFF
  some (first ∷ ((if leb pad 1 then second ∷ [] else []) ++ (if pad == 0 then third ∷ [] else [])))

unfoldable pub host_loop : List ℕ → Option (List ℕ)
host_loop [] = some []
host_loop (c0 ∷ c1 ∷ c2 ∷ c3 ∷ rest) = do
  out ← host_chunk c0 c1 c2 c3
  more ← host_loop rest
  some (out ++ more)
host_loop _ = none

unfoldable pub host_base64_decode : List ℕ → Option (List ℕ)
host_base64_decode input = host_loop (keep_if (λ byte. not (is_ascii_whitespace byte)) input)
