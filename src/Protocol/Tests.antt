-- ===== src/Protocol/Tests.antt =====
-- The frames and the base64 text at concrete bytes.
use fend.Prelude.{ℕ, ◌≤◌, ◌≡◌, refl, List, [], ◌∷◌, ◌++◌, ok, some, arith, length, All}
use fend.Protocol.Frame.{
  output_data, max_payload, read_frame, read_exact, read_payload, write_frame, host_read_frame,
  from_u8, from_be_bytes,
}
use fend.Protocol.Frame.RoundTrip.{
  IsByte, read_frame-write_frame, host_read_frame-read_frame, read_frame_sound,
}
use fend.Protocol.Base64.{base64_encode, host_base64_decode}
use fend.Protocol.Base64.HostDecoder.{host_base64_decode-base64_encode}

abbrev braces : List ℕ
braces = 123 ∷ 125 ∷ []

abbrev stream : List ℕ
stream = 3 ∷ 0 ∷ 0 ∷ 0 ∷ 2 ∷ 123 ∷ 125 ∷ 9 ∷ []

stream_read : read_frame stream ≡ ok ((output_data, braces), 9 ∷ [])
unfolding read_frame read_exact read_payload from_u8 from_be_bytes
stream_read = refl

stream_bytes : All IsByte stream
stream_bytes = (
  omega arith,
  (
    omega arith,
    (omega arith, (omega arith, (omega arith, (omega arith, (omega arith, (omega arith, tt)))))),
  ),
)

read_frame-write_frame_example :
    read_frame (write_frame [] output_data braces ++ 9 ∷ []) ≡ ok ((output_data, braces), 9 ∷ [])
read_frame-write_frame_example = read_frame-write_frame output_data braces (9 ∷ []) (omega arith)

read_frame_sound_example :
    (write_frame [] output_data braces ++ 9 ∷ [] ≡ stream) × (length braces ≤ max_payload)
read_frame_sound_example =
    read_frame_sound stream output_data braces (9 ∷ []) stream_bytes stream_read

host_read_frame-read_frame_example : host_read_frame stream ≡ ok ((3, braces), 9 ∷ [])
host_read_frame-read_frame_example =
    host_read_frame-read_frame stream output_data braces (9 ∷ []) stream_read

many_bytes : All IsByte (255 ∷ 0 ∷ 128 ∷ 7 ∷ [])
many_bytes = (omega arith, (omega arith, (omega arith, (omega arith, tt))))

host_base64_decode-base64_encode_example :
    host_base64_decode (base64_encode (255 ∷ 0 ∷ 128 ∷ 7 ∷ [])) ≡ some (255 ∷ 0 ∷ 128 ∷ 7 ∷ [])
host_base64_decode-base64_encode_example =
    host_base64_decode-base64_encode (255 ∷ 0 ∷ 128 ∷ 7 ∷ []) many_bytes
