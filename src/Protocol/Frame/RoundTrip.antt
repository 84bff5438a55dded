-- ===== src/Protocol/Frame/RoundTrip.antt =====
-- What a frame's writer wrote, a reader reads back, and nothing else is a frame.
use fend.Prelude.{
  ℕ, zero, suc, ◌/◌, ◌%◌, ◌^◌, ◌≤◌, ◌<◌, ◌≡◌, refl, List, [], ◌∷◌, ◌++◌, ok, err, some, get_or,
  true, false, lt→ltb, arith, ltb, leb, length, take, take-length-append, take-append-drop,
  length-take, All, drop-length-append, take-append-drop, length-take, All, length-append,
  take-append-drop, length-take, All,
}
use mathlib.Core.List.{append_assoc}
use fend.Protocol.Frame.{
  max_payload, MessageType, as_u8, from_u8, payload_too_large, read_exact, to_be_bytes,
  from_be_bytes, read_payload, read_frame, write_frame, host_read_frame,
}

pub from_u8-as_u8 : (t : MessageType) → from_u8 (as_u8 t) ≡ some t
unfolding from_u8
from_u8-as_u8 t = ground arith

-- No byte but a type's own reads as that type.
pub as_u8-from_u8 : (v : ℕ) (t : MessageType) → from_u8 v ≡ some t → as_u8 t ≡ v
unfolding from_u8
as_u8-from_u8 v t h = ground arith

pub from_be-to_be :
    (n : ℕ)
    → n < 2 ^ 32
    → from_be_bytes
        (n % 2 ^ 32 / 2 ^ 24)
        (n % 2 ^ 32 / 2 ^ 16 % 256)
        (n % 2 ^ 32 / 2 ^ 8 % 256)
        (n % 2 ^ 32 % 256)
      ≡ n
unfolding from_be_bytes
from_be-to_be n h = omega arith

read_header :
    (t a b c d : ℕ) (s : List ℕ)
    → read_exact 5 (t ∷ a ∷ b ∷ c ∷ d ∷ s) ≡ ok (t ∷ a ∷ b ∷ c ∷ d ∷ [], s)
unfolding read_exact
read_header t a b c d s = ground arith

leb-length-append : (p s : List ℕ) → leb (length p) (length (p ++ s)) ≡ true
leb-length-append p s = ground (arith, length-append p s)

read_payload-append : (p s : List ℕ) → read_payload (length p) (p ++ s) ≡ ok (p, s)
unfolding read_payload read_exact
read_payload-append [] s = refl
read_payload-append (x ∷ p) s =
    rw (leb-length-append (x ∷ p) s, take-length-append p s, drop-length-append p s)

ltb_of_le : (a b : ℕ) → b ≤ a → ltb a b ≡ false
ltb_of_le a b h = ground arith

-- A frame whose payload is within `max_payload` is read back as written, and what follows it in
-- the stream is left for the next read.
pub read_frame-write_frame :
    (t : MessageType) (p s : List ℕ)
    → length p ≤ max_payload
    → read_frame (write_frame [] t p ++ s) ≡ ok ((t, p), s)
unfolding read_frame write_frame to_be_bytes
read_frame-write_frame t p s h = rw (
  read_header (as_u8 t) _ _ _ _ (p ++ s),
  from_u8-as_u8 t,
  from_be-to_be (length p) (omega arith),
  ltb_of_le max_payload (length p) h,
  read_payload-append p s,
)

-- The writer does not check the size: a payload above `max_payload` (and below 4 GiB) is written,
-- and every reader refuses it.
pub read_frame-oversized :
    (t : MessageType) (p s : List ℕ)
    → max_payload < length p
    → length p < 2 ^ 32
    → read_frame (write_frame [] t p ++ s) ≡ err payload_too_large
unfolding read_frame write_frame to_be_bytes
read_frame-oversized t p s h k = rw (
  read_header (as_u8 t) _ _ _ _ (p ++ s),
  from_u8-as_u8 t,
  from_be-to_be (length p) k,
  lt→ltb max_payload (length p) h,
)

-- What a writer appends does not depend on what it wrote before.
pub write_frame-append :
    (w : List ℕ) (t : MessageType) (p : List ℕ) → write_frame w t p ≡ w ++ write_frame [] t p
unfolding write_frame to_be_bytes
write_frame-append w t p = append_assoc w (as_u8 t ∷ _ ∷ _ ∷ _ ∷ _ ∷ []) p

-- The guest's reader and the host's agree: where the guest reads a frame, the host reads its type
-- byte and the same payload.
pub host_read_frame-read_frame :
    (r : List ℕ) (t : MessageType) (p s : List ℕ)
    → read_frame r ≡ ok ((t, p), s)
    → host_read_frame r ≡ ok ((as_u8 t, p), s)
unfolding read_frame host_read_frame read_exact
host_read_frame-read_frame r t p s h = ground (arith, as_u8-from_u8 (get_or (take 5 r) 0 0) t)

abbrev pub IsByte : ℕ → Type 0
IsByte b = b < 256

to_be-from_be :
    (a b c d : ℕ)
    → IsByte a
    → IsByte b
    → IsByte c
    → IsByte d
    → to_be_bytes (from_be_bytes a b c d) ≡ a ∷ b ∷ c ∷ d ∷ []
unfolding to_be_bytes from_be_bytes
to_be-from_be a b c d ha hb hc hd = ground arith

read_payload_sound :
    (n : ℕ) (r p s : List ℕ) → read_payload n r ≡ ok (p, s) → (p ++ s ≡ r) × (length p ≡ n)
unfolding read_payload read_exact
read_payload_sound zero r p s h = ground arith
read_payload_sound (suc n) r p s h =
    ground (arith, take-append-drop (suc n) r, length-take (suc n) r)

-- Only frames are read: whatever the guest accepts from a stream of bytes is the encoding of what
-- it returns, within `max_payload`, followed by the rest.
pub read_frame_sound :
    (r : List ℕ) (t : MessageType) (p s : List ℕ)
    → All IsByte r
    → read_frame r ≡ ok ((t, p), s)
    → (write_frame [] t p ++ s ≡ r) × (length p ≤ max_payload)
unfolding read_frame read_exact write_frame
read_frame_sound [] t p s b h = cc
read_frame_sound (x ∷ []) t p s b h = cc
read_frame_sound (x ∷ y ∷ []) t p s b h = cc
read_frame_sound (x ∷ y ∷ z ∷ []) t p s b h = cc
read_frame_sound (x ∷ y ∷ z ∷ u ∷ []) t p s b h = cc
read_frame_sound (x ∷ y ∷ z ∷ u ∷ v ∷ r) t p s b h = ground (
  arith,
  as_u8-from_u8 x t,
  read_payload_sound (from_be_bytes y z u v) r p s,
  to_be-from_be y z u v,
)
