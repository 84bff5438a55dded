-- ===== src/Ipc/Wire.antt =====
-- `write_message` and `read_message` of linux/src/ipc.rs. The reader is the bytes that are to come,
-- the writer those written so far; `to_vec` and `from_slice` are those of serde_json.
pub mod RoundTrip
mod Tests
use fend.Prelude.{
  ℕ, ◌*◌, Option, none, some, List, [], ◌∷◌, ◌++◌, Result, ok, err, ltb, leb, if◌then◌else◌, length,
  take, drop, get_or,
}
use fend.Protocol.Frame.{to_be_bytes, from_be_bytes}

abbrev pub max_message_size : ℕ
max_message_size = 1024 * 1024

pub data IoError : Type 0 where
  unexpected_eof invalid_input invalid_data : IoError

pub record Serde (T : Type 0) : Type 0 where
  pub to_vec : T → Option (List ℕ)
  pub from_slice : List ℕ → Option T

-- `Read::read_exact` into n bytes, and what is done with them.
unfoldable pub then_read :
    {A : Type 0} → ℕ → List ℕ → (List ℕ → List ℕ → Result IoError A) → Result IoError A
then_read n reader next =
    if leb n (length reader) then next (take n reader) (drop n reader) else err unexpected_eof

module _ {T : Type 0} (s : Serde T) where
  written : Option (List ℕ) → List ℕ → Result IoError (List ℕ)
  unfolding to_be_bytes
  written none writer = err invalid_data
  written (some bytes) writer =
      if ltb max_message_size (length bytes)
      then err invalid_input
      else ok (writer ++ (to_be_bytes (length bytes) ++ bytes))

  unfoldable pub write_message : T → List ℕ → Result IoError (List ℕ)
  unfolding written
  write_message message writer = written (s.to_vec message) writer

  parsed : Option T → List ℕ → Result IoError (T × List ℕ)
  parsed none reader = err invalid_data
  parsed (some message) reader = ok (message, reader)

  unfoldable pub read_message : List ℕ → Result IoError (T × List ℕ)
  unfolding then_read parsed from_be_bytes
  read_message reader = then_read 4 reader (λ len_buf reader1.
      let len =
        from_be_bytes (get_or len_buf 0 0) (get_or len_buf 1 0) (get_or len_buf 2 0)
          (get_or len_buf 3 0) in
      if ltb max_message_size len
      then err invalid_data
      else then_read len reader1 (λ buf reader2. parsed (s.from_slice buf) reader2))
