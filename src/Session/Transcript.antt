-- ===== src/Session/Transcript.antt =====
-- What the guest sends is what the user sees.
use mathlib.Core.List.{append-nil}
use fend.Prelude.{
  ℕ, zero, suc, ◌≤◌, ◌<◌, ◌≡◌, refl, sym, ap, ◌∙◌, String, List, [], ◌∷◌, ◌++◌, Result, ok, length,
  All, arith,
}
use fend.Prelude.Int.{ℤ}
use fend.Protocol.Frame.{
  MessageType, output_data, exit_status, as_u8, max_payload, write_frame, host_read_frame,
}
use fend.Protocol.Frame.RoundTrip.{IsByte, read_frame-write_frame, host_read_frame-read_frame}
use fend.Protocol.Base64.{base64_encode}
use fend.Protocol.Base64.HostDecoder.{host_base64_decode-base64_encode}
use fend.Session.{
  command_id, OutputData, ExitStatus, SessionError, Json, Terminal, goes_on, leaves, on_data,
  on_output, on_exit, on_frame, follow, send_output, send_exit,
}

pub data Stream : Type 0 where
  stdout stderr : Stream

abbrev pub name : Stream → String
name stdout = "stdout"
name stderr = "stderr"

abbrev pub message : Stream → List ℕ → OutputData
message s bytes = record { id = command_id; stream = name s; «data» = base64_encode bytes }

abbrev pub status : ℤ → ExitStatus
status code = record { id = command_id; code = code }

-- What the guest has written after its outputs and its exit.
abbrev pub sent : Json → List (Stream × List ℕ) → ℤ → List ℕ
sent j [] code = send_exit j [] command_id code
sent j ((s, bytes) ∷ outs) code = send_output j [] command_id (name s) bytes ++ sent j outs code

abbrev pub shown : Stream → List ℕ → Terminal → Terminal
shown stdout bytes t = record t { stdout = t.stdout ++ bytes }
shown stderr bytes t = record t { stderr = t.stderr ++ bytes }

abbrev pub shown_all : List (Stream × List ℕ) → Terminal → Terminal
shown_all [] t = t
shown_all ((s, bytes) ∷ outs) t = shown_all outs (shown s bytes t)

-- The output is bytes, the host's parser reads the message as it was written, and the message fits
-- in a frame.
pub record IsSendable (j : Json) (o : Stream × List ℕ) : Type 0 where
  pub bytes : All IsByte o.1
  pub parses : j.parse_output_data (j.output_to_vec (message o.0 o.1)) ≡ ok (message o.0 o.1)
  pub fits : length (j.output_to_vec (message o.0 o.1)) ≤ max_payload

pub below_zero : {n : ℕ} → n < 0 → ⊥
below_zero lt = elim lt [ ]

pub host_read-write :
    (t : MessageType) (p s : List ℕ)
    → length p ≤ max_payload
    → host_read_frame (write_frame [] t p ++ s) ≡ ok ((as_u8 t, p), s)
host_read-write t p s fits =
    host_read_frame-read_frame (write_frame [] t p ++ s) t p s (read_frame-write_frame t p s fits)

on_frame-message :
    (j : Json) (t : Terminal) (s : Stream) (bytes : List ℕ)
    → IsSendable j (s, bytes)
    → on_frame j t 3 (j.output_to_vec (message s bytes)) ≡ goes_on (shown s bytes t)
unfolding on_frame on_output on_data
on_frame-message j t stdout bytes v =
    rw (v.parses, host_base64_decode-base64_encode bytes v.bytes) refl
on_frame-message j t stderr bytes v =
    rw (v.parses, host_base64_decode-base64_encode bytes v.bytes) refl

on_frame-status :
    (j : Json) (t : Terminal) (code : ℤ)
    → j.parse_exit_status (j.exit_to_vec (status code)) ≡ ok (status code)
    → on_frame j t 4 (j.exit_to_vec (status code)) ≡ leaves (ok code) t
unfolding on_frame on_exit
on_frame-status j t code parses = rw parses refl

follow_goes_on :
    (j : Json) (n : ℕ) (r rest : List ℕ) (kind : ℕ) (payload : List ℕ) (t t1 : Terminal)
    → host_read_frame r ≡ ok ((kind, payload), rest)
    → on_frame j t kind payload ≡ goes_on t1
    → follow j (suc n) r t ≡ follow j n rest t1
unfolding follow
follow_goes_on j n r rest kind payload t t1 read turn = rw (read, follow, turn) refl

follow_leaves :
    (j : Json) (n : ℕ) (r rest : List ℕ) (kind : ℕ) (payload : List ℕ) (t t1 : Terminal)
    (result : Result SessionError ℤ)
    → host_read_frame r ≡ ok ((kind, payload), rest)
    → on_frame j t kind payload ≡ leaves result t1
    → follow j (suc n) r t ≡ (result, t1)
unfolding follow
follow_leaves j n r rest kind payload t t1 result read turn = rw (read, follow, turn) refl

read-send_exit :
    (j : Json) (code : ℤ)
    → length (j.exit_to_vec (status code)) ≤ max_payload
    → host_read_frame (send_exit j [] command_id code) ≡ ok ((4, j.exit_to_vec (status code)), [])
unfolding send_exit
read-send_exit j code fits =
    ap host_read_frame (sym (append-nil (write_frame [] exit_status (j.exit_to_vec (status code)))))
    ∙ host_read-write exit_status (j.exit_to_vec (status code)) [] fits

read-send_output :
    (j : Json) (s : Stream) (bytes rest : List ℕ)
    → IsSendable j (s, bytes)
    → host_read_frame (send_output j [] command_id (name s) bytes ++ rest)
      ≡ ok ((3, j.output_to_vec (message s bytes)), rest)
unfolding send_output
read-send_output j s bytes rest v =
    host_read-write output_data (j.output_to_vec (message s bytes)) rest v.fits

-- The host's loop, reading what the guest sent for any outputs and an exit, shows each output on
-- its stream, in order and complete, and returns the exit code of the command; fuel for one frame
-- more than the outputs is enough. The host's parser is to read the messages as they were written,
-- and each message is to fit in a frame.
pub follow-sent :
    (j : Json) (outs : List (Stream × List ℕ)) (code : ℤ) (fuel : ℕ) (t : Terminal)
    → length outs < fuel
    → All (IsSendable j) outs
    → j.parse_exit_status (j.exit_to_vec (status code)) ≡ ok (status code)
    → length (j.exit_to_vec (status code)) ≤ max_payload
    → follow j fuel (sent j outs code) t ≡ (ok code, shown_all outs t)
follow-sent j outs code zero t enough v parses fits = absurd (below_zero enough)
follow-sent j [] code (suc n) t enough v parses fits =
    follow_leaves j n (send_exit j [] command_id code) [] 4 (j.exit_to_vec (status code)) t t
      (ok code) (read-send_exit j code fits) (on_frame-status j t code parses)
follow-sent j ((s, bytes) ∷ outs) code (suc n) t enough (first, rest) parses fits =
    follow_goes_on j n _ (sent j outs code) 3 (j.output_to_vec (message s bytes)) t
      (shown s bytes t) (read-send_output j s bytes (sent j outs code) first)
      (on_frame-message j t s bytes first)
    ∙ follow-sent j outs code n (shown s bytes t) (omega arith) rest parses fits
