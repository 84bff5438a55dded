-- ===== src/Guest/Connection/Delivery.antt =====
-- What the input and the signals of the host do to a command without a terminal.
use fend.Prelude.{
  ℕ, zero, suc, ◌≤◌, ◌<◌, ◌≡◌, refl, sym, ap, subst, ◌∙◌, Bool, true, false, not, some, List, [],
  ◌∷◌, ◌++◌, ◌==◌, if◌then◌else◌, length, All, arith, ==_iff,
}
use fend.Prelude.Int.{ℤ}
use fend.Protocol.Frame.{
  MessageType, input_data, forward_signal, window_size, max_payload, read_frame, read_exact,
  write_frame,
}
use fend.Protocol.Frame.RoundTrip.{IsByte, read_frame-write_frame}
use fend.Protocol.Base64.{base64_encode}
use fend.Protocol.Base64.RoundTrip.{base64_decode-base64_encode}
use fend.Guest.Connection.{
  Json, Action, Child, is_nil, closing, without_stdin, written, on_input, on_signal, on_window,
  on_message, finish, attend,
}

-- A message of the host and the payload that it is sent as.
pub data Message : Type 0 where
  input : ℕ → List ℕ → Message
  signal : ℕ → ℤ → Message
  window : ℕ → ℕ → ℕ → Message

abbrev pub type_of : Message → MessageType
type_of (input id bytes) = input_data
type_of (signal id n) = forward_signal
type_of (window id rows cols) = window_size

-- The guest's parser reads the payload as the message, which fits in a frame.
abbrev pub Reads : Json → Message × List ℕ → Type 0
Reads j (input id bytes, p) =
    All IsByte bytes
    × (j.input p ≡ some (record { id = id; «data» = base64_encode bytes }))
    × (length p ≤ max_payload)
Reads j (signal id n, p) =
    (j.signal p ≡ some (record { id = id; signal = n })) × (length p ≤ max_payload)
Reads j (window id rows cols, p) =
    (j.window p ≡ some (record { id = id; rows = rows; cols = cols })) × (length p ≤ max_payload)

abbrev pub sent : List (Message × List ℕ) → List ℕ
sent [] = []
sent ((m, p) ∷ ms) = write_frame [] (type_of m) p ++ sent ms

-- What the messages for a command give it to read: all input up to the first that is empty.
abbrev pub given : ℕ → List (Message × List ℕ) → List ℕ
given id [] = []
given id ((input i bytes, p) ∷ ms) =
    if i == id then (if is_nil bytes then [] else bytes ++ given id ms) else given id ms
given id ((signal i n, p) ∷ ms) = given id ms
given id ((window i rows cols, p) ∷ ms) = given id ms

abbrev pub signals_for : ℕ → List (Message × List ℕ) → List ℤ
signals_for id [] = []
signals_for id ((input i bytes, p) ∷ ms) = signals_for id ms
signals_for id ((signal i n, p) ∷ ms) = if i == id then n ∷ signals_for id ms else signals_for id ms
signals_for id ((window i rows cols, p) ∷ ms) = signals_for id ms

-- What the actions wrote to the pipe, sent to the process, and how often they closed the pipe.
abbrev pub stdin_bytes : List Action → List ℕ
stdin_bytes [] = []
stdin_bytes (Action.wrote_stdin bytes ∷ as') = bytes ++ stdin_bytes as'
stdin_bytes (_ ∷ as') = stdin_bytes as'

abbrev pub signals : ℕ → List Action → List ℤ
signals pid [] = []
signals pid (Action.killed p n ∷ as') = if p == pid then n ∷ signals pid as' else signals pid as'
signals pid (_ ∷ as') = signals pid as'

abbrev pub closes : List Action → ℕ
closes [] = 0
closes (Action.closed_stdin ∷ as') = suc (closes as')
closes (_ ∷ as') = closes as'

is_nil-base64_encode : (bytes : List ℕ) → is_nil (base64_encode bytes) ≡ is_nil bytes
unfolding base64_encode
is_nil-base64_encode [] = refl
is_nil-base64_encode (a ∷ []) = refl
is_nil-base64_encode (a ∷ b ∷ []) = refl
is_nil-base64_encode (a ∷ b ∷ c ∷ bs) = refl

attend_step :
    (j : Json) (n id : ℕ) (c : Child) (t : MessageType) (p r : List ℕ)
    → length p ≤ max_payload
    → attend j (suc n) id c (write_frame [] t p ++ r)
      ≡ (on_message j id c t p).1 ++ attend j n id (on_message j id c t p).0 r
unfolding attend
attend_step j n id c t p r fits = rw (read_frame-write_frame t p r fits, attend) refl

module _ (j : Json) (pid id : ℕ) where
  abbrev piped : Bool → Child
  piped open' = record { pid = pid; stdin = open'; master = false }

  abbrev Delivered : Bool → List (Message × List ℕ) → List Action → Type 0
  Delivered open' ms acts =
      (stdin_bytes acts ≡ (if open' then given id ms else []))
      × (signals pid acts ≡ signals_for id ms)
      × (closes acts ≡ (if open' then 1 else 0))

  -- What a message does, by the parts of it that the code looks at.
  abbrev done_by : Bool → Message → List Action
  done_by open' (input i bytes) =
      if i == id
      then (if is_nil bytes
          then closing open'
          else if open'
          then Action.wrote_stdin bytes ∷ []
          else [])
      else []
  done_by open' (signal i n) = if i == id then Action.killed pid n ∷ [] else []
  done_by open' (window i rows cols) = []

  abbrev open_after : Bool → Message → Bool
  open_after open' (input i bytes) =
      if i == id then (if is_nil bytes then false else open') else open'
  open_after open' (signal i n) = open'
  open_after open' (window i rows cols) = open'

  input_case :
      (bytes : List ℕ) (ours empty open' : Bool)
      → ◌≡◌ {A = Child × List Action}
          (if not ours
            then (piped open', [])
            else if empty
            then (without_stdin (piped open'), closing open')
            else (piped open', written (piped open') (some bytes)))
          (
            piped (if ours then (if empty then false else open') else open'),
            if ours
                then (if empty
                    then closing open'
                    else if open'
                    then Action.wrote_stdin bytes ∷ []
                    else [])
                else [],
          )
  input_case bytes false empty open' = refl
  input_case bytes true true open' = refl
  input_case bytes true false true = refl
  input_case bytes true false false = refl

  on_message_lem :
      (open' : Bool) (m : Message) (p : List ℕ)
      → Reads j (m, p)
      → on_message j id (piped open') (type_of m) p ≡ (piped (open_after open' m), done_by open' m)
  unfolding on_message on_input on_signal on_window
  on_message_lem open' (input i bytes) p (b, parses, fits) =
      rw (parses, is_nil-base64_encode bytes, base64_decode-base64_encode bytes b)
        (input_case bytes (i == id) (is_nil bytes) open')
  on_message_lem open' (signal i n) p (parses, fits) = rw parses (ground arith)
  on_message_lem open' (window i rows cols) p (parses, fits) = rw parses refl

  deliver_input :
      (bytes taken : List ℕ) (wanted : List ℤ) (ours empty open' : Bool) (rest : List Action)
      → (stdin_bytes rest
          ≡ (if (if ours then (if empty then false else open') else open') then taken else []))
        × (signals pid rest ≡ wanted)
        × (closes rest
            ≡ (if (if ours then (if empty then false else open') else open') then 1 else 0))
      → let acts =
          (if ours
            then (if empty
                then closing open'
                else if open'
                then Action.wrote_stdin bytes ∷ []
                else [])
            else [])
          ++ rest in
        (stdin_bytes acts ≡ (
          if open' then (if ours then (if empty then [] else bytes ++ taken) else taken) else []))
        × (signals pid acts ≡ wanted)
        × (closes acts ≡ (if open' then 1 else 0))
  deliver_input bytes taken wanted false empty open' rest d = d
  deliver_input bytes taken wanted true true true rest (d, e, f) = (d, e, ap suc f)
  deliver_input bytes taken wanted true true false rest d = d
  deliver_input bytes taken wanted true false true rest (d, e, f) = (ap (λ t. bytes ++ t) d, e, f)
  deliver_input bytes taken wanted true false false rest d = d

  deliver_signal :
      (n : ℤ) (taken : List ℕ) (wanted : List ℤ) (ours : Bool) (k : ℕ) (rest : List Action)
      → (stdin_bytes rest ≡ taken) × (signals pid rest ≡ wanted) × (closes rest ≡ k)
      → let acts = (if ours then Action.killed pid n ∷ [] else []) ++ rest in
        (stdin_bytes acts ≡ taken)
        × (signals pid acts ≡ (if ours then n ∷ wanted else wanted))
        × (closes acts ≡ k)
  deliver_signal n taken wanted false k rest d = d
  deliver_signal n taken wanted true k rest (d, e, f) =
      (d, rw ((==_iff pid pid).1 refl) (ap (λ t. n ∷ t) e), f)

  deliver :
      (open' : Bool) (m : Message) (p : List ℕ) (ms : List (Message × List ℕ)) (rest : List Action)
      → Delivered (open_after open' m) ms rest
      → Delivered open' ((m, p) ∷ ms) (done_by open' m ++ rest)
  deliver open' (input i bytes) p ms rest d =
      deliver_input bytes (given id ms) (signals_for id ms) (i == id) (is_nil bytes) open' rest d
  deliver open' (signal i n) p ms rest (d, e, f) =
      deliver_signal n (if open' then given id ms else []) (signals_for id ms) (i == id)
        (if open' then 1 else 0) rest (d, e, f)
  deliver open' (window i rows cols) p ms rest d = d

  finish-Delivered : (open' : Bool) → Delivered open' [] (finish (piped open'))
  finish-Delivered true = (refl, refl, refl)
  finish-Delivered false = (refl, refl, refl)

  fits : (m : Message) (p : List ℕ) → Reads j (m, p) → length p ≤ max_payload
  fits (input i bytes) p h = h.2
  fits (signal i n) p h = h.1
  fits (window i rows cols) p h = h.1

  attend_end : (n : ℕ) (c : Child) → attend j (suc n) id c [] ≡ finish c
  unfolding attend read_frame read_exact
  attend_end n c = refl

  attend_message :
      (n : ℕ) (open' : Bool) (m : Message) (p r : List ℕ)
      → Reads j (m, p)
      → attend j (suc n) id (piped open') (write_frame [] (type_of m) p ++ r)
        ≡ done_by open' m ++ attend j n id (piped (open_after open' m)) r
  attend_message n open' m p r h =
      attend_step j n id (piped open') (type_of m) p r (fits m p h)
      ∙ ap (λ x. x.1 ++ attend j n id x.0 r) (on_message_lem open' m p h)

  attend-Delivered :
      (fuel : ℕ) (open' : Bool) (ms : List (Message × List ℕ))
      → length ms < fuel
      → All (Reads j) ms
      → Delivered open' ms (attend j fuel id (piped open') (sent ms))
  attend-Delivered zero open' ms enough h = absurd (omega arith)
  attend-Delivered (suc n) open' [] enough h =
      subst (Delivered open' []) (sym (attend_end n (piped open'))) (finish-Delivered open')
  attend-Delivered (suc n) open' ((m, p) ∷ ms) enough (first, rest) =
      subst (Delivered open' ((m, p) ∷ ms)) (sym (attend_message n open' m p (sent ms) first))
        (deliver open' m p ms _ (attend-Delivered n (open_after open' m) ms (omega arith) rest))

  -- For any messages of the host, well formed as the guest's parser reads them and each small enough
  -- for a frame, and fuel for one frame more than the messages: a command without a terminal reads
  -- from its input exactly the bytes that were sent for it up to the first empty input, gets exactly
  -- the signals that were sent for it, in order, and sees its input closed once. Messages for
  -- another command do nothing.
  pub attend_delivers :
      (fuel : ℕ) (ms : List (Message × List ℕ))
      → length ms < fuel
      → All (Reads j) ms
      → let acts = attend j fuel id (piped true) (sent ms) in
        (stdin_bytes acts ≡ given id ms)
        × (signals pid acts ≡ signals_for id ms)
        × (closes acts ≡ 1)
  attend_delivers fuel ms enough h = attend-Delivered fuel true ms enough h
