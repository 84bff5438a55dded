-- ===== src/Guest/Connection.antt =====
-- fendd/src/connection.rs: one connection from the host, as the list of what the guest daemon does.
pub mod Delivery
mod Tests
use fend.Prelude.{
  ℕ, zero, suc, Bool, true, false, not, Option, none, some, List, [], ◌∷◌, ◌++◌, Result, ok, err,
  ◌==◌, if◌then◌else◌,
}
use fend.Prelude.Int.{ℤ}
use fend.Protocol.Frame.{
  MessageType, execute_command, input_data, forward_signal, window_size, read_frame,
}
use fend.Protocol.Base64.{base64_decode}
use fend.Process.{ExecuteCommand}

-- The text of the data is the list of its bytes.
pub record InputData : Type 0 where
  pub id : ℕ
  pub «data» : List ℕ

pub record ForwardSignal : Type 0 where
  pub id : ℕ
  pub signal : ℤ

pub record WindowSizeMsg : Type 0 where
  pub id : ℕ
  pub rows : ℕ
  pub cols : ℕ

-- `serde_json::from_slice` at the four messages of the host.
pub record Json : Type 0 where
  pub execute : List ℕ → Option ExecuteCommand
  pub input : List ℕ → Option InputData
  pub signal : List ℕ → Option ForwardSignal
  pub window : List ℕ → Option WindowSizeMsg

pub data Action : Type 0 where
  sent_ready : Action
  spawned : Bool → ExecuteCommand → Action
  wrote_stdin : List ℕ → Action
  wrote_terminal : List ℕ → Action
  closed_stdin : Action
  killed : ℕ → ℤ → Action
  resized : ℕ → ℕ → Action
  closed_terminal : Action
  waited : Action

-- What `spawn` and `spawn_pty` give: a child with an input pipe, or one on a terminal.
pub record Child : Type 0 where
  pub pid : ℕ
  pub stdin : Bool
  pub master : Bool

abbrev pub closing : Bool → List Action
closing true = closed_stdin ∷ []
closing false = []

abbrev pub without_stdin : Child → Child
without_stdin c = record c { stdin = false }

-- The write of a decoded input: to the terminal if there is one, else to the pipe if it is open.
abbrev pub written : Child → Option (List ℕ) → List Action
written c none = []
written c (some bytes) =
    if c.master then wrote_terminal bytes ∷ [] else if c.stdin then wrote_stdin bytes ∷ [] else []

abbrev pub is_nil : List ℕ → Bool
is_nil [] = true
is_nil (b ∷ bs) = false

unfoldable pub on_input : ℕ → Child → Option InputData → Child × List Action
on_input id c none = (c, [])
on_input id c (some i) =
    if not (i.id == id)
    then (c, [])
    else if is_nil i.«data»
    then (without_stdin c, closing c.stdin)
    else (c, written c (base64_decode i.«data»))

unfoldable pub on_signal : ℕ → Child → Option ForwardSignal → Child × List Action
on_signal id c none = (c, [])
on_signal id c (some s) = if not (s.id == id) then (c, []) else (c, killed c.pid s.signal ∷ [])

unfoldable pub on_window : ℕ → Child → Option WindowSizeMsg → Child × List Action
on_window id c none = (c, [])
on_window id c (some w) =
    if not c.master
    then (c, [])
    else if not (w.id == id)
    then (c, [])
    else (c, resized w.rows w.cols ∷ [])

unfoldable pub on_message : Json → ℕ → Child → MessageType → List ℕ → Child × List Action
unfolding on_input on_signal on_window
on_message j id c MessageType.input_data payload = on_input id c (j.input payload)
on_message j id c MessageType.forward_signal payload = on_signal id c (j.signal payload)
on_message j id c MessageType.window_size payload = on_window id c (j.window payload)
on_message j id c _ payload = (c, [])

-- After the loop.
abbrev pub finish : Child → List Action
finish c = closing c.stdin ++ ((if c.master then closed_terminal ∷ [] else []) ++ waited ∷ [])

-- The loop, on fuel: one unit for each frame.
unfoldable pub attend : Json → ℕ → ℕ → Child → List ℕ → List Action
unfolding on_message
attend j zero id c r = finish c
attend j (suc fuel) id c r = elim (read_frame r) [
  | err e ↦ finish c
  | ok ((msg_type, payload), rest) ↦
      let (c', actions) = on_message j id c msg_type payload in actions ++ attend j fuel id c' rest
]

abbrev is_execute : MessageType → Bool
is_execute MessageType.execute_command = true
is_execute _ = false

start :
    Json → ℕ → (Bool → ExecuteCommand → Option Child) → Option ExecuteCommand → List ℕ → List Action
unfolding attend
start j fuel spawn none r = []
start j fuel spawn (some cmd) r =
    spawned cmd.tty cmd
    ∷ (elim (spawn cmd.tty cmd) [ none ↦ [] | some c ↦ attend j fuel cmd.id c r ])

-- `handle`, once the connection was cloned and `Ready` was written to it.
unfoldable pub handle : Json → ℕ → (Bool → ExecuteCommand → Option Child) → List ℕ → List Action
unfolding start
handle j fuel spawn r = sent_ready ∷ (elim (read_frame r) [
  | err e ↦ []
  | ok ((msg_type, payload), rest) ↦ elim (is_execute msg_type) [
    | true ↦ start j fuel spawn (j.execute payload) rest
    | false ↦ []
  ]
])
