-- ===== src/Session/Ports.antt =====
-- `port_forward_loop` of linux/src/session.rs: the host ports on which the ports of the guest are
-- forwarded. What comes from the guest is a list of bytes and of pauses, each as long as the
-- timeout of the socket; after the list nothing comes.
pub mod Feed
pub mod Following
pub mod Sent
pub mod Composed
pub mod Loss
mod Tests
use text.Mathlib.Text.{◌==◌ as str_eq}
use fend.Prelude.{
  ℕ, zero, suc, ◌^◌, Bool, true, false, not, ◌||◌, Option, none, some, List, [], ◌∷◌, Result, ok,
  err, ltb, ◌==◌, if◌then◌else◌, get_or, keep_if, String,
}
use fend.Protocol.Frame.{max_payload, from_be_bytes}
use fend.Guest.PortMonitor.{PortEventMsg, contains}

pub data Item : Type 0 where
  byte : ℕ → Item
  pause gone : Item

-- The errors of a read that this loop tells apart: a timeout, and any other.
pub data Trouble : Type 0 where
  timed_out broken : Trouble

abbrev pub consed : ℕ → Result Trouble (List ℕ) × List Item → Result Trouble (List ℕ) × List Item
consed b (ok bytes, feed) = (ok (b ∷ bytes), feed)
consed b (err e, feed) = (err e, feed)

-- `Read::read_exact`: the bytes that came before an error are lost.
unfoldable pub read_exact : ℕ → List Item → Result Trouble (List ℕ) × List Item
read_exact zero feed = (ok [], feed)
read_exact (suc n) [] = (err timed_out, [])
read_exact (suc n) (pause ∷ feed) = (err timed_out, feed)
read_exact (suc n) (gone ∷ feed) = (err broken, gone ∷ feed)
read_exact (suc n) (byte b ∷ feed) = consed b (read_exact n feed)

with_kind : ℕ → Result Trouble (List ℕ) × List Item → Result Trouble (ℕ × List ℕ) × List Item
with_kind kind (ok payload, feed) = (ok (kind, payload), feed)
with_kind kind (err e, feed) = (err e, feed)

after_header : Result Trouble (List ℕ) × List Item → Result Trouble (ℕ × List ℕ) × List Item
unfolding with_kind read_exact from_be_bytes
after_header (err e, feed) = (err e, feed)
after_header (ok header, feed) =
    let len =
      from_be_bytes (get_or header 1 0) (get_or header 2 0) (get_or header 3 0)
        (get_or header 4 0) in
    if ltb max_payload len
    then (err broken, feed)
    else with_kind (get_or header 0 0) (read_exact len feed)

unfoldable pub read_frame : List Item → Result Trouble (ℕ × List ℕ) × List Item
unfolding after_header read_exact
read_frame feed = after_header (read_exact 5 feed)

-- What is used of `serde_json`.
pub record Json : Type 1 where
  pub Value : Type 0
  pub from_slice : List ℕ → Option Value
  pub as_u64 : Value → String → Option ℕ
  pub as_str : Value → String → Option String

abbrev pub message_port_event : ℕ
message_port_event = 5

-- The ports with a listener.
abbrev pub Listeners : Type 0
Listeners = List ℕ

module _ (j : Json) where
  unfoldable pub event_of : Option ℕ → Option String → Option PortEventMsg
  event_of none event = none
  event_of (some port) none = none
  event_of (some port) (some event) =
      if ltb port (2 ^ 16) then some (record { port = port; event = event }) else none

  -- The error, which the loop only prints, is left out.
  unfoldable pub parse_port_event : List ℕ → Option PortEventMsg
  unfolding event_of
  parse_port_event payload = elim (j.from_slice payload) [
    | none ↦ none
    | some value ↦ event_of (j.as_u64 value "port") (j.as_str value "event")
  ]

  -- `binds` tells whether a port of the host can be bound, beside the listeners that are there.
  module _ (binds : Listeners → ℕ → Bool) where
    unfoldable pub on_event : PortEventMsg → Listeners → Listeners
    on_event e listeners =
        if str_eq e.event "opened"
        then if contains e.port listeners
          then listeners
          else if binds listeners e.port
          then e.port ∷ listeners
          else listeners
        else if str_eq e.event "closed"
        then keep_if (λ p. not (p == e.port)) listeners
        else listeners

    on_parsed : Option PortEventMsg → Listeners → Listeners
    unfolding on_event
    on_parsed none listeners = listeners
    on_parsed (some e) listeners = on_event e listeners

    unfoldable pub on_frame : ℕ → List ℕ → Listeners → Listeners
    unfolding on_parsed parse_port_event
    on_frame kind payload listeners =
        if kind == message_port_event
        then on_parsed (parse_port_event payload) listeners
        else listeners

    -- The loop waits for what comes next, or has ended and stopped every listener.
    pub data Progress : Type 0 where
      waits : List Item → Listeners → Progress
      ended : Progress

    on_read : Result Trouble (ℕ × List ℕ) × List Item → Listeners → Progress
    unfolding on_frame
    on_read (ok (kind, payload), feed) listeners = waits feed (on_frame kind payload listeners)
    on_read (err timed_out, feed) listeners = waits feed listeners
    on_read (err broken, feed) listeners = ended

    unfoldable pub forward_turn : Progress → Progress
    unfolding on_read read_frame
    forward_turn (waits feed listeners) = on_read (read_frame feed) listeners
    forward_turn ended = ended

    -- That many turns of the loop, before the session ends.
    unfoldable pub port_forward_loop : ℕ → Progress → Progress
    unfolding forward_turn
    port_forward_loop zero p = p
    port_forward_loop (suc n) p = port_forward_loop n (forward_turn p)
