-- ===== src/Guest/Subscribers.antt =====
-- The subscribers of the monitors (fendd/src/port_monitor.rs and network_monitor.rs): what has been
-- written to each, and how those whose connection failed are taken out.
pub mod Removal
pub mod Sending
use fend.Prelude.{ℕ, zero, suc, ◌+◌, Bool, true, false, List, [], ◌∷◌, ◌++◌, if◌then◌else◌}

-- A connection with the messages that it has taken. `outcomes` are the results of the next writes;
-- the writes after these succeed.
pub record Subscriber (E : Type 0) : Type 0 where
  pub received : List E
  pub outcomes : List Bool

abbrev outcome : List Bool → Bool
outcome [] = true
outcome (b ∷ bs) = b

abbrev later : List Bool → List Bool
later [] = []
later (b ∷ bs) = bs

module _ {E : Type 0} where
  -- `send_port_event` and `send_network_event`, with the message in place of its frame.
  unfoldable pub send : E → Subscriber E → Subscriber E × Bool
  send event sub =
      if outcome sub.outcomes
      then (record { received = sub.received ++ event ∷ []; outcomes = later sub.outcomes }, true)
      else (record { received = sub.received; outcomes = later sub.outcomes }, false)

  -- A loop of sends that breaks at the first failure.
  unfoldable pub send_all : List E → Subscriber E → Subscriber E × Bool
  unfolding send
  send_all [] sub = (sub, true)
  send_all (event ∷ events) sub =
      let (sub', sent) = send event sub in
      elim sent [ true ↦ send_all events sub' | false ↦ (sub', false) ]

module _ {A : Type 0} where
  abbrev behind : A → List A → List A
  behind x [] = x ∷ []
  behind x (l ∷ front) = l ∷ x ∷ front

  -- The last element in front of the others.
  last_first : List A → List A
  last_first [] = []
  last_first (x ∷ xs) = behind x (last_first xs)

  -- `Vec::swap_remove`: the last element takes the place of the removed one. Out of bounds, where
  -- the code would panic, nothing changes.
  unfoldable pub swap_remove : ℕ → List A → List A
  unfolding last_first
  swap_remove i [] = []
  swap_remove zero (x ∷ xs) = last_first xs
  swap_remove (suc i) (x ∷ xs) = x ∷ swap_remove i xs

  -- `for &i in dead.iter().rev() { swap_remove(i) }`.
  unfoldable pub remove_dead : List ℕ → List A → List A
  unfolding swap_remove
  remove_dead [] xs = xs
  remove_dead (i ∷ dead) xs = swap_remove i (remove_dead dead xs)

-- What each subscriber becomes, and the positions, from `i` on, of those that failed.
module _ {A : Type 0} (notify : A → A × Bool) where
  unfoldable pub notify_all : ℕ → List A → List A × List ℕ
  notify_all i [] = ([], [])
  notify_all i (sub ∷ subs) =
      let (sub', sent) = notify sub in
      let (rest, dead) = notify_all (suc i) subs in (sub' ∷ rest, if sent then dead else i ∷ dead)

  -- A round: all are notified, then the failed ones are taken out.
  unfoldable pub notify_round : List A → List A
  unfolding notify_all remove_dead
  notify_round subs = let (subs', dead) = notify_all 0 subs in remove_dead dead subs'
