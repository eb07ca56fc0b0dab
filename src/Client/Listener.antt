-- ===== src/Client/Listener.antt =====
-- Listener of client/client.go. `c` is the buffered channel C: the messages in it, at most five,
-- and whether it is closed.
use phev2mqtt.Base.{
  Bool, true, false, List, [], ◌∷◌, ◌++◌, ltb, if◌then◌else◌, length, Outcome, ok, panic,
}
use phev2mqtt.Protocol.Types.{PhevMessage}

pub record Channel : Type 0 where
  pub queue : List PhevMessage
  pub is_closed : Bool

pub record Listener : Type 0 where
  pub c : Channel
  pub stop : Bool

-- The zero value after Start.
unfoldable pub start : Listener
start = record { c = record { queue = []; is_closed = false }; stop = false }

unfoldable pub request_stop : Listener → Listener
request_stop l = record l { stop = true }

-- A send that would block is dropped; one on a closed channel panics.
unfoldable pub send : PhevMessage → Listener → Outcome Listener
send m l =
    if l.c.is_closed
    then panic
    else if ltb (length l.c.queue) 5
    then ok (record l { c = record { queue = l.c.queue ++ (m ∷ []); is_closed = false } })
    else ok l

-- Closing a closed channel panics.
unfoldable pub process_stop : Listener → Outcome (Listener × Bool)
process_stop l =
    if l.stop
    then (if l.c.is_closed
        then panic
        else ok (record { c = record { queue = l.c.queue; is_closed = true }; stop = false }, true))
    else ok (l, false)
