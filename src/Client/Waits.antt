-- ===== src/Client/Waits.antt =====
-- The waits of `manage` on the channel started of client/client.go, which holds two values. `taken`
-- counts the values that calls of Start have received from it: one call receives one at most. The
-- channel Send is taken to have room, as long as the writer goes on.
pub mod Stuck
use phev2mqtt.Base.{ℕ, ◌+◌, Bool, true, false, List, [], ◌∷◌, ltb, if◌then◌else◌}
use phev2mqtt.Protocol.Types.{PhevMessage}
use phev2mqtt.Client.State.{Client, manage}

-- The client, in which a value that waits to be put on started is counted, and whether `manage` waits.
pub record Manager : Type 0 where
  pub client : Client
  pub stuck : Bool

-- One message in the loop of `manage`. A start request is answered before the wait.
unfoldable pub manage_next : ℕ → PhevMessage → Manager → Manager
manage_next taken m s =
    let c = manage m s.client in
    if s.stuck then s else record { client = c; stuck = ltb (taken + 2) c.started }

-- The loop, on the messages that come to its listener.
unfoldable pub manage_loop : ℕ → List PhevMessage → Manager → Manager
unfolding manage_next
manage_loop taken [] s = s
manage_loop taken (m ∷ ms) s = manage_loop taken ms (manage_next taken m s)
