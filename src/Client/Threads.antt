-- ===== src/Client/Threads.antt =====
-- How the goroutines of one client of client/client.go take turns: each step is one round of one of
-- them, or one call of a method, and the steps come in any order. The lock lMu makes the calls on
-- the listener table steps of their own. A client is connected once.
pub mod Sound
pub mod Safe
use phev2mqtt.Base.{ℕ, Bool, true, false, List, [], ◌∷◌, ◌==◌, ◌≡◌, if◌then◌else◌, ok}
use phev2mqtt.Protocol.Types.{PhevMessage}
use phev2mqtt.Protocol.Register.Plain.{Clock}
use phev2mqtt.Client.Listener.{Listener, request_stop}
use phev2mqtt.Client.State.{Client, new, address_option, add_listener, remove_listener, manage}
use phev2mqtt.Client.Loops.{reader, reader_error, writer}

abbrev pub after_take : List PhevMessage → Listener → Listener
after_take [] l = l
after_take (m ∷ ms) l = record l { c = record { queue = ms; is_closed = l.c.is_closed } }

-- The owner of a listener takes the first message out of its channel.
abbrev pub take_front : Listener → Listener
take_front l = after_take l.c.queue l

unfoldable pub on_pointer : (Listener → Listener) → ℕ → List (ℕ × Listener) → List (ℕ × Listener)
on_pointer f p [] = []
on_pointer f p ((q, l) ∷ ls) =
    let rest = on_pointer f p ls in if q == p then (q, f l) ∷ rest else (q, l) ∷ rest

abbrev pub with_listeners : List (ℕ × Listener) → Client → Client
with_listeners ls c = record c { listeners = ls }

pub data Step (clock : Clock) (c : Client) : Client → Type 0 where
  -- `reader`, until a read fails.
  reads :
      {c' : Client} (bytes : List ℕ)
      → c.recv_closed ≡ false
      → reader clock bytes c ≡ ok c'
      → Step clock c c'
  read_fails : {c' : Client} → c.recv_closed ≡ false → reader_error c ≡ ok c' → Step clock c c'
  writes :
      {c' : Client} (write_succeeds : Bool) (msg : PhevMessage) (bytes : List ℕ)
      → writer clock write_succeeds msg c ≡ ok (bytes, c')
      → Step clock c c'
  -- `manage`, on a message that it has taken out of the channel of its listener.
  manages : (msg : PhevMessage) → Step clock c (manage msg c)
  -- The end of `manage`, and its Stop of the listener.
  manage_ends :
      (p : ℕ)
      → c.recv_closed ≡ true
      → Step clock c (with_listeners (on_pointer request_stop p c.listeners) c)
  takes : (p : ℕ) → Step clock c (with_listeners (on_pointer take_front p c.listeners) c)
  listens : Step clock c (add_listener c).1
  unlistens : (p : ℕ) → Step clock c (remove_listener p c)
  closes : Step clock c (record c { closed = true })

-- The clients that the steps lead to from a new one.
pub data Reach (clock : Clock) (address : List ℕ) : Client → Type 0 where
  created : Reach clock address (new (address_option address ∷ []))
  stepped : {c c' : Client} → Reach clock address c → Step clock c c' → Reach clock address c'
