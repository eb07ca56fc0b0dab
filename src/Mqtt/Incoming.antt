-- ===== src/Mqtt/Incoming.antt =====
-- handleIncomingMqtt of cmd/mqtt.go. `announced` are the payloads published on the topic
-- "/available", the newest first; `phev` is none before the first handlePhev. `to_lower` is
-- strings.ToLower, and `replies` are the events that each call of SetRegister sees.
pub mod Acks
pub mod Asked
pub mod Climate
pub mod Frame
pub mod Kept
pub mod Registers
use phev2mqtt.Base.{
  ℕ, Bool, true, false, List, [], ◌∷◌, ◌++◌, bit_or, ◌==◌, if◌then◌else◌, length, codes, same_text,
  replicate, Option, none, some, hex_decode, split_on, has_prefix, last_part,
}
use phev2mqtt.Protocol.Constants.{
  set_ac_mode_register_my14, set_ac_enabled_register_my14, set_ack_pre_ac_term_register,
  set_ac_mode_register_my18,
}
use phev2mqtt.Protocol.Settings.{clear, dump}
use phev2mqtt.Client.State.{
  Client, ModelYear, unknown, my14, my18, my24, add_listener, remove_listener,
}
use phev2mqtt.Client.SetRegister.{
  Event, SetResult, succeeded, timed_out, listener_closed, crashed, pending, set_register,
}
use phev2mqtt.Mqtt.Climate.{resolve_climate_mode}
use phev2mqtt.Mqtt.Publish.{Bridge, topic}

pub record Gateway : Type 0 where
  pub bridge : Bridge
  pub enabled : Bool
  pub announced : List (List ℕ)
  pub phev : Option Client

-- The handler returns, stops the program with a panic, or waits in a call of SetRegister.
pub data Handled : Type 0 where
  returned : Gateway → Handled
  stopped : Handled
  waiting : Gateway → Handled

-- An error of SetRegister ends the handler: `ended` is the gateway after the call, `now` that while
-- it waits.
after_set : SetResult → (ended now : Gateway) → Handled → Handled
after_set succeeded ended now next = next
after_set timed_out ended now next = returned ended
after_set listener_closed ended now next = returned ended
after_set crashed ended now next = stopped
after_set pending ended now next = waiting now

abbrev pub first_reply : List (List Event) → List Event
first_reply [] = []
first_reply (es ∷ ess) = es

abbrev pub later_replies : List (List Event) → List (List Event)
later_replies [] = []
later_replies (es ∷ ess) = ess

-- The client while a call of SetRegister waits: with a listener more, and its attempts on Send.
with_set : ℕ → List ℕ → List Event → Client → Client
unfolding add_listener
with_set register value es c =
    let c' = (add_listener c).1 in
    record c' { sent = c'.sent ++ (set_register register value es).sent }

-- The client after the call, which removes its listener again.
after_call : ℕ → List ℕ → List Event → Client → Client
unfolding with_set remove_listener
after_call register value es c = remove_listener (add_listener c).0 (with_set register value es c)

-- Calls of SetRegister in a row.
set_on : List (ℕ × List ℕ) → List (List Event) → Client → Gateway → Handled
unfolding after_set after_call
set_on [] replies c g = returned (record g { phev = some c })
set_on ((register, value) ∷ ws) replies c g =
    let c' = after_call register value (first_reply replies) c in
    after_set (set_register register value (first_reply replies)).result
      (record g { phev = some c' })
      (record g { phev = some (with_set register value (first_reply replies) c) })
      (set_on ws (later_replies replies) c' g)

-- A method call on a nil client panics.
set_with : Option Client → List (ℕ × List ℕ) → List (List Event) → Gateway → Handled
unfolding set_on
set_with none ws replies g = stopped
set_with (some c) ws replies g = set_on ws replies c g

unfoldable pub set_all : List (ℕ × List ℕ) → List (List Event) → Gateway → Handled
unfolding set_with
set_all ws replies g = set_with g.phev ws replies g

-- `register[0]` of what the topic names; the errors of both decodings return.
register_writes : Option (List ℕ) → Option (List ℕ) → List (List Event) → Gateway → Handled
unfolding set_all
register_writes none data_bytes replies g = returned g
register_writes (some register) none replies g = returned g
register_writes (some []) (some value) replies g = stopped
register_writes (some (r ∷ rs)) (some value) replies g = set_all ((r, value) ∷ []) replies g

-- The parts of the topic: four of them are expected.
register_command : List (List ℕ) → List ℕ → List (List Event) → Gateway → Handled
unfolding register_writes
register_command (a ∷ b ∷ c ∷ d ∷ []) payload replies g =
    register_writes (hex_decode d) (hex_decode payload) replies g
register_command [] payload replies g = returned g
register_command (a ∷ []) payload replies g = returned g
register_command (a ∷ b ∷ []) payload replies g = returned g
register_command (a ∷ b ∷ c ∷ []) payload replies g = returned g
register_command (a ∷ b ∷ c ∷ d ∷ e ∷ es) payload replies g = returned g

-- Client.Close; the error of closing the connection is dropped.
abbrev pub close_client : Client → Client
close_client c = record c { closed = true }

abbrev pub announce : List ℕ → Gateway → Gateway
announce payload g = record g { announced = payload ∷ g.announced }

switch_off : Option Client → Gateway → Handled
switch_off none g = stopped
switch_off (some c) g =
    returned
      (announce (codes "offline") (record g { enabled = false; phev = some (close_client c) }))

restart : Option Client → Gateway → Handled
restart none g = stopped
restart (some c) g =
    returned
      (announce (codes "offline") (record g { enabled = true; phev = some (close_client c) }))

connection_command : List ℕ → Gateway → Handled
unfolding switch_off restart
connection_command payload g =
    if same_text payload (codes "off")
    then switch_off g.phev g
    else if same_text payload (codes "on")
    then returned (record g { enabled = true })
    else if same_text payload (codes "restart")
    then restart g.phev g
    else returned g

lights_command : ℕ → List ℕ → List (List Event) → Gateway → Handled
unfolding set_all
lights_command register payload replies g =
    if same_text payload (codes "on")
    then set_all ((register, 0x1 ∷ []) ∷ []) replies g
    else if same_text payload (codes "off")
    then set_all ((register, 0x2 ∷ []) ∷ []) replies g
    else returned g

reset_command : List ℕ → List (List Event) → Gateway → Handled
unfolding set_all
reset_command payload replies g =
    if same_text payload (codes "reset")
    then set_all ((set_ack_pre_ac_term_register, 0x1 ∷ []) ∷ []) replies g
    else returned g

-- The map durMap.
abbrev pub duration_map : List ℕ → Option ℕ
duration_map payload =
    if same_text payload (codes "10")
    then some 0x0
    else if same_text payload (codes "20")
    then some 0x10
    else if same_text payload (codes "30")
    then some 0x20
    else if same_text payload (codes "on")
    then some 0x0
    else if same_text payload (codes "off")
    then some 0x0
    else none

-- Only the mode off goes without a duration; a missing key reads as 0.
abbrev pub checked_duration : ℕ → Option ℕ → Option (ℕ × ℕ)
checked_duration mode (some duration) = some (mode, duration)
checked_duration mode none = if mode == 0x0 then some (mode, 0x0) else none

resolved : List ℕ → List ℕ → Option ℕ → Option (ℕ × ℕ)
resolved last payload none = none
resolved last payload (some mode) =
    let payload' = if same_text last (codes "mode") then codes "on" else payload in
    checked_duration (if same_text payload' (codes "off") then 0x0 else mode)
      (duration_map payload')

-- The mode and the duration that the last part of the topic and the payload name; `none` where the
-- handler returns.
unfoldable pub climate_request : List ℕ → List ℕ → Option (ℕ × ℕ)
unfolding resolved
climate_request last payload = resolved last payload (resolve_climate_mode last payload)

-- The registers that are set, by the model year.
unfoldable pub climate_writes : ModelYear → ℕ → ℕ → List (ℕ × List ℕ)
climate_writes my14 mode duration =
    (
      set_ac_mode_register_my14,
      0x0 ∷ 0x0 ∷ replicate 4 0xff ++ (bit_or mode duration ∷ replicate 8 0xff),
    )
    ∷ (set_ac_enabled_register_my14, (if mode == 0x0 then 0x1 else 0x2) ∷ [])
    ∷ []
climate_writes my18 mode duration =
    (set_ac_mode_register_my18, (if mode == 0x0 then 0x1 else 0x2) ∷ mode ∷ duration ∷ 0x0 ∷ [])
    ∷ []
climate_writes my24 mode duration =
    (set_ac_mode_register_my18, (if mode == 0x0 then 0x1 else 0x2) ∷ mode ∷ duration ∷ 0x0 ∷ [])
    ∷ []
climate_writes unknown mode duration = []

climate_set : Option (ℕ × ℕ) → Option Client → List (List Event) → Gateway → Handled
unfolding climate_writes set_all
climate_set none phev replies g = returned g
climate_set (some (mode, duration)) none replies g = stopped
climate_set (some (mode, duration)) (some c) replies g =
    set_all (climate_writes c.model_year mode duration) replies g

climate_command : List (List ℕ) → List ℕ → List (List Event) → Gateway → Handled
unfolding climate_set climate_request
climate_command parts payload replies g =
    climate_set (climate_request (last_part parts) payload) g.phev replies g

-- The log line needs the client; then its settings are cleared.
dump_command : Option Client → Gateway → Handled
unfolding clear
dump_command none g = stopped
dump_command (some c) g =
    returned (record g { phev = some (record c { settings = clear c.settings }) })

module _ (to_lower : List ℕ → List ℕ) where
  unfoldable pub handle_incoming : List ℕ → List ℕ → List (List Event) → Gateway → Handled
  unfolding register_command connection_command lights_command reset_command climate_command
      dump_command set_all topic
  handle_incoming t payload replies g =
      if has_prefix t (topic (codes "/set/register/") g.bridge)
      then register_command (split_on b'/' t) payload replies g
      else if same_text t (topic (codes "/connection") g.bridge)
      then connection_command (to_lower payload) g
      else if same_text t (topic (codes "/set/parkinglights") g.bridge)
      then lights_command 0xb (to_lower payload) replies g
      else if same_text t (topic (codes "/set/headlights") g.bridge)
      then lights_command 0xa (to_lower payload) replies g
      else if same_text t (topic (codes "/set/cancelchargetimer") g.bridge)
      then set_all ((0x17, 0x1 ∷ []) ∷ (0x17, 0x11 ∷ []) ∷ []) replies g
      else if has_prefix t (topic (codes "/set/climate/state") g.bridge)
      then reset_command (to_lower payload) replies g
      else if has_prefix t (topic (codes "/set/climate/") g.bridge)
      then climate_command (split_on b'/' t) (to_lower payload) replies g
      else if same_text t (topic (codes "/settings/dump") g.bridge)
      then dump_command g.phev g
      else returned g
