-- ===== src/Mqtt/Session.antt =====
-- handlePhev of cmd/mqtt.go: one connection to the car, as a function of the events that its loop
-- and the handler of incoming topics see, in their order. Times are in nanoseconds; the zero time
-- is none. `updates` counts the goroutines that the ticker starts. The fields lastConnect and
-- lastError, which Run reads, are those of Mqtt/Run.
pub mod Acks
pub mod Burst
pub mod Errors
use phev2mqtt.Base.{
  ℕ, ◌+◌, ◌-◌, Bool, true, false, List, [], ◌∷◌, ◌++◌, ltb, ◌==◌, if◌then◌else◌, codes, Option,
  none, some,
}
use phev2mqtt.Protocol.Constants.{
  cmd_in_bad_encoding, cmd_in_resp, cmd_out_send, request_flag, ack_flag,
}
use phev2mqtt.Protocol.Types.{PhevMessage, empty_message}
use phev2mqtt.Client.State.{Client, new, address_option}
use phev2mqtt.Client.SetRegister.{
  Event, StartEvent, StartResult, ready, no_receiver, start_timed_out, await_start,
}
use phev2mqtt.Mqtt.Publish.{publish_register}
use phev2mqtt.Mqtt.Incoming.{
  Gateway, Handled, returned, stopped, waiting, close_client, announce, handle_incoming,
}

pub record Session : Type 0 where
  pub gateway : Gateway
  pub error_count : ℕ
  pub last_encoding_error : Option ℕ
  pub updates : ℕ

-- The ticker, a message on Recv at a time, the end of Recv, or a message of the broker with the
-- events that the calls of SetRegister for it see.
pub data SessionEvent : Type 0 where
  tick : SessionEvent
  received : ℕ → PhevMessage → SessionEvent
  receive_ended : SessionEvent
  incoming : (t payload : List ℕ) → List (List Event) → SessionEvent

pub data SessionEnd : Type 0 where
  connection_closed too_many_errors : SessionEnd

-- The loop goes on, handlePhev has returned an error, or a panic has stopped the program.
pub data Progress : Type 0 where
  going : Session → Progress
  over : SessionEnd → Session → Progress
  halted : Progress

-- More than 15 seconds since the last encoding error.
abbrev pub is_stale : ℕ → Option ℕ → Bool
is_stale now none = true
is_stale now (some last) = ltb 15000000000 (now - last)

abbrev pub with_client : Client → Session → Session
with_client c s = record s { gateway = record s.gateway { phev = some c } }

encoding_error : ℕ → Client → Session → Progress
encoding_error now c s =
    let n = if is_stale now s.last_encoding_error then 0 else s.error_count in
    if ltb 50 n
    then over too_many_errors (with_client (close_client c) (record s { error_count = n }))
    else going (record s { error_count = n + 1; last_encoding_error = some now })

abbrev pub ack_message : PhevMessage → PhevMessage
ack_message msg = record empty_message {
  typ = cmd_out_send;
  register = msg.register;
  ack = ack_flag;
  xor = msg.xor;
  data_bytes = 0x0 ∷ [];
}

after_incoming : Handled → Session → Progress
after_incoming (returned g) s = going (record s { gateway = g })
after_incoming (waiting g) s = going (record s { gateway = g })
after_incoming stopped s = halted

module _ (to_lower : List ℕ → List ℕ) (configs : List ℕ → List (List ℕ × List ℕ)) where
  -- The message is published, and an acknowledgement put on Send.
  notified : PhevMessage → Client → Session → Session
  notified msg c s = record s {
    gateway = record s.gateway {
      bridge = publish_register configs msg s.gateway.bridge;
      phev = some (record c { sent = c.sent ++ (ack_message msg ∷ []) });
    };
  }

  receive : ℕ → PhevMessage → Client → Session → Progress
  unfolding encoding_error notified
  receive now msg c s =
      if msg.typ == cmd_in_bad_encoding
      then encoding_error now c s
      else if msg.typ == cmd_in_resp
      then (if msg.ack == request_flag then going (notified msg c s) else going s)
      else going s

  -- A read of the channel of a nil client panics.
  step_with : Option Client → SessionEvent → Session → Progress
  unfolding receive after_incoming
  step_with none e s = halted
  step_with (some c) tick s = going (record s { updates = s.updates + 1 })
  step_with (some c) (received now msg) s = receive now msg c s
  step_with (some c) receive_ended s = over connection_closed s
  step_with (some c) (incoming t payload replies) s =
      after_incoming (handle_incoming to_lower t payload replies s.gateway) s

  unfoldable pub step : SessionEvent → Session → Progress
  unfolding step_with
  step e s = step_with s.gateway.phev e s

  continue : List SessionEvent → Progress → Progress
  continue [] p = p
  continue (e ∷ es) (going s) = continue es (step e s)
  continue (e ∷ es) (over r s) = over r s
  continue (e ∷ es) halted = halted

  -- The loop on the events.
  unfoldable pub run_session : List SessionEvent → Session → Progress
  unfolding continue
  run_session es s = continue es (going s)

  -- The client is made and connected, `connects` says whether without an error, and started.
  started_with : StartResult → List SessionEvent → Gateway → Option Progress
  unfolding run_session
  started_with ready es g = some (
      run_session es (record {
        gateway = announce (codes "online") g;
        error_count = 0;
        last_encoding_error = none;
        updates = 0;
      }))
  started_with no_receiver es g = none
  started_with start_timed_out es g = none

  -- `none` where handlePhev returns before its loop.
  unfoldable pub handle_phev :
      (address : List ℕ) (connects : Bool)
      → StartEvent
      → List SessionEvent
      → Gateway
      → Gateway × Option Progress
  unfolding started_with
  handle_phev address connects e es g =
      let g' : Gateway = record g { phev = some (new (address_option address ∷ [])) } in
      (g', if connects then started_with (await_start e) es g' else none)
