-- ===== src/Client/SetRegister.antt =====
-- SetRegister, Start and nextRecvMsg of client/client.go, as functions of the events that their `select`s see.
use phev2mqtt.Base.{ℕ, List, [], ◌∷◌, ◌==◌, ◌&&◌, if◌then◌else◌, none, some, get_elem?}
use phev2mqtt.Protocol.Constants.{
  cmd_out_send, cmd_in_resp, cmd_in_bad_encoding, request_flag, ack_flag,
}
use phev2mqtt.Protocol.Types.{PhevMessage, empty_message}

-- The timer of an attempt fires, the listener's channel is closed, or a message arrives on it.
pub data Event : Type 0 where
  timer closed : Event
  message : PhevMessage → Event

pub data SetResult : Type 0 where
  succeeded timed_out listener_closed crashed pending : SetResult

-- What was put on the channel Send, and how the call ended; `pending` while it still waits.
pub record SetRun : Type 0 where
  pub sent : List PhevMessage
  pub result : SetResult

abbrev pub set_message : ℕ → List ℕ → ℕ → PhevMessage
set_message register value xor = record empty_message {
  typ = cmd_out_send;
  ack = request_flag;
  register = register;
  data_bytes = value;
  xor = xor;
}

abbrev pub ended : SetResult → SetRun
ended r = record { sent = []; result = r }

abbrev pub prepend : PhevMessage → SetRun → SetRun
prepend m r = record { sent = m ∷ r.sent; result = r.result }

-- The inner loop over the events after an attempt was sent. A reply of type CmdInBadEncoding names
-- the xor byte for the next attempt; one without data makes `msg.Data[0]` panic.
unfoldable pub await_reply : ℕ → List ℕ → List Event → SetRun
await_reply register value [] = ended pending
await_reply register value (timer ∷ es) = ended timed_out
await_reply register value (closed ∷ es) = ended listener_closed
await_reply register value (message m ∷ es) =
    let rest = await_reply register value es in
    if m.typ == cmd_in_bad_encoding
    then elim (get_elem? m.data_bytes 0) [
      | none ↦ ended crashed
      | some xor ↦ prepend (set_message register value xor) rest
    ]
    else if m.typ == cmd_in_resp && m.ack == ack_flag && m.register == register
    then ended succeeded
    else rest

unfoldable pub set_register : ℕ → List ℕ → List Event → SetRun
unfolding await_reply
set_register register value es =
    prepend (set_message register value 0) (await_reply register value es)

-- The first event that Start sees.
pub data StartEvent : Type 0 where
  started receiver_closed start_timer : StartEvent

pub data StartResult : Type 0 where
  ready no_receiver start_timed_out : StartResult

unfoldable pub await_start : StartEvent → StartResult
await_start started = ready
await_start receiver_closed = no_receiver
await_start start_timer = start_timed_out

-- The first event that nextRecvMsg sees.
pub data RecvEvent : Type 0 where
  arrived : PhevMessage → RecvEvent
  recv_closed recv_timer : RecvEvent

pub data RecvResult : Type 0 where
  got : PhevMessage → RecvResult
  channel_closed recv_timed_out : RecvResult

unfoldable pub next_recv_msg : RecvEvent → RecvResult
next_recv_msg (arrived m) = got m
next_recv_msg recv_closed = channel_closed
next_recv_msg recv_timer = recv_timed_out
